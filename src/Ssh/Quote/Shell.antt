-- ===== src/Ssh/Quote/Shell.antt =====
-- How a shell reads the words that `_q` writes: the quoting rules of POSIX, for words without
-- expansions. Between single quotes every character stands for itself; after a backslash the next
-- one does; a blank or an operator character ends a word.
pub mod Injection
use ssh_panel_vpn.Common.{
  ℕ, ◌≡◌, refl, ap, Bool, true, ◌||◌, Option, none, some, [], ◌∷◌, ◌++◌, ◌==◌, if◌then◌else◌, arith,
  inl, inr, Bool-cases, ==_iff, ◌∙◌,
}
use ssh_panel_vpn.Common.Text.{Text}
use mathlib.Core.List.{append_assoc}
use ssh_panel_vpn.Ssh.Quote.{q, escape_quotes}

pub data Mode : Type 0 where
  plain escaped quoted : Mode

abbrev pub ends_word : ℕ → Bool
ends_word c =
    c == 32
    || c == 9
    || c == 10
    || c == 59
    || c == 38
    || c == 124
    || c == 60
    || c == 62
    || c == 40
    || c == 41

-- A character that starts an expansion: `$`, a backquote, a double quote, `*`, `?`, `[`.
abbrev pub expands : ℕ → Bool
expands c = c == 36 || c == 96 || c == 34 || c == 42 || c == 63 || c == 91

abbrev pub Reading : Type 0
Reading = Option (Text × Text)

abbrev pub push : ℕ → Reading → Reading
push c none = none
push c (some (word, rest)) = some (c ∷ word, rest)

abbrev push_all : Text → Reading → Reading
push_all [] r = r
push_all (c ∷ s) r = push c (push_all s r)

-- The value of the first word, and the text behind it; `none` where a quote is not closed or an
-- expansion begins.
unfoldable pub read : Mode → Text → Reading
read plain [] = some ([], [])
read escaped [] = none
read quoted [] = none
read escaped (c ∷ s) = push c (read plain s)
read quoted (c ∷ s) =
    let closed = read plain s in
    let longer = push c (read quoted s) in if c == 39 then closed else longer
read plain (c ∷ s) =
    let opened = read quoted s in
    let skipped = read escaped s in
    let longer = push c (read plain s) in
    if c == 39
    then opened
    else if c == 92
    then skipped
    else if ends_word c
    then some ([], c ∷ s)
    else if expands c
    then none
    else longer

pub read_word : Text → Reading
unfolding read
read_word s = read plain s

read-escape_quotes :
    (v t : Text) → read quoted (escape_quotes v ++ 39 ∷ t) ≡ push_all v (read plain t)
unfolding read escape_quotes
read-escape_quotes [] t = refl
read-escape_quotes (c ∷ v) t = elim (Bool-cases (c == 39)) [
  | inl e ↦ rw (e, (==_iff c 39).0 e) (ap (push 39) (read-escape_quotes v t))
  | inr e ↦ rw (e, e) (ap (push c) (read-escape_quotes v t))
]

push_all-some : (v rest : Text) → push_all v (some ([], rest)) ≡ some (v, rest)
push_all-some [] rest = refl
push_all-some (c ∷ v) rest = rw (push_all-some v rest)

-- The end of the text, or a character that ends a word.
abbrev pub IsDelimited : Text → Type 0
IsDelimited [] = Unit
IsDelimited (c ∷ s) = ends_word c ≡ true

read-delimited : (rest : Text) → IsDelimited rest → read plain rest ≡ some ([], rest)
unfolding read
read-delimited [] h = refl
read-delimited (c ∷ s) h = ground arith

-- Where a blank, an operator or the end of the command follows, a shell reads what `_q` writes for
-- a value as one word, and that word is the value: no character of it, a quote or a separator
-- included, is read as anything else.
pub read_word-q : (v rest : Text) → IsDelimited rest → read_word (q v ++ rest) ≡ some (v, rest)
unfolding read_word q read
read_word-q v rest h =
    ap (read quoted) (append_assoc (escape_quotes v) (39 ∷ []) rest)
    ∙ read-escape_quotes v rest
    ∙ ap (push_all v) (read-delimited rest h)
    ∙ push_all-some v rest
