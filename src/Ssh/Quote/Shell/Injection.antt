-- ===== src/Ssh/Quote/Shell/Injection.antt =====
-- A value that `_q` has quoted, put inside another pair of quotes, as `set_max_logins` does.
use ssh_panel_vpn.Common.{
  ℕ, ◌≡◌, refl, sym, ap, Bool, true, false, not, ◌&&◌, some, [], ◌∷◌, ◌++◌, every, ◌==◌,
  if◌then◌else◌, arith, ◌∙◌, and_true,
}
use ssh_panel_vpn.Common.Text.{Text, codes}
use mathlib.Core.List.{append_assoc}
use ssh_panel_vpn.Ssh.Quote.{q, escape_quotes}
use ssh_panel_vpn.Ssh.Quote.Shell.{Mode, read, read_word, ends_word, expands, push}
use ssh_panel_vpn.Ssh.Limits.{max_logins_command}

-- A character that stands for itself outside of quotes: no quote, backslash, blank, operator or
-- start of an expansion.
abbrev pub is_plain : ℕ → Bool
is_plain c = not (c == 39) && not (c == 92) && not (ends_word c) && not (expands c)

read_plain :
    (c : ℕ) (s word rest : Text)
    → is_plain c ≡ true
    → read Mode.plain s ≡ some (word, rest)
    → read Mode.plain (c ∷ s) ≡ some (c ∷ word, rest)
unfolding read
read_plain c s word rest p e = ground arith

read_unquoted :
    (a rest : Text)
    → every is_plain a ≡ true
    → read Mode.plain (escape_quotes a ++ 59 ∷ rest) ≡ some (a, 59 ∷ rest)
unfolding escape_quotes
read_unquoted [] rest h = unfold read in refl
read_unquoted (c ∷ a) rest h =
    let (p, r) = and_true (is_plain c) (every is_plain a) h in
    let n : (c == 39) ≡ false = ground arith in
    rw n (read_plain c _ a (59 ∷ rest) p (read_unquoted a rest r))

escape_quotes-append : (a b : Text) → escape_quotes (a ++ b) ≡ escape_quotes a ++ escape_quotes b
unfolding escape_quotes
escape_quotes-append [] b = refl
escape_quotes-append (c ∷ a) b =
    ap (λ t. (if c == 39 then 39 ∷ 92 ∷ 39 ∷ 39 ∷ [] else c ∷ []) ++ t) (escape_quotes-append a b)
    ∙ sym (append_assoc (if c == 39 then 39 ∷ 92 ∷ 39 ∷ 39 ∷ [] else c ∷ []) (escape_quotes a) _)

max_logins_command_head :
    (u : Text) (n : ℕ)
    → (rest : Text) × (max_logins_command u n ≡ codes "grep -q " ++ (39 ∷ 94 ∷ q u ++ 39 ∷ rest))
unfolding max_logins_command codes
max_logins_command_head u n = (_, refl)

-- Between `'^` and `'`, the quotes that `_q` writes close and open the outer ones.
read_word-unquoted :
    (a b rest : Text)
    → every is_plain a ≡ true
    → read_word (39 ∷ 94 ∷ q (a ++ 59 ∷ b) ++ 39 ∷ rest)
      ≡ some (94 ∷ a, 59 ∷ escape_quotes b ++ 39 ∷ 39 ∷ rest)
unfolding read_word read q
read_word-unquoted a b rest h =
    let tail = escape_quotes b in
    rw
      (
        escape_quotes-append a (59 ∷ b),
        append_assoc (escape_quotes a ++ 59 ∷ tail) (39 ∷ []) (39 ∷ rest),
        append_assoc (escape_quotes a) (59 ∷ tail) (39 ∷ 39 ∷ rest),
      )
      (ap (push 94) (read_unquoted a (tail ++ 39 ∷ 39 ∷ rest) h))

-- `_q` inside quotes does not quote: of a username that is plain characters, a semicolon and any
-- text, the first command of `set_max_logins` ends at the semicolon, and a shell reads the text
-- behind it, each single quote in it escaped, as the commands that follow.
pub max_logins_command-injects :
    (a b : Text) (n : ℕ)
    → every is_plain a ≡ true
    → (t : Text) × (rest : Text) × (max_logins_command (a ++ 59 ∷ b) n ≡ codes "grep -q " ++ t)
      × (read_word t ≡ some (94 ∷ a, 59 ∷ escape_quotes b ++ rest))
max_logins_command-injects a b n h =
    let (rest, e) = max_logins_command_head (a ++ 59 ∷ b) n in
    (39 ∷ 94 ∷ q (a ++ 59 ∷ b) ++ 39 ∷ rest, 39 ∷ 39 ∷ rest, e, read_word-unquoted a b rest h)
