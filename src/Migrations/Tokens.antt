-- ===== src/Migrations/Tokens.antt =====
-- What the migration accounts/migrations/0004_populate_auth_tokens.py leaves in the column that the
-- next migration makes unique.
use ssh_panel_vpn.Common.{
  ℕ, ◌<◌, ◌≡◌, ◌≢◌, refl, ◌∙◌, sym, ap, false, List, [], ◌∷◌, ◌++◌, All, length, ◌==◌, ==_refl,
  arith,
}
use ssh_panel_vpn.Models.{Account}
use ssh_panel_vpn.Effects.{
  Env, World, Trace, drew_random, ok, ◌>>=◌, new_uuid, modify, get_db, pure,
}
use ssh_panel_vpn.Database.{change_row}
use ssh_panel_vpn.Seeds.{populate_one, populate_rows, populate_unique_auth_tokens}

-- A row with another token.
abbrev pub with_token : ℕ → Account → Account
with_token token a = record a { auth_token = token }

-- The rows, each with the token that `uuid.uuid4()` gives when its turn comes.
unfoldable pub retokened : Env → Trace → List Account → List Account
retokened env t [] = []
retokened env t (a ∷ rows) = with_token (env.uuid t) a ∷ retokened env (drew_random ∷ t) rows

-- No row of the list has the id.
abbrev Absent : ℕ → List Account → Type 0
Absent i rows = All (λ (a : Account). (a.id == i) ≡ false) rows

-- A primary key stands once.
abbrev pub HasUniqueIds : List Account → Type 0
HasUniqueIds [] = Unit
HasUniqueIds (a ∷ rows) = Absent a.id rows × HasUniqueIds rows

change_row-Absent :
    (i : ℕ) (f : Account → Account) (rows : List Account)
    → Absent i rows
    → change_row i f rows ≡ rows
unfolding change_row
change_row-Absent i f [] absent = refl
change_row-Absent i f (a ∷ rows) (other, absent) =
    rw (other, change_row-Absent i f rows absent) refl

-- The one row of an id.
change_row_at :
    (a : Account) (f : Account → Account) (before after : List Account)
    → Absent a.id before
    → Absent a.id after
    → change_row a.id f (before ++ a ∷ after) ≡ before ++ f a ∷ after
unfolding change_row
change_row_at a f [] after none_before none_after =
    rw (==_refl a.id, change_row-Absent a.id f after none_after) refl
change_row_at a f (b ∷ before) after (other, none_before) none_after =
    rw (other, change_row_at a f before after none_before none_after) refl

append_assoc_one :
    (before after : List Account) (a : Account) → (before ++ a ∷ []) ++ after ≡ before ++ a ∷ after
append_assoc_one [] after a = refl
append_assoc_one (b ∷ before) after a = ap (λ l. b ∷ l) (append_assoc_one before after a)

-- The ids of rows to come are in none of the rows done.
abbrev Separate : List Account → List Account → Type 0
Separate before after = All (λ (a : Account). Absent a.id before) after

Absent-append :
    (i : ℕ) (before : List Account) (b : Account)
    → Absent i before
    → (b.id == i) ≡ false
    → Absent i (before ++ b ∷ [])
Absent-append i [] b absent other = (other, tt)
Absent-append i (c ∷ before) b (first, absent) other =
    (first, Absent-append i before b absent other)

Separate-append :
    (before after : List Account) (b : Account)
    → Separate before after
    → Absent b.id after
    → Separate (before ++ b ∷ []) after
Separate-append before [] b separate absent = tt
Separate-append before (a ∷ after) b (first, separate) (other, absent) = (
  Absent-append a.id before b first (ground arith),
  Separate-append before after b separate absent,
)

populate_rows-retokened :
    (env : Env) (before after : List Account) (w : World)
    → w.db.accounts ≡ before ++ after
    → HasUniqueIds after
    → Separate before after
    → (populate_rows after env w).1.db.accounts ≡ before ++ retokened env w.trace after
unfolding populate_rows populate_one retokened new_uuid modify pure ◌>>=◌
populate_rows-retokened env before [] w e unique separate = e
populate_rows-retokened env before (a ∷ after) w e (once, unique) (first, separate) =
    let b = with_token (env.uuid w.trace) a in
    let changed : change_row a.id (with_token (env.uuid w.trace)) w.db.accounts
        ≡ (before ++ b ∷ []) ++ after =
      rw e (change_row_at a _ before after first once ∙ sym (append_assoc_one before after b)) in
    populate_rows-retokened env (before ++ b ∷ []) after _ changed unique
      (Separate-append before after b separate once)
    ∙ append_assoc_one before (retokened env (drew_random ∷ w.trace) after) b

populate_rows_ok :
    (env : Env) (rows : List Account) (w : World) → (populate_rows rows env w).0 ≡ ok tt
unfolding populate_rows populate_one new_uuid modify pure ◌>>=◌
populate_rows_ok env [] w = refl
populate_rows_ok env (a ∷ rows) w = populate_rows_ok env rows _

-- No token twice.
abbrev pub HasDistinctTokens : List Account → Type 0
HasDistinctTokens [] = Unit
HasDistinctTokens (a ∷ rows) =
    All (λ (b : Account). a.auth_token ≢ b.auth_token) rows × HasDistinctTokens rows

-- `uuid.uuid4()` gives on no longer trace a value that it gave before.
abbrev pub NeverRepeats : Env → Type 0
NeverRepeats env = (t u : Trace) → length t < length u → env.uuid t ≢ env.uuid u

later_tokens :
    (env : Env) (t u : Trace) (rows : List Account)
    → NeverRepeats env
    → length t < length u
    → All (λ (b : Account). env.uuid t ≢ b.auth_token) (retokened env u rows)
unfolding retokened
later_tokens env t u [] fresh before = tt
later_tokens env t u (a ∷ rows) fresh before =
    (fresh t u before, later_tokens env t (drew_random ∷ u) rows fresh (omega arith))

retokened-HasDistinctTokens :
    (env : Env) (t : Trace) (rows : List Account)
    → NeverRepeats env
    → HasDistinctTokens (retokened env t rows)
unfolding retokened
retokened-HasDistinctTokens env t [] fresh = tt
retokened-HasDistinctTokens env t (a ∷ rows) fresh = (
  later_tokens env t (drew_random ∷ t) rows fresh (omega arith),
  retokened-HasDistinctTokens env (drew_random ∷ t) rows fresh,
)

none_before : (rows : List Account) → Separate [] rows
none_before [] = tt
none_before (a ∷ rows) = (tt, none_before rows)

-- Where the ids of the accounts are distinct and uuid4 never repeats a value, whatever the tokens were:
-- populate_unique_auth_tokens returns, changes no column but the token, gives each row in turn the next
-- value of uuid4, and leaves no token twice, as the unique column of the next migration needs.
pub populate_unique_auth_tokens_distinct :
    (env : Env) (w : World)
    → HasUniqueIds w.db.accounts
    → NeverRepeats env
    → ((populate_unique_auth_tokens env w).0 ≡ ok tt)
      × ((populate_unique_auth_tokens env w).1.db.accounts ≡ retokened env w.trace w.db.accounts)
      × HasDistinctTokens (populate_unique_auth_tokens env w).1.db.accounts
unfolding populate_unique_auth_tokens get_db ◌>>=◌
populate_unique_auth_tokens_distinct env w unique fresh =
    let rows =
      populate_rows-retokened env [] w.db.accounts w refl unique (none_before w.db.accounts) in
    (
      populate_rows_ok env w.db.accounts w,
      rows,
      rw rows (retokened-HasDistinctTokens env w.trace w.db.accounts fresh),
    )
