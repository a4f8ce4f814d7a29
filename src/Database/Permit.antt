-- ===== src/Database/Permit.antt =====
-- What a write may do to the accounts, and the history of a table under such writes.
use ssh_panel_vpn.Common.{ℕ, ◌≡◌, Bool, true, false, ◌⊎◌, List, ◌∷◌, exists}
use ssh_panel_vpn.Models.{Account, AccountStatus}
use ssh_panel_vpn.Database.{change_row, clashes, fits_columns, login_taken}

-- The columns that a service or a task writes beside the status and the server.
pub data Column : Type 0 where
  password_column expiry_column usage_column : Column

-- Whether rows may be added, whether they may change their server, the statuses that may be set, and
-- the columns that may be written.
pub record Permit : Type 0 where
  pub adds : Bool
  pub moves : Bool
  pub sets : AccountStatus → Bool
  pub edits : Column → Bool

-- What no write changes of a row.
abbrev pub SameIdentity : Account → Account → Type 0
SameIdentity a b =
    (b.id ≡ a.id)
    × (b.username ≡ a.username)
    × (b.protocol_type ≡ a.protocol_type)
    × (b.access_token ≡ a.access_token)
    × (b.auth_token ≡ a.auth_token)
    × (b.created_by ≡ a.created_by)
    × (b.created_at ≡ a.created_at)

-- What is fixed when a row is made.
abbrev pub SameTerms : Account → Account → Type 0
SameTerms a b =
    (b.plan ≡ a.plan)
    × (b.max_connections ≡ a.max_connections)
    × (b.bandwidth_limit_gb ≡ a.bandwidth_limit_gb)
    × (b.note ≡ a.note)

-- The permit lets some column of a row be written at all.
abbrev pub Touches : Permit → Type 0
Touches may = ((s : AccountStatus) × (may.sets s ≡ true)) ⊎ ((c : Column) × (may.edits c ≡ true))

pub record Written (may : Permit) (a b : Account) : Type 0 where
  pub touches : Touches may
  pub same_terms : SameTerms a b
  pub password_set : (b.password_display ≡ a.password_display) ⊎ (may.edits password_column ≡ true)
  pub expiry_set : (b.expire_date ≡ a.expire_date) ⊎ (may.edits expiry_column ≡ true)
  pub usage_set : (b.bandwidth_used_gb ≡ a.bandwidth_used_gb) ⊎ (may.edits usage_column ≡ true)
  pub identity : SameIdentity a b
  pub same_server : b.server ≡ a.server
  pub status_set : (b.status ≡ a.status) ⊎ (may.sets b.status ≡ true)

abbrev pub Writes : Permit → (Account → Account) → Type 0
Writes may f = (a : Account) → Written may a (f a)

-- The write of `move_account`.
abbrev pub placed : ℕ → ℕ → Account → Account
placed server t a = record a { server = server; updated_at = t }

-- The tables that a history of permitted writes reaches: a new active row that fits and clashes with
-- none, a permitted write of one row, or the move of one row to a server where its login is free.
pub data Evolves (may : Permit) (start : List Account) : List Account → Type 0 where
  unchanged : Evolves may start start
  opened :
      {rows : List Account} (a : Account)
      → Evolves may start rows
      → may.adds ≡ true
      → a.status ≡ AccountStatus.active
      → fits_columns a ≡ true
      → exists (clashes a) rows ≡ false
      → Evolves may start (a ∷ rows)
  changed :
      {rows : List Account} (i : ℕ) (f : Account → Account)
      → Evolves may start rows
      → Writes may f
      → Evolves may start (change_row i f rows)
  moved :
      {rows : List Account} (i server t : ℕ)
      → Evolves may start rows
      → may.moves ≡ true
      → login_taken i server rows ≡ false
      → Evolves may start (change_row i (placed server t) rows)
