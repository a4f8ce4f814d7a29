-- ===== src/Tasks/Expiry/Pending.antt =====
-- The due accounts that a run of `expire_users` has still to visit.
use ssh_panel_vpn.Common.{
  ℕ, ◌≡◌, refl, ◌∙◌, Bool, true, not, ◌==◌, some, List, [], ◌∷◌, select, exists, every, All,
  All-map, arith, if◌then◌else◌, Bool-cases, inl, inr, ==_refl,
}
use ssh_panel_vpn.Models.{Account, AccountStatus, Db, Server}
use ssh_panel_vpn.Models.Queries.{find_server}
use ssh_panel_vpn.Effects.{Env, World, Result, ok, err, get_db, modify, read_now, ◌>>=◌}
use ssh_panel_vpn.Effects.Keeps.{OnTables}
use ssh_panel_vpn.Effects.Outcome.{Ends}
use ssh_panel_vpn.Database.{change_row, has_account, save_account}
use ssh_panel_vpn.Database.Member.{
  All-Member, exists-Member, has_account-Member, Member-select, All-select,
}
use ssh_panel_vpn.Ssh.Up.{Returns}
use ssh_panel_vpn.Services.Lifecycle.{set_status}
use ssh_panel_vpn.Tasks.Expiry.{past}

-- A call that returns and keeps a property of the tables.
pub Returns-Ends :
    {A : Type 0} (P : World → Type 0) (x : Result A × World)
    → Returns x
    → P x.1
    → Ends (λ _. P) (λ _. ⊥) x
Returns-Ends P (ok a, w) r h = h
Returns-Ends P (err e, w) r h = absurd (cc)

-- The accounts still to visit: each is in the table, and so is its server.
abbrev Visitable : Db → Account → Type 0
Visitable d c =
    (has_account c.id d.accounts ≡ true)
    × ((s : Server) × (find_server c.server d.servers ≡ some s))

-- Every due row is still to be visited.
abbrev Covered : (Account → Bool) → List Account → List Account → Type 0
Covered due rest rows =
    All (λ (b : Account). due b ≡ true → exists (λ (c : Account). c.id == b.id) rest ≡ true) rows

abbrev pub Pending : (Account → Bool) → List Account → Db → ℕ → Type 0
Pending due rest d n = All (Visitable d) rest × Covered due rest d.accounts

abbrev expired_at : ℕ → Account → Account
expired_at t a = record (set_status AccountStatus.expired a) { updated_at = t }

has_account-change_row :
    (j i t : ℕ) (rows : List Account)
    → has_account j (change_row i (expired_at t) rows) ≡ has_account j rows
unfolding has_account change_row set_status
has_account-change_row j i t [] = refl
has_account-change_row j i t (c ∷ rows) =
    let again = has_account-change_row j i t rows in
    elim (Bool-cases (c.id == i)) [
      | inl same ↦ rw (same, again) refl
      | inr other ↦ rw (other, again) refl
    ]

still :
    (now t : ℕ) (acc : Account) (rest : List Account) (b : Account)
    → (past AccountStatus.active now b ≡ true
        → exists (λ (c : Account). c.id == b.id) (acc ∷ rest) ≡ true)
    → past AccountStatus.active now (if b.id == acc.id then expired_at t b else b) ≡ true
    → exists (λ (c : Account). c.id == (if b.id == acc.id then expired_at t b else b).id) rest
      ≡ true
unfolding set_status
still now t acc rest b h = elim (Bool-cases (b.id == acc.id)) [
  | inl same ↦ rw same (λ due. absurd (cc))
  | inr other ↦ rw other (λ due. ground (arith, h due))
]

Covered-change_row :
    (now t : ℕ) (acc : Account) (rest rows : List Account)
    → Covered (past AccountStatus.active now) (acc ∷ rest) rows
    → Covered (past AccountStatus.active now) rest (change_row acc.id (expired_at t) rows)
unfolding change_row set_status
Covered-change_row now t acc rest [] h = tt
Covered-change_row now t acc rest (b ∷ rows) (h, hs) =
    (still now t acc rest b h, Covered-change_row now t acc rest rows hs)

-- The save of `expire_one`.
pub save_expired-Ends :
    (now : ℕ) (acc : Account) (rest : List Account) (env : Env) (w : World)
    → Pending (past AccountStatus.active now) (acc ∷ rest) w.db w.next_id
    → Ends
        (λ _. OnTables (Pending (past AccountStatus.active now) rest))
        (λ _. ⊥)
        (save_account acc.id (set_status AccountStatus.expired) env w)
unfolding save_account read_now get_db modify ◌>>=◌
save_expired-Ends now acc rest env w (((there, place), visitable), covered) =
    let t = env.now w.trace in
    rw there (
      All-map (λ c v. (has_account-change_row c.id acc.id t w.db.accounts ∙ v.0, v.1)) rest
          visitable,
      Covered-change_row now t acc rest w.db.accounts covered,
    )

-- Each account's server is in its table, as the foreign key demands.
abbrev pub HasServers : Db → Type 0
HasServers d =
    All (λ (a : Account). (s : Server) × (find_server a.server d.servers ≡ some s)) d.accounts

All-both :
    (d : Db) (l : List Account)
    → All (λ (a : Account). has_account a.id d.accounts ≡ true) l
    → All (λ (a : Account). (s : Server) × (find_server a.server d.servers ≡ some s)) l
    → All (Visitable d) l
All-both d [] h k = tt
All-both d (a ∷ l) (h, hs) (k, ks) = ((h, k), All-both d l hs ks)

-- All due rows are to be visited at the start.
pub select-Pending :
    (due : Account → Bool) (d : Db) (n : ℕ) → HasServers d → Pending due (select due d.accounts) d n
select-Pending due d n servers = (
  All-select (Visitable d) due d.accounts (
      All-both d d.accounts (All-Member _ d.accounts (λ a m. has_account-Member a d.accounts m))
        servers),
  All-Member _ d.accounts (λ b m holds.
      exists-Member (λ (c : Account). c.id == b.id) b (select due d.accounts)
        (Member-select due b d.accounts m holds) (==_refl b.id)),
)

pub Covered-every :
    (due : Account → Bool) (rows : List Account)
    → Covered due [] rows
    → every (λ b. not (due b)) rows ≡ true
Covered-every due [] h = refl
Covered-every due (b ∷ rows) (h, hs) = elim (Bool-cases (due b)) [
  | inl holds ↦ absurd (let e = h holds in cc)
  | inr fails ↦ rw fails (Covered-every due rows hs)
]
