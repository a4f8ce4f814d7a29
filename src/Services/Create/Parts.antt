-- ===== src/Services/Create/Parts.antt =====
-- How the steps of `create_account_body` end, one by one.
use ssh_panel_vpn.Common.{
  ℕ, ◌+◌, ◌*◌, ◌≤◌, ◌≡◌, refl, Bool, true, false, if◌then◌else◌, Option, none, some, List, [], ◌∷◌,
  ◌++◌, select, exists, leb, leb→le, Bool-cases, Option-cases, inl, inr, some_eq,
}
use mathlib.Core.Path.{subst}
use ssh_panel_vpn.Models.{Account, Db, Server}
use ssh_panel_vpn.Models.Queries.{is_available}
use ssh_panel_vpn.Models.Time.{day, datetime_max}
use ssh_panel_vpn.Effects.{
  Env, World, Trace, Result, ok, err, Act, ◌>>=◌, on_option, pure, raise, get_db, modify, new_id,
  read_now, new_uuid,
}
use ssh_panel_vpn.Effects.Keeps.{Keeps, IsRemote, IsRemote-Keeps}
use ssh_panel_vpn.Effects.Outcome.{Ends, Outcome}
use ssh_panel_vpn.Database.{create_account_row, fits_columns, clashes}
use ssh_panel_vpn.Database.Rows.{HasDb}
use ssh_panel_vpn.Services.Server.{
  is_active, first_available, least_loaded, search_server, pick_best_server,
}
use ssh_panel_vpn.Common.Text.{Text}
use ssh_panel_vpn.Ssh.Quote.{q}
use ssh_panel_vpn.Services.Server.Choice.{is_met}
use ssh_panel_vpn.Services.Create.{add_days, password_or}
use ssh_panel_vpn.Services.Create.Password.{generate_password}
use ssh_panel_vpn.Services.Create.Password.Chars.{IsPassword, generate_password_plain}
use ssh_panel_vpn.Services.Create.Remote.{generate_password-IsRemote}

pub kept : {A : Type 0} {m : Act A} (d : Db) → IsRemote m → Keeps (HasDb d) m
kept {m = m} d remote = IsRemote-Keeps (λ c _. c ≡ d) m remote

-- A server that is found is available; the search writes nothing.
first_available_sound :
    (db : Db) (s : Server) (l : List Server)
    → first_available db l ≡ some s
    → is_available db s ≡ true
unfolding first_available
first_available_sound db s [] h = cc
first_available_sound db s (t ∷ l) h = elim (Bool-cases (is_available db t)) [
  | inl free ↦ subst (λ u. is_available db u ≡ true) (some_eq (rw free at h)) free
  | inr taken ↦ first_available_sound db s l (rw taken at h)
]

abbrev pub Available : Db → Server → Type 0
Available d s = is_available d s ≡ true

-- The server is available, and the one that was asked for wherever that is available.
abbrev pub IsPicked : Option Server → Db → Server → Type 0
IsPicked none d s = Available d s
IsPicked (some p) d s = Available d s × (is_available d p ≡ true → s ≡ p)

search_server_sound :
    (p : Option Server) (env : Env) (w : World)
    → is_met w.db p ≡ false
    → Ends (λ s w'. IsPicked p w.db s × HasDb w.db w') (λ _. Unit) (search_server env w)
unfolding search_server least_loaded ◌>>=◌ on_option
search_server_sound p env w unmet = elim (Option-cases (least_loaded env w.db)) [
  | inl none' ↦ rw (none', on_option) tt
  | inr (s, e) ↦
      rw (e, on_option)
        (
          picked w.db s p unmet
              (first_available_sound w.db s (env.order_by_cpu (select is_active w.db.servers)) e),
          refl,
        )
]
  where
    picked :
        (d : Db) (s : Server) (p : Option Server)
        → is_met d p ≡ false
        → Available d s
        → IsPicked p d s
    picked d s none unmet free = free
    picked d s (some p) unmet free = (free, λ met. absurd (cc))

pick_best_server_sound :
    (p : Option Server) (env : Env) (w : World)
    → Ends (λ s w'. IsPicked p w.db s × HasDb w.db w') (λ _. Unit) (pick_best_server p env w)
unfolding pick_best_server get_db pure ◌>>=◌
pick_best_server_sound none env w = search_server_sound none env w refl
pick_best_server_sound (some p) env w = pick (is_available w.db p) refl
  where
    pick :
        (b : Bool)
        → is_available w.db p ≡ b
        → Ends
            (λ s w'. IsPicked (some p) w.db s × HasDb w.db w')
            (λ _. Unit)
            ((if b then pure p else search_server) env w)
    pick true free = ((free, λ _. refl), refl)
    pick false taken = search_server_sound (some p) env w taken

pub pick_best_server-Outcome :
    (env : Env) (p : Option Server) (d : Db)
    → Outcome env (HasDb d) (pick_best_server p) (λ s w. IsPicked p d s × HasDb d w) (λ _. Unit)
pick_best_server-Outcome env p d = record {
  at = λ w h.
      subst (λ c. Ends (λ s w'. IsPicked p c s × HasDb c w') (λ _. Unit) (pick_best_server p env w))
        h (pick_best_server_sound p env w);
}

-- What `password or generate_password()` gives: the password, or twelve letters and digits.
abbrev pub IsGiven : Option Text → Text → Type 0
IsGiven none t = IsPassword 12 t
IsGiven (some []) t = IsPassword 12 t
IsGiven (some (c ∷ s)) t = t ≡ c ∷ s

-- An answer of the clock, and of the source of unique numbers.
abbrev pub IsTime : Env → ℕ → Type 0
IsTime env t = (asked : Trace) × (t ≡ env.now asked)

abbrev pub IsUuid : Env → ℕ → Type 0
IsUuid env n = (asked : Trace) × (n ≡ env.uuid asked)

generated :
    (env : Env) (d : Db) (w : World)
    → HasDb d w
    → Ends (λ t v. IsPassword 12 t × HasDb d v) (λ _. Unit) (generate_password env w)
generated env d w h =
    with_kept (generate_password env w) ((kept d generate_password-IsRemote).at env w h)
      (generate_password_plain env w)
  where
    with_kept :
        (x : Result Text × World)
        → HasDb d x.1
        → Ends (λ t _. IsPassword 12 t × (q t ≡ 39 ∷ t ++ 39 ∷ [])) (λ _. ⊥) x
        → Ends (λ t v. IsPassword 12 t × HasDb d v) (λ _. Unit) x
    with_kept (ok t, v) k e = (e.0, k)
    with_kept (err e, v) k h = tt

pub password_or-Outcome :
    (env : Env) (o : Option Text) (d : Db)
    → Outcome env (HasDb d) (password_or o) (λ t w. IsGiven o t × HasDb d w) (λ _. Unit)
unfolding password_or pure
password_or-Outcome env none d = record { at = generated env d }
password_or-Outcome env (some []) d = record { at = generated env d }
password_or-Outcome env (some (c ∷ s)) d = record { at = λ w h. (refl, h) }

pub read_now-Outcome :
    (env : Env) (d : Db)
    → Outcome env (HasDb d) read_now (λ t w. IsTime env t × HasDb d w) (λ _. Unit)
unfolding read_now
read_now-Outcome env d = record { at = λ w h. ((w.trace, refl), h) }

pub new_uuid-Outcome :
    (env : Env) (d : Db)
    → Outcome env (HasDb d) new_uuid (λ n w. IsUuid env n × HasDb d w) (λ _. Unit)
unfolding new_uuid
new_uuid-Outcome env d = record { at = λ w h. ((w.trace, refl), h) }

abbrev pub IsDate : ℕ → ℕ → ℕ → Type 0
IsDate t n date = (date ≡ t + n * day) × (date ≤ datetime_max)

pub add_days-Outcome :
    (env : Env) (t n : ℕ) (P : World → Type 0)
    → Outcome env P (add_days t n) (λ date w. IsDate t n date × P w) (λ _. Unit)
unfolding add_days pure raise
add_days-Outcome env t n P = record {
  at = λ w p. elim (Bool-cases (leb (t + n * day) datetime_max)) [
    | inl fits ↦ rw fits ((refl, leb→le _ _ fits), p)
    | inr late ↦ rw late tt
  ];
}

-- A row that fits its columns and clashes with none that is there.
abbrev pub IsNew : Db → Account → Type 0
IsNew d a = (fits_columns a ≡ true) × (exists (clashes a) d.accounts ≡ false)

abbrev pub with_row : Db → Account → Db
with_row d a = record d { accounts = a ∷ d.accounts }

create_account_row-Ends :
    (a : Account) (env : Env) (w : World)
    → Ends
        (λ b w'. (b ≡ a) × IsNew w.db a × HasDb (with_row w.db a) w')
        (λ _. Unit)
        (create_account_row a env w)
unfolding create_account_row get_db modify ◌>>=◌
create_account_row-Ends a env w = elim (Bool-cases (fits_columns a)) [
  | inr wide ↦ rw wide tt
  | inl fits ↦ (elim (Bool-cases (exists (clashes a) w.db.accounts)) [
    | inl taken ↦ rw (fits, taken) tt
    | inr free ↦ rw (fits, free) (refl, (refl, refl), refl)
  ])
]

pub create_account_row-Outcome :
    (env : Env) (a : Account) (d : Db)
    → Outcome env
        (HasDb d)
        (create_account_row a)
        (λ b w. (b ≡ a) × IsNew d a × HasDb (with_row d a) w)
        (λ _. Unit)
create_account_row-Outcome env a d = record {
  at = λ w h.
      subst
        (λ c.
          Ends (λ b w'. (b ≡ a) × IsNew c a × HasDb (with_row c a) w') (λ _. Unit)
            (create_account_row a env w))
        h (create_account_row-Ends a env w);
}

pub new_id-HasDb : (d : Db) → Keeps (HasDb d) new_id
unfolding new_id
new_id-HasDb d = record { at = λ env w h. h }
