-- ===== src/Api/Public/Granted.antt =====
-- To whom a client configuration is given.
use ssh_panel_vpn.Common.{
  ℕ, ◌≡◌, refl, sym, Bool, true, false, ◌⊎◌, inl, inr, none, some, List, [], ◌∷◌, select, exists,
  Bool-cases, Option-cases, some_eq,
}
use mathlib.Core.Path.{subst}
use ssh_panel_vpn.Models.{Account, AccountStatus, Db, Server}
use ssh_panel_vpn.Models.Queries.{first, find_server, account_status_eq, account_status_eq_sound}
use ssh_panel_vpn.Effects.{Env, World, Result, ok, err, get_db, or_raise, pure, ◌>>=◌}
use ssh_panel_vpn.Effects.Outcome.{Ends}
use ssh_panel_vpn.Database.{server_of}
use ssh_panel_vpn.Database.Member.{Member}
use ssh_panel_vpn.Api.Public.{
  ConfigResponse, config, forbidden, holds_token, config_for, shadowlink_client_config,
  generate_client_config,
}

-- What an account is answered: its configuration where it is active, and a refusal otherwise.
abbrev pub Granted : Db → Account → ConfigResponse → Type 0
Granted d a (config c) =
    (a.status ≡ AccountStatus.active)
    × ((s : Server) × (find_server a.server d.servers ≡ some s) × (c ≡ generate_client_config a s))
Granted d a (forbidden t) = account_status_eq a.status AccountStatus.active ≡ false

-- How a request with a token ends.
abbrev pub TokenAnswer : ℕ → Db → World → Result ConfigResponse × World → Type 0
TokenAnswer token d w =
    Ends
      (λ response w'.
        (w' ≡ w)
        × ((a : Account) × Member a d.accounts
            × (holds_token token a ≡ true)
            × Granted d a response))
      (λ w'.
        (w' ≡ w)
        × ((exists (holds_token token) d.accounts ≡ false)
            ⊎ ((a : Account) × Member a d.accounts
                × (holds_token token a ≡ true)
                × (find_server a.server d.servers ≡ none))))

first-Member :
    (p : Account → Bool) (rows : List Account) (a : Account)
    → first (select p rows) ≡ some a
    → Member a rows × (p a ≡ true)
first-Member p [] a e = absurd (cc)
first-Member p (b ∷ rows) a e = elim (Bool-cases (p b)) [
  | inl holds ↦
      let e' : some b ≡ some a = rw holds at e in
      (inl (sym (some_eq e')), subst (λ c. p c ≡ true) (some_eq e') holds)
  | inr fails ↦
      let e' : first (select p rows) ≡ some a = rw fails at e in
      let (inside, holds) = first-Member p rows a e' in (inr inside, holds)
]

first-none :
    (p : Account → Bool) (rows : List Account)
    → first (select p rows) ≡ none
    → exists p rows ≡ false
first-none p [] e = refl
first-none p (b ∷ rows) e = elim (Bool-cases (p b)) [
  | inl holds ↦ let e' : some b ≡ none = rw holds at e in absurd (cc)
  | inr fails ↦
      let e' : first (select p rows) ≡ none = rw fails at e in rw fails (first-none p rows e')
]

config_for-Granted :
    (a : Account) (env : Env) (w : World)
    → Ends
        (λ response w'. (w' ≡ w) × Granted w.db a response)
        (λ w'. (w' ≡ w) × (find_server a.server w.db.servers ≡ none))
        (config_for a env w)
unfolding config_for server_of get_db or_raise pure ◌>>=◌
config_for-Granted a env w = elim (Bool-cases (account_status_eq a.status AccountStatus.active)) [
  | inl active ↦ (elim (Option-cases (find_server a.server w.db.servers)) [
    | inl missing ↦ rw (active, missing) (refl, refl)
    | inr (s, there) ↦
        rw (active, there)
          (refl, (account_status_eq_sound a.status AccountStatus.active active, (s, there, refl)))
  ])
  | inr other ↦ rw other (refl, other)
]

found_Ends :
    (token : ℕ) (a : Account) (d : Db) (x : Result ConfigResponse × World) (w : World)
    → first (select (holds_token token) d.accounts) ≡ some a
    → Ends
        (λ response w'. (w' ≡ w) × Granted d a response)
        (λ w'. (w' ≡ w) × (find_server a.server d.servers ≡ none))
        x
    → TokenAnswer token d w x
found_Ends token a d (ok response, w') w e h =
    let (inside, holds) = first-Member (holds_token token) d.accounts a e in
    (h.0, (a, inside, holds, h.1))
found_Ends token a d (err exception, w') w e h =
    let (inside, holds) = first-Member (holds_token token) d.accounts a e in
    (h.0, inr (a, inside, holds, h.1))

-- The public route for client configurations only reads, and it gives a configuration only for an
-- account of the table that is active, speaks ShadowLink and holds the token, and then that account's
-- own; an account that is not active is refused. It raises only when no account holds the token, or
-- when the server of the one that does is gone.
pub shadowlink_client_config_granted :
    (token : ℕ) (env : Env) (w : World)
    → TokenAnswer token w.db w (shadowlink_client_config token env w)
unfolding shadowlink_client_config get_db or_raise ◌>>=◌
shadowlink_client_config_granted token env w =
    elim (Option-cases (first (select (holds_token token) w.db.accounts))) [
      | inl missing ↦ rw missing (refl, inl (first-none (holds_token token) w.db.accounts missing))
      | inr (a, there) ↦
          rw there
            (found_Ends token a w.db (config_for a env w) w there (config_for-Granted a env w))
    ]
