-- ===== src/ServerTasks/Returns.antt =====
-- The tasks whose loops swallow every exception always return.
use ssh_panel_vpn.Common.{
  ℕ, ◌+◌, ◌≤◌, ◌≡◌, refl, none, some, List, [], ◌∷◌, All, length, select, arith, Option-cases, inl,
  inr,
}
use ssh_panel_vpn.Models.{Account, Server}
use ssh_panel_vpn.Models.Queries.{find_server}
use ssh_panel_vpn.Effects.{Env, World, Act, Result, attempt, get_db, or_raise, pure, ◌>>=◌}
use ssh_panel_vpn.Effects.Keeps.{Keeps}
use ssh_panel_vpn.Effects.Outcome.{Ends, Ends-weaken}
use ssh_panel_vpn.Ssh.Up.{Returns}
use ssh_panel_vpn.Tasks.Expiry.{count_rounds}
use ssh_panel_vpn.Tasks.Expiry.Due.{count_rounds-Outcome}
use ssh_panel_vpn.Tasks.Bandwidth.{each_server, active_on}
use ssh_panel_vpn.Tasks.Sessions.{sync_active_sessions}
use ssh_panel_vpn.ServerTasks.Rebalance.{rebalance_users, rebalance_one}

each_server-Returns :
    (body : Server → Act (Unit {0})) (l : List Server) (env : Env) (w : World)
    → Returns (each_server body l env w)
unfolding each_server attempt pure ◌>>=◌
each_server-Returns body [] env w = (tt, refl)
each_server-Returns body (srv ∷ l) env w = each_server-Returns body l env (body srv env w).1

abbrev Anywhere : World → Type 0
Anywhere w = Unit

All-Anywhere :
    (body : Account → Act (Unit {0})) (l : List Account) → All (λ acc. Keeps Anywhere (body acc)) l
All-Anywhere body [] = tt
All-Anywhere body (acc ∷ l) = (record { at = λ env w h. tt }, All-Anywhere body l)

-- What a rebalancing of the server `i` ends with.
abbrev pub Rebalanced : ℕ → World → Result ℕ × World → Type 0
Rebalanced i w =
    Ends
      (λ moved w'.
        (srv : Server) × (find_server i w.db.servers ≡ some srv)
        × (moved ≤ length (select (active_on srv) w.db.accounts)))
      (λ w'. (w' ≡ w) × (find_server i w.db.servers ≡ none))

-- The loop, for a server that was found.
rebalance_found :
    (srv : Server) (env : Env) (w : World)
    → Ends
        (λ moved w'.
          (s : Server) × (some srv ≡ some s)
          × (moved ≤ length (select (active_on s) w.db.accounts)))
        (λ w'. (w' ≡ w) × (some srv ≡ none))
        (count_rounds (rebalance_one srv) (select (active_on srv) w.db.accounts) 0 env w)
rebalance_found srv env w =
    let l = select (active_on srv) w.db.accounts in
    Ends-weaken {A = ℕ} {Q = λ c w'. Anywhere w' × (c ≤ 0 + length l)}
      {R = λ moved w'.
        (s : Server) × (some srv ≡ some s) × (moved ≤ length (select (active_on s) w.db.accounts))}
      {E = λ _. ⊥} {F = λ w'. (w' ≡ w) × (some srv ≡ none)}
      (λ c w' h. (srv, refl, omega (arith, h.1))) (λ w' h. elim h [ ]) _
      ((count_rounds-Outcome Anywhere env (rebalance_one srv) l 0 (All-Anywhere _ l)).at w tt)

rebalance_users-Rebalanced :
    (i : ℕ) (env : Env) (w : World) → Rebalanced i w (rebalance_users i env w)
unfolding rebalance_users get_db or_raise ◌>>=◌
rebalance_users-Rebalanced i env w = elim (Option-cases (find_server i w.db.servers)) [
  | inl missing ↦ rw missing (refl, refl)
  | inr (srv, there) ↦ rw there (rebalance_found srv env w)
]

-- Two tasks end the same way whatever the nodes do: `sync_active_sessions` always returns, and
-- `rebalance_users` returns a count of at most the active accounts of the server, unless the server
-- is not there: then it raises and changes nothing.
pub node_tasks_return :
    (i : ℕ) (env : Env) (w : World)
    → Returns (sync_active_sessions env w) × Rebalanced i w (rebalance_users i env w)
unfolding sync_active_sessions get_db ◌>>=◌
node_tasks_return i env w = (each_server-Returns _ _ env w, rebalance_users-Rebalanced i env w)
