-- ===== src/Admin/Batch.antt =====
-- The bulk actions of the admin beside the services called one by one.
use ssh_panel_vpn.Common.{
  ℕ, ◌≡◌, ◌≤◌, refl, Bool, ◌&&◌, not, Option, List, [], ◌∷◌, ◌++◌, length, map, select,
}
use ssh_panel_vpn.Common.Text.{Text, codes, decimal}
use ssh_panel_vpn.Models.{Account, AccountStatus, Action}
use ssh_panel_vpn.Models.Queries.{account_status_eq}
use ssh_panel_vpn.Effects.{Env, World, Act, Result, ok, err, continue, attempt, get_db, pure, ◌>>=◌}
use ssh_panel_vpn.Effects.Keeps.{Keeps}
use ssh_panel_vpn.Effects.Outcome.{Ends}
use ssh_panel_vpn.Database.Related.{IsRelated, HasOne}
use ssh_panel_vpn.Ssh.Users.{lock_user, unlock_user}
use ssh_panel_vpn.Ssh.Kept.{lock_user-Keeps, unlock_user-Keeps}
use ssh_panel_vpn.Ssh.Tables.{run-IsRemote, suspend_token-IsRemote, activate_token-IsRemote}
use ssh_panel_vpn.ShadowLink.{suspend_token, activate_token}
use ssh_panel_vpn.Services.Lifecycle.{suspend_account, activate_account}
use ssh_panel_vpn.Services.Lifecycle.Status.{remote_change-IsRemote}
use ssh_panel_vpn.Tasks.Expiry.{count_rounds, tally}
use ssh_panel_vpn.Tasks.Expiry.Due.{
  Moves, AllMove, rounds-AllMove, change-Keeps, delete_account-Keeps,
}
use ssh_panel_vpn.Connections.{Operation, delete, suspend, activate, perform, perform_all}
use ssh_panel_vpn.Admin.{Chosen, report, action_suspend, action_activate, action_delete_accounts}

-- A loop over accounts leaves the world that the calls leave one after another.
count_rounds-perform_all :
    (body : Account → Act (Unit {0})) (op : Account → Operation)
    → ((acc : Account) → perform (op acc) ≡ body acc)
    → (l : List Account) (n : ℕ) (env : Env) (w : World)
    → (count_rounds body l n env w).1 ≡ (perform_all (map op l) env w).1
unfolding count_rounds perform_all attempt pure ◌>>=◌
count_rounds-perform_all body op same [] n env w = refl
count_rounds-perform_all body op same (acc ∷ l) n env w =
    rw (same acc)
      (count_rounds-perform_all body op same l (tally (body acc env w).0 n) env (body acc env w).1)

-- What a bulk action on the accounts that `due` tells leaves: the world that the calls of a service for
-- each of them leave one after another, and a report of at most as many accounts as there were, each
-- row being as it was, or having got the status.
abbrev pub Acts :
    (Account → Bool)
    → AccountStatus
    → Text
    → (Account → Operation)
    → Env
    → World
    → Result Text × World
    → Type 0
Acts due status verb op env w x =
    (x.1 ≡ (perform_all (map op (select due w.db.accounts)) env w).1)
    × Ends
        (λ t w'.
          (c : ℕ) × (t ≡ verb ++ (codes " " ++ (decimal c ++ codes " accounts.")))
          × (c ≤ length (select due w.db.accounts))
          × AllMove due status w.db.accounts w'.db.accounts)
        (λ _. ⊥) x

-- The rows that an action is for: the chosen ones of a status, or not of a status.
abbrev pub is_for : Chosen → AccountStatus → Account → Bool
is_for chosen status a = chosen a && account_status_eq a.status status

abbrev pub is_not_for : Chosen → AccountStatus → Account → Bool
is_not_for chosen status a = chosen a && not (account_status_eq a.status status)

module _ (due : Account → Bool) (status : AccountStatus) (verb : Text) (op : Account → Operation)
    (env : Env) (w : World) where
  reported :
      (x : Result ℕ × World)
      → x.1 ≡ (perform_all (map op (select due w.db.accounts)) env w).1
      → Ends
          (λ c w'.
            AllMove due status w.db.accounts w'.db.accounts
            × (c ≤ length (select due w.db.accounts)))
          (λ _. ⊥)
          x
      → Acts due status verb op env w (continue x.0 (λ c. pure (report verb c)) env x.1)
  unfolding pure report
  reported (ok c, w') same h = (same, (c, refl, h.1, h.0))
  reported (err e, w') same h = elim h [ ]

  rounds-Acts :
      (body : Account → Act (Unit {0}))
      → ((acc : Account) → perform (op acc) ≡ body acc)
      → ((acc : Account)
          → HasOne due w.db.accounts acc.id
          → Keeps (IsRelated (Moves due status w.db.accounts) w.db.accounts) (body acc))
      → Acts due status verb op env w
          ((count_rounds body (select due w.db.accounts) 0 >>= λ c. pure (report verb c)) env w)
  unfolding ◌>>=◌
  rounds-Acts body same keeps =
      reported (count_rounds body (select due w.db.accounts) 0 env w)
        (count_rounds-perform_all body op same (select due w.db.accounts) 0 env w)
        (rounds-AllMove due status w.db.accounts body env w keeps refl)

suspend_account-Keeps :
    (due : Account → Bool) (start : List Account) (user : Option ℕ) (acc : Account)
    → HasOne due start acc.id
    → Keeps (IsRelated (Moves due AccountStatus.suspended start) start) (suspend_account acc user)
unfolding suspend_account
suspend_account-Keeps due start user acc h =
    change-Keeps due AccountStatus.suspended start acc h _ Action.suspend user (
      remote_change-IsRemote suspend_token lock_user (λ s t. suspend_token-IsRemote s t)
        (λ ssh u d n. lock_user-Keeps (λ m c. run-IsRemote m c d n) ssh u) acc)

activate_account-Keeps :
    (due : Account → Bool) (start : List Account) (user : Option ℕ) (acc : Account)
    → HasOne due start acc.id
    → Keeps (IsRelated (Moves due AccountStatus.active start) start) (activate_account acc user)
unfolding activate_account
activate_account-Keeps due start user acc h =
    change-Keeps due AccountStatus.active start acc h _ Action.activate user (
      remote_change-IsRemote activate_token unlock_user (λ s t. activate_token-IsRemote s t)
        (λ ssh u d n. unlock_user-Keeps (λ m c. run-IsRemote m c d n) ssh u) acc)

-- Whatever the nodes answer, each bulk action returns, and leaves the world that its service leaves,
-- called one by one for the chosen accounts of the right status, each as it was when the action began:
-- `action_suspend` for those that are active, `action_activate` for those that are suspended,
-- `action_delete_accounts` for those that are not deleted. A call that raises does not stop the next.
-- A row whose id none of these accounts has stays as it was, of the others at most the status and
-- `updated_at` change, the status to that of the action, and the report counts at most these accounts.
pub actions-Acts :
    (user : Option ℕ) (chosen : Chosen) (env : Env) (w : World)
    → Acts
        (is_for chosen AccountStatus.active)
        AccountStatus.suspended
        (codes "Suspended")
        (λ a. suspend a user)
        env
        w
        (action_suspend user chosen env w)
      × Acts
          (is_for chosen AccountStatus.suspended)
          AccountStatus.active
          (codes "Activated")
          (λ a. activate a user)
          env
          w
          (action_activate user chosen env w)
      × Acts
          (is_not_for chosen AccountStatus.deleted)
          AccountStatus.deleted
          (codes "Deleted")
          (λ a. delete a user)
          env
          w
          (action_delete_accounts user chosen env w)
unfolding action_suspend action_activate action_delete_accounts get_db perform ◌>>=◌
actions-Acts user chosen env w = (
  rounds-Acts _ _ _ _ env w _ (λ a. refl) (suspend_account-Keeps _ w.db.accounts user),
  rounds-Acts _ _ _ _ env w _ (λ a. refl) (activate_account-Keeps _ w.db.accounts user),
  rounds-Acts _ _ _ _ env w _ (λ a. refl) (delete_account-Keeps _ w.db.accounts user),
)
