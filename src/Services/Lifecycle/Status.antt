-- ===== src/Services/Lifecycle/Status.antt =====
-- What the operations that set a status leave in the database, whatever the nodes answer.
use ssh_panel_vpn.Common.{ℕ, ◌≡◌, refl, Option, []}
use ssh_panel_vpn.Common.Text.{Text}
use ssh_panel_vpn.Models.{Account, AccountStatus, Action, Server}
use ssh_panel_vpn.Effects.{Env, World, Act, Manager, CommandResult, ◌>>◌, pure}
use ssh_panel_vpn.Effects.Keeps.{remote_rules, IsRemote, IsRemote-Keeps}
use ssh_panel_vpn.Effects.Outcome.{Ends, Outcome-bind, Keeps-Outcome}
use ssh_panel_vpn.Database.Rows.{HasDb, SavedAndLogged, save_account-Outcome, create_log-Outcome}
use ssh_panel_vpn.Database.{save_account, create_log, server_of}
use ssh_panel_vpn.Ssh.Tables.{
  run-IsRemote, with_ssh-IsRemote, deregister_token-IsRemote, suspend_token-IsRemote,
  activate_token-IsRemote,
}
use ssh_panel_vpn.Ssh.Kept.{delete_user-Keeps, lock_user-Keeps, unlock_user-Keeps}
use ssh_panel_vpn.Ssh.Users.{delete_user, lock_user, unlock_user}
use ssh_panel_vpn.ShadowLink.{deregister_token, suspend_token, activate_token}
use ssh_panel_vpn.Services.Lifecycle.{
  remote_change, delete_account, suspend_account, activate_account, set_status,
}

pub server_of-IsRemote : (a : Account) → IsRemote (server_of a)
unfolding server_of
server_of-IsRemote a d n = search remote_rules

-- How an operation that sets a status ends: the row with the account's id has the new status and a
-- new `updated_at`, one audit row is added and nothing else is written; or the call raised and
-- nothing is written.
abbrev pub SetsStatus :
    AccountStatus → Action → Account → Option ℕ → Act (Unit {0}) → Env → World → Type 0
SetsStatus status action account admin_user m env w =
    Ends (λ _ w'. SavedAndLogged account.id (set_status status) action admin_user [] w.db w'.db)
      (HasDb w.db) (m env w)

module _ (bridge : Server → Text → Act Text) (command : Manager → Text → Act CommandResult)
    (bridge-IsRemote : (server : Server) (t : Text) → IsRemote (bridge server t))
    (command-IsRemote : (ssh : Manager) (t : Text) → IsRemote (command ssh t)) where
  command_body-IsRemote : (u : Text) (ssh : Manager) → IsRemote (do command ssh u; pure tt)
  command_body-IsRemote u ssh d n = search (remote_rules, command-IsRemote)

  pub remote_change-IsRemote : (account : Account) → IsRemote (remote_change bridge command account)
  unfolding remote_change
  remote_change-IsRemote account d n =
      search
        (
          remote_rules, server_of-IsRemote, bridge-IsRemote, with_ssh-IsRemote,
          command_body-IsRemote,
        )
        depth 8

  -- The remote change, the two writes.
  change_status-SetsStatus :
      (status : AccountStatus) (action : Action) (account : Account) (admin_user : Option ℕ)
      (env : Env) (w : World)
      → SetsStatus status action account admin_user
          (do
            remote_change bridge command account
            save_account account.id (set_status status)
            create_log action account.id admin_user [])
          env
          w
  change_status-SetsStatus status action account admin_user env w =
      (Outcome-bind
          (Keeps-Outcome (
            IsRemote-Keeps (λ d _. d ≡ w.db) (remote_change bridge command account)
              (remote_change-IsRemote account)))
          (λ _. Outcome-bind (save_account-Outcome env account.id (set_status status) w.db) (λ _.
            create_log-Outcome env account.id (set_status status) action admin_user [] w.db))).at
        w refl

-- `delete_account`, `suspend_account` and `activate_account`, on every account, whatever the node and
-- the bridge answer: either the row with the account's id has the new status and a new `updated_at`,
-- one audit row that names the action, the account and the admin is added, and nothing else in the
-- database changes; or the call raises, and the database is as before.
pub set_status_operations :
    (account : Account) (admin_user : Option ℕ) (env : Env) (w : World)
    → SetsStatus AccountStatus.deleted Action.delete account admin_user
        (delete_account account admin_user)
        env
        w
      × SetsStatus AccountStatus.suspended Action.suspend account admin_user
          (suspend_account account admin_user)
          env
          w
      × SetsStatus AccountStatus.active Action.activate account admin_user
          (activate_account account admin_user)
          env
          w
unfolding delete_account suspend_account activate_account
set_status_operations account admin_user env w = (
  change_status-SetsStatus deregister_token delete_user (λ s t. deregister_token-IsRemote s t)
      (λ ssh u d n. delete_user-Keeps (λ h c. run-IsRemote h c d n) ssh u) AccountStatus.deleted
      Action.delete account admin_user env w,
  change_status-SetsStatus suspend_token lock_user (λ s t. suspend_token-IsRemote s t)
      (λ ssh u d n. lock_user-Keeps (λ h c. run-IsRemote h c d n) ssh u) AccountStatus.suspended
      Action.suspend account admin_user env w,
  change_status-SetsStatus activate_token unlock_user (λ s t. activate_token-IsRemote s t)
      (λ ssh u d n. unlock_user-Keeps (λ h c. run-IsRemote h c d n) ssh u) AccountStatus.active
      Action.activate account admin_user env w,
)
