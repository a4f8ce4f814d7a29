-- ===== src/Connections.antt =====
-- The operations of the panel as one machine, and the connections that they open and close.
pub mod Held
pub mod Permits
pub mod Tidy
pub mod Ledger
pub mod Rows
pub mod Linked
use ssh_panel_vpn.Common.{ℕ, Option, List, [], ◌∷◌}
use ssh_panel_vpn.Common.Text.{Text}
use ssh_panel_vpn.Models.{Account, Plan, Server}
use ssh_panel_vpn.Effects.{Env, World, Act, pure, ◌>>=◌, ◌>>◌, attempt}
use ssh_panel_vpn.Services.Create.{NewAccount, create_account, bulk_create_accounts}
use ssh_panel_vpn.Services.Lifecycle.{
  delete_account, suspend_account, activate_account, extend_account, reset_password,
}
use ssh_panel_vpn.Tasks.Expiry.{expire_users, cleanup_expired_accounts}
use ssh_panel_vpn.Tasks.Bandwidth.{sync_bandwidth_usage}
use ssh_panel_vpn.Tasks.Sessions.{sync_active_sessions}
use ssh_panel_vpn.ServerTasks.Health.{check_all_servers_health, check_single_server}
use ssh_panel_vpn.ServerTasks.Rebalance.{rebalance_users}

-- A call of accounts/services.py, accounts/tasks.py or servers/tasks.py, with its arguments.
pub data Operation : Type 0 where
  create : NewAccount → Operation
  bulk_create : Text → ℕ → Plan → Option Server → Option ℕ → Operation
  delete suspend activate reset : Account → Option ℕ → Operation
  renew : Account → ℕ → Option ℕ → Operation
  expire bandwidth sessions health : Operation
  cleanup check rebalance : ℕ → Operation

-- The call, its result dropped.
unfoldable pub perform : Operation → Act (Unit {0})
perform (create args) = create_account args >>= λ _. pure tt
perform (bulk_create prefix count plan server user) =
    bulk_create_accounts prefix count plan server user >>= λ _. pure tt
perform (delete account user) = delete_account account user
perform (suspend account user) = suspend_account account user
perform (activate account user) = activate_account account user
perform (reset account user) = reset_password account user >>= λ _. pure tt
perform (renew account days user) = extend_account account days user >>= λ _. pure tt
perform expire = expire_users >>= λ _. pure tt
perform bandwidth = sync_bandwidth_usage
perform sessions = sync_active_sessions
perform health = check_all_servers_health
perform (cleanup days) = cleanup_expired_accounts days >>= λ _. pure tt
perform (check server) = check_single_server server >>= λ _. pure tt
perform (rebalance server) = rebalance_users server >>= λ _. pure tt

-- One call after another; one that raises does not stop the next.
unfoldable pub perform_all : List Operation → Act (Unit {0})
unfolding perform
perform_all [] = pure tt
perform_all (op ∷ ops) = attempt (perform op) >>= λ _. perform_all ops
