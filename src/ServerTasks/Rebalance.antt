-- ===== src/ServerTasks/Rebalance.antt =====
-- `rebalance_users`.
use ssh_panel_vpn.Common.{ℕ, none, ◌++◌, select}
use ssh_panel_vpn.Common.Text.{codes}
use ssh_panel_vpn.Models.{Account, Action, Server}
use ssh_panel_vpn.Models.Queries.{find_server}
use ssh_panel_vpn.Models.Time.{strftime_date}
use ssh_panel_vpn.Effects.{Act, Manager, pure, or_raise, ◌>>=◌, ◌>>◌, get_db, does_not_exist}
use ssh_panel_vpn.Database.{move_account, create_log}
use ssh_panel_vpn.Ssh.Connection.{with_ssh}
use ssh_panel_vpn.Ssh.Users.{create_user, set_expiry}
use ssh_panel_vpn.Ssh.Limits.{set_max_logins}
use ssh_panel_vpn.Services.Server.{pick_best_server}
use ssh_panel_vpn.Services.Create.Password.{generate_password}
use ssh_panel_vpn.Tasks.Bandwidth.{active_on}
use ssh_panel_vpn.Tasks.Expiry.{count_rounds}

-- The body of the `with`; the result of `create_user` is not read.
unfoldable pub install_user : Account → Manager → Act (Unit {0})
install_user acc ssh = do
  password ← generate_password
  create_user ssh acc.username password
  set_expiry ssh acc.username (strftime_date acc.expire_date)
  set_max_logins ssh acc.username acc.max_connections
  pure tt

unfoldable pub rebalance_one : Server → Account → Act (Unit {0})
rebalance_one down_srv acc = do
  target ← pick_best_server none
  with_ssh target (install_user acc)
  move_account acc target.id
  create_log Action.rebalance acc.id none
      (codes "Moved from " ++ (down_srv.name ++ (codes " to " ++ target.name)))

unfoldable pub rebalance_users : ℕ → Act ℕ
rebalance_users down_server_id = do
  db ← get_db
  down_srv ← or_raise does_not_exist (find_server down_server_id db.servers)
  db' ← get_db
  count_rounds (rebalance_one down_srv) (select (active_on down_srv) db'.accounts) 0
