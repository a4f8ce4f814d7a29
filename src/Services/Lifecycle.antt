-- ===== src/Services/Lifecycle.antt =====
-- `delete_account`, `suspend_account`, `activate_account`, `extend_account`, `reset_password`, and
-- `SSHAccount.extend`. An action that mutates the account object returns the new object.
pub mod Status
pub mod Extend
use ssh_panel_vpn.Common.{
  ℕ, ◌+◌, Bool, true, false, Option, none, some, List, [], ◌∷◌, ◌++◌, max, if◌then◌else◌,
}
use ssh_panel_vpn.Common.Text.{Text, codes, decimal}
use ssh_panel_vpn.Models.{Account, AccountStatus, Action, Protocol, Server}
use ssh_panel_vpn.Models.Queries.{is_shadowlink, account_status_eq}
use ssh_panel_vpn.Models.Time.{strftime_date}
use ssh_panel_vpn.Effects.{
  Act, Manager, CommandResult, pure, raise, ◌>>=◌, ◌>>◌, attempt, read_now, account_error,
}
use ssh_panel_vpn.Database.{save_account, create_log, server_of}
use ssh_panel_vpn.Ssh.Connection.{with_ssh, succeeded}
use ssh_panel_vpn.Ssh.Users.{delete_user, lock_user, unlock_user, set_expiry, change_password}
use ssh_panel_vpn.ShadowLink.{deregister_token, suspend_token, activate_token}
use ssh_panel_vpn.Services.Create.{add_days, token_text}
use ssh_panel_vpn.Services.Create.Password.{generate_password}

-- The `if` that the three operations share: the bridge call, any exception of it swallowed, or the
-- command over SSH, whose exceptions pass and whose exit code is not read.
unfoldable pub remote_change :
    (Server → Text → Act Text) → (Manager → Text → Act CommandResult) → Account → Act (Unit {0})
unfolding token_text
remote_change bridge command account =
    if is_shadowlink account.protocol_type
    then (do
      attempt (do server ← server_of account; bridge server (token_text account.auth_token))
      pure tt)
    else (do
      server ← server_of account
      with_ssh server (λ ssh. do command ssh account.username; pure tt))

unfoldable pub set_status : AccountStatus → Account → Account
set_status s a = record a { status = s }

unfoldable pub delete_account : Account → Option ℕ → Act (Unit {0})
delete_account account admin_user = do
  remote_change deregister_token delete_user account
  save_account account.id (set_status AccountStatus.deleted)
  create_log Action.delete account.id admin_user []

unfoldable pub suspend_account : Account → Option ℕ → Act (Unit {0})
suspend_account account admin_user = do
  remote_change suspend_token lock_user account
  save_account account.id (set_status AccountStatus.suspended)
  create_log Action.suspend account.id admin_user []

unfoldable pub activate_account : Account → Option ℕ → Act (Unit {0})
activate_account account admin_user = do
  remote_change activate_token unlock_user account
  save_account account.id (set_status AccountStatus.active)
  create_log Action.activate account.id admin_user []

-- `SSHAccount.extend`
unfoldable pub extend : Account → ℕ → Act Account
extend account days = do
  now ← read_now
  expire_date ← add_days (max account.expire_date now) days
  save_account account.id
      (λ a. record a { expire_date = expire_date; status = AccountStatus.active })
  pure (record account { expire_date = expire_date; status = AccountStatus.active })

-- The body of the `with` in `extend_account`, on the extended object.
unfoldable pub renew_remote : Account → Manager → Act (Unit {0})
renew_remote account ssh = do
  set_expiry ssh account.username (strftime_date account.expire_date)
  if account_status_eq account.status AccountStatus.expired
      then (do unlock_user ssh account.username; pure tt)
      else pure tt

unfoldable pub extend_account : Account → ℕ → Option ℕ → Act Account
extend_account account days admin_user = do
  extended ← extend account days
  server ← server_of extended
  with_ssh server (renew_remote extended)
  create_log Action.extend account.id admin_user
      (codes "+" ++ (decimal days ++ (codes " days → " ++ strftime_date extended.expire_date)))
  pure extended

-- The body of the `with` in `reset_password`.
unfoldable pub change_remote_password : Account → Text → Manager → Act (Unit {0})
change_remote_password account new_pw ssh = do
  result ← change_password ssh account.username new_pw
  if succeeded result
      then pure tt
      else raise (account_error (codes "Password reset failed: " ++ result.stderr))

unfoldable pub reset_password : Account → Option ℕ → Act Text
reset_password account admin_user = do
  new_pw ← generate_password
  server ← server_of account
  with_ssh server (change_remote_password account new_pw)
  save_account account.id (λ a. record a { password_display = new_pw })
  create_log Action.password_reset account.id admin_user []
  pure new_pw
