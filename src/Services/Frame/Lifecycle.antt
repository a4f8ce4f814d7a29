-- ===== src/Services/Frame/Lifecycle.antt =====
-- What the services on an existing account keep of the connections.
use ssh_panel_vpn.Common.{ℕ, ◌≡◌, true, Option, []}
use ssh_panel_vpn.Common.Text.{Text}
use ssh_panel_vpn.Models.{Account, AccountStatus, Action, Server}
use ssh_panel_vpn.Effects.{World, Act, Manager, CommandResult, ◌>>◌, ◌>>=◌, pure}
use ssh_panel_vpn.Effects.Keeps.{Keeps, Keeps-bind, Keeps-pure, keeps_rules}
use ssh_panel_vpn.Database.{save_account, create_log}
use ssh_panel_vpn.Database.Permit.{Permit, password_column, expiry_column}
use ssh_panel_vpn.Database.Steady.{
  read_now-Steady, save_account-Steady, create_log-Steady, server_of-Steady,
  deregister_token-Steady, suspend_token-Steady, activate_token-Steady,
}
use ssh_panel_vpn.Ssh.Users.{delete_user, lock_user, unlock_user}
use ssh_panel_vpn.Ssh.Kept.{
  delete_user-Keeps, lock_user-Keeps, unlock_user-Keeps, set_expiry-Keeps, change_password-Keeps,
}
use ssh_panel_vpn.ShadowLink.{deregister_token, suspend_token, activate_token}
use ssh_panel_vpn.Services.Lifecycle.{
  set_status, remote_change, delete_account, suspend_account, activate_account, extend,
  renew_remote, extend_account, change_remote_password, reset_password,
}
use ssh_panel_vpn.Services.Frame.{Frame, add_days-Keeps, generate_password-Keeps}
use ssh_panel_vpn.Services.Frame.Writes.{set_status-Writes, extended-Writes, password-Writes}

module _ {may : Permit} {P Q : World → Type 0} (frame : Frame may P Q) where
  module _ (bridge : Server → Text → Act Text) (command : Manager → Text → Act CommandResult)
      (bridge-Keeps : (s : Server) (t : Text) → Keeps Q (bridge s t))
      (command-Keeps : (ssh : Manager) (t : Text) → Keeps P (command ssh t)) where
    command_body-Keeps : (u : Text) (ssh : Manager) → Keeps P (do command ssh u; pure tt)
    command_body-Keeps u ssh = search (keeps_rules, command-Keeps)

    remote_change-Keeps : (a : Account) → Keeps Q (remote_change bridge command a)
    unfolding remote_change
    remote_change-Keeps a =
        search
          (
            keeps_rules,
            server_of-Steady frame.outside,
            bridge-Keeps,
            frame.bracket,
            command_body-Keeps,
          )
          depth 8

  -- The status is written, and the audit row.
  save_status-Keeps :
      (s : AccountStatus)
      → may.sets s ≡ true
      → (action : Action) (a : Account) (user : Option ℕ) (r : Unit {0})
      → Keeps Q (save_account a.id (set_status s) >>= λ _. create_log action a.id user [])
  save_status-Keeps s permitted action a user r =
      Keeps-bind _ _ (save_account-Steady frame.outside a.id _ (set_status-Writes s permitted))
        (λ _. create_log-Steady frame.outside _ _ _ _)

  pub delete_account-Keeps :
      may.sets AccountStatus.deleted ≡ true
      → (a : Account) (user : Option ℕ) → Keeps Q (delete_account a user)
  unfolding delete_account
  delete_account-Keeps permitted a user =
      let S = frame.outside in
      Keeps-bind _ _
        (remote_change-Keeps deregister_token delete_user (deregister_token-Steady S)
          (delete_user-Keeps frame.run_inside) a)
        (save_status-Keeps AccountStatus.deleted permitted Action.delete a user)

  pub suspend_account-Keeps :
      may.sets AccountStatus.suspended ≡ true
      → (a : Account) (user : Option ℕ) → Keeps Q (suspend_account a user)
  unfolding suspend_account
  suspend_account-Keeps permitted a user =
      let S = frame.outside in
      Keeps-bind _ _
        (remote_change-Keeps suspend_token lock_user (suspend_token-Steady S)
          (lock_user-Keeps frame.run_inside) a)
        (save_status-Keeps AccountStatus.suspended permitted Action.suspend a user)

  pub activate_account-Keeps :
      may.sets AccountStatus.active ≡ true
      → (a : Account) (user : Option ℕ) → Keeps Q (activate_account a user)
  unfolding activate_account
  activate_account-Keeps permitted a user =
      let S = frame.outside in
      Keeps-bind _ _
        (remote_change-Keeps activate_token unlock_user (activate_token-Steady S)
          (unlock_user-Keeps frame.run_inside) a)
        (save_status-Keeps AccountStatus.active permitted Action.activate a user)

  extend-Keeps :
      may.sets AccountStatus.active ≡ true
      → may.edits expiry_column ≡ true
      → (a : Account) (days : ℕ) → Keeps Q (extend a days)
  unfolding extend
  extend-Keeps permitted dated a days =
      let S = frame.outside in
      Keeps-bind _ _ (read_now-Steady S) λ now. Keeps-bind _ _ (add_days-Keeps frame _ days) λ date.
        Keeps-bind _ _ (save_account-Steady S a.id _ (extended-Writes date permitted dated))
          λ _. Keeps-pure _

  renew_remote-Keeps : (a : Account) (ssh : Manager) → Keeps P (renew_remote a ssh)
  unfolding renew_remote
  renew_remote-Keeps a ssh =
      search (keeps_rules, set_expiry-Keeps frame.run_inside, unlock_user-Keeps frame.run_inside)
        depth 7

  pub extend_account-Keeps :
      may.sets AccountStatus.active ≡ true
      → may.edits expiry_column ≡ true
      → (a : Account) (days : ℕ) (user : Option ℕ) → Keeps Q (extend_account a days user)
  unfolding extend_account
  extend_account-Keeps permitted dated a days user =
      let S = frame.outside in
      Keeps-bind _ _ (extend-Keeps permitted dated a days) λ extended.
        Keeps-bind _ _ (server_of-Steady S extended) λ server.
          Keeps-bind _ _ (frame.bracket server _ (renew_remote-Keeps extended))
            λ _. Keeps-bind _ _ (create_log-Steady S _ _ _ _) λ _. Keeps-pure extended

  change_remote_password-Keeps :
      (a : Account) (t : Text) (ssh : Manager) → Keeps P (change_remote_password a t ssh)
  unfolding change_remote_password
  change_remote_password-Keeps a t ssh =
      search (keeps_rules, change_password-Keeps frame.run_inside) depth 7

  pub reset_password-Keeps :
      may.edits password_column ≡ true
      → (a : Account) (user : Option ℕ) → Keeps Q (reset_password a user)
  unfolding reset_password
  reset_password-Keeps keyed a user =
      let S = frame.outside in
      Keeps-bind _ _ (generate_password-Keeps S) λ t.
        Keeps-bind _ _ (server_of-Steady S a) λ server.
          Keeps-bind _ _ (frame.bracket server _ (change_remote_password-Keeps a t)) λ _.
            Keeps-bind _ _ (save_account-Steady S a.id _ (password-Writes t keyed))
              λ _. Keeps-bind _ _ (create_log-Steady S _ _ _ _) λ _. Keeps-pure t
