-- ===== src/Api/Routes/Denied.antt =====
-- Who may call what.
use ssh_panel_vpn.Common.{◌≡◌, refl, Bool, true, false, Option}
use ssh_panel_vpn.Effects.{Env, World, err, permission_denied, raise, ◌>>=◌}
use ssh_panel_vpn.Api.Request.{User, Permission, permits, guarded}
use ssh_panel_vpn.Api.Accounts.{
  create_account_view, create_shadowlink_account_view, bulk_create_view, delete_account_view,
  suspend_account_view, activate_account_view, extend_account_view, reset_password_view,
  service_view,
}
use ssh_panel_vpn.Api.Update.{update_account_view}
use ssh_panel_vpn.Api.Servers.{server_set_status}
use ssh_panel_vpn.Api.Nodes.{
  server_health_check, shadowlink_deploy_server, shadowlink_server_status,
}
use ssh_panel_vpn.Setup.DefaultUser.{create_server_view}
use ssh_panel_vpn.Api.Routes.{
  Route, respond, create_user, create_shadowlink, bulk_create, delete_user, suspend_user,
  activate_user, reset_password, extend_user, account_update, webhook_payment, server_create,
  server_health, server_status, set_status, server_deploy,
}

-- `AllowAny`
abbrev pub is_open : Route → Bool
is_open (webhook_payment body) = true
is_open _ = false

-- Of the routes that change accounts and those that make, switch, check and deploy servers, only the
-- payment webhook serves a request from an anonymous visitor or a user who is not staff: every other
-- one raises `permission_denied` and leaves the database, the nodes and the trace as they were.
pub respond_denied :
    (route : Route) (user : Option User) (env : Env) (w : World)
    → is_open route ≡ false
    → permits Permission.is_admin_user user ≡ false
    → respond route user env w ≡ (err permission_denied, w)
unfolding respond guarded raise ◌>>=◌ create_account_view create_shadowlink_account_view
    bulk_create_view delete_account_view suspend_account_view activate_account_view service_view
    extend_account_view reset_password_view update_account_view server_set_status
    server_health_check shadowlink_deploy_server shadowlink_server_status create_server_view
respond_denied (create_user body) user env w h denied = rw denied refl
respond_denied (create_shadowlink body) user env w h denied = rw denied refl
respond_denied (bulk_create body) user env w h denied = rw denied refl
respond_denied (delete_user pk) user env w h denied = rw denied refl
respond_denied (suspend_user pk) user env w h denied = rw denied refl
respond_denied (activate_user pk) user env w h denied = rw denied refl
respond_denied (reset_password pk) user env w h denied = rw denied refl
respond_denied (extend_user pk days) user env w h denied = rw denied refl
respond_denied (account_update pk body) user env w h denied = rw denied refl
respond_denied (webhook_payment body) user env w h denied = absurd (cc)
respond_denied (server_create body) user env w h denied = rw denied refl
respond_denied (server_health pk) user env w h denied = rw denied refl
respond_denied (server_status pk) user env w h denied = rw denied refl
respond_denied (set_status pk status) user env w h denied = rw denied refl
respond_denied (server_deploy pk path) user env w h denied = rw denied refl
