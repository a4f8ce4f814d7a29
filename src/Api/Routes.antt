-- ===== src/Api/Routes.antt =====
-- The routes of api/urls.py on accounts and payments, those that make, switch, check and deploy
-- servers, and a sequence of requests to them.
pub mod Denied
pub mod Views
pub mod Changes
pub mod Nodes
pub mod Frame
pub mod Tidy
pub mod Rows
use ssh_panel_vpn.Common.{ℕ, Bool, true, false, Option, List, [], ◌∷◌}
use ssh_panel_vpn.Common.Text.{Text}
use ssh_panel_vpn.Effects.{Act, pure, ◌>>=◌, attempt}
use ssh_panel_vpn.Api.Serializers.{CreateRequest, BulkRequest, UpdateRequest, Payment}
use ssh_panel_vpn.Api.Request.{User}
use ssh_panel_vpn.Api.Accounts.{
  create_account_view, create_shadowlink_account_view, bulk_create_view, delete_account_view,
  suspend_account_view, activate_account_view, extend_account_view, reset_password_view,
}
use ssh_panel_vpn.Api.Update.{update_account_view}
use ssh_panel_vpn.Api.Payment.{payment_webhook}
use ssh_panel_vpn.Api.Servers.{server_set_status}
use ssh_panel_vpn.Api.Nodes.{
  server_health_check, shadowlink_deploy_server, shadowlink_server_status,
}
use ssh_panel_vpn.Setup.Rows.{NewServer}
use ssh_panel_vpn.Setup.DefaultUser.{create_server_view}

-- A route with the arguments of its path and the body of the request.
pub data Route : Type 0 where
  create_user create_shadowlink : CreateRequest → Route
  bulk_create : BulkRequest → Route
  delete_user suspend_user activate_user reset_password : ℕ → Route
  extend_user : ℕ → ℕ → Route
  account_update : ℕ → UpdateRequest → Route
  webhook_payment : Payment → Route
  server_create : NewServer → Route
  server_health server_status : ℕ → Route
  set_status server_deploy : ℕ → Option Text → Route

unfoldable pub respond : Route → Option User → Act (Unit {0})
respond (create_user body) user = create_account_view user body >>= λ _. pure tt
respond (create_shadowlink body) user = create_shadowlink_account_view user body >>= λ _. pure tt
respond (bulk_create body) user = bulk_create_view user body >>= λ _. pure tt
respond (delete_user pk) user = delete_account_view user pk >>= λ _. pure tt
respond (suspend_user pk) user = suspend_account_view user pk >>= λ _. pure tt
respond (activate_user pk) user = activate_account_view user pk >>= λ _. pure tt
respond (reset_password pk) user = reset_password_view user pk >>= λ _. pure tt
respond (extend_user pk days) user = extend_account_view user pk days >>= λ _. pure tt
respond (account_update pk body) user = update_account_view user pk body >>= λ _. pure tt
respond (webhook_payment body) user = payment_webhook user body >>= λ _. pure tt
respond (server_create body) user = create_server_view user body >>= λ _. pure tt
respond (server_health pk) user = server_health_check user pk >>= λ _. pure tt
respond (server_status pk) user = shadowlink_server_status user pk >>= λ _. pure tt
respond (set_status pk status) user = server_set_status user pk status >>= λ _. pure tt
respond (server_deploy pk path) user = shadowlink_deploy_server user pk path >>= λ _. pure tt

-- Requests one after another; one that raises is answered with an error.
unfoldable pub serve : List (Route × Option User) → Act (Unit {0})
unfolding respond
serve [] = pure tt
serve ((route, user) ∷ requests) = attempt (respond route user) >>= λ _. serve requests
