-- ===== src/Api/Routes/Frame.antt =====
-- What a sequence of requests keeps: a property that the connection layer, an upload and the update of
-- an account keep.
use ssh_panel_vpn.Common.{ℕ, Option, List, [], ◌∷◌}
use ssh_panel_vpn.Common.Text.{Text}
use ssh_panel_vpn.Effects.{World, Act, Manager, ◌>>=◌, pure}
use ssh_panel_vpn.Effects.Keeps.{Keeps, Keeps-bind, Keeps-pure, Keeps-attempt}
use ssh_panel_vpn.Services.Frame.{Frame}
use ssh_panel_vpn.ShadowLink.Upload.{upload}
use ssh_panel_vpn.Api.Request.{User}
use ssh_panel_vpn.Api.Routes.{
  Route, respond, serve, create_user, create_shadowlink, bulk_create, delete_user, suspend_user,
  activate_user, reset_password, extend_user, account_update, webhook_payment, server_create,
  server_health, server_status, set_status, server_deploy,
}
use ssh_panel_vpn.Api.Routes.Changes.{
  payment_webhook-Keeps, server_set_status-Keeps, server_health_check-Keeps,
}
use ssh_panel_vpn.Api.Routes.Views.{
  everything, delete_account_view-Keeps, suspend_account_view-Keeps, activate_account_view-Keeps,
  extend_account_view-Keeps, reset_password_view-Keeps, create_account_view-Keeps,
  create_shadowlink_account_view-Keeps, bulk_create_view-Keeps,
}
use ssh_panel_vpn.Api.Update.{update_account_view}
use ssh_panel_vpn.Api.Serializers.{UpdateRequest}
use ssh_panel_vpn.Api.Routes.Nodes.{
  create_server_view-Keeps, shadowlink_deploy_server-Keeps, shadowlink_server_status-Keeps,
}

module _ {P Q : World → Type 0} (frame : Frame everything P Q)
    (uploads : (ssh : Manager) (path : Text) → Keeps P (upload ssh path))
    (updates : (user : Option User) (pk : ℕ) (body : UpdateRequest)
      → Keeps Q (update_account_view user pk body)) where
  dropped-Keeps : {A : Type 0} {m : Act A} → Keeps Q m → Keeps Q (m >>= λ _. pure tt)
  dropped-Keeps k = Keeps-bind _ _ k (λ _. Keeps-pure tt)

  respond-Keeps : (route : Route) (user : Option User) → Keeps Q (respond route user)
  unfolding respond
  respond-Keeps (create_user body) user = dropped-Keeps (create_account_view-Keeps frame user body)
  respond-Keeps (create_shadowlink body) user =
      dropped-Keeps (create_shadowlink_account_view-Keeps frame user body)
  respond-Keeps (bulk_create body) user = dropped-Keeps (bulk_create_view-Keeps frame user body)
  respond-Keeps (delete_user pk) user = dropped-Keeps (delete_account_view-Keeps frame user pk)
  respond-Keeps (suspend_user pk) user = dropped-Keeps (suspend_account_view-Keeps frame user pk)
  respond-Keeps (activate_user pk) user = dropped-Keeps (activate_account_view-Keeps frame user pk)
  respond-Keeps (reset_password pk) user = dropped-Keeps (reset_password_view-Keeps frame user pk)
  respond-Keeps (extend_user pk days) user =
      dropped-Keeps (extend_account_view-Keeps frame user pk days)
  respond-Keeps (account_update pk body) user = dropped-Keeps (updates user pk body)
  respond-Keeps (webhook_payment body) user = dropped-Keeps (payment_webhook-Keeps frame user body)
  respond-Keeps (server_create body) user =
      dropped-Keeps (create_server_view-Keeps frame uploads user body)
  respond-Keeps (server_health pk) user = dropped-Keeps (server_health_check-Keeps frame user pk)
  respond-Keeps (server_status pk) user =
      dropped-Keeps (shadowlink_server_status-Keeps frame uploads user pk)
  respond-Keeps (set_status pk status) user =
      dropped-Keeps (server_set_status-Keeps frame user pk status)
  respond-Keeps (server_deploy pk path) user =
      dropped-Keeps (shadowlink_deploy_server-Keeps frame uploads user pk path)

  pub serve-Keeps : (requests : List (Route × Option User)) → Keeps Q (serve requests)
  unfolding serve
  serve-Keeps [] = Keeps-pure tt
  serve-Keeps ((route, user) ∷ requests) =
      Keeps-bind _ _ (Keeps-attempt _ (respond-Keeps route user)) (λ _. serve-Keeps requests)
