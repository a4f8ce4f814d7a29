-- ===== src/Api/Routes/Nodes.antt =====
-- What the views that make, check and deploy servers keep.
use ssh_panel_vpn.Common.{◌≡◌, ℕ, refl, true, false, arith, Bool, Option, List, [], ◌∷◌}
use ssh_panel_vpn.Common.Text.{Text}
use ssh_panel_vpn.Models.{Plan, Server}
use ssh_panel_vpn.Models.Queries.{has_server}
use ssh_panel_vpn.Effects.{World, Manager, Exception, shadowlink_error}
use ssh_panel_vpn.Effects.Keeps.{
  Keeps, Keeps-bind, Keeps-pure, Keeps-raise, Keeps-if, Keeps-gets, Keeps-attempt, Keeps-on_result,
  Keeps-on_option, Keeps-or_raise, keeps_rules, get_db-Keeps,
}
use ssh_panel_vpn.Database.Steady.{
  bridge_request-Steady, read_now-Steady, new_id-Steady, new_uuid-Steady, modify-Steady,
  create_account_row-Steady,
}
use ssh_panel_vpn.Services.Frame.{Frame, add_days-Keeps, generate_password-Keeps}
use ssh_panel_vpn.Ssh.Kept.{
  create_user-Keeps, set_expiry-Keeps, set_max_logins-Keeps, user_exists-Keeps,
}
use ssh_panel_vpn.ShadowLink.{health_check}
use ssh_panel_vpn.ShadowLink.Deploy.{start_service, service_status}
use ssh_panel_vpn.ShadowLink.Upload.{
  upload, deploy_binary, deploy_config, deploy_systemd_service, full_deploy,
}
use ssh_panel_vpn.Setup.Rows.{
  NewServer, insert_server_row, accept_server, shortest_plan, insert_default_account, default_row,
}
use ssh_panel_vpn.Setup.DefaultUser.{
  create_server_view, provision_default_user, provision_with_plan, record_default_user,
  install_default_user, ensure_user,
}
use ssh_panel_vpn.Api.Request.{User}
use ssh_panel_vpn.Api.Nodes.{
  get_node_or_404, deploy_failed, deploy_to, shadowlink_deploy_server, status_failed, read_status,
  shadowlink_server_status,
}
use ssh_panel_vpn.Api.Routes.Views.{
  everything, guarded-Keeps, require_valid-Keeps, get_server_or_404-Keeps,
}

has_server_more :
    (s : Server) (i : ℕ) (l : List Server) → has_server i l ≡ true → has_server i (s ∷ l) ≡ true
unfolding has_server
has_server_more s i l there = ground (arith, there)

module _ {P Q : World → Type 0} (frame : Frame everything P Q)
    (uploads : (ssh : Manager) (path : Text) → Keeps P (upload ssh path)) where
  get_node_or_404-Keeps : (pk : ℕ) → Keeps Q (get_node_or_404 pk)
  unfolding get_node_or_404
  get_node_or_404-Keeps pk =
      Keeps-bind _ _ (get_server_or_404-Keeps frame pk)
        (λ server. Keeps-if _ _ _ (Keeps-pure _) (Keeps-raise _))

  full_deploy-Keeps : (server : Server) (path : Text) → Keeps Q (full_deploy server path)
  unfolding full_deploy deploy_binary deploy_config deploy_systemd_service start_service
  full_deploy-Keeps server path =
      search (keeps_rules, frame.bracket, frame.run_inside, uploads) depth 12

  deploy_failed-Keeps : (e : Exception) → Keeps Q (deploy_failed e)
  unfolding deploy_failed
  deploy_failed-Keeps (shadowlink_error t) = Keeps-pure _
  deploy_failed-Keeps _ = Keeps-raise _

  deploy_to-Keeps : (server : Server) (path : Text) → Keeps Q (deploy_to server path)
  unfolding deploy_to
  deploy_to-Keeps server [] = Keeps-pure _
  deploy_to-Keeps server (c ∷ path) =
      Keeps-bind _ _ (Keeps-attempt _ (full_deploy-Keeps server (c ∷ path)))
        (λ r. Keeps-on_result r _ _ (λ _. Keeps-pure _) deploy_failed-Keeps)

  pub shadowlink_deploy_server-Keeps :
      (user : Option User) (pk : ℕ) (o : Option Text) → Keeps Q (shadowlink_deploy_server user pk o)
  unfolding shadowlink_deploy_server
  shadowlink_deploy_server-Keeps user pk o =
      guarded-Keeps frame _ user _
        (Keeps-bind _ _ (get_node_or_404-Keeps pk) (λ server. deploy_to-Keeps server _))

  service_status-Keeps : (server : Server) → Keeps Q (service_status server)
  unfolding service_status
  service_status-Keeps server = search (keeps_rules, frame.bracket, frame.run_inside) depth 7

  health_check-Keeps : (server : Server) → Keeps Q (health_check server)
  unfolding health_check
  health_check-Keeps server = bridge_request-Steady frame.outside server _ _ _ _

  status_failed-Keeps : (server : Server) (e : Exception) → Keeps Q (status_failed server e)
  unfolding status_failed
  status_failed-Keeps server (shadowlink_error t) =
      Keeps-bind _ _ (service_status-Keeps server) (λ s. Keeps-pure _)
  status_failed-Keeps server _ = Keeps-pure _

  pub shadowlink_server_status-Keeps :
      (user : Option User) (pk : ℕ) → Keeps Q (shadowlink_server_status user pk)
  unfolding shadowlink_server_status read_status
  shadowlink_server_status-Keeps user pk = guarded-Keeps frame _ user _ (
      Keeps-bind _ _ (get_node_or_404-Keeps pk) λ server.
        Keeps-bind _ _
          (Keeps-attempt _ (
            Keeps-bind _ _ (service_status-Keeps server)
              λ s. Keeps-bind _ _ (health_check-Keeps server) λ t. Keeps-pure _))
          λ r. Keeps-on_result r _ _ (λ a. Keeps-pure a) (status_failed-Keeps server))

  insert_server_row-Keeps : (args : NewServer) → Keeps Q (insert_server_row args)
  unfolding insert_server_row accept_server
  insert_server_row-Keeps args = Keeps-bind _ _ (new_id-Steady frame.outside) λ id.
      Keeps-bind _ _ (read_now-Steady frame.outside) λ t.
        Keeps-bind _ _ (read_now-Steady frame.outside) λ u. Keeps-bind _ _ (Keeps-gets _) λ s.
          Keeps-bind _ _ (search (keeps_rules, get_db-Keeps)) λ _.
            Keeps-bind _ _
              (modify-Steady frame.outside _ (λ d. refl)
                (λ d i there. has_server_more s i d.servers there))
              λ _. Keeps-pure s

  install_default_user-Keeps :
      (u p : Text) (date : ℕ) (ssh : Manager) → Keeps P (install_default_user u p date ssh)
  unfolding install_default_user ensure_user
  install_default_user-Keeps u p date ssh =
      search
        (
          keeps_rules,
          user_exists-Keeps frame.run_inside,
          create_user-Keeps frame.run_inside,
          set_expiry-Keeps frame.run_inside,
          set_max_logins-Keeps frame.run_inside,
        )
        depth 9

  record_default_user-Keeps :
      (server : Server) (plan : Plan) (p : Text) (date : ℕ) (made : Bool)
      → Keeps Q (record_default_user server plan p date made)
  unfolding record_default_user insert_default_account default_row
  record_default_user-Keeps server plan p date false = Keeps-pure tt
  record_default_user-Keeps server plan p date true =
      let S = frame.outside in
      Keeps-bind _ _
        (Keeps-bind _ _ (new_id-Steady S) λ id. Keeps-bind _ _ (new_uuid-Steady S) λ t.
          Keeps-bind _ _ (new_uuid-Steady S) λ u.
            Keeps-bind _ _ (read_now-Steady S)
              λ c. Keeps-bind _ _ (read_now-Steady S) λ d. create_account_row-Steady S _ refl refl)
        (λ _. Keeps-pure tt)

  provision_with_plan-Keeps :
      (server : Server) (p : Text) (date : ℕ) (plan : Plan)
      → Keeps Q (provision_with_plan server p date plan)
  unfolding provision_with_plan
  provision_with_plan-Keeps server p date plan =
      Keeps-bind _ _
        (Keeps-attempt _ (frame.bracket server _ (install_default_user-Keeps _ p date)))
        (λ r.
          Keeps-on_result r _ _ (record_default_user-Keeps server plan p date) (λ e. Keeps-pure tt))

  provision_default_user-Keeps : (server : Server) → Keeps Q (provision_default_user server)
  unfolding provision_default_user shortest_plan
  provision_default_user-Keeps server = Keeps-bind _ _ (generate_password-Keeps frame.outside) λ p.
      Keeps-bind _ _ (read_now-Steady frame.outside) λ now.
        Keeps-bind _ _ (add_days-Keeps frame now 30) λ date.
          Keeps-bind _ _ (Keeps-gets _)
            λ o. Keeps-on_option o _ _ (Keeps-pure tt) (provision_with_plan-Keeps server p date)

  pub create_server_view-Keeps :
      (user : Option User) (body : NewServer) → Keeps Q (create_server_view user body)
  unfolding create_server_view
  create_server_view-Keeps user body = guarded-Keeps frame _ user _ (
      Keeps-bind _ _ (Keeps-gets _) λ ip. Keeps-bind _ _ (Keeps-or_raise _ ip) λ address.
        Keeps-bind _ _ (Keeps-gets _) λ valid. Keeps-bind _ _ (require_valid-Keeps frame valid) λ _.
          Keeps-bind _ _ (insert_server_row-Keeps _)
            λ server. Keeps-bind _ _ (provision_default_user-Keeps server) λ _. Keeps-pure server)
