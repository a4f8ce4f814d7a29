-- ===== src/Api/Nodes.antt =====
-- `server_health_check`, `shadowlink_deploy_server` and `shadowlink_server_status`.
use ssh_panel_vpn.Common.{ℕ, Option, [], ◌∷◌, ◌++◌, if◌then◌else◌}
use ssh_panel_vpn.Common.Text.{Text, codes}
use ssh_panel_vpn.Models.{Server}
use ssh_panel_vpn.Models.Queries.{is_shadowlink}
use ssh_panel_vpn.Effects.{
  Act, Exception, shadowlink_error, http_404, ok, dispatched, pure, raise, ◌>>=◌, ◌>>◌, on_result,
  attempt,
}
use ssh_panel_vpn.ShadowLink.{health_check}
use ssh_panel_vpn.ShadowLink.Deploy.{ServiceStatus, service_status}
use ssh_panel_vpn.ShadowLink.Upload.{full_deploy}
use ssh_panel_vpn.Services.Create.{message, given_or}
use ssh_panel_vpn.Api.Request.{User, Permission, guarded, get_server_or_404, Response, detail}

-- `check_single_server.delay(server.id)`
unfoldable pub dispatch_check : ℕ → Act (Unit {0})
dispatch_check i env w = (ok tt, record w { trace = dispatched i ∷ w.trace })

unfoldable pub server_health_check : Option User → ℕ → Act Response
server_health_check user pk = guarded Permission.is_admin_user user do
  server ← get_server_or_404 pk
  dispatch_check server.id
  pure (detail 200 (codes "Health check dispatched."))

-- `get_object_or_404(Server, pk=pk, protocol_type="shadowlink")`
unfoldable pub get_node_or_404 : ℕ → Act Server
get_node_or_404 pk = do
  server ← get_server_or_404 pk
  if is_shadowlink server.protocol_type then pure server else raise http_404

-- `except ShadowLinkError`: any other exception passes.
unfoldable pub deploy_failed : Exception → Act Response
deploy_failed (shadowlink_error t) = pure (detail 400 t)
deploy_failed e = raise e

unfoldable pub deploy_to : Server → Text → Act Response
unfolding deploy_failed
deploy_to server [] = pure (detail 400 (codes "binary_path is required."))
deploy_to server (c ∷ path) = do
  r ← attempt (full_deploy server (c ∷ path))
  on_result r (λ _. pure (detail 200 (codes "ShadowLink deployed successfully."))) deploy_failed

unfoldable pub shadowlink_deploy_server : Option User → ℕ → Option Text → Act Response
unfolding get_node_or_404 deploy_to
shadowlink_deploy_server user pk binary_path =
    guarded Permission.is_admin_user user
      do server ← get_node_or_404 pk; deploy_to server (given_or binary_path [])

pub data StatusResponse : Type 0 where
  -- the service's status and what the bridge answered
  reachable : ServiceStatus → Text → StatusResponse
  -- the bridge is `{"status": "unreachable", "error": ...}`
  unreachable : ServiceStatus → Text → StatusResponse
  -- a 500
  status_check_failed : Text → StatusResponse

-- The two `except` clauses; the first asks for the service's status again.
unfoldable pub status_failed : Server → Exception → Act StatusResponse
status_failed server (shadowlink_error t) = do
  svc_status ← service_status server
  pure (unreachable svc_status t)
status_failed server e = pure (status_check_failed (codes "Status check failed: " ++ message e))

unfoldable pub read_status : Server → Act StatusResponse
read_status server = do
  svc_status ← service_status server
  bridge_status ← health_check server
  pure (reachable svc_status bridge_status)

unfoldable pub shadowlink_server_status : Option User → ℕ → Act StatusResponse
unfolding get_node_or_404 read_status status_failed
shadowlink_server_status user pk = guarded Permission.is_admin_user user do
  server ← get_node_or_404 pk
  r ← attempt (read_status server)
  on_result r pure (status_failed server)
