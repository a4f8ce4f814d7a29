-- ===== src/ShadowLink.antt =====
-- servers/shadowlink.py: `ShadowLinkManager`, the bridge API calls and the client configuration.
pub mod Deploy
pub mod Config
pub mod Upload
use ssh_panel_vpn.Common.{
  ℕ, ◌≡◌, refl, Bool, true, false, not, Option, none, some, List, [], ◌∷◌, ◌++◌, if◌then◌else◌,
}
use ssh_panel_vpn.Common.Text.{Text, codes, decimal, is_empty}
use ssh_panel_vpn.Models.{Server}
use ssh_panel_vpn.Effects.{
  Env, World, Act, BridgeCall, BridgeReply, json, connection_error, timeout, http_error,
  other_error, Event, requested, Result, ok, err, Exception, shadowlink_error, bridge_failed, ◌>>=◌,
}

-- `__init__`: the bridge URL.
unfoldable pub bridge_url : Server → Text
unfolding decimal
bridge_url server =
    codes "http://" ++ (server.ip_address ++ (codes ":" ++ decimal server.shadowlink_bridge_port))

-- `_headers`: the API key is sent when there is one.
unfoldable pub api_key_header : Server → Option Text
api_key_header server =
    if is_empty server.shadowlink_api_key then none else some server.shadowlink_api_key

-- The `except` clauses of `_bridge_request`; any other exception passes.
unfoldable pub outcome : Text → BridgeReply → Result Text
unfolding decimal
outcome url (json body) = ok body
outcome url connection_error =
    err (shadowlink_error (codes "Cannot reach ShadowLink bridge at " ++ url))
outcome url timeout = err (shadowlink_error (codes "Bridge request timed out: " ++ url))
outcome url (http_error status text) =
    err (shadowlink_error (codes "Bridge API error: " ++ (decimal status ++ (codes " - " ++ text))))
outcome url other_error = err bridge_failed

-- `_bridge_request`
unfoldable pub bridge_request : Server → Text → Text → Option Text → Option ℕ → Act Text
unfolding outcome bridge_url api_key_header
bridge_request server method path token max_conns env w =
    let url = bridge_url server ++ path in
    let call : BridgeCall = record {
      method = method;
      url = url;
      token = token;
      max_conns = max_conns;
      api_key = api_key_header server;
    } in
    (outcome url (env.replies w.trace call), record w { trace = requested call ∷ w.trace })

unfoldable pub register_token : Server → Text → ℕ → Act Text
register_token server token max_conns =
    bridge_request server (codes "POST") (codes "/api/tokens") (some token) (some max_conns)

unfoldable pub deregister_token : Server → Text → Act Text
deregister_token server token =
    bridge_request server (codes "POST") (codes "/api/tokens/delete") (some token) none

unfoldable pub suspend_token : Server → Text → Act Text
suspend_token server token =
    bridge_request server (codes "POST") (codes "/api/tokens/suspend") (some token) none

unfoldable pub activate_token : Server → Text → Act Text
activate_token server token =
    bridge_request server (codes "POST") (codes "/api/tokens/activate") (some token) none

unfoldable pub get_status : Server → Act Text
get_status server = bridge_request server (codes "GET") (codes "/api/status") none none

unfoldable pub get_sessions : Server → Act Text
get_sessions server = bridge_request server (codes "GET") (codes "/api/sessions") none none

unfoldable pub health_check : Server → Act Text
health_check server = bridge_request server (codes "GET") (codes "/api/health") none none
