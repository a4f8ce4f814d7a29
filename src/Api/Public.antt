-- ===== src/Api/Public.antt =====
-- The two public lookups by token: `PublicAccountStatusView.get` and `shadowlink_client_config`.
pub mod Granted
use ssh_panel_vpn.Common.{ℕ, Bool, true, false, [], ◌&&◌, ◌++◌, select, ◌==◌, if◌then◌else◌}
use ssh_panel_vpn.Common.Text.{Text, codes, decimal, is_empty}
use ssh_panel_vpn.Models.{Account, AccountStatus, Server}
use ssh_panel_vpn.Models.Queries.{account_status_eq, is_shadowlink, first}
use ssh_panel_vpn.Effects.{Act, pure, or_raise, ◌>>=◌, get_db, http_404}
use ssh_panel_vpn.Common.Yaml.{Yaml}
use ssh_panel_vpn.ShadowLink.Config.{obfuscation_section}
use ssh_panel_vpn.Database.{server_of}
use ssh_panel_vpn.Services.Create.{token_text}

-- `ShadowLinkManager.generate_client_config`: the entries of `client`, those of `cdn` with the prefix
-- `cdn_`, and `obfuscation`.
pub record ClientConfig : Type 0 where
  pub listen_addr : Text
  pub server_addr : Text
  pub server_sni : Text
  pub ws_path : Text
  pub auth_token : Text
  pub use_tls : Bool
  pub insecure : Bool
  pub cdn_enabled : Bool
  pub cdn_address : Text
  pub cdn_domain : Text
  pub cdn_ws_path : Text
  pub obfuscation : Yaml

-- `server.shadowlink_domain or server.ip_address`
abbrev pub domain_of : Server → Text
domain_of server =
    if is_empty server.shadowlink_domain then server.ip_address else server.shadowlink_domain

unfoldable pub generate_client_config : Account → Server → ClientConfig
unfolding token_text
generate_client_config account server = record {
  listen_addr = codes "127.0.0.1:1080";
  server_addr = domain_of server ++ (codes ":" ++ decimal server.shadowlink_port);
  server_sni = domain_of server;
  ws_path = server.shadowlink_ws_path;
  auth_token = token_text account.auth_token;
  use_tls = true;
  insecure = is_empty server.shadowlink_domain;
  cdn_enabled = false;
  cdn_address = [];
  cdn_domain = domain_of server;
  cdn_ws_path = server.shadowlink_ws_path;
  obfuscation = obfuscation_section;
}

pub data ConfigResponse : Type 0 where
  config : ClientConfig → ConfigResponse
  forbidden : Text → ConfigResponse

-- `auth_token=token, protocol_type="shadowlink"`
abbrev pub holds_token : ℕ → Account → Bool
holds_token token a = a.auth_token == token && is_shadowlink a.protocol_type

unfoldable pub config_for : Account → Act ConfigResponse
config_for acc =
    if account_status_eq acc.status AccountStatus.active
    then (do server ← server_of acc; pure (config (generate_client_config acc server)))
    else pure (forbidden (codes "Account is not active."))

unfoldable pub shadowlink_client_config : ℕ → Act ConfigResponse
unfolding config_for
shadowlink_client_config token = do
  db ← get_db
  acc ← or_raise http_404 (first (select (holds_token token) db.accounts))
  config_for acc

-- The account whose `PublicAccountStatusSerializer` fields are answered.
unfoldable pub public_account_status : ℕ → Act Account
public_account_status token = do
  db ← get_db
  or_raise http_404 (first (select (λ (a : Account). a.access_token == token) db.accounts))
