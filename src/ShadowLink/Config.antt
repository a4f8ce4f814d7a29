-- ===== src/ShadowLink/Config.antt =====
-- `_generate_config` and `_generate_systemd_unit` of `ShadowLinkManager`.
use ssh_panel_vpn.Common.{ℕ, true, [], ◌++◌}
use ssh_panel_vpn.Common.Text.{Text, codes, decimal}
use ssh_panel_vpn.Common.Yaml.{Yaml, str, num, bool, dict, end, entry}
use ssh_panel_vpn.Models.{Server}
use ssh_panel_vpn.Effects.{Env}

abbrev listen_addr : Text → ℕ → Yaml
listen_addr host port = str (host ++ (codes ":" ++ decimal port))

unfoldable pub server_section : Server → Yaml
server_section server = dict (
    entry (codes "listen_addr") (listen_addr (codes "0.0.0.0") server.shadowlink_port) (
      entry (codes "ws_path") (str server.shadowlink_ws_path) (
        entry (codes "tls_cert") (str [])
          (entry (codes "tls_key") (str []) (entry (codes "decoy_dir") (str []) end)))))

unfoldable pub bridge_section : Server → Yaml
bridge_section server = dict (
    entry (codes "listen_addr") (listen_addr (codes "127.0.0.1") server.shadowlink_bridge_port)
      (entry (codes "api_key") (str server.shadowlink_api_key) end))

-- The dictionaries of constants: `padding`, `timing` and `traffic_shape`, which the client's
-- configuration has too, and `sessions`.
unfoldable pub obfuscation_section : Yaml
obfuscation_section = dict (
    entry (codes "padding")
      (dict (
        entry (codes "enabled") (bool true)
          (entry (codes "min_bytes") (num 16) (entry (codes "max_bytes") (num 128) end))))
      (entry (codes "timing")
        (dict (
          entry (codes "enabled") (bool true) (
            entry (codes "min_delay") (str (codes "0ms"))
              (entry (codes "max_delay") (str (codes "50ms")) end))))
        (entry (codes "traffic_shape")
          (dict (
            entry (codes "enabled") (bool true)
              (entry (codes "idle_interval") (str (codes "5s")) end)))
          end)))

unfoldable pub sessions_section : Yaml
sessions_section = dict (
    entry (codes "idle_timeout") (str (codes "5m")) (
      entry (codes "cleanup_interval") (str (codes "1m"))
        (entry (codes "max_per_token") (num 3) end)))

-- The dictionary `config` of `_generate_config`, and its text.
unfoldable pub config_of : Server → Yaml
unfolding server_section bridge_section obfuscation_section sessions_section
config_of server = dict (
    entry (codes "server") (server_section server) (
      entry (codes "bridge") (bridge_section server) (
        entry (codes "obfuscation") obfuscation_section
          (entry (codes "sessions") sessions_section end))))

unfoldable pub generate_config : Env → Server → Text
unfolding config_of
generate_config env server = env.dump_yaml (config_of server)

-- `_generate_systemd_unit`
unfoldable pub generate_systemd_unit : Text
generate_systemd_unit =
    codes "[Unit]\nDescription=ShadowLink Proxy Server\nAfter=network.target\n\n"
    ++ (codes "[Service]\nType=simple\n"
        ++ (codes
              "ExecStart=/opt/shadowlink/shadowlink-server -config /opt/shadowlink/config.yaml\n"
            ++ (codes "Restart=always\nRestartSec=5\nLimitNOFILE=65535\n\n"
                ++ codes "[Install]\nWantedBy=multi-user.target")))
