-- ===== src/ShadowLink/Upload.antt =====
-- `deploy_binary`, `deploy_config`, `deploy_systemd_service` and `full_deploy`.
use ssh_panel_vpn.Common.{◌++◌, ◌∷◌, if◌then◌else◌}
use ssh_panel_vpn.Common.Text.{Text, codes}
use ssh_panel_vpn.Models.{Server}
use ssh_panel_vpn.Effects.{Act, Manager, ok, err, uploaded, command_failed, pure, gets, ◌>>=◌, ◌>>◌}
use ssh_panel_vpn.Ssh.Connection.{run, with_ssh}
use ssh_panel_vpn.ShadowLink.Config.{generate_config, generate_systemd_unit}
use ssh_panel_vpn.ShadowLink.Deploy.{start_service}

-- `open_sftp`, `put`, `chmod` and `close`
unfoldable pub upload : Manager → Text → Act (Unit {0})
upload ssh path env w =
    let w' = record w { trace = uploaded ssh path ∷ w.trace } in
    if env.uploads w.trace ssh path then (ok tt, w') else (err command_failed, w')

unfoldable pub deploy_binary : Server → Text → Act (Unit {0})
deploy_binary server binary_path =
    with_ssh server (λ ssh. do run ssh (codes "mkdir -p /opt/shadowlink"); upload ssh binary_path)

-- `cat > path << 'SLEOF'`, the text, and the end mark
unfoldable pub here_document : Text → Text → Text
here_document path body =
    codes "cat > " ++ (path ++ (codes " << 'SLEOF'\n" ++ (body ++ codes "\nSLEOF")))

unfoldable pub deploy_config : Server → Act (Unit {0})
unfolding here_document
deploy_config server = do
  config ← gets (λ env w. generate_config env server)
  with_ssh server λ ssh. do
    run ssh (codes "mkdir -p /opt/shadowlink")
    run ssh (here_document (codes "/opt/shadowlink/config.yaml") config)
    pure tt

unfoldable pub deploy_systemd_service : Server → Act (Unit {0})
unfolding here_document
deploy_systemd_service server = with_ssh server λ ssh. do
  run ssh (here_document (codes "/etc/systemd/system/shadowlink.service") generate_systemd_unit)
  run ssh (codes "systemctl daemon-reload")
  run ssh (codes "systemctl enable shadowlink")
  pure tt

unfoldable pub full_deploy : Server → Text → Act (Unit {0})
full_deploy server binary_path = do
  deploy_binary server binary_path
  deploy_config server
  deploy_systemd_service server
  start_service server
