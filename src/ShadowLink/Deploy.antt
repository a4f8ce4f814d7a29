-- ===== src/ShadowLink/Deploy.antt =====
-- The systemd commands of `ShadowLinkManager`: `start_service`, `stop_service`, `restart_service` and
-- `service_status`.
use ssh_panel_vpn.Common.{ℕ, Bool, none, some, ◌++◌, if◌then◌else◌}
use ssh_panel_vpn.Common.Text.{Text, codes, strip, text_eq, digits_value}
use ssh_panel_vpn.Models.{Server}
use ssh_panel_vpn.Effects.{Act, pure, raise, shadowlink_error, ◌>>=◌, ◌>>◌}
use ssh_panel_vpn.Ssh.Connection.{run, with_ssh, succeeded}
use ssh_panel_vpn.Ssh.Traffic.{isdigit}

unfoldable pub start_service : Server → Act (Unit {0})
start_service server = with_ssh server λ ssh. do
  result ← run ssh (codes "systemctl start shadowlink")
  if succeeded result
      then pure tt
      else raise (shadowlink_error (codes "Failed to start ShadowLink: " ++ result.stderr))

unfoldable pub stop_service : Server → Act (Unit {0})
stop_service server = with_ssh server λ ssh. do run ssh (codes "systemctl stop shadowlink"); pure tt

unfoldable pub restart_service : Server → Act (Unit {0})
restart_service server = with_ssh server λ ssh. do
  result ← run ssh (codes "systemctl restart shadowlink")
  if succeeded result
      then pure tt
      else raise (shadowlink_error (codes "Failed to restart ShadowLink: " ++ result.stderr))

-- The dictionary that `service_status` returns.
pub record ServiceStatus : Type 0 where
  pub running : Bool
  pub pid : ℕ
  pub status : Text

pid_value : Text → ℕ
pid_value pid = if isdigit pid then (elim (digits_value 0 pid) [ none ↦ 0 | some n ↦ n ]) else 0

unfoldable pub service_status : Server → Act ServiceStatus
unfolding strip text_eq isdigit digits_value pid_value
service_status server = with_ssh server λ ssh. do
  result ← run ssh (codes "systemctl is-active shadowlink")
  pid_result ← run ssh (codes "systemctl show shadowlink --property=MainPID --value")
  let pid = if succeeded pid_result then strip pid_result.stdout else codes "0"
  pure (record {
    running = text_eq (strip result.stdout) (codes "active");
    pid = pid_value pid;
    status = strip result.stdout;
  })
