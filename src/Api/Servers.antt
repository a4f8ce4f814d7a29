-- ===== src/Api/Servers.antt =====
-- `server_set_status`, and `_provision_default_user` of `ServerListView`.
use ssh_panel_vpn.Common.{ℕ, Option, none, some, if◌then◌else◌}
use ssh_panel_vpn.Common.Text.{Text, codes, text_eq}
use ssh_panel_vpn.Models.{ServerStatus}
use ssh_panel_vpn.Effects.{Act, pure, ◌>>=◌, ◌>>◌}
use ssh_panel_vpn.Database.{save_server}
use ssh_panel_vpn.Effects.{read_now}
use ssh_panel_vpn.Api.Request.{User, Permission, guarded, get_server_or_404, Response, detail}
use ssh_panel_vpn.Common.{◌++◌}

-- The first half of each pair of `Server.Status.choices`.
unfoldable pub status_of_text : Text → Option ServerStatus
unfolding text_eq codes
status_of_text t =
    if text_eq t (codes "active")
    then some ServerStatus.active
    else if text_eq t (codes "maintenance")
    then some ServerStatus.maintenance
    else if text_eq t (codes "full")
    then some ServerStatus.full
    else if text_eq t (codes "down")
    then some ServerStatus.down
    else none

-- `request.data.get("status", "active")`
abbrev pub requested_status : Option Text → Text
requested_status none = codes "active"
requested_status (some t) = t

unfoldable pub write_status : ℕ → Text → Option ServerStatus → Act Response
write_status pk text none =
    pure
      (detail 400 (codes "Invalid status. Choose from: ['active', 'maintenance', 'full', 'down']"))
write_status pk text (some new_status) = do
  now ← read_now
  save_server pk (λ row. record row { status = new_status; updated_at = now })
  pure (detail 200 (codes "Server status set to " ++ (text ++ codes ".")))

unfoldable pub server_set_status : Option User → ℕ → Option Text → Act Response
unfolding status_of_text
server_set_status user pk status = guarded Permission.is_admin_user user do
  server ← get_server_or_404 pk
  write_status server.id (requested_status status) (status_of_text (requested_status status))
