-- ===== src/Setup/DefaultUser.antt =====
-- `ServerListView.perform_create` and `_provision_default_user`.
use ssh_panel_vpn.Common.{
  ℕ, Bool, true, false, ◌&&◌, not, Option, length, exists, leb, if◌then◌else◌,
}
use ssh_panel_vpn.Common.Text.{Text, codes, strip, is_empty, text_eq}
use ssh_panel_vpn.Models.{Db, Plan, Server}
use ssh_panel_vpn.Models.Time.{strftime_date}
use ssh_panel_vpn.Effects.{
  Act, Manager, pure, gets, or_raise, ◌>>=◌, ◌>>◌, on_result, on_option, attempt, read_now,
  validation_error,
}
use ssh_panel_vpn.Ssh.Connection.{with_ssh, succeeded}
use ssh_panel_vpn.Ssh.Users.{create_user, set_expiry, user_exists}
use ssh_panel_vpn.Ssh.Limits.{set_max_logins}
use ssh_panel_vpn.Services.Create.{add_days}
use ssh_panel_vpn.Services.Create.Password.{generate_password}
use ssh_panel_vpn.Api.Request.{User, Permission, guarded, require_valid}
use ssh_panel_vpn.Setup.Rows.{NewServer, insert_server_row, shortest_plan, insert_default_account}

-- The user is there already, or `useradd` and `chpasswd` made it.
unfoldable pub ensure_user : Text → Text → Manager → Act Bool
ensure_user username password ssh = do
  there ← user_exists ssh username
  if there
      then pure true
      else (do result ← create_user ssh username password; pure (succeeded result))

-- The body of the `with`; `false` is the early return.
unfoldable pub install_default_user : Text → Text → ℕ → Manager → Act Bool
unfolding ensure_user
install_default_user username password expire_date ssh = do
  made ← ensure_user username password ssh
  if made
      then (do
        set_expiry ssh username (strftime_date expire_date)
        set_max_logins ssh username 1
        pure true)
      else pure false

abbrev pub default_username : Text
default_username = codes "default_user"

-- After the `try`: the row, unless the remote user was not made.
unfoldable pub record_default_user : Server → Plan → Text → ℕ → Bool → Act (Unit {0})
record_default_user server plan password expire_date false = pure tt
record_default_user server plan password expire_date true = do
  insert_default_account
      (record {
        username = default_username;
        password = password;
        expire_date = expire_date;
        max_connections = 1;
        bandwidth_limit_gb = 0;
        note = codes "Auto-created default user.";
      })
      server plan
  pure tt

unfoldable pub provision_with_plan : Server → Text → ℕ → Plan → Act (Unit {0})
unfolding install_default_user record_default_user
provision_with_plan server password expire_date plan = do
  r ← attempt (with_ssh server (install_default_user default_username password expire_date))
  on_result r (record_default_user server plan password expire_date) (λ _. pure tt)

unfoldable pub provision_default_user : Server → Act (Unit {0})
unfolding provision_with_plan
provision_default_user server = do
  password ← generate_password
  now ← read_now
  expire_date ← add_days now 30
  plan ← shortest_plan
  on_option plan (pure tt) (provision_with_plan server password expire_date)

-- The checks of `ServerCreateSerializer` on stripped fields: sizes, the range of the port, and the
-- uniqueness of the name and the address.
unfoldable pub server_is_valid : Db → NewServer → Bool
unfolding text_eq
server_is_valid db r =
    not (is_empty r.name)
    && leb (length r.name) 100
    && not (is_empty r.ssh_user)
    && leb (length r.ssh_user) 64
    && not (is_empty r.ssh_key_path)
    && leb (length r.ssh_key_path) 500
    && leb (length r.location) 120
    && leb 1 r.ssh_port
    && leb r.ssh_port 65535
    && leb r.max_users 2147483647
    && not (
        exists
          (λ (s : Server).
            if text_eq s.name r.name then true else text_eq s.ip_address r.ip_address)
          db.servers)

unfoldable pub clean_server : NewServer → Text → NewServer
unfolding strip
clean_server r ip = record {
  name = strip r.name;
  ip_address = ip;
  ssh_port = r.ssh_port;
  ssh_user = strip r.ssh_user;
  ssh_key_path = strip r.ssh_key_path;
  location = strip r.location;
  max_users = r.max_users;
}

-- `ServerListView.create`
unfoldable pub create_server_view : Option User → NewServer → Act Server
unfolding clean_server server_is_valid provision_default_user
create_server_view user body = guarded Permission.is_admin_user user do
  ip ← gets (λ env w. env.clean_ip (strip body.ip_address))
  address ← or_raise validation_error ip
  let request = clean_server body address
  valid ← gets (λ env w. server_is_valid w.db request)
  require_valid valid
  server ← insert_server_row request
  provision_default_user server
  pure server
