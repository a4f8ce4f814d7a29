-- ===== src/Setup/Command.antt =====
-- The `setup_server` command. Its options are numbers from 0 on; what it prints is left out.
pub mod Leak
use ssh_panel_vpn.Common.{
  ℕ, Bool, false, not, ◌&&◌, Option, none, some, List, [], ◌∷◌, ◌++◌, exists, ltb, if◌then◌else◌,
}
use ssh_panel_vpn.Common.Text.{Text, codes, text_eq}
use ssh_panel_vpn.Models.{Account, AccountStatus, Db, Plan, Server}
use ssh_panel_vpn.Models.Queries.{account_status_eq, same_login}
use ssh_panel_vpn.Models.Time.{strftime_date}
use ssh_panel_vpn.Effects.{
  Act, Manager, Exception, ok, command_error, data_error, pure, raise, gets, or_raise, ◌>>=◌, ◌>>◌,
  on_result, on_option, attempt, get_db, read_now,
}
use ssh_panel_vpn.Ssh.Connection.{connect, disconnect, run, get_ssh_manager, succeeded}
use ssh_panel_vpn.Ssh.Users.{create_user, set_expiry, user_exists}
use ssh_panel_vpn.Ssh.Limits.{set_max_logins}
use ssh_panel_vpn.Ssh.Traffic.{setup_traffic_accounting}
use ssh_panel_vpn.Services.Create.{add_days, password_or, message}
use ssh_panel_vpn.Setup.Rows.{
  NewServer, insert_server_row, save_server_whole, shortest_plan, insert_plan,
  insert_default_account,
}

pub record Options : Type 0 where
  pub server : NewServer
  pub default_username : Text
  pub default_password : Text
  pub default_days : ℕ
  pub default_max_conns : ℕ
  pub default_bandwidth_gb : ℕ
  pub skip_ssh_test : Bool
  pub skip_user : Bool

unfoldable pub find_by_address : Text → List Server → Option Server
find_by_address ip [] = none
find_by_address ip (s ∷ l) = if text_eq s.ip_address ip then some s else find_by_address ip l

-- The fields that the command writes on a server that is there.
unfoldable pub update_server : NewServer → Server → Server
update_server args s = record s {
  name = args.name;
  ssh_port = args.ssh_port;
  ssh_user = args.ssh_user;
  ssh_key_path = args.ssh_key_path;
  location = args.location;
  max_users = args.max_users;
}

-- Step 1: `get_or_create`, and the update.
unfoldable pub create_or_update_server : NewServer → Act Server
unfolding find_by_address update_server
create_or_update_server args = do
  ip ← gets (λ env w. env.clean_ip args.ip_address)
  address ← or_raise data_error ip
  db ← get_db
  on_option (find_by_address address db.servers)
      (insert_server_row (record args { ip_address = address }))
      (λ s. save_server_whole (update_server args s))

-- `SSHManager(...)`: a manager with no client takes the place of the last one.
unfoldable pub new_manager : Server → Act Manager
new_manager server env w = (ok (get_ssh_manager server), record w { client = false })

unfoldable pub try_echo : Manager → Act (Unit {0})
try_echo ssh = do
  connect ssh
  result ← run ssh (codes "echo ok")
  if succeeded result
      then disconnect ssh
      else raise (command_error (codes "SSH connected but test command failed: " ++ result.stderr))

-- Step 2: the `try` around the test; its `except Exception` catches the error raised inside too.
unfoldable pub test_connection : Server → Act (Unit {0})
unfolding new_manager try_echo
test_connection server = do
  ssh ← new_manager server
  r ← attempt (try_echo ssh)
  on_result r pure (λ e. raise (command_error (codes "SSH connection failed: " ++ message e)))

unfoldable pub install_account : Text → Text → ℕ → ℕ → ℕ → Manager → Act (Unit {0})
install_account username password expire_date max_conns bw_limit ssh = do
  connect ssh
  there ← user_exists ssh username
  if there then pure tt else (do
    result ← create_user ssh username password
    if succeeded result
        then pure tt
        else raise (command_error (codes "Failed to create OS user: " ++ result.stderr)))
  set_expiry ssh username (strftime_date expire_date)
  set_max_logins ssh username max_conns
  if ltb 0 bw_limit then setup_traffic_accounting ssh username else pure tt
  disconnect ssh

-- `except CommandError: raise`, and the other exceptions.
unfoldable pub as_command_error : Exception → Exception
as_command_error (command_error t) = command_error t
as_command_error e = command_error (codes "Remote provisioning failed: " ++ message e)

unfoldable pub provision_remote : Server → Text → Text → ℕ → ℕ → ℕ → Act (Unit {0})
unfolding new_manager install_account as_command_error
provision_remote server username password expire_date max_conns bw_limit = do
  ssh ← new_manager server
  r ← attempt (install_account username password expire_date max_conns bw_limit ssh)
  on_result r pure (λ e. raise (as_command_error e))

-- `filter(username=..., server=...).exclude(status=DELETED).exists()`
unfoldable pub has_login : Text → ℕ → Db → Bool
has_login username server db =
    exists
      (λ (a : Account).
        same_login username server a && not (account_status_eq a.status AccountStatus.deleted))
      db.accounts

unfoldable pub plan_or_default : Options → Act Plan
plan_or_default o = do
  found ← shortest_plan
  on_option found
      (insert_plan (codes "Default") o.default_days 0 o.default_max_conns o.default_bandwidth_gb)
      pure

pub data SetupResult : Type 0 where
  skipped_user : Server → SetupResult
  user_was_there : Server → SetupResult
  created : Server → Account → SetupResult

-- The end of step 3, for a login that is free.
unfoldable pub create_default : Options → Server → Text → ℕ → Act SetupResult
create_default o server password expire_date = do
  plan ← plan_or_default o
  provision_remote server o.default_username password expire_date o.default_max_conns
      o.default_bandwidth_gb
  account ←
      insert_default_account
        (record {
          username = o.default_username;
          password = password;
          expire_date = expire_date;
          max_connections = o.default_max_conns;
          bandwidth_limit_gb = o.default_bandwidth_gb;
          note = codes "Default account created by setup_server command.";
        })
        server plan
  pure (created server account)

-- Step 3.
unfoldable pub setup_user : Options → Server → Act SetupResult
unfolding has_login
setup_user o server = do
  password ← password_or (some o.default_password)
  now ← read_now
  expire_date ← add_days now o.default_days
  db ← get_db
  if has_login o.default_username server.id db
      then pure (user_was_there server)
      else create_default o server password expire_date

-- `Command.handle`
unfoldable pub setup_server : Options → Act SetupResult
setup_server o = do
  server ← create_or_update_server o.server
  if o.skip_ssh_test then pure tt else test_connection server
  if o.skip_user then pure (skipped_user server) else setup_user o server
