-- ===== src/Tasks/Bandwidth.antt =====
-- `sync_bandwidth_usage`.
pub mod Metered
use ssh_panel_vpn.Common.{ℕ, Bool, not, ◌&&◌, List, [], ◌∷◌, select, ltb, ◌==◌, if◌then◌else◌}
use ssh_panel_vpn.Models.{Account, AccountStatus, Float, Server}
use ssh_panel_vpn.Models.Queries.{account_status_eq}
use ssh_panel_vpn.Effects.{Env, Act, Manager, pure, gets, ◌>>=◌, ◌>>◌, attempt, get_db}
use ssh_panel_vpn.Database.{save_account}
use ssh_panel_vpn.Ssh.Connection.{with_ssh}
use ssh_panel_vpn.Ssh.Users.{lock_user}
use ssh_panel_vpn.Ssh.Traffic.{setup_traffic_accounting, get_user_bandwidth_bytes}
use ssh_panel_vpn.Services.Server.{is_active}
use ssh_panel_vpn.Services.Lifecycle.{set_status}

-- `acc.bandwidth_limit_gb > 0 and gb_used >= acc.bandwidth_limit_gb`
unfoldable pub over_limit : Env → ℕ → Float → Bool
over_limit env limit gb_used = ltb 0 limit && not (env.float_lt gb_used (env.of_ℕ limit))

-- The two `if`s of a round.
unfoldable pub record_usage : Account → Float → Act (Unit {0})
record_usage acc gb_used = do
  same ← gets (λ env w. env.float_eq gb_used acc.bandwidth_used_gb)
  if same then pure tt else save_account acc.id (λ a. record a { bandwidth_used_gb = gb_used })

unfoldable pub enforce_limit : Manager → Account → Float → Act (Unit {0})
unfolding over_limit
enforce_limit ssh acc gb_used = do
  over ← gets (λ env w. over_limit env acc.bandwidth_limit_gb gb_used)
  if over
      then (do lock_user ssh acc.username; save_account acc.id (set_status AccountStatus.suspended))
      else pure tt

unfoldable pub sync_account : Manager → Account → Act (Unit {0})
sync_account ssh acc = do
  setup_traffic_accounting ssh acc.username
  bytes_used ← get_user_bandwidth_bytes ssh acc.username
  gb_used ← gets (λ env w. env.gigabytes bytes_used)
  record_usage acc gb_used
  enforce_limit ssh acc gb_used

unfoldable pub sync_accounts : Manager → List Account → Act (Unit {0})
sync_accounts ssh [] = pure tt
sync_accounts ssh (acc ∷ accounts) = sync_account ssh acc >> sync_accounts ssh accounts

-- `filter(server=srv, status=ACTIVE)`
abbrev pub active_on : Server → Account → Bool
active_on srv a = a.server == srv.id && account_status_eq a.status AccountStatus.active

-- `if not accounts.exists(): continue`
unfoldable pub sync_with : Server → List Account → Act (Unit {0})
sync_with srv [] = pure tt
sync_with srv (acc ∷ accounts) = with_ssh srv (λ ssh. sync_accounts ssh (acc ∷ accounts))

unfoldable pub sync_server : Server → Act (Unit {0})
sync_server srv = do db ← get_db; sync_with srv (select (active_on srv) db.accounts)

-- `for srv in servers: try: ... except Exception: ...`
unfoldable pub each_server : (Server → Act (Unit {0})) → List Server → Act (Unit {0})
each_server body [] = pure tt
each_server body (srv ∷ servers) = do attempt (body srv); each_server body servers

unfoldable pub sync_bandwidth_usage : Act (Unit {0})
sync_bandwidth_usage = do db ← get_db; each_server sync_server (select is_active db.servers)
