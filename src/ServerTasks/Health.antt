-- ===== src/ServerTasks/Health.antt =====
-- `check_all_servers_health` and `check_single_server`.
pub mod Status
pub mod Strikes
use ssh_panel_vpn.Common.{
  ℕ, ◌+◌, Bool, true, false, not, ◌&&◌, some, List, [], ◌∷◌, select, leb, ◌==◌, if◌then◌else◌,
}
use ssh_panel_vpn.Models.{Server, ServerStatus}
use ssh_panel_vpn.Models.Queries.{server_status_eq, find_server}
use ssh_panel_vpn.Effects.{
  Env, Act, ok, pure, gets, or_raise, ◌>>=◌, on_result, ◌>>◌, attempt, read_now, get_db,
  does_not_exist,
}
use ssh_panel_vpn.Database.{save_server, save_server_row}
use ssh_panel_vpn.Ssh.Connection.{with_ssh}
use ssh_panel_vpn.Ssh.Health.{Health, get_health}

abbrev pub FailCounts : Type 0
FailCounts = List (ℕ × ℕ)

-- `_health_fail_counts.get(i, 0)` and `_health_fail_counts[i] = n`
unfoldable pub fail_count : ℕ → FailCounts → ℕ
fail_count i [] = 0
fail_count i ((j, n) ∷ rest) = if j == i then n else fail_count i rest

unfoldable pub set_fail_count : ℕ → ℕ → FailCounts → FailCounts
set_fail_count i n [] = (i, n) ∷ []
set_fail_count i n ((j, m) ∷ rest) =
    if j == i then (i, n) ∷ rest else (j, m) ∷ set_fail_count i n rest

unfoldable pub write_fail_count : ℕ → ℕ → Act (Unit {0})
unfolding set_fail_count
write_fail_count i n env w = (ok tt, record w { fail_counts = set_fail_count i n w.fail_counts })

-- The snapshot that both checks write into the object.
unfoldable pub with_health : Server → Health → ℕ → Server
with_health srv health now = record srv {
  cpu_usage = health.cpu_usage;
  ram_usage = health.ram_usage;
  disk_usage = health.disk_usage;
  uptime_seconds = health.uptime_seconds;
  last_health_check = some now;
}

-- `if srv.status == ACTIVE and srv.cpu_usage > 95: srv.status = FULL`
unfoldable pub mark_full : Env → Server → Server
mark_full env srv =
    if server_status_eq srv.status ServerStatus.active && env.float_lt (env.of_ℕ 95) srv.cpu_usage
    then record srv { status = ServerStatus.full }
    else srv

-- The `except` branch, on the object as the `try` left it: three failures in a row mark the server
-- DOWN.
unfoldable pub check_failed : Server → Act (Unit {0})
unfolding fail_count
check_failed srv = do
  count ← gets (λ env w. fail_count srv.id w.fail_counts + 1)
  write_fail_count srv.id count
  now ← read_now
  let status = if leb 3 count then ServerStatus.down else srv.status
  save_server srv.id (λ row. record row { status = status; last_health_check = some now })

-- `srv.save()`, still in the `try`: where it raises, the object has the new snapshot and status.
unfoldable pub save_checked : Server → Act (Unit {0})
save_checked checked = do
  r ← attempt (save_server_row checked)
  on_result r (λ _. pure tt) (λ _. check_failed checked)

-- The rest of the `try` after the health was read: nothing before the save can raise.
unfoldable pub check_passed : Server → Health → Act (Unit {0})
unfolding with_health mark_full
check_passed srv health = do
  now ← read_now
  checked ← gets (λ env w. mark_full env (with_health srv health now))
  write_fail_count srv.id 0
  save_checked checked

unfoldable pub check_server : Server → Act (Unit {0})
check_server srv = do
  r ← attempt (with_ssh srv get_health)
  on_result r (check_passed srv) (λ _. check_failed srv)

unfoldable pub check_servers : List Server → Act (Unit {0})
check_servers [] = pure tt
check_servers (srv ∷ servers) = check_server srv >> check_servers servers

-- `Server.objects.exclude(status=DOWN)`
abbrev pub is_watched : Server → Bool
is_watched srv = not (server_status_eq srv.status ServerStatus.down)

unfoldable pub check_all_servers_health : Act (Unit {0})
check_all_servers_health = do db ← get_db; check_servers (select is_watched db.servers)

-- `if srv.status == DOWN: srv.status = ACTIVE`
unfoldable pub revive : Server → Server
revive srv =
    if server_status_eq srv.status ServerStatus.down
    then record srv { status = ServerStatus.active }
    else srv

-- The `except` branch of the single check.
unfoldable pub single_failed : Server → Act Bool
single_failed srv = do
  now ← read_now
  save_server srv.id
      (λ row. record row { status = ServerStatus.down; last_health_check = some now })
  pure false

unfoldable pub single_passed : Server → Health → Act Bool
unfolding with_health revive
single_passed srv health = do
  now ← read_now
  let checked = revive (with_health srv health now)
  r ← attempt (save_server_row checked)
  on_result r (λ _. pure true) (λ _. single_failed checked)

unfoldable pub check_single_server : ℕ → Act Bool
check_single_server server_id = do
  db ← get_db
  srv ← or_raise does_not_exist (find_server server_id db.servers)
  r ← attempt (with_ssh srv get_health)
  on_result r (single_passed srv) (λ _. single_failed srv)
