-- ===== src/Api/Dashboard.antt =====
-- `dashboard_summary`: the counts of the accounts by status, of the sessions and of the servers.
pub mod Totals
use ssh_panel_vpn.Common.{
  ℕ, ◌+◌, ◌≡◌, Bool, true, false, not, List, [], ◌∷◌, select, length, take, if◌then◌else◌, arith,
}
use ssh_panel_vpn.Models.{Account, AccountStatus, AuditLog, Db, Server, ServerStatus}
use ssh_panel_vpn.Models.Queries.{account_status_eq, server_status_eq}

pub record Summary : Type 0 where
  pub total : ℕ
  pub active : ℕ
  pub expired : ℕ
  pub suspended : ℕ
  pub active_sessions : ℕ
  pub servers : ℕ
  pub online : ℕ
  pub down : ℕ
  pub recent_logs : List AuditLog

unfoldable pub count_status : AccountStatus → List Account → ℕ
count_status s l = length (select (λ (a : Account). account_status_eq a.status s) l)

unfoldable pub count_present : List Account → ℕ
count_present l =
    length (select (λ (a : Account). not (account_status_eq a.status AccountStatus.deleted)) l)

unfoldable pub count_servers : ServerStatus → List Server → ℕ
count_servers s l = length (select (λ (srv : Server). server_status_eq srv.status s) l)

unfoldable pub dashboard_summary : Db → Summary
unfolding count_status count_present count_servers
dashboard_summary db = record {
  total = count_present db.accounts;
  active = count_status AccountStatus.active db.accounts;
  expired = count_status AccountStatus.expired db.accounts;
  suspended = count_status AccountStatus.suspended db.accounts;
  active_sessions = length db.sessions;
  servers = length db.servers;
  online = count_servers ServerStatus.active db.servers;
  down = count_servers ServerStatus.down db.servers;
  recent_logs = take 10 db.logs;
}
