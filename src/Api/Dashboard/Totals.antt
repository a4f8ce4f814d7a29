-- ===== src/Api/Dashboard/Totals.antt =====
-- The counts of `dashboard_summary` agree.
use ssh_panel_vpn.Common.{ℕ, ◌+◌, ◌≤◌, ◌≡◌, List, [], ◌∷◌, length, take, zero, suc, arith}
use ssh_panel_vpn.Models.{Account, AccountStatus, AuditLog, Db, Server, ServerStatus}
use ssh_panel_vpn.Api.Dashboard.{count_status, count_present, count_servers, dashboard_summary}

count_split :
    (l : List Account)
    → count_present l
      ≡ count_status AccountStatus.active l
        + count_status AccountStatus.expired l
        + count_status AccountStatus.suspended l
unfolding count_present count_status
count_split [] = omega arith
count_split (a ∷ l) = ground (arith, count_split l)

servers_split :
    (l : List Server)
    → count_servers ServerStatus.active l + count_servers ServerStatus.down l ≤ length l
unfolding count_servers
servers_split [] = omega arith
servers_split (s ∷ l) = ground (arith, servers_split l)

length-take_le : (n : ℕ) (l : List AuditLog) → length (take n l) ≤ n
length-take_le zero l = omega arith
length-take_le (suc n) [] = omega arith
length-take_le (suc n) (x ∷ l) = omega (arith, length-take_le n l)

-- On the dashboard the total is the sum of the active, the expired and the suspended accounts; the
-- servers online and those down are together at most all servers; at most ten log rows are shown.
pub dashboard_totals :
    (db : Db)
    → let s = dashboard_summary db in
      (s.total ≡ s.active + s.expired + s.suspended)
      × (s.online + s.down ≤ s.servers)
      × (length s.recent_logs ≤ 10)
unfolding dashboard_summary
dashboard_totals db = (count_split db.accounts, servers_split db.servers, length-take_le 10 db.logs)
