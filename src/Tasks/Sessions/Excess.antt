-- ===== src/Tasks/Sessions/Excess.antt =====
-- The sessions that `sync_active_sessions` kills: `sorted(sess_list, key=pid)[max_connections:]`.
pub mod Bounds
use ssh_panel_vpn.Common.{
  ℕ, ◌≡◌, Bool, true, false, List, [], ◌∷◌, ◌++◌, map, leb, length, drop, if◌then◌else◌,
}
use ssh_panel_vpn.Common.Text.{Text, codes, decimal}
use ssh_panel_vpn.Ssh.Sessions.{SessionInfo}

-- A stable insertion by process id.
unfoldable pub insert_by_pid : SessionInfo → List SessionInfo → List SessionInfo
insert_by_pid s [] = s ∷ []
insert_by_pid s (t ∷ l) = if leb s.pid t.pid then s ∷ t ∷ l else t ∷ insert_by_pid s l

unfoldable pub sort_by_pid : List SessionInfo → List SessionInfo
unfolding insert_by_pid
sort_by_pid [] = []
sort_by_pid (s ∷ l) = insert_by_pid s (sort_by_pid l)

unfoldable pub excess : ℕ → List SessionInfo → List SessionInfo
unfolding sort_by_pid
excess max_connections l = drop max_connections (sort_by_pid l)

unfoldable pub excess_pids : ℕ → List SessionInfo → List ℕ
unfolding excess
excess_pids max_connections l = map (λ (s : SessionInfo). s.pid) (excess max_connections l)

-- `' '.join(pids)`
join_pids : List ℕ → Text
join_pids [] = []
join_pids (p ∷ []) = decimal p
join_pids (p ∷ r ∷ rest) = decimal p ++ 32 ∷ join_pids (r ∷ rest)

unfoldable pub kill_command : List ℕ → Text
unfolding join_pids
kill_command pids = codes "kill -9 " ++ join_pids pids
