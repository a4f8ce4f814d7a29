-- ===== src/ServerTasks/Health/Strikes.antt =====
-- The fail counter of the periodic check, and the third failure.
use ssh_panel_vpn.Common.{
  ℕ, ◌+◌, ◌≡◌, refl, sym, ap, ◌∙◌, Bool, true, false, Option, List, [], ◌∷◌, All, leb, ◌==◌, arith,
  if◌then◌else◌, Bool-cases, inl, inr, ==_refl,
}
use ssh_panel_vpn.Common.Text.{Text}
use ssh_panel_vpn.Models.{Integer, Server, ServerStatus}
use ssh_panel_vpn.Effects.{
  Env, World, Exception, Result, ok, err, Manager, KeyClass, ◌>>=◌, on_result, attempt, pure, raise,
  read_now, modify,
}
use ssh_panel_vpn.Effects.Keeps.{Keeps}
use ssh_panel_vpn.Database.{fits_big, save_server, save_server_row, change_server}
use ssh_panel_vpn.Ssh.Bracket.{connect-Keeps, run_within-Keeps, with_ssh_bracket}
use ssh_panel_vpn.Ssh.Connection.{exec_command, open_client, disconnect, with_ssh}
use ssh_panel_vpn.Ssh.Health.{Health, get_health}
use ssh_panel_vpn.Ssh.Kept.{get_health-Keeps}
use ssh_panel_vpn.ServerTasks.Health.{
  FailCounts, fail_count, set_fail_count, write_fail_count, with_health, mark_full, save_checked,
  check_passed, check_failed, check_server,
}

-- The counters of the world.
abbrev HasCounts : FailCounts → World → Type 0
HasCounts c w = w.fail_counts ≡ c

exec_command-HasCounts :
    (c : FailCounts) (ssh : Manager) (t : Text) → Keeps (HasCounts c) (exec_command ssh t)
unfolding exec_command
exec_command-HasCounts c ssh t = record { at = λ env w h. ground arith }

open_client-HasCounts :
    (c : FailCounts) (ssh : Manager) (k : Option KeyClass) → Keeps (HasCounts c) (open_client ssh k)
unfolding open_client
open_client-HasCounts c ssh k = record { at = λ env w h. ground arith }

disconnect-HasCounts :
    (c : FailCounts) (ssh : Manager) (env : Env) (w : World)
    → HasCounts c w
    → HasCounts c (disconnect ssh env w).1
unfolding disconnect
disconnect-HasCounts c ssh env w h = ground arith

get_health-HasCounts :
    (c : FailCounts) (srv : Server) → Keeps (HasCounts c) (with_ssh srv get_health)
get_health-HasCounts c srv =
    with_ssh_bracket {P = HasCounts c} {Q = HasCounts c} (λ w h. h)
      (connect-Keeps (open_client-HasCounts c)) (disconnect-HasCounts c) (λ ssh env w e f h. h) srv
      get_health
      (get_health-Keeps (λ ssh t.
        run_within-Keeps (open_client-HasCounts c) ssh t (exec_command-HasCounts c ssh t)))

fail_count_set : (i n : ℕ) (l : FailCounts) → fail_count i (set_fail_count i n l) ≡ n
unfolding fail_count set_fail_count
fail_count_set i n [] = rw (==_refl i) refl
fail_count_set i n ((j, m) ∷ l) = elim (Bool-cases (j == i)) [
  | inl same ↦ rw (same, ==_refl i) refl
  | inr other ↦ rw (other, other) (fail_count_set i n l)
]

-- The rows of an id are DOWN.
abbrev pub IsDown : ℕ → Server → Type 0
IsDown i s = s.id ≡ i → s.status ≡ ServerStatus.down

change_server-IsDown :
    (i : ℕ) (f : Server → Server)
    → ((s : Server) → (f s).status ≡ ServerStatus.down)
    → (l : List Server) → All (IsDown i) (change_server i f l)
unfolding change_server
change_server-IsDown i f down [] = tt
change_server-IsDown i f down (s ∷ l) = elim (Bool-cases (s.id == i)) [
  | inl same ↦ rw same (λ e. down s, change_server-IsDown i f down l)
  | inr other ↦ rw other (λ e. ground (arith, other, e), change_server-IsDown i f down l)
]

-- What one check makes of the counter, by how the reading of the health ended, and by whether the
-- column holds the uptime that was read.
abbrev pub Struck : Server → World → Result Health → World → Type 0
Struck srv w (ok health) w' =
    fail_count srv.id w'.fail_counts ≡ (if fits_big health.uptime_seconds then 0 else 1)
Struck srv w (err e) w' =
    (fail_count srv.id w'.fail_counts ≡ fail_count srv.id w.fail_counts + 1)
    × (leb 3 (fail_count srv.id w'.fail_counts) ≡ true → All (IsDown srv.id) w'.db.servers)

third_down :
    (n : ℕ) (status : ServerStatus)
    → leb 3 n ≡ true
    → (if leb 3 n then ServerStatus.down else status) ≡ ServerStatus.down
third_down n status h = rw h refl

check_failed-Struck :
    (srv : Server) (env : Env) (w w1 : World) (e : Exception)
    → w1.fail_counts ≡ w.fail_counts
    → Struck srv w (err e) (check_failed srv env w1).1
unfolding check_failed read_now write_fail_count save_server modify ◌>>=◌
check_failed-Struck srv env w w1 e same =
    let n = fail_count srv.id w1.fail_counts + 1 in
    let set = fail_count_set srv.id n w1.fail_counts in
    (
      set ∙ ap (λ c. fail_count srv.id c + 1) same,
      λ h.
          change_server-IsDown srv.id _ (λ s. third_down n srv.status (sym (ap (leb 3) set) ∙ h))
            w1.db.servers,
    )

mark_full_kept :
    (env : Env) (srv : Server)
    → ((mark_full env srv).id ≡ srv.id) × ((mark_full env srv).uptime_seconds ≡ srv.uptime_seconds)
unfolding mark_full
mark_full_kept env srv = ground arith

-- The save of the snapshot, with the counter at 0 before it.
save_checked-count :
    (checked : Server) (env : Env) (w : World) (c : FailCounts)
    → w.fail_counts ≡ set_fail_count checked.id 0 c
    → fail_count checked.id (save_checked checked env w).1.fail_counts
      ≡ (if fits_big checked.uptime_seconds then 0 else 1)
unfolding save_checked save_server_row save_server check_failed read_now write_fail_count modify
    raise attempt pure on_result ◌>>=◌
save_checked-count checked env w c reset = saved (fits_big checked.uptime_seconds) refl
  where
    zeroed : fail_count checked.id w.fail_counts ≡ 0
    zeroed = ap (fail_count checked.id) reset ∙ fail_count_set checked.id 0 c

    saved :
        (b : Bool)
        → fits_big checked.uptime_seconds ≡ b
        → fail_count checked.id (save_checked checked env w).1.fail_counts ≡ (if b then 0 else 1)
    saved true fits = rw fits zeroed
    saved false large = rw large (
        fail_count_set checked.id (fail_count checked.id w.fail_counts + 1) w.fail_counts
        ∙ ap (λ n. n + 1) zeroed)

check_passed-Struck :
    (srv : Server) (env : Env) (w w1 : World) (health : Health)
    → Struck srv w (ok health) (check_passed srv health env w1).1
unfolding check_passed read_now write_fail_count with_health ◌>>=◌
check_passed-Struck srv env w w1 health =
    let snapshot : Server = with_health srv health (env.now w1.trace) in
    let kept = mark_full_kept env snapshot in
    let set : World = (write_fail_count srv.id 0 env (read_now env w1).1).1 in
    ap (λ i. fail_count i (save_checked (mark_full env snapshot) env set).1.fail_counts)
      (sym kept.0)
    ∙ save_checked-count (mark_full env snapshot) env set w1.fail_counts
        (ap (λ i. set_fail_count i 0 w1.fail_counts) (sym kept.0))
    ∙ ap (λ (n : Integer). if fits_big n then 0 else 1) kept.1

finish-Struck :
    (srv : Server) (env : Env) (w w1 : World) (r : Result Health)
    → w1.fail_counts ≡ w.fail_counts
    → Struck srv w r (on_result r (check_passed srv) (λ _. check_failed srv) env w1).1
unfolding on_result
finish-Struck srv env w w1 (ok health) same = check_passed-Struck srv env w w1 health
finish-Struck srv env w w1 (err e) same = check_failed-Struck srv env w w1 e same

-- One check of a server: if its health can be read, its fail counter is 0 afterwards, or 1 where the
-- column cannot hold the uptime, since the save that then raises is inside the `try`; if the reading
-- raises, the counter is one more than before, and once it is at least 3 every row with the server's
-- id is DOWN.
pub check_server-Struck :
    (srv : Server) (env : Env) (w : World)
    → Struck srv w (with_ssh srv get_health env w).0 (check_server srv env w).1
unfolding check_server attempt ◌>>=◌
check_server-Struck srv env w =
    let (r, w1) = with_ssh srv get_health env w in
    finish-Struck srv env w w1 r ((get_health-HasCounts w.fail_counts srv).at env w refl)
