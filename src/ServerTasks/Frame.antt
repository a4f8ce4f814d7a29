-- ===== src/ServerTasks/Frame.antt =====
-- What the tasks on servers keep of the connections.
use ssh_panel_vpn.Common.{ℕ, refl, ◌≡◌, true, none, List, [], ◌∷◌}
use ssh_panel_vpn.Models.{Account, Server}
use ssh_panel_vpn.Effects.{World, Manager}
use ssh_panel_vpn.Effects.Keeps.{
  Keeps, Keeps-bind, Keeps-pure, Keeps-gets, Keeps-gets_bind, Keeps-attempt, Keeps-or_raise,
  Keeps-on_result, get_db-Keeps,
}
use ssh_panel_vpn.Database.Permit.{Permit}
use ssh_panel_vpn.Database.Steady.{
  read_now-Steady, create_log-Steady, move_account-Steady, save_server-Steady,
  save_server_row-Steady,
}
use ssh_panel_vpn.Ssh.Kept.{
  create_user-Keeps, set_expiry-Keeps, set_max_logins-Keeps, get_health-Keeps,
}
use ssh_panel_vpn.Ssh.Health.{Health}
use ssh_panel_vpn.Services.Frame.{Frame, generate_password-Keeps, pick_best_server-Keeps}
use ssh_panel_vpn.ServerTasks.Health.{
  write_fail_count, check_passed, save_checked, check_failed, check_server, check_servers,
  check_all_servers_health, single_passed, single_failed, check_single_server,
}
use ssh_panel_vpn.ServerTasks.Rebalance.{install_user, rebalance_one, rebalance_users}
use ssh_panel_vpn.Tasks.Frame.{count_rounds-Keeps}

module _ {may : Permit} {P Q : World → Type 0} (frame : Frame may P Q) where
  write_fail_count-Keeps : (i n : ℕ) → Keeps Q (write_fail_count i n)
  unfolding write_fail_count
  write_fail_count-Keeps i n = record { at = λ env w h. frame.outside.with_counts w _ h }

  check_failed-Keeps : (srv : Server) → Keeps Q (check_failed srv)
  unfolding check_failed
  check_failed-Keeps srv = Keeps-bind _ _ (Keeps-gets _) λ n.
      Keeps-bind _ _ (write_fail_count-Keeps srv.id n) λ _.
        Keeps-bind _ _ (read_now-Steady frame.outside)
          λ now. save_server-Steady frame.outside srv.id _ (λ s e. refl)

  save_checked-Keeps : (checked : Server) → Keeps Q (save_checked checked)
  unfolding save_checked
  save_checked-Keeps checked =
      Keeps-bind _ _ (Keeps-attempt _ (save_server_row-Steady frame.outside checked))
        (λ r. Keeps-on_result r _ _ (λ _. Keeps-pure tt) (λ _. check_failed-Keeps checked))

  check_passed-Keeps : (srv : Server) (health : Health) → Keeps Q (check_passed srv health)
  unfolding check_passed
  check_passed-Keeps srv health = Keeps-bind _ _ (read_now-Steady frame.outside) λ now.
      Keeps-gets_bind _ _
        λ env w. Keeps-bind _ _ (write_fail_count-Keeps srv.id 0) λ _. save_checked-Keeps _

  check_server-Keeps : (srv : Server) → Keeps Q (check_server srv)
  unfolding check_server
  check_server-Keeps srv =
      Keeps-bind _ _ (Keeps-attempt _ (frame.bracket srv _ (get_health-Keeps frame.run_inside)))
        (λ r. Keeps-on_result r _ _ (check_passed-Keeps srv) (λ _. check_failed-Keeps srv))

  check_servers-Keeps : (l : List Server) → Keeps Q (check_servers l)
  unfolding check_servers
  check_servers-Keeps [] = Keeps-pure tt
  check_servers-Keeps (srv ∷ l) =
      Keeps-bind _ _ (check_server-Keeps srv) (λ _. check_servers-Keeps l)

  pub check_all_servers_health-Keeps : Keeps Q check_all_servers_health
  unfolding check_all_servers_health
  check_all_servers_health-Keeps = Keeps-bind _ _ get_db-Keeps (λ db. check_servers-Keeps _)

  single_failed-Keeps : (srv : Server) → Keeps Q (single_failed srv)
  unfolding single_failed
  single_failed-Keeps srv = Keeps-bind _ _ (read_now-Steady frame.outside) λ now.
      Keeps-bind _ _ (save_server-Steady frame.outside srv.id _ (λ s e. refl)) λ _. Keeps-pure _

  single_passed-Keeps : (srv : Server) (health : Health) → Keeps Q (single_passed srv health)
  unfolding single_passed
  single_passed-Keeps srv health = Keeps-bind _ _ (read_now-Steady frame.outside) λ now.
      Keeps-bind _ _ (Keeps-attempt _ (save_server_row-Steady frame.outside _))
        λ r. Keeps-on_result r _ _ (λ _. Keeps-pure true) (λ _. single_failed-Keeps _)

  pub check_single_server-Keeps : (i : ℕ) → Keeps Q (check_single_server i)
  unfolding check_single_server
  check_single_server-Keeps i = Keeps-bind _ _ get_db-Keeps λ db.
      Keeps-bind _ _ (Keeps-or_raise _ _) λ srv.
        Keeps-bind _ _ (Keeps-attempt _ (frame.bracket srv _ (get_health-Keeps frame.run_inside)))
          λ r. Keeps-on_result r _ _ (single_passed-Keeps srv) (λ _. single_failed-Keeps srv)

  install_user-Keeps : (acc : Account) (ssh : Manager) → Keeps P (install_user acc ssh)
  unfolding install_user
  install_user-Keeps acc ssh = Keeps-bind _ _ (generate_password-Keeps frame.inside) λ t.
      Keeps-bind _ _ (create_user-Keeps frame.run_inside ssh _ t) λ _.
        Keeps-bind _ _ (set_expiry-Keeps frame.run_inside ssh _ _)
          λ _. Keeps-bind _ _ (set_max_logins-Keeps frame.run_inside ssh _ _) λ _. Keeps-pure tt

  rebalance_one-Keeps :
      may.moves ≡ true → (srv : Server) (acc : Account) → Keeps Q (rebalance_one srv acc)
  unfolding rebalance_one
  rebalance_one-Keeps moves srv acc = Keeps-bind _ _ (pick_best_server-Keeps none) λ target.
      Keeps-bind _ _ (frame.bracket target _ (install_user-Keeps acc)) λ _.
        Keeps-bind _ _ (move_account-Steady frame.outside acc target.id moves)
          λ _. create_log-Steady frame.outside _ _ none _

  pub rebalance_users-Keeps : may.moves ≡ true → (i : ℕ) → Keeps Q (rebalance_users i)
  unfolding rebalance_users
  rebalance_users-Keeps moves i = Keeps-bind _ _ get_db-Keeps λ db.
      Keeps-bind _ _ (Keeps-or_raise _ _) λ srv.
        Keeps-bind _ _ get_db-Keeps
          λ db'. count_rounds-Keeps (rebalance_one srv) _ 0 (rebalance_one-Keeps moves srv)
