-- ===== src/Ssh/Kept.antt =====
-- Whatever one `run` keeps, each command of servers/ssh.py keeps.
use ssh_panel_vpn.Common.{ℕ, List, [], ◌∷◌}
use ssh_panel_vpn.Common.Text.{Text}
use ssh_panel_vpn.Effects.{World, Manager}
use ssh_panel_vpn.Effects.Keeps.{Keeps, Keeps-bind, Keeps-pure, keeps_rules}
use ssh_panel_vpn.Ssh.Connection.{run}
use ssh_panel_vpn.Ssh.Users.{
  create_user, delete_user, lock_user, unlock_user, set_expiry, change_password, user_exists,
}
use ssh_panel_vpn.Ssh.Limits.{ensure_maxlogin_script, set_max_logins}
use ssh_panel_vpn.Ssh.Traffic.{setup_traffic_accounting, get_user_bandwidth_bytes}
use ssh_panel_vpn.Ssh.Sessions.{
  address_in_log, find_address, session_of_user, session_of_parts, session_of_line,
  sessions_of_lines, get_active_sessions,
}
use ssh_panel_vpn.Ssh.Health.{get_health}

module _ {P : World → Type 0} (run-Keeps : (ssh : Manager) (c : Text) → Keeps P (run ssh c)) where
  pub create_user-Keeps : (ssh : Manager) (u p : Text) → Keeps P (create_user ssh u p)
  unfolding create_user
  create_user-Keeps ssh u p = search (keeps_rules, run-Keeps)

  pub delete_user-Keeps : (ssh : Manager) (u : Text) → Keeps P (delete_user ssh u)
  unfolding delete_user
  delete_user-Keeps ssh u = search (keeps_rules, run-Keeps)

  pub lock_user-Keeps : (ssh : Manager) (u : Text) → Keeps P (lock_user ssh u)
  unfolding lock_user
  lock_user-Keeps ssh u = run-Keeps ssh _

  pub unlock_user-Keeps : (ssh : Manager) (u : Text) → Keeps P (unlock_user ssh u)
  unfolding unlock_user
  unlock_user-Keeps ssh u = run-Keeps ssh _

  pub set_expiry-Keeps : (ssh : Manager) (u d : Text) → Keeps P (set_expiry ssh u d)
  unfolding set_expiry
  set_expiry-Keeps ssh u d = run-Keeps ssh _

  pub change_password-Keeps : (ssh : Manager) (u p : Text) → Keeps P (change_password ssh u p)
  unfolding change_password
  change_password-Keeps ssh u p = run-Keeps ssh _

  pub user_exists-Keeps : (ssh : Manager) (u : Text) → Keeps P (user_exists ssh u)
  unfolding user_exists
  user_exists-Keeps ssh u = search (keeps_rules, run-Keeps)

  ensure_maxlogin_script-Keeps : (ssh : Manager) → Keeps P (ensure_maxlogin_script ssh)
  unfolding ensure_maxlogin_script
  ensure_maxlogin_script-Keeps ssh = search (keeps_rules, run-Keeps) depth 12

  pub set_max_logins-Keeps : (ssh : Manager) (u : Text) (n : ℕ) → Keeps P (set_max_logins ssh u n)
  unfolding set_max_logins
  set_max_logins-Keeps ssh u n =
      search (keeps_rules, run-Keeps, ensure_maxlogin_script-Keeps) depth 7

  pub setup_traffic_accounting-Keeps :
      (ssh : Manager) (u : Text) → Keeps P (setup_traffic_accounting ssh u)
  unfolding setup_traffic_accounting
  setup_traffic_accounting-Keeps ssh u = search (keeps_rules, run-Keeps) depth 12

  pub get_user_bandwidth_bytes-Keeps :
      (ssh : Manager) (u : Text) → Keeps P (get_user_bandwidth_bytes ssh u)
  unfolding get_user_bandwidth_bytes
  get_user_bandwidth_bytes-Keeps ssh u = search (keeps_rules, run-Keeps)

  address_in_log-Keeps : (ssh : Manager) (p : Text) → Keeps P (address_in_log ssh p)
  unfolding address_in_log
  address_in_log-Keeps ssh p = search (keeps_rules, run-Keeps)

  find_address-Keeps : (ssh : Manager) (p : Text) → Keeps P (find_address ssh p)
  unfolding find_address
  find_address-Keeps ssh p = search (keeps_rules, run-Keeps, address_in_log-Keeps)

  session_of_user-Keeps : (ssh : Manager) (p u : Text) → Keeps P (session_of_user ssh p u)
  unfolding session_of_user
  session_of_user-Keeps ssh p u = search (keeps_rules, find_address-Keeps) depth 7

  session_of_parts-Keeps : (ssh : Manager) (l : List Text) → Keeps P (session_of_parts ssh l)
  unfolding session_of_parts
  session_of_parts-Keeps ssh [] = search keeps_rules
  session_of_parts-Keeps ssh (p ∷ []) = search keeps_rules
  session_of_parts-Keeps ssh (p ∷ o ∷ []) = search keeps_rules
  session_of_parts-Keeps ssh (p ∷ o ∷ a ∷ l) = search (keeps_rules, session_of_user-Keeps)

  session_of_line-Keeps : (ssh : Manager) (l : Text) → Keeps P (session_of_line ssh l)
  unfolding session_of_line
  session_of_line-Keeps ssh l = session_of_parts-Keeps ssh _

  sessions_of_lines-Keeps : (ssh : Manager) (l : List Text) → Keeps P (sessions_of_lines ssh l)
  unfolding sessions_of_lines
  sessions_of_lines-Keeps ssh [] = search keeps_rules
  sessions_of_lines-Keeps ssh (line ∷ l) =
      Keeps-bind _ _ (session_of_line-Keeps ssh line)
        (λ s. Keeps-bind _ _ (sessions_of_lines-Keeps ssh l) (λ rest. Keeps-pure _))

  pub get_active_sessions-Keeps : (ssh : Manager) → Keeps P (get_active_sessions ssh)
  unfolding get_active_sessions
  get_active_sessions-Keeps ssh = search (keeps_rules, run-Keeps, sessions_of_lines-Keeps)

  pub get_health-Keeps : (ssh : Manager) → Keeps P (get_health ssh)
  unfolding get_health
  get_health-Keeps ssh = search (keeps_rules, run-Keeps) depth 9
