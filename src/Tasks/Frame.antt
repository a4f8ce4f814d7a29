-- ===== src/Tasks/Frame.antt =====
-- What every task keeps of the connections.
use ssh_panel_vpn.Common.{ℕ, ◌≡◌, refl, true, not, leb, none, List, [], ◌∷◌}
use ssh_panel_vpn.Models.{Account, AccountStatus, Float, Server}
use ssh_panel_vpn.Effects.{World, Act, Manager, raise, data_error, integrity_error}
use ssh_panel_vpn.Effects.Keeps.{
  Keeps, Keeps-bind, Keeps-pure, Keeps-raise, Keeps-if, Keeps-gets, Keeps-attempt, Keeps-on_option,
  get_db-Keeps,
}
use ssh_panel_vpn.Database.{int_max}
use ssh_panel_vpn.Database.Permit.{Permit, usage_column}
use ssh_panel_vpn.Database.Steady.{
  modify-Steady, read_now-Steady, save_account-Steady, server_of-Steady,
}
use ssh_panel_vpn.Ssh.Kept.{
  lock_user-Keeps, setup_traffic_accounting-Keeps, get_user_bandwidth_bytes-Keeps,
  get_active_sessions-Keeps,
}
use ssh_panel_vpn.Ssh.Sessions.{SessionInfo}
use ssh_panel_vpn.Services.Frame.{Frame}
use ssh_panel_vpn.Services.Frame.Lifecycle.{delete_account-Keeps}
use ssh_panel_vpn.Services.Frame.Writes.{set_status-Writes, usage-Writes}
use ssh_panel_vpn.Tasks.Expiry.{count_rounds, expire_one, expire_users, cleanup_expired_accounts}
use ssh_panel_vpn.Tasks.Bandwidth.{
  record_usage, enforce_limit, sync_account, sync_accounts, sync_with, sync_server, each_server,
  sync_bandwidth_usage,
}
use ssh_panel_vpn.Tasks.Sessions.{
  UserSessions, create_session, store_session, store_sessions, kill_beyond, kill_excess, sync_node,
  sync_active_sessions,
}

module _ {Q : World → Type 0} where
  pub count_rounds-Keeps :
      (body : Account → Act (Unit {0})) (l : List Account) (n : ℕ)
      → ((acc : Account) → Keeps Q (body acc))
      → Keeps Q (count_rounds body l n)
  unfolding count_rounds
  count_rounds-Keeps body [] n k = Keeps-pure n
  count_rounds-Keeps body (acc ∷ l) n k =
      Keeps-bind _ _ (Keeps-attempt _ (k acc)) (λ r. count_rounds-Keeps body l _ k)

  each_server-Keeps :
      (body : Server → Act (Unit {0})) (l : List Server)
      → ((srv : Server) → Keeps Q (body srv))
      → Keeps Q (each_server body l)
  unfolding each_server
  each_server-Keeps body [] k = Keeps-pure tt
  each_server-Keeps body (srv ∷ l) k =
      Keeps-bind _ _ (Keeps-attempt _ (k srv)) (λ r. each_server-Keeps body l k)

module _ {may : Permit} {P Q : World → Type 0} (frame : Frame may P Q) where
  expire_one-Keeps :
      may.sets AccountStatus.expired ≡ true → (acc : Account) → Keeps Q (expire_one acc)
  unfolding expire_one
  expire_one-Keeps permitted acc = Keeps-bind _ _ (server_of-Steady frame.outside acc) λ server.
      Keeps-bind _ _ (frame.bracket server _ (λ ssh. lock_user-Keeps frame.run_inside ssh _)) λ _.
        save_account-Steady frame.outside acc.id _
          (set_status-Writes AccountStatus.expired permitted)

  pub expire_users-Keeps : may.sets AccountStatus.expired ≡ true → Keeps Q expire_users
  unfolding expire_users
  expire_users-Keeps permitted = Keeps-bind _ _ (read_now-Steady frame.outside) λ now.
      Keeps-bind _ _ get_db-Keeps
        λ db. count_rounds-Keeps expire_one _ 0 (expire_one-Keeps permitted)

  pub cleanup_expired_accounts-Keeps :
      may.sets AccountStatus.deleted ≡ true → (days : ℕ) → Keeps Q (cleanup_expired_accounts days)
  unfolding cleanup_expired_accounts
  cleanup_expired_accounts-Keeps permitted days =
      Keeps-bind _ _ (read_now-Steady frame.outside) λ now.
        Keeps-if _ _ _
          (Keeps-bind _ _ get_db-Keeps
            λ db. count_rounds-Keeps _ _ 0 (λ acc. delete_account-Keeps frame permitted acc none))
          (Keeps-raise _)

  record_usage-Keeps :
      may.edits usage_column ≡ true → (acc : Account) (x : Float) → Keeps P (record_usage acc x)
  unfolding record_usage
  record_usage-Keeps metered acc x = Keeps-bind _ _ (Keeps-gets _) (λ same.
      Keeps-if same _ _ (Keeps-pure tt)
        (save_account-Steady frame.inside acc.id _ (usage-Writes x metered)))

  module _ (permitted : may.sets AccountStatus.suspended ≡ true)
      (metered : may.edits usage_column ≡ true) where
    enforce_limit-Keeps :
        (ssh : Manager) (acc : Account) (x : Float) → Keeps P (enforce_limit ssh acc x)
    unfolding enforce_limit
    enforce_limit-Keeps ssh acc x = Keeps-bind _ _ (Keeps-gets _) (λ over.
        Keeps-if over _ _
          (Keeps-bind _ _ (lock_user-Keeps frame.run_inside ssh _) (λ _.
            save_account-Steady frame.inside acc.id _
              (set_status-Writes AccountStatus.suspended permitted)))
          (Keeps-pure tt))

    sync_account-Keeps : (ssh : Manager) (acc : Account) → Keeps P (sync_account ssh acc)
    unfolding sync_account
    sync_account-Keeps ssh acc =
        Keeps-bind _ _ (setup_traffic_accounting-Keeps frame.run_inside ssh _) λ _.
          Keeps-bind _ _ (get_user_bandwidth_bytes-Keeps frame.run_inside ssh _) λ n.
            Keeps-bind _ _ (Keeps-gets _) λ x.
              Keeps-bind _ _ (record_usage-Keeps metered acc x) λ _. enforce_limit-Keeps ssh acc x

    sync_accounts-Keeps : (ssh : Manager) (l : List Account) → Keeps P (sync_accounts ssh l)
    unfolding sync_accounts
    sync_accounts-Keeps ssh [] = Keeps-pure tt
    sync_accounts-Keeps ssh (acc ∷ l) =
        Keeps-bind _ _ (sync_account-Keeps ssh acc) (λ _. sync_accounts-Keeps ssh l)

    sync_with-Keeps : (srv : Server) (l : List Account) → Keeps Q (sync_with srv l)
    unfolding sync_with
    sync_with-Keeps srv [] = Keeps-pure tt
    sync_with-Keeps srv (acc ∷ l) = frame.bracket srv _ (λ ssh. sync_accounts-Keeps ssh (acc ∷ l))

    sync_server-Keeps : (srv : Server) → Keeps Q (sync_server srv)
    unfolding sync_server
    sync_server-Keeps srv = Keeps-bind _ _ get_db-Keeps (λ db. sync_with-Keeps srv _)

    pub sync_bandwidth_usage-Keeps : Keeps Q sync_bandwidth_usage
    unfolding sync_bandwidth_usage
    sync_bandwidth_usage-Keeps =
        Keeps-bind _ _ get_db-Keeps (λ db. each_server-Keeps sync_server _ sync_server-Keeps)

  create_session-Keeps : (acc : Account) (s : SessionInfo) → Keeps P (create_session acc s)
  unfolding create_session
  create_session-Keeps acc s = Keeps-bind _ _ (read_now-Steady frame.inside) (λ now.
      Keeps-bind _ _ get_db-Keeps (λ db. Keeps-bind _ _ (Keeps-gets _) (λ ip.
        Keeps-on_option ip _ _ (Keeps-raise _) (λ client_ip.
          Keeps-if (not (leb s.pid int_max)) (raise data_error) _ (Keeps-raise _) (
            Keeps-if _ (raise integrity_error) _ (Keeps-raise _)
              (modify-Steady frame.inside _ (λ d. refl) (λ d i h. h)))))))

  store_session-Keeps :
      (acc : Account) (s : SessionInfo) (g : UserSessions) → Keeps P (store_session acc s g)
  unfolding store_session
  store_session-Keeps acc s g = Keeps-bind _ _ (create_session-Keeps acc s) (λ _. Keeps-pure _)

  store_sessions-Keeps :
      (accounts : List Account) (l : List SessionInfo) (g : UserSessions)
      → Keeps P (store_sessions accounts l g)
  unfolding store_sessions
  store_sessions-Keeps accounts [] g = Keeps-pure g
  store_sessions-Keeps accounts (s ∷ l) g =
      Keeps-bind _ _ (Keeps-on_option _ _ _ (Keeps-pure g) (λ acc. store_session-Keeps acc s g))
        (λ g'. store_sessions-Keeps accounts l g')

  kill_beyond-Keeps :
      (ssh : Manager) (l : List SessionInfo) (acc : Account) → Keeps P (kill_beyond ssh l acc)
  unfolding kill_beyond
  kill_beyond-Keeps ssh l acc =
      Keeps-if _ _ _ (Keeps-bind _ _ (frame.run_inside ssh _) (λ _. Keeps-pure tt)) (Keeps-pure tt)

  kill_excess-Keeps :
      (ssh : Manager) (accounts : List Account) (g : UserSessions)
      → Keeps P (kill_excess ssh accounts g)
  unfolding kill_excess
  kill_excess-Keeps ssh accounts [] = Keeps-pure tt
  kill_excess-Keeps ssh accounts ((u, l) ∷ g) =
      Keeps-bind _ _ (Keeps-on_option _ _ _ (Keeps-pure tt) (kill_beyond-Keeps ssh l))
        (λ _. kill_excess-Keeps ssh accounts g)

  sync_node-Keeps : (srv : Server) (ssh : Manager) → Keeps P (sync_node srv ssh)
  unfolding sync_node
  sync_node-Keeps srv ssh = Keeps-bind _ _ (get_active_sessions-Keeps frame.run_inside ssh) λ l.
      Keeps-bind _ _ get_db-Keeps λ db.
        Keeps-bind _ _ (modify-Steady frame.inside _ (λ d. refl) (λ d i h. h))
          λ _. Keeps-bind _ _ (store_sessions-Keeps _ l []) λ g. kill_excess-Keeps ssh _ g

  pub sync_active_sessions-Keeps : Keeps Q sync_active_sessions
  unfolding sync_active_sessions
  sync_active_sessions-Keeps =
      Keeps-bind _ _ get_db-Keeps
        (λ db. each_server-Keeps _ _ (λ srv. frame.bracket srv _ (sync_node-Keeps srv)))
