-- ===== src/Tasks/Sessions.antt =====
-- `sync_active_sessions`.
pub mod Excess
use ssh_panel_vpn.Common.{
  ℕ, Bool, true, false, not, ◌&&◌, ◌||◌, Option, none, some, List, [], ◌∷◌, ◌++◌, map, select,
  exists, ltb, leb, length, drop, ◌==◌, if◌then◌else◌,
}
use ssh_panel_vpn.Common.Text.{Text, codes, decimal, text_eq}
use ssh_panel_vpn.Models.{Account, ActiveSession, AccountStatus, Db, Server}
use ssh_panel_vpn.Models.Queries.{account_status_eq}
use ssh_panel_vpn.Effects.{
  Env, World, Act, Manager, gets, data_error, Result, pure, raise, ◌>>=◌, on_result, on_option,
  ◌>>◌, attempt, get_db, modify, read_now, integrity_error,
}
use ssh_panel_vpn.Database.{int_max}
use ssh_panel_vpn.Ssh.Connection.{run, with_ssh}
use ssh_panel_vpn.Ssh.Sessions.{SessionInfo, get_active_sessions}
use ssh_panel_vpn.Services.Server.{is_active}
use ssh_panel_vpn.Tasks.Bandwidth.{active_on, each_server}
use Excess.{excess_pids, kill_command}

-- `filter(server=srv, username__in=usernames, status=ACTIVE)`
abbrev pub listed : Server → List SessionInfo → Account → Bool
listed srv sessions a =
    active_on srv a && exists (λ (s : SessionInfo). text_eq s.user a.username) sessions

-- `acc_map.get(username)`: a later account of the same name replaces an earlier one.
unfoldable pub acc_map : List Account → Text → Option Account
acc_map [] username = none
acc_map (a ∷ accounts) username = elim (acc_map accounts username) [
  | some b ↦ some b
  | none ↦ if text_eq a.username username then some a else none
]

-- `filter(account__server=srv)`: the session's account is a row of that server.
unfoldable pub on_server : Db → Server → ActiveSession → Bool
on_server db srv s = exists (λ (a : Account). a.id == s.account && a.server == srv.id) db.accounts

-- The address as Django stores it, or none where the column refuses it; no address is null.
unfoldable pub stored_ip : Env → Option Text → Option (Option Text)
stored_ip env none = some none
stored_ip env (some t) = elim (env.clean_ip t) [ none ↦ none | some ip ↦ some (some ip) ]

-- `ActiveSession.objects.create(...)`, under its column types and its `unique_together`
unfoldable pub create_session : Account → SessionInfo → Act (Unit {0})
unfolding stored_ip
create_session acc sess = do
  now ← read_now
  db ← get_db
  ip ← gets (λ env w. stored_ip env sess.client_ip)
  on_option ip (raise data_error) (λ client_ip.
      if not (leb sess.pid int_max)
      then raise data_error
      else if exists (λ (s : ActiveSession). s.account == acc.id && s.pid == sess.pid) db.sessions
      then raise integrity_error
      else modify (λ d. record d {
        sessions =
            record {
              account = acc.id;
              pid = sess.pid;
              client_ip = client_ip;
              connected_since = now;
            }
            ∷ d.sessions;
      }))

abbrev pub UserSessions : Type 0
UserSessions = List (Text × List SessionInfo)

-- `user_sessions.setdefault(user, []).append(sess)`
unfoldable pub append_session : Text → SessionInfo → UserSessions → UserSessions
append_session user sess [] = (user, sess ∷ []) ∷ []
append_session user sess ((u, l) ∷ rest) =
    if text_eq u user then (u, l ++ sess ∷ []) ∷ rest else (u, l) ∷ append_session user sess rest

-- One round of the first loop.
unfoldable pub store_session : Account → SessionInfo → UserSessions → Act UserSessions
unfolding append_session
store_session acc sess grouped = do
  create_session acc sess
  pure (append_session sess.user sess grouped)

unfoldable pub store_sessions : List Account → List SessionInfo → UserSessions → Act UserSessions
unfolding acc_map store_session
store_sessions accounts [] grouped = pure grouped
store_sessions accounts (sess ∷ sessions) grouped = do
  grouped' ←
      on_option (acc_map accounts sess.user) (pure grouped) (λ acc. store_session acc sess grouped)
  store_sessions accounts sessions grouped'

-- The second loop: the sessions beyond the limit are killed, the highest process ids.
unfoldable pub kill_beyond : Manager → List SessionInfo → Account → Act (Unit {0})
unfolding excess_pids kill_command
kill_beyond ssh sess_list acc =
    if ltb acc.max_connections (length sess_list)
    then (do run ssh (kill_command (excess_pids acc.max_connections sess_list)); pure tt)
    else pure tt

unfoldable pub kill_excess : Manager → List Account → UserSessions → Act (Unit {0})
unfolding acc_map kill_beyond
kill_excess ssh accounts [] = pure tt
kill_excess ssh accounts ((username, sess_list) ∷ rest) = do
  on_option (acc_map accounts username) (pure tt) (kill_beyond ssh sess_list)
  kill_excess ssh accounts rest

unfoldable pub sync_node : Server → Manager → Act (Unit {0})
unfolding on_server
sync_node srv ssh = do
  sessions ← get_active_sessions ssh
  db ← get_db
  let accounts = select (listed srv sessions) db.accounts
  modify (λ d. record d { sessions = select (λ s. not (on_server d srv s)) d.sessions })
  grouped ← store_sessions accounts sessions []
  kill_excess ssh accounts grouped

unfoldable pub sync_active_sessions : Act (Unit {0})
unfolding sync_node
sync_active_sessions = do
  db ← get_db
  each_server (λ srv. with_ssh srv (sync_node srv)) (select is_active db.servers)
