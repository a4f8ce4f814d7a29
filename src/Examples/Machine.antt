-- ===== src/Examples/Machine.antt =====
-- The properties of sequences of calls and requests, and of names and nodes, each at an input where
-- its hypotheses hold.
use ssh_panel_vpn.Common.Text.{Text}
use ssh_panel_vpn.Api.Auth.{StaffUser, me_view, login_view, logout_view, admit}
use ssh_panel_vpn.Api.Auth.Staff.{browse, login, logout, IsStaffSession, me_view_staff}
use ssh_panel_vpn.Common.{
  Option, ◌≢◌, true, false, some_eq, not, select, every, arith, ◌+◌, ◌≡◌, refl, none, some, [], ◌∷◌,
  ◌++◌, length,
}
use ssh_panel_vpn.Common.Text.{Text, text_eq, codes}
use ssh_panel_vpn.Models.{AccountStatus}
use ssh_panel_vpn.Effects.Outcome.{Ends}
use ssh_panel_vpn.Database.{clashes}
use ssh_panel_vpn.Models.Queries.{find_server}
use ssh_panel_vpn.Ssh.Quote.{escape_quotes}
use ssh_panel_vpn.Ssh.Quote.Shell.{read_word}
use ssh_panel_vpn.Tasks.Expiry.{past, expire_users}
use ssh_panel_vpn.Connections.{
  create, suspend, activate, delete, expire, bandwidth, rebalance, perform, perform_all,
}
use ssh_panel_vpn.Connections.Held.{IsTidy, total, opens, closes}
use ssh_panel_vpn.Api.Serializers.{BulkRequest, bulk_is_valid, matches}
use ssh_panel_vpn.Services.Create.{bulk_username}
use ssh_panel_vpn.Api.Accounts.Usernames.{bulk_username_distinct, bulk_username-matches}
use ssh_panel_vpn.Ssh.Limits.{max_logins_command}
use ssh_panel_vpn.Ssh.Quote.Shell.Injection.{max_logins_command-injects}
use ssh_panel_vpn.Database.Permit.{Evolves}
use ssh_panel_vpn.Database.Persists.{Persists}
use ssh_panel_vpn.Connections.Permits.{permit}
use ssh_panel_vpn.Connections.Ledger.{perform-Evolves}
use ssh_panel_vpn.Connections.Rows.{HasUniqueRows, perform_all-HasUniqueRows, perform-Persists}
use ssh_panel_vpn.Ssh.Up.{IsUp}
use ssh_panel_vpn.Tasks.Expiry.Complete.{expire_users_complete}
use ssh_panel_vpn.Effects.{err, permission_denied}
use ssh_panel_vpn.Api.Request.{User, permits}
use ssh_panel_vpn.Api.Routes.{
  respond, serve, extend_user, webhook_payment, server_health, delete_user,
}
use ssh_panel_vpn.Api.Routes.Denied.{respond_denied}
use ssh_panel_vpn.Api.Routes.Tidy.{serve-IsTidy}
use ssh_panel_vpn.Effects.{Env}
use ssh_panel_vpn.Admin.{action_suspend, action_activate, action_delete_accounts}
use ssh_panel_vpn.Admin.Batch.{Acts, is_for, is_not_for, actions-Acts}
use ssh_panel_vpn.Setup.Command.{test_connection}
use ssh_panel_vpn.Setup.Command.Leak.{test_connection_leaks}
use ssh_panel_vpn.Ssh.Up.{Returns}
use ssh_panel_vpn.Tasks.Sessions.{sync_active_sessions}
use ssh_panel_vpn.ServerTasks.Rebalance.{rebalance_users}
use ssh_panel_vpn.ServerTasks.Returns.{Rebalanced, node_tasks_return}
use ssh_panel_vpn.Models.{Protocol}
use ssh_panel_vpn.Effects.{World}
use ssh_panel_vpn.Api.Public.{shadowlink_client_config}
use ssh_panel_vpn.Api.Public.Granted.{TokenAnswer, shadowlink_client_config_granted}
use ssh_panel_vpn.Examples.Data.{node_env, panel, order, alice, carol_args, busy, calm}

class_of_80 : BulkRequest
class_of_80 = record { prefix = codes "student_"; count = 80; plan_id = 1; server_id = none }

bulk_username-matches_example : matches 2 31 (bulk_username class_of_80.prefix 80) ≡ true
unfolding class_of_80
bulk_username-matches_example =
    bulk_username-matches class_of_80 (unfold bulk_is_valid codes in refl) 80 (omega arith)

bulk_username_distinct_example : bulk_username (codes "vip") 1 ≢ bulk_username (codes "vip") 10
bulk_username_distinct_example = bulk_username_distinct (codes "vip") 1 10 (omega arith)

-- The username `eve;touch /tmp/x`.
max_logins_command-injects_example :
    (t : Text) × (rest : Text) × (max_logins_command (codes "eve" ++ 59 ∷ codes "touch /tmp/x") 2
      ≡ codes "grep -q " ++ t)
    × (read_word t ≡ some (94 ∷ codes "eve", 59 ∷ escape_quotes (codes "touch /tmp/x") ++ rest))
max_logins_command-injects_example =
    max_logins_command-injects (codes "eve") (codes "touch /tmp/x") 2 (unfold codes in refl)

perform-Evolves_example :
    Evolves
      (permit (create carol_args))
      panel.db.accounts
      (perform (create carol_args) node_env panel).1.db.accounts
perform-Evolves_example = perform-Evolves (create carol_args) node_env panel

perform-Persists_example :
    Persists (permit expire) panel.db.accounts (perform expire node_env panel).1.db.accounts
perform-Persists_example = perform-Persists expire node_env panel

pub panel-HasUniqueRows : HasUniqueRows panel
panel-HasUniqueRows = unfold codes text_eq clashes in (refl, (refl, tt))

perform_all-HasUniqueRows_example :
    HasUniqueRows (perform_all (create carol_args ∷ bandwidth ∷ rebalance 1 ∷ []) node_env panel).1
perform_all-HasUniqueRows_example =
    perform_all-HasUniqueRows (create carol_args ∷ bandwidth ∷ rebalance 1 ∷ []) node_env panel
      panel-HasUniqueRows

pub node_env-IsUp : IsUp node_env
node_env-IsUp = record {
  loads = λ t path. refl;
  connects = λ t m k. refl;
  answers = λ t m c. (_, refl);
}

expire_users_complete_example :
    Ends
      (λ count w'.
        (count ≡ length (select (past AccountStatus.active 1000000) panel.db.accounts))
        × (every (λ b. not (past AccountStatus.active 1000000 b)) w'.db.accounts ≡ true))
      (λ _. ⊥)
      (expire_users node_env panel)
expire_users_complete_example =
    expire_users_complete node_env panel node_env-IsUp
      (unfold find_server in ((calm, refl), ((busy, refl), tt)))

customer : User
customer = record { id = 9; is_staff = false }

respond_denied_example :
    respond (delete_user 1) (some customer) node_env panel ≡ (err permission_denied, panel)
respond_denied_example =
    respond_denied (delete_user 1) (some customer) node_env panel refl
      (unfold permits customer in refl)

abbrev pub staff : User
staff = record { id = 7; is_staff = true }

serve-IsTidy_example :
    IsTidy
      (serve
        ((extend_user 1 30, some staff)
          ∷ (webhook_payment order, none)
          ∷ (server_health 2, none)
          ∷ [])
        node_env
        panel).1
serve-IsTidy_example =
    serve-IsTidy
      ((extend_user 1 30, some staff)
        ∷ (webhook_payment order, none)
        ∷ (server_health 2, none)
        ∷ [])
      node_env panel refl

actions-Acts_example :
    Acts
      (is_for (λ a. true) AccountStatus.active)
      AccountStatus.suspended
      (codes "Suspended")
      (λ a. suspend a (some 7))
      node_env
      panel
      (action_suspend (some 7) (λ a. true) node_env panel)
    × Acts
        (is_for (λ a. true) AccountStatus.suspended)
        AccountStatus.active
        (codes "Activated")
        (λ a. activate a (some 7))
        node_env
        panel
        (action_activate (some 7) (λ a. true) node_env panel)
    × Acts
        (is_not_for (λ a. true) AccountStatus.deleted)
        AccountStatus.deleted
        (codes "Deleted")
        (λ a. delete a (some 7))
        node_env
        panel
        (action_delete_accounts (some 7) (λ a. true) node_env panel)
actions-Acts_example = actions-Acts (some 7) (λ a. true) node_env panel

-- Nodes that answer every command with the exit code 1.
abbrev refusing_env : Env
refusing_env = record node_env {
  answers = λ t m c. some (record { exit_code = 1; stdout = []; stderr = [] });
}

refusing_env-IsUp : IsUp refusing_env
refusing_env-IsUp = record {
  loads = λ t path. refl;
  connects = λ t m k. refl;
  answers = λ t m c. (_, refl);
}

test_connection_leaks_example :
    Ends
      (λ _ _. ⊥)
      (λ w'. total opens w'.trace ≡ 1 + total closes w'.trace)
      (test_connection busy refusing_env panel)
test_connection_leaks_example =
    test_connection_leaks busy refusing_env panel refusing_env-IsUp
      (λ t m c r e. rw⁻¹ (some_eq e) refl) refl

node_tasks_return_example :
    Returns (sync_active_sessions node_env panel)
    × Rebalanced 1 panel (rebalance_users 1 node_env panel)
node_tasks_return_example = node_tasks_return 1 node_env panel

-- The panel with an account of ShadowLink.
abbrev tunnel_panel : World
tunnel_panel = record panel {
  db = record panel.db { accounts = record alice { protocol_type = Protocol.shadowlink } ∷ [] };
}

shadowlink_client_config_granted_example :
    TokenAnswer 12 tunnel_panel.db tunnel_panel (shadowlink_client_config 12 node_env tunnel_panel)
shadowlink_client_config_granted_example = shadowlink_client_config_granted 12 node_env tunnel_panel

abbrev root_user : StaffUser
root_user = record {
  id = 1;
  username = codes "root";
  email = [];
  is_staff = true;
  is_superuser = true;
}

abbrev accept_all : Text → Text → Option StaffUser
accept_all username password = some root_user

me_view_staff_example : IsStaffSession accept_all (some root_user)
me_view_staff_example =
    me_view_staff accept_all (logout ∷ login (some (codes "root")) (some (codes "pw")) ∷ [])
      root_user (unfold browse login_view logout_view admit me_view in refl)
