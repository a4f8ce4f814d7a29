-- ===== src/Examples/Claims.antt =====
-- The properties of the components, each at an input where its hypotheses hold.
use ssh_panel_vpn.Common.{
  ◌⊎◌, ℕ, ◌+◌, ◌-◌, ◌*◌, ◌≤◌, ◌≡◌, refl, Bool, none, some, List, [], ◌∷◌, ◌++◌, length, All,
}
use ssh_panel_vpn.Common.Text.{codes, strip, is_empty}
use ssh_panel_vpn.Models.{AccountStatus, Action}
use ssh_panel_vpn.Effects.{Env}
use ssh_panel_vpn.Effects.Outcome.{Ends}
use ssh_panel_vpn.Database.Rows.{HasDb}
use ssh_panel_vpn.Services.Server.{pick_best_server}
use ssh_panel_vpn.Services.Server.Choice.{IsChoice, count as how_many, pick_best_server-IsChoice}
use ssh_panel_vpn.Models.Queries.{is_available}
use ssh_panel_vpn.Examples.Sorting.{node_env-OrdersByCpu}
use ssh_panel_vpn.Ssh.Quote.{q}
use ssh_panel_vpn.Ssh.Quote.Shell.{read_word, read_word-q}
use ssh_panel_vpn.Services.Create.{create_account}
use ssh_panel_vpn.Services.Create.Row.{Created, create_account_atomic}
use ssh_panel_vpn.Services.Create.Password.{generate_password}
use ssh_panel_vpn.Services.Create.Password.Chars.{IsPassword, generate_password_plain}
use ssh_panel_vpn.Services.Lifecycle.{
  delete_account, suspend_account, activate_account, extend_account,
}
use ssh_panel_vpn.Services.Lifecycle.Status.{SetsStatus, set_status_operations}
use ssh_panel_vpn.Services.Lifecycle.Extend.{NoUnlock, extend_account-NoUnlock}
use ssh_panel_vpn.Tasks.Expiry.{expire_users, cleanup_expired_accounts}
use ssh_panel_vpn.Tasks.Expiry.Due.{overdue, OnlyDue, CleansUp, expiry_tasks-OnlyDue}
use ssh_panel_vpn.Models.Time.{day}
use ssh_panel_vpn.ServerTasks.Health.{check_all_servers_health, check_server}
use ssh_panel_vpn.ServerTasks.Health.Status.{Checked, check_all_servers_health-Checked}
use ssh_panel_vpn.Connections.{create, suspend, expire, bandwidth, sessions, health, perform_all}
use ssh_panel_vpn.Connections.Held.{IsTidy}
use ssh_panel_vpn.Connections.Tidy.{perform_all-IsTidy}
use ssh_panel_vpn.Api.Serializers.{PaymentStatus}
use ssh_panel_vpn.Api.Payment.{payment_webhook}
use ssh_panel_vpn.Api.Payment.Signature.{signed, payment_webhook-signed}
use ssh_panel_vpn.Tasks.Bandwidth.{sync_bandwidth_usage}
use ssh_panel_vpn.Tasks.Bandwidth.Metered.{Metered, sync_bandwidth_usage-Metered}
use ssh_panel_vpn.ServerTasks.Health.Strikes.{Struck, check_server-Struck}
use ssh_panel_vpn.Ssh.Connection.{with_ssh}
use ssh_panel_vpn.Ssh.Health.{get_health}
use ssh_panel_vpn.Database.Related.{Related}
use ssh_panel_vpn.Tasks.Sessions.Excess.{excess}
use ssh_panel_vpn.Tasks.Sessions.Excess.Bounds.{count, survivors, FromPid, excess_exact}
use ssh_panel_vpn.Api.Dashboard.{dashboard_summary}
use ssh_panel_vpn.Api.Dashboard.Totals.{dashboard_totals}
use ssh_panel_vpn.Ssh.Sessions.{SessionInfo}
use ssh_panel_vpn.Examples.Data.{node_env, panel, order, alice, bob, carol_args, busy}

create_account_atomic_example :
    Ends
      (λ a w'. Created node_env carol_args panel.db a w'.db)
      (HasDb panel.db)
      (create_account carol_args node_env panel)
create_account_atomic_example = create_account_atomic carol_args node_env panel

set_status_operations_example :
    SetsStatus AccountStatus.deleted Action.delete alice
      (some 7)
      (delete_account alice (some 7))
      node_env
      panel
    × SetsStatus AccountStatus.suspended Action.suspend alice
        (some 7)
        (suspend_account alice (some 7))
        node_env
        panel
    × SetsStatus AccountStatus.active Action.activate alice
        (some 7)
        (activate_account alice (some 7))
        node_env
        panel
set_status_operations_example = set_status_operations alice (some 7) node_env panel

read_word-q_example : read_word (q (codes "a'; rm") ++ 32 ∷ []) ≡ some (codes "a'; rm", 32 ∷ [])
read_word-q_example = read_word-q (codes "a'; rm") (32 ∷ []) refl

extend_account-NoUnlock_example : NoUnlock (extend_account bob 30 none node_env panel).1
extend_account-NoUnlock_example = extend_account-NoUnlock bob 30 none node_env panel refl

abbrev session : ℕ → SessionInfo
session n = record { user = codes "alice"; pid = n; client_ip = none }

abbrev three_sessions : List SessionInfo
three_sessions = session 30 ∷ session 10 ∷ session 20 ∷ []

excess_exact_example :
    (length (excess 2 three_sessions) ≡ length three_sessions - 2)
    × ((p : SessionInfo → Bool)
        → count p (survivors 2 three_sessions) + count p (excess 2 three_sessions)
          ≡ count p three_sessions)
    × All (λ s. All (FromPid s.pid) (excess 2 three_sessions)) (survivors 2 three_sessions)
excess_exact_example = excess_exact 2 three_sessions

generate_password_plain_example :
    Ends
      (λ t _. IsPassword 12 t × (q t ≡ 39 ∷ t ++ 39 ∷ []))
      (λ _. ⊥)
      (generate_password node_env panel)
generate_password_plain_example = generate_password_plain node_env panel

dashboard_totals_example :
    let s = dashboard_summary panel.db in
    (s.total ≡ s.active + s.expired + s.suspended)
    × (s.online + s.down ≤ s.servers)
    × (length s.recent_logs ≤ 10)
dashboard_totals_example = dashboard_totals panel.db

pick_best_server-IsChoice_example :
    Ends
      (λ s w'. IsChoice node_env panel.db (some busy) s × (w' ≡ panel))
      (λ w'. (how_many (is_available panel.db) panel.db.servers ≡ 0) × (w' ≡ panel))
      (pick_best_server (some busy) node_env panel)
pick_best_server-IsChoice_example =
    pick_best_server-IsChoice (some busy) node_env panel node_env-OrdersByCpu

-- Four days into 1970, both accounts are due.
abbrev later_env : Env
later_env = record node_env { now = λ t. 4 * day }

expiry_tasks-OnlyDue_example :
    OnlyDue (overdue (4 * day)) AccountStatus.expired panel (expire_users later_env panel)
    × CleansUp 3 (4 * day) panel (cleanup_expired_accounts 3 later_env panel)
expiry_tasks-OnlyDue_example = expiry_tasks-OnlyDue 3 later_env panel

check_all_servers_health-Checked_example :
    Ends
      (λ _ w'. Related (Checked panel.db.servers) panel.db.servers w'.db.servers)
      (λ _. ⊥)
      (check_all_servers_health node_env panel)
check_all_servers_health-Checked_example = check_all_servers_health-Checked node_env panel

perform_all-IsTidy_example :
    IsTidy
      (perform_all
        (create carol_args ∷ expire ∷ suspend alice none ∷ bandwidth ∷ sessions ∷ health ∷ [])
        node_env
        panel).1
perform_all-IsTidy_example =
    perform_all-IsTidy
      (create carol_args ∷ expire ∷ suspend alice none ∷ bandwidth ∷ sessions ∷ health ∷ [])
      node_env panel refl

same_blank : is_empty (strip order.signature) ≡ is_empty (strip (codes "forged"))
unfolding strip codes
same_blank = refl

payment_webhook-signed_example :
    (payment_webhook none order node_env panel
      ≡ payment_webhook none (signed order (codes "forged")) node_env panel)
    × ((order.status ≡ PaymentStatus.paid)
        ⊎ ((payment_webhook none order node_env panel).1 ≡ panel))
payment_webhook-signed_example =
    payment_webhook-signed none none order (codes "forged") node_env panel same_blank

sync_bandwidth_usage-Metered_example :
    Ends
      (λ _ w'. Related (Metered panel.db.accounts) panel.db.accounts w'.db.accounts)
      (λ _. ⊥)
      (sync_bandwidth_usage node_env panel)
sync_bandwidth_usage-Metered_example = sync_bandwidth_usage-Metered node_env panel

check_server-Struck_example :
    Struck busy panel
      (with_ssh busy get_health node_env panel).0
      (check_server busy node_env panel).1
check_server-Struck_example = check_server-Struck busy node_env panel
