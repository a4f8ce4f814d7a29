-- ===== src/Examples/Requests.antt =====
-- The properties of requests on rows and of the beat schedule, each at an input where its hypotheses
-- hold.
use ssh_panel_vpn.Common.{
  Bool, ℕ, ◌/◌, ◌%◌, ◌≡◌, refl, true, ◌&&◌, none, some, [], ◌∷◌, ◌++◌, List, ◌==◌, arith,
}
use ssh_panel_vpn.Common.Text.{codes}
use ssh_panel_vpn.Models.{AccountStatus}
use ssh_panel_vpn.Models.Queries.{find_account, has_server}
use ssh_panel_vpn.Effects.{Env, World, ok, err, synchronous_only_operation}
use ssh_panel_vpn.Effects.Outcome.{Ends}
use ssh_panel_vpn.Database.{has_account}
use ssh_panel_vpn.Connections.{Operation, expire, perform_all}
use ssh_panel_vpn.Connections.Rows.{HasUniqueRows}
use ssh_panel_vpn.Api.Serializers.{UpdateRequest}
use ssh_panel_vpn.Api.Update.{apply_update, save_whole}
use ssh_panel_vpn.Api.Update.Stale.{save_whole-restores}
use ssh_panel_vpn.Api.Routes.{serve, account_update, webhook_payment, delete_user}
use ssh_panel_vpn.Api.Routes.Rows.{serve-HasUniqueRows}
use ssh_panel_vpn.Database.Permit.{Evolves}
use ssh_panel_vpn.Bot.Run.{plans_command, buy_command, status_command, handle, converse}
use ssh_panel_vpn.Common.Text.{decimal}
use ssh_panel_vpn.Bot.Refused.{queries_refused}
use ssh_panel_vpn.Bot.Ledger.{adding, converse-Evolves}
use ssh_panel_vpn.Celery.{Schedule, crontab, every_seconds, Scheduler, in_field, sent}
use ssh_panel_vpn.Celery.Rates.{
  is_expire, is_bandwidth, is_health, is_sessions, is_cleanup, count, sent_rates,
}
use ssh_panel_vpn.Celery.Expired.{ExpiresAll, expired_within_five_minutes}
use ssh_panel_vpn.Examples.Data.{node_env, panel, order, alice, bob}
use ssh_panel_vpn.Examples.Machine.{panel-HasUniqueRows, node_env-IsUp, staff}

abbrev longer : UpdateRequest
longer = record {
  expire_date = none;
  duration_days = some 30;
  bandwidth_limit_gb = none;
  max_connections = some 4;
  note = some (codes " renewed ");
}

serve-HasUniqueRows_example :
    HasUniqueRows
      (serve
        ((account_update 1 longer, some staff)
          ∷ (webhook_payment order, none)
          ∷ (delete_user 1, some staff)
          ∷ [])
        node_env
        panel).1
serve-HasUniqueRows_example =
    serve-HasUniqueRows
      ((account_update 1 longer, some staff)
        ∷ (webhook_payment order, none)
        ∷ (delete_user 1, some staff)
        ∷ [])
      node_env panel panel-HasUniqueRows

-- Alice was suspended after the view read her row.
abbrev suspended_since : World
suspended_since = record panel {
  db = record panel.db { accounts = bob ∷ record alice { status = AccountStatus.suspended } ∷ [] };
}

save_whole-restores_example :
    Ends
      (λ saved w'.
        (find_account alice.id w'.db.accounts ≡ some saved)
        × (saved.status ≡ alice.status)
        × (saved.server ≡ alice.server)
        × (saved.plan ≡ alice.plan)
        × (saved.bandwidth_used_gb ≡ alice.bandwidth_used_gb))
      (λ w'. w'.db ≡ suspended_since.db)
      (save_whole (apply_update longer 2000000 alice) node_env suspended_since)
save_whole-restores_example =
    save_whole-restores node_env suspended_since alice longer 2000000 (unfold has_account in refl)

abbrev due_at : Schedule → ℕ → Bool
due_at (crontab minute hour) s =
    s % 60 == 0 && (in_field minute (s / 60 % 60) && in_field hour (s / 3600 % 24))
due_at (every_seconds k) s = s % k == 0

abbrev clockwork : Scheduler
clockwork = record {
  is_due = due_at;
  phase = λ k. 0;
  crontab_due = λ minute hour s. refl;
  phase_below = λ k. omega arith;
  seconds_due = λ k s. refl;
}

sent_rates_example :
    (count is_expire (sent clockwork 1000 300) ≡ 1)
    × (count is_bandwidth (sent clockwork 1000 300) ≡ 1)
    × (count is_health (sent clockwork 1000 300) ≡ 5)
    × (count is_sessions (sent clockwork 1000 300) ≡ 10)
    × (count is_cleanup (sent clockwork 1000 86400) ≡ 1)
sent_rates_example = sent_rates clockwork 1000

expired_within_five_minutes_example :
    (before : List Operation) × (after : List Operation) × (sent clockwork 1000 300
      ≡ before ++ expire ∷ after)
    × ExpiresAll node_env (perform_all before node_env panel).1
expired_within_five_minutes_example =
    expired_within_five_minutes clockwork 1000 node_env panel node_env-IsUp
      (unfold has_server in (refl, (refl, tt)))

-- An environment that sets `DJANGO_ALLOW_ASYNC_UNSAFE`.
abbrev allowing_env : Env
allowing_env = record node_env { async_unsafe = true }

converse-Evolves_example :
    Evolves adding panel.db.accounts
      (converse
        ((plans_command, [])
          ∷ (buy_command, codes "1" ∷ codes "Dora" ∷ [])
          ∷ (status_command, codes "dora" ∷ [])
          ∷ [])
        allowing_env
        panel).1.db.accounts
converse-Evolves_example =
    converse-Evolves
      ((plans_command, [])
        ∷ (buy_command, codes "1" ∷ codes "Dora" ∷ [])
        ∷ (status_command, codes "dora" ∷ [])
        ∷ [])
      allowing_env panel

queries_refused_example :
    (handle plans_command [] node_env panel ≡ (err synchronous_only_operation, panel))
    × (handle status_command (codes "dora" ∷ []) node_env panel
        ≡ (err synchronous_only_operation, panel))
    × (handle buy_command (decimal 1 ∷ codes "dora" ∷ []) node_env panel
        ≡ (err synchronous_only_operation, panel))
    × (converse ((buy_command, codes "1" ∷ codes "dora" ∷ []) ∷ []) node_env panel ≡ (ok tt, panel))
queries_refused_example =
    queries_refused node_env refl ((buy_command, codes "1" ∷ codes "dora" ∷ []) ∷ []) 1
      (codes "dora") [] panel
