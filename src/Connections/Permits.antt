-- ===== src/Connections/Permits.antt =====
-- What each call may write, and what a call keeps under that permit.
use ssh_panel_vpn.Common.{refl, Bool, true, false}
use ssh_panel_vpn.Models.{AccountStatus}
use ssh_panel_vpn.Models.Queries.{account_status_eq}
use ssh_panel_vpn.Effects.{World, Act, ◌>>=◌, pure}
use ssh_panel_vpn.Effects.Keeps.{Keeps, Keeps-bind, Keeps-pure}
use ssh_panel_vpn.Database.Permit.{Permit, Column, password_column, expiry_column, usage_column}
use ssh_panel_vpn.Services.Frame.{Frame, create_account-Keeps, bulk_create_accounts-Keeps}
use ssh_panel_vpn.Services.Frame.Lifecycle.{
  delete_account-Keeps, suspend_account-Keeps, activate_account-Keeps, extend_account-Keeps,
  reset_password-Keeps,
}
use ssh_panel_vpn.Tasks.Frame.{
  expire_users-Keeps, cleanup_expired_accounts-Keeps, sync_bandwidth_usage-Keeps,
  sync_active_sessions-Keeps,
}
use ssh_panel_vpn.ServerTasks.Frame.{
  check_all_servers_health-Keeps, check_single_server-Keeps, rebalance_users-Keeps,
}
use ssh_panel_vpn.Connections.{
  Operation, create, bulk_create, delete, suspend, activate, reset, renew, expire, bandwidth,
  sessions, health, cleanup, check, rebalance, perform,
}

-- No row is added or moved, no status is set and no column is written.
abbrev pub nothing : Permit
nothing = record { adds = false; moves = false; sets = λ s. false; edits = λ c. false }

abbrev pub setting : AccountStatus → Permit
setting s = record nothing { sets = account_status_eq s }

abbrev pub is_password : Column → Bool
is_password password_column = true
is_password expiry_column = false
is_password usage_column = false

abbrev pub is_expiry : Column → Bool
is_expiry password_column = false
is_expiry expiry_column = true
is_expiry usage_column = false

abbrev pub is_usage : Column → Bool
is_usage password_column = false
is_usage expiry_column = false
is_usage usage_column = true

abbrev pub permit : Operation → Permit
permit (create args) = record nothing { adds = true }
permit (bulk_create prefix count plan server user) = record nothing { adds = true }
permit (delete account user) = setting AccountStatus.deleted
permit (suspend account user) = setting AccountStatus.suspended
permit (activate account user) = setting AccountStatus.active
permit (reset account user) = record nothing { edits = is_password }
permit (renew account days user) = record (setting AccountStatus.active) { edits = is_expiry }
permit expire = setting AccountStatus.expired
permit bandwidth = record (setting AccountStatus.suspended) { edits = is_usage }
permit (cleanup days) = setting AccountStatus.deleted
permit (rebalance server) = record nothing { moves = true }
permit _ = nothing

drop_result-Keeps :
    {A : Type 0} {Q : World → Type 0} {m : Act A} → Keeps Q m → Keeps Q (m >>= λ _. pure tt)
drop_result-Keeps k = Keeps-bind _ _ k (λ _. Keeps-pure tt)

pub perform-Keeps :
    {P Q : World → Type 0} (op : Operation) → Frame (permit op) P Q → Keeps Q (perform op)
unfolding perform
perform-Keeps (create args) frame = drop_result-Keeps (create_account-Keeps frame refl args)
perform-Keeps (bulk_create prefix count plan server user) frame =
    drop_result-Keeps (bulk_create_accounts-Keeps frame refl prefix count plan server user)
perform-Keeps (delete account user) frame = delete_account-Keeps frame refl account user
perform-Keeps (suspend account user) frame = suspend_account-Keeps frame refl account user
perform-Keeps (activate account user) frame = activate_account-Keeps frame refl account user
perform-Keeps (reset account user) frame =
    drop_result-Keeps (reset_password-Keeps frame refl account user)
perform-Keeps (renew account days user) frame =
    drop_result-Keeps (extend_account-Keeps frame refl refl account days user)
perform-Keeps expire frame = drop_result-Keeps (expire_users-Keeps frame refl)
perform-Keeps bandwidth frame = sync_bandwidth_usage-Keeps frame refl refl
perform-Keeps sessions frame = sync_active_sessions-Keeps frame
perform-Keeps health frame = check_all_servers_health-Keeps frame
perform-Keeps (cleanup days) frame =
    drop_result-Keeps (cleanup_expired_accounts-Keeps frame refl days)
perform-Keeps (check server) frame = drop_result-Keeps (check_single_server-Keeps frame server)
perform-Keeps (rebalance server) frame = drop_result-Keeps (rebalance_users-Keeps frame refl server)
