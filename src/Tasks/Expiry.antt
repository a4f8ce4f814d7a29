-- ===== src/Tasks/Expiry.antt =====
-- `expire_users` and `cleanup_expired_accounts`.
pub mod Due
pub mod Pending
pub mod Complete
use ssh_panel_vpn.Common.{ℕ, ◌+◌, ◌*◌, Bool, ◌&&◌, if◌then◌else◌, none, List, [], ◌∷◌, select, leb}
use ssh_panel_vpn.Models.{Account, AccountStatus}
use ssh_panel_vpn.Models.Queries.{account_status_eq}
use ssh_panel_vpn.Models.Time.{day}
use ssh_panel_vpn.Effects.{
  Act, Result, ok, err, pure, raise, overflow_error, ◌>>=◌, ◌>>◌, attempt, read_now, get_db,
}
use ssh_panel_vpn.Database.{save_account, server_of}
use ssh_panel_vpn.Ssh.Connection.{with_ssh}
use ssh_panel_vpn.Ssh.Users.{lock_user}
use ssh_panel_vpn.Services.Lifecycle.{delete_account, set_status}

-- `filter(status=status, expire_date__lte=cutoff)`
abbrev pub past : AccountStatus → ℕ → Account → Bool
past status cutoff a = account_status_eq a.status status && leb a.expire_date cutoff

-- `count += 1` after a round that raised nothing
abbrev pub tally : Result (Unit {0}) → ℕ → ℕ
tally (ok _) count = count + 1
tally (err _) count = count

-- `for acc in accounts: try: body(acc); count += 1 except Exception: ...`
unfoldable pub count_rounds : (Account → Act (Unit {0})) → List Account → ℕ → Act ℕ
count_rounds body [] count = pure count
count_rounds body (acc ∷ accounts) count = do
  r ← attempt (body acc)
  count_rounds body accounts (tally r count)

unfoldable pub expire_one : Account → Act (Unit {0})
expire_one acc = do
  server ← server_of acc
  with_ssh server (λ ssh. lock_user ssh acc.username)
  save_account acc.id (set_status AccountStatus.expired)

unfoldable pub expire_users : Act ℕ
expire_users = do
  now ← read_now
  db ← get_db
  count_rounds expire_one (select (past AccountStatus.active now) db.accounts) 0

-- The days from the first of January of the year 1 to 1970.
abbrev pub days_before_epoch : ℕ
days_before_epoch = 719162

-- `now - timedelta(days=grace_days)` is a date: a duration has at most 999999999 days, and the first
-- date is in the year 1. Otherwise Python raises an `OverflowError`.
unfoldable pub has_cutoff : ℕ → ℕ → Bool
has_cutoff grace_days now =
    leb grace_days 999999999 && leb (grace_days * day) (now + days_before_epoch * day)

-- `filter(status=EXPIRED, expire_date__lte=now - timedelta(days=grace_days))`; the cutoff may lie
-- before 1970.
abbrev pub past_grace : ℕ → ℕ → Account → Bool
past_grace grace_days now a =
    account_status_eq a.status AccountStatus.expired && leb (a.expire_date + grace_days * day) now

unfoldable pub cleanup_expired_accounts : ℕ → Act ℕ
unfolding has_cutoff
cleanup_expired_accounts grace_days = do
  now ← read_now
  if has_cutoff grace_days now
      then (do
        db ← get_db
        count_rounds (λ acc. delete_account acc none)
            (select (past_grace grace_days now) db.accounts) 0)
      else raise overflow_error
