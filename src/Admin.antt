-- ===== src/Admin.antt =====
-- The bulk actions of `SSHAccountAdmin` (accounts/admin.py), its detail column, and the
-- bar color of `ServerAdmin` (servers/admin.py).
pub mod Batch
pub mod Pages
use ssh_panel_vpn.Common.{ℕ, Bool, not, ◌&&◌, Option, [], ◌∷◌, ◌++◌, select, take, if◌then◌else◌}
use ssh_panel_vpn.Common.Text.{Text, codes, decimal, is_empty}
use ssh_panel_vpn.Models.{Account, AccountStatus, Db, Float, Server}
use ssh_panel_vpn.Models.Queries.{account_status_eq, current_user_count}
use ssh_panel_vpn.Effects.{Env, Act, pure, ◌>>=◌, get_db}
use ssh_panel_vpn.Services.Lifecycle.{delete_account, suspend_account, activate_account}
use ssh_panel_vpn.Tasks.Expiry.{count_rounds}

-- The rows that the admin ticked, as a test on accounts.
abbrev pub Chosen : Type 0
Chosen = Account → Bool

-- `queryset.filter(status=status)`
abbrev pub with_status : Chosen → AccountStatus → Account → Bool
with_status chosen status a = chosen a && account_status_eq a.status status

abbrev pub not_deleted : Chosen → Account → Bool
not_deleted chosen a = chosen a && not (account_status_eq a.status AccountStatus.deleted)

unfoldable pub report : Text → ℕ → Text
unfolding decimal
report verb count = verb ++ (codes " " ++ (decimal count ++ codes " accounts."))

unfoldable pub action_suspend : Option ℕ → Chosen → Act Text
action_suspend user chosen = do
  db ← get_db
  count ←
      count_rounds (λ acc. suspend_account acc user)
        (select (with_status chosen AccountStatus.active) db.accounts) 0
  pure (report (codes "Suspended") count)

unfoldable pub action_activate : Option ℕ → Chosen → Act Text
action_activate user chosen = do
  db ← get_db
  count ←
      count_rounds (λ acc. activate_account acc user)
        (select (with_status chosen AccountStatus.suspended) db.accounts) 0
  pure (report (codes "Activated") count)

unfoldable pub action_delete_accounts : Option ℕ → Chosen → Act Text
action_delete_accounts user chosen = do
  db ← get_db
  count ← count_rounds (λ acc. delete_account acc user) (select (not_deleted chosen) db.accounts) 0
  pure (report (codes "Deleted") count)

-- `AuditLogAdmin.short_detail`; 8212 is the dash.
unfoldable pub short_detail : Text → Text
short_detail detail = if is_empty detail then 8212 ∷ [] else take 80 detail

-- `ServerAdmin.user_count_display`
unfoldable pub user_count_display : Db → Server → Text
unfolding current_user_count decimal
user_count_display db srv =
    decimal (current_user_count db srv) ++ (codes " / " ++ decimal srv.max_users)

-- The color of `_progress_bar`.
unfoldable pub bar_color : Env → Float → Text
bar_color env value =
    if env.float_lt (env.of_ℕ 80) value
    then codes "#dc3545"
    else if env.float_lt (env.of_ℕ 60) value
    then codes "#ffc107"
    else codes "#28a745"
