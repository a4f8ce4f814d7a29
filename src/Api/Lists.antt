-- ===== src/Api/Lists.antt =====
-- The list views: their query sets, and the public views of one account and of the plans.
use ssh_panel_vpn.Common.{ℕ, Bool, not, ◌&&◌, Option, List, map, select}
use ssh_panel_vpn.Models.{Account, AccountStatus, Plan}
use ssh_panel_vpn.Models.Queries.{account_status_eq, is_shadowlink}
use ssh_panel_vpn.Effects.{Act, pure, ◌>>=◌, get_db, read_now}
use ssh_panel_vpn.Api.Public.{public_account_status}
use ssh_panel_vpn.Api.Request.{User, Permission, guarded, get_account_or_404}
use ssh_panel_vpn.Api.Output.{
  AccountData, PublicStatus, ShadowLinkAccountData, ServerData, SessionData, serialize_account,
  serialize_public, serialize_shadowlink, serialize_server, serialize_session,
}

-- `.exclude(status=DELETED)`
abbrev pub is_present : Account → Bool
is_present a = not (account_status_eq a.status AccountStatus.deleted)

-- `AccountListView`, before pages and filters
unfoldable pub account_list : Option User → Act (List AccountData)
account_list user = guarded Permission.is_admin_user user do
  db ← get_db
  now ← read_now
  pure (map (serialize_account db now) (select is_present db.accounts))

-- `AccountDetailView`
unfoldable pub account_detail : Option User → ℕ → Act AccountData
account_detail user pk =
    guarded Permission.is_admin_user user do
      acc ← get_account_or_404 pk
      db ← get_db
      now ← read_now
      pure (serialize_account db now acc)

-- `ShadowLinkAccountListView`
unfoldable pub shadowlink_account_list : Option User → Act (List ShadowLinkAccountData)
shadowlink_account_list user = guarded Permission.is_admin_user user do
  db ← get_db
  now ← read_now
  pure (
      map (serialize_shadowlink db now)
        (select (λ (a : Account). is_shadowlink a.protocol_type && is_present a) db.accounts))

-- `ServerListView.get`
unfoldable pub server_list : Option User → Act (List ServerData)
server_list user =
    guarded Permission.is_admin_user user
      do db ← get_db; pure (map (serialize_server db) db.servers)

-- `ActiveSessionListView`
unfoldable pub session_list : Option User → Act (List SessionData)
session_list user =
    guarded Permission.is_admin_user user
      do db ← get_db; pure (map (serialize_session db) db.sessions)

abbrev pub is_offered : Plan → Bool
is_offered p = p.is_active

-- `PlanListView.get` and `PublicPlanListView`
unfoldable pub plan_list : Option User → Act (List Plan)
plan_list user =
    guarded Permission.is_admin_user user (do db ← get_db; pure (select is_offered db.plans))

unfoldable pub public_plan_list : Act (List Plan)
public_plan_list = do db ← get_db; pure (select is_offered db.plans)

-- `PublicAccountStatusView.get`
unfoldable pub public_status_view : ℕ → Act PublicStatus
public_status_view token = do
  acc ← public_account_status token
  db ← get_db
  now ← read_now
  pure (serialize_public db now acc)
