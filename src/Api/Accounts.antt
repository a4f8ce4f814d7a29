-- ===== src/Api/Accounts.antt =====
-- The account endpoints: creation of one or many, and the five operations on one account. The views
-- without a permission class of their own have the default of sshvpn/settings.py, `IsAdminUser`.
pub mod Usernames
use ssh_panel_vpn.Common.{ℕ, Option, none, some, []}
use ssh_panel_vpn.Common.Text.{Text, codes, strip}
use ssh_panel_vpn.Models.{Account, Protocol}
use ssh_panel_vpn.Effects.{Act, pure, ◌>>=◌, ◌>>◌}
use ssh_panel_vpn.Services.Create.{create_account, bulk_create_accounts, given_or}
use ssh_panel_vpn.Services.Lifecycle.{
  delete_account, suspend_account, activate_account, extend_account, reset_password,
}
use ssh_panel_vpn.Api.Serializers.{
  CreateRequest, clean_create, create_is_valid, BulkRequest, bulk_is_valid, in_range,
}
use ssh_panel_vpn.Api.Request.{
  User, Permission, guarded, user_id, require_valid, get_account_or_404, get_active_plan_or_404,
  given_server, Response, detail, account, accounts, new_password, or_400,
}

-- `CreateAccountView.post`
unfoldable pub create_account_view : Option User → CreateRequest → Act Response
unfolding clean_create create_is_valid
create_account_view user body = guarded Permission.is_admin_user user do
  let request = clean_create body
  require_valid (create_is_valid request)
  plan ← get_active_plan_or_404 request.plan_id
  server ← given_server request.server_id
  or_400 do
    created ← create_account (record {
      username = request.username;
      plan = plan;
      server = server;
      password = request.password;
      admin_user = user_id user;
      note = given_or request.note [];
      duration_days = request.duration_days;
      bandwidth_limit_gb = request.bandwidth_limit_gb;
      max_connections = request.max_connections;
      protocol_type = none;
    })
    pure (account 201 created)

-- `CreateShadowLinkAccountView.post`: the same body without a password and a bandwidth limit.
unfoldable pub create_shadowlink_account_view : Option User → CreateRequest → Act Response
unfolding clean_create create_is_valid
create_shadowlink_account_view user body = guarded Permission.is_admin_user user do
  let request = record (clean_create body) { password = none; bandwidth_limit_gb = none }
  require_valid (create_is_valid request)
  plan ← get_active_plan_or_404 request.plan_id
  server ← given_server request.server_id
  or_400 do
    created ← create_account (record {
      username = request.username;
      plan = plan;
      server = server;
      password = none;
      admin_user = user_id user;
      note = given_or request.note [];
      duration_days = request.duration_days;
      bandwidth_limit_gb = none;
      max_connections = request.max_connections;
      protocol_type = some Protocol.shadowlink;
    })
    pure (account 201 created)

-- `BulkCreateAccountView.post`
unfoldable pub bulk_create_view : Option User → BulkRequest → Act Response
unfolding bulk_is_valid
bulk_create_view user body = guarded Permission.is_admin_user user do
  let request = record body { prefix = strip body.prefix }
  require_valid (bulk_is_valid request)
  plan ← get_active_plan_or_404 request.plan_id
  server ← given_server request.server_id
  or_400 do
    created ← bulk_create_accounts request.prefix request.count plan server (user_id user)
    pure (accounts 201 created)

-- The three views that look an account up, call a service and answer with a text.
unfoldable pub service_view :
    (Account → Option ℕ → Act (Unit {0})) → Text → Option User → ℕ → Act Response
service_view service text user pk =
    guarded Permission.is_admin_user user
      do acc ← get_account_or_404 pk; or_400 (do service acc (user_id user); pure (detail 200 text))

unfoldable pub delete_account_view : Option User → ℕ → Act Response
unfolding service_view
delete_account_view = service_view delete_account (codes "Account deleted.")

unfoldable pub suspend_account_view : Option User → ℕ → Act Response
unfolding service_view
suspend_account_view = service_view suspend_account (codes "Account suspended.")

unfoldable pub activate_account_view : Option User → ℕ → Act Response
unfolding service_view
activate_account_view = service_view activate_account (codes "Account activated.")

-- `extend_account_view`, with `ExtendAccountSerializer`
unfoldable pub extend_account_view : Option User → ℕ → ℕ → Act Response
extend_account_view user pk days = guarded Permission.is_admin_user user do
  acc ← get_account_or_404 pk
  require_valid (in_range 1 365 (some days))
  or_400 (do extended ← extend_account acc days (user_id user); pure (account 200 extended))

unfoldable pub reset_password_view : Option User → ℕ → Act Response
reset_password_view user pk = guarded Permission.is_admin_user user do
  acc ← get_account_or_404 pk
  or_400 (do new_pw ← reset_password acc (user_id user); pure (new_password acc.username new_pw))
