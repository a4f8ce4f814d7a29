-- ===== src/Services/Create.antt =====
-- `generate_password`, `create_account` and `bulk_create_accounts`.
pub mod Password
pub mod Remote
pub mod Parts
pub mod Row
use ssh_panel_vpn.Common.{
  ℕ, zero, suc, ◌+◌, ◌*◌, ◌/◌, ◌%◌, ◌^◌, ◌≡◌, refl, Bool, true, false, Option, none, some, List, [],
  ◌∷◌, ◌++◌, ltb, leb, length, ◌-◌, if◌then◌else◌,
}
use ssh_panel_vpn.Common.Text.{Text, codes, decimal, zeros}
use ssh_panel_vpn.Models.{Account, AccountStatus, Action, Plan, Protocol, Server}
use ssh_panel_vpn.Models.Queries.{is_shadowlink}
use ssh_panel_vpn.Models.Time.{day, datetime_max, strftime_date}
use ssh_panel_vpn.Effects.{
  Act, Manager, Result, ok, err, Exception, pure, raise, ◌>>=◌, on_result, on_option, ◌>>◌, attempt,
  atomic, read_now, new_uuid, new_id, account_error, shadowlink_error, command_error,
  overflow_error, settle,
}
use ssh_panel_vpn.Database.{create_account_row, create_log}
use ssh_panel_vpn.Ssh.Connection.{with_ssh, succeeded}
use ssh_panel_vpn.Ssh.Users.{create_user, set_expiry}
use ssh_panel_vpn.Ssh.Limits.{set_max_logins}
use ssh_panel_vpn.Ssh.Traffic.{setup_traffic_accounting}
use ssh_panel_vpn.ShadowLink.{register_token}
use ssh_panel_vpn.Services.Server.{pick_best_server}
use Password.{generate_password}

-- The arguments of `create_account`; `none` is the default `None`.
pub record NewAccount : Type 0 where
  pub username : Text
  pub plan : Plan
  pub server : Option Server
  pub password : Option Text
  pub admin_user : Option ℕ
  pub note : Text
  pub duration_days : Option ℕ
  pub bandwidth_limit_gb : Option ℕ
  pub max_connections : Option ℕ
  pub protocol_type : Option Protocol

-- `a if a is not None else b`
abbrev pub given_or {ℓ} : {A : Type ℓ} → Option A → A → A
given_or none b = b
given_or (some a) b = a

-- `password or generate_password()`
unfoldable pub password_or : Option Text → Act Text
password_or none = generate_password
password_or (some []) = generate_password
password_or (some (c ∷ s)) = pure (c ∷ s)

-- `t + timedelta(days=n)`, an `OverflowError` past the year 9999
unfoldable pub add_days : ℕ → ℕ → Act ℕ
add_days t n = if leb (t + n * day) datetime_max then pure (t + n * day) else raise overflow_error

abbrev pub protocol_name : Protocol → Text
protocol_name Protocol.ssh = codes "ssh"
protocol_name Protocol.shadowlink = codes "shadowlink"

-- `k` hexadecimal digits of a number, the highest first.
hex_digits : ℕ → ℕ → Text
hex_digits zero n = []
hex_digits (suc k) n =
    hex_digits k (n / 16) ++ (if ltb (n % 16) 10 then 48 + n % 16 else 87 + n % 16) ∷ []

-- `str(uuid)` of a 128-bit number: groups of 8, 4, 4, 4 and 12 digits.
unfoldable pub token_text : ℕ → Text
unfolding hex_digits
token_text n =
    hex_digits 8 (n / 16 ^ 24)
    ++ 45 ∷ hex_digits 4 (n / 16 ^ 20)
    ++ 45 ∷ hex_digits 4 (n / 16 ^ 16)
    ++ 45 ∷ hex_digits 4 (n / 16 ^ 12)
    ++ 45 ∷ hex_digits 12 n

-- `str(e)` of the exceptions that carry a message of the program; that of a library is left out.
unfoldable pub message : Exception → Text
message (account_error t) = t
message (shadowlink_error t) = t
message (command_error t) = t
message _ = []

-- `_provision_shadowlink_account`: any exception becomes an `AccountError`.
unfoldable pub provision_shadowlink : Account → Server → ℕ → Act (Unit {0})
unfolding message
provision_shadowlink account server max_conns = do
  r ← attempt (register_token server (token_text account.auth_token) max_conns)
  on_result r (λ _. pure tt)
      (λ e. raise (account_error (codes "ShadowLink provisioning failed: " ++ message e)))

-- The body of the `with` in `create_account`.
unfoldable pub provision_ssh : Account → Text → Manager → Act (Unit {0})
provision_ssh account password ssh = do
  result ← create_user ssh account.username password
  if succeeded result
      then pure tt
      else raise (account_error (codes "Remote user creation failed: " ++ result.stderr))
  set_expiry ssh account.username (strftime_date account.expire_date)
  set_max_logins ssh account.username account.max_connections
  if ltb 0 account.bandwidth_limit_gb
      then setup_traffic_accounting ssh account.username
      else pure tt

unfoldable pub provision : Account → Server → Text → Act (Unit {0})
provision account server password =
    if is_shadowlink account.protocol_type
    then provision_shadowlink account server account.max_connections
    else with_ssh server (provision_ssh account password)

-- The keyword arguments of `SSHAccount.objects.create`, and the defaults of the other columns.
unfoldable pub account_row : NewAccount → Server → Text → ℕ → ℕ → ℕ → ℕ → ℕ → ℕ → Account
account_row args server password expire_date id access_token auth_token created_at updated_at =
    let proto = given_or args.protocol_type server.protocol_type in
    record {
      id = id;
      username = args.username;
      password_display = if is_shadowlink proto then [] else password;
      server = server.id;
      plan = some args.plan.id;
      protocol_type = proto;
      status = AccountStatus.active;
      expire_date = expire_date;
      max_connections = given_or args.max_connections args.plan.max_connections;
      bandwidth_limit_gb = given_or args.bandwidth_limit_gb args.plan.bandwidth_limit_gb;
      bandwidth_used_gb = 0;
      access_token = access_token;
      auth_token = auth_token;
      created_by = args.admin_user;
      note = args.note;
      created_at = created_at;
      updated_at = updated_at;
    }

unfoldable pub create_detail : NewAccount → Server → Account → Text
create_detail args server account =
    codes "Plan="
    ++ (args.plan.name
        ++ (codes ", Server="
            ++ (server.name ++ (codes ", Protocol=" ++ protocol_name account.protocol_type))))

-- The body of `create_account`, without the transaction.
unfoldable pub create_account_body : NewAccount → Act Account
create_account_body args = do
  server ← pick_best_server args.server
  password ← password_or args.password
  now ← read_now
  expire_date ← add_days now (given_or args.duration_days args.plan.duration_days)
  id ← new_id
  access_token ← new_uuid
  auth_token ← new_uuid
  created_at ← read_now
  updated_at ← read_now
  account ← create_account_row (
      account_row args server password expire_date id access_token auth_token created_at updated_at)
  provision account server password
  create_log Action.create account.id args.admin_user (create_detail args server account)
  pure account

-- `create_account`
unfoldable pub create_account : NewAccount → Act Account
create_account args = atomic (create_account_body args)

-- `f"{prefix}{i:03d}"`
unfoldable pub bulk_username : Text → ℕ → Text
unfolding decimal zeros
bulk_username prefix i = prefix ++ (zeros (3 - length (decimal i)) ++ decimal i)

-- The arguments that `bulk_create_accounts` passes for one username.
unfoldable pub bulk_args : Text → Plan → Option Server → Option ℕ → NewAccount
bulk_args username plan server admin_user = record {
  username = username;
  plan = plan;
  server = server;
  password = none;
  admin_user = admin_user;
  note = [];
  duration_days = none;
  bandwidth_limit_gb = none;
  max_connections = none;
  protocol_type = none;
}

-- `except AccountError: break`; any other exception passes.
unfoldable pub stop_or_raise : Exception → Act (List Account)
stop_or_raise (account_error t) = pure []
stop_or_raise e = raise e

-- The loop with `n` rounds left, at index `i`.
unfoldable pub bulk_loop : ℕ → ℕ → Text → Plan → Option Server → Option ℕ → Act (List Account)
unfolding bulk_username bulk_args stop_or_raise
bulk_loop zero i prefix plan server admin_user = pure []
bulk_loop (suc n) i prefix plan server admin_user = do
  r ← attempt (create_account (bulk_args (bulk_username prefix i) plan server admin_user))
  on_result r
      (λ acc. do rest ← bulk_loop n (i + 1) prefix plan server admin_user; pure (acc ∷ rest))
      stop_or_raise

-- `bulk_create_accounts`
unfoldable pub bulk_create_accounts :
    Text → ℕ → Plan → Option Server → Option ℕ → Act (List Account)
unfolding bulk_loop
bulk_create_accounts prefix count plan server admin_user =
    bulk_loop count 1 prefix plan server admin_user
