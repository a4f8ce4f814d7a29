-- ===== src/Api/Request.antt =====
-- What the endpoints share: the requesting user, the permission classes, `get_object_or_404`, the
-- responses, and the `except AccountError` that turns a message into a 400.
use ssh_panel_vpn.Common.{ℕ, Bool, true, false, Option, none, some, List, if◌then◌else◌}
use ssh_panel_vpn.Common.Text.{Text}
use ssh_panel_vpn.Models.{Account, Plan, Server}
use ssh_panel_vpn.Models.Queries.{find_account, find_plan, find_server}
use ssh_panel_vpn.Effects.{
  Act, Exception, pure, raise, or_raise, ◌>>=◌, on_result, attempt, get_db, account_error, http_404,
  validation_error, permission_denied,
}

-- `request.user`; an anonymous request has none.
pub record User : Type 0 where
  pub id : ℕ
  pub is_staff : Bool

pub data Permission : Type 0 where
  allow_any is_authenticated is_admin_user : Permission

unfoldable pub permits : Permission → Option User → Bool
permits Permission.allow_any user = true
permits Permission.is_authenticated none = false
permits Permission.is_authenticated (some u) = true
permits Permission.is_admin_user none = false
permits Permission.is_admin_user (some u) = u.is_staff

-- `check_permissions`, before the handler
unfoldable pub guarded {ℓ} : {A : Type ℓ} → Permission → Option User → Act A → Act A
unfolding permits
guarded p user handler = if permits p user then handler else raise permission_denied

abbrev pub user_id : Option User → Option ℕ
user_id none = none
user_id (some u) = some u.id

unfoldable pub require_valid : Bool → Act (Unit {0})
require_valid b = if b then pure tt else raise validation_error

unfoldable pub get_account_or_404 : ℕ → Act Account
unfolding find_account
get_account_or_404 pk = do db ← get_db; or_raise http_404 (find_account pk db.accounts)

unfoldable pub get_plan_or_404 : ℕ → Act Plan
unfolding find_plan
get_plan_or_404 pk = do db ← get_db; or_raise http_404 (find_plan pk db.plans)

-- `get_object_or_404(Plan, pk=pk, is_active=True)`
unfoldable pub get_active_plan_or_404 : ℕ → Act Plan
unfolding get_plan_or_404
get_active_plan_or_404 pk = do
  plan ← get_plan_or_404 pk
  if plan.is_active then pure plan else raise http_404

unfoldable pub get_server_or_404 : ℕ → Act Server
unfolding find_server
get_server_or_404 pk = do db ← get_db; or_raise http_404 (find_server pk db.servers)

-- `if "server_id" in data: ...`
unfoldable pub given_server : Option ℕ → Act (Option Server)
given_server none = pure none
given_server (some pk) = do server ← get_server_or_404 pk; pure (some server)

pub data Response : Type 0 where
  -- a status code and `{"detail": ...}`
  detail : ℕ → Text → Response
  -- a status code and serialized accounts
  account : ℕ → Account → Response
  accounts : ℕ → List Account → Response
  new_password : Text → Text → Response

-- `except AccountError as e: return Response({"detail": str(e)}, 400)`
unfoldable pub answer_400 : Exception → Act Response
answer_400 (account_error t) = pure (detail 400 t)
answer_400 e = raise e

unfoldable pub or_400 : Act Response → Act Response
unfolding answer_400
or_400 handler = do r ← attempt handler; on_result r pure answer_400
