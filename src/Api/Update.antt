-- ===== src/Api/Update.antt =====
-- `AccountUpdateView.patch`.
pub mod Stale
use ssh_panel_vpn.Common.{
  ℕ, Bool, true, false, ◌||◌, ◌&&◌, not, ◌==◌, exists, List, Option, none, some, if◌then◌else◌,
}
use ssh_panel_vpn.Common.Text.{strip}
use ssh_panel_vpn.Models.{Account}
use ssh_panel_vpn.Models.Time.{strftime_date}
use ssh_panel_vpn.Effects.{
  Act, Manager, pure, raise, ◌>>=◌, ◌>>◌, attempt, read_now, get_db, data_error, integrity_error,
  modify,
}
use ssh_panel_vpn.Database.{fits_columns, clashes, change_row, server_of}
use ssh_panel_vpn.Ssh.Connection.{with_ssh}
use ssh_panel_vpn.Ssh.Users.{set_expiry}
use ssh_panel_vpn.Ssh.Limits.{set_max_logins}
use ssh_panel_vpn.Services.Create.{add_days, given_or}
use ssh_panel_vpn.Api.Serializers.{UpdateRequest, update_is_valid}
use ssh_panel_vpn.Api.Request.{
  User, Permission, guarded, require_valid, get_account_or_404, Response, account,
}

abbrev pub is_given {ℓ} : {A : Type ℓ} → Option A → Bool
is_given none = false
is_given (some a) = true

-- `account.expire_date = timezone.now() + td(days=data["duration_days"])`
unfoldable pub new_expiry : Account → Option ℕ → Act ℕ
new_expiry acc none = pure acc.expire_date
new_expiry acc (some days) = do now ← read_now; add_days now days

-- The assignments of the view, on the object; a date that is given wins over a duration.
unfoldable pub apply_update : UpdateRequest → ℕ → Account → Account
apply_update data' expire_date acc = record acc {
  expire_date = given_or data'.expire_date expire_date;
  bandwidth_limit_gb = given_or data'.bandwidth_limit_gb acc.bandwidth_limit_gb;
  max_connections = given_or data'.max_connections acc.max_connections;
  note = given_or data'.note acc.note;
}

-- Another row has a token of the object, or its username on its server.
unfoldable pub clashes_elsewhere : Account → List Account → Bool
unfolding clashes
clashes_elsewhere saved rows = exists (λ row. not (row.id == saved.id) && clashes saved row) rows

-- `account.save()`: every column of the object is written, under the column sizes and the unique
-- constraints; the row is there, since the code deletes none.
unfoldable pub save_whole : Account → Act Account
unfolding fits_columns clashes_elsewhere change_row
save_whole acc = do
  now ← read_now
  db ← get_db
  let saved = record acc { updated_at = now }
  if not (fits_columns saved)
      then raise data_error
      else if clashes_elsewhere saved db.accounts
      then raise integrity_error
      else (do
        modify (λ d. record d { accounts = change_row acc.id (λ _. saved) d.accounts })
        pure saved)

-- The body of the `with`.
unfoldable pub push_update : UpdateRequest → Account → Manager → Act (Unit {0})
push_update data' acc ssh = do
  if is_given data'.duration_days || is_given data'.expire_date
      then (do set_expiry ssh acc.username (strftime_date acc.expire_date); pure tt)
      else pure tt
  if is_given data'.max_connections
      then (do set_max_logins ssh acc.username acc.max_connections; pure tt)
      else pure tt

unfoldable pub strip_note : UpdateRequest → UpdateRequest
unfolding strip
strip_note r = record r { note = elim r.note [ none ↦ none | some t ↦ some (strip t) ] }

-- The view behind its permission.
abbrev pub update_handler : ℕ → UpdateRequest → Act Response
update_handler pk body = do
  acc ← get_account_or_404 pk
  let data' = strip_note body
  require_valid (update_is_valid data')
  expire_date ← new_expiry acc data'.duration_days
  saved ← save_whole (apply_update data' expire_date acc)
  attempt (do server ← server_of saved; with_ssh server (push_update data' saved))
  pure (account 200 saved)

unfoldable pub update_account_view : Option User → ℕ → UpdateRequest → Act Response
unfolding strip_note
update_account_view user pk body = guarded Permission.is_admin_user user (update_handler pk body)
