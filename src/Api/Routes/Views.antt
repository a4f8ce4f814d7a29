-- ===== src/Api/Routes/Views.antt =====
-- What the views of accounts keep, in terms of what the connection layer owes to the services.
use ssh_panel_vpn.Common.{ℕ, refl, true, Bool, Option, none, some}
use ssh_panel_vpn.Common.Text.{Text}
use ssh_panel_vpn.Models.{Account}
use ssh_panel_vpn.Effects.{World, Act, Exception, account_error}
use ssh_panel_vpn.Effects.Keeps.{
  Keeps, Keeps-bind, Keeps-pure, Keeps-raise, Keeps-if, Keeps-attempt, Keeps-on_result, keeps_rules,
  get_db-Keeps,
}
use ssh_panel_vpn.Database.Permit.{Permit}
use ssh_panel_vpn.Services.Frame.{Frame, create_account-Keeps, bulk_create_accounts-Keeps}
use ssh_panel_vpn.Services.Frame.Lifecycle.{
  delete_account-Keeps, suspend_account-Keeps, activate_account-Keeps, extend_account-Keeps,
  reset_password-Keeps,
}
use ssh_panel_vpn.Api.Serializers.{CreateRequest, BulkRequest}
use ssh_panel_vpn.Api.Request.{
  User, Permission, guarded, require_valid, get_account_or_404, get_plan_or_404,
  get_active_plan_or_404, get_server_or_404, given_server, Response, answer_400, or_400,
}
use ssh_panel_vpn.Api.Accounts.{
  create_account_view, create_shadowlink_account_view, bulk_create_view, service_view,
  delete_account_view, suspend_account_view, activate_account_view, extend_account_view,
  reset_password_view,
}

abbrev pub everything : Permit
everything = record { adds = true; moves = true; sets = λ s. true; edits = λ c. true }

module _ {P Q : World → Type 0} (frame : Frame everything P Q) where
  pub guarded-Keeps :
      {A : Type 0} (p : Permission) (user : Option User) (handler : Act A)
      → Keeps Q handler
      → Keeps Q (guarded p user handler)
  unfolding guarded
  guarded-Keeps p user handler k = Keeps-if _ _ _ k (Keeps-raise _)

  pub require_valid-Keeps : (b : Bool) → Keeps Q (require_valid b)
  unfolding require_valid
  require_valid-Keeps b = search keeps_rules

  pub get_account_or_404-Keeps : (pk : ℕ) → Keeps Q (get_account_or_404 pk)
  unfolding get_account_or_404
  get_account_or_404-Keeps pk = search (keeps_rules, get_db-Keeps)

  pub get_plan_or_404-Keeps : (pk : ℕ) → Keeps Q (get_plan_or_404 pk)
  unfolding get_plan_or_404
  get_plan_or_404-Keeps pk = search (keeps_rules, get_db-Keeps)

  get_active_plan_or_404-Keeps : (pk : ℕ) → Keeps Q (get_active_plan_or_404 pk)
  unfolding get_active_plan_or_404
  get_active_plan_or_404-Keeps pk = search (keeps_rules, get_plan_or_404-Keeps) depth 6

  pub get_server_or_404-Keeps : (pk : ℕ) → Keeps Q (get_server_or_404 pk)
  unfolding get_server_or_404
  get_server_or_404-Keeps pk = search (keeps_rules, get_db-Keeps)

  given_server-Keeps : (o : Option ℕ) → Keeps Q (given_server o)
  unfolding given_server
  given_server-Keeps none = Keeps-pure none
  given_server-Keeps (some pk) =
      Keeps-bind _ _ (get_server_or_404-Keeps pk) (λ server. Keeps-pure _)

  answer_400-Keeps : (e : Exception) → Keeps Q (answer_400 e)
  unfolding answer_400
  answer_400-Keeps (account_error t) = Keeps-pure _
  answer_400-Keeps _ = Keeps-raise _

  pub or_400-Keeps : (handler : Act Response) → Keeps Q handler → Keeps Q (or_400 handler)
  unfolding or_400
  or_400-Keeps handler k =
      Keeps-bind _ _ (Keeps-attempt _ k)
        (λ r. Keeps-on_result r _ _ (λ a. Keeps-pure a) answer_400-Keeps)

  -- A service called for an account that is looked up.
  service_view-Keeps :
      (service : Account → Option ℕ → Act (Unit {0})) (t : Text) (user : Option User) (pk : ℕ)
      → ((a : Account) (u : Option ℕ) → Keeps Q (service a u))
      → Keeps Q (service_view service t user pk)
  unfolding service_view
  service_view-Keeps service t user pk k = guarded-Keeps _ user _ (
      Keeps-bind _ _ (get_account_or_404-Keeps pk)
        (λ acc. or_400-Keeps _ (Keeps-bind _ _ (k acc _) (λ _. Keeps-pure _))))

  pub delete_account_view-Keeps :
      (user : Option User) (pk : ℕ) → Keeps Q (delete_account_view user pk)
  unfolding delete_account_view
  delete_account_view-Keeps user pk =
      service_view-Keeps _ _ user pk (delete_account-Keeps frame refl)

  pub suspend_account_view-Keeps :
      (user : Option User) (pk : ℕ) → Keeps Q (suspend_account_view user pk)
  unfolding suspend_account_view
  suspend_account_view-Keeps user pk =
      service_view-Keeps _ _ user pk (suspend_account-Keeps frame refl)

  pub activate_account_view-Keeps :
      (user : Option User) (pk : ℕ) → Keeps Q (activate_account_view user pk)
  unfolding activate_account_view
  activate_account_view-Keeps user pk =
      service_view-Keeps _ _ user pk (activate_account-Keeps frame refl)

  pub extend_account_view-Keeps :
      (user : Option User) (pk days : ℕ) → Keeps Q (extend_account_view user pk days)
  unfolding extend_account_view
  extend_account_view-Keeps user pk days = guarded-Keeps _ user _ (
      Keeps-bind _ _ (get_account_or_404-Keeps pk) λ acc.
        Keeps-bind _ _ (require_valid-Keeps _) λ _.
          or_400-Keeps _
            (Keeps-bind _ _ (extend_account-Keeps frame refl refl acc days _) (λ _. Keeps-pure _)))

  pub reset_password_view-Keeps :
      (user : Option User) (pk : ℕ) → Keeps Q (reset_password_view user pk)
  unfolding reset_password_view
  reset_password_view-Keeps user pk = guarded-Keeps _ user _ (
      Keeps-bind _ _ (get_account_or_404-Keeps pk) λ acc.
        or_400-Keeps _ (Keeps-bind _ _ (reset_password-Keeps frame refl acc _) (λ _. Keeps-pure _)))

  pub create_account_view-Keeps :
      (user : Option User) (body : CreateRequest) → Keeps Q (create_account_view user body)
  unfolding create_account_view
  create_account_view-Keeps user body = guarded-Keeps _ user _ (
      Keeps-bind _ _ (require_valid-Keeps _) λ _.
        Keeps-bind _ _ (get_active_plan_or_404-Keeps _) λ plan.
          Keeps-bind _ _ (given_server-Keeps _) λ server.
            or_400-Keeps _ (Keeps-bind _ _ (create_account-Keeps frame refl _) (λ _. Keeps-pure _)))

  pub create_shadowlink_account_view-Keeps :
      (user : Option User) (body : CreateRequest)
      → Keeps Q (create_shadowlink_account_view user body)
  unfolding create_shadowlink_account_view
  create_shadowlink_account_view-Keeps user body = guarded-Keeps _ user _ (
      Keeps-bind _ _ (require_valid-Keeps _) λ _.
        Keeps-bind _ _ (get_active_plan_or_404-Keeps _) λ plan.
          Keeps-bind _ _ (given_server-Keeps _) λ server.
            or_400-Keeps _ (Keeps-bind _ _ (create_account-Keeps frame refl _) (λ _. Keeps-pure _)))

  pub bulk_create_view-Keeps :
      (user : Option User) (body : BulkRequest) → Keeps Q (bulk_create_view user body)
  unfolding bulk_create_view
  bulk_create_view-Keeps user body = guarded-Keeps _ user _ (
      Keeps-bind _ _ (require_valid-Keeps _) λ _.
        Keeps-bind _ _ (get_active_plan_or_404-Keeps _) λ plan.
          Keeps-bind _ _ (given_server-Keeps _) λ server. or_400-Keeps _ (
            Keeps-bind _ _ (bulk_create_accounts-Keeps frame refl _ _ plan server _)
              (λ _. Keeps-pure _)))
