-- ===== src/Api/Routes/Changes.antt =====
-- What the parts of the update of an account, the payment webhook and the switches of a server keep.
use ssh_panel_vpn.Common.{ℕ, refl, Option, none, some}
use ssh_panel_vpn.Common.Text.{Text}
use ssh_panel_vpn.Models.{Account, Plan, ServerStatus}
use ssh_panel_vpn.Effects.{World, attempt, ◌>>=◌, Manager, dispatched}
use ssh_panel_vpn.Effects.Keeps.{
  Keeps, Keeps-bind, Keeps-pure, Keeps-attempt, keeps_rules, get_db-Keeps,
}
use ssh_panel_vpn.Database.Steady.{read_now-Steady, save_server-Steady, server_of-Steady}
use ssh_panel_vpn.Services.Frame.{Frame, create_account-Keeps, add_days-Keeps}
use ssh_panel_vpn.Services.Frame.Lifecycle.{extend_account-Keeps}
use ssh_panel_vpn.Ssh.Connection.{with_ssh}
use ssh_panel_vpn.Database.{server_of}
use ssh_panel_vpn.Ssh.Kept.{set_expiry-Keeps, set_max_logins-Keeps}
use ssh_panel_vpn.Api.Serializers.{UpdateRequest, Payment, PaymentStatus}
use ssh_panel_vpn.Api.Request.{User}
use ssh_panel_vpn.Api.Update.{new_expiry, push_update}
use ssh_panel_vpn.Api.Payment.{renew_or_create, fulfil, settle_payment, payment_webhook}
use ssh_panel_vpn.Api.Servers.{write_status, server_set_status}
use ssh_panel_vpn.Api.Nodes.{dispatch_check, server_health_check}
use ssh_panel_vpn.Api.Routes.Views.{
  everything, guarded-Keeps, require_valid-Keeps, get_plan_or_404-Keeps, get_server_or_404-Keeps,
  or_400-Keeps,
}

module _ {P Q : World → Type 0} (frame : Frame everything P Q) where
  pub new_expiry-Keeps : (a : Account) (o : Option ℕ) → Keeps Q (new_expiry a o)
  unfolding new_expiry
  new_expiry-Keeps a none = Keeps-pure _
  new_expiry-Keeps a (some days) =
      Keeps-bind _ _ (read_now-Steady frame.outside) (λ now. add_days-Keeps frame now days)

  push_update-Keeps :
      (body : UpdateRequest) (a : Account) (ssh : Manager) → Keeps P (push_update body a ssh)
  unfolding push_update
  push_update-Keeps body a ssh =
      search (keeps_rules, set_expiry-Keeps frame.run_inside, set_max_logins-Keeps frame.run_inside)
        depth 8

  -- What the view does on the node once the row is saved.
  pub push_saved-Keeps :
      (body : UpdateRequest) (saved : Account)
      → Keeps Q (attempt (do server ← server_of saved; with_ssh server (push_update body saved)))
  push_saved-Keeps body saved = Keeps-attempt _ (
      Keeps-bind _ _ (server_of-Steady frame.outside saved)
        (λ server. frame.bracket server _ (push_update-Keeps body saved)))

  renew_or_create-Keeps :
      (username : Text) (plan : Plan) (o : Option Account)
      → Keeps Q (renew_or_create username plan o)
  unfolding renew_or_create
  renew_or_create-Keeps username plan (some existing) =
      Keeps-bind _ _ (extend_account-Keeps frame refl refl existing _ none) (λ a. Keeps-pure _)
  renew_or_create-Keeps username plan none =
      or_400-Keeps frame _ (Keeps-bind _ _ (create_account-Keeps frame refl _) (λ a. Keeps-pure _))

  settle_payment-Keeps :
      (s : PaymentStatus) (payment : Payment) → Keeps Q (settle_payment s payment)
  unfolding settle_payment fulfil
  settle_payment-Keeps PaymentStatus.paid payment =
      Keeps-bind _ _ (get_plan_or_404-Keeps frame _)
        λ plan. Keeps-bind _ _ get_db-Keeps λ db. renew_or_create-Keeps _ plan _
  settle_payment-Keeps _ payment = Keeps-pure _

  pub payment_webhook-Keeps :
      (user : Option User) (body : Payment) → Keeps Q (payment_webhook user body)
  unfolding payment_webhook
  payment_webhook-Keeps user body =
      guarded-Keeps frame _ user _
        (Keeps-bind _ _ (require_valid-Keeps frame _) (λ _. settle_payment-Keeps _ _))

  write_status-Keeps : (pk : ℕ) (t : Text) (o : Option ServerStatus) → Keeps Q (write_status pk t o)
  unfolding write_status
  write_status-Keeps pk t none = Keeps-pure _
  write_status-Keeps pk t (some s) =
      Keeps-bind _ _ (read_now-Steady frame.outside) λ now.
        Keeps-bind _ _ (save_server-Steady frame.outside pk _ (λ s e. refl)) λ _. Keeps-pure _

  pub server_set_status-Keeps :
      (user : Option User) (pk : ℕ) (o : Option Text) → Keeps Q (server_set_status user pk o)
  unfolding server_set_status
  server_set_status-Keeps user pk o =
      guarded-Keeps frame _ user _
        (Keeps-bind _ _ (get_server_or_404-Keeps frame pk) (λ server. write_status-Keeps _ _ _))

  dispatch_check-Keeps : (i : ℕ) → Keeps Q (dispatch_check i)
  unfolding dispatch_check
  dispatch_check-Keeps i = record {
    at = λ env w h. frame.outside.with_event w (dispatched i) refl h;
  }

  pub server_health_check-Keeps :
      (user : Option User) (pk : ℕ) → Keeps Q (server_health_check user pk)
  unfolding server_health_check
  server_health_check-Keeps user pk = guarded-Keeps frame _ user _ (
      Keeps-bind _ _ (get_server_or_404-Keeps frame pk)
        λ server. Keeps-bind _ _ (dispatch_check-Keeps _) λ _. Keeps-pure _)
