-- ===== src/Api/Payment.antt =====
-- `PaymentWebhookView.post`.
pub mod Signature
use ssh_panel_vpn.Common.{Bool, ◌&&◌, ◌||◌, Option, none, some, [], ◌++◌, select}
use ssh_panel_vpn.Common.Text.{Text, codes, decimal, strip, text_eq}
use ssh_panel_vpn.Models.{Account, AccountStatus, Plan}
use ssh_panel_vpn.Models.Queries.{account_status_eq, first}
use ssh_panel_vpn.Effects.{Act, pure, ◌>>=◌, ◌>>◌, get_db}
use ssh_panel_vpn.Services.Create.{NewAccount, create_account}
use ssh_panel_vpn.Services.Lifecycle.{extend_account}
use ssh_panel_vpn.Api.Serializers.{Payment, PaymentStatus, payment_is_valid}
use ssh_panel_vpn.Api.Request.{
  User, Permission, guarded, require_valid, get_plan_or_404, Response, detail, account, or_400,
}

-- `filter(username=..., status__in=[ACTIVE, EXPIRED])`
abbrev pub renewable : Text → Account → Bool
renewable username a =
    text_eq a.username username
    && (account_status_eq a.status AccountStatus.active
        || account_status_eq a.status AccountStatus.expired)

-- `create_account(username=..., plan=...)`
unfoldable pub default_args : Text → Plan → NewAccount
default_args username plan = record {
  username = username;
  plan = plan;
  server = none;
  password = none;
  admin_user = none;
  note = [];
  duration_days = none;
  bandwidth_limit_gb = none;
  max_connections = none;
  protocol_type = none;
}

-- What a paid order does.
unfoldable pub renew_or_create : Text → Plan → Option Account → Act Response
unfolding default_args
renew_or_create username plan (some existing) = do
  extended ← extend_account existing plan.duration_days none
  pure (
      detail 200 (
        codes "Extended "
        ++ (extended.username ++ (codes " by " ++ (decimal plan.duration_days ++ codes "d.")))))
renew_or_create username plan none =
    or_400 do created ← create_account (default_args username plan); pure (account 201 created)

unfoldable pub fulfil : Payment → Act Response
fulfil payment = do
  plan ← get_plan_or_404 payment.plan_id
  db ← get_db
  renew_or_create payment.username plan (first (select (renewable payment.username) db.accounts))

-- `if data["status"] != "paid"`
unfoldable pub settle_payment : PaymentStatus → Payment → Act Response
settle_payment PaymentStatus.paid payment = fulfil payment
settle_payment _ payment = pure (detail 200 (codes "Payment not confirmed."))

unfoldable pub clean_payment : Payment → Payment
unfolding strip
clean_payment p = record p {
  order_id = strip p.order_id;
  username = strip p.username;
  signature = strip p.signature;
}

unfoldable pub payment_webhook : Option User → Payment → Act Response
unfolding settle_payment clean_payment
payment_webhook user body = guarded Permission.allow_any user do
  let payment = clean_payment body
  require_valid (payment_is_valid payment)
  settle_payment payment.status payment
