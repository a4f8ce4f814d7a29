-- ===== src/Api/Payment/Signature.antt =====
-- What the webhook reads of a payment.
use ssh_panel_vpn.Common.{◌≡◌, refl, ◌∙◌, ap, Bool, true, false, Option, inl, inr, ◌⊎◌}
use ssh_panel_vpn.Common.Text.{Text, strip, is_empty}
use ssh_panel_vpn.Effects.{Env, World, ◌>>=◌}
use ssh_panel_vpn.Api.Serializers.{Payment, PaymentStatus, payment_is_valid}
use ssh_panel_vpn.Api.Request.{User, guarded, require_valid, permits}
use ssh_panel_vpn.Api.Payment.{payment_webhook, clean_payment, settle_payment, fulfil}

-- The payment with another signature.
abbrev pub signed : Payment → Text → Payment
signed p s = record p { signature = s }

settle_payment-signed :
    (status : PaymentStatus) (p : Payment) (s : Text)
    → settle_payment status (clean_payment p) ≡ settle_payment status (clean_payment (signed p s))
unfolding settle_payment clean_payment fulfil
settle_payment-signed PaymentStatus.paid p s = refl
settle_payment-signed _ p s = refl

payment_is_valid-signed :
    (p : Payment) (s : Text)
    → is_empty (strip p.signature) ≡ is_empty (strip s)
    → payment_is_valid (clean_payment p) ≡ payment_is_valid (clean_payment (signed p s))
unfolding payment_is_valid clean_payment
payment_is_valid-signed p s h = rw h refl

-- Without the status `paid` nothing is written.
unpaid_kept :
    (status : PaymentStatus) (valid : Bool) (p : Payment) (env : Env) (w : World)
    → (status ≡ PaymentStatus.paid)
      ⊎ (((require_valid valid >>= λ _. settle_payment status p) env w).1 ≡ w)
unfolding require_valid settle_payment ◌>>=◌
unpaid_kept PaymentStatus.paid valid p env w = inl refl
unpaid_kept PaymentStatus.failed true p env w = inr refl
unpaid_kept PaymentStatus.failed false p env w = inr refl
unpaid_kept PaymentStatus.pending true p env w = inr refl
unpaid_kept PaymentStatus.pending false p env w = inr refl

-- `payment_webhook` does the same whoever calls it and whatever the signature says, as long as both
-- signatures are blank or neither is; and it changes nothing unless the status is `paid`.
pub payment_webhook-signed :
    (user user' : Option User) (p : Payment) (s : Text) (env : Env) (w : World)
    → is_empty (strip p.signature) ≡ is_empty (strip s)
    → (payment_webhook user p env w ≡ payment_webhook user' (signed p s) env w)
      × ((p.status ≡ PaymentStatus.paid) ⊎ ((payment_webhook user p env w).1 ≡ w))
unfolding payment_webhook guarded permits
payment_webhook-signed user user' p s env w h = (
  ap (λ b. (require_valid b >>= λ _. settle_payment p.status (clean_payment p)) env w)
        (payment_is_valid-signed p s h)
      ∙ ap (λ m. (require_valid (payment_is_valid (clean_payment (signed p s))) >>= λ _. m) env w)
          (settle_payment-signed p.status p s),
  unpaid_kept p.status (payment_is_valid (clean_payment p)) (clean_payment p) env w,
)
