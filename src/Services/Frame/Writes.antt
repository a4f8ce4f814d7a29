-- ===== src/Services/Frame/Writes.antt =====
-- The writes of the services and tasks keep the identity and the server of a row.
use ssh_panel_vpn.Common.{ℕ, ◌≡◌, refl, true, inl, inr}
use ssh_panel_vpn.Common.Text.{Text}
use ssh_panel_vpn.Models.{Account, AccountStatus, Float}
use ssh_panel_vpn.Database.Permit.{
  Permit, SameIdentity, SameTerms, Writes, password_column, expiry_column, usage_column,
}
use ssh_panel_vpn.Services.Lifecycle.{set_status}

same : (a : Account) → SameIdentity a a
same a = (refl, refl, refl, refl, refl, refl, refl)

terms : (a : Account) → SameTerms a a
terms a = (refl, refl, refl, refl)

module _ {may : Permit} where
  pub set_status-Writes :
      (s : AccountStatus)
      → may.sets s ≡ true
      → (t : ℕ) → Writes may (λ a. record (set_status s a) { updated_at = t })
  unfolding set_status
  set_status-Writes s permitted t a = record {
    touches = inl (s, permitted);
    same_terms = terms a;
    password_set = inl refl;
    expiry_set = inl refl;
    usage_set = inl refl;
    identity = same a;
    same_server = refl;
    status_set = inr permitted;
  }

  -- The write of `SSHAccount.extend`.
  pub extended-Writes :
      (date : ℕ)
      → may.sets AccountStatus.active ≡ true
      → may.edits expiry_column ≡ true
      → (t : ℕ)
      → Writes may
          (λ a. record a { expire_date = date; status = AccountStatus.active; updated_at = t })
  extended-Writes date permitted dated t a = record {
    touches = inl (AccountStatus.active, permitted);
    same_terms = terms a;
    password_set = inl refl;
    expiry_set = inr dated;
    usage_set = inl refl;
    identity = same a;
    same_server = refl;
    status_set = inr permitted;
  }

  pub password-Writes :
      (new_pw : Text)
      → may.edits password_column ≡ true
      → (t : ℕ) → Writes may (λ a. record a { password_display = new_pw; updated_at = t })
  password-Writes new_pw keyed t a = record {
    touches = inr (password_column, keyed);
    same_terms = terms a;
    password_set = inr keyed;
    expiry_set = inl refl;
    usage_set = inl refl;
    identity = same a;
    same_server = refl;
    status_set = inl refl;
  }

  pub usage-Writes :
      (used : Float)
      → may.edits usage_column ≡ true
      → (t : ℕ) → Writes may (λ a. record a { bandwidth_used_gb = used; updated_at = t })
  usage-Writes used metered t a = record {
    touches = inr (usage_column, metered);
    same_terms = terms a;
    password_set = inl refl;
    expiry_set = inl refl;
    usage_set = inr metered;
    identity = same a;
    same_server = refl;
    status_set = inl refl;
  }
