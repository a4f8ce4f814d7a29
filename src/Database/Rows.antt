-- ===== src/Database/Rows.antt =====
-- How each write ends: the tables after it, or the tables as they were and an exception.
use ssh_panel_vpn.Common.{ℕ, ◌≡◌, refl, ap, true, Option, some, ◌∷◌, inl, inr, Bool-cases}
use mathlib.Core.Path.{subst}
use ssh_panel_vpn.Common.Text.{Text}
use ssh_panel_vpn.Models.{Account, Action, Db}
use ssh_panel_vpn.Effects.{Env, World, ◌>>=◌, get_db, read_now, modify}
use ssh_panel_vpn.Effects.Outcome.{Ends, Outcome}
use ssh_panel_vpn.Database.{save_account, create_log, change_row, has_account}

abbrev pub HasDb : Db → World → Type 0
HasDb d w = w.db ≡ d

-- The database in which the row of id `i` went through `f` at the time `t`.
abbrev pub saved_db : ℕ → (Account → Account) → ℕ → Db → Db
saved_db i f t d = record d {
  accounts = change_row i (λ a. record (f a) { updated_at = t }) d.accounts;
}

abbrev pub logged_db : Action → ℕ → Option ℕ → Text → ℕ → Db → Db
logged_db action account admin_user text t d = record d {
  logs =
      record {
        action = action;
        account = some account;
        admin_user = admin_user;
        detail = text;
        created_at = t;
      }
      ∷ d.logs;
}

abbrev pub Saved : ℕ → (Account → Account) → Db → Db → Type 0
Saved i f d d' = (t : ℕ) × (has_account i d.accounts ≡ true) × (d' ≡ saved_db i f t d)

save_account-Ends :
    (i : ℕ) (f : Account → Account) (env : Env) (w : World)
    → Ends (λ _ w'. Saved i f w.db w'.db) (HasDb w.db) (save_account i f env w)
unfolding save_account read_now get_db modify ◌>>=◌
save_account-Ends i f env w = elim (Bool-cases (has_account i w.db.accounts)) [
  | inl found ↦ rw found (env.now w.trace, refl, refl)
  | inr gone ↦ rw gone refl
]

pub save_account-Outcome :
    (env : Env) (i : ℕ) (f : Account → Account) (d : Db)
    → Outcome env (HasDb d) (save_account i f) (λ _ w. Saved i f d w.db) (HasDb d)
save_account-Outcome env i f d = record {
  at = λ w p.
      subst (λ c. Ends (λ _ w'. Saved i f c w'.db) (HasDb c) (save_account i f env w)) p
        (save_account-Ends i f env w);
}

-- The row saved and an audit row written.
abbrev pub SavedAndLogged : ℕ → (Account → Account) → Action → Option ℕ → Text → Db → Db → Type 0
SavedAndLogged i f action admin_user text d d' =
    (t : ℕ) × (u : ℕ) × (has_account i d.accounts ≡ true)
    × (d' ≡ logged_db action i admin_user text u (saved_db i f t d))

pub create_log-Outcome :
    (env : Env) (i : ℕ) (f : Account → Account) (action : Action) (admin_user : Option ℕ)
    (text : Text) (d : Db) {E : World → Type 0}
    → Outcome env
        (λ w. Saved i f d w.db)
        (create_log action i admin_user text)
        (λ _ w. SavedAndLogged i f action admin_user text d w.db)
        E
unfolding create_log read_now modify ◌>>=◌
create_log-Outcome env i f action admin_user text d = record {
  at = λ w h.
      (h.0, env.now w.trace, h.1, ap (logged_db action i admin_user text (env.now w.trace)) h.2);
}

pub create_log_db :
    (env : Env) (i : ℕ) (action : Action) (admin_user : Option ℕ) (text : Text) (d : Db)
    {E : World → Type 0}
    → Outcome env
        (HasDb d)
        (create_log action i admin_user text)
        (λ _ w. (t : ℕ) × HasDb (logged_db action i admin_user text t d) w)
        E
unfolding create_log read_now modify ◌>>=◌
create_log_db env i action admin_user text d = record {
  at = λ w h. (env.now w.trace, ap (logged_db action i admin_user text (env.now w.trace)) h);
}
