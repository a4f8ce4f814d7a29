-- ===== src/Tasks/Expiry/Due.antt =====
-- Which accounts the two tasks touch, and that they always return.
use ssh_panel_vpn.Common.{
  ℕ, ◌+◌, ◌*◌, ◌≤◌, ◌&&◌, leb, ◌≡◌, ◌⊎◌, refl, ap, sym, Bool, true, false, if◌then◌else◌, Option,
  none, List, [], ◌∷◌, length, select, All, arith, inl, inr, ◌∙◌,
}
use mathlib.Core.Path.{subst}
use ssh_panel_vpn.Models.{Account, AccountStatus, Action}
use ssh_panel_vpn.Models.Queries.{account_status_eq}
use ssh_panel_vpn.Models.Time.{day}
use ssh_panel_vpn.Effects.{
  Env, World, Result, ok, err, Act, raise, overflow_error, read_clock, ◌>>=◌, read_now, get_db,
}
use ssh_panel_vpn.Effects.Keeps.{Keeps, Keeps-bind, IsRemote}
use ssh_panel_vpn.Database.{save_account, create_log}
use ssh_panel_vpn.Effects.Outcome.{
  Ends, Ends-weaken, Outcome-attempt, Outcome, Outcome-pure, Outcome-bind, Outcome_weaken,
}
use ssh_panel_vpn.Database.Related.{
  Related, IsRelated, Related-refl, save_account-Related, create_log-Related, IsRemote-Related,
  HasOne, select-HasOne,
}
use ssh_panel_vpn.Ssh.Kept.{lock_user-Keeps, delete_user-Keeps}
use ssh_panel_vpn.Ssh.Tables.{run-IsRemote, with_ssh-IsRemote, deregister_token-IsRemote}
use ssh_panel_vpn.Ssh.Users.{delete_user}
use ssh_panel_vpn.ShadowLink.{deregister_token}
use ssh_panel_vpn.Services.Lifecycle.{delete_account, set_status}
use ssh_panel_vpn.Services.Lifecycle.Status.{server_of-IsRemote, remote_change-IsRemote}
use ssh_panel_vpn.Tasks.Expiry.{
  has_cutoff, tally, count_rounds, expire_one, expire_users, cleanup_expired_accounts,
}

-- The row is as it was, or an account that was due at the start has its id, and the status and
-- `updated_at` alone were written.
abbrev pub Moves : (Account → Bool) → AccountStatus → List Account → Account → Account → Type 0
Moves due status start a b =
    (b ≡ a)
    ⊎ (HasOne due start a.id × ((t : ℕ) × (b ≡ record a { status = status; updated_at = t })))

abbrev written : AccountStatus → ℕ → Account → Account
written status t b = record b { status = status; updated_at = t }

Moves-set_status :
    (due : Account → Bool) (status : AccountStatus) (start : List Account) (i : ℕ)
    → HasOne due start i
    → (t : ℕ) (a b : Account) → b.id ≡ i
    → Moves due status start a b
    → Moves due status start a (record (set_status status b) { updated_at = t })
unfolding set_status
Moves-set_status due status start i h t a b e (inl same) =
    inr (subst (HasOne due start) (sym e ∙ ap (λ x. x.id) same) h, (t, ap (written status t) same))
Moves-set_status due status start i h t a b e (inr (g, (u, moved))) =
    inr (g, (t, ap (written status t) moved))

tally_le : (r : Result (Unit {0})) (n : ℕ) → tally r n ≤ n + 1
tally_le (ok _) n = omega arith
tally_le (err _) n = omega arith

module _ (P : World → Type 0) (env : Env) where
  -- The loop keeps what each round keeps, returns whatever a round raises, and counts no more rounds
  -- than it made.
  pub count_rounds-Outcome :
      (body : Account → Act (Unit {0})) (accounts : List Account) (n : ℕ)
      → All (λ acc. Keeps P (body acc)) accounts
      → Outcome env P
          (count_rounds body accounts n)
          (λ c w. P w × (c ≤ n + length accounts))
          (λ _. ⊥)
  unfolding count_rounds
  count_rounds-Outcome body [] n k = Outcome-pure n (λ w h. (h, omega arith))
  count_rounds-Outcome body (acc ∷ accounts) n k =
      Outcome-bind (Outcome-attempt (body acc) k.0) (λ r.
        Outcome_weaken (λ c w h. (h.0, omega (arith, h.1, tally_le r n))) (λ w h. h)
          (count_rounds-Outcome body accounts (tally r n) k.1))

module _ (due : Account → Bool) (status : AccountStatus) where
  -- Every row is as it was or was due and got the status.
  abbrev pub AllMove : List Account → List Account → Type 0
  AllMove start = Related (Moves due status start) start

  All-Keeps :
      (start : List Account) (body : Account → Act (Unit {0})) (l : List Account)
      → ((acc : Account)
          → HasOne due start acc.id
          → Keeps (IsRelated (Moves due status start) start) (body acc))
      → All (λ a. HasOne due start a.id × (due a ≡ true)) l
      → All (λ acc. Keeps (IsRelated (Moves due status start) start) (body acc)) l
  All-Keeps start body [] k h = tt
  All-Keeps start body (acc ∷ l) k h = (k acc h.0.0, All-Keeps start body l k h.1)

  pub rounds-AllMove :
      (start : List Account) (body : Account → Act (Unit {0})) (env : Env) (w : World)
      → ((acc : Account)
          → HasOne due start acc.id
          → Keeps (IsRelated (Moves due status start) start) (body acc))
      → start ≡ w.db.accounts
      → Ends
          (λ c w'. AllMove start w'.db.accounts × (c ≤ length (select due start)))
          (λ _. ⊥)
          (count_rounds body (select due start) 0 env w)
  rounds-AllMove start body env w k e =
      Ends-weaken {A = ℕ}
        {Q = λ c w'. AllMove start w'.db.accounts × (c ≤ 0 + length (select due start))}
        {R = λ c w'. AllMove start w'.db.accounts × (c ≤ length (select due start))} {E = λ _. ⊥}
        {F = λ _. ⊥} (λ c w' h. (h.0, omega (arith, h.1))) (λ w' h. h)
        (count_rounds body (select due start) 0 env w)
        ((count_rounds-Outcome (IsRelated (Moves due status start) start) env body
            (select due start) 0
            (All-Keeps start body (select due start) k (select-HasOne due start))).at
          w (subst (AllMove start) e (Related-refl (Moves due status start) (λ a. inl refl) start)))

expire_one-Keeps :
    (due : Account → Bool) (start : List Account) (acc : Account)
    → HasOne due start acc.id
    → Keeps (IsRelated (Moves due AccountStatus.expired start) start) (expire_one acc)
unfolding expire_one
expire_one-Keeps due start acc h =
    let R = Moves due AccountStatus.expired start in
    Keeps-bind _ _ (IsRemote-Related R start _ (server_of-IsRemote acc)) (λ server.
      Keeps-bind _ _
        (IsRemote-Related R start _ (
          with_ssh-IsRemote server _
            (λ ssh d n. lock_user-Keeps (λ m c. run-IsRemote m c d n) ssh acc.username)))
        (λ _.
          save_account-Related R start acc.id (set_status AccountStatus.expired)
            (Moves-set_status due AccountStatus.expired start acc.id h)))

-- A change on the node, the status, and the audit row.
pub change-Keeps :
    (due : Account → Bool) (status : AccountStatus) (start : List Account) (acc : Account)
    → HasOne due start acc.id
    → (change : Act (Unit {0})) (action : Action) (user : Option ℕ) → IsRemote change
    → Keeps (IsRelated (Moves due status start) start) (
        change >>= λ _.
        save_account acc.id (set_status status) >>= λ _. create_log action acc.id user [])
change-Keeps due status start acc h change action user remote =
    let R = Moves due status start in
    Keeps-bind _ _ (IsRemote-Related R start _ remote) (λ _.
      Keeps-bind _ _
        (save_account-Related R start acc.id (set_status status)
          (Moves-set_status due status start acc.id h))
        (λ _. create_log-Related R start action acc.id user []))

pub delete_account-Keeps :
    (due : Account → Bool) (start : List Account) (user : Option ℕ) (acc : Account)
    → HasOne due start acc.id
    → Keeps (IsRelated (Moves due AccountStatus.deleted start) start) (delete_account acc user)
unfolding delete_account
delete_account-Keeps due start user acc h =
    change-Keeps due AccountStatus.deleted start acc h _ Action.delete user (
      remote_change-IsRemote deregister_token delete_user (λ s t. deregister_token-IsRemote s t)
        (λ ssh u d n. delete_user-Keeps (λ m c. run-IsRemote m c d n) ssh u) acc)

-- What a task with this cutoff leaves: it returns, whatever the nodes answer; each row is as it was,
-- or an account that was due at the start has its id and its status and `updated_at` were written;
-- and the number it returns is at most the number of due accounts.
abbrev pub OnlyDue : (Account → Bool) → AccountStatus → World → Result ℕ × World → Type 0
OnlyDue due status w =
    Ends
      (λ c w'.
        AllMove due status w.db.accounts w'.db.accounts × (c ≤ length (select due w.db.accounts)))
      (λ _. ⊥)

-- The date that lies the days before now is one of Python's, which begin with the year 1, 719162 days
-- before 1970, and the days make a duration.
abbrev pub in_calendar : ℕ → ℕ → Bool
in_calendar days now = leb days 999999999 && leb (days * day) (now + 719162 * day)

-- Active and past its date, and expired for the days at least.
abbrev pub overdue : ℕ → Account → Bool
overdue now a = account_status_eq a.status AccountStatus.active && leb a.expire_date now

abbrev pub lapsed : ℕ → ℕ → Account → Bool
lapsed days now a =
    account_status_eq a.status AccountStatus.expired && leb (a.expire_date + days * day) now

-- What the cleanup with this grace period leaves: where the cutoff is a date, as above; otherwise, and
-- only then, it raises and the database is as it was.
abbrev pub CleansUp : ℕ → ℕ → World → Result ℕ × World → Type 0
CleansUp grace_days now w =
    Ends
      (λ c w'.
        (in_calendar grace_days now ≡ true)
        × AllMove (lapsed grace_days now) AccountStatus.deleted w.db.accounts w'.db.accounts
        × (c ≤ length (select (lapsed grace_days now) w.db.accounts)))
      (λ w'. (in_calendar grace_days now ≡ false) × (w'.db ≡ w.db))

cleanup-CleansUp :
    (grace_days : ℕ) (env : Env) (w : World)
    → CleansUp grace_days (env.now w.trace) w (cleanup_expired_accounts grace_days env w)
unfolding has_cutoff cleanup_expired_accounts read_now get_db raise ◌>>=◌
cleanup-CleansUp grace_days env w = by_cutoff (in_calendar grace_days (env.now w.trace)) refl
  where
    due : Account → Bool
    due = lapsed grace_days (env.now w.trace)

    loop : Act ℕ
    loop = count_rounds (λ acc. delete_account acc none) (select due w.db.accounts) 0

    by_cutoff :
        (b : Bool)
        → in_calendar grace_days (env.now w.trace) ≡ b
        → CleansUp grace_days (env.now w.trace) w (
            (if b
                then (get_db >>= λ db.
                    count_rounds (λ acc. delete_account acc none) (select due db.accounts) 0)
                else raise overflow_error)
              env
              (record w { trace = read_clock ∷ w.trace }))
    by_cutoff true there =
        Ends-weaken (λ c w' h. (there, h.0, h.1)) (λ w' h. elim h [ ]) (loop env _)
          (rounds-AllMove due AccountStatus.deleted w.db.accounts (λ acc. delete_account acc none)
            env _ (delete_account-Keeps due w.db.accounts none) refl)
    by_cutoff false far = (far, refl)

-- Whatever the nodes and the bridge are, `expire_users` returns, and it writes only accounts that were
-- active with an expiry date not after now, and makes them expired. `cleanup_expired_accounts` writes
-- only accounts that were expired with an expiry date that lies the grace days or more before now, and
-- makes them deleted; it returns if the date that lies the grace days before now is in the calendar,
-- and otherwise raises and writes nothing. In each, a row whose id no due account has stays as it was,
-- the fields other than the status and `updated_at` stay, no account is added or removed, and the
-- count returned is at most the number of due accounts.
pub expiry_tasks-OnlyDue :
    (grace_days : ℕ) (env : Env) (w : World)
    → OnlyDue (overdue (env.now w.trace)) AccountStatus.expired w (expire_users env w)
      × CleansUp grace_days (env.now w.trace) w (cleanup_expired_accounts grace_days env w)
unfolding expire_users read_now get_db ◌>>=◌
expiry_tasks-OnlyDue grace_days env w = (
  rounds-AllMove _ _ w.db.accounts expire_one env _ (expire_one-Keeps _ w.db.accounts) refl,
  cleanup-CleansUp grace_days env w,
)
