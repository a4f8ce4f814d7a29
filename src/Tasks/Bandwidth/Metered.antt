-- ===== src/Tasks/Bandwidth/Metered.antt =====
-- Which accounts `sync_bandwidth_usage` suspends.
use ssh_panel_vpn.Common.{
  ℕ, ◌≡◌, ◌⊎◌, refl, sym, ap, ◌∙◌, Bool, true, false, ◌&&◌, List, [], ◌∷◌, select, All, ltb, arith,
  if◌then◌else◌, Bool-cases, inl, inr, and_true,
}
use mathlib.Core.Path.{subst}
use ssh_panel_vpn.Models.{Account, AccountStatus, Float, Server}
use ssh_panel_vpn.Models.Queries.{account_status_eq}
use ssh_panel_vpn.Effects.{Env, World, Manager, ◌>>=◌, get_db}
use ssh_panel_vpn.Effects.Keeps.{Keeps, Keeps-bind, Keeps-pure, Keeps-gets, Keeps-if}
use ssh_panel_vpn.Effects.Outcome.{Ends, Outcome, Outcome-pure, Outcome-bind, Outcome-attempt}
use ssh_panel_vpn.Database.{save_account}
use ssh_panel_vpn.Database.Related.{
  Related, IsRelated, Related-refl, save_account-Related, IsRemote-Related, HasOne,
}
use ssh_panel_vpn.Ssh.Kept.{
  lock_user-Keeps, setup_traffic_accounting-Keeps, get_user_bandwidth_bytes-Keeps,
}
use ssh_panel_vpn.Common.Text.{Text}
use ssh_panel_vpn.Ssh.Connection.{run}
use ssh_panel_vpn.Ssh.Users.{lock_user}
use ssh_panel_vpn.Ssh.Tables.{run-IsRemote, with_ssh-Keeps}
use ssh_panel_vpn.Services.Server.{is_active}
use ssh_panel_vpn.Services.Lifecycle.{set_status}
use ssh_panel_vpn.Tasks.Bandwidth.{
  over_limit, record_usage, enforce_limit, sync_account, sync_accounts, active_on, sync_with,
  sync_server, each_server, sync_bandwidth_usage,
}

-- An active account with a bandwidth limit.
abbrev pub is_metered : Account → Bool
is_metered a = account_status_eq a.status AccountStatus.active && ltb 0 a.bandwidth_limit_gb

-- The row with another usage and `updated_at`.
abbrev used : Float → ℕ → Account → Account
used x t a = record a { bandwidth_used_gb = x; updated_at = t }

abbrev stopped : Float → ℕ → Account → Account
stopped x t a = record a { status = AccountStatus.suspended; bandwidth_used_gb = x; updated_at = t }

abbrev halted : ℕ → Account → Account
halted t a = record a { status = AccountStatus.suspended; updated_at = t }

-- The usage and `updated_at` alone may differ; or, where a metered account of the start has the id,
-- the account is suspended too.
abbrev pub Metered : List Account → Account → Account → Type 0
Metered start a b =
    ((x : Float) × ((t : ℕ) × (b ≡ used x t a)))
    ⊎ (HasOne is_metered start a.id × ((x : Float) × ((t : ℕ) × (b ≡ stopped x t a))))

module _ (start : List Account) where
  abbrev Kept : World → Type 0
  Kept = IsRelated (Metered start) start

  used-Metered :
      (x : Float) (t : ℕ) (a b : Account) → Metered start a b → Metered start a (used x t b)
  used-Metered x t a b (inl (y, (u, e))) = inl (x, (t, ap (used x t) e))
  used-Metered x t a b (inr (h, (y, (u, e)))) = inr (h, (x, (t, ap (used x t) e)))

  same_id : (a b : Account) → Metered start a b → b.id ≡ a.id
  same_id a b (inl (y, (u, e))) = ap (λ c. c.id) e
  same_id a b (inr (h, (y, (u, e)))) = ap (λ c. c.id) e

  stop-Metered :
      (i : ℕ)
      → HasOne is_metered start i
      → (t : ℕ) (a b : Account) → b.id ≡ i
      → Metered start a b
      → Metered start a (record (set_status AccountStatus.suspended b) { updated_at = t })
  unfolding set_status
  stop-Metered i h t a b e (inl (y, (u, m))) =
      inr (subst (HasOne is_metered start) (sym e ∙ ap (λ c. c.id) m) h, (y, (t, ap (halted t) m)))
  stop-Metered i h t a b e (inr (g, (y, (u, m)))) = inr (g, (y, (t, ap (halted t) m)))

  record_usage-Kept : (acc : Account) (x : Float) → Keeps Kept (record_usage acc x)
  unfolding record_usage
  record_usage-Kept acc x = Keeps-bind _ _ (Keeps-gets _) (λ same.
      Keeps-if same _ _ (Keeps-pure tt)
        (save_account-Related (Metered start) start acc.id _ (λ t a b e h. used-Metered x t a b h)))

  -- An account that may be suspended.
  abbrev MayStop : Account → Type 0
  MayStop acc = ltb 0 acc.bandwidth_limit_gb ≡ true → HasOne is_metered start acc.id

  run-Kept : (ssh : Manager) (c : Text) → Keeps Kept (run ssh c)
  run-Kept ssh c = IsRemote-Related (Metered start) start (run ssh c) (run-IsRemote ssh c)

  stop-Kept :
      (ssh : Manager) (acc : Account)
      → HasOne is_metered start acc.id
      → Keeps Kept (
          lock_user ssh acc.username >>= λ _.
          save_account acc.id (set_status AccountStatus.suspended))
  stop-Kept ssh acc h = Keeps-bind _ _ (lock_user-Keeps run-Kept ssh acc.username) (λ _.
      save_account-Related (Metered start) start acc.id (set_status AccountStatus.suspended)
        (stop-Metered acc.id h))

  limited : (env : Env) (n : ℕ) (x : Float) → over_limit env n x ≡ true → ltb 0 n ≡ true
  unfolding over_limit
  limited env n x h = (and_true _ _ h).0

  enforce_limit-Kept :
      (ssh : Manager) (acc : Account) (x : Float)
      → MayStop acc
      → Keeps Kept (enforce_limit ssh acc x)
  unfolding enforce_limit ◌>>=◌
  enforce_limit-Kept ssh acc x may = record {
    at = λ env w h. elim (Bool-cases (over_limit env acc.bandwidth_limit_gb x)) [
      | inl over ↦
          rw over ((stop-Kept ssh acc (may (limited env acc.bandwidth_limit_gb x over))).at env w h)
      | inr under ↦ rw under h
    ];
  }

  sync_account-Kept :
      (ssh : Manager) (acc : Account) → MayStop acc → Keeps Kept (sync_account ssh acc)
  unfolding sync_account
  sync_account-Kept ssh acc may =
      Keeps-bind _ _ (setup_traffic_accounting-Keeps run-Kept ssh _) λ _.
        Keeps-bind _ _ (get_user_bandwidth_bytes-Keeps run-Kept ssh _) λ n.
          Keeps-bind _ _ (Keeps-gets _)
            λ x. Keeps-bind _ _ (record_usage-Kept acc x) λ _. enforce_limit-Kept ssh acc x may

  sync_accounts-Kept :
      (ssh : Manager) (l : List Account) → All MayStop l → Keeps Kept (sync_accounts ssh l)
  unfolding sync_accounts
  sync_accounts-Kept ssh [] h = Keeps-pure tt
  sync_accounts-Kept ssh (acc ∷ l) h =
      Keeps-bind _ _ (sync_account-Kept ssh acc h.0) (λ _. sync_accounts-Kept ssh l h.1)

  sync_with-Kept : (srv : Server) (l : List Account) → All MayStop l → Keeps Kept (sync_with srv l)
  unfolding sync_with
  sync_with-Kept srv [] h = Keeps-pure tt
  sync_with-Kept srv (acc ∷ l) h =
      with_ssh-Keeps (λ d _. Related (Metered start) start d.accounts) srv _
        (λ ssh. sync_accounts-Kept ssh (acc ∷ l) h)

  -- A metered row has the id of a metered account of the start.
  abbrev FromMetered : Account → Type 0
  FromMetered b = is_metered b ≡ true → HasOne is_metered start b.id

  Metered-FromMetered : (a b : Account) → FromMetered a → Metered start a b → FromMetered b
  Metered-FromMetered a b from (inl (x, (t, e))) m =
      subst (HasOne is_metered start) (sym (ap (λ c. c.id) e)) (from (sym (ap is_metered e) ∙ m))
  Metered-FromMetered a b from (inr (h, (x, (t, e)))) m =
      subst (HasOne is_metered start) (sym (ap (λ c. c.id) e)) h

  Related-FromMetered :
      (l m : List Account) → All FromMetered l → Related (Metered start) l m → All FromMetered m
  Related-FromMetered [] [] f h = tt
  Related-FromMetered [] (b ∷ m) f h = elim h [ ]
  Related-FromMetered (a ∷ l) [] f h = elim h [ ]
  Related-FromMetered (a ∷ l) (b ∷ m) f h =
      (Metered-FromMetered a b f.0 h.0, Related-FromMetered l m f.1 h.1)

  All-MayStop_if :
      (chosen : Bool) (a : Account) (l : List Account)
      → (chosen ≡ true → MayStop a)
      → All MayStop l
      → All MayStop (if chosen then a ∷ l else l)
  All-MayStop_if true a l m h = (m refl, h)
  All-MayStop_if false a l m h = h

  select-MayStop :
      (srv : Server) (l : List Account) → All FromMetered l → All MayStop (select (active_on srv) l)
  select-MayStop srv [] h = tt
  select-MayStop srv (a ∷ l) h =
      All-MayStop_if (active_on srv a) a (select (active_on srv) l)
        (λ chosen positive. h.0 (both (and_true _ _ chosen).1 positive)) (select-MayStop srv l h.1)
    where
      both : {x y : Bool} → x ≡ true → y ≡ true → (x && y) ≡ true
      both p q = ground (arith, p, q)

  sync_server-Kept : (srv : Server) → All FromMetered start → Keeps Kept (sync_server srv)
  unfolding sync_server get_db ◌>>=◌
  sync_server-Kept srv f = record {
    at = λ env w h.
        (sync_with-Kept srv (select (active_on srv) w.db.accounts)
            (select-MayStop srv w.db.accounts (Related-FromMetered start w.db.accounts f h))).at
          env w h;
  }

  each_server-Outcome :
      (env : Env) (l : List Server)
      → All FromMetered start
      → Outcome env Kept (each_server sync_server l) (λ _. Kept) (λ _. ⊥)
  unfolding each_server
  each_server-Outcome env [] f = Outcome-pure tt (λ w h. h)
  each_server-Outcome env (srv ∷ l) f =
      Outcome-bind (Outcome-attempt (sync_server srv) (sync_server-Kept srv f))
        (λ _. each_server-Outcome env l f)

-- Every metered account of a list has its id in it.
weaken-FromMetered :
    (c : Account) (l m : List Account) → All (FromMetered l) m → All (FromMetered (c ∷ l)) m
weaken-FromMetered c l [] h = tt
weaken-FromMetered c l (a ∷ m) h = (λ q. ground (arith, h.0 q), weaken-FromMetered c l m h.1)

self-FromMetered : (l : List Account) → All (FromMetered l) l
self-FromMetered [] = tt
self-FromMetered (c ∷ l) = (λ q. ground (arith, q), weaken-FromMetered c l l (self-FromMetered l))

-- Whatever the nodes answer, `sync_bandwidth_usage` returns, adds and removes no account, and writes
-- of each row at most the usage and `updated_at`; or also the status, which becomes suspended, and
-- that only where an account of the row's id was active with a bandwidth limit above 0 at the start.
pub sync_bandwidth_usage-Metered :
    (env : Env) (w : World)
    → Ends
        (λ _ w'. Related (Metered w.db.accounts) w.db.accounts w'.db.accounts)
        (λ _. ⊥)
        (sync_bandwidth_usage env w)
unfolding sync_bandwidth_usage get_db ◌>>=◌
sync_bandwidth_usage-Metered env w =
    (each_server-Outcome w.db.accounts env (select is_active w.db.servers)
        (self-FromMetered w.db.accounts)).at
      w
      (Related-refl (Metered w.db.accounts) (λ a. inl (a.bandwidth_used_gb, (a.updated_at, refl)))
        w.db.accounts)
