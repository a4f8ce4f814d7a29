-- ===== src/Celery/Expired.antt =====
-- What the schedule of beat and `expire_users` make of expired accounts together.
use ssh_panel_vpn.Common.{
  ℕ, zero, suc, ◌+◌, ◌≡◌, refl, ap, true, false, not, List, [], ◌∷◌, ◌++◌, All, select, every,
  length, arith, Bool-cases, inl, inr,
}
use ssh_panel_vpn.Models.{AccountStatus}
use ssh_panel_vpn.Effects.{Env, World}
use ssh_panel_vpn.Effects.Keeps.{Keeps, Keeps-bind, Keeps-pure, Keeps-attempt}
use ssh_panel_vpn.Effects.Outcome.{Ends}
use ssh_panel_vpn.Ssh.Up.{IsUp}
use ssh_panel_vpn.Tasks.Expiry.{past, expire_users}
use ssh_panel_vpn.Tasks.Expiry.Complete.{expire_users_complete}
use ssh_panel_vpn.Connections.{
  Operation, create, bulk_create, delete, suspend, activate, reset, renew, expire, bandwidth,
  sessions, health, cleanup, check, rebalance, perform_all,
}
use ssh_panel_vpn.Connections.Permits.{permit, perform-Keeps}
use ssh_panel_vpn.Connections.Linked.{IsLinked, IsLinked-Frame, IsLinked-HasServers}
use ssh_panel_vpn.Celery.{Scheduler, Entry, beat_schedule, due_tasks, sent_of, sent}
use ssh_panel_vpn.Celery.Rates.{is_expire, count, sent_rates}

-- The call adds and moves no account.
abbrev Stays : Operation → Type 0
Stays op = ((permit op).adds ≡ false) × ((permit op).moves ≡ false)

abbrev Linked : World → Type 0
Linked w = IsLinked w.db

perform_all-Linked : (ops : List Operation) → All Stays ops → Keeps Linked (perform_all ops)
unfolding perform_all
perform_all-Linked [] stay = Keeps-pure tt
perform_all-Linked (op ∷ ops) ((adds, moves), stay) =
    Keeps-bind _ _ (Keeps-attempt _ (perform-Keeps op (IsLinked-Frame (permit op) adds moves)))
      (λ _. perform_all-Linked ops stay)

All-append : (xs ys : List Operation) → All Stays xs → All Stays ys → All Stays (xs ++ ys)
All-append [] ys all_xs all_ys = all_ys
All-append (x ∷ xs) ys (first, rest) all_ys = (first, All-append xs ys rest all_ys)

module _ (scheduler : Scheduler) where
  due_tasks-Stays :
      (entries : List Entry) (s : ℕ)
      → All (λ (e : Entry). Stays e.task) entries
      → All Stays (due_tasks scheduler entries s)
  unfolding due_tasks
  due_tasks-Stays [] s stay = tt
  due_tasks-Stays (e ∷ entries) s (first, stay) =
      elim (Bool-cases (scheduler.is_due e.schedule s)) [
        | inl due ↦ rw due (first, due_tasks-Stays entries s stay)
        | inr later ↦ rw later (due_tasks-Stays entries s stay)
      ]

  sent_of-Stays :
      (entries : List Entry) (s n : ℕ)
      → All (λ (e : Entry). Stays e.task) entries
      → All Stays (sent_of scheduler entries s n)
  unfolding sent_of
  sent_of-Stays entries s zero stay = tt
  sent_of-Stays entries s (suc n) stay =
      All-append (due_tasks scheduler entries s) _ (due_tasks-Stays entries s stay)
        (sent_of-Stays entries (s + 1) n stay)

  sent-Stays : (s n : ℕ) → All Stays (sent scheduler s n)
  unfolding sent beat_schedule
  sent-Stays s n =
      sent_of-Stays beat_schedule s n
        ((refl, refl), ((refl, refl), ((refl, refl), ((refl, refl), ((refl, refl), tt)))))

is_expire-expire : (op : Operation) → is_expire op ≡ true → op ≡ expire
is_expire-expire expire e = refl
is_expire-expire (create args) e = absurd (cc)
is_expire-expire (bulk_create prefix n plan server user) e = absurd (cc)
is_expire-expire (delete a user) e = absurd (cc)
is_expire-expire (suspend a user) e = absurd (cc)
is_expire-expire (activate a user) e = absurd (cc)
is_expire-expire (reset a user) e = absurd (cc)
is_expire-expire (renew a days user) e = absurd (cc)
is_expire-expire bandwidth e = absurd (cc)
is_expire-expire sessions e = absurd (cc)
is_expire-expire health e = absurd (cc)
is_expire-expire (cleanup days) e = absurd (cc)
is_expire-expire (check server) e = absurd (cc)
is_expire-expire (rebalance server) e = absurd (cc)

-- A list in which `expire` is counted once, cut where it stands.
split_expire :
    (ops : List Operation)
    → count is_expire ops ≡ 1
    → All Stays ops
    → (before : List Operation) × (after : List Operation) × (ops ≡ before ++ expire ∷ after)
      × All Stays before
split_expire [] once stay = absurd (omega (arith, once))
split_expire (op ∷ ops) once (first, stay) = elim (Bool-cases (is_expire op)) [
  | inl found ↦ ([], ops, ap (λ x. x ∷ ops) (is_expire-expire op found), tt)
  | inr other ↦
      let (before, after, cut, steady) = split_expire ops (rw other at once) stay in
      (op ∷ before, after, ap (λ l. op ∷ l) cut, (first, steady))
]

-- In this world `expire_users` returns, and leaves no active account that is past its date.
abbrev pub ExpiresAll : Env → World → Type 0
ExpiresAll env w =
    let due = past AccountStatus.active (env.now w.trace) in
    Ends
      (λ n w'.
        (n ≡ length (select due w.db.accounts)) × (every (λ b. not (due b)) w'.db.accounts ≡ true))
      (λ _. ⊥) (expire_users env w)

-- Where every node answers and each account's server is there, from whatever second on: among the tasks
-- that beat sends within five minutes is expire_users, and where the tasks run in that order, the tasks
-- before it leave a world in which it returns, counts the active accounts that are past their expiry date
-- at that moment, and leaves none of them active.
pub expired_within_five_minutes :
    (scheduler : Scheduler) (s : ℕ) (env : Env) (w : World)
    → IsUp env
    → IsLinked w.db
    → (before : List Operation) × (after : List Operation) × (sent scheduler s 300
        ≡ before ++ expire ∷ after)
      × ExpiresAll env (perform_all before env w).1
expired_within_five_minutes scheduler s env w up linked =
    let (before, after, cut, stay) =
      split_expire (sent scheduler s 300) (sent_rates scheduler s).0 (sent-Stays scheduler s 300) in
    let w1 = (perform_all before env w).1 in
    let servers = IsLinked-HasServers w1.db ((perform_all-Linked before stay).at env w linked) in
    (before, after, cut, expire_users_complete env w1 up servers)
