-- ===== src/Celery/Rates.antt =====
-- How often beat sends each task.
use ssh_panel_vpn.Common.{
  ℕ, zero, suc, ◌+◌, ◌-◌, ◌/◌, ◌%◌, ◌<◌, Bool, true, false, ◌&&◌, ◌≡◌, refl, ◌∙◌, sym, ap, List, [],
  ◌∷◌, ◌++◌, ◌==◌, arith, if◌then◌else◌,
}
use ssh_panel_vpn.Connections.{Operation, expire, bandwidth, sessions, health, cleanup}
use ssh_panel_vpn.Celery.{
  Scheduler, crontab, every_seconds, every_nth, every_value, exactly, beat_schedule, Entry,
  due_tasks, sent_of, sent,
}

abbrev pub is_expire : Operation → Bool
is_expire expire = true
is_expire _ = false

abbrev pub is_bandwidth : Operation → Bool
is_bandwidth bandwidth = true
is_bandwidth _ = false

abbrev pub is_health : Operation → Bool
is_health health = true
is_health _ = false

abbrev pub is_sessions : Operation → Bool
is_sessions sessions = true
is_sessions _ = false

abbrev pub is_cleanup : Operation → Bool
is_cleanup (cleanup days) = true
is_cleanup _ = false

abbrev pub count : (Operation → Bool) → List Operation → ℕ
count p [] = 0
count p (op ∷ ops) = if p op then 1 + count p ops else count p ops

abbrev one_if : Bool → ℕ
one_if b = if b then 1 else 0

count-append :
    (p : Operation → Bool) (xs ys : List Operation) → count p (xs ++ ys) ≡ count p xs + count p ys
count-append p [] ys = omega arith
count-append p (x ∷ xs) ys = ground (arith, count-append p xs ys)

-- The seconds of a range at which a test holds.
hits : (ℕ → Bool) → ℕ → ℕ → ℕ
hits f s zero = 0
hits f s (suc n) = one_if (f s) + hits f (s + 1) n

five_minutes : (s : ℕ) → (s % 60 == 0 && (s / 60 % 60 % 5 == 0 && true)) ≡ (s % 300 == 0)
five_minutes s = ground arith

each_minute : (s : ℕ) → (s % 60 == 0 && (true && true)) ≡ (s % 60 == 0)
each_minute s = ground arith

at_three :
    (s : ℕ) → (s % 60 == 0 && (s / 60 % 60 == 0 && s / 3600 % 24 == 3)) ≡ (s % 86400 == 10800)
at_three s = ground arith

-- A counter that goes up by one exactly where the test holds counts the hits.
hits_counter :
    (f : ℕ → Bool) (g : ℕ → ℕ)
    → ((s : ℕ) → g (s + 1) ≡ g s + one_if (f s))
    → (s n : ℕ) → hits f s n + g s ≡ g (s + n)
unfolding hits
hits_counter f g step s zero =
    let same : g (s + 0) ≡ g s = ap g (omega arith) in omega (arith, same)
hits_counter f g step s (suc n) =
    let first = step s in
    let rest = hits_counter f g step (s + 1) n in
    let same : g (s + 1 + n) ≡ g (s + suc n) = ap g (omega arith) in
    omega (arith, first, rest, same)

hits-five_minutes : (s n : ℕ) → hits (λ t. t % 300 == 0) s n + (s + 299) / 300 ≡ (s + n + 299) / 300
hits-five_minutes = hits_counter (λ t. t % 300 == 0) (λ t. (t + 299) / 300) (λ s. ground arith)

hits-minute : (s n : ℕ) → hits (λ t. t % 60 == 0) s n + (s + 59) / 60 ≡ (s + n + 59) / 60
hits-minute = hits_counter (λ t. t % 60 == 0) (λ t. (t + 59) / 60) (λ s. ground arith)

hits-day :
    (s n : ℕ) → hits (λ t. t % 86400 == 10800) s n + (s + 75599) / 86400 ≡ (s + n + 75599) / 86400
hits-day = hits_counter (λ t. t % 86400 == 10800) (λ t. (t + 75599) / 86400) (λ s. ground arith)

hits-half_minute :
    (r : ℕ)
    → r < 30
    → (s n : ℕ) → hits (λ t. t % 30 == r) s n + (s + (29 - r)) / 30 ≡ (s + n + (29 - r)) / 30
hits-half_minute r below =
    hits_counter (λ t. t % 30 == r) (λ t. (t + (29 - r)) / 30) (λ s. ground (arith, below))

hits_same : (f g : ℕ → Bool) → ((s : ℕ) → f s ≡ g s) → (s n : ℕ) → hits f s n ≡ hits g s n
unfolding hits
hits_same f g same s zero = refl
hits_same f g same s (suc n) = rw (same s, hits_same f g same (s + 1) n) refl

module _ (scheduler : Scheduler) (p : Operation → Bool) where
  -- The counted tasks of a schedule that are due in a second, and in a range of seconds.
  counted_due : List Entry → ℕ → ℕ
  counted_due [] s = 0
  counted_due (e ∷ entries) s =
      let rest = counted_due entries s in
      if p e.task then one_if (scheduler.is_due e.schedule s) + rest else rest

  counted : List Entry → ℕ → ℕ → ℕ
  unfolding hits
  counted [] s n = 0
  counted (e ∷ entries) s n =
      let rest = counted entries s n in
      if p e.task then hits (scheduler.is_due e.schedule) s n + rest else rest

  count-due_tasks :
      (entries : List Entry) (s : ℕ)
      → count p (due_tasks scheduler entries s) ≡ counted_due entries s
  unfolding due_tasks counted_due
  count-due_tasks [] s = refl
  count-due_tasks (e ∷ entries) s = ground (arith, count-due_tasks entries s)

  counted_none : (entries : List Entry) (s : ℕ) → counted entries s 0 ≡ 0
  unfolding counted
  counted_none [] s = refl
  counted_none (e ∷ entries) s = ground (arith, counted_none entries s)

  counted_more :
      (entries : List Entry) (s n : ℕ)
      → counted entries s (suc n) ≡ counted_due entries s + counted entries (s + 1) n
  unfolding counted counted_due
  counted_more [] s n = refl
  counted_more (e ∷ entries) s n = ground (arith, counted_more entries s n)

  count-sent_of :
      (entries : List Entry) (s n : ℕ)
      → count p (sent_of scheduler entries s n) ≡ counted entries s n
  unfolding sent_of
  count-sent_of entries s zero = sym (counted_none entries s)
  count-sent_of entries s (suc n) =
      let here = count-due_tasks entries s in
      let later = count-sent_of entries (s + 1) n in
      let more = counted_more entries s n in
      let both =
        count-append p (due_tasks scheduler entries s) (sent_of scheduler entries (s + 1) n) in
      omega (arith, here, later, more, both)

module _ (scheduler : Scheduler) where
  expire_hits : (s n : ℕ) → count is_expire (sent scheduler s n) ≡ hits (λ t. t % 300 == 0) s n
  unfolding sent counted beat_schedule
  expire_hits s n =
      let all = count-sent_of scheduler is_expire beat_schedule s n in
      let same =
        hits_same (scheduler.is_due (crontab (every_nth 5) every_value)) (λ t. t % 300 == 0)
          (λ t. scheduler.crontab_due (every_nth 5) every_value t ∙ five_minutes t) s n in
      omega (arith, all, same)

  bandwidth_hits :
      (s n : ℕ) → count is_bandwidth (sent scheduler s n) ≡ hits (λ t. t % 300 == 0) s n
  unfolding sent counted beat_schedule
  bandwidth_hits s n =
      let all = count-sent_of scheduler is_bandwidth beat_schedule s n in
      let same =
        hits_same (scheduler.is_due (crontab (every_nth 5) every_value)) (λ t. t % 300 == 0)
          (λ t. scheduler.crontab_due (every_nth 5) every_value t ∙ five_minutes t) s n in
      omega (arith, all, same)

  health_hits : (s n : ℕ) → count is_health (sent scheduler s n) ≡ hits (λ t. t % 60 == 0) s n
  unfolding sent counted beat_schedule
  health_hits s n =
      let all = count-sent_of scheduler is_health beat_schedule s n in
      let same =
        hits_same (scheduler.is_due (crontab every_value every_value)) (λ t. t % 60 == 0)
          (λ t. scheduler.crontab_due every_value every_value t ∙ each_minute t) s n in
      omega (arith, all, same)

  sessions_hits :
      (s n : ℕ)
      → count is_sessions (sent scheduler s n) ≡ hits (λ t. t % 30 == scheduler.phase 30) s n
  unfolding sent counted beat_schedule
  sessions_hits s n =
      let all = count-sent_of scheduler is_sessions beat_schedule s n in
      let same =
        hits_same (scheduler.is_due (every_seconds 30)) (λ t. t % 30 == scheduler.phase 30)
          (λ t. scheduler.seconds_due 30 t) s n in
      omega (arith, all, same)

  cleanup_hits :
      (s n : ℕ) → count is_cleanup (sent scheduler s n) ≡ hits (λ t. t % 86400 == 10800) s n
  unfolding sent counted beat_schedule
  cleanup_hits s n =
      let all = count-sent_of scheduler is_cleanup beat_schedule s n in
      let same =
        hits_same (scheduler.is_due (crontab (exactly 0) (exactly 3))) (λ t. t % 86400 == 10800)
          (λ t. scheduler.crontab_due (exactly 0) (exactly 3) t ∙ at_three t) s n in
      omega (arith, all, same)

  -- From any second on beat sends `expire_users` and `sync_bandwidth_usage` once in five minutes,
  -- `check_all_servers_health` five times and `sync_active_sessions` ten times, and
  -- `cleanup_expired_accounts` once in a day.
  pub sent_rates :
      (s : ℕ)
      → (count is_expire (sent scheduler s 300) ≡ 1)
        × (count is_bandwidth (sent scheduler s 300) ≡ 1)
        × (count is_health (sent scheduler s 300) ≡ 5)
        × (count is_sessions (sent scheduler s 300) ≡ 10)
        × (count is_cleanup (sent scheduler s 86400) ≡ 1)
  sent_rates s =
      let e = expire_hits s 300 in
      let b = bandwidth_hits s 300 in
      let h = health_hits s 300 in
      let a = sessions_hits s 300 in
      let c = cleanup_hits s 86400 in
      let five = hits-five_minutes s 300 in
      let minute = hits-minute s 300 in
      let half = hits-half_minute (scheduler.phase 30) (scheduler.phase_below 29) s 300 in
      let day = hits-day s 86400 in
      (
        omega (arith, e, five),
        omega (arith, b, five),
        omega (arith, h, minute),
        omega (arith, a, half),
        omega (arith, c, day),
      )
