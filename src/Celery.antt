-- ===== src/Celery.antt =====
-- The beat schedule of sshvpn/celery.py. Celery's scheduler is an interface with what Celery documents
-- of `crontab` and of a schedule in seconds; time is the second since the epoch, in CELERY_TIMEZONE.
pub mod Rates
pub mod Expired
use ssh_panel_vpn.Common.{
  ℕ, zero, suc, ◌+◌, ◌/◌, ◌%◌, ◌<◌, Bool, true, ◌&&◌, ◌≡◌, List, [], ◌∷◌, ◌++◌, ◌==◌, if◌then◌else◌,
}
use ssh_panel_vpn.Common.Text.{Text, codes}
use ssh_panel_vpn.Connections.{Operation, expire, bandwidth, sessions, health, cleanup}

-- A field of `crontab`: `*`, `*/n` or a number.
pub data CronField : Type 0 where
  every_value : CronField
  every_nth exactly : ℕ → CronField

-- `crontab(minute=…, hour=…)`, where a field left out is `*`, or a number of seconds.
pub data Schedule : Type 0 where
  crontab : CronField → CronField → Schedule
  every_seconds : ℕ → Schedule

pub record Entry : Type 0 where
  pub name : Text
  pub task : Operation
  pub schedule : Schedule

-- `app.conf.beat_schedule`; `cleanup_expired_accounts` runs with its default of three days.
unfoldable pub beat_schedule : List Entry
beat_schedule =
    record {
      name = codes "expire-users-every-5-min";
      task = expire;
      schedule = crontab (every_nth 5) every_value;
    }
    ∷ record {
      name = codes "cleanup-deleted-accounts-daily";
      task = cleanup 3;
      schedule = crontab (exactly 0) (exactly 3);
    }
    ∷ record {
      name = codes "server-health-check-every-minute";
      task = health;
      schedule = crontab every_value every_value;
    }
    ∷ record {
      name = codes "sync-active-sessions-every-30-sec";
      task = sessions;
      schedule = every_seconds 30;
    }
    ∷ record {
      name = codes "sync-bandwidth-every-5-min";
      task = bandwidth;
      schedule = crontab (every_nth 5) every_value;
    }
    ∷ []

abbrev pub in_field : CronField → ℕ → Bool
in_field every_value v = true
in_field (every_nth n) v = v % n == 0
in_field (exactly n) v = v == n

-- Celery: a crontab is due at the start of each minute whose fields match, and a schedule of `k`
-- seconds every `k` seconds, counted from when beat first ran it.
pub record Scheduler : Type 0 where
  pub is_due : Schedule → ℕ → Bool
  pub phase : ℕ → ℕ
  pub crontab_due :
      (minute hour : CronField) (s : ℕ)
      → is_due (crontab minute hour) s
        ≡ (s % 60 == 0 && (in_field minute (s / 60 % 60) && in_field hour (s / 3600 % 24)))
  pub phase_below : (k : ℕ) → phase (suc k) < suc k
  pub seconds_due : (k s : ℕ) → is_due (every_seconds k) s ≡ (s % k == phase k)

module _ (scheduler : Scheduler) where
  unfoldable pub due_tasks : List Entry → ℕ → List Operation
  due_tasks [] s = []
  due_tasks (e ∷ entries) s =
      let rest = due_tasks entries s in
      if scheduler.is_due e.schedule s then e.task ∷ rest else rest

  -- The tasks that beat sends during `n` seconds from the second `s`.
  unfoldable pub sent_of : List Entry → ℕ → ℕ → List Operation
  unfolding due_tasks
  sent_of entries s zero = []
  sent_of entries s (suc n) = due_tasks entries s ++ sent_of entries (s + 1) n

  unfoldable pub sent : ℕ → ℕ → List Operation
  unfolding beat_schedule sent_of
  sent s n = sent_of beat_schedule s n
