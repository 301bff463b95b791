-- ===== src/Job/Timer.antt =====
-- src/job.cc: the timer of a job, for a throttled restart or a periodic start.
use relaunchd.Prelude.{◌+◌, ◌-◌, ◌*◌, ◌%◌, ◌^◌, none, some}
use relaunchd.Prelude.Exec.{Exec, ok, err, gets, ◌>>=◌, ◌>>◌, assertion_failed, runtime_error}
use relaunchd.Event.{TimerCallback, add_timer, delete_timer}
use relaunchd.Job.{Sys, Platform, on_job, on_events, current_time, start_time}

module _ {I J : Type 0} (p : Platform I J) where
  open p use {kernel}

  -- Job::startAfterThrottleInterval: the delay is a signed number of milliseconds that becomes a
  -- `uint64_t`
  unfoldable pub start_after_throttle_interval : Exec (Sys I J) Unit
  start_after_throttle_interval = do
    now ← current_time p
    started ← start_time p
    interval ← gets (λ s. s.job.manifest.throttle_interval)
    label ← gets (λ s. s.job.manifest.label.value)
    id ← on_events (
        add_timer kernel (((started + interval) * 1000 + 2 ^ 64 - now * 1000) % 2 ^ 64)
          (TimerCallback.restart_throttled label))
    on_job (λ j. record j { timer_id = some id })

  -- Job::schedulePeriodicJob: the interval is taken as milliseconds
  unfoldable pub schedule_periodic_job : Exec (Sys I J) Unit
  schedule_periodic_job s = elim s.job.timer_id [
    | some id ↦ (err assertion_failed, s)
    | none ↦ elim s.job.manifest.start_interval [
      | none ↦ (err runtime_error, s)
      | some interval ↦
          (on_events (
                add_timer kernel interval (TimerCallback.start_periodic s.job.manifest.label.value))
              >>= λ id. on_job (λ j. record j { timer_id = some id }))
            s
    ]
  ]

  -- Job::cancelTimer
  unfoldable pub cancel_timer : Exec (Sys I J) Unit
  unfolding delete_timer
  cancel_timer s = elim s.job.timer_id [
    | none ↦ (err runtime_error, s)
    | some id ↦ (on_events (delete_timer kernel id) >> on_job (λ j. record j { timer_id = none })) s
  ]

  -- `if (timer_id) { cancelTimer(); }`
  unfoldable pub cancel_any_timer : Exec (Sys I J) Unit
  unfolding cancel_timer
  cancel_any_timer s = elim s.job.timer_id [ none ↦ (ok tt, s) | some id ↦ cancel_timer s ]
