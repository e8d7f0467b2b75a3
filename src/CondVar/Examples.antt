-- ===== src/CondVar/Examples.antt =====
-- The work is done at once, and the signal comes before the wait.
use sp327_butt_k.Base.{◌≡◌, refl, true}
use sp327_butt_k.CondVar.{
  State, woken, init, enter, recheck, work, enters, rechecks, works, stay, more, Reach, started,
  steps, spurious, Ended,
}
use sp327_butt_k.CondVar.Wakeups.{lost_wakeup, passed_after_work}

abbrev early : State
early = work init

early-Reach : Reach early
early-Reach = steps started (works init refl)

lost_wakeup_example : ¬ Ended (enter early)
unfolding work
lost_wakeup_example = lost_wakeup {s = early} (more stay (enters early refl)) refl refl

-- With the wait first, and a wake-up for no reason before the signal, the thread passes.
abbrev late : State
late = recheck (work (recheck (record (enter init) { a = woken })))

passed_after_work_example : late.work_done ≡ true
unfolding enter recheck work
passed_after_work_example =
    passed_after_work
      (steps
        (steps (steps (spurious (steps started (enters init refl)) refl) (rechecks _ refl))
          (works _ refl))
        (rechecks _ refl))
      refl
