-- ===== src/CondVar/Wakeups.antt =====
-- Which signals reach `workerA`.
use sp327_butt_k.Base.{◌≡◌, ◌≢◌, refl, true, inl, inr, Bool-cases}
use sp327_butt_k.CondVar.{
  entering, woken, passed, signalled, State, enter, recheck, work, Step, enters, rechecks, works,
  Steps, stay, more, Reach, started, steps, spurious, Ended,
}

-- The signal is past, and `workerA` has not been woken.
record Lost (s : State) : Type 0 where
  past : s.b ≡ signalled
  not_woken : s.a ≢ woken
  not_passed : s.a ≢ passed

Step-Lost : {s t : State} → Step s t → Lost s → Lost t
unfolding enter recheck work
Step-Lost (enters s e) l = record { past = l.past; not_woken = λ f. cc; not_passed = λ f. cc }
Step-Lost (rechecks s e) l = absurd (l.not_woken e)
Step-Lost (works s e) l = let never = l.past in cc

Steps-Lost : {s t : State} → Steps s t → Lost s → Lost t
Steps-Lost stay l = l
Steps-Lost (more path step) l = Step-Lost step (Steps-Lost path l)

-- A wake-up is lost: if `workerB` has signalled before `workerA` takes the mutex, then without a
-- spurious wake-up the program never ends, since `workerA` waits without looking at the flag.
pub lost_wakeup : {s t : State} → Steps s t → s.a ≡ entering → s.b ≡ signalled → ¬ Ended t
unfolding Ended
lost_wakeup path enters_later past (a_passed, b_signalled) =
    let l = Steps-Lost path (record { past = past; not_woken = λ e. cc; not_passed = λ e. cc }) in
    l.not_passed a_passed

-- `workerA` passes only after the work of `workerB`, whatever wakes it.
pub passed_after_work : {s : State} → Reach s → s.a ≡ passed → s.work_done ≡ true
unfolding enter recheck work
passed_after_work started e = cc
passed_after_work (steps r (enters s f)) e = cc
passed_after_work (steps r (rechecks s f)) e = elim (Bool-cases s.work_done) [
  | inl finished ↦ finished
  | inr unfinished ↦ cc
]
passed_after_work (steps r (works s f)) e = refl
passed_after_work (spurious r f) e = cc
