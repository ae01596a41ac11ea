-- ===== src/Scheduler/Steps.antt =====
-- The scheduler as a step relation: any CPU may take any of the critical sections next, the clock
-- may tick, and new threads may be allocated. What holds in every reachable state.
use yetanotheros.Common.{ℕ, ◌+◌, ◌%◌, ◌^◌, ◌≡◌, refl, Option, none, some}
use yetanotheros.Common.Outcome.{ok}
use yetanotheros.Scheduler.State.{Thread, Proc, new, Sched, put_thread, init_global_scheduler}
use yetanotheros.Scheduler.Process.{schedule_proc, schedule_thread}
use yetanotheros.Scheduler.Threads.{
  thread_yield, thread_exit, thread_sleep, sched_thread_wait, sched_thread_resume,
  sched_thread_notify_one, proc_exit, proc_wait,
}
use yetanotheros.Scheduler.Loop.{enter_scheduler, dispatch, schedule_reset_perf_counters}
use yetanotheros.Scheduler.Invariant.{IsSound, IsSound-change}
use yetanotheros.Scheduler.Calls.{
  thread_yield-IsSound, thread_exit-IsSound, thread_sleep-IsSound, sched_thread_wait-IsSound,
  sched_thread_resume-IsSound, proc_exit-IsSound, proc_wait-IsSound,
}
use yetanotheros.Scheduler.Rounds.{
  dispatch-IsSound, schedule_proc-IsSound, schedule_thread-IsSound, enter_scheduler-IsSound,
}
use yetanotheros.Scheduler.Notify.{
  sched_thread_notify_one-IsSound, schedule_reset_perf_counters-IsSound,
}

pub data Step : Sched → Sched → Type 0 where
  tick : (s : Sched) → Step s (record s { ticks = (s.ticks + 1) % 2 ^ 64 })
  allocate :
      (t : ℕ) (th : Thread) (s : Sched)
      → s.thread t ≡ none
      → th.state ≡ new
      → Step s (put_thread s t th)
  enter :
      (t cpu : ℕ) {s s' : Sched} → s.thread t ≡ none → enter_scheduler t cpu s ≡ ok s' → Step s s'
  round : (cpu : ℕ) {s s' : Sched} → s.current cpu ≡ none → dispatch cpu s ≡ ok s' → Step s s'
  yield : (cpu : ℕ) {s s' : Sched} → thread_yield cpu s ≡ ok s' → Step s s'
  exit : (cpu : ℕ) {s s' : Sched} → thread_exit cpu s ≡ ok s' → Step s s'
  sleep : (ms cpu : ℕ) {s s' : Sched} → thread_sleep ms cpu s ≡ ok s' → Step s s'
  wait : (c cpu : ℕ) {s s' : Sched} → sched_thread_wait c cpu s ≡ ok s' → Step s s'
  resume : (c cpu : ℕ) {s s' : Sched} → sched_thread_resume c cpu s ≡ ok s' → Step s s'
  notify : (c : ℕ) {s s' : Sched} → sched_thread_notify_one c s ≡ ok s' → Step s s'
  quit : (status cpu : ℕ) {s s' : Sched} → proc_exit status cpu s ≡ ok s' → Step s s'
  collect : (cpu : ℕ) {s s' : Sched} {r : Option (ℕ × ℕ)} → proc_wait cpu s ≡ ok (s', r) → Step s s'
  start_proc :
      (parent : Option ℕ) (p t : ℕ) (th : Thread) {s : Sched} {r : Sched × ℕ}
      → s.thread t ≡ some th
      → th.state ≡ new
      → schedule_proc parent p t s ≡ ok r
      → Step s r.0
  start_thread :
      (pid t : ℕ) (th : Thread) {s : Sched} {r : Sched × ℕ}
      → s.thread t ≡ some th
      → th.state ≡ new
      → schedule_thread pid t s ≡ ok r
      → Step s r.0
  reset : {s s' : Sched} → schedule_reset_perf_counters s ≡ ok s' → Step s s'

pub data Reach (start : Sched) : Sched → Type 0 where
  here : Reach start start
  next : {s s' : Sched} → Reach start s → Step s s' → Reach start s'

Step-IsSound : {s s' : Sched} → Step s s' → IsSound s → IsSound s'
Step-IsSound (tick s) i = i
Step-IsSound (allocate t th s free is_new) i =
    IsSound-change i t (some th) s.queue (rw is_new (rw free at (i.queued t))) (λ u h. refl)
      (λ r. rw free at r)
Step-IsSound (enter t cpu {s} {s'} free e) i = enter_scheduler-IsSound t cpu s s' i free e
Step-IsSound (round cpu {s} {s'} idle e) i = dispatch-IsSound cpu s s' i e
Step-IsSound (yield cpu {s} {s'} e) i = thread_yield-IsSound cpu s {s' = s'} i e
Step-IsSound (exit cpu {s} {s'} e) i = thread_exit-IsSound cpu s {s' = s'} i e
Step-IsSound (sleep ms cpu {s} {s'} e) i = thread_sleep-IsSound ms cpu s {s' = s'} i e
Step-IsSound (wait c cpu {s} {s'} e) i = sched_thread_wait-IsSound c cpu s {s' = s'} i e
Step-IsSound (resume c cpu {s} {s'} e) i = sched_thread_resume-IsSound c cpu s {s' = s'} i e
Step-IsSound (notify c {s} {s'} e) i = sched_thread_notify_one-IsSound c s s' i e
Step-IsSound (quit status cpu {s} {s'} e) i = proc_exit-IsSound status cpu s {s' = s'} i e
Step-IsSound (collect cpu {s} {s'} {r} e) i = proc_wait-IsSound cpu s {s' = s'} {r = r} i e
Step-IsSound (start_proc parent p t th {s} {r} there is_new e) i =
    schedule_proc-IsSound parent p t th s r i there is_new e
Step-IsSound (start_thread pid t th {s} {r} there is_new e) i =
    schedule_thread-IsSound pid t th s r i there is_new e
Step-IsSound (reset {s} {s'} e) i = schedule_reset_perf_counters-IsSound s s' i e

init-IsSound : (procs : ℕ → Proc) (now : ℕ) → IsSound (init_global_scheduler procs now)
unfolding init_global_scheduler
init-IsSound procs now = record {
  queued = λ t. refl;
  owned = λ cpu t e. cc;
  single = λ c d t e f. cc;
}

-- In every state that the scheduler can reach from `init_global_scheduler`, every READY, SLEEPING
-- or EXITED thread stands in the thread queue exactly once, a scheduler thread at most once and any
-- other thread never; a CPU's current thread is RUNNING, and no thread is current on two CPUs.
pub Reach-IsSound :
    (procs : ℕ → Proc) (now : ℕ) {s : Sched} → Reach (init_global_scheduler procs now) s → IsSound s
Reach-IsSound procs now here = init-IsSound procs now
Reach-IsSound procs now (next r st) = Step-IsSound st (Reach-IsSound procs now r)
