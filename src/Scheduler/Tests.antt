-- ===== src/Scheduler/Tests.antt =====
-- The scheduler at small tables, and its theorems there.
use yetanotheros.Common.{
  ℕ, ◌+◌, ◌≡◌, ◌⊎◌, ◌*◌, ◌<◌, ◌≤◌, refl, none, some, List, [], ◌∷◌, ◌++◌, ◌==◌, if◌then◌else◌,
  arith, Has,
}
use yetanotheros.Common.Outcome.{Outcome, ok, panic}
use yetanotheros.Common.Store.{write}
use yetanotheros.Scheduler.State.{
  ThreadState, Thread, blocked, exited, running, Proc, proc_ready, proc_defunct, proc_truncate,
  Sched, put_thread, put_proc, init_global_scheduler, remove, is_empty,
}
use yetanotheros.Scheduler.Process.{
  insert_thread, collect_process, make_process_defunct, destroy_thread, sheduler_get_proc,
  schedule_thread,
}
use yetanotheros.Scheduler.Threads.{
  thread_sleep, sched_thread_notify_one, proc_wait, notify_procs, notify_threads, find_defunct,
}
use yetanotheros.Scheduler.Loop.{dispatch, dispatch_thread, empty_thread}
use yetanotheros.Scheduler.Invariant.{IsSound}
use yetanotheros.Scheduler.Steps.{allocate, start_thread, round, Reach, here, next, Reach-IsSound}
use yetanotheros.Scheduler.Order.{dispatch-Extends, thread_sleep-dispatch}
use yetanotheros.Scheduler.Wakeups.{
  WakesOneOf, ThreadOf, BlockedOn, sched_thread_notify_one-cases, proc_wait-collects,
}

abbrev result : {A : Type 0} → Outcome A → A → A
result (ok a) d = a
result panic d = d

abbrev no_proc : Proc
no_proc = record { pid = 99; parent = 0; state = proc_ready; exit_status = 0; threads = [] }

abbrev boot : Sched
boot = init_global_scheduler (λ _. no_proc) 7

-- A kernel thread at address 5 is allocated, scheduled in the kernel process, and run by CPU 0.
abbrev allocated : Sched
allocated = put_thread boot 5 empty_thread

abbrev scheduled : Sched × ℕ
scheduled = result (schedule_thread 0 5 allocated) (allocated, 0)

abbrev started : Sched
started = result (dispatch 0 scheduled.0) boot

started-Reach : Reach boot started
unfolding init_global_scheduler schedule_thread sheduler_get_proc insert_thread dispatch
    dispatch_thread write
started-Reach =
    next
      (next (next here (allocate 5 empty_thread boot refl refl))
        (start_thread 0 5 empty_thread {s = allocated} {r = scheduled} refl refl refl))
      (round 0 {s = scheduled.0} {s' = started} refl refl)

started_runs : started.current 0 ≡ some 5
unfolding init_global_scheduler schedule_thread sheduler_get_proc insert_thread dispatch
    dispatch_thread write
started_runs = refl

Reach-IsSound_example : IsSound started
Reach-IsSound_example = Reach-IsSound (λ _. no_proc) 7 started-Reach

-- Process 0 has threads 1 (running on CPU 0), 2 (blocked on condition 40) and 3 (exited).
abbrev thread_in : ThreadState → ℕ → Thread
thread_in st p = record empty_thread { state = st; parent = p; cond = some 40 }

abbrev procs : ℕ → Proc
procs p =
    if p == 0
    then record { pid = 0; parent = 0; state = proc_ready; exit_status = 0; threads = 1 ∷ 2 ∷ [] }
    else if p == 1
    then record { pid = 1; parent = 0; state = proc_defunct; exit_status = 6; threads = [] }
    else record { pid = 2; parent = 0; state = proc_ready; exit_status = 8; threads = 3 ∷ [] }

abbrev busy : Sched
busy = record {
  thread = λ t.
      if t == 1
      then some (thread_in running 0)
      else if t == 2
      then some (thread_in blocked 0)
      else if t == 3
      then some (thread_in exited 2)
      else none;
  proc = procs;
  processes = 0 ∷ 1 ∷ 2 ∷ [];
  queue = 3 ∷ [];
  next_pid = 3;
  next_tid = 4;
  num_waiting = λ _. 0;
  ticks = 100;
  current = λ c. if c == 0 then some 1 else none;
}

dispatch-Extends_example : (tail : List ℕ) × ((result (dispatch 1 busy) busy).queue ≡ [] ++ tail)
unfolding dispatch dispatch_thread destroy_thread make_process_defunct write remove is_empty
    collect_process
dispatch-Extends_example = dispatch-Extends 1 3 [] busy (result (dispatch 1 busy) busy) refl refl

-- Thread 1 sleeps for 2 ms at tick 100; thread 3 is out of the way.
abbrev quiet : Sched
quiet = record busy { queue = [] }

abbrev asleep : Sched
asleep = result (thread_sleep 2 0 quiet) quiet

abbrev later : Sched
later = record asleep { ticks = 121 }

thread_sleep-dispatch_example :
    (100 + 2 * 10 < 121
      → ((result (dispatch 1 later) later).current 1 ≡ some 1)
        × ((result (dispatch 1 later) later).queue ≡ []))
    × (121 ≤ 100 + 2 * 10
        → ((result (dispatch 1 later) later).current 1 ≡ later.current 1)
          × ((result (dispatch 1 later) later).queue ≡ [] ++ (1 ∷ [])))
unfolding dispatch dispatch_thread thread_sleep write
thread_sleep-dispatch_example =
    thread_sleep-dispatch 2 0 1 1 [] quiet asleep later (result (dispatch 1 later) later) refl refl
      (omega arith) (omega arith) refl refl refl

notified : Sched
unfolding sched_thread_notify_one notify_procs notify_threads write
notified = result (sched_thread_notify_one 40 busy) busy

notified_queue : notified.queue ≡ 2 ∷ 3 ∷ []
unfolding notified
notified_queue = refl

sched_thread_notify_one-cases_example :
    WakesOneOf 40 busy notified (ThreadOf busy busy.processes)
    ⊎ ((notified ≡ busy) × ((t : ℕ) → ThreadOf busy busy.processes t → ¬ BlockedOn 40 busy t))
unfolding notified
sched_thread_notify_one-cases_example = sched_thread_notify_one-cases 40 busy notified refl

abbrev collected : Sched
collected =
    put_proc busy 1
      (record { pid = 1; parent = 0; state = proc_truncate; exit_status = 6; threads = [] })

proc_wait-collects_example :
    (p : ℕ) × Has p (0 ∷ 1 ∷ 2 ∷ [])
    × ((procs p).parent ≡ 0)
    × ((procs p).state ≡ proc_defunct)
    × (1 ≡ (procs p).pid)
    × (6 ≡ (procs p).exit_status)
    × (collected ≡ put_proc busy p (record (procs p) { state = proc_truncate }))
unfolding proc_wait find_defunct collect_process
proc_wait-collects_example =
    proc_wait-collects 0 1 (thread_in running 0) busy collected 1 6 refl refl refl
