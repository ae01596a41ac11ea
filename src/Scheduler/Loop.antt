-- ===== src/Scheduler/Loop.antt =====
-- scheduler.c: `enter_scheduler`, which makes the scheduler thread of a CPU and then picks threads.
use yetanotheros.Common.{ℕ, ◌+◌, ◌%◌, ◌^◌, none, some, List, [], ◌∷◌, if◌then◌else◌, ltb}
use yetanotheros.Common.Outcome.{Outcome, ok, panic, ◌>>=◌}
use yetanotheros.Common.Store.{write}
use yetanotheros.Scheduler.State.{
  ThreadState, Thread, scheduler, new, ready, running, Sched, kernel_process, deref, put_thread,
  enqueue,
}
use yetanotheros.Scheduler.Process.{insert_thread, destroy_thread}

-- `x86_thread_construct_empty`, as far as the scheduler sees it
abbrev pub empty_thread : Thread
empty_thread = record {
  tid = 0;
  parent = kernel_process;
  state = new;
  collected_pid = 0;
  collected_status = 0;
  sleep_since = 0;
  sleep_until = 0;
  cond = none;
  sched_count = 0;
}

-- The start of `enter_scheduler`: the scheduler thread is inserted (which queues it), and only
-- then marked so that it will never be run.
unfoldable pub enter_scheduler : ℕ → ℕ → Sched → Outcome Sched
enter_scheduler t cpu s = do
  s1 ← insert_thread kernel_process t (put_thread s t empty_thread)
  th ← deref s1 t
  let s2 = put_thread s1 t (record th { state = scheduler })
  ok (record s2 { current = write s2.current cpu none })

-- `thread->sched_count++` and the switch: the thread runs on this CPU.
abbrev pub run_thread : ℕ → ℕ → Thread → Sched → Sched
run_thread cpu t th s =
    let s1 =
      put_thread s t (record th { sched_count = (th.sched_count + 1) % 2 ^ 32; state = running }) in
    record s1 { current = write s.current cpu (some t) }

-- What the loop does with the thread it has popped, by its state.
unfoldable pub dispatch_thread : ℕ → ℕ → Thread → ThreadState → Sched → Outcome Sched
dispatch_thread cpu t th ThreadState.exited s = destroy_thread t s
dispatch_thread cpu t th ThreadState.sleeping s =
    if ltb th.sleep_until s.ticks
    then ok (run_thread cpu t (record th { state = ready; sleep_since = 0; sleep_until = 0 }) s)
    else ok (enqueue s t)
dispatch_thread cpu t th ThreadState.ready s = ok (run_thread cpu t th s)
dispatch_thread cpu t th _ s = ok s

-- One round of the loop on a CPU that runs no thread.
unfoldable pub dispatch : ℕ → Sched → Outcome Sched
dispatch cpu s = elim s.queue [
  | [] ↦ ok s
  | t ∷ rest ↦
      let s1 = record s { queue = rest } in
      deref s1 t >>= λ th. dispatch_thread cpu t th th.state s1
]

-- `schedule_reset_perf_counters`, over the threads of one process and over all processes
unfoldable pub reset_threads : List ℕ → Sched → Outcome Sched
reset_threads [] s = ok s
reset_threads (t ∷ ts) s = elim (s.thread t) [
  | none ↦ panic
  | some th ↦ reset_threads ts (put_thread s t (record th { sched_count = 0 }))
]

unfoldable pub reset_procs : List ℕ → Sched → Outcome Sched
reset_procs [] s = ok s
reset_procs (p ∷ ps) s = reset_threads (s.proc p).threads s >>= λ s'. reset_procs ps s'

unfoldable pub schedule_reset_perf_counters : Sched → Outcome Sched
schedule_reset_perf_counters s = reset_procs s.processes s
