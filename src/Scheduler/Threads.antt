-- ===== src/Scheduler/Threads.antt =====
-- scheduler.c: what a running thread may ask for. Each call is one critical section of the global
-- scheduler lock; where the C function switches to the scheduler in its middle, it is two
-- definitions, the part before the switch and the part after the thread is resumed.
use yetanotheros.Common.{
  ℕ, ◌+◌, ◌-◌, ◌*◌, ◌%◌, ◌^◌, Bool, true, false, Option, none, some, List, [], ◌∷◌, ◌==◌,
  if◌then◌else◌, ◌&&◌,
}
use yetanotheros.Common.Outcome.{Outcome, ok, panic, ◌>>=◌}
use yetanotheros.Common.Store.{write}
use yetanotheros.Scheduler.State.{
  ThreadState, ready, waiting, blocked, sleeping, exited, ProcState, proc_exiting, Sched, deref,
  put_thread, put_proc, enqueue,
}
use yetanotheros.Scheduler.Process.{collect_process}

-- `get_current_thread()->…`: a null current thread cannot be followed.
abbrev pub current_thread : ℕ → Sched → Outcome ℕ
current_thread cpu s = elim (s.current cpu) [ none ↦ panic | some t ↦ ok t ]

abbrev pub is_running : ThreadState → Bool
is_running ThreadState.running = true
is_running _ = false

-- `state != THREAD_BLOCKED && state != THREAD_WAITING`
abbrev pub is_queued_again : ThreadState → Bool
is_queued_again ThreadState.blocked = false
is_queued_again ThreadState.waiting = false
is_queued_again _ = true

-- `reschedule`, up to the scheduler's `cpu->thread = NULL` after the switch.
unfoldable pub reschedule : ℕ → Sched → Outcome Sched
reschedule cpu s = do
  t ← current_thread cpu s
  th ← deref s t
  let s1 = if is_queued_again th.state then enqueue s t else s
  if is_running th.state then panic else ok (record s1 { current = write s.current cpu none })

-- `thread_yield`
unfoldable pub thread_yield : ℕ → Sched → Outcome Sched
unfolding reschedule
thread_yield cpu s = do
  t ← current_thread cpu s
  th ← deref s t
  reschedule cpu (put_thread s t (record th { state = ready }))

-- `thread_exit`
unfoldable pub thread_exit : ℕ → Sched → Outcome Sched
unfolding reschedule
thread_exit cpu s = do
  t ← current_thread cpu s
  th ← deref s t
  reschedule cpu (put_thread s t (record th { state = exited }))

-- `thread_sleep`: the product is an `unsigned int`, the sum a 64-bit tick count.
unfoldable pub thread_sleep : ℕ → ℕ → Sched → Outcome Sched
unfolding reschedule
thread_sleep milliseconds cpu s = do
  t ← current_thread cpu s
  th ← deref s t
  reschedule cpu (
      put_thread s t (record th {
        state = sleeping;
        sleep_since = s.ticks;
        sleep_until = (s.ticks + milliseconds * 10 % 2 ^ 32) % 2 ^ 64;
      }))

-- `sched_thread_wait`, up to the switch
unfoldable pub sched_thread_wait : ℕ → ℕ → Sched → Outcome Sched
unfolding reschedule
sched_thread_wait c cpu s = do
  t ← current_thread cpu s
  th ← deref s t
  let s1 = record s { num_waiting = write s.num_waiting c (s.num_waiting c + 1) }
  reschedule cpu (put_thread s1 t (record th { state = blocked; cond = some c }))

-- `sched_thread_wait`, after the switch
unfoldable pub sched_thread_resume : ℕ → ℕ → Sched → Outcome Sched
sched_thread_resume c cpu s = do
  t ← current_thread cpu s
  th ← deref s t
  let s1 = record s { num_waiting = write s.num_waiting c (s.num_waiting c - 1) }
  ok (put_thread s1 t (record th { cond = none }))

abbrev pub waits_on : Option ℕ → ℕ → Bool
waits_on none c = false
waits_on (some d) c = d == c

abbrev pub is_blocked : ThreadState → Bool
is_blocked ThreadState.blocked = true
is_blocked _ = false

-- The inner loop of `sched_thread_notify_one`: `true` is the jump to `notified`.
unfoldable pub notify_threads : ℕ → List ℕ → Sched → Outcome (Sched × Bool)
notify_threads c [] s = ok (s, false)
notify_threads c (t ∷ ts) s = elim (s.thread t) [
  | none ↦ panic
  | some th ↦ elim (waits_on th.cond c && is_blocked th.state) [
    | false ↦ notify_threads c ts s
    | true ↦
        let s1 = put_thread s t (record th { state = ready }) in
        ok (record s1 { queue = t ∷ s.queue }, true)
  ]
]

unfoldable pub notify_procs : ℕ → List ℕ → Sched → Outcome Sched
notify_procs c [] s = ok s
notify_procs c (p ∷ ps) s = notify_threads c (s.proc p).threads s >>= λ r. elim r.1 [
  | true ↦ ok r.0
  | false ↦ notify_procs c ps r.0
]

-- `sched_thread_notify_one`
unfoldable pub sched_thread_notify_one : ℕ → Sched → Outcome Sched
sched_thread_notify_one c s = notify_procs c s.processes s

-- `proc_exit`
unfoldable pub proc_exit : ℕ → ℕ → Sched → Outcome Sched
unfolding reschedule
proc_exit status cpu s = do
  t ← current_thread cpu s
  th ← deref s t
  let s1 =
      put_proc s th.parent
        (record (s.proc th.parent) { state = proc_exiting; exit_status = status })
  reschedule cpu (put_thread s1 t (record th { state = exited }))

abbrev pub is_defunct : ProcState → Bool
is_defunct ProcState.proc_defunct = true
is_defunct _ = false

-- The search of `proc_wait`
unfoldable pub find_defunct : Sched → ℕ → List ℕ → Option ℕ
find_defunct s pid [] = none
find_defunct s pid (p ∷ ps) =
    if (s.proc p).parent == pid && is_defunct (s.proc p).state
    then some p
    else find_defunct s pid ps

-- `proc_wait`, up to its return with a pid and a status, or up to the switch
unfoldable pub proc_wait : ℕ → Sched → Outcome (Sched × Option (ℕ × ℕ))
unfolding reschedule find_defunct
proc_wait cpu s = do
  t ← current_thread cpu s
  th ← deref s t
  elim (find_defunct s (s.proc th.parent).pid s.processes) [
    | some p ↦ ok (collect_process p s, some ((s.proc p).pid, (s.proc p).exit_status))
    | none ↦ reschedule cpu (put_thread s t (record th { state = waiting })) >>= λ s'. ok (s', none)
  ]

-- `proc_wait`, after the switch
unfoldable pub proc_wait_resume : ℕ → Sched → Outcome (ℕ × ℕ)
proc_wait_resume cpu s = do
  t ← current_thread cpu s
  th ← deref s t
  ok (th.collected_pid, th.collected_status)
