-- ===== src/Scheduler/Process.antt =====
-- scheduler.c: how threads and processes enter the tables, and how they leave them.
use yetanotheros.Common.{
  ℕ, ◌+◌, ◌%◌, ◌^◌, Bool, true, false, Option, none, some, List, [], ◌∷◌, ◌==◌, if◌then◌else◌, not,
}
use yetanotheros.Common.Outcome.{Outcome, ok, panic, ◌>>=◌, ◌>>◌, kassert}
use yetanotheros.Common.Store.{write}
use yetanotheros.Scheduler.State.{
  ThreadState, ready, proc_new, proc_ready, proc_defunct, proc_truncate, Sched, pid_kernel,
  kernel_process, no_status, deref, put_thread, put_proc, enqueue, remove, is_empty,
}

abbrev pub is_waiting : ThreadState → Bool
is_waiting ThreadState.waiting = true
is_waiting _ = false

abbrev pub is_exited : ThreadState → Bool
is_exited ThreadState.exited = true
is_exited _ = false

-- `insert_thread`
unfoldable pub insert_thread : ℕ → ℕ → Sched → Outcome Sched
insert_thread p t s = do
  th ← deref s t
  let pr = s.proc p
  let s1 = put_thread s t (record th { state = ready })
  let s2 =
      put_proc s1 p
        (record pr { threads = t ∷ pr.threads; state = proc_ready; exit_status = no_status })
  ok (enqueue s2 t)

-- `collect_process`
unfoldable pub collect_process : ℕ → Sched → Sched
collect_process p s = let pr = s.proc p in put_proc s p (record pr { state = proc_truncate })

-- The inner loop of `make_process_defunct`: wake every thread of one process that waits.
unfoldable pub wake_threads : ℕ → ℕ → List ℕ → Sched → Bool → Outcome (Sched × Bool)
wake_threads pid status [] s collected = ok (s, collected)
wake_threads pid status (t ∷ ts) s collected = elim (s.thread t) [
  | none ↦ panic
  | some th ↦ elim (is_waiting th.state) [
    | false ↦ wake_threads pid status ts s collected
    | true ↦
        wake_threads pid status ts
          (enqueue
            (put_thread s t
              (record th { collected_pid = pid; collected_status = status; state = ready }))
            t)
          true
  ]
]

-- The outer loop: over the processes whose pid is the parent's.
unfoldable pub wake_parents : ℕ → ℕ → ℕ → List ℕ → Sched → Bool → Outcome (Sched × Bool)
wake_parents parent pid status [] s collected = ok (s, collected)
wake_parents parent pid status (p ∷ ps) s collected = elim ((s.proc p).pid == parent) [
  | false ↦ wake_parents parent pid status ps s collected
  | true ↦ wake_threads pid status (s.proc p).threads s collected >>= λ r.
      wake_parents parent pid status ps r.0 r.1
]

-- `make_process_defunct`
unfoldable pub make_process_defunct : ℕ → Sched → Outcome Sched
make_process_defunct p s =
    let s1 = put_proc s p (record (s.proc p) { state = proc_defunct }) in
    if (s.proc p).parent == pid_kernel then ok (collect_process p s1) else do
      (s2, collected) ←
          wake_parents (s.proc p).parent (s.proc p).pid (s.proc p).exit_status s1.processes s1 false
      ok (if collected then collect_process p s2 else s2)

-- `destroy_thread`, with what `LIST_EMPTY` finds after the removal
unfoldable pub destroy_thread : ℕ → Sched → Outcome Sched
destroy_thread t s = do
  th ← deref s t
  kassert (is_exited th.state)
  let p = th.parent
  let pr = s.proc p
  let left = remove t pr.threads
  let s1 = put_proc s p (record pr { threads = left })
  let s2 = record s1 { thread = write s1.thread t none }
  if is_empty left
      then (kassert (not (p == kernel_process)) >> make_process_defunct p s2)
      else ok s2

-- `sheduler_get_proc`: the first process with this pid (the lock is held either way here)
unfoldable pub find_proc : Sched → ℕ → List ℕ → Option ℕ
find_proc s pid [] = none
find_proc s pid (p ∷ ps) = if (s.proc p).pid == pid then some p else find_proc s pid ps

-- `sheduler_get_proc`
unfoldable pub sheduler_get_proc : ℕ → Sched → Option ℕ
unfolding find_proc
sheduler_get_proc pid s = find_proc s pid s.processes

-- `if (proc == NULL) kpanic(…)`
abbrev pub non_null : Option ℕ → Outcome ℕ
non_null none = panic
non_null (some p) = ok p

-- `schedule_proc` with the parent's pid, or `none` for a null parent. Counters are `unsigned int`.
unfoldable pub schedule_proc : Option ℕ → ℕ → ℕ → Sched → Outcome (Sched × ℕ)
schedule_proc parent p t s = do
  th ← deref s t
  let pid = s.next_pid
  let ppid : ℕ = elim parent [ none ↦ pid_kernel | some q ↦ (s.proc q).pid ]
  let s1 = put_proc s p (record (s.proc p) { pid = pid; parent = ppid; state = proc_new })
  let s2 = put_thread s1 t (record th { tid = s.next_tid; parent = p })
  s3 ← insert_thread p t (record s2 {
    next_pid = (s.next_pid + 1) % 2 ^ 32;
    next_tid = (s.next_tid + 1) % 2 ^ 32;
    processes = p ∷ s.processes;
  })
  ok (s3, pid)

-- `schedule_thread`
unfoldable pub schedule_thread : ℕ → ℕ → Sched → Outcome (Sched × ℕ)
schedule_thread pid t s = do
  th ← deref s t
  p ← non_null (sheduler_get_proc pid s)
  let s1 = put_thread s t (record th { tid = s.next_tid; parent = p })
  s2 ← insert_thread p t (record s1 { next_tid = (s.next_tid + 1) % 2 ^ 32 })
  ok (s2, s.next_tid)
