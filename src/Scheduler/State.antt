-- ===== src/Scheduler/State.antt =====
-- The structures of kernel/arch/i386/scheduler.c, kernel/include/kernel/thread.h and proc.h, and
-- the moves on them that all operations share. Pointers are numbers; what a thread pointer leads
-- to is in `thread`, and `none` there is an address with no live `struct thread`.
use yetanotheros.Common.{
  ℕ, Bool, true, false, Option, none, some, List, [], ◌∷◌, ◌++◌, ◌==◌, if◌then◌else◌,
}
use yetanotheros.Common.Outcome.{Outcome, ok, panic}
use yetanotheros.Common.Store.{write}

-- `enum thread_state`
pub data ThreadState : Type 0 where
  scheduler new ready running waiting blocked sleeping exited : ThreadState

-- The fields of `struct thread` that the scheduler reads or writes. Statuses are 32-bit patterns.
pub record Thread : Type 0 where
  pub tid : ℕ
  pub parent : ℕ
  pub state : ThreadState
  pub collected_pid : ℕ
  pub collected_status : ℕ
  pub sleep_since : ℕ
  pub sleep_until : ℕ
  pub cond : Option ℕ
  pub sched_count : ℕ

-- `enum proc_state`
pub data ProcState : Type 0 where
  proc_new proc_ready proc_exiting proc_defunct proc_truncate : ProcState

-- The fields of `struct proc` that the scheduler reads or writes; `parent` is a pid.
pub record Proc : Type 0 where
  pub pid : ℕ
  pub parent : ℕ
  pub state : ProcState
  pub exit_status : ℕ
  pub threads : List ℕ

-- Everything under the global scheduler lock: both stores, the list of processes, the thread
-- queue, the counters, the waiters of each condition, the clock, and the thread of each CPU.
pub record Sched : Type 0 where
  pub thread : ℕ → Option Thread
  pub proc : ℕ → Proc
  pub processes : List ℕ
  pub queue : List ℕ
  pub next_pid : ℕ
  pub next_tid : ℕ
  pub num_waiting : ℕ → ℕ
  pub ticks : ℕ
  pub current : ℕ → Option ℕ

abbrev pub pid_kernel : ℕ
pid_kernel = 0

-- `&kernel_process`
abbrev pub kernel_process : ℕ
kernel_process = 0

-- `-ENOSTATUS` as a 32-bit pattern
abbrev pub no_status : ℕ
no_status = 0xffff_fff6

-- `t->…`: there is no going on from a pointer to nothing.
abbrev pub deref : Sched → ℕ → Outcome Thread
deref s t = elim (s.thread t) [ none ↦ panic | some th ↦ ok th ]

abbrev pub put_thread : Sched → ℕ → Thread → Sched
put_thread s t th = record s { thread = write s.thread t (some th) }

abbrev pub put_proc : Sched → ℕ → Proc → Sched
put_proc s p pr = record s { proc = write s.proc p pr }

-- `STAILQ_INSERT_TAIL(&queue, t, sqptrs)`
abbrev pub enqueue : Sched → ℕ → Sched
enqueue s t = record s { queue = s.queue ++ (t ∷ []) }

-- `LIST_REMOVE`
unfoldable pub remove : ℕ → List ℕ → List ℕ
remove t [] = []
remove t (x ∷ xs) = if t == x then xs else x ∷ remove t xs

unfoldable pub is_empty : List ℕ → Bool
is_empty [] = true
is_empty (x ∷ xs) = false

-- `init_global_scheduler`: one process, the kernel's, and no thread.
unfoldable pub init_global_scheduler : (ℕ → Proc) → ℕ → Sched
init_global_scheduler procs now = record {
  thread = λ _. none;
  proc =
      write procs kernel_process
        (record { pid = pid_kernel; parent = 0; state = proc_new; exit_status = 0; threads = [] });
  processes = kernel_process ∷ [];
  queue = [];
  next_pid = 1;
  next_tid = 1;
  num_waiting = λ _. 0;
  ticks = now;
  current = λ _. none;
}
