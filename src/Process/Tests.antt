-- ===== src/Process/Tests.antt =====
-- File tables and mutexes at small values, and the theorems there.
use yetanotheros.Common.{
  ℕ, ◌≡◌, ◌≢◌, ◌⊎◌, ◌==◌, if◌then◌else◌, refl, true, false, none, some, [], ◌∷◌, replicate,
}
use yetanotheros.Common.Outcome.{ok}
use yetanotheros.Scheduler.State.{Sched, proc_ready, running}
use yetanotheros.Scheduler.Threads.{sched_thread_notify_one, notify_procs, notify_threads}
use yetanotheros.Scheduler.Loop.{empty_thread}
use yetanotheros.Scheduler.Wakeups.{WakesOneOf, ThreadOf, BlockedOn}
use yetanotheros.Process.Files.{
  Files, first_vacant, proc_get_vacant_fd, proc_bind, proc_get_file, proc_unbind,
  vacant-bind-get-unbind,
}
use yetanotheros.Process.Mutex.{
  tid_invalid, ThreadMutex, thread_mutex_create, current_tid, acquire_loop, thread_mutex_acquire,
  unsafe_mutex_release, thread_mutex_release,
}
use yetanotheros.Process.Exclusion.{
  acquire, created, step, IsExclusive, MutexReach-IsExclusive, thread_mutex_release-wakes,
}

-- Descriptor 0 is taken.
abbrev table : Files
table = record { opened_files = some 9 ∷ replicate 15 none; mutex_held = true }

vacant : proc_get_vacant_fd table ≡ ok (some 1)
unfolding proc_get_vacant_fd first_vacant
vacant = refl

vacant-bind-get-unbind_example :
    (s1 : Files) × (s2 : Files) × (proc_bind table 1 4 ≡ ok (s1, some 1))
    × (proc_get_file s1 1 ≡ ok (some 4))
    × ((other : ℕ) → other ≢ 1 → proc_get_file s1 other ≡ proc_get_file table other)
    × (proc_unbind s1 1 ≡ ok (s2, some 4))
    × (proc_get_file s2 1 ≡ ok none)
vacant-bind-get-unbind_example =
    vacant-bind-get-unbind table 1 4 (record { held = refl; full_size = refl }) vacant

-- The thread at 5, with tid 7, runs on CPU 0.
abbrev lone : Sched
lone = record {
  thread = λ t. if t == 5 then some (record empty_thread { tid = 7; state = running }) else none;
  proc = λ p. record { pid = 0; parent = 0; state = proc_ready; exit_status = 0; threads = [] };
  processes = 0 ∷ [];
  queue = [];
  next_pid = 1;
  next_tid = 8;
  num_waiting = λ c. 0;
  ticks = 0;
  current = λ cpu. if cpu == 0 then some 5 else none;
}

abbrev taken : ThreadMutex
taken = record { wait_cond = 3; locked = true; tid = 7 }

lone-tid : current_tid 0 lone ≡ ok 7
unfolding current_tid
lone-tid = refl

acquires : thread_mutex_acquire (thread_mutex_create 3) 0 lone ≡ ok (taken, lone, true)
unfolding thread_mutex_acquire current_tid acquire_loop thread_mutex_create
acquires = refl

releases :
    thread_mutex_release taken 0 lone
    ≡ ok (record taken { tid = tid_invalid; locked = false }, lone)
unfolding thread_mutex_release unsafe_mutex_release current_tid sched_thread_notify_one notify_procs
    notify_threads
releases = refl

MutexReach-IsExclusive_example : IsExclusive (taken, 7 ∷ [])
MutexReach-IsExclusive_example =
    MutexReach-IsExclusive 3
      (step created (acquire 0 7 lone lone (thread_mutex_create 3) taken [] true lone-tid acquires))

thread_mutex_release-wakes_example :
    (record taken { tid = tid_invalid; locked = false }
      ≡ record taken { tid = tid_invalid; locked = false })
    × (WakesOneOf 3 lone lone (ThreadOf lone (0 ∷ []))
        ⊎ ((lone ≡ lone) × ((t : ℕ) → ThreadOf lone (0 ∷ []) t → ¬ BlockedOn 3 lone t)))
thread_mutex_release-wakes_example =
    thread_mutex_release-wakes taken (record taken { tid = tid_invalid; locked = false }) 0 lone
      lone releases
