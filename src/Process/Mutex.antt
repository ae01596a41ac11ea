-- ===== src/Process/Mutex.antt =====
-- kernel/arch/i386/thread_lock.c: mutexes and conditions on top of the scheduler's calls. The
-- spinlock of the mutex makes each part one step; where the C function waits, it is two functions,
-- up to the switch and from there on. A call tells whether it has returned (`true`) or its thread
-- waits (`false`).
use yetanotheros.Common.{ℕ, Bool, true, false, ◌==◌, ◌&&◌, not, if◌then◌else◌}
use yetanotheros.Common.Outcome.{Outcome, ok, ◌>>=◌, ◌>>◌, kassert}
use yetanotheros.Common.Store.{write}
use yetanotheros.Scheduler.State.{Sched, deref}
use yetanotheros.Scheduler.Threads.{
  current_thread, sched_thread_wait, sched_thread_resume, sched_thread_notify_one,
}

abbrev pub tid_invalid : ℕ
tid_invalid = 0

-- `struct thread_mutex`: the identity of its condition, the flag and the holder.
pub record ThreadMutex : Type 0 where
  pub wait_cond : ℕ
  pub locked : Bool
  pub tid : ℕ

-- `_thread_mutex_create`
unfoldable pub thread_mutex_create : ℕ → ThreadMutex
thread_mutex_create cond = record { wait_cond = cond; locked = false; tid = tid_invalid }

-- `thread->tid` of the current thread; there must be one.
unfoldable pub current_tid : ℕ → Sched → Outcome ℕ
current_tid cpu s = current_thread cpu s >>= λ t. deref s t >>= λ th. ok th.tid

abbrev pub holds : ThreadMutex → ℕ → Bool
holds m tid = m.locked && m.tid == tid

-- `unsafe_mutex_held`, and `thread_mutex_held`, which only adds the spinlock
unfoldable pub unsafe_mutex_held : ThreadMutex → ℕ → Sched → Outcome Bool
unfolding current_tid
unsafe_mutex_held m cpu s = current_tid cpu s >>= λ tid. ok (holds m tid)

-- The loop of `unsafe_mutex_acquire` and what stands behind it
unfoldable pub acquire_loop : ThreadMutex → ℕ → ℕ → Sched → Outcome (ThreadMutex × Sched × Bool)
acquire_loop m tid cpu s =
    if m.locked
    then (sched_thread_wait m.wait_cond cpu s >>= λ s1. ok (m, s1, false))
    else ok (record m { locked = true; tid = tid }, s, true)

-- `unsafe_mutex_acquire`, as `thread_mutex_acquire` calls it
unfoldable pub thread_mutex_acquire : ThreadMutex → ℕ → Sched → Outcome (ThreadMutex × Sched × Bool)
unfolding current_tid acquire_loop
thread_mutex_acquire m cpu s =
    current_tid cpu s >>= λ tid. kassert (not (holds m tid)) >> acquire_loop m tid cpu s

-- The same after `sched_thread_wait` has been resumed: the loop looks again.
unfoldable pub thread_mutex_acquire_resume :
    ThreadMutex → ℕ → Sched → Outcome (ThreadMutex × Sched × Bool)
unfolding current_tid acquire_loop
thread_mutex_acquire_resume m cpu s = sched_thread_resume m.wait_cond cpu s >>= λ s1.
    current_tid cpu s1 >>= λ tid. acquire_loop m tid cpu s1

-- `unsafe_mutex_release`
unfoldable pub unsafe_mutex_release : ThreadMutex → ℕ → Sched → Outcome ThreadMutex
unfolding current_tid
unsafe_mutex_release m cpu s = kassert (not (m.tid == tid_invalid)) >> current_tid cpu s >>= λ tid.
    kassert (holds m tid) >> ok (record m { tid = tid_invalid; locked = false })

-- `thread_mutex_release`
unfoldable pub thread_mutex_release : ThreadMutex → ℕ → Sched → Outcome (ThreadMutex × Sched)
unfolding unsafe_mutex_release
thread_mutex_release m cpu s = unsafe_mutex_release m cpu s >>= λ m1.
    sched_thread_notify_one m.wait_cond s >>= λ s1. ok (m1, s1)

-- `thread_cond_wait`, up to the switch
unfoldable pub thread_cond_wait : ℕ → ThreadMutex → ℕ → Sched → Outcome (ThreadMutex × Sched)
unfolding unsafe_mutex_held unsafe_mutex_release
thread_cond_wait cond m cpu s = unsafe_mutex_held m cpu s >>= λ held.
    kassert held >> unsafe_mutex_release m cpu s >>= λ m1.
    sched_thread_notify_one m.wait_cond s >>= λ s1.
    sched_thread_wait cond cpu s1 >>= λ s2. ok (m1, s2)

-- `thread_cond_wait` after the switch: the mutex is acquired again.
unfoldable pub thread_cond_wait_resume :
    ℕ → ThreadMutex → ℕ → Sched → Outcome (ThreadMutex × Sched × Bool)
unfolding thread_mutex_acquire
thread_cond_wait_resume cond m cpu s =
    sched_thread_resume cond cpu s >>= λ s1. thread_mutex_acquire m cpu s1

-- `_thread_cond_create`
unfoldable pub thread_cond_create : ℕ → Sched → Sched
thread_cond_create cond s = record s { num_waiting = write s.num_waiting cond 0 }

-- `thread_cond_notify`
unfoldable pub thread_cond_notify : ℕ → Sched → Outcome Sched
thread_cond_notify cond s = sched_thread_notify_one cond s
