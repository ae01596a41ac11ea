-- ===== src/Scheduler/Notify.antt =====
-- Notification and the reset of the counters keep the tables sound; which thread is notified.
use yetanotheros.Common.{
  ℕ, ◌≡◌, refl, Bool, true, List, [], ◌∷◌, arith, Bool-cases, Option-cases, inl, inr, ap, subst,
  ◌&&◌,
}
use yetanotheros.Common.Outcome.{ok, with_bind, ok-injective}
use yetanotheros.Scheduler.State.{Thread, ready, blocked, Sched, put_thread}
use yetanotheros.Scheduler.Threads.{
  waits_on, is_blocked, notify_threads, notify_procs, sched_thread_notify_one,
}
use yetanotheros.Scheduler.Loop.{reset_threads, reset_procs, schedule_reset_perf_counters}
use yetanotheros.Scheduler.Invariant.{IsSound, IsSound-keep, IsSound-wake}
use yetanotheros.Scheduler.Tables.{absent, idle}

blocked_lem :
    (th : Thread) (c : ℕ) → (waits_on th.cond c && is_blocked th.state) ≡ true → th.state ≡ blocked
blocked_lem th c e = ground arith

notify_threads-IsSound :
    (c : ℕ) (ts : List ℕ) (s : Sched) (r : Sched × Bool)
    → IsSound s
    → notify_threads c ts s ≡ ok r
    → IsSound r.0
unfolding notify_threads
notify_threads-IsSound c [] s r i e = subst IsSound (ap (λ x. x.0) (ok-injective e)) i
notify_threads-IsSound c (t ∷ ts) s r i e = elim (Option-cases (s.thread t)) [
  | inl z ↦ cc (rw (z, notify_threads) at e)
  | inr (th, there) ↦ elim (Bool-cases (waits_on th.cond c && is_blocked th.state)) [
    | inl y ↦ subst IsSound (ap (λ x. x.0) (ok-injective (rw (there, y, notify_threads) at e))) (
        IsSound-wake s t (record th { state = ready }) (t ∷ s.queue) i
          (idle s t th there (ground (arith, blocked_lem th c y))) refl
          (absent s t th {st = blocked} i there (blocked_lem th c y)) (λ u. refl))
    | inr n ↦ notify_threads-IsSound c ts s r i (rw (there, n, notify_threads) at e)
  ]
]

notify_procs-IsSound :
    (c : ℕ) (ps : List ℕ) (s s' : Sched) → IsSound s → notify_procs c ps s ≡ ok s' → IsSound s'
unfolding notify_procs
notify_procs-IsSound c [] s s' i e = subst IsSound (ok-injective e) i
notify_procs-IsSound c (p ∷ ps) s s' i e =
    with_bind (notify_threads c (s.proc p).threads s) _ e λ r e1 rest. elim (Bool-cases r.1) [
      | inl y ↦
          subst IsSound (ok-injective (rw y at rest))
            (notify_threads-IsSound c (s.proc p).threads s r i e1)
      | inr n ↦
          notify_procs-IsSound c ps r.0 s' (notify_threads-IsSound c (s.proc p).threads s r i e1)
            (rw n at rest)
    ]

pub sched_thread_notify_one-IsSound :
    (c : ℕ) (s s' : Sched) → IsSound s → sched_thread_notify_one c s ≡ ok s' → IsSound s'
unfolding sched_thread_notify_one
sched_thread_notify_one-IsSound c s s' i e = notify_procs-IsSound c s.processes s s' i e

reset_threads-IsSound :
    (ts : List ℕ) (s s' : Sched) → IsSound s → reset_threads ts s ≡ ok s' → IsSound s'
unfolding reset_threads
reset_threads-IsSound [] s s' i e = subst IsSound (ok-injective e) i
reset_threads-IsSound (t ∷ ts) s s' i e = elim (Option-cases (s.thread t)) [
  | inl z ↦ cc (rw (z, reset_threads) at e)
  | inr (th, there) ↦
      reset_threads-IsSound ts (put_thread s t (record th { sched_count = 0 })) s'
        (IsSound-keep s t th (record th { sched_count = 0 }) i there refl)
        (rw (there, reset_threads) at e)
]

reset_procs-IsSound :
    (ps : List ℕ) (s s' : Sched) → IsSound s → reset_procs ps s ≡ ok s' → IsSound s'
unfolding reset_procs
reset_procs-IsSound [] s s' i e = subst IsSound (ok-injective e) i
reset_procs-IsSound (p ∷ ps) s s' i e =
    with_bind (reset_threads (s.proc p).threads s) _ e λ r e1 rest.
      reset_procs-IsSound ps r s' (reset_threads-IsSound (s.proc p).threads s r i e1) rest

pub schedule_reset_perf_counters-IsSound :
    (s s' : Sched) → IsSound s → schedule_reset_perf_counters s ≡ ok s' → IsSound s'
unfolding schedule_reset_perf_counters
schedule_reset_perf_counters-IsSound s s' i e = reset_procs-IsSound s.processes s s' i e
