-- ===== src/Scheduler/Tables.antt =====
-- What enters and leaves the tables, the wake-ups, and the scheduler's loop keep them sound.
use yetanotheros.Common.{
  ℕ, ◌≡◌, ◌≢◌, refl, Bool, true, false, none, some, List, [], ◌∷◌, ◌++◌, ◌==◌, if◌then◌else◌, arith,
  Bool-cases, Option-cases, inl, inr, ap, subst, not, ◌&&◌,
}
use yetanotheros.Common.Outcome.{ok, kassert, with_bind, ok-injective}
use yetanotheros.Common.Store.{write}
use yetanotheros.Scheduler.State.{
  ThreadState, Thread, new, ready, waiting, blocked, running, Sched, deref, put_thread, enqueue,
  kernel_process, pid_kernel, is_empty, remove,
}
use yetanotheros.Scheduler.Process.{
  is_waiting, is_exited, insert_thread, collect_process, wake_threads, wake_parents,
  make_process_defunct, destroy_thread,
}
use yetanotheros.Scheduler.Threads.{waits_on, is_blocked}
use yetanotheros.Scheduler.Invariant.{count, count-snoc, QueueLaw, Runs, IsSound, IsSound-wake}

-- A thread in a state whose law is to be out of the queue does not run and is not queued.
pub absent :
    (s : Sched) (t : ℕ) (th : Thread) {st : ThreadState}
    → IsSound s
    → s.thread t ≡ some th
    → th.state ≡ st
    → QueueLaw (some (record th { state = st })) (count t s.queue)
absent s t th i there e = rw e at (rw there at (i.queued t))

pub idle :
    (s : Sched) (t : ℕ) (th : Thread)
    → s.thread t ≡ some th
    → th.state ≢ running
    → ¬ Runs (s.thread t)
idle s t th there e r = e (rw there at r)

waiting_lem : (th : Thread) → is_waiting th.state ≡ true → th.state ≡ waiting
waiting_lem th e = ground arith

blocked_lem :
    (th : Thread) (c : ℕ) → (waits_on th.cond c && is_blocked th.state) ≡ true → th.state ≡ blocked
blocked_lem th c e = ground arith

-- A thread of any such state is woken at the end of the queue.
pub wake_last :
    (s : Sched) (t : ℕ) (th th' : Thread)
    → IsSound s
    → s.thread t ≡ some th
    → th.state ≢ running
    → count t s.queue ≡ 0
    → th'.state ≡ ready
    → IsSound (enqueue (put_thread s t th') t)
wake_last s t th th' i there e z r =
    IsSound-wake s t th' (s.queue ++ (t ∷ [])) i (idle s t th there e) r z
      (λ u. count-snoc u t s.queue)

wake_threads-IsSound :
    (pid status : ℕ) (ts : List ℕ) (s : Sched) (c : Bool) (r : Sched × Bool)
    → IsSound s
    → wake_threads pid status ts s c ≡ ok r
    → IsSound r.0
unfolding wake_threads
wake_threads-IsSound pid status [] s c r i e = subst IsSound (ap (λ x. x.0) (ok-injective e)) i
wake_threads-IsSound pid status (t ∷ ts) s c r i e = elim (Option-cases (s.thread t)) [
  | inl z ↦ cc (rw (z, wake_threads) at e)
  | inr (th, there) ↦ elim (Bool-cases (is_waiting th.state)) [
    | inl w ↦
        let th' : Thread = record th {
          collected_pid = pid;
          collected_status = status;
          state = ready;
        } in
        wake_threads-IsSound pid status ts (enqueue (put_thread s t th') t) true r
          (wake_last s t th th' i there (ground arith)
            (absent s t th {st = waiting} i there (waiting_lem th w)) refl)
          (rw (there, w, wake_threads) at e)
    | inr n ↦ wake_threads-IsSound pid status ts s c r i (rw (there, n, wake_threads) at e)
  ]
]

wake_parents-IsSound :
    (parent pid status : ℕ) (ps : List ℕ) (s : Sched) (c : Bool) (r : Sched × Bool)
    → IsSound s
    → wake_parents parent pid status ps s c ≡ ok r
    → IsSound r.0
unfolding wake_parents
wake_parents-IsSound parent pid status [] s c r i e =
    subst IsSound (ap (λ x. x.0) (ok-injective e)) i
wake_parents-IsSound parent pid status (p ∷ ps) s c r i e =
    elim (Bool-cases ((s.proc p).pid == parent)) [
      | inr n ↦ wake_parents-IsSound parent pid status ps s c r i (rw (n, wake_parents) at e)
      | inl y ↦
          with_bind (wake_threads pid status (s.proc p).threads s c) _ (rw (y, wake_parents) at e)
            λ r' e' rest.
              wake_parents-IsSound parent pid status ps r'.0 r'.1 r
                (wake_threads-IsSound pid status (s.proc p).threads s c r' i e') rest
    ]

collect_process-IsSound :
    (p : ℕ) (s : Sched) (b : Bool) → IsSound s → IsSound (if b then collect_process p s else s)
unfolding collect_process
collect_process-IsSound p s true i = i
collect_process-IsSound p s false i = i

pub make_process_defunct-IsSound :
    (p : ℕ) (s s' : Sched) → IsSound s → make_process_defunct p s ≡ ok s' → IsSound s'
unfolding make_process_defunct
make_process_defunct-IsSound p s s' i e = elim (Bool-cases ((s.proc p).parent == pid_kernel)) [
  | inl y ↦ subst IsSound (ok-injective (rw y at e)) (collect_process-IsSound p _ true i)
  | inr n ↦
      with_bind
        (wake_parents (s.proc p).parent (s.proc p).pid (s.proc p).exit_status s.processes _ false) _
        (rw n at e)
        λ r e' rest.
          subst IsSound (ok-injective rest)
            (collect_process-IsSound p r.0 r.1 (wake_parents-IsSound _ _ _ _ _ false r i e'))
]

-- The thread that has been taken out of the queue is destroyed.
pub destroy_thread-IsSound :
    (t : ℕ) (s s' : Sched)
    → IsSound (record s { thread = write s.thread t none })
    → destroy_thread t s ≡ ok s'
    → IsSound s'
unfolding destroy_thread
destroy_thread-IsSound t s s' i e = with_bind (deref s t) _ e λ th there e1.
    with_bind (kassert (is_exited th.state)) _ e1 λ u is e2.
      elim (Bool-cases (is_empty (remove t (s.proc th.parent).threads))) [
        | inr n ↦ subst IsSound (ok-injective (rw n at e2)) i
        | inl y ↦
            with_bind (kassert (not (th.parent == kernel_process))) _ (rw y at e2)
              λ v is' e3. make_process_defunct-IsSound th.parent _ s' i e3
      ]

pub deref-eq :
    (s : Sched) (t : ℕ) {th th' : Thread} → s.thread t ≡ some th → deref s t ≡ ok th' → th ≡ th'
deref-eq s t there e = ground arith

pub insert_thread-IsSound :
    (p t : ℕ) (th : Thread) (s s' : Sched)
    → IsSound s
    → s.thread t ≡ some th
    → th.state ≡ new
    → insert_thread p t s ≡ ok s'
    → IsSound s'
unfolding insert_thread
insert_thread-IsSound p t th s s' i there is_new e = with_bind (deref s t) _ e λ th' there' e'.
    subst IsSound (ok-injective e') (
      wake_last s t th (record th' { state = ready }) i there (ground arith)
        (absent s t th {st = new} i there is_new) refl)
