-- ===== src/Scheduler/Calls.antt =====
-- The calls of a running thread keep the scheduler's tables sound.
use yetanotheros.Common.{
  ℕ, ◌+◌, ◌≡◌, ◌≢◌, refl, Option, none, some, List, [], ◌∷◌, ◌++◌, if◌then◌else◌, arith, Bool-cases,
  Option-cases, eq→==, ne→==, inl, inr, ◌∙◌, sym, ap, subst, eq_of_some,
}
use yetanotheros.Common.Outcome.{Outcome, ok, ◌>>=◌, bind_parts, ok-injective}
use yetanotheros.Common.Store.{write, write_self}
use yetanotheros.Scheduler.State.{
  Thread, ready, waiting, blocked, exited, Sched, deref, put_thread, put_proc,
}
use yetanotheros.Scheduler.Process.{collect_process}
use yetanotheros.Scheduler.Threads.{
  current_thread, is_queued_again, reschedule, thread_yield, thread_exit, thread_sleep,
  sched_thread_wait, sched_thread_resume, proc_exit, proc_wait, find_defunct,
}
use yetanotheros.Scheduler.Invariant.{
  count, count-snoc, StateLaw, QueueLaw, Runs, IsSound, IsSound-leave, IsSound-keep,
}

-- What `reschedule` leaves in the queue: the thread at its end, unless it is blocked or waiting.
abbrev requeue : Thread → ℕ → List ℕ → List ℕ
requeue th t queue = if is_queued_again th.state then queue ++ (t ∷ []) else queue

-- The law of a state in which a running thread may be given up.
abbrev GivenUp : Thread → Type 0
GivenUp th = StateLaw th.state (if is_queued_again th.state then 1 else 0)

requeue_self :
    (th : Thread) (t : ℕ) (queue : List ℕ)
    → count t queue ≡ 0
    → GivenUp th
    → QueueLaw (some th) (count t (requeue th t queue))
requeue_self th t queue z g = elim (Bool-cases (is_queued_again th.state)) [
  | inl e ↦ rw (e, count-snoc t t queue, eq→== t t refl, z) (rw e at g)
  | inr e ↦ rw (e, z) (rw e at g)
]

requeue_ne :
    (th : Thread) (t : ℕ) (queue : List ℕ) (u : ℕ)
    → u ≢ t
    → count u (requeue th t queue) ≡ count u queue
requeue_ne th t queue u h = elim (Bool-cases (is_queued_again th.state)) [
  | inl e ↦ rw (e, count-snoc u t queue, ne→== u t h)
  | inr e ↦ rw e
]

-- The tables after a switch: the thread has the record `th`, and its CPU none.
abbrev pub given_up : ℕ → ℕ → Thread → Sched → Sched
given_up cpu t th s = record s {
  thread = write s.thread t (some th);
  queue = requeue th t s.queue;
  current = write s.current cpu none;
}

pub reschedule-eq :
    (cpu t : ℕ) (th : Thread) (s : Sched) {s' : Sched}
    → s.current cpu ≡ some t
    → reschedule cpu (put_thread s t th) ≡ ok s'
    → s' ≡ given_up cpu t th s
unfolding reschedule
reschedule-eq cpu t th s here e = ground (arith, write_self s.thread t (some th))

-- `reschedule` of the thread `t` that ran on `cpu` and has just been given the record `th`.
reschedule-IsSound :
    (cpu t : ℕ) (th : Thread) (s : Sched) {s' : Sched}
    → IsSound s
    → s.current cpu ≡ some t
    → GivenUp th
    → reschedule cpu (put_thread s t th) ≡ ok s'
    → IsSound s'
reschedule-IsSound cpu t th s i here g e = subst IsSound (sym (reschedule-eq cpu t th s here e)) (
    IsSound-leave i t (some th) (requeue th t s.queue)
      (requeue_self th t s.queue (idle (s.thread t) (i.queued t) (i.owned cpu t here)) g)
      (requeue_ne th t s.queue) cpu here)
  where
    idle : (o : Option Thread) {n : ℕ} → QueueLaw o n → Runs o → n ≡ 0
    idle none q r = elim r [ ]
    idle (some x) q r = rw r at q

-- What a call that succeeds has found: the thread of its CPU, and that thread's record.
pub by_current {ℓ} :
    {A : Type ℓ} (cpu : ℕ) (s : Sched) (k : ℕ → Thread → Outcome A) {r : A}
    → (current_thread cpu s >>= λ t. deref s t >>= λ th. k t th) ≡ ok r
    → (t : ℕ) × (th : Thread) × (s.current cpu ≡ some t) × (s.thread t ≡ some th) × (k t th ≡ ok r)
by_current cpu s k e =
    let (t, here, e') = bind_parts (current_thread cpu s) _ e in
    let (th, there, e'') = bind_parts (deref s t) _ e' in (t, th, ground arith, ground arith, e'')

-- The same where the current thread is known.
pub with_current {ℓ κ} :
    {A : Type ℓ} {P : Type κ} (cpu t : ℕ) (s : Sched) (k : ℕ → Thread → Outcome A) {r : A}
    → s.current cpu ≡ some t
    → (current_thread cpu s >>= λ u. deref s u >>= λ th. k u th) ≡ ok r
    → ((th : Thread) → s.thread t ≡ some th → k t th ≡ ok r → P)
    → P
with_current cpu t s k {r} here e next =
    let (u, th, here', there, e') = by_current cpu s k e in
    let same : u ≡ t = eq_of_some (sym here' ∙ here) in
    next th (subst (λ x. s.thread x ≡ some th) same there) (subst (λ x. k x th ≡ ok r) same e')

pub thread_yield-IsSound :
    (cpu : ℕ) (s : Sched) {s' : Sched} → IsSound s → thread_yield cpu s ≡ ok s' → IsSound s'
unfolding thread_yield
thread_yield-IsSound cpu s i e =
    let (t, th, here, there, e') = by_current cpu s _ e in
    reschedule-IsSound cpu t (record th { state = ready }) s i here refl e'

pub thread_exit-IsSound :
    (cpu : ℕ) (s : Sched) {s' : Sched} → IsSound s → thread_exit cpu s ≡ ok s' → IsSound s'
unfolding thread_exit
thread_exit-IsSound cpu s i e =
    let (t, th, here, there, e') = by_current cpu s _ e in
    reschedule-IsSound cpu t (record th { state = exited }) s i here refl e'

pub thread_sleep-IsSound :
    (milliseconds cpu : ℕ) (s : Sched) {s' : Sched}
    → IsSound s
    → thread_sleep milliseconds cpu s ≡ ok s'
    → IsSound s'
unfolding thread_sleep
thread_sleep-IsSound milliseconds cpu s i e =
    let (t, th, here, there, e') = by_current cpu s _ e in
    reschedule-IsSound cpu t _ s i here refl e'

pub sched_thread_wait-IsSound :
    (c cpu : ℕ) (s : Sched) {s' : Sched}
    → IsSound s
    → sched_thread_wait c cpu s ≡ ok s'
    → IsSound s'
unfolding sched_thread_wait
sched_thread_wait-IsSound c cpu s i e =
    let (t, th, here, there, e') = by_current cpu s _ e in
    reschedule-IsSound cpu t (record th { state = blocked; cond = some c })
      (record s { num_waiting = write s.num_waiting c (s.num_waiting c + 1) }) i here refl e'

pub proc_exit-IsSound :
    (status cpu : ℕ) (s : Sched) {s' : Sched}
    → IsSound s
    → proc_exit status cpu s ≡ ok s'
    → IsSound s'
unfolding proc_exit
proc_exit-IsSound status cpu s i e =
    let (t, th, here, there, e') = by_current cpu s _ e in
    reschedule-IsSound cpu t (record th { state = exited }) (put_proc s th.parent _) i here refl e'

pub sched_thread_resume-IsSound :
    (c cpu : ℕ) (s : Sched) {s' : Sched}
    → IsSound s
    → sched_thread_resume c cpu s ≡ ok s'
    → IsSound s'
unfolding sched_thread_resume
sched_thread_resume-IsSound c cpu s i e =
    let (t, th, here, there, e') = by_current cpu s _ e in
    subst IsSound (ok-injective e') (IsSound-keep s t th (record th { cond = none }) i there refl)

pub proc_wait-IsSound :
    (cpu : ℕ) (s : Sched) {s' : Sched} {r : Option (ℕ × ℕ)}
    → IsSound s
    → proc_wait cpu s ≡ ok (s', r)
    → IsSound s'
unfolding proc_wait collect_process
proc_wait-IsSound cpu s {s'} {r} i e =
    let (t, th, here, there, e') = by_current cpu s _ e in
    elim (Option-cases (find_defunct s (s.proc th.parent).pid s.processes)) [
      | inr (p, found) ↦ subst IsSound (ap (λ x. x.0) (ok-injective (rw found at e'))) i
      | inl z ↦
          let (x, e'', last) =
            bind_parts (reschedule cpu (put_thread s t (record th { state = waiting }))) _
              (rw z at e') in
          subst IsSound (ap (λ x. x.0) (ok-injective last))
            (reschedule-IsSound cpu t (record th { state = waiting }) s i here refl e'')
    ]
