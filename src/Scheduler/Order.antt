-- ===== src/Scheduler/Order.antt =====
-- In which order threads run: the queue is served from its head, what comes back goes to its end,
-- and a sleeper is passed over until its deadline.
use yetanotheros.Common.{
  ℕ, ◌+◌, ◌*◌, ◌≡◌, ◌<◌, ◌≤◌, refl, Bool, true, false, some, List, [], ◌∷◌, ◌++◌, ◌==◌,
  if◌then◌else◌, arith, Bool-cases, Option-cases, inl, inr, ◌∙◌, sym, ap, subst, not, ltb, ◌%◌, ◌^◌,
  lt→ltb, le→ltb,
}
use mathlib.Core.List.{append-nil, append_assoc}
use yetanotheros.Common.Outcome.{ok, kassert, with_bind, ok-injective}
use yetanotheros.Common.Store.{write_self}
use yetanotheros.Scheduler.State.{
  ThreadState, Thread, ready, sleeping, Sched, deref, put_thread, put_proc, enqueue, kernel_process,
  pid_kernel, is_empty, remove,
}
use yetanotheros.Scheduler.Process.{
  is_waiting, is_exited, collect_process, wake_threads, wake_parents, make_process_defunct,
  destroy_thread,
}
use yetanotheros.Scheduler.Threads.{thread_sleep}
use yetanotheros.Scheduler.Loop.{dispatch, dispatch_thread}
use yetanotheros.Scheduler.Calls.{reschedule-eq, with_current}

-- The second queue is the first with something behind it.
abbrev Extends : List ℕ → List ℕ → Type 0
Extends q q' = (tail : List ℕ) × (q' ≡ q ++ tail)

Extends-refl : (q : List ℕ) → Extends q q
Extends-refl q = ([], sym (append-nil q))

Extends-trans : (q : List ℕ) {q' q'' : List ℕ} → Extends q q' → Extends q' q'' → Extends q q''
Extends-trans q (a, e) (b, f) = (a ++ b, f ∙ ap (λ x. x ++ b) e ∙ append_assoc q a b)

wake_threads-Extends :
    (pid status : ℕ) (ts : List ℕ) (s : Sched) (c : Bool) (r : Sched × Bool)
    → wake_threads pid status ts s c ≡ ok r
    → Extends s.queue r.0.queue
unfolding wake_threads
wake_threads-Extends pid status [] s c r e =
    subst (λ x. Extends s.queue x.0.queue) (ok-injective e) (Extends-refl s.queue)
wake_threads-Extends pid status (t ∷ ts) s c r e = elim (Option-cases (s.thread t)) [
  | inl z ↦ cc (rw (z, wake_threads) at e)
  | inr (th, there) ↦ elim (Bool-cases (is_waiting th.state)) [
    | inl w ↦
        Extends-trans s.queue (t ∷ [], refl)
          (wake_threads-Extends pid status ts
            (enqueue
              (put_thread s t
                (record th { collected_pid = pid; collected_status = status; state = ready }))
              t)
            true r (rw (there, w, wake_threads) at e))
    | inr n ↦ wake_threads-Extends pid status ts s c r (rw (there, n, wake_threads) at e)
  ]
]

wake_parents-Extends :
    (parent pid status : ℕ) (ps : List ℕ) (s : Sched) (c : Bool) (r : Sched × Bool)
    → wake_parents parent pid status ps s c ≡ ok r
    → Extends s.queue r.0.queue
unfolding wake_parents
wake_parents-Extends parent pid status [] s c r e =
    subst (λ x. Extends s.queue x.0.queue) (ok-injective e) (Extends-refl s.queue)
wake_parents-Extends parent pid status (p ∷ ps) s c r e =
    elim (Bool-cases ((s.proc p).pid == parent)) [
      | inr n ↦ wake_parents-Extends parent pid status ps s c r (rw (n, wake_parents) at e)
      | inl y ↦
          with_bind (wake_threads pid status (s.proc p).threads s c) _ (rw (y, wake_parents) at e)
            λ r' e' rest.
              Extends-trans s.queue (wake_threads-Extends pid status (s.proc p).threads s c r' e')
                (wake_parents-Extends parent pid status ps r'.0 r'.1 r rest)
    ]

queue-if : (p : ℕ) (s : Sched) (b : Bool) → (if b then collect_process p s else s).queue ≡ s.queue
unfolding collect_process
queue-if p s true = refl
queue-if p s false = refl

make_process_defunct-Extends :
    (p : ℕ) (s s' : Sched) → make_process_defunct p s ≡ ok s' → Extends s.queue s'.queue
unfolding make_process_defunct
make_process_defunct-Extends p s s' e = elim (Bool-cases ((s.proc p).parent == pid_kernel)) [
  | inl y ↦
      subst (λ x. Extends s.queue x.queue) (ok-injective (rw y at e))
        (rw (queue-if p (put_proc s p _) true) (Extends-refl s.queue))
  | inr n ↦
      with_bind
        (wake_parents (s.proc p).parent (s.proc p).pid (s.proc p).exit_status s.processes _ false) _
        (rw n at e)
        λ r e' rest.
          subst (λ x. Extends s.queue x.queue) (ok-injective rest)
            (rw (queue-if p r.0 r.1) (wake_parents-Extends _ _ _ _ _ false r e'))
]

destroy_thread-Extends :
    (t : ℕ) (s s' : Sched) → destroy_thread t s ≡ ok s' → Extends s.queue s'.queue
unfolding destroy_thread
destroy_thread-Extends t s s' e = with_bind (deref s t) _ e λ th there e1.
    with_bind (kassert (is_exited th.state)) _ e1 λ u is e2.
      elim (Bool-cases (is_empty (remove t (s.proc th.parent).threads))) [
        | inr n ↦
            subst (λ x. Extends s.queue x.queue) (ok-injective (rw n at e2)) (Extends-refl s.queue)
        | inl y ↦
            with_bind (kassert (not (th.parent == kernel_process))) _ (rw y at e2)
              λ v is' e3. make_process_defunct-Extends th.parent _ s' e3
      ]

dispatch_thread-Extends :
    (cpu t : ℕ) (th : Thread) (st : ThreadState) (s s' : Sched)
    → dispatch_thread cpu t th st s ≡ ok s'
    → Extends s.queue s'.queue
unfolding dispatch_thread
dispatch_thread-Extends cpu t th ThreadState.exited s s' e = destroy_thread-Extends t s s' e
dispatch_thread-Extends cpu t th ThreadState.sleeping s s' e =
    elim (Bool-cases (ltb th.sleep_until s.ticks)) [
      | inl y ↦
          subst (λ x. Extends s.queue x.queue) (ok-injective (rw y at e)) (Extends-refl s.queue)
      | inr n ↦ subst (λ x. Extends s.queue x.queue) (ok-injective (rw n at e)) (t ∷ [], refl)
    ]
dispatch_thread-Extends cpu t th ThreadState.ready s s' e =
    subst (λ x. Extends s.queue x.queue) (ok-injective e) (Extends-refl s.queue)
dispatch_thread-Extends cpu t th _ s s' e =
    subst (λ x. Extends s.queue x.queue) (ok-injective e) (Extends-refl s.queue)

-- A round of the scheduler takes the head off the queue, and whatever it adds, the threads woken
-- by a dying process included, goes to the end: every thread behind the head moves up by one.
pub dispatch-Extends :
    (cpu t : ℕ) (rest : List ℕ) (s s' : Sched)
    → s.queue ≡ t ∷ rest
    → dispatch cpu s ≡ ok s'
    → (tail : List ℕ) × (s'.queue ≡ rest ++ tail)
unfolding dispatch
dispatch-Extends cpu t rest s s' q e =
    with_bind (deref s t) _ (rw (q, dispatch) at e)
      λ th there last. dispatch_thread-Extends cpu t th th.state (record s { queue = rest }) s' last

-- What `thread_sleep` leaves in the thread's record.
thread_sleep-record :
    (ms cpu t : ℕ) (s s1 : Sched)
    → s.current cpu ≡ some t
    → thread_sleep ms cpu s ≡ ok s1
    → (th : Thread) × (s1.thread t ≡ some th)
      × (th.state ≡ sleeping)
      × (th.sleep_until ≡ (s.ticks + ms * 10 % 2 ^ 32) % 2 ^ 64)
unfolding thread_sleep
thread_sleep-record ms cpu t s s1 here e = with_current cpu t s _ here e λ th there last.
    let th' : Thread = record th {
      state = sleeping;
      sleep_since = s.ticks;
      sleep_until = (s.ticks + ms * 10 % 2 ^ 32) % 2 ^ 64;
    } in
    (
      th',
      ap (λ x. x.thread t) (reschedule-eq cpu t th' s here last) ∙ write_self s.thread t (some th'),
      refl,
      refl,
    )

dispatch-sleeper :
    (cpu t : ℕ) (rest : List ℕ) (th : Thread) (s s' : Sched)
    → s.thread t ≡ some th
    → th.state ≡ sleeping
    → s.queue ≡ t ∷ rest
    → dispatch cpu s ≡ ok s'
    → (th.sleep_until < s.ticks → (s'.current cpu ≡ some t) × (s'.queue ≡ rest))
      × (s.ticks ≤ th.sleep_until
          → (s'.current cpu ≡ s.current cpu) × (s'.queue ≡ rest ++ (t ∷ [])))
unfolding dispatch dispatch_thread
dispatch-sleeper cpu t rest th s s' there is q e =
    let e' = rw (q, there, is, dispatch) at e in
    (
      λ h.
          let s'-eq = ok-injective (rw (lt→ltb th.sleep_until s.ticks h) at e') in
          (
            ap (λ x. x.current cpu) (sym s'-eq) ∙ write_self s.current cpu (some t),
            ap (λ x. x.queue) (sym s'-eq),
          ),
      λ h.
          let s'-eq = ok-injective (rw (le→ltb th.sleep_until s.ticks h) at e') in
          (ap (λ x. x.current cpu) (sym s'-eq), ap (λ x. x.queue) (sym s'-eq)),
    )

-- A thread that calls `thread_sleep` for `ms` milliseconds (10 ticks each, with no overflow) is
-- run, when its turn in the queue comes, if and only if the clock has passed its deadline;
-- before that it goes to the end of the queue and the CPU takes up nothing.
pub thread_sleep-dispatch :
    (ms cpu cpu' t : ℕ) (rest : List ℕ) (s s1 s2 s3 : Sched)
    → s.current cpu ≡ some t
    → thread_sleep ms cpu s ≡ ok s1
    → ms * 10 < 2 ^ 32
    → s.ticks + ms * 10 < 2 ^ 64
    → s2.thread t ≡ s1.thread t
    → s2.queue ≡ t ∷ rest
    → dispatch cpu' s2 ≡ ok s3
    → (s.ticks + ms * 10 < s2.ticks → (s3.current cpu' ≡ some t) × (s3.queue ≡ rest))
      × (s2.ticks ≤ s.ticks + ms * 10
          → (s3.current cpu' ≡ s2.current cpu') × (s3.queue ≡ rest ++ (t ∷ [])))
thread_sleep-dispatch ms cpu cpu' t rest s s1 s2 s3 here e small fits same q d =
    let (th, there, is, until) = thread_sleep-record ms cpu t s s1 here e in
    let (due, early) = dispatch-sleeper cpu' t rest th s2 s3 (same ∙ there) is q d in
    (λ h. due (omega arith), λ h. early (omega arith))
