-- ===== src/Scheduler/Rounds.antt =====
-- The scheduler's loop, and the insertion of threads and processes, keep the tables sound.
use yetanotheros.Common.{
  ℕ, suc, ◌≡◌, ◌≢◌, refl, Option, none, some, List, [], ◌∷◌, ◌++◌, ◌==◌, ◌≤◌, arith, Bool-cases,
  eq→==, ne→==, ==→eq, ==→ne, inl, inr, ◌∙◌, sym, ap, subst, ltb,
}
use yetanotheros.Common.Outcome.{ok, ◌>>=◌, with_bind, ok-injective}
use yetanotheros.Common.Store.{write, write_self}
use yetanotheros.Scheduler.State.{
  ThreadState, Thread, new, ready, running, Sched, deref, put_thread, kernel_process, scheduler,
}
use yetanotheros.Scheduler.Process.{
  insert_thread, schedule_proc, schedule_thread, sheduler_get_proc, non_null,
}
use yetanotheros.Scheduler.Loop.{
  enter_scheduler, dispatch, dispatch_thread, run_thread, empty_thread,
}
use yetanotheros.Scheduler.Invariant.{
  count, count-snoc, StateLaw, QueueLaw, IsSoundOf, IsSound, IsSound-change, IsSound-enter,
  IsSound-keep,
}
use yetanotheros.Scheduler.Tables.{idle, destroy_thread-IsSound, insert_thread-IsSound, deref-eq}

suc-ne-zero : {n : ℕ} → ¬ (suc n ≡ 0)
suc-ne-zero h = omega arith

IsSound-queue :
    {thread : ℕ → Option Thread} {queue : List ℕ} {current : ℕ → Option ℕ} (queue' : List ℕ)
    → IsSoundOf thread queue current
    → ((u : ℕ) → QueueLaw (thread u) (count u queue'))
    → IsSoundOf thread queue' current
IsSound-queue queue' i laws = record { queued = laws; owned = i.owned; single = i.single }

deref-some : (s : Sched) (t : ℕ) {th : Thread} → deref s t ≡ ok th → s.thread t ≡ some th
deref-some s t e = ground arith

-- The head of the queue is taken out of it.
module _ (cpu t : ℕ) (rest : List ℕ) (th : Thread) (s : Sched)
    (i : IsSoundOf s.thread (t ∷ rest) s.current) (there : s.thread t ≡ some th) where
  others : (u : ℕ) → u ≢ t → count u rest ≡ count u (t ∷ rest)
  others u h = rw (ne→== u t h)

  popped : StateLaw th.state (suc (count t rest))
  popped = rw (there, eq→== t t refl) at (i.queued t)

  left : th.state ≡ scheduler → (u : ℕ) → QueueLaw (s.thread u) (count u rest)
  left is u = elim (Bool-cases (u == t)) [
    | inl k ↦ rw (==→eq u t k, there, is) (at_most (rw is at popped))
    | inr k ↦ rw (others u (==→ne u t k)) (i.queued u)
  ]
    where
      at_most : {n : ℕ} → suc n ≤ 1 → n ≤ 1
      at_most h = omega arith

  run_thread-IsSound :
      (th' : Thread)
      → th.state ≢ running
      → count t rest ≡ 0
      → IsSound (run_thread cpu t th' (record s { queue = rest }))
  run_thread-IsSound th' ne z =
      IsSound-enter i t (some _) rest z others cpu (idle s t th there ne) refl

  dispatch_thread-IsSound :
      (st : ThreadState) (s' : Sched)
      → th.state ≡ st
      → dispatch_thread cpu t th st (record s { queue = rest }) ≡ ok s'
      → IsSound s'
  unfolding dispatch_thread
  dispatch_thread-IsSound ThreadState.exited s' is e =
      destroy_thread-IsSound t (record s { queue = rest }) s'
        (IsSound-change i t none rest (ground (arith, rw is at popped)) others
          (idle s t th there (ground arith)))
        e
  dispatch_thread-IsSound ThreadState.sleeping s' is e =
      elim (Bool-cases (ltb th.sleep_until s.ticks)) [
        | inl y ↦ subst IsSound (ok-injective (rw y at e)) (
            run_thread-IsSound (record th { state = ready; sleep_since = 0; sleep_until = 0 })
              (ground arith) (ground (arith, rw is at popped)))
        | inr n ↦
            subst IsSound (ok-injective (rw n at e))
              (IsSound-queue (rest ++ (t ∷ [])) i (λ u. rw (count-snoc u t rest) (i.queued u)))
      ]
  dispatch_thread-IsSound ThreadState.ready s' is e =
      subst IsSound (ok-injective e)
        (run_thread-IsSound th (ground arith) (ground (arith, rw is at popped)))
  dispatch_thread-IsSound ThreadState.scheduler s' is e =
      subst IsSound (ok-injective e) (IsSound-queue rest i (left is))
  dispatch_thread-IsSound ThreadState.new s' is e = absurd (suc-ne-zero (rw is at popped))
  dispatch_thread-IsSound ThreadState.running s' is e = absurd (suc-ne-zero (rw is at popped))
  dispatch_thread-IsSound ThreadState.waiting s' is e = absurd (suc-ne-zero (rw is at popped))
  dispatch_thread-IsSound ThreadState.blocked s' is e = absurd (suc-ne-zero (rw is at popped))

pub dispatch-IsSound : (cpu : ℕ) (s s' : Sched) → IsSound s → dispatch cpu s ≡ ok s' → IsSound s'
unfolding dispatch
dispatch-IsSound cpu s s' i e = go s.queue i refl e
  where
    go :
        (q : List ℕ)
        → IsSoundOf s.thread q s.current
        → s.queue ≡ q
        → (elim q [
          | [] ↦ ok s
          | t ∷ rest ↦
              let s1 = record s { queue = rest } in
              deref s1 t >>= λ th. dispatch_thread cpu t th th.state s1
        ])
          ≡ ok s'
        → IsSound s'
    go [] j q e' = subst IsSound (ok-injective e') i
    go (t ∷ rest) j q e' = with_bind (deref s t) _ e' λ th there last.
        dispatch_thread-IsSound cpu t rest th s j (deref-some s t there) th.state s' refl last

-- Insertion: the thread that comes in is NEW.
pub schedule_proc-IsSound :
    (parent : Option ℕ) (p t : ℕ) (th : Thread) (s : Sched) (r : Sched × ℕ)
    → IsSound s
    → s.thread t ≡ some th
    → th.state ≡ new
    → schedule_proc parent p t s ≡ ok r
    → IsSound r.0
unfolding schedule_proc
schedule_proc-IsSound parent p t th s r i there is_new e =
    with_bind (deref s t) _ e λ th' there' e1. with_bind (insert_thread p t _) _ e1 λ s3 e2 last.
      subst IsSound (ap (λ x. x.0) (ok-injective last)) (
        insert_thread-IsSound p t (record th' { tid = s.next_tid; parent = p }) _ s3
          (IsSound-keep s t th (record th' { tid = s.next_tid; parent = p }) i there
            (ap (λ x. x.state) (sym (deref-eq s t there there'))))
          (write_self s.thread t _) (rw (← deref-eq s t there there') is_new) e2)

pub schedule_thread-IsSound :
    (pid t : ℕ) (th : Thread) (s : Sched) (r : Sched × ℕ)
    → IsSound s
    → s.thread t ≡ some th
    → th.state ≡ new
    → schedule_thread pid t s ≡ ok r
    → IsSound r.0
unfolding schedule_thread
schedule_thread-IsSound pid t th s r i there is_new e = with_bind (deref s t) _ e λ th' there' e1.
    with_bind (non_null (sheduler_get_proc pid s)) _ e1 λ p found e2.
      with_bind (insert_thread p t _) _ e2 λ s3 e3 last.
        subst IsSound (ap (λ x. x.0) (ok-injective last)) (
          insert_thread-IsSound p t (record th' { tid = s.next_tid; parent = p }) _ s3
            (IsSound-keep s t th (record th' { tid = s.next_tid; parent = p }) i there
              (ap (λ x. x.state) (sym (deref-eq s t there there'))))
            (write_self s.thread t _) (rw (← deref-eq s t there there') is_new) e3)

law_le_one : (o : Option Thread) (n : ℕ) → QueueLaw o n → n ≤ 1
law_le_one none n q = omega arith
law_le_one (some th) n q = go th.state q
  where
    go : (st : ThreadState) → StateLaw st n → n ≤ 1
    go ThreadState.ready h = omega arith
    go ThreadState.scheduler h = h
    go _ h = omega arith

insert_thread-ready :
    (p t : ℕ) (s s' : Sched)
    → insert_thread p t s ≡ ok s'
    → (th : Thread) × (s'.thread t ≡ some th) × (th.state ≡ ready)
unfolding insert_thread
insert_thread-ready p t s s' e = with_bind (deref s t) _ e λ th there last. (
  record th { state = ready },
  ap (λ x. x.thread t) (sym (ok-injective last)) ∙ write_self s.thread t _,
  refl,
)

vacate :
    {thread : ℕ → Option Thread} {queue : List ℕ} {current : ℕ → Option ℕ} (cpu : ℕ)
    → IsSoundOf thread queue current
    → IsSoundOf thread queue (write current cpu none)
unfolding write
vacate cpu i = record {
  queued = i.queued;
  owned = λ c u r. grind (arith, i.owned c u);
  single = λ c d u. grind (arith, i.single c d u);
}

-- A CPU without a thread enters with a scheduler thread of its own.
pub enter_scheduler-IsSound :
    (t cpu : ℕ) (s s' : Sched)
    → IsSound s
    → s.thread t ≡ none
    → enter_scheduler t cpu s ≡ ok s'
    → IsSound s'
unfolding enter_scheduler
enter_scheduler-IsSound t cpu s s' i free e =
    with_bind (insert_thread kernel_process t (put_thread s t empty_thread)) _ e λ s1 e1 rest.
      with_bind (deref s1 t) _ rest λ th there last.
        let j : IsSound s1 =
          insert_thread-IsSound kernel_process t empty_thread (put_thread s t empty_thread) s1
            (IsSound-change i t (some empty_thread) s.queue (rw free at (i.queued t)) (λ u h. refl)
              (λ r. rw free at r))
            (write_self s.thread t (some empty_thread)) refl e1 in
        let (th', there', is_ready) = insert_thread-ready kernel_process t _ s1 e1 in
        subst IsSound (ok-injective last) (
          vacate cpu (
            IsSound-change j t (some (record th { state = scheduler })) s1.queue
              (law_le_one (s1.thread t) (count t s1.queue) (j.queued t)) (λ u h. refl)
              (idle s1 t th' there' (ground arith))))
