-- ===== src/Scheduler/Invariant.antt =====
-- What holds of the scheduler's tables whenever the global scheduler lock is free: every thread
-- stands in the queue exactly as often as its state asks for, and runs on the CPU that names it.
use yetanotheros.Common.{
  ℕ, suc, ◌≤◌, ◌≡◌, ◌≢◌, refl, false, Option, none, some, List, [], ◌∷◌, ◌++◌, ◌==◌, if◌then◌else◌,
  arith, Bool-cases, ==→eq, ==→ne, eq→==, ne→==, inl, inr, ◌∙◌,
}
use yetanotheros.Common.Store.{write, write_self, write_ne}
use yetanotheros.Scheduler.State.{ThreadState, Thread, ready, running, Sched, put_thread}

-- How often a thread stands in a list of threads.
abbrev pub count : ℕ → List ℕ → ℕ
count t [] = 0
count t (x ∷ xs) = if t == x then suc (count t xs) else count t xs

pub count-snoc :
    (t u : ℕ) (xs : List ℕ)
    → count t (xs ++ (u ∷ [])) ≡ (if t == u then suc (count t xs) else count t xs)
count-snoc t u [] = refl
count-snoc t u (x ∷ xs) = ground (arith, count-snoc t u xs)

-- READY, SLEEPING and EXITED threads are in the queue once, a scheduler thread at most once, and
-- all others, freed ones included, not at all.
abbrev pub StateLaw : ThreadState → ℕ → Type 0
StateLaw ThreadState.ready n = n ≡ 1
StateLaw ThreadState.sleeping n = n ≡ 1
StateLaw ThreadState.exited n = n ≡ 1
StateLaw ThreadState.scheduler n = n ≤ 1
StateLaw _ n = n ≡ 0

abbrev pub QueueLaw : Option Thread → ℕ → Type 0
QueueLaw none n = n ≡ 0
QueueLaw (some th) n = StateLaw th.state n

abbrev pub Runs : Option Thread → Type 0
Runs none = ⊥
Runs (some th) = th.state ≡ running

-- `owned`: what a CPU names runs. `single`: no two CPUs name the same thread.
pub record IsSoundOf (thread : ℕ → Option Thread) (queue : List ℕ) (current : ℕ → Option ℕ)
    : Type 0 where
  pub queued : (t : ℕ) → QueueLaw (thread t) (count t queue)
  pub owned : (cpu t : ℕ) → current cpu ≡ some t → Runs (thread t)
  pub single : (c d t : ℕ) → current c ≡ some t → current d ≡ some t → c ≡ d

abbrev pub IsSound : Sched → Type 0
IsSound s = IsSoundOf s.thread s.queue s.current

module _ {thread : ℕ → Option Thread} {queue : List ℕ} {current : ℕ → Option ℕ}
    (i : IsSoundOf thread queue current) (t : ℕ) (th : Option Thread) (queue' : List ℕ)
    (law : QueueLaw th (count t queue'))
    (rest : (u : ℕ) → u ≢ t → count u queue' ≡ count u queue) where
  queued-write : (u : ℕ) → QueueLaw (write thread t th u) (count u queue')
  queued-write u = elim (Bool-cases (u == t)) [
    | inl e ↦ rw (==→eq u t e, write_self thread t th) law
    | inr e ↦ rw (write_ne thread t th u (==→ne u t e), rest u (==→ne u t e)) (i.queued u)
  ]

  -- A change of one thread that does not run, and of the queue at that thread only.
  pub IsSound-change : ¬ Runs (thread t) → IsSoundOf (write thread t th) queue' current
  IsSound-change idle = record {
    queued = queued-write;
    owned = λ cpu u r. elim (Bool-cases (u == t)) [
      | inl e ↦ absurd (idle (rw (==→eq u t e) at (i.owned cpu u r)))
      | inr e ↦ rw (write_ne thread t th u (==→ne u t e)) (i.owned cpu u r)
    ];
    single = i.single;
  }

  idle_owner : ¬ Runs (thread t) → (c : ℕ) → current c ≢ some t
  idle_owner idle c r = idle (i.owned c t r)

  -- A CPU gives up its thread.
  pub IsSound-leave :
      (cpu : ℕ)
      → current cpu ≡ some t
      → IsSoundOf (write thread t th) queue' (write current cpu none)
  unfolding write
  IsSound-leave cpu here = record {
    queued = queued-write;
    owned = λ c u r. grind (arith, i.owned c u, i.single c cpu u);
    single = λ c d u. grind (arith, i.single c d u);
  }

  owner_ne :
      (cpu c u : ℕ) → (u == t) ≡ false → write current cpu (some t) c ≡ some u → (c == cpu) ≡ false
  unfolding write
  owner_ne cpu c u e r = ground arith

  -- A CPU that has none takes up a thread that does not run.
  pub IsSound-enter :
      (cpu : ℕ)
      → ¬ Runs (thread t)
      → Runs th
      → IsSoundOf (write thread t th) queue' (write current cpu (some t))
  unfolding write
  IsSound-enter cpu idle runs = record {
    queued = queued-write;
    owned = λ c u r. elim (Bool-cases (u == t)) [
      | inl e ↦ rw e runs
      | inr e ↦ rw e (i.owned c u (rw (owner_ne cpu c u e r) at r))
    ];
    single = λ c d u p q. grind (arith, i.single c d u, idle_owner idle c, idle_owner idle d);
  }

-- A change of a thread's record that keeps its state.
pub IsSound-keep :
    (s : Sched) (t : ℕ) (th th' : Thread)
    → IsSound s
    → s.thread t ≡ some th
    → th'.state ≡ th.state
    → IsSound (put_thread s t th')
IsSound-keep s t th th' i there e = record {
  queued = λ u. elim (Bool-cases (u == t)) [
    | inl k ↦ rw (==→eq u t k, write_self s.thread t (some th'), e) (rw there at (i.queued t))
    | inr k ↦ rw (write_ne s.thread t (some th') u (==→ne u t k)) (i.queued u)
  ];
  owned = λ c u r. elim (Bool-cases (u == t)) [
    | inl k ↦
        rw (==→eq u t k, write_self s.thread t (some th'), e)
          (rw (==→eq u t k, there) at (i.owned c u r))
    | inr k ↦ rw (write_ne s.thread t (some th') u (==→ne u t k)) (i.owned c u r)
  ];
  single = i.single;
}

-- A thread that does not run is made READY and put at one end of the queue.
pub IsSound-wake :
    (s : Sched) (t : ℕ) (th : Thread) (queue' : List ℕ)
    → IsSound s
    → ¬ Runs (s.thread t)
    → th.state ≡ ready
    → count t s.queue ≡ 0
    → ((u : ℕ) → count u queue' ≡ (if u == t then suc (count u s.queue) else count u s.queue))
    → IsSound (record s { thread = write s.thread t (some th); queue = queue' })
IsSound-wake s t th queue' i idle is_ready absent placed =
    IsSound-change i t (some th) queue' (rw (is_ready, placed t, eq→== t t refl, absent))
      (λ u h. placed u ∙ rw (ne→== u t h)) idle
