-- ===== src/Process/Exclusion.antt =====
-- The mutex excludes: threads on any CPU take its operations in any order, and at most one of them
-- is between its acquire and its release.
use yetanotheros.Common.{
  ℕ, ◌≡◌, refl, sym, subst, ap, ◌∙◌, Bool, true, false, List, [], ◌∷◌, ◌⊎◌, inl, inr, ◌==◌, ◌&&◌,
  not, if◌then◌else◌, Bool-cases, eq→==, ==→eq,
}
use yetanotheros.Common.Outcome.{
  Outcome, ok, ◌>>=◌, ◌>>◌, kassert, ok-injective, with_bind, kassert-holds,
}
use mathlib.Core.Bool.{true≢false}
use yetanotheros.Scheduler.State.{Sched, remove}
use yetanotheros.Scheduler.Threads.{sched_thread_wait, sched_thread_resume, sched_thread_notify_one}
use yetanotheros.Scheduler.Wakeups.{WakesOneOf, ThreadOf, BlockedOn, sched_thread_notify_one-cases}
use yetanotheros.Process.Mutex.{
  tid_invalid, ThreadMutex, thread_mutex_create, current_tid, holds, acquire_loop,
  thread_mutex_acquire, thread_mutex_acquire_resume, unsafe_mutex_release, unsafe_mutex_held,
  thread_mutex_release, thread_cond_wait, thread_cond_wait_resume,
}

-- Who is inside after a call: the thread itself, if it has returned.
abbrev enter : Bool → ℕ → List ℕ → List ℕ
enter true tid inside = tid ∷ inside
enter false tid inside = inside

-- The mutex and the tids of the threads between acquire and release; each step may find any state
-- of the scheduler.
pub data MutexStep : ThreadMutex × List ℕ → ThreadMutex × List ℕ → Type 0 where
  acquire :
      (cpu tid : ℕ) (s s1 : Sched) (m m1 : ThreadMutex) (inside : List ℕ) (got : Bool)
      → current_tid cpu s ≡ ok tid
      → thread_mutex_acquire m cpu s ≡ ok (m1, s1, got)
      → MutexStep (m, inside) (m1, enter got tid inside)
  resume :
      (cpu tid : ℕ) (s s0 s1 : Sched) (m m1 : ThreadMutex) (inside : List ℕ) (got : Bool)
      → sched_thread_resume m.wait_cond cpu s ≡ ok s0
      → current_tid cpu s0 ≡ ok tid
      → thread_mutex_acquire_resume m cpu s ≡ ok (m1, s1, got)
      → MutexStep (m, inside) (m1, enter got tid inside)
  release :
      (cpu tid : ℕ) (s s1 : Sched) (m m1 : ThreadMutex) (inside : List ℕ)
      → current_tid cpu s ≡ ok tid
      → thread_mutex_release m cpu s ≡ ok (m1, s1)
      → MutexStep (m, inside) (m1, remove tid inside)
  cond_wait :
      (cond cpu tid : ℕ) (s s1 : Sched) (m m1 : ThreadMutex) (inside : List ℕ)
      → current_tid cpu s ≡ ok tid
      → thread_cond_wait cond m cpu s ≡ ok (m1, s1)
      → MutexStep (m, inside) (m1, remove tid inside)
  cond_resume :
      (cond cpu tid : ℕ) (s s0 s1 : Sched) (m m1 : ThreadMutex) (inside : List ℕ) (got : Bool)
      → sched_thread_resume cond cpu s ≡ ok s0
      → current_tid cpu s0 ≡ ok tid
      → thread_cond_wait_resume cond m cpu s ≡ ok (m1, s1, got)
      → MutexStep (m, inside) (m1, enter got tid inside)

pub data MutexReach (cond : ℕ) : ThreadMutex × List ℕ → Type 0 where
  created : MutexReach cond (thread_mutex_create cond, [])
  step : {a b : ThreadMutex × List ℕ} → MutexReach cond a → MutexStep a b → MutexReach cond b

-- Nobody is inside a free mutex, and exactly its holder is inside a locked one.
abbrev pub IsExclusive : ThreadMutex × List ℕ → Type 0
IsExclusive (m, inside) =
    ((m.locked ≡ false) × (inside ≡ [])) ⊎ ((m.locked ≡ true) × (inside ≡ m.tid ∷ []))

abbrev waits : ThreadMutex → ℕ → Sched → Outcome (ThreadMutex × Sched × Bool)
waits m cpu s = sched_thread_wait m.wait_cond cpu s >>= λ s1. ok (m, s1, false)

acquire_loop-free :
    (m : ThreadMutex) (tid cpu : ℕ) (s : Sched)
    → m.locked ≡ false
    → acquire_loop m tid cpu s ≡ ok (record m { locked = true; tid = tid }, s, true)
unfolding acquire_loop
acquire_loop-free m tid cpu s free =
    let got : Outcome (ThreadMutex × Sched × Bool) =
      ok (record m { locked = true; tid = tid }, s, true) in
    subst (λ b. (if b then waits m cpu s else got) ≡ got) (sym free) refl

acquire_loop-locked :
    (m : ThreadMutex) (tid cpu : ℕ) (s : Sched)
    → m.locked ≡ true
    → acquire_loop m tid cpu s ≡ waits m cpu s
unfolding acquire_loop
acquire_loop-locked m tid cpu s taken =
    let got : Outcome (ThreadMutex × Sched × Bool) =
      ok (record m { locked = true; tid = tid }, s, true) in
    subst (λ b. (if b then waits m cpu s else got) ≡ waits m cpu s) (sym taken) refl

acquire_loop-IsExclusive :
    (m m1 : ThreadMutex) (tid cpu : ℕ) (s s1 : Sched) (inside : List ℕ) (got : Bool)
    → acquire_loop m tid cpu s ≡ ok (m1, s1, got)
    → IsExclusive (m, inside)
    → IsExclusive (m1, enter got tid inside)
acquire_loop-IsExclusive m m1 tid cpu s s1 inside got e (inl (free, nobody)) =
    subst (λ r. IsExclusive (r.0, enter r.2 tid inside))
      (ok-injective (sym (acquire_loop-free m tid cpu s free) ∙ e))
      (inr (refl, ap (λ l. tid ∷ l) nobody))
acquire_loop-IsExclusive m m1 tid cpu s s1 inside got e (inr (taken, one)) =
    with_bind (sched_thread_wait m.wait_cond cpu s) _
      (sym (acquire_loop-locked m tid cpu s taken) ∙ e)
      λ s2 w last.
        subst (λ r. IsExclusive (r.0, enter r.2 tid inside)) (ok-injective last) (inr (taken, one))

release-locked :
    (m m1 : ThreadMutex) (cpu tid : ℕ) (s : Sched)
    → current_tid cpu s ≡ ok tid
    → unsafe_mutex_release m cpu s ≡ ok m1
    → (holds m tid ≡ true) × (record m { tid = tid_invalid; locked = false } ≡ m1)
unfolding unsafe_mutex_release
release-locked m m1 cpu tid s here e =
    with_bind (kassert (not (m.tid == tid_invalid)) >> current_tid cpu s) _ e λ t first last.
      with_bind (kassert (not (m.tid == tid_invalid))) _ first λ u valid there.
        with_bind (kassert (holds m t)) _ last λ v held done. (
          subst (λ x. holds m x ≡ true) (ok-injective (sym there ∙ here))
              (kassert-holds (holds m t) held),
          ok-injective done,
        )

release-is :
    (m m1 : ThreadMutex) (cpu : ℕ) (s : Sched)
    → unsafe_mutex_release m cpu s ≡ ok m1
    → record m { tid = tid_invalid; locked = false } ≡ m1
unfolding unsafe_mutex_release
release-is m m1 cpu s e =
    with_bind (kassert (not (m.tid == tid_invalid)) >> current_tid cpu s) _ e
      λ t first last. with_bind (kassert (holds m t)) _ last λ v held done. ok-injective done

holder : (m : ThreadMutex) (tid : ℕ) → holds m tid ≡ true → (m.locked ≡ true) × (m.tid ≡ tid)
holder m tid h = elim (Bool-cases m.locked) [
  | inl y ↦ (y, ==→eq m.tid tid (subst (λ b. (b && m.tid == tid) ≡ true) y h))
  | inr n ↦ absurd (true≢false (sym (subst (λ b. (b && m.tid == tid) ≡ true) n h)))
]

remove-only : (t : ℕ) → remove t (t ∷ []) ≡ []
unfolding remove
remove-only t = rw (eq→== t t refl) refl

release-IsExclusive :
    (m m1 : ThreadMutex) (cpu tid : ℕ) (s : Sched) (inside : List ℕ)
    → current_tid cpu s ≡ ok tid
    → unsafe_mutex_release m cpu s ≡ ok m1
    → IsExclusive (m, inside)
    → IsExclusive (m1, remove tid inside)
release-IsExclusive m m1 cpu tid s inside here e i =
    let (held, is) = release-locked m m1 cpu tid s here e in
    let (locked, same) = holder m tid held in
    subst (λ x. IsExclusive (x, remove tid inside)) is
      (elim i [
        | inl (free, nobody) ↦ absurd (true≢false (sym locked ∙ free))
        | inr (taken, one) ↦
            inl (refl, ap (remove tid) (one ∙ ap (λ t. t ∷ []) same) ∙ remove-only tid)
      ])

acquire-IsExclusive :
    (m m1 : ThreadMutex) (cpu tid : ℕ) (s s1 : Sched) (inside : List ℕ) (got : Bool)
    → current_tid cpu s ≡ ok tid
    → thread_mutex_acquire m cpu s ≡ ok (m1, s1, got)
    → IsExclusive (m, inside)
    → IsExclusive (m1, enter got tid inside)
unfolding thread_mutex_acquire
acquire-IsExclusive m m1 cpu tid s s1 inside got here e i =
    with_bind (current_tid cpu s) _ e λ t there rest.
      with_bind (kassert (not (holds m t))) _ rest λ u fresh last.
        subst (λ x. IsExclusive (m1, enter got x inside)) (ok-injective (sym there ∙ here))
          (acquire_loop-IsExclusive m m1 t cpu s s1 inside got last i)

cond_wait-IsExclusive :
    (cond : ℕ) (m m1 : ThreadMutex) (cpu tid : ℕ) (s s1 : Sched) (inside : List ℕ)
    → current_tid cpu s ≡ ok tid
    → thread_cond_wait cond m cpu s ≡ ok (m1, s1)
    → IsExclusive (m, inside)
    → IsExclusive (m1, remove tid inside)
unfolding thread_cond_wait
cond_wait-IsExclusive cond m m1 cpu tid s s1 inside here e i =
    with_bind (unsafe_mutex_held m cpu s) _ e λ held known rest.
      with_bind (kassert held >> unsafe_mutex_release m cpu s) _ rest λ x both more.
        with_bind (kassert held) _ both λ u valid first.
          with_bind (sched_thread_notify_one m.wait_cond s) _ more λ s2 woken wait.
            with_bind (sched_thread_wait cond cpu s2) _ wait λ s3 blocked last.
              subst (λ r. IsExclusive (r.0, remove tid inside)) (ok-injective last)
                (release-IsExclusive m x cpu tid s inside here first i)

MutexStep-IsExclusive : {a b : ThreadMutex × List ℕ} → MutexStep a b → IsExclusive a → IsExclusive b
unfolding thread_mutex_acquire_resume thread_mutex_release thread_cond_wait_resume
MutexStep-IsExclusive (acquire cpu tid s s1 m m1 inside got here e) i =
    acquire-IsExclusive m m1 cpu tid s s1 inside got here e i
MutexStep-IsExclusive (cond_wait cond cpu tid s s1 m m1 inside here e) i =
    cond_wait-IsExclusive cond m m1 cpu tid s s1 inside here e i
MutexStep-IsExclusive (cond_resume cond cpu tid s s0 s1 m m1 inside got woken here e) i =
    with_bind (sched_thread_resume cond cpu s) _ e λ x again rest.
      acquire-IsExclusive m m1 cpu tid x s1 inside got
        (ap (current_tid cpu) (ok-injective (sym again ∙ woken)) ∙ here) rest i
MutexStep-IsExclusive (resume cpu tid s s0 s1 m m1 inside got woken here e) i =
    with_bind (sched_thread_resume m.wait_cond cpu s) _ e λ x again rest.
      with_bind (current_tid cpu x) _ rest λ t there last.
        subst (λ y. IsExclusive (m1, enter got y inside))
          (ok-injective
            (sym there ∙ ap (current_tid cpu) (ok-injective (sym again ∙ woken)) ∙ here))
          (acquire_loop-IsExclusive m m1 t cpu x s1 inside got last i)
MutexStep-IsExclusive (release cpu tid s s1 m m1 inside here e) i =
    with_bind (unsafe_mutex_release m cpu s) _ e λ x first rest.
      with_bind (sched_thread_notify_one m.wait_cond s) _ rest λ s2 woken last.
        subst (λ r. IsExclusive (r.0, remove tid inside)) (ok-injective last)
          (release-IsExclusive m x cpu tid s inside here first i)

-- From `_thread_mutex_create` on, in every order of acquiring, releasing, waiting on conditions and
-- resuming on any CPU, and whatever the scheduler does in between, at most one thread is between its acquire and its
-- release: nobody is while the mutex is free, and only the thread whose tid it holds while it is
-- locked.
pub MutexReach-IsExclusive :
    (cond : ℕ) {a : ThreadMutex × List ℕ} → MutexReach cond a → IsExclusive a
unfolding thread_mutex_create
MutexReach-IsExclusive cond created = inl (refl, refl)
MutexReach-IsExclusive cond (step r st) = MutexStep-IsExclusive st (MutexReach-IsExclusive cond r)

-- When `thread_mutex_release` returns, the mutex is free, and the scheduler has woken exactly one
-- thread that was blocked on its condition, or no thread was.
pub thread_mutex_release-wakes :
    (m m1 : ThreadMutex) (cpu : ℕ) (s s1 : Sched)
    → thread_mutex_release m cpu s ≡ ok (m1, s1)
    → (m1 ≡ record m { tid = tid_invalid; locked = false })
      × (WakesOneOf m.wait_cond s s1 (ThreadOf s s.processes)
          ⊎ ((s1 ≡ s) × ((t : ℕ) → ThreadOf s s.processes t → ¬ BlockedOn m.wait_cond s t)))
unfolding thread_mutex_release
thread_mutex_release-wakes m m1 cpu s s1 e =
    with_bind (unsafe_mutex_release m cpu s) _ e λ x first rest.
      with_bind (sched_thread_notify_one m.wait_cond s) _ rest λ s2 woken last. (
        ap (λ r. r.0) (sym (ok-injective last)) ∙ sym (release-is m x cpu s first),
        subst
            (λ y.
              WakesOneOf m.wait_cond s y (ThreadOf s s.processes)
              ⊎ ((y ≡ s) × ((t : ℕ) → ThreadOf s s.processes t → ¬ BlockedOn m.wait_cond s t)))
            (ap (λ r. r.1) (ok-injective last))
            (sched_thread_notify_one-cases m.wait_cond s s2 woken),
      )
