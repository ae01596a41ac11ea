-- ===== src/Scheduler/Wakeups.antt =====
-- Which thread a notification wakes, and which child `proc_wait` collects.
use yetanotheros.Common.{
  ℕ, ◌≡◌, ◌⊎◌, refl, Bool, true, false, none, some, List, [], ◌∷◌, ◌==◌, arith, Bool-cases,
  Option-cases, inl, inr, ◌∙◌, sym, ap, subst, ◌&&◌, Has, eq_of_some,
}
use yetanotheros.Common.Outcome.{ok, with_bind, ok-injective}
use yetanotheros.Common.Store.{write}
use yetanotheros.Scheduler.State.{
  Thread, ready, waiting, blocked, Sched, put_thread, put_proc, Proc, proc_defunct, proc_truncate,
}
use yetanotheros.Scheduler.Process.{collect_process}
use yetanotheros.Scheduler.Threads.{
  waits_on, is_blocked, is_defunct, notify_threads, notify_procs, sched_thread_notify_one,
  find_defunct, proc_wait, reschedule,
}
use yetanotheros.Scheduler.Calls.{with_current}

abbrev pub BlockedOn : ℕ → Sched → ℕ → Type 0
BlockedOn c s t = (th : Thread) × (s.thread t ≡ some th) × (th.cond ≡ some c) × (th.state ≡ blocked)

-- The tables after `t` has been made READY and put at the head of the queue.
abbrev pub woken : ℕ → Thread → Sched → Sched
woken t th s = record s {
  thread = write s.thread t (some (record th { state = ready }));
  queue = t ∷ s.queue;
}

abbrev pub WakesOneOf : ℕ → Sched → Sched → (ℕ → Type 0) → Type 0
WakesOneOf c s s' In =
    (t : ℕ) × (th : Thread) × In t
    × (s.thread t ≡ some th)
    × (th.cond ≡ some c)
    × (th.state ≡ blocked)
    × (s' ≡ woken t th s)

none-ne-some : {A : Type 0} {a : A} → ¬ (none ≡ some a)
none-ne-some h = cc

waits_lem :
    (th : Thread) (c : ℕ)
    → (waits_on th.cond c && is_blocked th.state) ≡ true
    → (th.cond ≡ some c) × (th.state ≡ blocked)
waits_lem th c e = ground arith

not_blocked :
    (c : ℕ) (s : Sched) (t : ℕ) (th : Thread)
    → s.thread t ≡ some th
    → (waits_on th.cond c && is_blocked th.state) ≡ false
    → ¬ BlockedOn c s t
not_blocked c s t th there n (th', there', on, is) =
    let same : th ≡ th' = eq_of_some (sym there ∙ there') in
    refute th' (subst (λ x. (waits_on x.cond c && is_blocked x.state) ≡ false) same n) on is
  where
    refute :
        (x : Thread)
        → (waits_on x.cond c && is_blocked x.state) ≡ false
        → x.cond ≡ some c
        → x.state ≡ blocked
        → ⊥
    refute x m p q = ground arith

nobody_cons :
    (c : ℕ) (s : Sched) (t u : ℕ) (ts : List ℕ)
    → ¬ BlockedOn c s t
    → (Has u ts → ¬ BlockedOn c s u)
    → Has u (t ∷ ts)
    → ¬ BlockedOn c s u
nobody_cons c s t u ts h k (inl e) b = h (subst (BlockedOn c s) e b)
nobody_cons c s t u ts h k (inr l) b = k l b

notify_threads-cases :
    (c : ℕ) (ts : List ℕ) (s : Sched) (r : Sched × Bool)
    → notify_threads c ts s ≡ ok r
    → ((r.1 ≡ true) × WakesOneOf c s r.0 (λ t. Has t ts))
      ⊎ ((r.1 ≡ false) × (r.0 ≡ s) × ((t : ℕ) → Has t ts → ¬ BlockedOn c s t))
unfolding notify_threads
notify_threads-cases c [] s r e =
    inr
      (ap (λ x. x.1) (sym (ok-injective e)), ap (λ x. x.0) (sym (ok-injective e)), λ t h. absurd h)
notify_threads-cases c (t ∷ ts) s r e = elim (Option-cases (s.thread t)) [
  | inl z ↦ cc (rw (z, notify_threads) at e)
  | inr (th, there) ↦ elim (Bool-cases (waits_on th.cond c && is_blocked th.state)) [
    | inl y ↦
        let r-eq = ok-injective (rw (there, y, notify_threads) at e) in
        let (on, is) = waits_lem th c y in
        inl (ap (λ x. x.1) (sym r-eq), (t, th, inl refl, there, on, is, ap (λ x. x.0) (sym r-eq)))
    | inr n ↦ elim (notify_threads-cases c ts s r (rw (there, n, notify_threads) at e)) [
      | inl (won, (u, uh, in_ts, a, b, d, f)) ↦ inl (won, (u, uh, inr in_ts, a, b, d, f))
      | inr (lost, same, nobody) ↦
          inr (lost, same, λ u. nobody_cons c s t u ts (not_blocked c s t th there n) (nobody u))
    ]
  ]
]

-- `t` is a thread of one of the processes of a list.
abbrev pub ThreadOf : Sched → List ℕ → ℕ → Type 0
ThreadOf s ps t = (p : ℕ) × Has p ps × Has t (s.proc p).threads

notify_procs-cases :
    (c : ℕ) (ps : List ℕ) (s s' : Sched)
    → notify_procs c ps s ≡ ok s'
    → WakesOneOf c s s' (ThreadOf s ps)
      ⊎ ((s' ≡ s) × ((t : ℕ) → ThreadOf s ps t → ¬ BlockedOn c s t))
unfolding notify_procs
notify_procs-cases c [] s s' e = inr (sym (ok-injective e), λ t (p, h, l). absurd h)
notify_procs-cases c (p ∷ ps) s s' e =
    with_bind (notify_threads c (s.proc p).threads s) _ e λ r e1 rest.
      elim (notify_threads-cases c (s.proc p).threads s r e1) [
        | inl (won, (t, th, l, a, b, d, f)) ↦
            inl (t, th, (p, inl refl, l), a, b, d, sym (ok-injective (rw won at rest)) ∙ f)
        | inr (lost, same, nobody) ↦
            elim (notify_procs-cases c ps s s'
              (subst (λ x. notify_procs c ps x ≡ ok s') same (rw lost at rest))) [
                | inl (t, th, (q, h, l), a, b, d, f) ↦ inl (t, th, (q, inr h, l), a, b, d, f)
                | inr (unchanged, others) ↦ inr (unchanged, λ t. all_of p t nobody others)
              ]
      ]
  where
    all_of :
        (p t : ℕ)
        → ((u : ℕ) → Has u (s.proc p).threads → ¬ BlockedOn c s u)
        → ((u : ℕ) → ThreadOf s ps u → ¬ BlockedOn c s u)
        → ThreadOf s (p ∷ ps) t
        → ¬ BlockedOn c s t
    all_of p t h k (q, inl e, l) = h t (subst (λ x. Has t (s.proc x).threads) e l)
    all_of p t h k (q, inr m, l) = k t (q, m, l)

-- `sched_thread_notify_one` wakes exactly one thread that is blocked on the condition (it becomes
-- READY and goes to the head of the queue, and nothing else changes), and it does nothing only if
-- no thread of any process in the list is blocked on the condition.
pub sched_thread_notify_one-cases :
    (c : ℕ) (s s' : Sched)
    → sched_thread_notify_one c s ≡ ok s'
    → WakesOneOf c s s' (ThreadOf s s.processes)
      ⊎ ((s' ≡ s) × ((t : ℕ) → ThreadOf s s.processes t → ¬ BlockedOn c s t))
unfolding sched_thread_notify_one
sched_thread_notify_one-cases c s s' e = notify_procs-cases c s.processes s s' e

find_defunct-some :
    (s : Sched) (pid : ℕ) (ps : List ℕ) {p : ℕ}
    → find_defunct s pid ps ≡ some p
    → Has p ps × ((s.proc p).parent ≡ pid) × ((s.proc p).state ≡ proc_defunct)
unfolding find_defunct
find_defunct-some s pid [] e = cc
find_defunct-some s pid (q ∷ ps) {p} e =
    elim (Bool-cases ((s.proc q).parent == pid && is_defunct (s.proc q).state)) [
      | inl y ↦
          let same : q ≡ p = eq_of_some (rw (y, find_defunct) at e) in
          subst
            (λ x. Has x (q ∷ ps) × ((s.proc x).parent ≡ pid) × ((s.proc x).state ≡ proc_defunct))
            same (inl refl, (found (s.proc q) y).0, (found (s.proc q) y).1)
      | inr n ↦
          let (h, a, b) = find_defunct-some s pid ps {p = p} (rw (n, find_defunct) at e) in
          (inr h, a, b)
    ]
  where
    found :
        (x : Proc)
        → (x.parent == pid && is_defunct x.state) ≡ true
        → (x.parent ≡ pid) × (x.state ≡ proc_defunct)
    found x y = ground arith

-- When `proc_wait` returns at once, the process whose pid and exit status it returns is a DEFUNCT
-- child of the caller's process; it is left in state TRUNCATE, so that it is not collected again,
-- and no other process and no thread, queue or CPU is touched.
pub proc_wait-collects :
    (cpu t : ℕ) (th : Thread) (s s' : Sched) (pid status : ℕ)
    → s.current cpu ≡ some t
    → s.thread t ≡ some th
    → proc_wait cpu s ≡ ok (s', some (pid, status))
    → (p : ℕ) × Has p s.processes
      × ((s.proc p).parent ≡ (s.proc th.parent).pid)
      × ((s.proc p).state ≡ proc_defunct)
      × (pid ≡ (s.proc p).pid)
      × (status ≡ (s.proc p).exit_status)
      × (s' ≡ put_proc s p (record (s.proc p) { state = proc_truncate }))
unfolding proc_wait collect_process
proc_wait-collects cpu t th s s' pid status here there e =
    with_current cpu t s _ here e λ th' there' last.
      elim (Option-cases (find_defunct s (s.proc th'.parent).pid s.processes)) [
        | inr (p, found) ↦
            let r-eq = ok-injective (rw found at last) in
            let (h, a, b) = find_defunct-some s (s.proc th'.parent).pid s.processes found in
            let same : th' ≡ th = eq_of_some (sym there' ∙ there) in
            let result = eq_of_some (ap (λ x. x.1) r-eq) in
            (
              p,
              h,
              a ∙ ap (λ x. (s.proc x.parent).pid) same,
              b,
              sym (ap (λ x. x.0) result),
              sym (ap (λ x. x.1) result),
              sym (ap (λ x. x.0) r-eq),
            )
        | inl z ↦
            with_bind (reschedule cpu (put_thread s t (record th' { state = waiting }))) _
              (rw z at last) λ s1 e1 end. absurd (none-ne-some (ap (λ x. x.1) (ok-injective end)))
      ]
