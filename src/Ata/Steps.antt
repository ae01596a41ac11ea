-- ===== src/Ata/Steps.antt =====
-- Every call of the block cache keeps it sound, whichever callers make the calls in whatever order.
use yetanotheros.Common.{
  ℕ, suc, ◌+◌, ◌-◌, ◌%◌, ◌^◌, ◌<◌, ◌≤◌, ◌≡◌, ◌≢◌, inl, inr, refl, Bool, false, List, [], ◌∷◌, arith,
  length, ◌==◌, Bool-cases, ==→eq, ltb, leb, sym, subst, ap, ◌∙◌, Option, replicate,
  length-replicate,
}
use yetanotheros.Common.Outcome.{ok, with_bind, ok-injective, kassert-holds, kassert}
use yetanotheros.Scheduler.State.{Sched}
use yetanotheros.Scheduler.Invariant.{count}
use yetanotheros.Process.Mutex.{
  thread_mutex_acquire, thread_mutex_acquire_resume, thread_mutex_release, unsafe_mutex_held,
}
use yetanotheros.Ata.Cache.{
  BlockCache, Drive, ide_sector_size, gen_ata_bd_lock, gen_ata_bd_lock_resume, gen_ata_bd_unlock,
  claim_block, check_block, fill_block, drop_ref, gen_ata_bd_write, gen_ata_bd_read, check_range,
}
use yetanotheros.Ata.Sound.{IsSound, IsSound-mutex}
use yetanotheros.Ata.Claim.{
  claim_block-Claims, remove, count-remove, length-remove, count-le-length,
}
use yetanotheros.Ata.Transfer.{
  IsSound-same, IsAnswer, fill_block-Fills, Fills-IsSound, store_block-IsSound,
}

pub check_block-drive :
    (dp : Drive) (cpu i : ℕ) (c : BlockCache) (s : Sched) (u : Unit {0})
    → check_block dp cpu i c s ≡ ok u
    → dp.num ≡ (c.blocks i).drive
unfolding check_block
check_block-drive dp cpu i c s u e = with_bind (kassert dp.valid) _ e λ a _ e1.
    with_bind (unsafe_mutex_held (c.blocks i).mutex cpu s) _ e1 λ held _ e2.
      with_bind (kassert held) _ e2 λ b _ e3.
        sym (==→eq (c.blocks i).drive dp.num (kassert-holds ((c.blocks i).drive == dp.num) e3))

pub check_range-inside :
    (off len : ℕ) (u : Unit {0})
    → off + len < 2 ^ 32
    → check_range off len ≡ ok u
    → off + len ≤ ide_sector_size
check_range-inside off len u small e = with_bind (kassert (ltb off ide_sector_size)) _ e λ a _ e1.
    let inside = kassert-holds (leb ((off + len) % 2 ^ 32) ide_sector_size) e1 in ground arith

pub resume-IsSound :
    {c c' : BlockCache} {held : List ℕ} {s' : Sched} (s : Sched) (cpu i : ℕ) (v : IsSound c held)
    (got : Bool)
    → gen_ata_bd_lock_resume i cpu c s ≡ ok (c', s', i, got)
    → IsSound c' held
unfolding gen_ata_bd_lock_resume
resume-IsSound {c} {c'} {held} s cpu i v got e =
    with_bind (thread_mutex_acquire_resume (c.blocks i).mutex cpu s) _ e λ m _ e1.
      subst (λ (x : BlockCache × Sched × ℕ × Bool). IsSound x.0 held) (ok-injective e1)
        (IsSound-mutex c held i m.0 v)

module _ {c : BlockCache} {held : List ℕ} (s : Sched) (dp : Drive) (cpu i : ℕ)
    (v : IsSound c held) where
  pub lock-IsSound :
      {c' : BlockCache} {s' : Sched} (num : ℕ) (got : Bool)
      → suc (length held) < 2 ^ 32
      → gen_ata_bd_lock dp cpu num c s ≡ ok (c', s', i, got)
      → IsSound c' (i ∷ held)
  unfolding gen_ata_bd_lock
  lock-IsSound num got room e = with_bind (kassert dp.valid) _ e λ a _ e1.
      with_bind (kassert dp.present) _ e1 λ b _ e2.
        with_bind (claim_block c dp.num num) _ e2 λ r claimed e3.
          with_bind (thread_mutex_acquire (r.0.blocks r.1).mutex cpu s) _ e3 λ m _ e4.
            subst (λ (x : BlockCache × Sched × ℕ × Bool). IsSound x.0 (x.2 ∷ held))
              (ok-injective e4)
              (IsSound-mutex r.0 (r.1 ∷ held) r.1 m.0
                (claim_block-Claims c held dp.num num v room r claimed).0)

  dropped-count :
      count i held ≢ 0 → ((c.blocks i).ref + (2 ^ 32 - 1)) % 2 ^ 32 ≡ count i (remove i held)
  dropped-count used =
      ground (arith, v.counted i, count-remove i i held, count-le-length i held, v.few)

  pub unlock-IsSound :
      {c' : BlockCache} {s' : Sched}
      → count i held ≢ 0
      → gen_ata_bd_unlock dp cpu i c s ≡ ok (c', s')
      → IsSound c' (remove i held)
  unfolding gen_ata_bd_unlock
  unlock-IsSound used e = with_bind (check_block dp cpu i c s) _ e λ a _ e1.
      with_bind (thread_mutex_release (c.blocks i).mutex cpu s) _ e1 λ m _ e2.
        subst (λ (x : BlockCache × Sched). IsSound x.0 (remove i held)) (ok-injective e2)
          (IsSound-same c held i v used (remove i held)
            (drop_ref (record (c.blocks i) { mutex = m.0 })) (refl, refl) (v.sized i)
            (dropped-count used) (λ j ne. ground (arith, count-remove j i held))
            (omega (arith, length-remove i held, v.few)))

  pub read-IsSound :
      {c' : BlockCache} (off len : ℕ) (answer : Option (List ℕ)) (dest : List ℕ)
      → count i held ≢ 0
      → IsAnswer answer
      → gen_ata_bd_read dp cpu i off len answer c s ≡ ok (c', dest)
      → IsSound c' held
  unfolding gen_ata_bd_read
  read-IsSound off len answer dest used fits e = with_bind (check_block dp cpu i c s) _ e λ a _ e1.
      elim (Bool-cases (len == 0)) [
        | inl empty ↦
            subst (λ (x : BlockCache × List ℕ). IsSound x.0 held) (ok-injective (rw empty at e1)) v
        | inr n ↦ with_bind (fill_block dp i answer c) _ (rw n at e1) λ c1 fills e2.
            with_bind (check_range off len) _ e2 λ b _ e3.
              subst (λ (x : BlockCache × List ℕ). IsSound x.0 held) (ok-injective e3)
                (Fills-IsSound c held i v used c1
                  (fill_block-Fills dp i answer c c1 fits (v.sized i) fills))
      ]

  pub write-IsSound :
      {c' : BlockCache} (off : ℕ) (src : List ℕ) (answer : Option (List ℕ))
      → count i held ≢ 0
      → off + length src < 2 ^ 32
      → IsAnswer answer
      → gen_ata_bd_write dp cpu i off src answer c s ≡ ok c'
      → IsSound c' held
  unfolding gen_ata_bd_write
  write-IsSound off src answer used small fits e =
      with_bind (check_block dp cpu i c s) _ e λ a _ e1. elim (Bool-cases (length src == 0)) [
        | inl empty ↦ subst (λ x. IsSound x held) (ok-injective (rw empty at e1)) v
        | inr n ↦ with_bind (fill_block dp i answer c) _ (rw n at e1) λ c1 fills e2.
            with_bind (check_range off (length src)) _ e2 λ b ranged e3.
              subst (λ x. IsSound x held) (ok-injective e3)
                (store_block-IsSound c1 held i
                  (Fills-IsSound c held i v used c1
                    (fill_block-Fills dp i answer c c1 fits (v.sized i) fills))
                  used off src (check_range-inside off (length src) b small ranged))
      ]

-- A call that returns (or, for a lock, waits for the block's mutex), by any thread. Whoever
-- unlocks, reads or writes a block holds it.
pub data Call (c : BlockCache) (held : List ℕ) (c' : BlockCache) : List ℕ → Type 0 where
  lock :
      (dp : Drive) (cpu num i : ℕ) (s s' : Sched) (got : Bool)
      → suc (length held) < 2 ^ 32
      → gen_ata_bd_lock dp cpu num c s ≡ ok (c', s', i, got)
      → Call c held c' (i ∷ held)
  resume :
      (cpu i : ℕ) (s s' : Sched) (got : Bool)
      → gen_ata_bd_lock_resume i cpu c s ≡ ok (c', s', i, got)
      → Call c held c' held
  unlock :
      (dp : Drive) (cpu i : ℕ) (s s' : Sched)
      → count i held ≢ 0
      → gen_ata_bd_unlock dp cpu i c s ≡ ok (c', s')
      → Call c held c' (remove i held)
  read :
      (dp : Drive) (cpu i off len : ℕ) (answer : Option (List ℕ)) (dest : List ℕ) (s : Sched)
      → count i held ≢ 0
      → IsAnswer answer
      → gen_ata_bd_read dp cpu i off len answer c s ≡ ok (c', dest)
      → Call c held c' held
  store :
      (dp : Drive) (cpu i off : ℕ) (src : List ℕ) (answer : Option (List ℕ)) (s : Sched)
      → count i held ≢ 0
      → off + length src < 2 ^ 32
      → IsAnswer answer
      → gen_ata_bd_write dp cpu i off src answer c s ≡ ok c'
      → Call c held c' held

-- The cache as `ata_gen_install` leaves it: all blocks are zero, with the bytes of a sector.
pub record IsFresh (c : BlockCache) : Type 0 where
  pub unused : (i : ℕ) → ((c.blocks i).ref ≡ 0) × ((c.blocks i).is_valid ≡ false)
  pub sized : (i : ℕ) → (c.blocks i).bytes ≡ replicate ide_sector_size 0

pub data CacheReach : BlockCache → List ℕ → Type 0 where
  start : {c : BlockCache} → IsFresh c → CacheReach c []
  next :
      {c c' : BlockCache} {held held' : List ℕ}
      → CacheReach c held
      → Call c held c' held'
      → CacheReach c' held'

Call-IsSound :
    {c c' : BlockCache} {held held' : List ℕ}
    → IsSound c held
    → Call c held c' held'
    → IsSound c' held'
Call-IsSound v (lock dp cpu num i s s' got room e) = lock-IsSound s dp cpu i v num got room e
Call-IsSound v (resume cpu i s s' got e) = resume-IsSound s cpu i v got e
Call-IsSound v (unlock dp cpu i s s' used e) = unlock-IsSound s dp cpu i v used e
Call-IsSound v (read dp cpu i off len answer dest s used fits e) =
    read-IsSound s dp cpu i v off len answer dest used fits e
Call-IsSound v (store dp cpu i off src answer s used small fits e) =
    write-IsSound s dp cpu i v off src answer used small fits e

-- In whatever order callers lock, unlock, read and write blocks, from the cache of zeros on, and
-- whatever sectors or errors the drives answer: `held` has each block as often as its reference
-- counter says, a block that is referenced is the first of its sector and every later one of the
-- sector is neither valid nor referenced, so all holders of a sector have the same block, and every
-- block has the bytes of a sector. Callers unlock, read and write only blocks that they hold, and
-- there are fewer than 2 ^ 32 holders.
pub CacheReach-IsSound : {c : BlockCache} {held : List ℕ} → CacheReach c held → IsSound c held
CacheReach-IsSound (start fresh) = record {
  first = λ i j lt bound eq. ((fresh.unused j).1, (fresh.unused j).0);
  counted = λ i. (fresh.unused i).0;
  inside = λ i used. absurd (used refl);
  few = omega arith;
  sized = λ i. ap length (fresh.sized i) ∙ length-replicate {A = ℕ} ide_sector_size 0;
}
CacheReach-IsSound (next r call) = Call-IsSound (CacheReach-IsSound r) call
