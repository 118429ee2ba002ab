-- ===== src/Plock/Locks/Valid.antt =====
-- What `lock_internal` and `unlock_internal` of group/dlm_controld/plock.c keep of the list.
use dlm.Base.{
  ◌≤◌, ◌≡◌, inl, inr, refl, true, false, List, [], ◌∷◌, All, All-append, ◌==◌, arith, Bool-cases,
  lnot, succ_u64, pred_u64,
}
use dlm.Plock.Types.{Info, PosixLock, Rv, ok, Mem}
use dlm.Plock.Range.{
  OverlapType, same, at_edge, inside, covering, partial, invalid, overlap_type, ranges_overlap,
}
use dlm.Plock.Range.Geometry.{Relates, overlap_type-Relates}
use dlm.Plock.Locks.{
  Outcome, same_owner, keep, convert, lock_for, add_lock, lock_case1, lock_case2, lock_case2_back,
  lock_switch, lock_internal, unlock_switch, unlock_loop, unlock_internal,
}
use dlm.Plock.Locks.Lock.{lock_case1_lem}
use dlm.Plock.Locks.Unlock.{shrunk_lem}
use dlm.Plock.Locks.View.{IsLock, IsRequest}

add_lock-valid :
    (mem : Mem) (locks : List PosixLock) (po : PosixLock)
    → All IsLock locks
    → IsLock po
    → All IsLock (add_lock mem locks po).locks
unfolding add_lock
add_lock-valid [] locks po v l = All-append IsLock locks (po ∷ []) v (l, tt)
add_lock-valid (true ∷ m) locks po v l = All-append IsLock locks (po ∷ []) v (l, tt)
add_lock-valid (false ∷ m) locks po v l = v

-- With memory, `add_lock` succeeds.
pub add_lock-ok :
    (locks : List PosixLock) (po : PosixLock)
    → ((add_lock [] locks po).rv ≡ ok) × ((add_lock [] locks po).mem ≡ [])
unfolding add_lock
add_lock-ok locks po = (refl, refl)

-- What a round of a loop must give: locks that are valid, and success if memory does not run out.
abbrev pub Sound : Mem → Outcome → Type 0
Sound mem out = All IsLock out.locks × (mem ≡ [] → (out.rv ≡ ok) × (out.mem ≡ []))

add_lock-Sound :
    (mem : Mem) (locks : List PosixLock) (po : PosixLock)
    → All IsLock locks
    → IsLock po
    → Sound mem (add_lock mem locks po)
add_lock-Sound mem locks po v l =
    (add_lock-valid mem locks po v l, λ e. rw e (add_lock-ok locks po))

keep-Sound :
    (mem : Mem) (po : PosixLock) (out : Outcome)
    → IsLock po
    → Sound mem out
    → Sound mem (keep po out)
keep-Sound mem po out l s = ((l, s.0), s.1)

branch-Sound :
    (mem : Mem) (rv : Rv) (a b : Outcome)
    → (rv ≡ ok → Sound mem a)
    → All IsLock b.locks
    → (mem ≡ [] → rv ≡ ok)
    → Sound mem (elim rv [ ok ↦ a | _ ↦ b ])
branch-Sound mem ok a b ha hb h = ha refl
branch-Sound mem _ a b ha hb h = (hb, λ e. cc (h e))

module _ (mem : Mem) (po : PosixLock) (rest : List PosixLock) (i : Info) (lock : IsLock po)
    (valid : All IsLock rest) (request : IsRequest i) where
  lock_case1-Sound :
      Relates at_edge i.start i.end po.start po.end → Sound mem (lock_case1 mem po rest i)
  lock_case1-Sound r =
      let (a, b, e, left, le, fits) = lock_case1_lem mem po rest i lock request r in
      rw e (
        keep-Sound mem (convert po i) _ request
          (add_lock-Sound mem rest (lock_for i (lnot i.ex) a b) valid (ground (arith, le, fits))))

  lock_case2-Sound :
      Relates inside i.start i.end po.start po.end → Sound mem (lock_case2 mem po rest i)
  unfolding lock_case2
  lock_case2-Sound r =
      let front_lock = lock_for i (lnot i.ex) po.start (pred_u64 i.start) in
      let back_lock = lock_for i (lnot i.ex) (succ_u64 i.end) po.end in
      let front = add_lock mem rest front_lock in
      let front_sound = add_lock-Sound mem rest front_lock valid (ground (arith, lock, request)) in
      let back_sound =
        add_lock-Sound front.mem front.locks back_lock front_sound.0
          (ground (arith, lock, request)) in
      branch-Sound mem front.rv (lock_case2_back front po i) (keep po front)
        (λ _.
          branch-Sound mem _ _ _
            (λ _. ((request, back_sound.0), λ e. back_sound.1 (front_sound.1 e).1))
            (lock, back_sound.0) (λ e. (back_sound.1 (front_sound.1 e).1).0))
        (lock, front_sound.0) (λ e. (front_sound.1 e).0)

  lock_switch-Sound :
      (after : Outcome) (kind : OverlapType)
      → (po.start ≤ i.end) × (i.start ≤ po.end)
      → Relates kind i.start i.end po.start po.end
      → Sound mem after
      → Sound mem (lock_switch kind mem po rest i after)
  unfolding lock_switch
  lock_switch-Sound after same t r ih = elim (Bool-cases (po.ex == i.ex)) [
    | inl e ↦ rw e ((lock, valid), λ h. (refl, h))
    | inr e ↦ rw e ((ground (arith, lock, request), valid), λ h. (refl, h))
  ]
  lock_switch-Sound after at_edge t r ih = elim (Bool-cases (po.ex == i.ex)) [
    | inl e ↦ rw e ((lock, valid), λ h. (refl, h))
    | inr e ↦ rw e (lock_case1-Sound r)
  ]
  lock_switch-Sound after inside t r ih = elim (Bool-cases (po.ex == i.ex)) [
    | inl e ↦ rw e ((lock, valid), λ h. (refl, h))
    | inr e ↦ rw e (lock_case2-Sound r)
  ]
  lock_switch-Sound after covering t r ih = ih
  lock_switch-Sound after partial t r ih = ((ground (arith, lock, request), ih.0), ih.1)
  lock_switch-Sound after invalid t r ih = absurd r

  unlock_switch-Sound :
      (rv : Rv) (after : Rv → Outcome) (kind : OverlapType)
      → rv ≡ ok
      → (po.start ≤ i.end) × (i.start ≤ po.end)
      → Relates kind i.start i.end po.start po.end
      → Sound mem (after ok)
      → Sound mem (unlock_switch kind mem rv po rest i after)
  unfolding unlock_switch
  unlock_switch-Sound rv after same k t r ih = (valid, λ h. (k, h))
  unlock_switch-Sound rv after at_edge k t r ih =
      let (a, b, e, left, le, fits) = shrunk_lem po i lock request (inl r) t in
      rw e ((ground (arith, lock, le, fits), valid), λ h. (refl, h))
  unlock_switch-Sound rv after inside k t r ih =
      keep-Sound mem (record po { end = pred_u64 i.start }) _ (ground (arith, lock, request))
        (add_lock-Sound mem rest (lock_for i po.ex (succ_u64 i.end) po.end) valid
          (ground (arith, lock, request)))
  unlock_switch-Sound rv after covering k t r ih = rw k ih
  unlock_switch-Sound rv after partial k t r ih =
      let (a, b, e, left, le, fits) = shrunk_lem po i lock request (inr r) t in
      rw e ((ground (arith, lock, le, fits), ih.0), ih.1)
  unlock_switch-Sound rv after invalid k t r ih = absurd r

-- A valid request keeps every lock a non-empty range of 64-bit numbers with a mode of 0 or 1,
-- and returns 0 if no allocation fails.
pub lock_internal-Sound :
    (mem : Mem) (locks : List PosixLock) (i : Info)
    → All IsLock locks
    → IsRequest i
    → Sound mem (lock_internal mem locks i)
unfolding lock_internal
lock_internal-Sound mem [] i valid request =
    add_lock-Sound mem [] (lock_for i i.ex i.start i.end) tt request
lock_internal-Sound mem (po ∷ rest) i valid request =
    let ih = lock_internal-Sound mem rest i valid.1 request in
    elim (Bool-cases (same_owner po i)) [
      | inr other ↦ rw other (keep-Sound mem po _ valid.0 ih)
      | inl mine ↦ elim (Bool-cases (ranges_overlap po.start po.end i.start i.end)) [
        | inr apart ↦ rw (mine, apart) (keep-Sound mem po _ valid.0 ih)
        | inl touch ↦
            rw (mine, touch)
              (lock_switch-Sound mem po rest i valid.0 valid.1 request (lock_internal mem rest i)
                (overlap_type i.start i.end po.start po.end)
                (unfold ranges_overlap in ground (arith, touch))
                (overlap_type-Relates i.start i.end po.start po.end) ih)
      ]
    ]

unlock_loop-Sound :
    (mem : Mem) (locks : List PosixLock) (i : Info)
    → All IsLock locks
    → IsRequest i
    → Sound mem (unlock_loop mem ok locks i)
unfolding unlock_loop
unlock_loop-Sound mem [] i valid request = (tt, λ h. (refl, h))
unlock_loop-Sound mem (po ∷ rest) i valid request =
    let ih = unlock_loop-Sound mem rest i valid.1 request in
    elim (Bool-cases (same_owner po i)) [
      | inr other ↦ rw other (keep-Sound mem po _ valid.0 ih)
      | inl mine ↦ elim (Bool-cases (ranges_overlap po.start po.end i.start i.end)) [
        | inr apart ↦ rw (mine, apart) (keep-Sound mem po _ valid.0 ih)
        | inl touch ↦
            rw (mine, touch)
              (unlock_switch-Sound mem po rest i valid.0 valid.1 request ok
                (λ r. unlock_loop mem r rest i) (overlap_type i.start i.end po.start po.end) refl
                (unfold ranges_overlap in ground (arith, touch))
                (overlap_type-Relates i.start i.end po.start po.end) ih)
      ]
    ]

-- A valid unlock keeps every lock a non-empty range of 64-bit numbers with a mode of 0 or 1, and
-- returns 0 if no allocation fails.
pub unlock_internal-Sound :
    (mem : Mem) (locks : List PosixLock) (i : Info)
    → All IsLock locks
    → IsRequest i
    → Sound mem (unlock_internal mem locks i)
unfolding unlock_internal
unlock_internal-Sound mem locks i = unlock_loop-Sound mem locks i
