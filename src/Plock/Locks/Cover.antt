-- ===== src/Plock/Locks/Cover.antt =====
-- Where locks can come from, whatever the allocator answers.
use dlm.Base.{
  ℕ, ◌≤◌, ◌≡◌, inl, inr, refl, true, false, List, [], ◌∷◌, All, ◌==◌, arith, Bool-cases, lnot,
  succ_u64, pred_u64,
}
use dlm.Plock.Types.{Info, PosixLock, Rv, ok, Mem}
use dlm.Plock.Range.{
  OverlapType, same, at_edge, inside, covering, partial, invalid, overlap_type, ranges_overlap,
}
use dlm.Plock.Range.Geometry.{Relates, overlap_type-Relates}
use dlm.Plock.Locks.{
  Outcome, same_owner, lock_for, add_lock, lock_case1, lock_case2, lock_switch, lock_internal,
  unlock_switch, unlock_loop, unlock_internal,
}
use dlm.Plock.Locks.Lock.{lock_case1_lem}
use dlm.Plock.Locks.Unlock.{shrunk_lem}
use dlm.Plock.Locks.View.{holds, sum_at, asks, IsLock, IsRequest, sum_at-append}

-- `f` of a mode says which locks are looked for. Where there is none, a call brings one in only by
-- its own range and mode, also when the allocator fails half way.
add_lock-zero :
    (f : ℕ → ℕ) (mem : Mem) (locks : List PosixLock) (po : PosixLock) (n o x : ℕ)
    → sum_at f locks n o x ≡ 0
    → (holds po n o x ≡ true → f po.ex ≡ 0)
    → sum_at f (add_lock mem locks po).locks n o x ≡ 0
unfolding add_lock sum_at
add_lock-zero f [] locks po n o x h k = ground (arith, sum_at-append f locks (po ∷ []) n o x)
add_lock-zero f (true ∷ m) locks po n o x h k =
    ground (arith, sum_at-append f locks (po ∷ []) n o x)
add_lock-zero f (false ∷ m) locks po n o x h k = h

module _ (f : ℕ → ℕ) (mem : Mem) (po : PosixLock) (rest : List PosixLock) (i : Info) (n o x : ℕ)
    (lock : IsLock po) (request : IsRequest i) (mine : same_owner po i ≡ true)
    (none_at : sum_at f (po ∷ rest) n o x ≡ 0) (own : asks i n o x ≡ true → f i.ex ≡ 0) where
  lock_case1-zero :
      Relates at_edge i.start i.end po.start po.end
      → (po.ex == i.ex) ≡ false
      → sum_at f (lock_case1 mem po rest i).locks n o x ≡ 0
  unfolding sum_at
  lock_case1-zero r differ =
      let (a, b, e, left, _, _) = lock_case1_lem mem po rest i lock request r in
      rw e (
        ground (
          arith,
          lock,
          request,
          mine,
          none_at,
          own,
          left x,
          add_lock-zero f mem rest (lock_for i (lnot i.ex) a b) n o x,
        ))

  lock_case2-zero :
      Relates inside i.start i.end po.start po.end
      → (po.ex == i.ex) ≡ false
      → sum_at f (lock_case2 mem po rest i).locks n o x ≡ 0
  unfolding sum_at lock_case2
  lock_case2-zero r differ =
      let front_lock = lock_for i (lnot i.ex) po.start (pred_u64 i.start) in
      let back_lock = lock_for i (lnot i.ex) (succ_u64 i.end) po.end in
      let front = add_lock mem rest front_lock in
      ground (
        arith,
        lock,
        request,
        mine,
        none_at,
        own,
        add_lock-zero f mem rest front_lock n o x,
        add_lock-zero f front.mem front.locks back_lock n o x,
      )

  lock_switch-zero :
      (after : Outcome) (kind : OverlapType)
      → (po.start ≤ i.end) × (i.start ≤ po.end)
      → Relates kind i.start i.end po.start po.end
      → sum_at f after.locks n o x ≡ 0
      → sum_at f (lock_switch kind mem po rest i after).locks n o x ≡ 0
  unfolding lock_switch sum_at
  lock_switch-zero after same t r ih = ground (arith, lock, request, mine, none_at, own)
  lock_switch-zero after at_edge t r ih = elim (Bool-cases (po.ex == i.ex)) [
    | inl e ↦ rw e none_at
    | inr e ↦ rw e (lock_case1-zero r e)
  ]
  lock_switch-zero after inside t r ih = elim (Bool-cases (po.ex == i.ex)) [
    | inl e ↦ rw e none_at
    | inr e ↦ rw e (lock_case2-zero r e)
  ]
  lock_switch-zero after covering t r ih = ih
  lock_switch-zero after partial t r ih = ground (arith, lock, request, mine, none_at, own)
  lock_switch-zero after invalid t r ih = absurd r

module _ (f : ℕ → ℕ) (mem : Mem) (po : PosixLock) (rest : List PosixLock) (i : Info) (n o x : ℕ)
    (lock : IsLock po) (request : IsRequest i) (mine : same_owner po i ≡ true)
    (none_at : sum_at f (po ∷ rest) n o x ≡ 0) where
  unlock_switch-zero :
      (rv : Rv) (after : Rv → Outcome) (kind : OverlapType)
      → (po.start ≤ i.end) × (i.start ≤ po.end)
      → Relates kind i.start i.end po.start po.end
      → ((r : Rv) → sum_at f (after r).locks n o x ≡ 0)
      → sum_at f (unlock_switch kind mem rv po rest i after).locks n o x ≡ 0
  unfolding unlock_switch sum_at
  unlock_switch-zero rv after same t r ih = ground (arith, lock, request, mine, none_at)
  unlock_switch-zero rv after at_edge t r ih =
      let (a, b, e, left, _, _) = shrunk_lem po i lock request (inl r) t in
      rw e (ground (arith, lock, request, mine, none_at, left x))
  unlock_switch-zero rv after inside t r ih = ground (
    arith,
    lock,
    request,
    mine,
    none_at,
    add_lock-zero f mem rest (lock_for i po.ex (succ_u64 i.end) po.end) n o x,
  )
  unlock_switch-zero rv after covering t r ih = ih rv
  unlock_switch-zero rv after partial t r ih =
      let (a, b, e, left, _, _) = shrunk_lem po i lock request (inr r) t in
      rw e (ground (arith, lock, request, mine, none_at, left x, ih ok))
  unlock_switch-zero rv after invalid t r ih = absurd r

pub lock_internal-zero :
    (f : ℕ → ℕ) (mem : Mem) (locks : List PosixLock) (i : Info) (n o x : ℕ)
    → All IsLock locks
    → IsRequest i
    → sum_at f locks n o x ≡ 0
    → (asks i n o x ≡ true → f i.ex ≡ 0)
    → sum_at f (lock_internal mem locks i).locks n o x ≡ 0
unfolding lock_internal sum_at
lock_internal-zero f mem [] i n o x valid request h own =
    add_lock-zero f mem [] (lock_for i i.ex i.start i.end) n o x refl own
lock_internal-zero f mem (po ∷ rest) i n o x valid request h own =
    let ih = lock_internal-zero f mem rest i n o x valid.1 request (ground (arith, h)) own in
    elim (Bool-cases (same_owner po i)) [
      | inr other ↦ rw other (ground (arith, ih))
      | inl mine ↦ elim (Bool-cases (ranges_overlap po.start po.end i.start i.end)) [
        | inr apart ↦ rw (mine, apart) (ground (arith, ih))
        | inl touch ↦
            rw (mine, touch)
              (lock_switch-zero f mem po rest i n o x valid.0 request mine h own
                (lock_internal mem rest i) (overlap_type i.start i.end po.start po.end)
                (unfold ranges_overlap in ground (arith, touch))
                (overlap_type-Relates i.start i.end po.start po.end) ih)
      ]
    ]

unlock_loop-zero :
    (f : ℕ → ℕ) (mem : Mem) (rv : Rv) (locks : List PosixLock) (i : Info) (n o x : ℕ)
    → All IsLock locks
    → IsRequest i
    → sum_at f locks n o x ≡ 0
    → sum_at f (unlock_loop mem rv locks i).locks n o x ≡ 0
unfolding unlock_loop sum_at
unlock_loop-zero f mem rv [] i n o x valid request h = refl
unlock_loop-zero f mem rv (po ∷ rest) i n o x valid request h =
    let ih =
      λ (r : Rv). unlock_loop-zero f mem r rest i n o x valid.1 request (ground (arith, h)) in
    elim (Bool-cases (same_owner po i)) [
      | inr other ↦ rw other (ground (arith, ih rv))
      | inl mine ↦ elim (Bool-cases (ranges_overlap po.start po.end i.start i.end)) [
        | inr apart ↦ rw (mine, apart) (ground (arith, ih rv))
        | inl touch ↦
            rw (mine, touch)
              (unlock_switch-zero f mem po rest i n o x valid.0 request mine h rv
                (λ r. unlock_loop mem r rest i) (overlap_type i.start i.end po.start po.end)
                (unfold ranges_overlap in ground (arith, touch))
                (overlap_type-Relates i.start i.end po.start po.end) ih)
      ]
    ]

pub unlock_internal-zero :
    (f : ℕ → ℕ) (mem : Mem) (locks : List PosixLock) (i : Info) (n o x : ℕ)
    → All IsLock locks
    → IsRequest i
    → sum_at f locks n o x ≡ 0
    → sum_at f (unlock_internal mem locks i).locks n o x ≡ 0
unfolding unlock_internal
unlock_internal-zero f mem locks i n o x = unlock_loop-zero f mem ok locks i n o x
