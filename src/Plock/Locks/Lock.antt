-- ===== src/Plock/Locks/Lock.antt =====
-- `lock_internal` of group/dlm_controld/plock.c against the map from processes and bytes to modes.
use dlm.Base.{
  ℕ, ◌+◌, ◌≤◌, ◌<◌, ◌≡◌, inl, inr, true, false, ◌&&◌, List, [], ◌∷◌, All, not, succ_u64, pred_u64,
  leb, ◌==◌, arith, if◌then◌else◌, u64_mod, Bool-cases, lnot,
}
use dlm.Plock.Types.{Info, PosixLock, ok, Mem}
use dlm.Plock.Range.{
  OverlapType, same, at_edge, inside, covering, partial, invalid, overlap_type, ranges_overlap,
}
use dlm.Plock.Range.Geometry.{Relates, overlap_type-Relates}
use dlm.Plock.Locks.{
  Outcome, keep, convert, lock_for, same_owner, add_lock, lock_case1, lock_case2, lock_switch,
  lock_internal,
}
use dlm.Plock.Locks.View.{
  holds, sum_at, count_at, asks, IsLock, IsRequest, sum_at-append, sum_at-zero,
}

-- What a granted request leaves at a byte.
abbrev pub Granted : (ℕ → ℕ) → Info → List PosixLock → List PosixLock → ℕ → ℕ → ℕ → Type 0
Granted f i before after n o x =
    sum_at f after n o x ≡ (if asks i n o x then f i.ex else sum_at f before n o x)

pub add_lock-sum :
    (f : ℕ → ℕ) (mem : Mem) (locks : List PosixLock) (po : PosixLock) (n o x : ℕ)
    → (add_lock mem locks po).rv ≡ ok
    → sum_at f (add_lock mem locks po).locks n o x
      ≡ sum_at f locks n o x + (if holds po n o x then f po.ex else 0)
unfolding add_lock sum_at
add_lock-sum f [] locks po n o x h = ground (arith, sum_at-append f locks (po ∷ []) n o x)
add_lock-sum f (b ∷ m) locks po n o x h = ground (arith, sum_at-append f locks (po ∷ []) n o x)

-- The bytes of `po` outside `i`, as one range.
abbrev pub Leftover : PosixLock → Info → ℕ → ℕ → Type 0
Leftover po i start end =
    (x : ℕ)
    → (leb start x && leb x end)
      ≡ ((leb po.start x && leb x po.end) && not (leb i.start x && leb x i.end))

pub lock_case1_lem :
    (mem : Mem) (po : PosixLock) (rest : List PosixLock) (i : Info)
    → IsLock po
    → IsRequest i
    → Relates at_edge i.start i.end po.start po.end
    → (start end : ℕ) × (lock_case1 mem po rest i
        ≡ keep (convert po i) (add_lock mem rest (lock_for i (lnot i.ex) start end)))
      × Leftover po i start end
      × (start ≤ end)
      × (end < u64_mod)
unfolding lock_case1
lock_case1_lem mem po rest i lock request (inl r) = (
  succ_u64 i.end,
  po.end,
  ground (arith, lock, request),
  λ x. ground (arith, lock, request),
  ground (arith, lock, request),
  ground (arith, lock, request),
)
lock_case1_lem mem po rest i lock request (inr r) = (
  po.start,
  pred_u64 i.start,
  ground (arith, lock, request),
  λ x. ground (arith, lock, request),
  ground (arith, lock, request),
  ground (arith, lock, request),
)

module _ (f : ℕ → ℕ) (mem : Mem) (po : PosixLock) (rest : List PosixLock) (i : Info) (n o x : ℕ)
    (lock : IsLock po) (request : IsRequest i) (mine : same_owner po i ≡ true)
    (once : count_at (po ∷ rest) n o x ≤ 1) where
  lock_case1-Granted :
      Relates at_edge i.start i.end po.start po.end
      → (po.ex == i.ex) ≡ false
      → (lock_case1 mem po rest i).rv ≡ ok
      → Granted f i (po ∷ rest) (lock_case1 mem po rest i).locks n o x
  unfolding sum_at
  lock_case1-Granted r differ done =
      let (a, b, e, left, _, _) = lock_case1_lem mem po rest i lock request r in
      rw e (
        ground (
          arith,
          lock,
          request,
          mine,
          once,
          left x,
          rw e at done,
          sum_at-zero f rest n o x,
          add_lock-sum f mem rest (lock_for i (lnot i.ex) a b) n o x,
        ))

  lock_case2-Granted :
      Relates inside i.start i.end po.start po.end
      → (po.ex == i.ex) ≡ false
      → (lock_case2 mem po rest i).rv ≡ ok
      → Granted f i (po ∷ rest) (lock_case2 mem po rest i).locks n o x
  unfolding lock_case2 sum_at
  lock_case2-Granted r differ done =
      let front_lock = lock_for i (lnot i.ex) po.start (pred_u64 i.start) in
      let back_lock = lock_for i (lnot i.ex) (succ_u64 i.end) po.end in
      let front = add_lock mem rest front_lock in
      ground (
        arith,
        lock,
        request,
        mine,
        once,
        sum_at-zero f rest n o x,
        add_lock-sum f mem rest front_lock n o x,
        add_lock-sum f front.mem front.locks back_lock n o x,
      )

  lock_switch-Granted :
      (after : Outcome) (kind : OverlapType)
      → (po.start ≤ i.end) × (i.start ≤ po.end)
      → Relates kind i.start i.end po.start po.end
      → (lock_switch kind mem po rest i after).rv ≡ ok
      → (after.rv ≡ ok → Granted f i rest after.locks n o x)
      → Granted f i (po ∷ rest) (lock_switch kind mem po rest i after).locks n o x
  unfolding lock_switch sum_at
  lock_switch-Granted after same t r done ih =
      ground (arith, lock, request, mine, once, sum_at-zero f rest n o x)
  lock_switch-Granted after at_edge t r done ih = elim (Bool-cases (po.ex == i.ex)) [
    | inl e ↦ rw e (ground (arith, lock, request, mine, once, sum_at-zero f rest n o x))
    | inr e ↦ rw e (lock_case1-Granted r e (rw e at done))
  ]
  lock_switch-Granted after inside t r done ih = elim (Bool-cases (po.ex == i.ex)) [
    | inl e ↦ rw e (ground (arith, lock, request, mine, once, sum_at-zero f rest n o x))
    | inr e ↦ rw e (lock_case2-Granted r e (rw e at done))
  ]
  lock_switch-Granted after covering t r done ih =
      ground (arith, lock, request, mine, once, ih done)
  lock_switch-Granted after partial t r done ih = ground (arith, lock, request, mine, once, ih done)
  lock_switch-Granted after invalid t r done ih = absurd r

-- Take valid locks, a valid request that returns 0, whatever the allocator answered, a process,
-- and a byte (at any 64-bit offset) where it has at most one lock. Afterwards the process has
-- there, if it made the request and the byte is in its range, one lock in the mode of the
-- request, and otherwise what it had.
pub lock_internal-Granted :
    (f : ℕ → ℕ) (mem : Mem) (locks : List PosixLock) (i : Info) (n o x : ℕ)
    → All IsLock locks
    → IsRequest i
    → count_at locks n o x ≤ 1
    → (lock_internal mem locks i).rv ≡ ok
    → Granted f i locks (lock_internal mem locks i).locks n o x
unfolding lock_internal sum_at
lock_internal-Granted f mem [] i n o x valid request once done =
    ground (arith, add_lock-sum f mem [] (lock_for i i.ex i.start i.end) n o x)
lock_internal-Granted f mem (po ∷ rest) i n o x valid request once done =
    let ih = lock_internal-Granted f mem rest i n o x valid.1 request (ground (arith, once)) in
    elim (Bool-cases (same_owner po i)) [
      | inr other ↦ rw other (ground (arith, ih, rw other at done))
      | inl mine ↦ elim (Bool-cases (ranges_overlap po.start po.end i.start i.end)) [
        | inr apart ↦
            rw (mine, apart) (unfold ranges_overlap in ground (arith, ih, rw (mine, apart) at done))
        | inl touch ↦
            rw (mine, touch)
              (lock_switch-Granted f mem po rest i n o x valid.0 request mine once
                (lock_internal mem rest i) (overlap_type i.start i.end po.start po.end)
                (unfold ranges_overlap in ground (arith, touch))
                (overlap_type-Relates i.start i.end po.start po.end) (rw (mine, touch) at done) ih)
      ]
    ]
