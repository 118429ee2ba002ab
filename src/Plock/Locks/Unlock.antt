-- ===== src/Plock/Locks/Unlock.antt =====
-- `unlock_internal` of group/dlm_controld/plock.c against the map from processes and bytes to
-- modes.
use dlm.Base.{
  ℕ, ◌≤◌, ◌<◌, ◌≡◌, ◌⊎◌, inl, inr, true, not, ◌&&◌, List, [], ◌∷◌, All, leb, arith, if◌then◌else◌,
  u64_mod, Bool-cases, succ_u64, pred_u64, some,
}
use dlm.Plock.Types.{Info, PosixLock, Rv, ok, Mem}
use dlm.Plock.Range.{
  OverlapType, same, at_edge, inside, covering, partial, invalid, overlap_type, ranges_overlap,
}
use dlm.Plock.Range.Geometry.{Relates, overlap_type-Relates}
use dlm.Plock.Locks.{
  Outcome, same_owner, lock_for, shrink_range, unlock_switch, unlock_loop, unlock_internal,
}
use dlm.Plock.Locks.View.{sum_at, count_at, asks, IsLock, IsRequest, sum_at-zero}
use dlm.Plock.Locks.Lock.{add_lock-sum}

-- What an unlock leaves at a byte.
abbrev pub Released : (ℕ → ℕ) → Info → List PosixLock → List PosixLock → ℕ → ℕ → ℕ → Type 0
Released f i before after n o x =
    sum_at f after n o x ≡ (if asks i n o x then 0 else sum_at f before n o x)

-- A lock that `i` overlaps at one end keeps the other bytes.
pub shrunk_lem :
    (po : PosixLock) (i : Info)
    → IsLock po
    → IsRequest i
    → (Relates at_edge i.start i.end po.start po.end
        ⊎ Relates partial i.start i.end po.start po.end)
    → (po.start ≤ i.end) × (i.start ≤ po.end)
    → (start end : ℕ) × (shrink_range po i.start i.end
        ≡ some (record po { start = start; end = end }))
      × ((x : ℕ)
          → (leb start x && leb x end)
            ≡ ((leb po.start x && leb x po.end) && not (leb i.start x && leb x i.end)))
      × (start ≤ end)
      × (end < u64_mod)
unfolding shrink_range
shrunk_lem po i lock request (inl (inl r)) t = (
  succ_u64 i.end,
  po.end,
  ground (arith, lock, request),
  λ x. ground (arith, lock, request),
  ground (arith, lock, request),
  ground (arith, lock, request),
)
shrunk_lem po i lock request (inl (inr r)) t = (
  po.start,
  pred_u64 i.start,
  ground (arith, lock, request),
  λ x. ground (arith, lock, request),
  ground (arith, lock, request),
  ground (arith, lock, request),
)
shrunk_lem po i lock request (inr (inl r)) t = (
  po.start,
  pred_u64 i.start,
  ground (arith, lock, request),
  λ x. ground (arith, lock, request),
  ground (arith, lock, request),
  ground (arith, lock, request),
)
shrunk_lem po i lock request (inr (inr r)) t = (
  succ_u64 i.end,
  po.end,
  ground (arith, lock, request),
  λ x. ground (arith, lock, request),
  ground (arith, lock, request),
  ground (arith, lock, request),
)

module _ (f : ℕ → ℕ) (mem : Mem) (rv : Rv) (po : PosixLock) (rest : List PosixLock) (i : Info)
    (n o x : ℕ) (lock : IsLock po) (request : IsRequest i) (mine : same_owner po i ≡ true)
    (once : count_at (po ∷ rest) n o x ≤ 1) where
  unlock_switch-Released :
      (after : Rv → Outcome) (kind : OverlapType)
      → (po.start ≤ i.end) × (i.start ≤ po.end)
      → Relates kind i.start i.end po.start po.end
      → (unlock_switch kind mem rv po rest i after).rv ≡ ok
      → ((r : Rv) → (after r).rv ≡ ok → Released f i rest (after r).locks n o x)
      → Released f i (po ∷ rest) (unlock_switch kind mem rv po rest i after).locks n o x
  unfolding unlock_switch sum_at
  unlock_switch-Released after same t r done ih =
      ground (arith, lock, request, mine, once, sum_at-zero f rest n o x)
  unlock_switch-Released after at_edge t r done ih =
      let (a, b, e, left, _, _) = shrunk_lem po i lock request (inl r) t in
      rw e (ground (arith, lock, request, mine, once, left x, sum_at-zero f rest n o x))
  unlock_switch-Released after inside t r done ih = ground (
    arith,
    lock,
    request,
    mine,
    once,
    sum_at-zero f rest n o x,
    add_lock-sum f mem rest (lock_for i po.ex (succ_u64 i.end) po.end) n o x,
  )
  unlock_switch-Released after covering t r done ih =
      ground (arith, lock, request, mine, once, ih rv done)
  unlock_switch-Released after partial t r done ih =
      let (a, b, e, left, _, _) = shrunk_lem po i lock request (inr r) t in
      rw e (ground (arith, lock, request, mine, once, left x, ih ok (rw e at done)))
  unlock_switch-Released after invalid t r done ih = absurd r

unlock_loop-Released :
    (f : ℕ → ℕ) (mem : Mem) (rv : Rv) (locks : List PosixLock) (i : Info) (n o x : ℕ)
    → All IsLock locks
    → IsRequest i
    → count_at locks n o x ≤ 1
    → (unlock_loop mem rv locks i).rv ≡ ok
    → Released f i locks (unlock_loop mem rv locks i).locks n o x
unfolding unlock_loop sum_at
unlock_loop-Released f mem rv [] i n o x valid request once done = ground arith
unlock_loop-Released f mem rv (po ∷ rest) i n o x valid request once done =
    let ih = λ (r : Rv).
      unlock_loop-Released f mem r rest i n o x valid.1 request (ground (arith, once)) in
    elim (Bool-cases (same_owner po i)) [
      | inr other ↦ rw other (ground (arith, ih rv, rw other at done))
      | inl mine ↦ elim (Bool-cases (ranges_overlap po.start po.end i.start i.end)) [
        | inr apart ↦
            rw (mine, apart)
              (unfold ranges_overlap in ground (arith, ih rv, rw (mine, apart) at done))
        | inl touch ↦
            rw (mine, touch)
              (unlock_switch-Released f mem rv po rest i n o x valid.0 request mine once
                (λ r. unlock_loop mem r rest i) (overlap_type i.start i.end po.start po.end)
                (unfold ranges_overlap in ground (arith, touch))
                (overlap_type-Relates i.start i.end po.start po.end) (rw (mine, touch) at done) ih)
      ]
    ]

-- Take valid locks, a valid unlock that returns 0, a process, and a byte where it has at most
-- one lock. Afterwards the process has nothing there, if it made the unlock and the byte is in
-- its range, and otherwise what it had.
pub unlock_internal-Released :
    (f : ℕ → ℕ) (mem : Mem) (locks : List PosixLock) (i : Info) (n o x : ℕ)
    → All IsLock locks
    → IsRequest i
    → count_at locks n o x ≤ 1
    → (unlock_internal mem locks i).rv ≡ ok
    → Released f i locks (unlock_internal mem locks i).locks n o x
unfolding unlock_internal
unlock_internal-Released f mem locks i n o x = unlock_loop-Released f mem ok locks i n o x
