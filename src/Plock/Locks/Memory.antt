-- ===== src/Plock/Locks/Memory.antt =====
-- Where no allocation fails, `lock_internal` and `unlock_internal` of group/dlm_controld/plock.c
-- leave an allocator that will not fail.
use dlm.Base.{◌≡◌, refl, List, [], ◌∷◌, arith, succ_u64}
use dlm.Plock.Types.{Info, PosixLock, Rv, ok}
use dlm.Plock.Range.{OverlapType, same, at_edge, inside, covering, partial, invalid, overlap_type}
use dlm.Plock.Locks.{
  Outcome, lock_for, add_lock, lock_case1, lock_case2, lock_switch, lock_internal, unlock_switch,
  unlock_loop, unlock_internal,
}
use dlm.Plock.Locks.Valid.{add_lock-ok}

-- Where no allocation fails, none will.
lock_case2-mem :
    (po : PosixLock) (rest : List PosixLock) (i : Info) → (lock_case2 [] po rest i).mem ≡ []
unfolding lock_case2 add_lock
lock_case2-mem po rest i = refl

lock_case1-mem :
    (po : PosixLock) (rest : List PosixLock) (i : Info) → (lock_case1 [] po rest i).mem ≡ []
unfolding lock_case1 add_lock
lock_case1-mem po rest i = ground arith

lock_switch-mem :
    (kind : OverlapType) (po : PosixLock) (rest : List PosixLock) (i : Info) (after : Outcome)
    → after.mem ≡ []
    → (lock_switch kind [] po rest i after).mem ≡ []
unfolding lock_switch
lock_switch-mem same po rest i after h = ground arith
lock_switch-mem at_edge po rest i after h = ground (arith, lock_case1-mem po rest i)
lock_switch-mem inside po rest i after h = ground (arith, lock_case2-mem po rest i)
lock_switch-mem covering po rest i after h = h
lock_switch-mem partial po rest i after h = h
lock_switch-mem invalid po rest i after h = refl

pub lock_internal-mem : (locks : List PosixLock) (i : Info) → (lock_internal [] locks i).mem ≡ []
unfolding lock_internal
lock_internal-mem [] i = (add_lock-ok [] (lock_for i i.ex i.start i.end)).1
lock_internal-mem (po ∷ rest) i =
    let ih = lock_internal-mem rest i in
    ground (
      arith,
      ih,
      lock_switch-mem (overlap_type i.start i.end po.start po.end) po rest i
          (lock_internal [] rest i),
    )

unlock_switch-mem :
    (kind : OverlapType) (rv : Rv) (po : PosixLock) (rest : List PosixLock) (i : Info)
    (after : Rv → Outcome)
    → ((r : Rv) → (after r).mem ≡ [])
    → (unlock_switch kind [] rv po rest i after).mem ≡ []
unfolding unlock_switch
unlock_switch-mem same rv po rest i after h = refl
unlock_switch-mem at_edge rv po rest i after h = refl
unlock_switch-mem inside rv po rest i after h =
    (add_lock-ok rest (lock_for i po.ex (succ_u64 i.end) po.end)).1
unlock_switch-mem covering rv po rest i after h = h rv
unlock_switch-mem partial rv po rest i after h = h _
unlock_switch-mem invalid rv po rest i after h = refl

unlock_loop-mem :
    (rv : Rv) (locks : List PosixLock) (i : Info) → (unlock_loop [] rv locks i).mem ≡ []
unfolding unlock_loop
unlock_loop-mem rv [] i = refl
unlock_loop-mem rv (po ∷ rest) i = ground (
  arith,
  unlock_loop-mem rv rest i,
  unlock_switch-mem (overlap_type i.start i.end po.start po.end) rv po rest i
      (λ r. unlock_loop [] r rest i) (λ r. unlock_loop-mem r rest i),
)

pub unlock_internal-mem :
    (locks : List PosixLock) (i : Info) → (unlock_internal [] locks i).mem ≡ []
unfolding unlock_internal
unlock_internal-mem locks i = unlock_loop-mem ok locks i
