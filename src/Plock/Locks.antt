-- ===== src/Plock/Locks.antt =====
-- group/dlm_controld/plock.c: the granted locks of one resource. A scan of the list ends at a
-- suffix of it, so each function takes the suffix and returns it, changed; `add_lock` adds at the
-- end, which is the end of every suffix.
pub mod View
pub mod Lock
pub mod Unlock
pub mod Conflict
pub mod Cover
pub mod Valid
pub mod Memory
pub mod Table
use dlm.Base.{
  ℕ, ◌≡◌, Bool, true, false, not, ◌&&◌, ◌||◌, Option, none, some, List, [], ◌∷◌, ◌++◌, ◌==◌, ltb,
  if◌then◌else◌, succ_u64, pred_u64, lnot,
}
use dlm.Plock.Types.{Info, PosixLock, Rv, ok, minus_one, enomem, Mem, malloc}
use dlm.Plock.Range.{
  OverlapType, same, at_edge, inside, covering, partial, invalid, ranges_overlap, overlap_type,
  shrink_range2,
}

-- The list, the return value and the allocator that a function leaves.
pub record Outcome : Type 0 where
  pub locks : List PosixLock
  pub rv : Rv
  pub mem : Mem

-- The lock `po` stays before what the rest of the list becomes.
abbrev pub keep : PosixLock → Outcome → Outcome
keep po out = record out { locks = po ∷ out.locks }

-- The lock is of the process that `in` names.
abbrev pub same_owner : PosixLock → Info → Bool
same_owner po i = po.nodeid == i.nodeid && po.owner == i.owner

-- The condition under which the loop of `is_conflict` ends at `po`.
unfoldable pub conflicts : PosixLock → Info → Bool
unfolding ranges_overlap
conflicts po i =
    if same_owner po i
    then false
    else if not (ranges_overlap po.start po.end i.start i.end)
    then false
    else if i.ex == 0 && po.ex == 0
    then false
    else true

-- `is_conflict` as DLM_PLOCK_OP_GET calls it: the lock that is in the way.
unfoldable pub find_conflict : List PosixLock → Info → Option PosixLock
unfolding conflicts
find_conflict [] i = none
find_conflict (po ∷ rest) i = if conflicts po i then some po else find_conflict rest i

abbrev pub is_some {ℓ} : {A : Type ℓ} → Option A → Bool
is_some none = false
is_some (some x) = true

-- The return value of `is_conflict`.
unfoldable pub is_conflict : List PosixLock → Info → Bool
is_conflict locks i = is_some (find_conflict locks i)

-- What `is_conflict` writes to the request when `get` is set.
unfoldable pub conflict_info : List PosixLock → Info → Info
conflict_info locks i = elim (find_conflict locks i) [
  | none ↦ i
  | some po ↦ record i { ex = po.ex; pid = po.pid; start = po.start; end = po.end }
]

abbrev pub new_lock : ℕ → ℕ → ℕ → ℕ → ℕ → ℕ → PosixLock
new_lock nodeid owner pid ex start end = record {
  pid = pid;
  owner = owner;
  start = start;
  end = end;
  ex = ex;
  nodeid = nodeid;
  syncing = false;
}

-- `add_lock`
unfoldable pub add_lock : Mem → List PosixLock → PosixLock → Outcome
unfolding malloc
add_lock mem locks po =
    let (given, mem') = malloc mem in
    if given
    then record { locks = locks ++ po ∷ []; rv = ok; mem = mem' }
    else record { locks = locks; rv = enomem; mem = mem' }

-- A lock for the process of `i`.
abbrev pub lock_for : Info → ℕ → ℕ → ℕ → PosixLock
lock_for i = new_lock i.nodeid i.owner i.pid

abbrev pub convert : PosixLock → Info → PosixLock
convert po i = record po { start = i.start; end = i.end; ex = i.ex }

-- `lock_case1`; `rest` follows `po` in the list.
unfoldable pub lock_case1 : Mem → PosixLock → List PosixLock → Info → Outcome
unfolding shrink_range2
lock_case1 mem po rest i = elim (shrink_range2 po.start po.end i.start i.end) [
  | none ↦ record { locks = po ∷ rest; rv = minus_one; mem = mem }
  | some (start2, end2) ↦
      keep (convert po i) (add_lock mem rest (lock_for i (lnot i.ex) start2 end2))
]

-- `lock_case2`, after its first `add_lock`: `po` is converted only if the second one succeeds.
lock_case2_back : Outcome → PosixLock → Info → Outcome
lock_case2_back front po i =
    let back = add_lock front.mem front.locks (lock_for i (lnot i.ex) (succ_u64 i.end) po.end) in
    elim back.rv [ ok ↦ keep (convert po i) back | _ ↦ keep po back ]

-- `lock_case2`
unfoldable pub lock_case2 : Mem → PosixLock → List PosixLock → Info → Outcome
unfolding lock_case2_back
lock_case2 mem po rest i =
    let front = add_lock mem rest (lock_for i (lnot i.ex) po.start (pred_u64 i.start)) in
    elim front.rv [ ok ↦ lock_case2_back front po i | _ ↦ keep po front ]

-- Case 4 of `lock_internal`.
abbrev pub cut : PosixLock → Info → PosixLock
cut po i =
    if ltb po.start i.start
    then record po { end = pred_u64 i.start }
    else record po { start = succ_u64 i.end }

-- `lock_internal`; `after` is what the loop makes of the rest of the list.
lock_switch : OverlapType → Mem → PosixLock → List PosixLock → Info → Outcome → Outcome
lock_switch same mem po rest i after =
    if po.ex == i.ex
    then record { locks = po ∷ rest; rv = ok; mem = mem }
    else record { locks = record po { ex = i.ex } ∷ rest; rv = ok; mem = mem }
lock_switch at_edge mem po rest i after =
    if po.ex == i.ex
    then record { locks = po ∷ rest; rv = ok; mem = mem }
    else lock_case1 mem po rest i
lock_switch inside mem po rest i after =
    if po.ex == i.ex
    then record { locks = po ∷ rest; rv = ok; mem = mem }
    else lock_case2 mem po rest i
lock_switch covering mem po rest i after = after
lock_switch partial mem po rest i after = keep (cut po i) after
lock_switch invalid mem po rest i after = record { locks = po ∷ rest; rv = minus_one; mem = mem }

unfoldable pub lock_internal : Mem → List PosixLock → Info → Outcome
unfolding ranges_overlap lock_switch
lock_internal mem [] i = add_lock mem [] (lock_for i i.ex i.start i.end)
lock_internal mem (po ∷ rest) i =
    let after = lock_internal mem rest i in
    if not (same_owner po i)
    then keep po after
    else if not (ranges_overlap po.start po.end i.start i.end)
    then keep po after
    else lock_switch (overlap_type i.start i.end po.start po.end) mem po rest i after

-- `shrink_range` on the lock; `none` is -1.
unfoldable pub shrink_range : PosixLock → ℕ → ℕ → Option PosixLock
unfolding shrink_range2
shrink_range po start end = elim (shrink_range2 po.start po.end start end) [
  | none ↦ none
  | some (start2, end2) ↦ some (record po { start = start2; end = end2 })
]

-- The lock after `rv = shrink_range(po, …)`, and `rv`.
abbrev pub shrunk : PosixLock → Option PosixLock → PosixLock
shrunk po none = po
shrunk po (some po') = po'

abbrev pub shrink_rv : Option PosixLock → Rv
shrink_rv none = minus_one
shrink_rv (some po') = ok

-- One round of the loop of `unlock_internal`. `after r` is what the loop makes of the rest of
-- the list when it goes on with `rv` at `r`.
unlock_switch :
    OverlapType → Mem → Rv → PosixLock → List PosixLock → Info → (Rv → Outcome) → Outcome
unfolding shrink_range
unlock_switch same mem rv po rest i after = record { locks = rest; rv = rv; mem = mem }
unlock_switch at_edge mem rv po rest i after =
    let cut_po = shrink_range po i.start i.end in
    record { locks = shrunk po cut_po ∷ rest; rv = shrink_rv cut_po; mem = mem }
unlock_switch inside mem rv po rest i after =
    keep (record po { end = pred_u64 i.start })
      (add_lock mem rest (lock_for i po.ex (succ_u64 i.end) po.end))
unlock_switch covering mem rv po rest i after = after rv
unlock_switch partial mem rv po rest i after =
    let cut_po = shrink_range po i.start i.end in keep (shrunk po cut_po) (after (shrink_rv cut_po))
unlock_switch invalid mem rv po rest i after = record {
  locks = po ∷ rest;
  rv = minus_one;
  mem = mem;
}

unlock_loop : Mem → Rv → List PosixLock → Info → Outcome
unfolding ranges_overlap unlock_switch
unlock_loop mem rv [] i = record { locks = []; rv = rv; mem = mem }
unlock_loop mem rv (po ∷ rest) i =
    let after = λ (r : Rv). unlock_loop mem r rest i in
    if not (same_owner po i)
    then keep po (after rv)
    else if not (ranges_overlap po.start po.end i.start i.end)
    then keep po (after rv)
    else unlock_switch (overlap_type i.start i.end po.start po.end) mem rv po rest i after

unfoldable pub unlock_internal : Mem → List PosixLock → Info → Outcome
unfolding unlock_loop
unlock_internal mem locks i = unlock_loop mem ok locks i
