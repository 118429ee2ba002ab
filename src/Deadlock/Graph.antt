-- ===== src/Deadlock/Graph.antt =====
-- group/dlm_controld/deadlock.c: the graph of transactions, from the locks of all nodes.
use dlm.Base.{
  zero, ℕ, suc, ◌+◌, ◌%◌, Bool, true, false, not, ◌&&◌, ◌||◌, Option, none, some, List, [], ◌∷◌,
  ◌++◌, ◌==◌, if◌then◌else◌, length,
}
use dlm.Plock.Types.{Mem, malloc}
use dlm.Deadlock.Locks.{modes_compat, Lkb, Rsb, find_rsb, is_granted, is_waiting}
use dlm.Deadlock.{Trans, in_waitfor}

-- `get_trans` finds the transaction.
unfoldable pub find_trans : List Trans → ℕ → Option Trans
find_trans [] xid = none
find_trans (tr ∷ rest) xid = if tr.xid == xid then some tr else find_trans rest xid

-- Writes to the transaction of an `xid`.
unfoldable pub change_trans : (Trans → Trans) → ℕ → List Trans → List Trans
change_trans f xid [] = []
change_trans f xid (tr ∷ rest) = if tr.xid == xid then f tr ∷ rest else tr ∷ change_trans f xid rest

abbrev pub new_trans : ℕ → Trans
new_trans xid = record {
  xid = xid;
  locks = [];
  others_waiting_on_us = 0;
  waitfor_alloc = 0;
  waitfor_count = 0;
  waitfor = [];
}

-- `get_trans`; false is no memory.
unfoldable pub get_trans : List Trans → ℕ → Mem → Bool × List Trans × Mem
get_trans ts xid mem = elim (find_trans ts xid) [
  | some tr ↦ (true, ts, mem)
  | none ↦
      let (given, mem') = malloc mem in
      if given then (true, new_trans xid ∷ ts, mem') else (false, ts, mem')
]

-- `add_lkb_trans`
abbrev pub add_lkb_trans : Lkb → Trans → Trans
add_lkb_trans lkb tr = record tr { locks = lkb ∷ tr.locks }

-- The inner loop of `create_trans_list`; false ends both loops.
unfoldable pub create_trans : List Lkb → List Trans → Mem → Bool × List Trans × Mem
create_trans [] ts mem = (true, ts, mem)
create_trans (lkb ∷ rest) ts mem =
    let (found, ts', mem') = get_trans ts lkb.lock.xid mem in
    elim found [
      | false ↦ (false, ts', mem')
      | true ↦ create_trans rest (change_trans (add_lkb_trans lkb) lkb.lock.xid ts') mem'
    ]

unfoldable pub create_trans_list : List Rsb → List Trans → Mem → List Trans × Mem
create_trans_list [] ts mem = (ts, mem)
create_trans_list (r ∷ rest) ts mem =
    let (all, ts', mem') = create_trans r.locks ts mem in
    elim all [ true ↦ create_trans_list rest ts' mem' | false ↦ (ts', mem') ]

-- `locks_compat`; a lock and itself have one transaction.
unfoldable pub locks_compat : Lkb → Lkb → Bool
locks_compat waiting_lkb granted_lkb =
    if waiting_lkb.lock.xid == granted_lkb.lock.xid
    then false
    else modes_compat granted_lkb.lock.grmode waiting_lkb.lock.rqmode

-- The transactions while the graph is built.
pub record Building : Type 0 where
  pub transactions : List Trans
  pub mem : Mem

-- `tr->waitfor[i] = x`
unfoldable pub set_slot : ℕ → ℕ → List (Option ℕ) → List (Option ℕ)
set_slot x i [] = []
set_slot x zero (s ∷ rest) = some x ∷ rest
set_slot x (suc i) (s ∷ rest) = s ∷ set_slot x i rest

-- `TR_NALLOC` slots after `memset`.
abbrev pub empty_slots : List (Option ℕ)
empty_slots = none ∷ none ∷ none ∷ none ∷ []

-- The end of `add_waitfor`, for the transaction and the waiting lock.
abbrev pub point_to : ℕ → Trans → Trans
point_to x tr = record tr {
  waitfor = set_slot x tr.waitfor_count tr.waitfor;
  waitfor_count = tr.waitfor_count + 1;
}

abbrev pub succ_int : ℕ → ℕ
succ_int x = (x + 1) % 4294967296

abbrev pub pointed_to : Trans → Trans
pointed_to tr = record tr { others_waiting_on_us = succ_int tr.others_waiting_on_us }

unfoldable pub link : Trans → ℕ → Building → Lkb → Building × Lkb
link tr x b waiting_lkb =
    let ts = change_trans (λ t. point_to x tr) tr.xid b.transactions in
    (
      record b { transactions = change_trans pointed_to x ts },
      record waiting_lkb { waitfor_trans = some x },
    )

-- The end of `add_waitfor`, with room for the pointer. The result `none` is an access to a NULL
-- `waitfor`: after a failed allocation, the next access to the array, which `dump_trans` makes at
-- the latest where the count is not 0.
unfoldable pub attach : Trans → ℕ → Building → Lkb → Option (Building × Lkb)
attach tr x b waiting_lkb =
    if not (tr.waitfor_count == tr.waitfor_alloc)
    then (if length tr.waitfor == tr.waitfor_alloc then some (link tr x b waiting_lkb) else none)
    else (let (given, mem) = malloc b.mem in
        let alloc = tr.waitfor_alloc + 4 in
        if given
        then some (
            link (record tr { waitfor_alloc = alloc; waitfor = tr.waitfor ++ empty_slots }) x
              (record b { mem = mem }) waiting_lkb)
        else if tr.waitfor_count == 0
        then some (
          record {
            transactions =
                change_trans (λ t. record tr { waitfor_alloc = alloc }) tr.xid b.transactions;
            mem = mem;
          },
          waiting_lkb,
        )
        else none)

-- The tests of `add_waitfor` after `locks_compat`: nothing is added.
unfoldable pub is_known : Trans → ℕ → Bool
is_known tr x = tr.xid == x || (not (tr.waitfor_count == 0) && in_waitfor tr.waitfor x)

unfoldable pub add_waitfor : Building → Lkb → Lkb → Option (Building × Lkb)
add_waitfor b waiting_lkb granted_lkb = elim (find_trans b.transactions waiting_lkb.lock.xid) [
  | none ↦ some (b, waiting_lkb)
  | some tr ↦
      if locks_compat waiting_lkb granted_lkb
      then some (b, waiting_lkb)
      else if is_known tr granted_lkb.lock.xid
      then some (b, waiting_lkb)
      else attach tr granted_lkb.lock.xid b waiting_lkb
]

-- The loop over the locks of the resource.
unfoldable pub wait_on_locks : List Lkb → Building → Lkb → Option (Building × Lkb)
wait_on_locks [] b waiting_lkb = some (b, waiting_lkb)
wait_on_locks (granted_lkb ∷ rest) b waiting_lkb =
    if is_waiting granted_lkb.lock.status
    then wait_on_locks rest b waiting_lkb
    else elim (add_waitfor b waiting_lkb granted_lkb) [
      | none ↦ none
      | some out ↦ wait_on_locks rest out.0 out.1
    ]

abbrev pub locks_in : Option Rsb → List Lkb
locks_in none = []
locks_in (some r) = r.locks

abbrev pub locks_of : List Rsb → List ℕ → List Lkb
locks_of rs name = locks_in (find_rsb rs name)

-- The loop over the locks of a transaction, with the locks as it leaves them.
unfoldable pub wait_for_locks : List Rsb → List Lkb → Building → Option (Building × List Lkb)
wait_for_locks rs [] b = some (b, [])
wait_for_locks rs (lkb ∷ rest) b =
    elim (if is_granted lkb.lock.status
      then some (b, lkb)
      else wait_on_locks (locks_of rs lkb.rsb) b lkb) [
        | none ↦ none
        | some out ↦ elim (wait_for_locks rs rest out.0) [
          | none ↦ none
          | some out' ↦ some (out'.0, out.1 ∷ out'.1)
        ]
      ]

-- The outer loop of `create_waitfor_graph`, over the transactions before it.
unfoldable pub graph_pass : List Rsb → List Trans → Building → Option Building
graph_pass rs [] b = some b
graph_pass rs (tr ∷ rest) b = elim (wait_for_locks rs tr.locks b) [
  | none ↦ none
  | some out ↦ graph_pass rs rest (record (out.0) {
    transactions = change_trans (λ t. record t { locks = out.1 }) tr.xid out.0.transactions;
  })
]

unfoldable pub create_waitfor_graph : List Rsb → List Trans → Mem → Option Building
create_waitfor_graph rs ts mem = graph_pass rs ts (record { transactions = ts; mem = mem })
