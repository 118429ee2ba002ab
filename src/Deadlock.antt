-- ===== src/Deadlock.antt =====
-- group/dlm_controld/deadlock.c: the reduction of the graph of transactions that wait for others.
pub mod Locks
pub mod Reduce
pub mod Ending
pub mod Pointers
pub mod Exact
pub mod Graph
pub mod Cycle
pub mod Handlers
pub mod Filling
pub mod Linking
pub mod Build
pub mod Listing
pub mod Linked
pub mod Complete
pub mod Listed
pub mod Standing
pub mod Edges
mod Examples
use dlm.Base.{
  ℕ, zero, suc, ◌+◌, ◌-◌, ◌%◌, Bool, true, false, not, Option, none, some, List, [], ◌∷◌, ◌++◌,
  ◌==◌, if◌then◌else◌, length,
}
use dlm.Deadlock.Locks.{Lkb}

-- `struct trans`. Where `waitfor` is not NULL it has `waitfor_alloc` slots. A pointer to a transaction is its `xid`, since
-- `get_trans` makes one transaction for each; a slot of `waitfor` that is NULL is `none`.
pub record Trans : Type 0 where
  pub xid : ℕ
  pub locks : List Lkb
  pub others_waiting_on_us : ℕ
  pub waitfor_alloc : ℕ
  pub waitfor_count : ℕ
  pub waitfor : List (Option ℕ)

-- `x - 1` at the pattern of an `int`.
abbrev pub pred_int : ℕ → ℕ
pred_int x = (x + 4294967295) % 4294967296

-- `in_waitfor` on the slots.
unfoldable pub in_waitfor : List (Option ℕ) → ℕ → Bool
in_waitfor [] add_tr = false
in_waitfor (none ∷ rest) add_tr = in_waitfor rest add_tr
in_waitfor (some x ∷ rest) add_tr = if x == add_tr then true else in_waitfor rest add_tr

-- What the loop of `remove_waitfor` changes.
pub record Slots : Type 0 where
  pub waitfor : List (Option ℕ)
  pub count : ℕ
  pub others : ℕ

abbrev pub keep_slot : Option ℕ → Slots → Slots
keep_slot s out = record out { waitfor = s ∷ out.waitfor }

-- The loop of `remove_waitfor`. The count is not 0 where it is lowered.
unfoldable pub remove_slots : List (Option ℕ) → ℕ → ℕ → ℕ → Slots
remove_slots [] remove_tr count others = record { waitfor = []; count = count; others = others }
remove_slots (none ∷ rest) remove_tr count others =
    let later = remove_slots rest remove_tr count others in
    if count == 0
    then record { waitfor = none ∷ rest; count = count; others = others }
    else keep_slot none later
remove_slots (some x ∷ rest) remove_tr count others = elim (count == 0) [
  | true ↦ record { waitfor = some x ∷ rest; count = count; others = others }
  | false ↦ elim (x == remove_tr) [
    | true ↦ keep_slot none (remove_slots rest remove_tr (count - 1) (pred_int others))
    | false ↦ keep_slot (some x) (remove_slots rest remove_tr count others)
  ]
]

-- `remove_waitfor`: the two transactions.
unfoldable pub remove_waitfor : Trans → Trans → Trans × Trans
unfolding remove_slots
remove_waitfor tr remove_tr =
    let out =
      remove_slots tr.waitfor remove_tr.xid tr.waitfor_count remove_tr.others_waiting_on_us in
    (
      record tr { waitfor = out.waitfor; waitfor_count = out.count },
      record remove_tr { others_waiting_on_us = out.others },
    )

-- The loop of `remove_trans` over transactions other than `remove_tr`.
unfoldable pub remove_loop : List Trans → Trans → List Trans × Trans
unfolding remove_waitfor
remove_loop [] remove_tr = ([], remove_tr)
remove_loop (tr ∷ rest) remove_tr =
    let (tr', remove_tr') = remove_waitfor tr remove_tr in
    let (rest', last) = remove_loop rest remove_tr' in
    if remove_tr.others_waiting_on_us == 0 then (tr ∷ rest, remove_tr) else (tr' ∷ rest', last)

-- `remove_trans`, where `before` and `after` are the transactions before and after `remove_tr`.
unfoldable pub remove_trans : List Trans → Trans → List Trans → List Trans × List Trans
unfolding remove_loop
remove_trans before remove_tr after =
    let (before', remove_tr') = remove_loop before remove_tr in
    (before', (remove_loop after remove_tr').0)

-- The loop of `reduce_waitfor_graph`, at the first transaction of `after`; the fuel is the number of
-- transactions that are left. It returns the list and the number of removed transactions.
unfoldable pub reduce_pass : ℕ → List Trans → List Trans → ℕ → List Trans × ℕ
unfolding remove_trans
reduce_pass zero before after removed = (before ++ after, removed)
reduce_pass (suc n) before [] removed = (before, removed)
reduce_pass (suc n) before (tr ∷ after) removed =
    let (before', after') = remove_trans before tr after in
    elim (tr.waitfor_count == 0) [
      | false ↦ reduce_pass n (before ++ tr ∷ []) after removed
      | true ↦ reduce_pass n before' after' (removed + 1)
    ]

unfoldable pub reduce_waitfor_graph : List Trans → List Trans × ℕ
unfolding reduce_pass
reduce_waitfor_graph ts = reduce_pass (length ts) [] ts 0

-- `reduce_waitfor_graph_loop` with a bound on the number of its rounds.
unfoldable pub reduce_loop : ℕ → List Trans → List Trans
unfolding reduce_waitfor_graph
reduce_loop zero ts = ts
reduce_loop (suc n) ts =
    let (ts', removed) = reduce_waitfor_graph ts in
    elim (removed == 0) [ true ↦ ts' | false ↦ reduce_loop n ts' ]

-- Each round but the last removes a transaction.
unfoldable pub reduce_waitfor_graph_loop : List Trans → List Trans
unfolding reduce_loop
reduce_waitfor_graph_loop ts = reduce_loop (length ts + 1) ts

-- `find_trans_to_cancel`
unfoldable pub find_trans_to_cancel : List Trans → Option Trans
find_trans_to_cancel [] = none
find_trans_to_cancel (tr ∷ rest) =
    if tr.others_waiting_on_us == 0 then find_trans_to_cancel rest else some tr
