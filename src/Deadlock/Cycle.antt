-- ===== src/Deadlock/Cycle.antt =====
-- group/dlm_controld/deadlock.c: a cycle of the detection, from the messages of the nodes to the
-- locks that are cancelled.
use dlm.Base.{
  ℕ, Bool, true, not, ◌&&◌, ◌||◌, Option, none, some, List, [], ◌∷◌, ◌++◌, ◌==◌, ltb, if◌then◌else◌,
  is_empty, int_rank,
}
use dlm.Plock.Types.{Mem, malloc}
use dlm.Deadlock.Locks.{PackLock, Lkb, Rsb, Line, is_granted}
use dlm.Deadlock.{
  Trans, remove_waitfor, reduce_waitfor_graph, reduce_waitfor_graph_loop, find_trans_to_cancel,
}
use dlm.Deadlock.Graph.{
  find_trans, change_trans, new_trans, create_trans_list, create_waitfor_graph,
}

-- `struct node` of deadlock.c.
pub record DeadlkNode : Type 0 where
  pub nodeid : ℕ
  pub checkpoint_ready : Bool
  pub in_cycle : Bool

-- A resource and its locks in a section of a checkpoint.
pub record LockSection : Type 0 where
  pub name : List ℕ
  pub packed : List PackLock

-- What the detection sends, writes and asks of other services.
pub data Sent : Type 0 where
  send_checkpoint_ready send_cycle_end unlink_checkpoint : Sent
  send_cancel_lock : ℕ → ℕ → Sent
  write_checkpoint : List LockSection → Sent
  deadlock_cancel : ℕ → Sent

-- The part of `struct lockspace` for the detection, the allocator, and what was sent. The times of a
-- cycle are only logged.
pub record Detect : Type 0 where
  pub nodes : List DeadlkNode
  pub low_nodeid : ℕ
  pub confchg_init : Bool
  pub transactions : List Trans
  pub resources : List Rsb
  pub cycle_running : Bool
  pub all_checkpoints_ready : Bool
  pub mem : Mem
  pub sent : List Sent

-- The settings, the locks in the kernel, and the checkpoints of the nodes, as far as they can be
-- read. `opens` tells whether libdlm opens the lockspace.
pub record DetectEnv : Type 0 where
  pub our_nodeid : ℕ
  pub enable_deadlk : Bool
  pub big_endian : Bool
  pub mstcpy : ℕ → Bool
  pub debugfs : Option (List (Option Line))
  pub checkpoint : ℕ → List LockSection
  pub section_max : ℕ
  pub opens : Bool

abbrev pub note : Sent → Detect → Detect
note s d = record d { sent = d.sent ++ s ∷ [] }

-- `send_message`
unfoldable pub send_message : Sent → Detect → Detect
unfolding malloc
send_message s d =
    let (given, mem) = malloc d.mem in
    let d' = record d { mem = mem } in if given then note s d' else d'

-- `send_cancel_lock`
abbrev pub cancel_message : Lkb → Sent
cancel_message lkb =
    send_cancel_lock lkb.home (if lkb.lock.nodeid == 0 then lkb.lock.id else lkb.lock.remid)

-- `remove_waitfor` in the list. A transaction that is no longer there is only compared.
unfoldable pub remove_pair : ℕ → ℕ → List Trans → List Trans
unfolding find_trans change_trans remove_waitfor
remove_pair xid x ts = elim (find_trans ts xid) [
  | none ↦ ts
  | some tr ↦
      let gone : Trans = elim (find_trans ts x) [ none ↦ new_trans x | some t ↦ t ] in
      let (tr', gone') = remove_waitfor tr gone in
      change_trans (λ t. gone') x (change_trans (λ t. tr') xid ts)
]

abbrev pub remove_option : ℕ → Option ℕ → List Trans → List Trans
remove_option xid none ts = ts
remove_option xid (some x) ts = remove_pair xid x ts

-- The loop of `cancel_trans`.
unfoldable pub cancel_locks : ℕ → List Lkb → Detect → Detect
unfolding send_message
cancel_locks xid [] d = d
cancel_locks xid (lkb ∷ rest) d =
    if is_granted lkb.lock.status
    then cancel_locks xid rest d
    else (let d' = send_message (cancel_message lkb) d in
        cancel_locks xid rest
          (record d' { transactions = remove_option xid lkb.waitfor_trans d'.transactions }))

unfoldable pub cancel_trans : Detect → Detect
unfolding cancel_locks
cancel_trans d = elim (find_trans_to_cancel d.transactions) [
  | none ↦ d
  | some tr ↦
      let d' = cancel_locks tr.xid tr.locks d in
      record d' { transactions = (reduce_waitfor_graph d'.transactions).0 }
]

-- `find_deadlock`, where there are resources and no transactions; `none` is an access to a NULL
-- `waitfor`.
unfoldable pub search : Detect → Option Detect
unfolding cancel_trans send_message
search d =
    let (ts, mem) = create_trans_list d.resources d.transactions d.mem in
    elim (create_waitfor_graph d.resources ts mem) [
      | none ↦ none
      | some b ↦
          let d1 = record d {
            transactions = reduce_waitfor_graph_loop b.transactions;
            mem = b.mem;
          } in
          if is_empty d1.transactions
          then some (send_message send_cycle_end d1)
          else (let d2 = cancel_trans d1 in
              some (
                send_message send_cycle_end
                  (record d2 { transactions = reduce_waitfor_graph_loop d2.transactions })))
    ]

unfoldable pub find_deadlock : Detect → Option Detect
unfolding search send_message
find_deadlock d =
    if is_empty d.resources || not (is_empty d.transactions)
    then some (send_message send_cycle_end d)
    else search d

-- The first loop of `run_deadlock`.
unfoldable pub all_ready : List DeadlkNode → Bool
all_ready [] = true
all_ready (n ∷ rest) = (not n.in_cycle || n.checkpoint_ready) && all_ready rest

-- -1
abbrev pub no_node : ℕ
no_node = 4294967295

-- The second loop of `run_deadlock`.
unfoldable pub low_in_cycle : ℕ → List DeadlkNode → ℕ
low_in_cycle low [] = low
low_in_cycle low (n ∷ rest) =
    low_in_cycle
      (if n.in_cycle && (ltb (int_rank n.nodeid) (int_rank low) || low == no_node)
        then n.nodeid
        else low)
      rest

unfoldable pub run_deadlock : DetectEnv → Detect → Option Detect
unfolding all_ready low_in_cycle find_deadlock
run_deadlock env d =
    if not (all_ready d.nodes)
    then some d
    else (let low = low_in_cycle no_node d.nodes in
        let d' = record d { all_checkpoints_ready = true; low_nodeid = low } in
        if low == env.our_nodeid then find_deadlock d' else some d')
