-- ===== src/Group/History.antt =====
-- group/dlm_controld/cpg.c: the history of the nodes of a lockspace, which says what must be waited
-- for after a failure.
use dlm.Base.{
  ℕ, Bool, true, not, ◌&&◌, Option, none, some, List, [], ◌∷◌, ◌++◌, ◌==◌, if◌then◌else◌,
}
use dlm.Plock.Types.{Mem, malloc}
use dlm.Group.Types.{Node, new_node, GroupEnv}

unfoldable pub get_node_history : List Node → ℕ → Option Node
get_node_history [] nodeid = none
get_node_history (n ∷ rest) nodeid =
    if n.nodeid == nodeid then some n else get_node_history rest nodeid

-- Writes to the node that `get_node_history` finds.
unfoldable pub change_node : (Node → Node) → ℕ → List Node → List Node
change_node f nodeid [] = []
change_node f nodeid (n ∷ rest) =
    if n.nodeid == nodeid then f n ∷ rest else n ∷ change_node f nodeid rest

unfoldable pub node_history_init : ℕ → ℕ → List Node → Mem → List Node × Mem
unfolding get_node_history change_node malloc
node_history_init nodeid seq nodes mem = elim (get_node_history nodes nodeid) [
  | some n ↦ (change_node (λ n'. record n' { added_seq = seq }) nodeid nodes, mem)
  | none ↦
      let (given, mem') = malloc mem in
      if given
      then (nodes ++ record (new_node nodeid) { added_seq = seq } ∷ [], mem')
      else (nodes, mem')
]

unfoldable pub node_history_start : ℕ → ℕ → List Node → List Node
unfolding change_node
node_history_start time nodeid = change_node (λ n. record n { add_time = time }) nodeid

unfoldable pub node_history_left : ℕ → ℕ → List Node → List Node
unfolding change_node
node_history_left nodeid seq =
    change_node (λ n. record n { add_time = 0; removed_seq = seq }) nodeid

-- What `node_history_fail` does to the node that it finds.
abbrev pub fail_node : GroupEnv → Bool → ℕ → ℕ → Node → Node
fail_node env fs_registered seq reason n =
    let fenced =
      if env.enable_fencing && not (n.add_time == 0)
      then record n { check_fencing = true; fence_time = 0; fence_queries = 0 }
      else n in
    record fenced {
      check_quorum = if env.enable_quorum && not env.enable_fencing then true else n.check_quorum;
      check_fs = if fs_registered then true else n.check_fs;
      removed_seq = seq;
      failed_reason = reason;
    }

unfoldable pub node_history_fail : GroupEnv → Bool → ℕ → ℕ → ℕ → List Node → List Node
unfolding change_node
node_history_fail env fs_registered nodeid seq reason =
    change_node (fail_node env fs_registered seq reason) nodeid

-- The results of `set_fs_notified`.
pub data Notified : Type 0 where
  done esrch eagain : Notified

unfoldable pub set_fs_notified : ℕ → List Node → List Node × Notified
unfolding get_node_history change_node
set_fs_notified nodeid nodes = elim (get_node_history nodes nodeid) [
  | none ↦ (nodes, esrch)
  | some n ↦
      if not n.check_fs
      then (nodes, eagain)
      else (change_node (λ n'. record n' { fs_notified = true }) nodeid nodes, done)
]
