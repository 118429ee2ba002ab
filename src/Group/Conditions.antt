-- ===== src/Group/Conditions.antt =====
-- group/dlm_controld/cpg.c: the conditions that a change waits for before its start message.
pub mod Clear
use dlm.Base.{
  ℕ, ◌+◌, Bool, true, false, not, ◌||◌, none, some, List, [], ◌∷◌, ◌==◌, ltb, if◌then◌else◌,
}
use dlm.Plock.Types.{succ_u32}
use dlm.Group.Types.{Node, GroupEnv, GroupWorld, Space}

-- What a loop over the history leaves; `wait_count` is the number of nodes to wait for.
pub record Checked : Type 0 where
  pub nodes : List Node
  pub wait_count : ℕ

abbrev pub put_node : Node → Checked → Checked
put_node n c = record c { nodes = n ∷ c.nodes }

abbrev pub wait_for : Node → Checked → Checked
wait_for n c = record { nodes = n ∷ c.nodes; wait_count = c.wait_count + 1 }

-- `fence_node_time`; on an error it leaves the variable as it is.
abbrev pub fenced_time : GroupEnv → ℕ → Node → ℕ
fenced_time env last n = elim (env.fence_node_time n.nodeid) [ none ↦ last | some t ↦ t ]

-- A node that is not fenced yet; the fields are for queries and debugging.
abbrev pub query_fence : ℕ → Node → Node
query_fence last n =
    if n.fence_queries == 0 || not (n.fence_time == last)
    then record n { fence_queries = succ_u32 n.fence_queries; fence_time = last }
    else n

-- The loop of `check_fencing_done`. `last` is the variable `last_fenced_time`.
unfoldable pub check_fencing : GroupEnv → ℕ → List Node → Checked
check_fencing env last [] = record { nodes = []; wait_count = 0 }
check_fencing env last (n ∷ rest) = elim n.check_fencing [
  | false ↦ put_node n (check_fencing env last rest)
  | true ↦
      let last' = fenced_time env last n in
      let rest' = check_fencing env last' rest in
      if ltb n.add_time last'
      then put_node (record n { check_fencing = false; add_time = 0; fence_time = last' }) rest'
      else wait_for (query_fence last' n) rest'
]

unfoldable pub check_fencing_done : GroupEnv → List Node → List Node × Bool
unfolding check_fencing
check_fencing_done env nodes =
    if not env.enable_fencing
    then (nodes, true)
    else (let c = check_fencing env env.stack_time nodes in
        if not (c.wait_count == 0) then (c.nodes, false) else elim env.fence_in_progress [
          | none ↦ (c.nodes, false)
          | some count ↦ (c.nodes, count == 0)
        ])

-- The loop of `check_quorum_done`.
unfoldable pub check_quorum : GroupEnv → List Node → Checked
check_quorum env [] = record { nodes = []; wait_count = 0 }
check_quorum env (n ∷ rest) =
    let rest' = check_quorum env rest in
    if not n.check_quorum
    then put_node n rest'
    else if not (env.is_cluster_member n.nodeid)
    then put_node (record n { check_quorum = false }) rest'
    else wait_for n rest'

unfoldable pub check_quorum_done : GroupEnv → List Node → List Node × Bool
unfolding check_quorum
check_quorum_done env nodes =
    if not env.enable_quorum
    then (nodes, true)
    else (let c = check_quorum env nodes in
        if not (c.wait_count == 0) then (c.nodes, false) else (c.nodes, env.cluster_quorate))

-- The loop of `check_fs_done`.
unfoldable pub check_fs : List Node → Checked
check_fs [] = record { nodes = []; wait_count = 0 }
check_fs (n ∷ rest) =
    let rest' = check_fs rest in
    if not n.check_fs
    then put_node n rest'
    else if n.fs_notified
    then put_node (record n { check_fs = false }) rest'
    else wait_for n rest'

unfoldable pub check_fs_done : Bool → List Node → List Node × Bool
unfolding check_fs
check_fs_done fs_registered nodes =
    if not fs_registered
    then (nodes, true)
    else (let c = check_fs nodes in (c.nodes, c.wait_count == 0))

-- What `wait_conditions_done` leaves.
pub record Waited : Type 0 where
  pub nodes : List Node
  pub world : GroupWorld
  pub ready : Bool

unfoldable pub wait_conditions_done : GroupEnv → Space → GroupWorld → Waited
wait_conditions_done env ls w =
    let (nodes, fenced) = check_fencing_done env ls.node_history in
    let (nodes', quorate) = check_quorum_done env nodes in
    let (nodes'', notified) = check_fs_done ls.fs_registered nodes' in
    if not fenced
    then record { nodes = nodes; world = record w { poll_fencing = true }; ready = false }
    else if not quorate
    then record {
      nodes = nodes';
      world = record w { poll_fencing = false; poll_quorum = true };
      ready = false;
    }
    else if not notified
    then record {
      nodes = nodes'';
      world = record w { poll_fencing = false; poll_quorum = false; poll_fs = true };
      ready = false;
    }
    else record {
      nodes = nodes'';
      world = record w { poll_fencing = false; poll_quorum = false; poll_fs = false };
      ready = true;
    }
