-- ===== src/Group/Queries.antt =====
-- group/dlm_controld/cpg.c: the answers to queries about lockspaces and their nodes.
use dlm.Base.{ℕ, Bool, true, false, Option, none, some, List, [], ◌∷◌, if◌then◌else◌, map}
use dlm.Plock.Types.{Mem, malloc}
use dlm.Group.Types.{
  Member, Node, CgState, wait_conditions, wait_messages, Change, GroupWorld, Space, find_member,
}
use dlm.Group.History.{get_node_history}
use dlm.Group.Changes.{last_seq}

-- `struct dlmc_change`
pub record DlmcChange : Type 0 where
  pub member_count : ℕ
  pub joined_count : ℕ
  pub remove_count : ℕ
  pub failed_count : ℕ
  pub wait_condition : ℕ
  pub wait_messages_flag : Bool
  pub seq : ℕ
  pub combined_seq : ℕ

abbrev pub no_change : DlmcChange
no_change = record {
  member_count = 0;
  joined_count = 0;
  remove_count = 0;
  failed_count = 0;
  wait_condition = 0;
  wait_messages_flag = false;
  seq = 0;
  combined_seq = 0;
}

-- `struct dlmc_lockspace`, its flags one by one.
pub record DlmcLockspace : Type 0 where
  pub name : List ℕ
  pub global_id : ℕ
  pub lf_joining : Bool
  pub lf_leaving : Bool
  pub lf_kernel_stopped : Bool
  pub lf_fs_registered : Bool
  pub lf_need_plocks : Bool
  pub lf_save_plocks : Bool
  pub cg_prev : DlmcChange
  pub cg_next : DlmcChange

-- `struct dlmc_node`, its flags one by one.
pub record DlmcNode : Type 0 where
  pub nodeid : ℕ
  pub nf_member : Bool
  pub nf_start : Bool
  pub nf_disallowed : Bool
  pub nf_check_fencing : Bool
  pub nf_check_quorum : Bool
  pub nf_check_fs : Bool
  pub added_seq : ℕ
  pub removed_seq : ℕ
  pub failed_reason : ℕ

abbrev pub dlmc_change : Change → ℕ → DlmcChange
dlmc_change cg combined_seq = record no_change {
  member_count = cg.member_count;
  joined_count = cg.joined_count;
  remove_count = cg.remove_count;
  failed_count = cg.failed_count;
  seq = cg.seq;
  combined_seq = combined_seq;
}

-- `cg_next.wait_condition`
abbrev pub condition_of : CgState → GroupWorld → ℕ
condition_of s w =
    if w.poll_fencing
    then 1
    else if w.poll_quorum
    then 2
    else if w.poll_fs
    then 3
    else elim s [ wait_conditions ↦ 4 | wait_messages ↦ 0 ]

abbrev pub next_of : List Change → GroupWorld → DlmcChange
next_of [] w = no_change
next_of (cg ∷ rest) w = record (dlmc_change cg (last_seq cg.seq rest)) {
  wait_condition = condition_of cg.state w;
  wait_messages_flag = elim cg.state [ wait_conditions ↦ false | wait_messages ↦ true ];
}

-- `set_lockspace_info`, into a cleared struct.
unfoldable pub set_lockspace_info : Space → GroupWorld → DlmcLockspace
set_lockspace_info ls w = record {
  name = ls.plocks.name;
  global_id = ls.plocks.global_id;
  lf_joining = ls.joining;
  lf_leaving = ls.leaving;
  lf_kernel_stopped = ls.kernel_stopped;
  lf_fs_registered = ls.fs_registered;
  lf_need_plocks = ls.need_plocks;
  lf_save_plocks = ls.plocks.save_plocks;
  cg_prev = elim ls.started_change [ none ↦ no_change | some cg ↦ dlmc_change cg cg.combined_seq ];
  cg_next = next_of ls.changes w;
}

abbrev pub no_node_info : ℕ → DlmcNode
no_node_info nodeid = record {
  nodeid = nodeid;
  nf_member = false;
  nf_start = false;
  nf_disallowed = false;
  nf_check_fencing = false;
  nf_check_quorum = false;
  nf_check_fs = false;
  added_seq = 0;
  removed_seq = 0;
  failed_reason = 0;
}

-- The member of a change that is not NULL.
abbrev pub member_of : Option Change → ℕ → Option Member
member_of none nodeid = none
member_of (some cg) nodeid = find_member cg.members nodeid

abbrev pub with_member : Option Member → DlmcNode → DlmcNode
with_member none node = node
with_member (some m) node = record node {
  nf_member = true;
  nf_start = m.start;
  nf_disallowed = m.disallowed;
}

abbrev pub with_history : Option Node → DlmcNode → DlmcNode
with_history none node = node
with_history (some n) node = record node {
  nf_check_fencing = n.check_fencing;
  nf_check_quorum = n.check_quorum;
  nf_check_fs = n.check_fs;
  added_seq = n.added_seq;
  removed_seq = n.removed_seq;
  failed_reason = n.failed_reason;
}

-- `_set_node_info`, into a cleared struct.
unfoldable pub set_node_info_of : Space → Option Change → ℕ → DlmcNode
unfolding find_member get_node_history
set_node_info_of ls cg nodeid =
    with_history (get_node_history ls.node_history nodeid)
      (with_member (member_of cg nodeid) (no_node_info nodeid))

-- The first change, or else the one that was started.
abbrev pub current_change : Space → Option Change
current_change ls = elim ls.changes [ [] ↦ ls.started_change | cg ∷ rest ↦ some cg ]

unfoldable pub set_node_info : Space → ℕ → DlmcNode
unfolding set_node_info_of
set_node_info ls nodeid = set_node_info_of ls (current_change ls) nodeid

-- `set_lockspaces`; `none` is -ENOMEM.
unfoldable pub set_lockspaces : List Space → GroupWorld → Mem → Option (List DlmcLockspace) × Mem
unfolding set_lockspace_info malloc
set_lockspaces lss w mem =
    let (given, mem') = malloc mem in
    (if given then some (map (λ ls. set_lockspace_info ls w) lss) else none, mem')

-- `DLMC_NODES_ALL`, `DLMC_NODES_MEMBERS`, `DLMC_NODES_NEXT`, or any other value.
pub data NodesOption : Type 0 where
  nodes_all nodes_members nodes_next nodes_other : NodesOption

-- The nodes that are asked for; none for an early `goto out`.
abbrev pub asked_nodes : Space → NodesOption → Option (Option Change × List ℕ)
asked_nodes ls nodes_all = some (current_change ls, map (λ n. n.nodeid) ls.node_history)
asked_nodes ls nodes_members = elim ls.started_change [
  | none ↦ none
  | some cg ↦ some (some cg, map (λ m. m.nodeid) cg.members)
]
asked_nodes ls nodes_next = elim ls.changes [
  | [] ↦ none
  | cg ∷ rest ↦ some (some cg, map (λ m. m.nodeid) cg.members)
]
asked_nodes ls nodes_other = none

-- `set_lockspace_nodes`; `none` is -ENOMEM. The array has `cg->member_count` entries, the length of
-- the list of members.
unfoldable pub set_lockspace_nodes : Space → NodesOption → Mem → Option (List DlmcNode) × Mem
unfolding set_node_info_of malloc
set_lockspace_nodes ls option mem = elim (asked_nodes ls option) [
  | none ↦ (some [], mem)
  | some asked ↦
      let (given, mem') = malloc mem in
      (if given then some (map (set_node_info_of ls asked.0) asked.1) else none, mem')
]
