-- ===== src/Group/Types.antt =====
-- The structs of group/dlm_controld/cpg.c, the settings that its handlers see, and their outputs.
use dlm.Base.{ℕ, Bool, false, Option, none, some, List, [], ◌∷◌, ◌++◌, ◌==◌, if◌then◌else◌}
use dlm.Plock.Types.{Info, Env, Lockspace, MsgType}
use dlm.Plock.Types as PlockTypes
use dlm.Plock.Checkpoint.{Section, Garbage}

-- `DLM_MFLG_JOINING` and `DLM_MFLG_HAVEPLOCK`, the bits of a header's flags.
pub record Flags : Type 0 where
  pub joining : Bool
  pub haveplock : Bool

abbrev pub no_flags : Flags
no_flags = record { joining = false; haveplock = false }

-- `struct member`
pub record Member : Type 0 where
  pub nodeid : ℕ
  pub start : Bool
  pub added : Bool
  pub failed : Bool
  pub disallowed : Bool
  pub start_flags : Flags

-- After `memset`, with its `nodeid`.
abbrev pub new_member : ℕ → Member
new_member nodeid = record {
  nodeid = nodeid;
  start = false;
  added = false;
  failed = false;
  disallowed = false;
  start_flags = no_flags;
}

-- `struct node` in `ls->node_history`.
pub record Node : Type 0 where
  pub nodeid : ℕ
  pub check_fencing : Bool
  pub check_quorum : Bool
  pub check_fs : Bool
  pub fs_notified : Bool
  pub add_time : ℕ
  pub fence_time : ℕ
  pub fence_queries : ℕ
  pub added_seq : ℕ
  pub removed_seq : ℕ
  pub failed_reason : ℕ

abbrev pub new_node : ℕ → Node
new_node nodeid = record {
  nodeid = nodeid;
  check_fencing = false;
  check_quorum = false;
  check_fs = false;
  fs_notified = false;
  add_time = 0;
  fence_time = 0;
  fence_queries = 0;
  added_seq = 0;
  removed_seq = 0;
  failed_reason = 0;
}

-- `CGST_WAIT_CONDITIONS` and `CGST_WAIT_MESSAGES`
pub data CgState : Type 0 where
  wait_conditions wait_messages : CgState

-- `struct change`
pub record Change : Type 0 where
  pub members : List Member
  pub removed : List Member
  pub member_count : ℕ
  pub joined_count : ℕ
  pub remove_count : ℕ
  pub failed_count : ℕ
  pub state : CgState
  pub we_joined : Bool
  pub seq : ℕ
  pub combined_seq : ℕ

-- `struct ls_info`. The entries behind it, `id_info_count` of them at steps of `id_info_size` bytes,
-- are a list of their own.
pub record LsInfo : Type 0 where
  pub ls_info_size : ℕ
  pub id_info_size : ℕ
  pub id_info_count : ℕ
  pub started_count : ℕ
  pub member_count : ℕ
  pub joined_count : ℕ
  pub remove_count : ℕ
  pub failed_count : ℕ

-- The part of a message behind its header.
pub data Body : Type 0 where
  start plocks_stored : LsInfo → List ℕ → Body
  plocks : MsgType → Info → Body
  deadlk_cycle_start deadlk_cycle_end deadlk_checkpoint_ready deadlk_cancel_lock : Body
  unknown_type : Body

-- A message, its header in the byte order of the host.
pub record Message : Type 0 where
  pub major : ℕ
  pub minor : ℕ
  pub nodeid : ℕ
  pub to_nodeid : ℕ
  pub flags : Flags
  pub msgdata : ℕ
  pub body : Body

-- `struct cpg_address`, and why a node left.
pub data Reason : Type 0 where
  leave nodedown procdown : Reason

pub record Left : Type 0 where
  pub nodeid : ℕ
  pub reason : Reason

-- The settings and the other services of the cluster. `fence_node_time` and `fence_in_progress`
-- answer `none` for an error.
pub record GroupEnv : Type 0 where
  pub plock : Env
  pub daemon_major : ℕ
  pub daemon_minor : ℕ
  pub enable_fencing : Bool
  pub enable_quorum : Bool
  pub fence_node_time : ℕ → Option ℕ
  pub fence_in_progress : Option ℕ
  pub is_cluster_member : ℕ → Bool
  pub cluster_quorate : Bool
  -- the numbers of the reasons (corosync/cpg.h), which queries show
  pub reason_value : Reason → ℕ
  pub checkpoint : Option (List Section)
  pub garbage : Garbage
  -- what the stack holds in `last_fenced_time` before it is set
  pub stack_time : ℕ

-- What the handlers do to the outside: to the kernel, to the cluster and to the group.
pub data Out : Type 0 where
  sysfs_control sysfs_event_done sysfs_id : ℕ → Out
  configfs_members : List ℕ → List ℕ → Out
  kick_node : ℕ → Out
  mcast : Message → Out
  close_checkpoint : Out
  store_checkpoint : List Section → Out
  finalize_cpg dead_client : ℕ → Out
  crash : Out

-- The outputs carry the name of their lockspace.
pub record GroupWorld : Type 0 where
  pub plock : PlockTypes.World
  pub out : List (List ℕ × Out)
  pub poll_fencing : Bool
  pub poll_quorum : Bool
  pub poll_fs : Bool

-- `struct lockspace`: its membership, and the part that the plock code uses.
pub record Space : Type 0 where
  pub plocks : Lockspace
  pub cpg_handle : ℕ
  pub cpg_client : ℕ
  pub joining : Bool
  pub leaving : Bool
  pub kernel_stopped : Bool
  pub fs_registered : Bool
  pub change_seq : ℕ
  pub started_count : ℕ
  pub started_change : Option Change
  pub changes : List Change
  pub node_history : List Node
  pub plock_ckpt_node : ℕ
  pub need_plocks : Bool

abbrev pub emit : Space → Out → GroupWorld → GroupWorld
emit ls o w = record w { out = w.out ++ (ls.plocks.name, o) ∷ [] }

-- `find_memb`
unfoldable pub find_member : List Member → ℕ → Option Member
find_member [] nodeid = none
find_member (m ∷ rest) nodeid = if m.nodeid == nodeid then some m else find_member rest nodeid

-- Writes to the member that `find_memb` finds.
unfoldable pub change_member : (Member → Member) → ℕ → List Member → List Member
change_member f nodeid [] = []
change_member f nodeid (m ∷ rest) =
    if m.nodeid == nodeid then f m ∷ rest else m ∷ change_member f nodeid rest
