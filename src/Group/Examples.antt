-- ===== src/Group/Examples.antt =====
-- The theorems about group/dlm_controld/cpg.c at concrete changes, and tests of its functions.
use dlm.Base.{◌≢◌, ℕ, ◌≡◌, ◌↔◌, refl, true, false, none, some, [], ◌∷◌, All, arith}
use dlm.Plock.Types.{Env, Timeval, ok, malloc, zero_info}
use dlm.Group.Types.{
  Member, new_member, new_node, Change, wait_messages, start, LsInfo, Message, GroupEnv, GroupWorld,
  Space, find_member, change_member,
}
use dlm.Group.Conditions.{
  wait_conditions_done, check_fencing, check_fencing_done, check_quorum_done, check_fs_done,
  check_quorum, check_fs,
}
use dlm.Group.Conditions.Clear.{FencedSince, wait_conditions_done-FencedSince}
use dlm.Group.Adding.{
  add_change, build_change, add_members, add_removed, remove_member, add_joined, init_joined,
  init_all, init_history,
}
use dlm.Group.Callbacks.{
  Detector, change_members, deliver_cb, finish_change, receive_message, purge_left, purge_space,
}
use dlm.Group.Changes.{
  info_of, nodeids, set_plock_ckpt_node, apply_changes, apply_first, apply_conditions,
  apply_messages, stop_kernel, start_kernel, renew_ids, left_in, left_as, all_started,
  cleanup_changes, prepare_plocks, send_info,
}
use dlm.Group.Control.{IsControlled}
use dlm.Group.Control.Traces.{Step, Reach, Reach-IsControlled}
use dlm.Group.Matching.{Distinct, In, match_change-IsSameChange, IsSameChange, FitsInfo}
use dlm.Group.Outcome.{IsLowest, set_plock_ckpt_node-IsLowest}
use dlm.Group.Added.{IsUnchanged, IsChangeOf, change_members-IsUnchanged, add_change-IsChangeOf}
use dlm.Plock.Wire.{le32}
use dlm.Group.Start.{
  ids_in, ls_info_in, receive_start, find_change, change_found, match_change, get_id_struct,
  is_member, all_members, is_added,
}
use dlm.Group.History.{change_node, get_node_history, node_history_init, node_history_start}

abbrev clock : ℕ → Timeval
clock t = record { sec = t; usec = 0 }

abbrev node_env : Env
node_env = record {
  our_nodeid = 1;
  plock_ownership = false;
  enable_plock = true;
  need_fsid_translation = false;
  big_endian = false;
  now = clock 50;
  time = 50;
  drop_resources_count = 10;
  drop_resources_age = 10000;
  drop_resources_time = 10000;
  plock_rate_limit = 100;
  mountgroup_name = λ id. none;
  stale_flag = λ waiters i. false;
}

-- Node 1 with fencing and without quorum; every node was fenced at time 70.
abbrev env : GroupEnv
env = record {
  plock = node_env;
  daemon_major = 1;
  daemon_minor = 1;
  enable_fencing = true;
  enable_quorum = false;
  fence_node_time = λ n. some 70;
  fence_in_progress = some 0;
  is_cluster_member = λ n. false;
  cluster_quorate = true;
  reason_value = λ r. 1;
  checkpoint = none;
  garbage = record { lock_syncing = false; waiter_syncing = false; info = zero_info };
  stack_time = 0;
}

abbrev idle : GroupWorld
idle = record {
  plock = record {
    mem = [];
    effects = [];
    last_plock_time = λ id. 0;
    stats = record {
      read_count = 0;
      recv_count = 0;
      rate_delays = 0;
      read_time = clock 0;
      recv_time = clock 0;
      rate_last = clock 0;
    };
  };
  out = [];
  poll_fencing = false;
  poll_quorum = false;
  poll_fs = false;
}

abbrev fresh : Space
fresh = record {
  plocks = record {
    name = 102 ∷ [];
    global_id = 1;
    associated_mg_id = 0;
    save_plocks = false;
    plock_resources = [];
    saved_messages = [];
    last_checkpoint_time = 0;
    drop_resources_last = clock 0;
  };
  cpg_handle = 0;
  cpg_client = 0;
  joining = true;
  leaving = false;
  kernel_stopped = true;
  fs_registered = false;
  change_seq = 0;
  started_count = 0;
  started_change = none;
  changes = [];
  node_history = [];
  plock_ckpt_node = 0;
  need_plocks = true;
}

-- No deadlock detection.
abbrev detector : Detector
detector = record {
  State = Unit;
  confchg = λ members left joined ls d w. (d, w);
  receive = λ hd ls d w. (d, w);
}

-- Node 1 joins an empty lockspace.
abbrev joined : Space
joined = (change_members env (1 ∷ []) [] (1 ∷ []) fresh idle).1

abbrev own_info : LsInfo
own_info = record {
  ls_info_size = 32;
  id_info_size = 4;
  id_info_count = 1;
  started_count = 0;
  member_count = 1;
  joined_count = 1;
  remove_count = 0;
  failed_count = 0;
}

abbrev own_start : Message
own_start = record {
  major = 1;
  minor = 1;
  nodeid = 1;
  to_nodeid = 0;
  flags = record { joining = true; haveplock = false };
  msgdata = 1;
  body = start own_info (1 ∷ []);
}

abbrev started : Space
started = (deliver_cb detector env 1 (some own_start) joined tt idle).0

-- The lockspace is added, waits for the own start message, and goes on when it has come.
join_runs :
    ((add_change env fresh (1 ∷ []) [] (1 ∷ []) idle).0 ≡ ok)
    × (joined.kernel_stopped ≡ true)
    × (started.kernel_stopped ≡ false)
unfolding change_members finish_change deliver_cb receive_message purge_left purge_space add_change
    build_change add_members add_removed remove_member add_joined init_joined init_all init_history
    find_member change_member apply_changes apply_first apply_conditions apply_messages stop_kernel
    start_kernel renew_ids left_in left_as all_started cleanup_changes prepare_plocks send_info
    wait_conditions_done check_fencing_done check_fencing check_quorum_done check_quorum
    check_fs_done check_fs change_node get_node_history node_history_init node_history_start ids_in
    ls_info_in receive_start find_change change_found match_change get_id_struct is_member
    all_members is_added malloc le32
join_runs = (refl, refl, refl)

join_reached : Reach detector true false fresh joined
join_reached =
    Reach.next Reach.here (Step.changed env (1 ∷ []) [] (1 ∷ []) fresh idle refl refl join_runs.0)

Reach-IsControlled_example : IsControlled true false joined
Reach-IsControlled_example = Reach-IsControlled fresh joined refl join_reached

-- Node 2 was added at time 40 and failed.
abbrev failed : Space
failed = record fresh {
  node_history = record (new_node 2) { check_fencing = true; add_time = 40 } ∷ [];
}

failed_ready : (wait_conditions_done env failed idle).ready ≡ true
unfolding wait_conditions_done check_fencing_done check_fencing check_quorum_done check_quorum
    check_fs_done check_fs
failed_ready = refl

wait_conditions_done-FencedSince_example :
    All (λ n. n.check_fencing ≡ true → FencedSince env n) failed.node_history
    × (env.fence_in_progress ≡ some 0)
wait_conditions_done-FencedSince_example =
    wait_conditions_done-FencedSince env failed idle refl (λ m. (70, refl)) failed_ready

-- Nodes 2 and 3 have plock state.
abbrev holder : ℕ → Member
holder n = record (new_member n) { start_flags = record { joining = false; haveplock = true } }

abbrev three : Change
three = record {
  members = new_member 1 ∷ holder 3 ∷ holder 2 ∷ [];
  removed = [];
  member_count = 3;
  joined_count = 1;
  remove_count = 0;
  failed_count = 0;
  state = wait_messages;
  we_joined = true;
  seq = 1;
  combined_seq = 0;
}

set_plock_ckpt_node-IsLowest_example :
    IsLowest (set_plock_ckpt_node env fresh three idle).0.plock_ckpt_node three.members
set_plock_ckpt_node-IsLowest_example =
    set_plock_ckpt_node-IsLowest env fresh three idle
      (λ h. omega arith, (λ h. omega arith, (λ h. omega arith, tt)))

-- The same members in another order.
abbrev reordered : Change
reordered = record three { members = holder 2 ∷ new_member 1 ∷ holder 3 ∷ []; seq = 7 }

three_fits : FitsInfo (info_of fresh three) (nodeids three.members)
three_fits = record {
  sizes = (omega arith, omega arith, omega arith);
  started_count = omega arith;
  member_count = omega arith;
  joined_count = omega arith;
  remove_count = omega arith;
  failed_count = omega arith;
  ids_fit = (omega arith, (omega arith, (omega arith, tt)));
}

three-Distinct : Distinct (nodeids three.members)
unfolding get_id_struct
three-Distinct = (refl, (refl, (refl, tt)))

match_change-IsSameChange_example :
    let li = ls_info_in true (ls_info_in true (info_of fresh three)) in
    let ids = ids_in true (ids_in true (nodeids three.members)) in
    (match_change 1 2 li ids reordered ≡ true) ↔ IsSameChange 1 2 three reordered
match_change-IsSameChange_example =
    match_change-IsSameChange 1 2 fresh three reordered true three_fits three-Distinct refl refl

-- The allocation of the first member fails.
abbrev no_memory : GroupWorld
no_memory = record idle { plock = record (idle.plock) { mem = true ∷ false ∷ [] } }

add_fails : (add_change env fresh (1 ∷ []) [] (1 ∷ []) no_memory).0 ≢ ok
unfolding add_change malloc build_change add_members
add_fails h = cc

change_given : (malloc no_memory.plock.mem).0 ≡ true
unfolding malloc
change_given = refl

change_members-IsUnchanged_example :
    IsUnchanged fresh (change_members env (1 ∷ []) [] (1 ∷ []) fresh no_memory).1
change_members-IsUnchanged_example =
    change_members-IsUnchanged env (1 ∷ []) [] (1 ∷ []) fresh no_memory change_given add_fails

two_joined : All (In (2 ∷ 1 ∷ [])) (1 ∷ [])
unfolding get_id_struct
two_joined = (refl, tt)

add_change-IsChangeOf_example :
    let out = add_change env fresh (2 ∷ 1 ∷ []) [] (1 ∷ []) idle in
    (out.0 ≡ ok)
    × ((cg : Change) × (out.1.changes ≡ cg ∷ [])
        × IsChangeOf (2 ∷ 1 ∷ []) [] (1 ∷ []) out.1.change_seq cg)
add_change-IsChangeOf_example =
    add_change-IsChangeOf env (2 ∷ 1 ∷ []) [] (1 ∷ []) fresh idle refl two_joined
