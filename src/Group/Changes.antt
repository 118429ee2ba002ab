-- ===== src/Group/Changes.antt =====
-- group/dlm_controld/cpg.c: what a change does when its conditions and messages are there.
use dlm.Base.{
  ℕ, Bool, true, false, not, ◌&&◌, ◌||◌, none, some, List, [], ◌∷◌, ◌++◌, ◌==◌, ltb, if◌then◌else◌,
  map, int_rank,
}
use dlm.Plock.Types.{malloc, succ_u32}
use dlm.Plock.Checkpoint.{store_plocks}
use dlm.Group.Types.{
  Member, Change, wait_conditions, wait_messages, LsInfo, Body, start, plocks_stored, Message,
  GroupEnv, sysfs_control, sysfs_event_done, sysfs_id, configfs_members, mcast, close_checkpoint,
  store_checkpoint, GroupWorld, Space, emit,
}
use dlm.Group.Conditions.{wait_conditions_done}
use dlm.Group.Start.{ls_info_in, ids_in}

abbrev pub nodeids : List Member → List ℕ
nodeids = map (λ m. m.nodeid)

-- The body that `send_info` fills in; `start` or `plocks_stored` goes around it.
abbrev pub info_of : Space → Change → LsInfo
info_of ls cg = record {
  ls_info_size = 32;
  id_info_size = 4;
  id_info_count = cg.member_count;
  started_count = ls.started_count;
  member_count = cg.member_count;
  joined_count = cg.joined_count;
  remove_count = cg.remove_count;
  failed_count = cg.failed_count;
}

-- The message of `send_info`, after `dlm_send_message` has filled in its header.
abbrev pub info_message : GroupEnv → Space → Change → (LsInfo → List ℕ → Body) → Message
info_message env ls cg body = record {
  major = env.daemon_major;
  minor = env.daemon_minor;
  nodeid = env.plock.our_nodeid;
  to_nodeid = 0;
  flags = record { joining = ls.joining; haveplock = not ls.need_plocks };
  msgdata = cg.seq;
  body =
      body (ls_info_in env.plock.big_endian (info_of ls cg))
        (ids_in env.plock.big_endian (nodeids cg.members));
}

-- `send_info` for the first change.
unfoldable pub send_info :
    GroupEnv → Space → Change → (LsInfo → List ℕ → Body) → GroupWorld → GroupWorld
unfolding malloc ls_info_in ids_in
send_info env ls cg body w =
    let (given, mem) = malloc w.plock.mem in
    let w' = record w { plock = record (w.plock) { mem = mem } } in
    if given then emit ls (mcast (info_message env ls cg body)) w' else w'

-- `format_renew_ids`: the members of the first change that a later entry of the list removed.
unfoldable pub left_as : List Member → ℕ → List ℕ
left_as [] nodeid = []
left_as (m ∷ rest) nodeid =
    let rest' = left_as rest nodeid in if nodeid == m.nodeid then nodeid ∷ rest' else rest'

unfoldable pub left_in : List Change → ℕ → List ℕ
unfolding left_as
left_in [] nodeid = []
left_in (cg ∷ rest) nodeid = left_as cg.removed nodeid ++ left_in rest nodeid

unfoldable pub renew_ids : List Member → List Change → List ℕ
unfolding left_in
renew_ids [] rest = []
renew_ids (m ∷ members) rest = left_in rest m.nodeid ++ renew_ids members rest

-- `start_kernel`; `rest` is the list behind the first change.
unfoldable pub start_kernel : Space → Change → List Change → GroupWorld → Space × GroupWorld
unfolding renew_ids
start_kernel ls cg rest w =
    if not ls.kernel_stopped
    then (ls, w)
    else (let w1 = if ls.joining then emit ls (sysfs_id ls.plocks.global_id) w else w in
        let w2 = emit ls (configfs_members (nodeids cg.members) (renew_ids cg.members rest)) w1 in
        let w3 = emit ls (sysfs_control 1) w2 in
        if ls.joining
        then (
          record ls { kernel_stopped = false; joining = false },
          emit ls (sysfs_event_done 0) w3,
        )
        else (record ls { kernel_stopped = false }, w3))

unfoldable pub stop_kernel : Space → GroupWorld → Space × GroupWorld
stop_kernel ls w =
    if not ls.kernel_stopped
    then (record ls { kernel_stopped = true }, emit ls (sysfs_control 0) w)
    else (ls, w)

-- The test of `wait_messages_done`: every member has sent its start message.
unfoldable pub all_started : List Member → Bool
all_started [] = true
all_started (m ∷ rest) = m.start && all_started rest

-- The `seq` of the last change, for queries.
abbrev pub last_seq : ℕ → List Change → ℕ
last_seq seq [] = seq
last_seq seq (cg ∷ rest) = last_seq cg.seq rest

-- `ls->started_count++`, which skips 0.
abbrev pub next_count : ℕ → ℕ
next_count n = let n' = succ_u32 n in if n' == 0 then succ_u32 n' else n'

unfoldable pub cleanup_changes : Change → List Change → Space → Space
cleanup_changes cg rest ls = record ls {
  started_change = some (record cg { combined_seq = last_seq cg.seq rest });
  started_count = next_count ls.started_count;
  changes = [];
}

-- The loop of `set_plock_ckpt_node`, and one member of it.
unfoldable pub lower : ℕ → Member → ℕ
lower low m =
    if not m.start_flags.haveplock
    then low
    else if low == 0 || ltb (int_rank m.nodeid) (int_rank low)
    then m.nodeid
    else low

unfoldable pub low_node : ℕ → List Member → ℕ
low_node low [] = low
low_node low (m ∷ rest) = low_node (lower low m) rest

unfoldable pub set_plock_ckpt_node : GroupEnv → Space → Change → GroupWorld → Space × GroupWorld
unfolding low_node
set_plock_ckpt_node env ls cg w =
    let low = low_node 0 cg.members in
    (
      record ls { plock_ckpt_node = low },
      if ls.plock_ckpt_node == env.plock.our_nodeid && not (low == env.plock.our_nodeid)
          then emit ls close_checkpoint w
          else w,
    )

unfoldable pub nodes_added : List Change → Bool
nodes_added [] = false
nodes_added (cg ∷ rest) = not (cg.joined_count == 0) || nodes_added rest

-- The end of `prepare_plocks`, at the node that stores the plocks.
unfoldable pub store_if_added :
    GroupEnv → Space → Change → List Change → GroupWorld → Space × GroupWorld
unfolding nodes_added
store_if_added env ls cg rest w =
    if nodes_added (cg ∷ rest)
    then (let (fs, stored) =
          store_plocks env.plock (w.plock.last_plock_time ls.plocks.global_id) ls.plocks in
        let ls' = record ls { plocks = fs } in
        elim stored [
          | none ↦ (ls', w)
          | some sections ↦ (ls', emit ls' (store_checkpoint sections) w)
        ])
    else (ls, w)

unfoldable pub prepare_plocks :
    GroupEnv → Change → List Change → Space → GroupWorld → Space × GroupWorld
unfolding set_plock_ckpt_node store_if_added send_info
prepare_plocks env cg rest ls w =
    if not env.plock.enable_plock
    then (ls, w)
    else if cg.member_count == 1
    then (record ls { plock_ckpt_node = env.plock.our_nodeid; need_plocks = false }, w)
    else (let (ls', w') = set_plock_ckpt_node env ls cg w in
        if ls'.plock_ckpt_node == 0
        then (
          record ls' { need_plocks = false; plocks = record (ls'.plocks) { save_plocks = false } },
          w',
        )
        else if ls'.need_plocks
        then (record ls' { plocks = record (ls'.plocks) { save_plocks = true } }, w')
        else if not (ls'.plock_ckpt_node == env.plock.our_nodeid)
        then (ls', w')
        else (let (ls'', w'') = store_if_added env ls' cg rest w' in
            (ls'', send_info env ls'' cg plocks_stored w'')))

-- The two cases of `apply_changes`.
unfoldable pub apply_conditions :
    GroupEnv → Change → List Change → Space → GroupWorld → Space × GroupWorld
unfolding send_info
apply_conditions env cg rest ls w =
    let out = wait_conditions_done env ls w in
    let ls' = record ls { node_history = out.nodes } in
    if out.ready
    then (
      record ls' { changes = record cg { state = wait_messages } ∷ rest },
      send_info env ls' cg start out.world,
    )
    else (ls', out.world)

unfoldable pub apply_messages :
    GroupEnv → Change → List Change → Space → GroupWorld → Space × GroupWorld
unfolding all_started start_kernel prepare_plocks cleanup_changes
apply_messages env cg rest ls w =
    if all_started cg.members
    then (let (ls', w') = start_kernel ls cg rest w in
        let (ls'', w'') = prepare_plocks env cg rest ls' w' in (cleanup_changes cg rest ls'', w''))
    else (ls, w)

-- `apply_changes` at the head of the list.
unfoldable pub apply_first : GroupEnv → List Change → Space → GroupWorld → Space × GroupWorld
apply_first env [] ls w = (ls, w)
apply_first env (cg ∷ rest) ls w = elim cg.state [
  | wait_conditions ↦ apply_conditions env cg rest ls w
  | wait_messages ↦ apply_messages env cg rest ls w
]

unfoldable pub apply_changes : GroupEnv → Space → GroupWorld → Space × GroupWorld
unfolding apply_first
apply_changes env ls w = apply_first env ls.changes ls w

unfoldable pub process_lockspace_changes :
    GroupEnv → List Space → GroupWorld → List Space × GroupWorld
process_lockspace_changes env [] w = ([], w)
process_lockspace_changes env (ls ∷ rest) w =
    let (ls', w') = apply_changes env ls w in
    let (rest', w'') = process_lockspace_changes env rest w' in (ls' ∷ rest', w'')
