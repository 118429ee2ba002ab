-- ===== src/Deadlock/Handlers.antt =====
-- group/dlm_controld/deadlock.c: the handlers of messages and of configuration changes.
use dlm.Base.{
  ℕ, Bool, true, false, not, ◌||◌, Option, none, some, List, [], ◌∷◌, ◌++◌, ◌==◌, if◌then◌else◌,
  is_empty, map,
}
use dlm.Plock.Types.{Mem, malloc}
use dlm.Group.Types.{Left}
use dlm.Deadlock.Locks.{Lkb, Rsb, read_debugfs_locks, read_checkpoint_locks, pack_lkb_list}
use dlm.Group.Types.{
  Message, deadlk_cycle_start, deadlk_cycle_end, deadlk_checkpoint_ready, deadlk_cancel_lock, Body,
}
use dlm.Group.Callbacks.{Detector}
use dlm.Deadlock.Cycle.{
  DeadlkNode, LockSection, Detect, DetectEnv, send_checkpoint_ready, unlink_checkpoint,
  write_checkpoint, deadlock_cancel, note, send_message, run_deadlock,
}

-- `read_checkpoint`: the sections one after the other.
unfoldable pub read_sections : DetectEnv → ℕ → List LockSection → List Rsb → Mem → List Rsb × Mem
unfolding read_checkpoint_locks
read_sections env nodeid [] rs mem = (rs, mem)
read_sections env nodeid (s ∷ rest) rs mem =
    let (rs', mem') = read_checkpoint_locks env.big_endian nodeid s.name s.packed rs mem in
    read_sections env nodeid rest rs' mem'

unfoldable pub read_checkpoint : DetectEnv → ℕ → Detect → Detect
unfolding read_sections
read_checkpoint env nodeid d =
    let (rs, mem) = read_sections env nodeid (env.checkpoint nodeid) d.resources d.mem in
    record d { resources = rs; mem = mem }

unfoldable pub mark_ready : ℕ → List DeadlkNode → List DeadlkNode
mark_ready nodeid [] = []
mark_ready nodeid (n ∷ rest) =
    if n.nodeid == nodeid
    then record n { checkpoint_ready = true } ∷ rest
    else n ∷ mark_ready nodeid rest

unfoldable pub receive_checkpoint_ready : DetectEnv → ℕ → Detect → Option Detect
unfolding read_checkpoint mark_ready run_deadlock
receive_checkpoint_ready env nodeid d =
    let d' = read_checkpoint env nodeid d in
    run_deadlock env (record d' { nodes = mark_ready nodeid d'.nodes })

-- The sections that `write_checkpoint` writes.
abbrev pub pack_sections : DetectEnv → List Rsb → List LockSection
pack_sections env =
    map
      (λ r. record { name = r.name; packed = pack_lkb_list env.big_endian env.section_max r.locks })

unfoldable pub receive_cycle_start : DetectEnv → Detect → Detect
unfolding read_debugfs_locks pack_lkb_list send_message
receive_cycle_start env d =
    if d.cycle_running
    then d
    else (let (opened, rs, mem) =
          read_debugfs_locks env.mstcpy env.our_nodeid env.debugfs d.resources d.mem in
        let d' = record d {
          cycle_running = true;
          nodes = map (λ (n : DeadlkNode). record n { in_cycle = true }) d.nodes;
          resources = rs;
          mem = mem;
        } in
        if opened
        then send_message send_checkpoint_ready (note (write_checkpoint (pack_sections env rs)) d')
        else d')

unfoldable pub receive_cycle_end : Detect → Detect
receive_cycle_end d =
    if not d.cycle_running
    then d
    else note unlink_checkpoint (record d {
      cycle_running = false;
      all_checkpoints_ready = false;
      nodes = map (λ (n : DeadlkNode). record n { checkpoint_ready = false }) d.nodes;
      resources = [];
      transactions = [];
    })

unfoldable pub receive_cancel_lock : DetectEnv → ℕ → ℕ → Detect → Detect
receive_cancel_lock env nodeid lkid d =
    if not (nodeid == env.our_nodeid) || not env.opens then d else note (deadlock_cancel lkid) d

unfoldable pub node_joined : ℕ → Detect → Detect
unfolding malloc
node_joined nodeid d =
    let (given, mem) = malloc d.mem in
    let d' = record d { mem = mem } in
    if given
    then record d' {
      nodes =
          d.nodes ++ record { nodeid = nodeid; checkpoint_ready = false; in_cycle = false } ∷ [];
    }
    else d'

unfoldable pub nodes_joined : List ℕ → Detect → Detect
unfolding node_joined
nodes_joined [] d = d
nodes_joined (n ∷ rest) d = nodes_joined rest (node_joined n d)

-- `node_left` on the nodes.
unfoldable pub node_left : ℕ → List DeadlkNode → List DeadlkNode
node_left nodeid [] = []
node_left nodeid (n ∷ rest) =
    if n.nodeid == nodeid then node_left nodeid rest else n ∷ node_left nodeid rest

unfoldable pub nodes_left : List Left → List DeadlkNode → List DeadlkNode
unfolding node_left
nodes_left [] nodes = nodes
nodes_left (l ∷ rest) nodes = nodes_left rest (node_left l.nodeid nodes)

-- `purge_locks` of deadlock.c, on the locks of a resource. A purged lock that is on a transaction
-- stays there.
unfoldable pub purge_home : ℕ → List Lkb → List Lkb
purge_home nodeid [] = []
purge_home nodeid (lkb ∷ rest) =
    if lkb.home == nodeid then purge_home nodeid rest else lkb ∷ purge_home nodeid rest

unfoldable pub purge_homes : List Left → List Rsb → List Rsb
unfolding purge_home
purge_homes [] rs = rs
purge_homes (l ∷ rest) rs =
    purge_homes rest (map (λ (r : Rsb). record r { locks = purge_home l.nodeid r.locks }) rs)

unfoldable pub has_left : ℕ → List Left → Bool
has_left nodeid [] = false
has_left nodeid (l ∷ rest) = l.nodeid == nodeid || has_left nodeid rest

unfoldable pub deadlk_confchg : DetectEnv → List ℕ → List Left → List ℕ → Detect → Option Detect
unfolding nodes_joined nodes_left run_deadlock purge_homes has_left
deadlk_confchg env members left joined d =
    if not env.enable_deadlk
    then some d
    else if not d.confchg_init
    then some (nodes_joined members (record d { confchg_init = true }))
    else (let d1 = nodes_joined joined d in
        let d2 = record d1 { nodes = nodes_left left d1.nodes } in
        if not d2.cycle_running || is_empty left
        then some d2
        else if not d2.all_checkpoints_ready
        then run_deadlock env d2
        else (let d3 = record d2 { resources = purge_homes left d2.resources } in
            if has_left d3.low_nodeid left then run_deadlock env d3 else some d3))

-- The messages of the detection, by the type in the header.
unfoldable pub receive_deadlk : DetectEnv → Message → Body → Detect → Option Detect
unfolding receive_cycle_start receive_cycle_end receive_checkpoint_ready receive_cancel_lock
receive_deadlk env hd deadlk_cycle_start d = some (receive_cycle_start env d)
receive_deadlk env hd deadlk_cycle_end d = some (receive_cycle_end d)
receive_deadlk env hd deadlk_checkpoint_ready d = receive_checkpoint_ready env hd.nodeid d
receive_deadlk env hd deadlk_cancel_lock d = some (receive_cancel_lock env hd.nodeid hd.msgdata d)
receive_deadlk env hd body d = some d

-- The detection as the group code calls it. After an access to a NULL `waitfor` there is no state.
unfoldable pub detection : DetectEnv → Detector
unfolding receive_deadlk deadlk_confchg
detection env = record {
  State = Option Detect;
  confchg = λ members left joined ls d w.
      (elim d [ none ↦ none | some d' ↦ deadlk_confchg env members left joined d' ], w);
  receive = λ hd ls d w. (elim d [ none ↦ none | some d' ↦ receive_deadlk env hd hd.body d' ], w);
}
