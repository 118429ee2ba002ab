-- ===== src/Group/Adding.antt =====
-- group/dlm_controld/cpg.c: `add_change`, which turns a configuration change of the group into a change
-- of a lockspace.
use dlm.Base.{
  ℕ, ◌+◌, Bool, true, false, not, none, some, List, [], ◌∷◌, ◌++◌, ◌==◌, if◌then◌else◌, length,
}
use dlm.Plock.Types.{Rv, ok, enomem, enoent, malloc, succ_u32}
use dlm.Group.Types.{
  Member, new_member, Node, Change, wait_conditions, Reason, leave, nodedown, procdown, Left,
  GroupEnv, kick_node, crash, GroupWorld, Space, emit, find_member, change_member,
}
use dlm.Group.History.{node_history_init, node_history_left, node_history_fail}

-- What `add_change` builds: the change, the history and the outputs.
pub record Adding : Type 0 where
  pub cg : Change
  pub nodes : List Node
  pub world : GroupWorld

-- `malloc`, with the rest of the world.
abbrev pub alloc : Adding → Bool × Adding
alloc a =
    let (given, mem) = malloc a.world.plock.mem in
    (given, record a { world = record (a.world) { plock = record (a.world.plock) { mem = mem } } })

-- The first loop of `add_change`. A result other than `ok` ends all loops.
unfoldable pub add_members : List ℕ → Adding → Rv × Adding
unfolding malloc
add_members [] a = (ok, a)
add_members (nodeid ∷ rest) a =
    let (given, a') = alloc a in
    elim given [
      | false ↦ (enomem, a')
      | true ↦
          add_members rest (record a' {
            cg = record (a'.cg) { members = a'.cg.members ++ new_member nodeid ∷ [] };
          })
    ]

abbrev pub is_failure : Reason → Bool
is_failure leave = false
is_failure nodedown = true
is_failure procdown = true

-- A node that left or failed, once its member is allocated.
unfoldable pub remove_member : GroupEnv → Space → Left → Adding → Adding
remove_member env ls l a =
    let failed = is_failure l.reason in
    let cg = record (a.cg) {
      removed = a.cg.removed ++ record (new_member l.nodeid) { failed = failed } ∷ [];
      failed_count = if failed then a.cg.failed_count + 1 else a.cg.failed_count;
    } in
    let nodes =
      if failed
      then node_history_fail env ls.fs_registered l.nodeid cg.seq (env.reason_value l.reason)
          a.nodes
      else node_history_left l.nodeid cg.seq a.nodes in
    record {
      cg = cg;
      nodes = nodes;
      world = elim l.reason [ procdown ↦ emit ls (kick_node l.nodeid) a.world | _ ↦ a.world ];
    }

-- The second loop.
unfoldable pub add_removed : GroupEnv → Space → List Left → Adding → Rv × Adding
unfolding malloc
add_removed env ls [] a = (ok, a)
add_removed env ls (l ∷ rest) a =
    let (given, a') = alloc a in
    elim given [ false ↦ (enomem, a') | true ↦ add_removed env ls rest (remove_member env ls l a') ]

-- `node_history_init`
unfoldable pub init_history : ℕ → Adding → Adding
init_history nodeid a =
    let (nodes, mem) = node_history_init nodeid a.cg.seq a.nodes a.world.plock.mem in
    record a {
      nodes = nodes;
      world = record (a.world) { plock = record (a.world.plock) { mem = mem } };
    }

-- The third loop.
unfoldable pub add_joined : ℕ → List ℕ → Adding → Rv × Adding
add_joined our_nodeid [] a = (ok, a)
add_joined our_nodeid (nodeid ∷ rest) a = elim (find_member a.cg.members nodeid) [
  | none ↦ (enoent, a)
  | some m ↦
      let cg = record (a.cg) {
        members = change_member (λ m'. record m' { added = true }) nodeid a.cg.members;
      } in
      add_joined our_nodeid rest (
        if nodeid == our_nodeid
        then record a { cg = record cg { we_joined = true } }
        else init_history nodeid (record a { cg = cg }))
]

-- The last loop, when this node has joined.
unfoldable pub init_all : List Member → Adding → Adding
init_all [] a = a
init_all (m ∷ rest) a = init_all rest (init_history m.nodeid a)

-- `++ls->change_seq`, which skips 0.
abbrev pub next_seq : ℕ → ℕ
next_seq n = let n' = succ_u32 n in if n' == 0 then succ_u32 n' else n'

abbrev pub empty_change : ℕ → List ℕ → List Left → List ℕ → Change
empty_change seq members left joined = record {
  members = [];
  removed = [];
  member_count = length members;
  joined_count = length joined;
  remove_count = length left;
  failed_count = 0;
  state = wait_conditions;
  we_joined = false;
  seq = seq;
  combined_seq = 0;
}

abbrev pub then_do : Rv × Adding → (Adding → Rv × Adding) → Rv × Adding
then_do (rv, a) f = elim rv [ ok ↦ f a | failed ↦ (failed, a) ]

-- What follows the third loop, with the value of `cg->we_joined`.
unfoldable pub init_joined : Bool → Adding → Adding
init_joined false a = a
init_joined true a = init_all a.cg.members a

abbrev pub joined_stage : GroupEnv → List ℕ → Adding → Rv × Adding
joined_stage env joined a =
    then_do (add_joined env.plock.our_nodeid joined a) (λ a'. (ok, init_joined a'.cg.we_joined a'))

abbrev pub removed_stage : GroupEnv → Space → List Left → List ℕ → Adding → Rv × Adding
removed_stage env ls left joined a = then_do (add_removed env ls left a) (joined_stage env joined)

-- The loops, one after the other.
unfoldable pub build_change : GroupEnv → Space → List ℕ → List Left → List ℕ → Adding → Rv × Adding
build_change env ls members left joined a =
    then_do (add_members members a) (removed_stage env ls left joined)

-- The end of `add_change`: the change goes to the front of the list.
abbrev pub put_change : Space → Rv × Adding → Rv × Space × GroupWorld
put_change ls (rv, a) =
    let ls' = record ls { node_history = a.nodes } in
    elim rv [
      | ok ↦ (ok, record ls' { changes = a.cg ∷ ls.changes }, a.world)
      | failed ↦ (failed, ls', a.world)
    ]

abbrev pub first_adding : Space → List ℕ → List Left → List ℕ → GroupWorld → Adding
first_adding ls members left joined w = record {
  cg = empty_change (next_seq ls.change_seq) members left joined;
  nodes = ls.node_history;
  world = w;
}

-- `add_change`: its result, the lockspace and the outputs. Where the first allocation fails, the
-- source calls `free_cg` with a null pointer, which reads from it: the output `crash`, behind which
-- the results mean nothing.
unfoldable pub add_change :
    GroupEnv → Space → List ℕ → List Left → List ℕ → GroupWorld → Rv × Space × GroupWorld
unfolding malloc
add_change env ls members left joined w =
    let (given, mem) = malloc w.plock.mem in
    let w' = record w { plock = record (w.plock) { mem = mem } } in
    if not given
    then (enomem, ls, emit ls crash w')
    else put_change (record ls { change_seq = next_seq ls.change_seq })
        (build_change env ls members left joined (first_adding ls members left joined w'))
