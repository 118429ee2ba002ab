-- ===== src/Daemon/Queries.antt =====
-- group/dlm_controld/main.c: the replies to queries, which a thread of their own sends.
use dlm.Base.{
  ℕ, zero, suc, ◌/◌, not, Option, none, some, List, [], ◌∷◌, ◌==◌, ltb, if◌then◌else◌, length,
}
use dlm.Plock.Types.{Mem}
use dlm.Group.Types.{GroupWorld, Space}
use dlm.Group.Queries.{
  DlmcLockspace, DlmcNode, NodesOption, nodes_all, nodes_members, nodes_next, nodes_other,
  set_lockspace_info, set_node_info, set_lockspaces, set_lockspace_nodes,
}
use dlm.Daemon.Spaces.{find_space}
use dlm.Daemon.Requests.{Request}

-- The `data` of a reply's header: 0, a count, or a negated error number.
pub data QueryResult : Type 0 where
  done no_space no_memory too_big : QueryResult
  count : ℕ → QueryResult

-- What stands behind the header of a reply.
pub data QueryBody : Type 0 where
  lockspace_body : Option DlmcLockspace → QueryBody
  node_body : Option DlmcNode → QueryBody
  lockspaces_body : List DlmcLockspace → QueryBody
  nodes_body : List DlmcNode → QueryBody

abbrev firsts {ℓ} : {A : Type ℓ} → ℕ → List A → List A
firsts zero xs = []
firsts (suc n) [] = []
firsts (suc n) (x ∷ xs) = x ∷ firsts n xs

-- The entries that fit, with their count or -E2BIG.
unfoldable pub limited {ℓ} : {A : Type ℓ} → ℕ → List A → QueryResult × List A
limited max xs = if ltb max (length xs) then (too_big, firsts max xs) else (count (length xs), xs)

-- `query_lockspace_info` and `query_node_info`. Where there is no such lockspace, the struct that is
-- sent was not set.
unfoldable pub query_lockspace_info : List Space → GroupWorld → List ℕ → QueryResult × QueryBody
unfolding find_space set_lockspace_info
query_lockspace_info spaces w name = elim (find_space name spaces) [
  | none ↦ (no_space, lockspace_body none)
  | some ls ↦ (done, lockspace_body (some (set_lockspace_info ls w)))
]

unfoldable pub query_node_info : List Space → List ℕ → ℕ → QueryResult × QueryBody
unfolding find_space set_node_info
query_node_info spaces name nodeid = elim (find_space name spaces) [
  | none ↦ (no_space, node_body none)
  | some ls ↦ (done, node_body (some (set_node_info ls nodeid)))
]

unfoldable pub query_lockspaces :
    List Space → GroupWorld → ℕ → Mem → (QueryResult × QueryBody) × Mem
unfolding set_lockspaces limited
query_lockspaces spaces w max mem =
    let (found, mem') = set_lockspaces spaces w mem in
    elim found [
      | none ↦ ((no_memory, lockspaces_body []), mem')
      | some lss ↦ let (result, sent) = limited max lss in ((result, lockspaces_body sent), mem')
    ]

unfoldable pub query_lockspace_nodes :
    List Space → List ℕ → NodesOption → ℕ → Mem → (QueryResult × QueryBody) × Mem
unfolding find_space set_lockspace_nodes limited
query_lockspace_nodes spaces name option max mem = elim (find_space name spaces) [
  | none ↦ ((no_space, nodes_body []), mem)
  | some ls ↦
      let (found, mem') = set_lockspace_nodes ls option mem in
      elim found [
        | none ↦ ((no_memory, nodes_body []), mem')
        | some nodes ↦ let (result, sent) = limited max nodes in ((result, nodes_body sent), mem')
      ]
]

abbrev nodes_option : ℕ → NodesOption
nodes_option n =
    if n == 1
    then nodes_all
    else if n == 2
    then nodes_members
    else if n == 3
    then nodes_next
    else nodes_other

-- One round of `process_queries`, with the reply if there is one; the dumps are left out. The last
-- number is the option of the header.
unfoldable pub process_query :
    List Space → GroupWorld → Request → ℕ → Mem → Option (QueryResult × QueryBody) × Mem
unfolding query_lockspace_info query_node_info query_lockspaces query_lockspace_nodes
process_query spaces w h option mem =
    if not (h.magic == 0xd13cd13c)
    then (none, mem)
    else if not (h.version / 65536 == 1)
    then (none, mem)
    else if h.command == 3
    then (some (query_lockspace_info spaces w h.name), mem)
    else if h.command == 4
    then (some (query_node_info spaces h.name h.payload), mem)
    else if h.command == 5
    then (let (r, mem') = query_lockspaces spaces w h.payload mem in (some r, mem'))
    else if h.command == 6
    then (let (r, mem') = query_lockspace_nodes spaces h.name (nodes_option option) h.payload mem in
        (some r, mem'))
    else (none, mem)
