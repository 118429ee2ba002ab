-- ===== src/Protocol.antt =====
-- group/dlm_controld/cpg.c: the protocol version that all daemons of the cluster run.
pub mod Lowest
pub mod Agreement
mod Examples
use dlm.Base.{
  ℕ, Bool, true, false, not, ◌&&◌, ◌||◌, Option, none, some, List, [], ◌∷◌, ◌++◌, ◌==◌, ltb,
  if◌then◌else◌, is_empty,
}
use dlm.Plock.Types.{Mem, malloc}

-- `struct protocol_version`
pub record Version : Type 0 where
  pub major : ℕ
  pub minor : ℕ
  pub patch : ℕ
  pub flags : ℕ

-- `struct protocol`, in the byte order of the host.
pub record Protocol : Type 0 where
  pub daemon_max : Version
  pub kernel_max : Version
  pub daemon_run : Version
  pub kernel_run : Version

abbrev pub no_version : Version
no_version = record { major = 0; minor = 0; patch = 0; flags = 0 }

abbrev pub no_protocol : Protocol
no_protocol = record {
  daemon_max = no_version;
  kernel_max = no_version;
  daemon_run = no_version;
  kernel_run = no_version;
}

-- A node of `daemon_nodes`.
pub record DaemonNode : Type 0 where
  pub nodeid : ℕ
  pub proto : Protocol

-- `daemon_member`, `daemon_nodes` and `our_protocol`, the allocator, and what was sent.
pub record Daemons : Type 0 where
  pub members : List ℕ
  pub nodes : List DaemonNode
  pub our_protocol : Protocol
  pub mem : Mem
  pub sent : List Protocol

unfoldable pub get_node_daemon : List DaemonNode → ℕ → Option DaemonNode
get_node_daemon [] nodeid = none
get_node_daemon (n ∷ rest) nodeid =
    if n.nodeid == nodeid then some n else get_node_daemon rest nodeid

unfoldable pub add_node_daemon : ℕ → Daemons → Daemons
unfolding get_node_daemon malloc
add_node_daemon nodeid d = elim (get_node_daemon d.nodes nodeid) [
  | some n ↦ d
  | none ↦
      let (given, mem) = malloc d.mem in
      if given
      then record d {
        nodes = d.nodes ++ record { nodeid = nodeid; proto = no_protocol } ∷ [];
        mem = mem;
      }
      else record d { mem = mem }
]

-- The loop of `all_protocol_messages`.
unfoldable pub all_have_sent : List DaemonNode → List ℕ → Bool
unfolding get_node_daemon
all_have_sent nodes [] = true
all_have_sent nodes (m ∷ rest) = elim (get_node_daemon nodes m) [
  | none ↦ false
  | some n ↦ not (n.proto.daemon_max.major == 0) && all_have_sent nodes rest
]

unfoldable pub all_protocol_messages : Daemons → Bool
unfolding all_have_sent
all_protocol_messages d = not (is_empty d.members) && all_have_sent d.nodes d.members

-- The protocols of the members; `none` is a member without a node.
unfoldable pub protocols_of : List DaemonNode → List ℕ → Option (List Protocol)
unfolding get_node_daemon
protocols_of nodes [] = some []
protocols_of nodes (m ∷ rest) = elim (get_node_daemon nodes m) [
  | none ↦ none
  | some n ↦ elim (protocols_of nodes rest) [ none ↦ none | some ps ↦ some (n.proto ∷ ps) ]
]

-- One comparison of the loops of `pick_min_protocol`.
abbrev pub lower_of : ℕ → ℕ → ℕ
lower_of low x = if low == 0 || ltb x low then x else low

-- One of its loops, over the versions that pass a test.
unfoldable pub pick_lowest : (Version → Bool) → (Version → ℕ) → ℕ → List Version → ℕ
pick_lowest test part low [] = low
pick_lowest test part low (v ∷ rest) =
    pick_lowest test part (if test v then lower_of low (part v) else low) rest

-- The three loops for the daemon, or for the kernel; `none` is a zero.
unfoldable pub pick_min : List Version → Option Version
unfolding pick_lowest
pick_min vs =
    let major = pick_lowest (λ v. true) (λ v. v.major) 0 vs in
    let minor = pick_lowest (λ v. major == v.major) (λ v. v.minor) 0 vs in
    let patch = pick_lowest (λ v. major == v.major && minor == v.minor) (λ v. v.patch) 0 vs in
    if major == 0 || (minor == 0 || patch == 0)
    then none
    else some (record { major = major; minor = minor; patch = patch; flags = 0 })

abbrev pub daemon_maxes : List Protocol → List Version
daemon_maxes [] = []
daemon_maxes (p ∷ rest) = p.daemon_max ∷ daemon_maxes rest

abbrev pub kernel_maxes : List Protocol → List Version
kernel_maxes [] = []
kernel_maxes (p ∷ rest) = p.kernel_max ∷ kernel_maxes rest

-- `pick_min_protocol`; `none` is the result -1.
unfoldable pub pick_min_protocol : Daemons → Protocol → Option Protocol
unfolding protocols_of pick_min
pick_min_protocol d proto = elim (protocols_of d.nodes d.members) [
  | none ↦ none
  | some ps ↦ elim (pick_min (daemon_maxes ps)) [
    | none ↦ none
    | some daemon ↦ elim (pick_min (kernel_maxes ps)) [
      | none ↦ none
      | some kernel ↦ some (record proto { daemon_run = daemon; kernel_run = kernel })
    ]
  ]
]

abbrev pub has_zero : Version → Bool
has_zero v = v.major == 0 || (v.minor == 0 || v.patch == 0)

unfoldable pub change_proto : Protocol → ℕ → List DaemonNode → List DaemonNode
change_proto p nodeid [] = []
change_proto p nodeid (n ∷ rest) =
    if n.nodeid == nodeid then record n { proto = p } ∷ rest else n ∷ change_proto p nodeid rest

-- `receive_protocol`; `none` is a message that is too short.
unfoldable pub receive_protocol : ℕ → Option Protocol → Daemons → Daemons
unfolding change_proto
receive_protocol from none d = d
receive_protocol from (some p) d =
    if has_zero p.daemon_max || has_zero p.kernel_max
    then d
    else if not (p.daemon_run.major == 0) && (has_zero p.daemon_run || has_zero p.kernel_run)
    then d
    else if not (d.our_protocol.daemon_run.major == 0)
    then d
    else if not (p.daemon_run.major == 0)
    then record d {
      our_protocol = record (d.our_protocol) {
        daemon_run = p.daemon_run;
        kernel_run = p.kernel_run;
      };
    }
    else record d { nodes = change_proto p from d.nodes }

unfoldable pub send_protocol : Protocol → Daemons → Daemons
unfolding malloc
send_protocol p d =
    let (given, mem) = malloc d.mem in
    record d { mem = mem; sent = if given then d.sent ++ p ∷ [] else d.sent }

unfoldable pub add_node_daemons : List ℕ → Daemons → Daemons
unfolding add_node_daemon
add_node_daemons [] d = d
add_node_daemons (m ∷ rest) d = add_node_daemons rest (add_node_daemon m d)

unfoldable pub confchg_cb_daemon : List ℕ → List ℕ → Daemons → Daemons
unfolding add_node_daemons send_protocol
confchg_cb_daemon members joined d =
    let d' = if is_empty joined then d else send_protocol d.our_protocol d in
    add_node_daemons members (record d' { members = members })

-- What a round of `set_protocol` waits for.
pub data ProtocolEvent : Type 0 where
  deliver : ℕ → Option Protocol → ProtocolEvent
  confchg : List ℕ → List ℕ → ProtocolEvent
  interrupted : Bool → ProtocolEvent
  poll_error : ProtocolEvent

-- The end of `set_protocol`.
abbrev pub is_compatible : Version → Version → Bool
is_compatible run max = run.major == max.major && not (ltb max.minor run.minor)

unfoldable pub check_protocol : Protocol → Bool
check_protocol p =
    is_compatible p.daemon_run p.daemon_max && is_compatible p.kernel_run p.kernel_max

-- The results of `set_protocol`: 0, -1, or that it still waits.
pub data Outcome : Type 0 where
  done failed waits : Outcome

-- A proposal, once all members have sent their protocols; `none` is an error.
unfoldable pub propose : Bool → Daemons → Option (Bool × Daemons)
unfolding all_protocol_messages pick_min_protocol send_protocol
propose sent_proposal d =
    if not sent_proposal && all_protocol_messages d
    then elim (pick_min_protocol d d.our_protocol) [
      | none ↦ none
      | some proto ↦ some (true, send_protocol proto d)
    ]
    else some (sent_proposal, d)

unfoldable pub handle_event : ProtocolEvent → Daemons → Option Daemons
unfolding receive_protocol confchg_cb_daemon
handle_event (deliver from p) d = some (receive_protocol from p d)
handle_event (confchg members joined) d = some (confchg_cb_daemon members joined d)
handle_event (interrupted quit) d = if quit then none else some d
handle_event poll_error d = none

-- `set_protocol`, over the events that come.
unfoldable pub set_protocol : Bool → List ProtocolEvent → Daemons → Outcome × Daemons
unfolding check_protocol propose handle_event
set_protocol sent_proposal [] d =
    if not (d.our_protocol.daemon_run.major == 0)
    then (if check_protocol d.our_protocol then done else failed, d)
    else elim (propose sent_proposal d) [ none ↦ (failed, d) | some out ↦ (waits, out.1) ]
set_protocol sent_proposal (e ∷ rest) d =
    if not (d.our_protocol.daemon_run.major == 0)
    then (if check_protocol d.our_protocol then done else failed, d)
    else elim (propose sent_proposal d) [
      | none ↦ (failed, d)
      | some out ↦ elim (handle_event e out.1) [
        | none ↦ (failed, out.1)
        | some d' ↦ set_protocol out.0 rest d'
      ]
    ]
