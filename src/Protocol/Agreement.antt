-- ===== src/Protocol/Agreement.antt =====
-- group/dlm_controld/cpg.c: daemons that see the same messages run the same versions.
use dlm.Base.{
  ℕ, ◌≡◌, refl, sym, ap, ◌∙◌, not, ◌&&◌, ◌||◌, Option, none, some, List, [], ◌∷◌, ◌==◌,
  if◌then◌else◌, arith,
}
use dlm.Protocol.{
  Version, Protocol, Daemons, has_zero, receive_protocol, send_protocol, add_node_daemon,
  add_node_daemons, confchg_cb_daemon,
}

-- The versions that a daemon runs.
pub record Runs : Type 0 where
  pub daemon : Version
  pub kernel : Version

abbrev pub runs_of : Protocol → Runs
runs_of p = record { daemon = p.daemon_run; kernel = p.kernel_run }

abbrev pub runs : Daemons → Runs
runs d = runs_of d.our_protocol

-- The versions after a message: the first valid message that has some sets them.
abbrev next_runs : Option Protocol → Runs → Runs
next_runs none r = r
next_runs (some p) r =
    if has_zero p.daemon_max || has_zero p.kernel_max
    then r
    else if not (p.daemon_run.major == 0) && (has_zero p.daemon_run || has_zero p.kernel_run)
    then r
    else if not (r.daemon.major == 0) || p.daemon_run.major == 0
    then r
    else runs_of p

receive_protocol-runs :
    (from : ℕ) (p : Option Protocol) (d : Daemons)
    → runs (receive_protocol from p d) ≡ next_runs p (runs d)
unfolding receive_protocol
receive_protocol-runs from none d = refl
receive_protocol-runs from (some p) d = ground arith

add_node_daemon-runs : (n : ℕ) (d : Daemons) → runs (add_node_daemon n d) ≡ runs d
unfolding add_node_daemon
add_node_daemon-runs n d = ground arith

add_node_daemons-runs : (ns : List ℕ) (d : Daemons) → runs (add_node_daemons ns d) ≡ runs d
unfolding add_node_daemons
add_node_daemons-runs [] d = refl
add_node_daemons-runs (n ∷ rest) d =
    add_node_daemons-runs rest (add_node_daemon n d) ∙ add_node_daemon-runs n d

confchg_cb_daemon-runs :
    (members joined : List ℕ) (d : Daemons) → runs (confchg_cb_daemon members joined d) ≡ runs d
unfolding confchg_cb_daemon send_protocol
confchg_cb_daemon-runs members [] d = add_node_daemons-runs members (record d { members = members })
confchg_cb_daemon-runs members (j ∷ rest) d =
    add_node_daemons-runs members (record (send_protocol d.our_protocol d) { members = members })

-- What two daemons see: a message that both get, or a configuration change at one of them.
pub data Seen : Type 0 where
  both_get : ℕ → Option Protocol → Seen
  left_changes right_changes : List ℕ → List ℕ → Seen

abbrev pub see_left : Seen → Daemons → Daemons
see_left (both_get from p) d = receive_protocol from p d
see_left (left_changes members joined) d = confchg_cb_daemon members joined d
see_left (right_changes members joined) d = d

abbrev pub see_right : Seen → Daemons → Daemons
see_right (both_get from p) d = receive_protocol from p d
see_right (left_changes members joined) d = d
see_right (right_changes members joined) d = confchg_cb_daemon members joined d

abbrev pub see_all : (Seen → Daemons → Daemons) → List Seen → Daemons → Daemons
see_all see [] d = d
see_all see (s ∷ rest) d = see_all see rest (see s d)

see-runs : (s : Seen) (a b : Daemons) → runs a ≡ runs b → runs (see_left s a) ≡ runs (see_right s b)
see-runs (both_get from p) a b h =
    receive_protocol-runs from p a ∙ ap (next_runs p) h ∙ sym (receive_protocol-runs from p b)
see-runs (left_changes members joined) a b h = confchg_cb_daemon-runs members joined a ∙ h
see-runs (right_changes members joined) a b h = h ∙ sym (confchg_cb_daemon-runs members joined b)

-- Two daemons that run the same versions, or none yet, and get the same protocol messages in the
-- same order, valid or not, run the same versions afterwards, whatever configuration changes
-- each of them sees in between and whatever their own versions, members and allocators are.
pub daemons_agree :
    (seen : List Seen) (a b : Daemons)
    → runs a ≡ runs b
    → runs (see_all see_left seen a) ≡ runs (see_all see_right seen b)
daemons_agree [] a b h = h
daemons_agree (s ∷ rest) a b h =
    daemons_agree rest (see_left s a) (see_right s b) (see-runs s a b h)
