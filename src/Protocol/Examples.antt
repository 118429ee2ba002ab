-- ===== src/Protocol/Examples.antt =====
-- The choice of the protocol version in group/dlm_controld/cpg.c, at concrete versions.
use dlm.Base.{false, ℕ, ◌≡◌, refl, some, List, [], ◌∷◌, All}
use dlm.Plock.Types.{malloc}
use dlm.Protocol.{
  Version, Protocol, Daemons, no_version, pick_lowest, pick_min, deliver, confchg, done,
  set_protocol, check_protocol, propose, handle_event, all_protocol_messages, all_have_sent,
  get_node_daemon, pick_min_protocol, protocols_of, send_protocol, receive_protocol, change_proto,
  confchg_cb_daemon, add_node_daemons, add_node_daemon,
}
use dlm.Protocol.Agreement.{
  Seen, both_get, left_changes, runs, see_all, see_left, see_right, daemons_agree,
}
use dlm.Protocol.Lowest.{NotAbove, IsOneOf, pick_min_lem}

abbrev version : ℕ → ℕ → ℕ → Version
version a b c = record { major = a; minor = b; patch = c; flags = 0 }

abbrev three : List Version
three = version 2 1 1 ∷ version 1 4 2 ∷ version 1 3 9 ∷ []

pick_min_lem_example :
    (w : Version) × (pick_min three ≡ some w) × All (NotAbove w) three × IsOneOf w three
pick_min_lem_example =
    pick_min_lem (version 2 1 1) (version 1 4 2 ∷ version 1 3 9 ∷ []) (refl, (refl, (refl, tt)))

lowest : pick_min three ≡ some (version 1 3 9)
unfolding pick_min pick_lowest
lowest = refl

abbrev own : Protocol
own = record {
  daemon_max = version 1 1 1;
  kernel_max = version 1 1 1;
  daemon_run = no_version;
  kernel_run = no_version;
}

abbrev alone : Daemons
alone = record { members = []; nodes = []; our_protocol = own; mem = []; sent = [] }

abbrev agreed : Protocol
agreed = record own { daemon_run = version 1 1 1; kernel_run = version 1 1 1 }

-- A node alone proposes its own versions and runs them.
alone_runs :
    (set_protocol false
      (confchg (1 ∷ []) (1 ∷ []) ∷ deliver 1 (some own) ∷ deliver 1 (some agreed) ∷ [])
      alone).0
    ≡ done
unfolding set_protocol check_protocol propose handle_event all_protocol_messages all_have_sent
    get_node_daemon pick_min_protocol protocols_of pick_min pick_lowest send_protocol
    receive_protocol change_proto confchg_cb_daemon add_node_daemons add_node_daemon malloc
alone_runs = refl

-- A second daemon, with other versions and another configuration.
abbrev other : Daemons
other = record alone { our_protocol = record own { daemon_max = version 1 2 1 } }

abbrev common : List Seen
common = left_changes (1 ∷ []) (1 ∷ []) ∷ both_get 1 (some own) ∷ both_get 1 (some agreed) ∷ []

daemons_agree_example : runs (see_all see_left common alone) ≡ runs (see_all see_right common other)
daemons_agree_example = daemons_agree common alone other refl
