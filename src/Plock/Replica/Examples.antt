-- ===== src/Plock/Replica/Examples.antt =====
-- Two nodes that handle the same messages of group/dlm_controld/plock.c.
use dlm.Base.{ℕ, ◌+◌, ◌==◌, ◌≡◌, refl, true, false, none, List, [], ◌∷◌, map}
use dlm.Plock.Types.{OpType, MsgType, Info, Env, World, Lockspace, Header, Timeval, zero_info}
use dlm.Plock.Wire.{info_bswap_in}
use dlm.Plock.Replica.Nodes.{view_at}
use dlm.Plock.Replica.Cluster.{
  Event, handle, message, deliver_all, IsLive, handle-deliver_all, nodes_agree,
}

abbrev clock : ℕ → Timeval
clock t = record { sec = t; usec = 0 }

-- Node `n` at time `t`; the flags of new waiters are set on node 2.
abbrev node : ℕ → ℕ → Env
node n t = record {
  our_nodeid = n;
  plock_ownership = false;
  enable_plock = true;
  need_fsid_translation = false;
  big_endian = false;
  now = clock t;
  time = t;
  drop_resources_count = 10;
  drop_resources_age = 10000;
  drop_resources_time = 10000;
  plock_rate_limit = 100;
  mountgroup_name = λ id. none;
  stale_flag = λ waiters i. n == 2;
}

abbrev idle : World
idle = record {
  mem = [];
  effects = [];
  last_plock_time = λ id. 0;
  stats = record {
    read_count = 0;
    recv_count = 0;
    rate_delays = 0;
    read_time = clock 0;
    recv_time = clock 0;
    rate_last = clock 0;
  };
}

abbrev fresh : Lockspace
fresh = record {
  name = 102 ∷ [];
  global_id = 1;
  associated_mg_id = 0;
  save_plocks = false;
  plock_resources = [];
  saved_messages = [];
  last_checkpoint_time = 0;
  drop_resources_last = clock 0;
}

-- Process 7 of node 1 locks bytes 10 to 19 of file 100 for writing, and process 8 of node 2 waits.
abbrev first_request : Info
first_request = record zero_info {
  optype = OpType.lock;
  number = 100;
  pid = 70;
  nodeid = 1;
  owner = 7;
  start = 10;
  end = 19;
  ex = 1;
}

abbrev second_request : Info
second_request = record zero_info {
  optype = OpType.lock;
  number = 100;
  pid = 80;
  nodeid = 2;
  owner = 8;
  start = 15;
  end = 30;
  wait = 1;
}

abbrev from_node : ℕ → Header
from_node n = record { nodeid = n; type = MsgType.plock }

abbrev seen_by : ℕ → ℕ → List Event
seen_by n t =
    record { env = node n t; header = from_node 1; payload = first_request }
    ∷ record { env = node n (t + 3); header = from_node 2; payload = second_request }
    ∷ []

fresh-IsLive : IsLive (fresh, idle)
fresh-IsLive = record { unique = tt; unowned = tt; no_failure = refl; live = refl }

handle-deliver_all_example :
    view_at ((handle (seen_by 1 5) (fresh, idle)).0).plock_resources 100
    ≡ deliver_all (map message (seen_by 1 5)) (view_at []) 100
handle-deliver_all_example =
    handle-deliver_all (seen_by 1 5) (fresh, idle) (refl, (refl, tt)) fresh-IsLive 100

nodes_agree_example :
    view_at ((handle (seen_by 1 5) (fresh, idle)).0).plock_resources 100
    ≡ view_at ((handle (seen_by 2 6) (fresh, idle)).0).plock_resources 100
unfolding info_bswap_in
nodes_agree_example =
    nodes_agree (seen_by 1 5) (seen_by 2 6) (fresh, idle) (fresh, idle) (refl, (refl, tt))
      (refl, (refl, tt)) fresh-IsLive fresh-IsLive refl (λ n. refl) 100
