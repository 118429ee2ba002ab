-- ===== src/Deadlock/Examples.antt =====
-- The theorems about group/dlm_controld/deadlock.c at concrete transactions.
use dlm.Base.{
  length, true, Option, ℕ, ◌≡◌, refl, Bool, ◌||◌, none, some, List, [], ◌∷◌, ◌==◌, All, arith,
}
use dlm.Deadlock.{Trans, reduce_waitfor_graph_loop}
use dlm.Deadlock.Reduce.{IsStuck, members, reduce_waitfor_graph_loop-members}
use dlm.Deadlock.Exact.{IsConsistent, is_listed, reduce_waitfor_graph_loop-IsStuck}
use dlm.Deadlock.Ending.{IsBlocked, reduce_waitfor_graph_loop-IsBlocked}
use dlm.Plock.Types.{malloc}
use dlm.Deadlock.{in_waitfor, find_trans_to_cancel, reduce_waitfor_graph, remove_waitfor}
use dlm.Deadlock.Locks.{
  Lkb, Rsb, new_lkb, no_lock, granted, waiting, ex, nl, local_copy, find_rsb, strncmp_equal,
  modes_compat,
}
use dlm.Deadlock.Graph.{
  Building, create_trans_list, create_trans, get_trans, find_trans, change_trans,
  create_waitfor_graph, graph_pass, wait_for_locks, wait_on_locks, add_waitfor, locks_compat,
  is_known, attach, link, set_slot,
}
use dlm.Deadlock.Cycle.{
  Detect, Sent, find_deadlock, search, cancel_trans, cancel_locks, remove_pair, send_message,
  send_cancel_lock, send_cycle_end,
}
use dlm.Deadlock.Standing.{IsSound}
use dlm.Deadlock.Edges.{create_waitfor_graph-IsSound}
use dlm.Deadlock.Listing.{IsSolved, create_waitfor_graph-IsSolved}

-- 11 and 12 wait for each other, 13 waits for 12 and 14, and 14 for nothing.
abbrev graph : List Trans
graph =
    record {
      xid = 13;
      locks = [];
      waitfor_alloc = 4;
      others_waiting_on_us = 0;
      waitfor_count = 2;
      waitfor = some 12 ∷ some 14 ∷ none ∷ none ∷ [];
    }
    ∷ record {
      xid = 14;
      locks = [];
      waitfor_alloc = 0;
      others_waiting_on_us = 1;
      waitfor_count = 0;
      waitfor = [];
    }
    ∷ record {
      xid = 11;
      locks = [];
      waitfor_alloc = 4;
      others_waiting_on_us = 1;
      waitfor_count = 1;
      waitfor = some 12 ∷ none ∷ none ∷ none ∷ [];
    }
    ∷ record {
      xid = 12;
      locks = [];
      waitfor_alloc = 4;
      others_waiting_on_us = 2;
      waitfor_count = 1;
      waitfor = some 11 ∷ none ∷ none ∷ none ∷ [];
    }
    ∷ []

abbrev cycle : ℕ → Bool
cycle x = x == 11 || x == 12

reduced :
    reduce_waitfor_graph_loop graph
    ≡ record {
      xid = 13;
      locks = [];
      waitfor_alloc = 4;
      others_waiting_on_us = 0;
      waitfor_count = 1;
      waitfor = some 12 ∷ none ∷ none ∷ none ∷ [];
    }
      ∷ record {
        xid = 11;
        locks = [];
        waitfor_alloc = 4;
        others_waiting_on_us = 1;
        waitfor_count = 1;
        waitfor = some 12 ∷ none ∷ none ∷ none ∷ [];
      }
      ∷ record {
        xid = 12;
        locks = [];
        waitfor_alloc = 4;
        others_waiting_on_us = 2;
        waitfor_count = 1;
        waitfor = some 11 ∷ none ∷ none ∷ none ∷ [];
      }
      ∷ []
unfolding reduce_waitfor_graph_loop
reduced = refl

graph-IsStuck : All (IsStuck cycle) graph
graph-IsStuck = (
  record { counted = refl; waits = λ h. ground arith },
  (
    record { counted = refl; waits = λ h. ground arith },
    (
      record { counted = refl; waits = λ h. refl },
      (record { counted = refl; waits = λ h. refl }, tt),
    ),
  ),
)

reduce_waitfor_graph_loop-members_example :
    members cycle (reduce_waitfor_graph_loop graph) ≡ 11 ∷ 12 ∷ []
reduce_waitfor_graph_loop-members_example =
    reduce_waitfor_graph_loop-members cycle graph graph-IsStuck

reduce_waitfor_graph_loop-IsBlocked_example : All IsBlocked (reduce_waitfor_graph_loop graph)
reduce_waitfor_graph_loop-IsBlocked_example = reduce_waitfor_graph_loop-IsBlocked graph

graph-IsConsistent : IsConsistent graph
graph-IsConsistent = record {
  counted = omega arith;
  unique = λ y. ground arith;
  agree = λ y. ground arith;
}

reduce_waitfor_graph_loop-IsStuck_example :
    All (IsStuck (is_listed (reduce_waitfor_graph_loop graph))) (reduce_waitfor_graph_loop graph)
reduce_waitfor_graph_loop-IsStuck_example =
    reduce_waitfor_graph_loop-IsStuck graph graph-IsConsistent

-- Transactions 11 and 12 hold one resource each and wait for that of the other.
abbrev holds : ℕ → ℕ → List ℕ → Lkb
holds xid id rsb = record (new_lkb rsb) {
  lock = record no_lock {
    xid = xid;
    id = id;
    status = granted;
    grmode = ex;
    rqmode = ex;
    copy = local_copy;
  };
  home = 1;
}

abbrev wants : ℕ → ℕ → List ℕ → Lkb
wants xid id rsb = record (new_lkb rsb) {
  lock = record no_lock {
    xid = xid;
    id = id;
    status = waiting;
    grmode = nl;
    rqmode = ex;
    copy = local_copy;
  };
  home = 1;
}

abbrev two_resources : List Rsb
two_resources =
    record { name = 65 ∷ []; locks = wants 12 4 (65 ∷ []) ∷ holds 11 1 (65 ∷ []) ∷ [] }
    ∷ record { name = 66 ∷ []; locks = wants 11 3 (66 ∷ []) ∷ holds 12 2 (66 ∷ []) ∷ [] }
    ∷ []

two_listed : length (create_trans_list two_resources [] []).0 ≡ 2
unfolding create_trans_list create_trans get_trans find_trans change_trans malloc
two_listed = refl

create_waitfor_graph-IsSolved_example :
    let (ts, mem) = create_trans_list two_resources [] [] in
    (b : Building) × (create_waitfor_graph two_resources ts mem ≡ some b)
    × IsSolved two_resources ts b
create_waitfor_graph-IsSolved_example =
    create_waitfor_graph-IsSolved two_resources (omega (arith, two_listed))

two_solved :
    let (ts, mem) = create_trans_list two_resources [] [] in
    (b : Building) × (create_waitfor_graph two_resources ts mem ≡ some b)
    × IsSolved two_resources ts b
two_solved = create_waitfor_graph-IsSolved two_resources (omega (arith, two_listed))

create_waitfor_graph-IsSound_example :
    All (IsSound two_resources (create_trans_list two_resources [] []).0) two_solved.0.transactions
create_waitfor_graph-IsSound_example =
    create_waitfor_graph-IsSound two_resources [] two_solved.0 two_solved.1

abbrev detect : Detect
detect = record {
  nodes = record { nodeid = 1; checkpoint_ready = true; in_cycle = true } ∷ [];
  low_nodeid = 1;
  confchg_init = true;
  transactions = [];
  resources = two_resources;
  cycle_running = true;
  all_checkpoints_ready = true;
  mem = [];
  sent = [];
}

abbrev sent_by : Option Detect → List Sent
sent_by none = []
sent_by (some d) = d.sent

-- The waiting lock of transaction 11 is cancelled, and the cycle ends.
cancelled : sent_by (find_deadlock detect) ≡ send_cancel_lock 1 3 ∷ send_cycle_end ∷ []
unfolding find_deadlock search create_trans_list create_trans get_trans find_trans change_trans
    malloc create_waitfor_graph graph_pass wait_for_locks wait_on_locks find_rsb strncmp_equal
    add_waitfor locks_compat modes_compat is_known attach link set_slot in_waitfor
    reduce_waitfor_graph_loop cancel_trans cancel_locks remove_pair find_trans_to_cancel
    send_message reduce_waitfor_graph remove_waitfor
cancelled = refl
