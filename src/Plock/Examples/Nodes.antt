-- ===== src/Plock/Examples/Nodes.antt =====
-- The theorems about the nodes of group/dlm_controld/plock.c at concrete states.
use dlm.Base.{◌≡◌, refl, true, false, [], ◌∷◌, ◌++◌, map, arith}
use dlm.Plock.Types.{Env, LockWaiter, Resource, zero_info}
use dlm.Plock.Locks.View.{sum_at}
use dlm.Plock.Grant.{apply_plock}
use dlm.Plock.Grant.Safety.{IsSound, UnlessFreed}
use dlm.Plock.Replica.{operate}
use dlm.Plock.Replica.Grants.{view_of, view_opt, apply_plock-refines}
use dlm.Plock.Purge.{purge_locks, purge_resource}
use dlm.Plock.Purge.Effect.{purge_locks-sum, purge_resource-IsSound}
use dlm.Plock.Checkpoint.{Garbage}
use dlm.Plock.Messages.{relinquish}
use dlm.Plock.Messages.HandOver.{
  ready, extend, mark_lock, mark_waiter, lock_messages, waiter_messages, own_message,
  relinquish_lem,
}
use dlm.Plock.Sync.Transfer.{on_messages, on_messages-relinquish}
use dlm.Plock.Examples.{held_locks, inner_request, node_1, quiet, file_100, fs, held_locks-IsSafe}

apply_plock-refines_example :
    (view_opt (apply_plock node_1 fs inner_request 1 file_100 quiet).0
      ≡ operate inner_request.optype inner_request (view_of file_100))
    × ((apply_plock node_1 fs inner_request 1 file_100 quiet).1.mem ≡ [])
apply_plock-refines_example = apply_plock-refines node_1 fs inner_request 1 file_100 quiet refl

-- Node 1 leaves: its lock goes.
purge_locks-sum_example : sum_at (λ ex. ex) (purge_locks 1 false held_locks).0 1 7 15 ≡ 0
purge_locks-sum_example = purge_locks-sum (λ ex. ex) 1 false held_locks 1 7 15

purge_resource-IsSound_example :
    UnlessFreed IsSound (purge_resource node_1 fs 2 false file_100 quiet).0
purge_resource-IsSound_example =
    purge_resource-IsSound node_1 fs 2 false file_100 quiet
      (record { safe = held_locks-IsSafe; queue = tt })

-- A request of process 9 of node 3 that waits.
abbrev queued : LockWaiter
queued = record {
  syncing = false;
  info = record zero_info {
    pid = 90;
    nodeid = 3;
    owner = 9;
    start = 50;
    end = 60;
    ex = 1;
    wait = 1;
  };
}

abbrev busy : Resource
busy = record file_100 { owner = 2; waiters = queued ∷ [] }

abbrev chance : Garbage
chance = record { lock_syncing = true; waiter_syncing = false; info = inner_request }

abbrev owned : Resource
owned = record busy { owner = 1 }

relinquish_lem_example : relinquish node_1 owned quiet ≡ (
  record owned { owner = 0; locks = map mark_lock held_locks; waiters = mark_waiter queued ∷ [] },
  extend quiet (
      (lock_messages node_1 100 held_locks ++ waiter_messages node_1 (queued ∷ []))
      ++ own_message node_1 owned ∷ []),
)
relinquish_lem_example = relinquish_lem node_1 owned quiet refl

-- Node 2 knows that node 1 owns file 100, and has none of its locks.
abbrev node_2 : Env
node_2 = record node_1 { our_nodeid = 2 }

abbrev elsewhere : Resource
elsewhere = record file_100 { owner = 1; locks = [] }

on_messages-relinquish_example :
    (on_messages node_2 1
      (relinquish node_1 owned (ready quiet)).1.effects
      elsewhere
      (ready quiet)).0
    ≡ record elsewhere { owner = 0; got_unown = true; locks = held_locks; waiters = queued ∷ [] }
on_messages-relinquish_example =
    on_messages-relinquish node_1 node_2 1 owned elsewhere quiet quiet refl (omega arith) refl refl
      (omega arith) (omega arith) (omega arith) (omega arith) (omega arith) (omega arith)
