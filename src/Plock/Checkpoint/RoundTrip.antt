-- ===== src/Plock/Checkpoint/RoundTrip.antt =====
-- What a new node makes of the sections of a checkpoint (group/dlm_controld/plock.c).
use dlm.Base.{ℕ, ◌<◌, ◌≡◌, false, List, u64_mod}
use dlm.Plock.Types.{PosixLock, LockWaiter}
use dlm.Plock.Checkpoint.{Garbage}

-- The fields fit the packed struct.
pub record FitsPack (p o s e m n : ℕ) : Type 0 where
  pub pid : p < 4294967296
  pub owner : o < u64_mod
  pub start : s < u64_mod
  pub end : e < u64_mod
  pub ex : m < 256
  pub nodeid : n < 4294967296

abbrev pub LockFits : PosixLock → Type 0
LockFits po = FitsPack po.pid po.owner po.start po.end po.ex po.nodeid × (po.syncing ≡ false)

abbrev pub WaiterFits : LockWaiter → Type 0
WaiterFits q =
    FitsPack (q.info).pid (q.info).owner (q.info).start (q.info).end (q.info).ex (q.info).nodeid
    × (q.syncing ≡ false)

-- What the reader makes of a lock: all its fields but the flag, which it leaves to chance.
abbrev pub copied_lock : Garbage → PosixLock → PosixLock
copied_lock g po = record po { syncing = g.lock_syncing }

-- A queued request keeps its range, its mode and its process; its other fields are left to chance.
abbrev pub copied_waiter : Garbage → LockWaiter → LockWaiter
copied_waiter g q = record {
  syncing = g.waiter_syncing;
  info = record (g.info) {
    start = (q.info).start;
    end = (q.info).end;
    owner = (q.info).owner;
    pid = (q.info).pid;
    nodeid = (q.info).nodeid;
    ex = (q.info).ex;
  };
}
