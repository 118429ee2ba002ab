-- ===== src/Plock/Replica.antt =====
-- A reference for what one operation of group/dlm_controld/plock.c does to the locks and the queue
-- of a resource: no daemon, no settings, no allocator.
pub mod Memory
pub mod Grants
pub mod Nodes
pub mod Cluster
mod Examples
use dlm.Base.{ℕ, Bool, true, false, List, [], ◌∷◌, ◌++◌, ◌==◌, if◌then◌else◌}
use dlm.Plock.Types.{OpType, lock, unlock, get, other, Info, PosixLock}
use dlm.Plock.Locks.{is_conflict, lock_internal, unlock_internal}

-- The granted locks, and the requests in the queue: the flag of a waiter is no part of the
-- replicated state, as `add_waiter` does not set it.
pub record View : Type 0 where
  pub locks : List PosixLock
  pub waiters : List Info

abbrev pub empty_view : View
empty_view = record { locks = []; waiters = [] }

-- One pass over the queue.
unfoldable pub grant_queue : List Info → List PosixLock → View
grant_queue [] locks = record { locks = locks; waiters = [] }
grant_queue (q ∷ queue) locks = elim (is_conflict locks q) [
  | true ↦ let rest = grant_queue queue locks in record rest { waiters = q ∷ rest.waiters }
  | false ↦ grant_queue queue (lock_internal [] locks q).locks
]

-- A request takes its range, or waits if it may.
unfoldable pub request : Info → View → View
request i v =
    if is_conflict v.locks i
    then (if i.wait == 0 then v else record v { waiters = v.waiters ++ i ∷ [] })
    else record v { locks = (lock_internal [] v.locks i).locks }

unfoldable pub release : Info → View → View
release i v = record v { locks = (unlock_internal [] v.locks i).locks }

abbrev pub grant_view : View → View
grant_view v = grant_queue v.waiters v.locks

-- What an operation does to the replicated state.
unfoldable pub operate : OpType → Info → View → View
operate lock i v = grant_view (request i v)
operate unlock i v = grant_view (release i v)
operate get i v = v
operate (other n) i v = v
