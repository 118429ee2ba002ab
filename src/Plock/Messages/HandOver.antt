-- ===== src/Plock/Messages/HandOver.antt =====
-- How `_receive_own` of group/dlm_controld/plock.c hands a resource over.
use dlm.Base.{ℕ, ◌≡◌, sym, ap, ◌∙◌, true, List, [], ◌∷◌, ◌++◌, map}
use mathlib.Core.List.{append_assoc, append-nil}
use dlm.Plock.Types.{
  PosixLock, LockWaiter, Resource, plock_own, plock_sync_lock, plock_sync_waiter, Effect, send, Env,
  World, zero_info, ok, Rv,
}
use dlm.Plock.Wire.{info_bswap_out}
use dlm.Plock.Resource.{send_own, send_syncs, sync_locks, sync_waiters, lock_info}
use dlm.Plock.Messages.{relinquish}

-- The messages for the locks and the waiters.
abbrev pub lock_messages : Env → ℕ → List PosixLock → List Effect
lock_messages env number =
    map (λ po. send plock_sync_lock (info_bswap_out env.big_endian (lock_info number po)))

abbrev pub waiter_messages : Env → List LockWaiter → List Effect
waiter_messages env = map (λ q. send plock_sync_waiter (info_bswap_out env.big_endian q.info))

-- A world where no allocation fails.
abbrev pub ready : World → World
ready w = record w { mem = [] }

abbrev pub extend : World → List Effect → World
extend w es = record w { mem = []; effects = w.effects ++ es }

abbrev pub mark_lock : PosixLock → PosixLock
mark_lock po = record po { syncing = true }

abbrev pub mark_waiter : LockWaiter → LockWaiter
mark_waiter q = record q { syncing = true }

sync_locks-all :
    (env : Env) (number : ℕ) (locks : List PosixLock) (w : World)
    → sync_locks env number locks (ready w)
      ≡ (ok, map mark_lock locks, extend w (lock_messages env number locks))
unfolding sync_locks
sync_locks-all env number [] w =
    ap (λ (es : List Effect). (ok, [], record w { mem = []; effects = es }))
      (sym (append-nil w.effects))
sync_locks-all env number (po ∷ rest) w =
    let first = send plock_sync_lock (info_bswap_out env.big_endian (lock_info number po)) in
    let ih = sync_locks-all env number rest (record w { effects = w.effects ++ first ∷ [] }) in
    ap (λ (t : Rv × List PosixLock × World). (t.0, mark_lock po ∷ t.1, t.2)) ih
    ∙ ap
        (λ (es : List Effect).
          (ok, mark_lock po ∷ map mark_lock rest, record w { mem = []; effects = es }))
        (append_assoc w.effects _ _)

sync_waiters-all :
    (env : Env) (queue : List LockWaiter) (w : World)
    → sync_waiters env queue (ready w)
      ≡ (ok, map mark_waiter queue, extend w (waiter_messages env queue))
unfolding sync_waiters
sync_waiters-all env [] w =
    ap (λ (es : List Effect). (ok, [], record w { mem = []; effects = es }))
      (sym (append-nil w.effects))
sync_waiters-all env (q ∷ rest) w =
    let first = send plock_sync_waiter (info_bswap_out env.big_endian q.info) in
    let ih = sync_waiters-all env rest (record w { effects = w.effects ++ first ∷ [] }) in
    ap (λ (t : Rv × List LockWaiter × World). (t.0, mark_waiter q ∷ t.1, t.2)) ih
    ∙ ap
        (λ (es : List Effect).
          (ok, mark_waiter q ∷ map mark_waiter rest, record w { mem = []; effects = es }))
        (append_assoc w.effects _ _)

abbrev pub own_message : Env → Resource → Effect
own_message env r =
    send plock_own
      (info_bswap_out env.big_endian (record zero_info { number = r.number; nodeid = 0 }))

send_syncs-all :
    (env : Env) (r : Resource) (w : World)
    → send_syncs env r (ready w) ≡ (
      record r { locks = map mark_lock r.locks; waiters = map mark_waiter r.waiters },
      extend w (lock_messages env r.number r.locks ++ waiter_messages env r.waiters),
    )
unfolding send_syncs
send_syncs-all env r w =
    let after : (Rv × List PosixLock × World) → (Resource × World) = λ a. elim (a.0) [
      | ok ↦ (
        record r { locks = a.1; waiters = (sync_waiters env r.waiters (a.2)).1 },
        (sync_waiters env r.waiters (a.2)).2,
      )
      | failed ↦ (record r { locks = a.1 }, a.2)
    ] in
    ap after (sync_locks-all env r.number r.locks w)
    ∙ ap
        (λ (a : Rv × List LockWaiter × World).
          (record r { locks = map mark_lock r.locks; waiters = a.1 }, a.2))
        (sync_waiters-all env r.waiters (extend w (lock_messages env r.number r.locks)))
    ∙ ap
        (λ (es : List Effect). (
          record r { locks = map mark_lock r.locks; waiters = map mark_waiter r.waiters },
          record w { mem = []; effects = es },
        ))
        (append_assoc w.effects _ _)

send_own-free :
    (env : Env) (r : Resource) (w : World)
    → r.pending ≡ []
    → send_own env r 0 (ready w) ≡ extend w (own_message env r ∷ [])
unfolding send_own
send_own-free env r w p = rw p

-- A node that gives up a resource on which no request is pending, and whose allocations succeed,
-- sends one sync message for each of its locks and then one for each queued request, in order,
-- and after them the message that makes the resource unowned; it keeps the locks and the queue,
-- marked as not yet in sync.
pub relinquish_lem :
    (env : Env) (r : Resource) (w : World)
    → r.pending ≡ []
    → relinquish env r (ready w) ≡ (
      record r { owner = 0; locks = map mark_lock r.locks; waiters = map mark_waiter r.waiters },
      extend w (
          (lock_messages env r.number r.locks ++ waiter_messages env r.waiters)
          ++ own_message env r ∷ []),
    )
unfolding relinquish
relinquish_lem env r w p =
    let kept = record r { locks = map mark_lock r.locks; waiters = map mark_waiter r.waiters } in
    let sent = lock_messages env r.number r.locks ++ waiter_messages env r.waiters in
    rw (send_syncs-all env r w) (
      ap (λ (x : World). (record kept { owner = 0 }, x))
        (send_own-free env kept (extend w sent) p
          ∙ ap (λ (es : List Effect). record w { mem = []; effects = es })
              (append_assoc w.effects _ _)))
