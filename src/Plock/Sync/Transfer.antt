-- ===== src/Plock/Sync/Transfer.antt =====
-- A resource that changes hands: what the messages of `send_syncs` and `send_own` make of it on
-- another node (group/dlm_controld/plock.c).
use dlm.Base.{
  ℕ, ◌<◌, u64_mod, arith, ◌≡◌, ◌≢◌, refl, sym, ap, ◌∙◌, Bool, true, false, List, [], ◌∷◌, ◌++◌, All,
  ne→==, map,
}
use mathlib.Core.List.{append_assoc, append-nil}
use dlm.Plock.Types.{
  Info, PosixLock, LockWaiter, Resource, plock_own, plock_sync_lock, plock_sync_waiter, Effect,
  send, write, Env, World, MsgType, unknown, zero_info, malloc,
}
use dlm.Plock.Wire.{info_bswap_out, info_bswap_in, FitsWire, info_bswap_in-info_bswap_out}
use dlm.Plock.Resource.{lock_info}
use dlm.Plock.Locks.{lock_for, add_lock}
use dlm.Plock.Grant.{add_waiter}
use dlm.Plock.Messages.{own_from_other, send_pending_plocks, relinquish}
use dlm.Plock.Messages.HandOver.{lock_messages, waiter_messages, own_message, ready, relinquish_lem}
use dlm.Plock.Sync.{sync_resource}

-- Another node handles a message about the resource as `receive_own` and `receive_sync` do once they
-- have found it.
abbrev pub on_message : Env → ℕ → MsgType → Info → Resource → World → Resource × World
on_message env from plock_own i r w = own_from_other env i from r w
on_message env from type i r w = sync_resource env (record { nodeid = from; type = type }) i r w

abbrev pub on_messages : Env → ℕ → List Effect → Resource → World → Resource × World
on_messages env from [] r w = (r, w)
on_messages env from (send type i ∷ rest) r w =
    let out = on_message env from type (info_bswap_in env.big_endian i) r w in
    on_messages env from rest out.0 out.1
on_messages env from (write i rv ∷ rest) r w = on_messages env from rest r w

-- A lock as the receiver knows it; the flag of a queued request is what its memory held.
abbrev pub clean_lock : PosixLock → PosixLock
clean_lock po = record po { syncing = false }

abbrev new_waiter : Env → List LockWaiter → Info → LockWaiter
new_waiter env queue i = record { syncing = env.stale_flag queue i; info = i }

-- The requests, queued behind others one after the other.
abbrev pub queue_behind : Env → List LockWaiter → List LockWaiter → List LockWaiter
queue_behind env queue [] = queue
queue_behind env queue (q ∷ rest) =
    queue_behind env (queue ++ new_waiter env queue q.info ∷ []) rest

sync_lock-one :
    (env : Env) (from : ℕ) (i : Info) (r : Resource) (w : World)
    → from ≢ env.our_nodeid
    → on_message env from plock_sync_lock i r (ready w)
      ≡ (record r { locks = r.locks ++ lock_for i i.ex i.start i.end ∷ [] }, ready w)
unfolding sync_resource add_lock malloc
sync_lock-one env from i r w ne = rw (ne→== from env.our_nodeid ne) refl

sync_waiter-one :
    (env : Env) (from : ℕ) (i : Info) (r : Resource) (w : World)
    → from ≢ env.our_nodeid
    → on_message env from plock_sync_waiter i r (ready w)
      ≡ (record r { waiters = r.waiters ++ new_waiter env r.waiters i ∷ [] }, ready w)
unfolding sync_resource add_waiter malloc
sync_waiter-one env from i r w ne = rw (ne→== from env.our_nodeid ne) refl

get_locks :
    (env : Env) (from number : ℕ) (locks : List PosixLock) (more : List Effect) (r : Resource)
    (w : World)
    → from ≢ env.our_nodeid
    → All (λ po. FitsWire (lock_info number po)) locks
    → on_messages env from (lock_messages env number locks ++ more) r (ready w)
      ≡ on_messages env from more (record r { locks = r.locks ++ map clean_lock locks }) (ready w)
get_locks env from number [] more r w ne fit =
    ap (λ (l : List PosixLock). on_messages env from more (record r { locks = l }) (ready w))
      (sym (append-nil r.locks))
get_locks env from number (po ∷ locks) more r w ne fit =
    let rest = lock_messages env number locks ++ more in
    let r' = record r { locks = r.locks ++ clean_lock po ∷ [] } in
    let step : Resource × World → Resource × World = λ p. on_messages env from rest (p.0) (p.1) in
    ap (λ (i : Info). step (on_message env from plock_sync_lock i r (ready w)))
      (info_bswap_in-info_bswap_out env.big_endian (lock_info number po) fit.0)
    ∙ ap step (sync_lock-one env from (lock_info number po) r w ne)
    ∙ get_locks env from number locks more r' w ne fit.1
    ∙ ap (λ (l : List PosixLock). on_messages env from more (record r { locks = l }) (ready w))
        (append_assoc r.locks (clean_lock po ∷ []) _)

get_waiters :
    (env : Env) (from : ℕ) (queue : List LockWaiter) (more : List Effect) (r : Resource) (w : World)
    → from ≢ env.our_nodeid
    → All (λ q. FitsWire (q.info)) queue
    → on_messages env from (waiter_messages env queue ++ more) r (ready w)
      ≡ on_messages env from more
          (record r { waiters = queue_behind env r.waiters queue })
          (ready w)
get_waiters env from [] more r w ne fit = refl
get_waiters env from (q ∷ queue) more r w ne fit =
    let rest = waiter_messages env queue ++ more in
    let r' = record r { waiters = r.waiters ++ new_waiter env r.waiters q.info ∷ [] } in
    let step : Resource × World → Resource × World = λ p. on_messages env from rest (p.0) (p.1) in
    ap (λ (i : Info). step (on_message env from plock_sync_waiter i r (ready w)))
      (info_bswap_in-info_bswap_out env.big_endian q.info fit.0)
    ∙ ap step (sync_waiter-one env from q.info r w ne)
    ∙ get_waiters env from queue more r' w ne fit.1

own-one :
    (env : Env) (from number : ℕ) (r : Resource) (w : World)
    → r.owner ≢ unknown
    → r.owner ≢ env.our_nodeid
    → r.owner ≢ 0
    → (on_message env from plock_own (record zero_info { number = number; nodeid = 0 }) r w).0
      ≡ record r { owner = 0; got_unown = true; pending = [] }
unfolding own_from_other send_pending_plocks
own-one env from number r w a b c =
    rw (ne→== r.owner unknown a, ne→== r.owner env.our_nodeid b, ne→== r.owner 0 c) refl

own-FitsWire :
    (number : ℕ) → number < u64_mod → FitsWire (record zero_info { number = number; nodeid = 0 })
own-FitsWire number h = record {
  version0 = omega arith;
  version1 = omega arith;
  version2 = omega arith;
  pid = omega arith;
  nodeid = omega arith;
  rv = omega arith;
  fsid = omega arith;
  number = h;
  start = omega arith;
  end = omega arith;
  owner = omega arith;
}

-- One node gives up a resource on which no request is pending, with no failed allocation and no
-- earlier messages; a second node of the same byte order, which takes a third value than
-- unknown, itself or 0 for the owner, handles the messages in the order in which they were sent.
-- Then the second node has the locks of the first, not marked, and its queued requests, each
-- with whatever flag its memory held, behind its own and in the same order, provided that their
-- fields and the number fit their C types; it takes the resource for unowned, knows that it was
-- given up, and has no request pending.
pub on_messages-relinquish :
    (env reader : Env) (from : ℕ) (r r' : Resource) (w w' : World)
    → env.big_endian ≡ reader.big_endian
    → from ≢ reader.our_nodeid
    → r.pending ≡ []
    → w.effects ≡ []
    → r.number < u64_mod
    → All (λ po. FitsWire (lock_info r.number po)) r.locks
    → All (λ q. FitsWire (q.info)) r.waiters
    → r'.owner ≢ unknown
    → r'.owner ≢ reader.our_nodeid
    → r'.owner ≢ 0
    → (on_messages reader from (relinquish env r (ready w)).1.effects r' (ready w')).0 ≡ record r' {
      owner = 0;
      got_unown = true;
      locks = r'.locks ++ map clean_lock r.locks;
      waiters = queue_behind reader r'.waiters r.waiters;
      pending = [];
    }
on_messages-relinquish env reader from r r' w w' big ne p e fits locks queue a b c =
    let sent : Bool → List Effect = λ b.
      (map (λ po. send plock_sync_lock (info_bswap_out b (lock_info r.number po))) r.locks
        ++ map (λ q. send plock_sync_waiter (info_bswap_out b q.info)) r.waiters)
      ++ send plock_own (info_bswap_out b (record zero_info { number = r.number; nodeid = 0 }))
        ∷ [] in
    let get : List Effect → Resource = λ es. (on_messages reader from es r' (ready w')).0 in
    let last = own_message reader r ∷ [] in
    let with_locks = record r' { locks = r'.locks ++ map clean_lock r.locks } in
    let with_both = record with_locks { waiters = queue_behind reader r'.waiters r.waiters } in
    ap (λ (t : Resource × World). get ((t.1).effects)) (relinquish_lem env r w p)
    ∙ ap (λ (es : List Effect). get (es ++ sent env.big_endian)) e
    ∙ ap (λ (b : Bool). get (sent b)) big
    ∙ ap get (
        append_assoc (lock_messages reader r.number r.locks) (waiter_messages reader r.waiters)
          last)
    ∙ ap (λ (t : Resource × World). t.0) (get_locks reader from r.number r.locks _ r' w' ne locks)
    ∙ ap (λ (t : Resource × World). t.0)
        (get_waiters reader from r.waiters last with_locks w' ne queue)
    ∙ ap (λ (i : Info). (on_message reader from plock_own i with_both (ready w')).0)
        (info_bswap_in-info_bswap_out reader.big_endian _ (own-FitsWire r.number fits))
    ∙ own-one reader from r.number with_both (ready w') a b c
