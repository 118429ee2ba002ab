-- ===== src/Plock/Purge/Effect.antt =====
-- What `purge_plocks` of group/dlm_controld/plock.c takes away and what it keeps.
use dlm.Base.{
  ℕ, ◌≡◌, Bool, true, false, ◌||◌, inl, inr, none, some, List, [], ◌∷◌, ◌==◌, All, if◌then◌else◌,
  arith, Bool-cases, is_empty,
}
use dlm.Plock.Types.{PosixLock, LockWaiter, Resource, Env, World, Lockspace}
use dlm.Plock.Locks.View.{sum_at, IsLock, IsRequest}
use dlm.Plock.Locks.Table.{IsSafe}
use dlm.Plock.Grant.Safety.{IsSound, UnlessFreed, do_waiters-IsSound}
use dlm.Plock.Messages.{send_pending_plocks}
use dlm.Plock.Purge.{purge_locks, purge_waiters, disown, wake, purge_resource}

-- After a purge of the locks, the processes of the purged node hold nothing at any byte, all
-- others what they held before; at an unmount nobody holds anything.
pub purge_locks-sum :
    (f : ℕ → ℕ) (nodeid : ℕ) (unmount : Bool) (locks : List PosixLock) (n o x : ℕ)
    → sum_at f (purge_locks nodeid unmount locks).0 n o x
      ≡ (if n == nodeid || unmount then 0 else sum_at f locks n o x)
unfolding purge_locks sum_at
purge_locks-sum f nodeid unmount [] n o x = ground arith
purge_locks-sum f nodeid unmount (po ∷ rest) n o x =
    ground (arith, purge_locks-sum f nodeid unmount rest n o x)

purge_locks-valid :
    (nodeid : ℕ) (unmount : Bool) (locks : List PosixLock)
    → All IsLock locks
    → All IsLock (purge_locks nodeid unmount locks).0
unfolding purge_locks
purge_locks-valid nodeid unmount [] v = tt
purge_locks-valid nodeid unmount (po ∷ rest) v =
    elim (Bool-cases (po.nodeid == nodeid || unmount)) [
      | inl e ↦ rw e (purge_locks-valid nodeid unmount rest v.1)
      | inr e ↦ rw e (v.0, purge_locks-valid nodeid unmount rest v.1)
    ]

abbrev Requests : List LockWaiter → Type 0
Requests = All (λ q. IsRequest (q.info))

purge_waiters-valid :
    (nodeid : ℕ) (unmount : Bool) (queue : List LockWaiter)
    → Requests queue
    → Requests (purge_waiters nodeid unmount queue).0
unfolding purge_waiters
purge_waiters-valid nodeid unmount [] v = tt
purge_waiters-valid nodeid unmount (q ∷ rest) v =
    elim (Bool-cases (q.info.nodeid == nodeid || unmount)) [
      | inl e ↦ rw e (purge_waiters-valid nodeid unmount rest v.1)
      | inr e ↦ rw e (v.0, purge_waiters-valid nodeid unmount rest v.1)
    ]

purge_locks-IsSafe :
    (nodeid : ℕ) (unmount : Bool) (locks : List PosixLock)
    → IsSafe locks
    → IsSafe (purge_locks nodeid unmount locks).0
purge_locks-IsSafe nodeid unmount locks s = record {
  valid = purge_locks-valid nodeid unmount locks s.valid;
  compatible = λ n o n' o' x ne. ground (
    arith,
    s.compatible n o n' o' x ne,
    purge_locks-sum (λ ex. ex) nodeid unmount locks n o x,
    purge_locks-sum (λ ex. 1) nodeid unmount locks n' o' x,
  );
}

disown-IsSound :
    (env : Env) (nodeid : ℕ) (r : Resource) (w : World)
    → IsSound r
    → IsSound (disown env nodeid r w).0
unfolding disown send_pending_plocks
disown-IsSound env nodeid r w s = elim (Bool-cases (r.owner == nodeid)) [
  | inl e ↦ rw e (record { safe = s.safe; queue = s.queue })
  | inr e ↦ rw e s
]

wake-IsSound :
    (env : Env) (ls : Lockspace) (r : Resource) (w : World)
    → IsSound r
    → IsSound (wake env ls (r, w)).0
wake-IsSound env ls r w s = elim (Bool-cases (is_empty r.waiters)) [
  | inl e ↦ rw e s
  | inr e ↦ rw e (do_waiters-IsSound env ls r w s)
]

left-UnlessFreed :
    (P : Resource → Type 0) (b : Bool) (r : Resource)
    → P r
    → UnlessFreed P (if b then none else some r)
left-UnlessFreed P true r h = tt
left-UnlessFreed P false r h = h

-- On a resource with this property, purging a node, or all nodes at an unmount, leaves a
-- resource (unless it frees it) where no byte is locked by two processes of which one writes,
-- and every queued request is well-formed, also after the requests that it unblocks are granted.
pub purge_resource-IsSound :
    (env : Env) (ls : Lockspace) (nodeid : ℕ) (unmount : Bool) (r : Resource) (w : World)
    → IsSound r
    → UnlessFreed IsSound (purge_resource env ls nodeid unmount r w).0
unfolding purge_resource
purge_resource-IsSound env ls nodeid unmount r w s =
    let kept = record r {
      locks = (purge_locks nodeid unmount r.locks).0;
      waiters = (purge_waiters nodeid unmount r.waiters).0;
    } in
    let out = disown env nodeid kept w in
    left-UnlessFreed IsSound _ (wake env ls out).0 (
      wake-IsSound env ls out.0 out.1 (
        disown-IsSound env nodeid kept w (record {
          safe = purge_locks-IsSafe nodeid unmount r.locks s.safe;
          queue = purge_waiters-valid nodeid unmount r.waiters s.queue;
        })))
