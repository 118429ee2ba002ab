-- ===== src/Plock/Replica/Grants.antt =====
-- The operations on a resource (group/dlm_controld/plock.c) do to its locks and its queue what the
-- reference does, on every node and with every setting, as long as no allocation fails.
use dlm.Base.{
  ℕ, ◌≡◌, refl, ap, ◌∙◌, Bool, true, false, Option, none, some, List, [], ◌∷◌, ◌==◌, if◌then◌else◌,
  arith, Bool-cases, inl, inr, map,
}
use mathlib.Core.List.{map-append}
use dlm.Plock.Types.{
  OpType, lock, unlock, get, other, Info, PosixLock, LockWaiter, Resource, Rv, einval, Env, World,
  Lockspace, touch_plock_time,
}
use dlm.Plock.Locks.{Outcome, is_conflict, lock_internal, unlock_internal}
use dlm.Plock.Locks.Memory.{lock_internal-mem, unlock_internal-mem}
use dlm.Plock.Grant.{
  reply, write_result, add_waiter, waiters_pass, do_waiters, put_resource, settle, is_einprogress,
  try_lock, do_lock, do_unlock, do_get, op_switch, apply_plock,
}
use dlm.Plock.Replica.{View, empty_view, grant_queue, request, release, grant_view, operate}
use dlm.Plock.Replica.Memory.{reply-mem}

abbrev pub view_of : Resource → View
view_of r = record { locks = r.locks; waiters = map (λ q. q.info) r.waiters }

-- A resource that is not there has no locks and no queue.
abbrev pub view_opt : Option Resource → View
view_opt none = empty_view
view_opt (some r) = view_of r

abbrev wait_on : Info → View → View
wait_on q v = record v { waiters = q ∷ v.waiters }

abbrev queue_up : Resource → List Info → View
queue_up r infos = record { locks = r.locks; waiters = infos }

abbrev unlocked : Resource → Outcome → View
unlocked r o = grant_view (record { locks = o.locks; waiters = map (λ q. q.info) r.waiters })

-- The queue after one pass, and an allocator that will not fail.
waiters_pass-refines :
    (env : Env) (ls : Lockspace) (queue : List LockWaiter) (locks : List PosixLock) (w : World)
    → w.mem ≡ []
    → let pass = waiters_pass env ls queue locks w in
      (◌≡◌ {A = View}
        (record { locks = pass.locks; waiters = map (λ q. q.info) pass.waiters })
        (grant_queue (map (λ q. q.info) queue) locks))
      × (pass.world.mem ≡ [])
unfolding waiters_pass grant_queue
waiters_pass-refines env ls [] locks w m = (refl, m)
waiters_pass-refines env ls (q ∷ queue) locks w m = elim (Bool-cases (is_conflict locks q.info)) [
  | inl hit ↦
      let ih = waiters_pass-refines env ls queue locks w m in
      rw (hit, waiters_pass, grant_queue) (ap (wait_on q.info) ih.0, ih.1)
  | inr free ↦
      let out = lock_internal w.mem locks q.info in
      let same : out ≡ lock_internal [] locks q.info =
        ap (λ mem. lock_internal mem locks q.info) m in
      let ih =
        waiters_pass-refines env ls queue out.locks
          (reply env ls q.info out.rv (record w { mem = out.mem }))
          (reply-mem env ls q.info out.rv (record w { mem = out.mem })
            ∙ ap (λ o. o.mem) same
            ∙ lock_internal-mem locks q.info) in
      rw (free, waiters_pass, grant_queue)
        (ih.0 ∙ ap (λ o. grant_queue (map (λ q. q.info) queue) o.locks) same, ih.1)
]

put_resource-view : (env : Env) (r : Resource) → view_opt (put_resource env r) ≡ view_of r
unfolding put_resource
put_resource-view env r = ground arith

settle-refines :
    (env : Env) (ls : Lockspace) (r : Resource) (w : World)
    → w.mem ≡ []
    → (view_opt (settle env ls r w).0 ≡ grant_view (view_of r)) × ((settle env ls r w).1.mem ≡ [])
unfolding do_waiters
settle-refines env ls r w m =
    let pass = waiters_pass-refines env ls r.waiters r.locks w m in
    (put_resource-view env _ ∙ pass.0, pass.1)

try_lock-refines :
    (env : Env) (r : Resource) (i : Info)
    → (view_of (try_lock env r i []).0 ≡ request i (view_of r)) × ((try_lock env r i []).2 ≡ [])
unfolding try_lock request add_waiter
try_lock-refines env r i = elim (Bool-cases (is_conflict r.locks i)) [
  | inr free ↦ rw free (refl, lock_internal-mem r.locks i)
  | inl hit ↦ elim (Bool-cases (i.wait == 0)) [
    | inl now ↦ rw (hit, now) (refl, refl)
    | inr wait ↦ rw (hit, wait) (ap (queue_up r) (map-append (λ q. q.info) r.waiters _), refl)
  ]
]

reply_unless-mem :
    (b : Bool) (env : Env) (ls : Lockspace) (i : Info) (rv : Rv) (w : World)
    → (if b then w else reply env ls i rv w).mem ≡ w.mem
reply_unless-mem true env ls i rv w = refl
reply_unless-mem false env ls i rv w = reply-mem env ls i rv w

do_lock-refines :
    (env : Env) (ls : Lockspace) (i : Info) (r : Resource) (w : World)
    → w.mem ≡ []
    → (view_opt (do_lock env ls i r w).0 ≡ grant_view (request i (view_of r)))
      × ((do_lock env ls i r w).1.mem ≡ [])
unfolding do_lock
do_lock-refines env ls i r w m =
    let tried : try_lock env r i w.mem ≡ try_lock env r i [] = ap (λ h. try_lock env r i h) m in
    let done = try_lock-refines env r i in
    let out = settle-refines env ls (try_lock env r i w.mem).0 _ (
      reply_unless-mem (is_einprogress (try_lock env r i w.mem).1) env ls i
        (try_lock env r i w.mem).1 (record w { mem = (try_lock env r i w.mem).2 })
      ∙ ap (λ t. t.2) tried
      ∙ done.1) in
    (out.0 ∙ ap grant_view (ap (λ t. view_of t.0) tried ∙ done.0), out.1)

do_unlock-refines :
    (env : Env) (ls : Lockspace) (i : Info) (r : Resource) (w : World)
    → w.mem ≡ []
    → (view_opt (do_unlock env ls i r w).0 ≡ grant_view (release i (view_of r)))
      × ((do_unlock env ls i r w).1.mem ≡ [])
unfolding do_unlock release
do_unlock-refines env ls i r w m =
    let tried : unlock_internal w.mem r.locks i ≡ unlock_internal [] r.locks i =
      ap (λ h. unlock_internal h r.locks i) m in
    let rv = (unlock_internal w.mem r.locks i).rv in
    let w' = record w { mem = (unlock_internal w.mem r.locks i).mem } in
    let out =
      settle-refines env ls (record r { locks = (unlock_internal w.mem r.locks i).locks })
        (reply env ls i rv w')
        (reply-mem env ls i rv w' ∙ ap (λ o. o.mem) tried ∙ unlock_internal-mem r.locks i) in
    (out.0 ∙ ap (unlocked r) tried, out.1)

do_get-mem :
    (env : Env) (ls : Lockspace) (i : Info) (r : Resource) (w : World)
    → (do_get env ls i r w).mem ≡ w.mem
unfolding do_get write_result
do_get-mem env ls i r w = ground arith

einval-mem :
    (b : Bool) (env : Env) (ls : Lockspace) (i : Info) (w : World)
    → (if b then write_result env ls i einval w else w).mem ≡ w.mem
unfolding write_result
einval-mem true env ls i w = refl
einval-mem false env ls i w = refl

op_switch-refines :
    (op : OpType) (env : Env) (ls : Lockspace) (i : Info) (from : ℕ) (r : Resource) (w : World)
    → w.mem ≡ []
    → (view_opt (op_switch op env ls i from r w).0 ≡ operate op i (view_of r))
      × ((op_switch op env ls i from r w).1.mem ≡ [])
unfolding op_switch operate touch_plock_time
op_switch-refines lock env ls i from r w m =
    do_lock-refines env ls i r (touch_plock_time env ls w) m
op_switch-refines unlock env ls i from r w m =
    do_unlock-refines env ls i r (touch_plock_time env ls w) m
op_switch-refines get env ls i from r w m = (refl, do_get-mem env ls i r w ∙ m)
op_switch-refines (other n) env ls i from r w m =
    (refl, einval-mem (from == env.our_nodeid) env ls i w ∙ m)

-- With an allocator that does not fail, an operation changes the locks and the requests in the
-- queue of a resource as the reference does, on every node and with every setting, and the
-- allocator still does not fail afterwards.
pub apply_plock-refines :
    (env : Env) (ls : Lockspace) (i : Info) (from : ℕ) (r : Resource) (w : World)
    → w.mem ≡ []
    → (view_opt (apply_plock env ls i from r w).0 ≡ operate i.optype i (view_of r))
      × ((apply_plock env ls i from r w).1.mem ≡ [])
unfolding apply_plock
apply_plock-refines env ls i from r w m = op_switch-refines i.optype env ls i from r w m
