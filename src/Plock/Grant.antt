-- ===== src/Plock/Grant.antt =====
-- group/dlm_controld/plock.c: granting, refusing and queueing requests at one resource.
pub mod Safety
use dlm.Base.{
  ℕ, ◌≡◌, Bool, true, false, not, ◌&&◌, ◌||◌, Option, none, some, List, [], ◌∷◌, ◌++◌, ◌==◌,
  if◌then◌else◌, is_empty,
}
use dlm.Plock.Types.{
  Info, PosixLock, LockWaiter, Resource, Rv, ok, one, eagain, einprogress, enomem, einval, Mem,
  malloc, OpType, lock, unlock, get, other, Effect, write, Env, World, Lockspace, touch_plock_time,
}
use dlm.Plock.Locks.{is_conflict, conflict_info, lock_internal, unlock_internal}

-- `write_result`
unfoldable pub write_result : Env → Lockspace → Info → Rv → World → World
write_result env ls i rv w =
    let i' = if env.need_fsid_translation then record i { fsid = ls.associated_mg_id } else i in
    record w { effects = w.effects ++ write i' rv ∷ [] }

-- `if (in->nodeid == our_nodeid) write_result(ls, in, rv)`
unfoldable pub reply : Env → Lockspace → Info → Rv → World → World
reply env ls i rv w = if i.nodeid == env.our_nodeid then write_result env ls i rv w else w

-- `add_waiter`: the waiters, the return value and the allocator.
unfoldable pub add_waiter : Env → Mem → List LockWaiter → Info → List LockWaiter × Rv × Mem
unfolding malloc
add_waiter env mem waiters i =
    let (given, mem') = malloc mem in
    if given
    then (waiters ++ record { syncing = env.stale_flag waiters i; info = i } ∷ [], ok, mem')
    else (waiters, enomem, mem')

-- What `do_waiters` leaves.
pub record Pass : Type 0 where
  pub waiters : List LockWaiter
  pub locks : List PosixLock
  pub world : World

-- The loop of `do_waiters`: one pass over the queue.
unfoldable pub waiters_pass : Env → Lockspace → List LockWaiter → List PosixLock → World → Pass
waiters_pass env ls [] locks w = record { waiters = []; locks = locks; world = w }
waiters_pass env ls (q ∷ queue) locks w = elim (is_conflict locks q.info) [
  | true ↦
      let rest = waiters_pass env ls queue locks w in record rest { waiters = q ∷ rest.waiters }
  | false ↦
      let out = lock_internal w.mem locks q.info in
      waiters_pass env ls queue out.locks (reply env ls q.info out.rv (record w { mem = out.mem }))
]

unfoldable pub do_waiters : Env → Lockspace → Resource → World → Resource × World
unfolding waiters_pass
do_waiters env ls r w =
    let pass = waiters_pass env ls r.waiters r.locks w in
    (record r { waiters = pass.waiters; locks = pass.locks }, pass.world)

-- `put_resource`: `none` when the resource is unlinked and freed.
unfoldable pub put_resource : Env → Resource → Option Resource
put_resource env r =
    if env.plock_ownership
    then some r
    else if is_empty r.locks && is_empty r.waiters
    then none
    else some r

-- The end of `do_lock` and `do_unlock`.
abbrev pub settle : Env → Lockspace → Resource → World → Option Resource × World
settle env ls r w = let (r', w') = do_waiters env ls r w in (put_resource env r', w')

-- `rv != -EINPROGRESS`
abbrev pub is_einprogress : Rv → Bool
is_einprogress einprogress = true
is_einprogress _ = false

-- The branches of `do_lock` up to the label `out`: the resource, `rv` and the allocator.
unfoldable pub try_lock : Env → Resource → Info → Mem → Resource × Rv × Mem
try_lock env r i mem =
    if is_conflict r.locks i
    then (if i.wait == 0
        then (r, eagain, mem)
        else (let (waiters, rv, mem') = add_waiter env mem r.waiters i in
            elim rv [
              | ok ↦ (record r { waiters = waiters }, einprogress, mem')
              | failed ↦ (r, failed, mem')
            ]))
    else (let out = lock_internal mem r.locks i in
        (record r { locks = out.locks }, out.rv, out.mem))

unfoldable pub do_lock : Env → Lockspace → Info → Resource → World → Option Resource × World
unfolding try_lock
do_lock env ls i r w =
    let (r', rv, mem) = try_lock env r i w.mem in
    let w' = record w { mem = mem } in
    settle env ls r' (if is_einprogress rv then w' else reply env ls i rv w')

unfoldable pub do_unlock : Env → Lockspace → Info → Resource → World → Option Resource × World
do_unlock env ls i r w =
    let out = unlock_internal w.mem r.locks i in
    settle env ls (record r { locks = out.locks })
      (reply env ls i out.rv (record w { mem = out.mem }))

unfoldable pub do_get : Env → Lockspace → Info → Resource → World → World
do_get env ls i r w =
    if is_conflict r.locks i
    then write_result env ls (conflict_info r.locks i) one w
    else write_result env ls i ok w

-- The `switch` of `__receive_plock`.
unfoldable pub op_switch :
    OpType → Env → Lockspace → Info → ℕ → Resource → World → Option Resource × World
op_switch lock env ls i from r w = do_lock env ls i r (touch_plock_time env ls w)
op_switch unlock env ls i from r w = do_unlock env ls i r (touch_plock_time env ls w)
op_switch get env ls i from r w = (some r, do_get env ls i r w)
op_switch (other n) env ls i from r w =
    (some r, if from == env.our_nodeid then write_result env ls i einval w else w)

-- `__receive_plock`
unfoldable pub apply_plock : Env → Lockspace → Info → ℕ → Resource → World → Option Resource × World
unfolding op_switch
apply_plock env ls i from r w = op_switch i.optype env ls i from r w
