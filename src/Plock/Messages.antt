-- ===== src/Plock/Messages.antt =====
-- group/dlm_controld/plock.c: the handlers of the messages about plocks, in the order in which the
-- group delivers them. `receive_…_now` stands for the source's `_receive_…`.
pub mod HandOver
use dlm.Base.{
  ℕ, ◌%◌, Bool, true, false, not, ◌&&◌, ◌||◌, Option, none, some, List, [], ◌∷◌, ◌++◌, ◌==◌,
  if◌then◌else◌,
}
use dlm.Plock.Types.{
  Info, LockWaiter, Resource, malloc, MsgType, plock, plock_own, OpType, get, lock, unlock, other,
  Env, World, Lockspace, Header, unknown, succ_u32,
}
use dlm.Plock.Wire.{info_bswap_in}
use dlm.Plock.Grant.{apply_plock}
use dlm.Plock.Resource.{store, find_resource, send_plock, send_own, send_syncs, save_pending_plock}

-- `save_message`; a message is lost when there is no memory for it.
unfoldable pub save_message : Lockspace → World → Header → Info → MsgType → Lockspace × World
unfolding malloc
save_message ls w hd payload type =
    let (given, mem) = malloc w.mem in
    if given
    then (
      record ls {
        saved_messages =
            ls.saved_messages ++ record { type = type; header = hd; payload = payload } ∷ [];
      },
      record w { mem = mem },
    )
    else (ls, record w { mem = mem })

-- `plock_recv_count++`, with the time of each thousandth.
unfoldable pub count_recv : Env → World → World
count_recv env w =
    let n = succ_u32 w.stats.recv_count in
    record w {
      stats = record (w.stats) {
        recv_count = n;
        recv_time = if n % 1000 == 0 then env.now else w.stats.recv_time;
      };
    }

-- The list after a handler has left `found` of the resource `number`.
abbrev pub put : Lockspace → ℕ → Option Resource × World → Lockspace × World
put ls number out = (record ls { plock_resources = store number out.0 ls.plock_resources }, out.1)

abbrev pub keep_some : Resource × World → Option Resource × World
keep_some out = (some out.0, out.1)

-- `is_get`: the operation is DLM_PLOCK_OP_GET.
abbrev pub is_get : OpType → Bool
is_get get = true
is_get lock = false
is_get unlock = false
is_get (other n) = false

-- `_receive_plock` once the resource is found: the last four branches.
unfoldable pub dispatch_owner :
    Env → Lockspace → Info → ℕ → Resource → World → Option Resource × World
dispatch_owner env ls i from r w =
    if r.owner == 0
    then apply_plock env ls i from r w
    else if r.owner == unknown
    then (if from == env.our_nodeid then keep_some (save_pending_plock env r i w) else (some r, w))
    else if not (r.owner == env.our_nodeid)
    then (if from == env.our_nodeid then keep_some (save_pending_plock env r i w) else (some r, w))
    else if r.owner == env.our_nodeid
    then (if from == env.our_nodeid then apply_plock env ls i from r w else (some r, w))
    else (some r, w)

-- `_receive_plock` where ownership is used and there is no resource: a race with a drop.
unfoldable pub plock_after_drop : Env → Lockspace → Info → ℕ → World → Lockspace × World
plock_after_drop env ls i from w =
    if not (from == env.our_nodeid)
    then (ls, w)
    else (let found = find_resource env true i.number ls.plock_resources w.mem in
        let ls' = record ls { plock_resources = found.resources } in
        let w' = record w { mem = found.mem } in
        elim found.resource [
          | none ↦ (ls', w')
          | some r ↦
              put ls' i.number
                (keep_some (save_pending_plock env r i (send_own env r env.our_nodeid w')))
        ])

-- `_receive_plock` from `find_resource` on.
unfoldable pub plock_found : Env → Lockspace → Info → ℕ → World → Lockspace × World
unfolding dispatch_owner plock_after_drop
plock_found env ls i from w =
    let found = find_resource env (not env.plock_ownership) i.number ls.plock_resources w.mem in
    let ls' = record ls { plock_resources = found.resources } in
    let w' = record w { mem = found.mem } in
    elim found.resource [
      | none ↦ if env.plock_ownership then plock_after_drop env ls' i from w' else (ls', w')
      | some r ↦ put ls' i.number (dispatch_owner env ls' i from r w')
    ]

-- `_receive_plock`
unfoldable pub receive_plock_now : Env → Lockspace → World → Header → Info → Lockspace × World
unfolding info_bswap_in plock_found
receive_plock_now env ls w hd payload =
    let i = info_bswap_in env.big_endian payload in
    let from = hd.nodeid in
    let w' = count_recv env w in
    if is_get i.optype && not (from == env.our_nodeid)
    then (ls, w')
    else if not (from == hd.nodeid) || not (from == i.nodeid)
    then (ls, w')
    else plock_found env ls i from w'

unfoldable pub receive_plock : Env → Lockspace → World → Header → Info → Lockspace × World
receive_plock env ls w hd payload =
    if ls.save_plocks
    then save_message ls w hd payload plock
    else receive_plock_now env ls w hd payload

-- The loop of `add_pending_plocks`. When a resource is freed on the way (`put_resource` does so
-- without ownership only), the source would go on in freed memory; here the loop ends.
unfoldable pub pending_pass :
    Env → Lockspace → List LockWaiter → Resource → World → Option Resource × World
pending_pass env ls [] r w = (some r, w)
pending_pass env ls (q ∷ rest) r w =
    let (found, w') = apply_plock env ls q.info env.our_nodeid r w in
    elim found [ none ↦ (none, w') | some r' ↦ pending_pass env ls rest r' w' ]

unfoldable pub add_pending_plocks : Env → Lockspace → Resource → World → Option Resource × World
unfolding pending_pass
add_pending_plocks env ls r w =
    let (found, w') = pending_pass env ls r.pending r w in
    (elim found [ none ↦ none | some r' ↦ some (record r' { pending = [] }) ], w')

-- The loop of `send_pending_plocks`.
unfoldable pub send_all : Env → List LockWaiter → World → World
send_all env [] w = w
send_all env (q ∷ rest) w = send_all env rest (send_plock env q.info w)

unfoldable pub send_pending_plocks : Env → Resource → World → Resource × World
unfolding send_all
send_pending_plocks env r w = (record r { pending = [] }, send_all env r.pending w)

-- `_receive_own`, our own message.
unfoldable pub own_from_us : Env → Lockspace → Info → Resource → World → Option Resource × World
unfolding send_pending_plocks add_pending_plocks
own_from_us env ls i r w =
    if i.nodeid == 0
    then (if r.owner == env.our_nodeid
        then (some r, w)
        else if r.owner == 0
        then (some (record r { got_unown = true }), w)
        else (some r, w))
    else if i.nodeid == env.our_nodeid
    then (if r.owner == unknown
        then add_pending_plocks env ls (record r { owner = env.our_nodeid }) w
        else if r.owner == env.our_nodeid
        then (some r, w)
        else if r.owner == 0
        then keep_some (send_pending_plocks env r w)
        else (some r, w))
    else (some r, w)

-- The relinquishing branch of `_receive_own`.
unfoldable pub relinquish : Env → Resource → World → Resource × World
relinquish env r w =
    let (r', w') = send_syncs env r w in (record r' { owner = 0 }, send_own env r' 0 w')

-- `_receive_own`, a message of another node.
unfoldable pub own_from_other : Env → Info → ℕ → Resource → World → Resource × World
unfolding send_pending_plocks relinquish
own_from_other env i from r w =
    if i.nodeid == 0
    then (if r.owner == unknown
        then (r, w)
        else if r.owner == env.our_nodeid
        then (r, w)
        else if r.owner == 0
        then (r, w)
        else send_pending_plocks env (record r { owner = 0; got_unown = true }) w)
    else if i.nodeid == from
    then (if r.owner == unknown
        then (record r { owner = from }, w)
        else if r.owner == env.our_nodeid
        then relinquish env r w
        else (r, w))
    else (r, w)

-- `_receive_own`
unfoldable pub receive_own_now : Env → Lockspace → World → Header → Info → Lockspace × World
unfolding info_bswap_in own_from_us own_from_other
receive_own_now env ls w hd payload =
    let i = info_bswap_in env.big_endian payload in
    let from = hd.nodeid in
    let found = find_resource env true i.number ls.plock_resources w.mem in
    let ls' = record ls { plock_resources = found.resources } in
    let w' = record w { mem = found.mem } in
    elim found.resource [
      | none ↦ (ls', w')
      | some r ↦ put ls' i.number (
          if from == env.our_nodeid
          then own_from_us env ls' i r w'
          else keep_some (own_from_other env i from r w'))
    ]

unfoldable pub receive_own : Env → Lockspace → World → Header → Info → Lockspace × World
receive_own env ls w hd payload =
    if ls.save_plocks
    then save_message ls w hd payload plock_own
    else receive_own_now env ls w hd payload
