-- ===== src/Plock/Sync.antt =====
-- group/dlm_controld/plock.c: the messages that hand a resource over or drop it, and the upkeep
-- that sends drops.
pub mod Transfer
use dlm.Base.{
  ℕ, ◌+◌, Bool, false, not, ◌&&◌, Option, none, some, List, [], ◌∷◌, ◌==◌, ltb, leb, if◌then◌else◌,
  is_empty,
}
use mathlib.Core.List.{reverse}
use dlm.Plock.Types.{
  Info, PosixLock, LockWaiter, Resource, plock, plock_own, plock_drop, plock_sync_lock,
  plock_sync_waiter, unrelated, Env, World, Lockspace, Header, SaveMsg, time_diff_ms,
}
use dlm.Plock.Wire.{info_bswap_in}
use dlm.Plock.Locks.{add_lock, lock_for}
use dlm.Plock.Grant.{add_waiter}
use dlm.Plock.Resource.{find_resource, send_own, send_drop}
use dlm.Plock.Messages.{put, keep_some, save_message, receive_plock_now, receive_own_now}

-- The tests of `clear_syncing_flag`.
abbrev pub lock_matches : Info → PosixLock → Bool
lock_matches i po =
    po.syncing
    && (i.start == po.start
        && (i.end == po.end
            && (i.nodeid == po.nodeid
                && (i.owner == po.owner && (i.pid == po.pid && i.ex == po.ex)))))

abbrev pub waiter_matches : Info → LockWaiter → Bool
waiter_matches i q =
    q.syncing
    && (i.start == q.info.start
        && (i.end == q.info.end
            && (i.nodeid == q.info.nodeid
                && (i.owner == q.info.owner && (i.pid == q.info.pid && i.ex == q.info.ex)))))

-- The first loop of `clear_syncing_flag`; `none` when no lock matches.
clear_lock : Info → List PosixLock → Option (List PosixLock)
clear_lock i [] = none
clear_lock i (po ∷ rest) =
    let later = clear_lock i rest in
    if lock_matches i po
    then some (record po { syncing = false } ∷ rest)
    else elim later [ none ↦ none | some rest' ↦ some (po ∷ rest') ]

-- The second loop.
clear_waiter : Info → List LockWaiter → List LockWaiter
clear_waiter i [] = []
clear_waiter i (q ∷ rest) =
    let later = clear_waiter i rest in
    if waiter_matches i q then record q { syncing = false } ∷ rest else q ∷ later

unfoldable pub clear_syncing_flag : Resource → Info → Resource
unfolding clear_lock clear_waiter
clear_syncing_flag r i = elim (clear_lock i r.locks) [
  | some locks ↦ record r { locks = locks }
  | none ↦ record r { waiters = clear_waiter i r.waiters }
]

-- `_receive_sync` once the resource is found.
unfoldable pub sync_resource : Env → Header → Info → Resource → World → Resource × World
sync_resource env hd i r w =
    if hd.nodeid == env.our_nodeid then (clear_syncing_flag r i, w) else elim hd.type [
      | plock_sync_lock ↦
          let out = add_lock w.mem r.locks (lock_for i i.ex i.start i.end) in
          (record r { locks = out.locks }, record w { mem = out.mem })
      | plock_sync_waiter ↦
          let (waiters, rv, mem) = add_waiter env w.mem r.waiters i in
          (record r { waiters = waiters }, record w { mem = mem })
      | _ ↦ (r, w)
    ]

-- `_receive_sync`
unfoldable pub receive_sync_now : Env → Lockspace → World → Header → Info → Lockspace × World
unfolding info_bswap_in sync_resource
receive_sync_now env ls w hd payload =
    let i = info_bswap_in env.big_endian payload in
    let found = find_resource env false i.number ls.plock_resources w.mem in
    let ls' = record ls { plock_resources = found.resources } in
    let w' = record w { mem = found.mem } in
    elim found.resource [
      | none ↦ (ls', w')
      | some r ↦ put ls' i.number (keep_some (sync_resource env hd i r w'))
    ]

unfoldable pub receive_sync : Env → Lockspace → World → Header → Info → Lockspace × World
receive_sync env ls w hd payload =
    if ls.save_plocks
    then save_message ls w hd payload hd.type
    else receive_sync_now env ls w hd payload

-- `_receive_drop` once the resource is found.
unfoldable pub drop_resource : Resource → Option Resource
drop_resource r =
    if not (r.owner == 0)
    then some r
    else if not (is_empty r.pending)
    then some r
    else if is_empty r.locks && is_empty r.waiters
    then none
    else some r

-- `_receive_drop`
unfoldable pub receive_drop_now : Env → Lockspace → World → Header → Info → Lockspace × World
unfolding info_bswap_in drop_resource
receive_drop_now env ls w hd payload =
    let i = info_bswap_in env.big_endian payload in
    let found = find_resource env false i.number ls.plock_resources w.mem in
    let ls' = record ls { plock_resources = found.resources } in
    let w' = record w { mem = found.mem } in
    elim found.resource [ none ↦ (ls', w') | some r ↦ put ls' i.number (drop_resource r, w') ]

unfoldable pub receive_drop : Env → Lockspace → World → Header → Info → Lockspace × World
receive_drop env ls w hd payload =
    if ls.save_plocks
    then save_message ls w hd payload plock_drop
    else receive_drop_now env ls w hd payload

-- The body of the loop of `drop_resources` below its tests.
unfoldable pub offer_drop : Env → Resource → World → Resource × World
offer_drop env r w =
    if r.owner == env.our_nodeid
    then (record r { owner = 0 }, send_own env r 0 w)
    else if r.owner == 0 && r.got_unown
    then (r, send_drop env r w)
    else (r, w)

cons_first : Resource → List Resource × World → List Resource × World
cons_first r out = (r ∷ out.0, out.1)

-- The loop of `drop_resources`, over the list from its tail on.
drop_pass : Env → ℕ → List Resource → World → List Resource × World
unfolding offer_drop cons_first
drop_pass env count [] w = ([], w)
drop_pass env count (r ∷ rest) w =
    let skipped = cons_first r (drop_pass env count rest w) in
    let after = offer_drop env r w in
    let offered = cons_first after.0 (drop_pass env (count + 1) rest after.1) in
    if leb env.drop_resources_count count
    then (r ∷ rest, w)
    else if not (r.owner == 0) && not (r.owner == env.our_nodeid)
    then skipped
    else if ltb (time_diff_ms r.last_access env.now) env.drop_resources_age
    then skipped
    else if is_empty r.locks && is_empty r.waiters
    then offered
    else skipped

unfoldable pub drop_resources : Env → Lockspace → World → Lockspace × World
unfolding drop_pass
drop_resources env ls w =
    let (rs, w') = drop_pass env 0 (reverse ls.plock_resources) w in
    (record ls { plock_resources = reverse rs }, w')

-- The `switch` of `process_saved_plocks`; `none` when it goes on without unlinking the message.
deliver_saved : Env → Lockspace → World → SaveMsg → Option (Lockspace × World)
deliver_saved env ls w m = elim m.type [
  | plock ↦ some (receive_plock_now env ls w m.header m.payload)
  | plock_own ↦ some (receive_own_now env ls w m.header m.payload)
  | plock_drop ↦ some (receive_drop_now env ls w m.header m.payload)
  | plock_sync_lock ↦ some (receive_sync_now env ls w m.header m.payload)
  | plock_sync_waiter ↦ some (receive_sync_now env ls w m.header m.payload)
  | unrelated ↦ none
]

-- The loop of `process_saved_plocks`, with the messages that stay.
saved_pass : Env → List SaveMsg → Lockspace → World → List SaveMsg × Lockspace × World
unfolding deliver_saved
saved_pass env [] ls w = ([], ls, w)
saved_pass env (m ∷ rest) ls w = elim (deliver_saved env ls w m) [
  | none ↦ let (kept, ls', w') = saved_pass env rest ls w in (m ∷ kept, ls', w')
  | some (ls', w') ↦ saved_pass env rest ls' w'
]

unfoldable pub process_saved_plocks : Env → Lockspace → World → Lockspace × World
unfolding saved_pass
process_saved_plocks env ls w =
    let (kept, ls', w') = saved_pass env ls.saved_messages ls w in
    (record ls' { saved_messages = kept }, w')
