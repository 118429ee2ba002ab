-- ===== src/Plock/Resource.antt =====
-- group/dlm_controld/plock.c: the resources of a lockspace, and the messages about them.
pub mod Store
use dlm.Base.{
  ℕ, Bool, true, false, not, Option, none, some, List, [], ◌∷◌, ◌++◌, ◌==◌, if◌then◌else◌, is_empty,
}
use dlm.Plock.Types.{
  Info, PosixLock, LockWaiter, Resource, Rv, ok, enomem, enoent, Mem, malloc, MsgType, plock,
  plock_own, plock_drop, plock_sync_lock, plock_sync_waiter, send, Env, World, unknown, zero_info,
}
use dlm.Plock.Wire.{info_bswap_out}

-- `search_resource`
unfoldable pub search_resource : List Resource → ℕ → Option Resource
search_resource [] number = none
search_resource (r ∷ rest) number =
    if r.number == number then some r else search_resource rest number

-- The list after a handler has worked on the resource that `search_resource` found: `none` when
-- the handler freed it.
unfoldable pub store : ℕ → Option Resource → List Resource → List Resource
store number found [] = []
store number found (r ∷ rest) =
    if r.number == number
    then elim found [ none ↦ rest | some r' ↦ r' ∷ rest ]
    else r ∷ store number found rest

-- What `find_resource` leaves: `rv`, `*r_out`, the list and the allocator.
pub record Found : Type 0 where
  pub rv : Rv
  pub resource : Option Resource
  pub resources : List Resource
  pub mem : Mem

-- The resource that `find_resource` creates.
unfoldable pub new_resource : Env → ℕ → Resource
new_resource env number = record {
  number = number;
  owner = if env.plock_ownership then unknown else 0;
  got_unown = false;
  last_access = env.now;
  locks = [];
  waiters = [];
  pending = [];
}

create_resource : Env → Bool → ℕ → List Resource → Mem → Found
unfolding malloc new_resource
create_resource env create number rs mem =
    if not create
    then record { rv = enoent; resource = none; resources = rs; mem = mem }
    else (let (given, mem') = malloc mem in
        if given
        then record {
          rv = ok;
          resource = some (new_resource env number);
          resources = rs ++ new_resource env number ∷ [];
          mem = mem';
        }
        else record { rv = enomem; resource = none; resources = rs; mem = mem' })

unfoldable pub find_resource : Env → Bool → ℕ → List Resource → Mem → Found
unfolding search_resource store create_resource
find_resource env create number rs mem = elim (search_resource rs number) [
  | none ↦ create_resource env create number rs mem
  | some r ↦
      let r' = record r { last_access = env.now } in
      record { rv = ok; resource = some r'; resources = store number (some r') rs; mem = mem }
]

-- `send_struct_info`; the message carries the converted bytes.
unfoldable pub send_struct_info : Env → MsgType → Info → World → Rv × World
unfolding malloc info_bswap_out
send_struct_info env type i w =
    let (given, mem) = malloc w.mem in
    if given
    then (
      ok,
      record w {
        mem = mem;
        effects = w.effects ++ send type (info_bswap_out env.big_endian i) ∷ [];
      },
    )
    else (enomem, record w { mem = mem })

unfoldable pub send_plock : Env → Info → World → World
unfolding send_struct_info
send_plock env i w = (send_struct_info env plock i w).1

unfoldable pub send_own : Env → Resource → ℕ → World → World
unfolding send_struct_info
send_own env r owner w =
    if not (is_empty r.pending)
    then w
    else (send_struct_info env plock_own (record zero_info { number = r.number; nodeid = owner })
        w).1

unfoldable pub send_drop : Env → Resource → World → World
unfolding send_struct_info
send_drop env r w = (send_struct_info env plock_drop (record zero_info { number = r.number }) w).1

-- The message that describes a lock.
abbrev pub lock_info : ℕ → PosixLock → Info
lock_info number po = record zero_info {
  number = number;
  start = po.start;
  end = po.end;
  nodeid = po.nodeid;
  owner = po.owner;
  pid = po.pid;
  ex = po.ex;
}

-- The first loop of `send_syncs`; a failure ends it.
unfoldable pub sync_locks : Env → ℕ → List PosixLock → World → Rv × List PosixLock × World
unfolding send_struct_info
sync_locks env number [] w = (ok, [], w)
sync_locks env number (po ∷ rest) w =
    let (rv, w') = send_struct_info env plock_sync_lock (lock_info number po) w in
    let (rv', rest', w'') = sync_locks env number rest w' in
    elim rv [
      | ok ↦ (rv', record po { syncing = true } ∷ rest', w'')
      | failed ↦ (failed, po ∷ rest, w')
    ]

-- The second loop of `send_syncs`.
unfoldable pub sync_waiters : Env → List LockWaiter → World → Rv × List LockWaiter × World
unfolding send_struct_info
sync_waiters env [] w = (ok, [], w)
sync_waiters env (q ∷ rest) w =
    let (rv, w') = send_struct_info env plock_sync_waiter q.info w in
    let (rv', rest', w'') = sync_waiters env rest w' in
    elim rv [
      | ok ↦ (rv', record q { syncing = true } ∷ rest', w'')
      | failed ↦ (failed, q ∷ rest, w')
    ]

unfoldable pub send_syncs : Env → Resource → World → Resource × World
unfolding sync_locks sync_waiters
send_syncs env r w =
    let (rv, locks, w') = sync_locks env r.number r.locks w in
    let (rv', waiters, w'') = sync_waiters env r.waiters w' in
    elim rv [
      | ok ↦ (record r { locks = locks; waiters = waiters }, w'')
      | failed ↦ (record r { locks = locks }, w')
    ]

unfoldable pub save_pending_plock : Env → Resource → Info → World → Resource × World
unfolding malloc
save_pending_plock env r i w =
    let (given, mem) = malloc w.mem in
    if given
    then (
      record r {
        pending = r.pending ++ record { syncing = env.stale_flag r.pending i; info = i } ∷ [];
      },
      record w { mem = mem },
    )
    else (r, record w { mem = mem })
