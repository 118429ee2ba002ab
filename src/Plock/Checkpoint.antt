-- ===== src/Plock/Checkpoint.antt =====
-- group/dlm_controld/plock.c: the plock state that a new node reads from a checkpoint. A section is
-- its id, the number and the owner of a resource, and the packed locks and waiters.
pub mod RoundTrip
use dlm.Base.{
  ℕ, ◌%◌, Bool, false, not, ◌&&◌, Option, none, some, List, [], ◌∷◌, ◌++◌, ◌==◌, ltb, if◌then◌else◌,
}
use dlm.Plock.Types.{Info, PosixLock, LockWaiter, Resource, Env, Lockspace, Mem, malloc, unknown}
use dlm.Plock.Wire.{le32, le64}

-- `struct pack_plock`
pub record PackPlock : Type 0 where
  pub start : ℕ
  pub end : ℕ
  pub owner : ℕ
  pub pid : ℕ
  pub nodeid : ℕ
  pub ex : ℕ
  pub waiter : ℕ

-- A section: its id, "r<number>.<owner>", and its contents.
pub record Section : Type 0 where
  pub number : ℕ
  pub owner : ℕ
  pub plocks : List PackPlock

abbrev pub pack_lock : Bool → PosixLock → PackPlock
pack_lock big po = record {
  start = le64 big po.start;
  end = le64 big po.end;
  owner = le64 big po.owner;
  pid = le32 big po.pid;
  nodeid = le32 big po.nodeid;
  ex = po.ex % 256;
  waiter = 0;
}

abbrev pub pack_waiter : Bool → Info → PackPlock
pack_waiter big i = record {
  start = le64 big i.start;
  end = le64 big i.end;
  owner = le64 big i.owner;
  pid = le32 big i.pid;
  nodeid = le32 big i.nodeid;
  ex = i.ex % 256;
  waiter = 1;
}

-- The loops of `pack_section_buf`; what is still being synced is left out.
unfoldable pub pack_locks : Bool → List PosixLock → List PackPlock
pack_locks big [] = []
pack_locks big (po ∷ rest) =
    let rest' = pack_locks big rest in if po.syncing then rest' else pack_lock big po ∷ rest'

unfoldable pub pack_waiters : Bool → List LockWaiter → List PackPlock
pack_waiters big [] = []
pack_waiters big (q ∷ rest) =
    let rest' = pack_waiters big rest in if q.syncing then rest' else pack_waiter big q.info ∷ rest'

unfoldable pub pack_section_buf : Env → Resource → List PackPlock
unfolding pack_locks pack_waiters
pack_section_buf env r =
    if r.owner == env.our_nodeid
    then []
    else pack_locks env.big_endian r.locks ++ pack_waiters env.big_endian r.waiters

-- The owner that `store_plocks` writes; `none` when it skips the resource.
unfoldable pub ckpt_owner : Env → Resource → Option ℕ
ckpt_owner env r =
    if r.owner == unknown
    then none
    else if r.owner == env.our_nodeid
    then some env.our_nodeid
    else if not (r.owner == 0)
    then some r.owner
    else if r.owner == 0 && not r.got_unown
    then some env.our_nodeid
    else some 0

-- The second loop of `store_plocks`: the sections that it creates.
unfoldable pub store_sections : Env → List Resource → List Section
unfolding ckpt_owner pack_section_buf
store_sections env [] = []
store_sections env (r ∷ rest) =
    let rest' = store_sections env rest in
    elim (ckpt_owner env r) [
      | none ↦ rest'
      | some owner ↦
          record { number = r.number; owner = owner; plocks = pack_section_buf env r } ∷ rest'
    ]

-- What the memory of a new lock or waiter holds in the fields that are not set.
pub record Garbage : Type 0 where
  pub lock_syncing : Bool
  pub waiter_syncing : Bool
  pub info : Info

abbrev pub unpack_lock : Bool → Garbage → PackPlock → PosixLock
unpack_lock big g pp = record {
  start = le64 big pp.start;
  end = le64 big pp.end;
  owner = le64 big pp.owner;
  pid = le32 big pp.pid;
  nodeid = le32 big pp.nodeid;
  ex = pp.ex;
  syncing = g.lock_syncing;
}

abbrev pub unpack_waiter : Bool → Garbage → PackPlock → LockWaiter
unpack_waiter big g pp = record {
  syncing = g.waiter_syncing;
  info = record (g.info) {
    start = le64 big pp.start;
    end = le64 big pp.end;
    owner = le64 big pp.owner;
    pid = le32 big pp.pid;
    nodeid = le32 big pp.nodeid;
    ex = pp.ex;
  };
}

-- The loop of `unpack_section_buf`, where its allocations succeed.
unfoldable pub unpack_pass : Bool → Garbage → List PackPlock → Resource → Resource
unpack_pass big g [] r = r
unpack_pass big g (pp ∷ rest) r = unpack_pass big g rest (
    if pp.waiter == 0
    then record r { locks = r.locks ++ unpack_lock big g pp ∷ [] }
    else record r { waiters = r.waiters ++ unpack_waiter big g pp ∷ [] })

-- The resource before its loop.
abbrev pub blank_resource : Env → ℕ → ℕ → Resource
blank_resource env number owner = record {
  number = number;
  owner = owner;
  got_unown = false;
  last_access = env.now;
  locks = [];
  waiters = [];
  pending = [];
}

unfoldable pub unpack_section_buf : Env → Garbage → Section → Lockspace → Mem → Lockspace × Mem
unfolding unpack_pass malloc
unpack_section_buf env g s ls mem =
    let (given, mem') = malloc mem in
    if given
    then (
      record ls {
        plock_resources =
            ls.plock_resources
            ++ unpack_pass env.big_endian g s.plocks (blank_resource env s.number s.owner) ∷ [];
      },
      mem',
    )
    else (ls, mem')

-- The loop of `retrieve_plocks` over the sections.
unfoldable pub retrieve_sections : Env → Garbage → List Section → Lockspace → Mem → Lockspace × Mem
unfolding unpack_section_buf
retrieve_sections env g [] ls mem = (ls, mem)
retrieve_sections env g (s ∷ rest) ls mem =
    let (ls', mem') = unpack_section_buf env g s ls mem in retrieve_sections env g rest ls' mem'

-- `retrieve_plocks`; `found` is what the checkpoint service hands out until it fails, and `none`
-- when the checkpoint cannot be opened.
unfoldable pub retrieve_plocks :
    Env → Garbage → Option (List Section) → Lockspace → Mem → Lockspace × Mem
unfolding retrieve_sections
retrieve_plocks env g found ls mem =
    if not env.enable_plock
    then (ls, mem)
    else elim found [ none ↦ (ls, mem) | some sections ↦ retrieve_sections env g sections ls mem ]

-- `store_plocks`, with a checkpoint service that takes all sections; `none` when it writes nothing.
unfoldable pub store_plocks : Env → ℕ → Lockspace → Lockspace × Option (List Section)
unfolding store_sections
store_plocks env last_plock_time ls =
    if not env.enable_plock
    then (ls, none)
    else if ltb last_plock_time ls.last_checkpoint_time
    then (ls, none)
    else (
      record ls { last_checkpoint_time = env.time },
      some (store_sections env ls.plock_resources),
    )
