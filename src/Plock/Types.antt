-- ===== src/Plock/Types.antt =====
-- The structs and globals of group/dlm_controld/plock.c, its allocator and its outputs.
use dlm.Base.{
  ◌≡◌, refl, Option, ◌==◌, ℕ, ◌+◌, ◌-◌, ◌*◌, ◌/◌, ◌%◌, Bool, true, List, [], ◌∷◌, ltb,
  if◌then◌else◌, u64_mod,
}

-- `DLM_PLOCK_OP_…` (linux/dlm_plock.h); `other` is any other byte, the 0 of a cleared struct too.
pub data OpType : Type 0 where
  lock unlock get : OpType
  other : ℕ → OpType

-- `struct dlm_plock_info` (linux/dlm_plock.h), the fields that the code names. A C `int`
-- (`nodeid`, `rv`) is its 32-bit pattern.
pub record Info : Type 0 where
  pub version0 : ℕ
  pub version1 : ℕ
  pub version2 : ℕ
  pub optype : OpType
  pub ex : ℕ
  pub wait : ℕ
  pub pid : ℕ
  pub nodeid : ℕ
  pub rv : ℕ
  pub fsid : ℕ
  pub number : ℕ
  pub start : ℕ
  pub end : ℕ
  pub owner : ℕ

-- `memset(&info, 0, sizeof(info))`
abbrev pub zero_info : Info
zero_info = record {
  version0 = 0;
  version1 = 0;
  version2 = 0;
  optype = OpType.other 0;
  ex = 0;
  wait = 0;
  pid = 0;
  nodeid = 0;
  rv = 0;
  fsid = 0;
  number = 0;
  start = 0;
  end = 0;
  owner = 0;
}

-- `struct posix_lock`; `syncing` is the bit `P_SYNCING` of its flags.
pub record PosixLock : Type 0 where
  pub pid : ℕ
  pub owner : ℕ
  pub start : ℕ
  pub end : ℕ
  pub ex : ℕ
  pub nodeid : ℕ
  pub syncing : Bool

-- `struct lock_waiter`; `syncing` is the bit `P_SYNCING` of its flags.
pub record LockWaiter : Type 0 where
  pub syncing : Bool
  pub info : Info

-- `struct timeval`
pub record Timeval : Type 0 where
  pub sec : ℕ
  pub usec : ℕ

-- `struct resource`; `owner` is the pattern of an `int`, `got_unown` the bit `R_GOT_UNOWN`.
pub record Resource : Type 0 where
  pub number : ℕ
  pub owner : ℕ
  pub got_unown : Bool
  pub last_access : Timeval
  pub locks : List PosixLock
  pub waiters : List LockWaiter
  pub pending : List LockWaiter

-- The owner -1: not known yet.
abbrev pub unknown : ℕ
unknown = 4294967295

-- The return values: 0, 1, -1 and the negated error numbers.
pub data Rv : Type 0 where
  ok one minus_one eagain einprogress enomem einval enosys eexist enoent : Rv

-- The message types `DLM_MSG_PLOCK…` of group/dlm_controld/dlm_daemon.h; `unrelated` is
-- any other.
pub data MsgType : Type 0 where
  plock plock_own plock_drop plock_sync_lock plock_sync_waiter unrelated : MsgType

-- What the next calls of `malloc` answer; when the list is used up, they succeed.
abbrev pub Mem : Type 0
Mem = List Bool

unfoldable pub malloc : Mem → Bool × Mem
malloc [] = (true, [])
malloc (b ∷ m) = (b, m)

pub malloc_ok : (mem : Mem) → mem ≡ [] → ((malloc mem).0 ≡ true) × ((malloc mem).1 ≡ [])
unfolding malloc
malloc_ok [] h = (refl, refl)
malloc_ok (b ∷ mem) h = absurd cc

-- What the code does to the outside: a message to the group, with the bytes of its
-- `dlm_plock_info`, and a result written to the kernel, where the second value replaces `rv`.
pub data Effect : Type 0 where
  send : MsgType → Info → Effect
  write : Info → Rv → Effect

-- The settings and clocks that an event sees. `time` is the value of `time(NULL)`,
-- `mountgroup_name` what `get_mountgroup_name` reads in sysfs. The code never sets the flags of a new
-- `lock_waiter`, in memory that `malloc` has not cleared: `stale_flag` is the bit `P_SYNCING` that a
-- waiter for this request, put behind this list, finds there.
pub record Env : Type 0 where
  pub our_nodeid : ℕ
  pub plock_ownership : Bool
  pub enable_plock : Bool
  pub need_fsid_translation : Bool
  pub big_endian : Bool
  pub now : Timeval
  pub time : ℕ
  pub drop_resources_count : ℕ
  pub drop_resources_age : ℕ
  pub drop_resources_time : ℕ
  pub plock_rate_limit : ℕ
  pub mountgroup_name : ℕ → Option (List ℕ)
  pub stale_flag : List LockWaiter → Info → Bool

-- The counters and times at the top of plock.c; the counters are `uint32_t`.
pub record Stats : Type 0 where
  pub read_count : ℕ
  pub recv_count : ℕ
  pub rate_delays : ℕ
  pub read_time : Timeval
  pub recv_time : Timeval
  pub rate_last : Timeval

-- `x + 1` at `uint32_t`
abbrev pub succ_u32 : ℕ → ℕ
succ_u32 x = (x + 1) % 4294967296

-- The allocator, the effects so far, the counters, and `ls->last_plock_time` of each lockspace by
-- its `global_id`.
pub record World : Type 0 where
  pub mem : Mem
  pub effects : List Effect
  pub last_plock_time : ℕ → ℕ
  pub stats : Stats

-- `struct dlm_header`, the fields that the handlers read.
pub record Header : Type 0 where
  pub nodeid : ℕ
  pub type : MsgType

-- `struct save_msg`, with the header and the payload of its buffer.
pub record SaveMsg : Type 0 where
  pub type : MsgType
  pub header : Header
  pub payload : Info

-- `struct lockspace` (group/dlm_controld/dlm_daemon.h), the fields that the plock code uses.
pub record Lockspace : Type 0 where
  pub name : List ℕ
  pub global_id : ℕ
  pub associated_mg_id : ℕ
  pub save_plocks : Bool
  pub plock_resources : List Resource
  pub saved_messages : List SaveMsg
  pub last_checkpoint_time : ℕ
  pub drop_resources_last : Timeval

-- `time_diff_ms`: `timersub`, then milliseconds, at `unsigned long`.
unfoldable pub time_diff_ms : Timeval → Timeval → ℕ
time_diff_ms begin end =
    if ltb end.usec begin.usec
    then ((end.sec + u64_mod - begin.sec - 1) * 1000 + (end.usec + 1000000 - begin.usec) / 1000)
      % u64_mod
    else ((end.sec + u64_mod - begin.sec) * 1000 + (end.usec - begin.usec) / 1000) % u64_mod

-- `dt_usec`
unfoldable pub dt_usec : Timeval → Timeval → ℕ
dt_usec start stop =
    ((stop.sec + u64_mod - start.sec) * 1000000 + (stop.usec + u64_mod - start.usec)) % u64_mod

-- `ls->last_plock_time = time(NULL)`
unfoldable pub touch_plock_time : Env → Lockspace → World → World
touch_plock_time env ls w = record w {
  last_plock_time = λ id. if id == ls.global_id then env.time else w.last_plock_time id;
}
