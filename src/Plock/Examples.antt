-- ===== src/Plock/Examples.antt =====
-- The theorems about group/dlm_controld/plock.c at concrete requests, and tests of its functions.
mod Nodes
use dlm.Base.{ℕ, ◌≤◌, ◌≡◌, ◌⊎◌, ◌↔◌, refl, true, false, none, List, [], ◌∷◌, ◌++◌, All, arith}
use dlm.Plock.Types.{
  OpType, Info, PosixLock, Resource, ok, malloc, Env, World, Lockspace, Timeval, zero_info,
}
use dlm.Plock.Wire.{info_bswap_in, info_bswap_out, info_bswap_in-info_bswap_out}
use dlm.Plock.Range.{ranges_overlap, overlap_type}
use dlm.Plock.Range.Geometry.{Relates, ranges_overlap_iff, overlap_type-Relates}
use dlm.Plock.Locks.{
  lock_for, add_lock, lock_case2, lock_internal, unlock_internal, is_conflict, find_conflict,
}
use dlm.Plock.Locks.View.{sum_at, count_at, ex_at, IsLock, IsRequest}
use dlm.Plock.Locks.Lock.{Granted, lock_internal-Granted}
use dlm.Plock.Locks.Unlock.{Released, unlock_internal-Released}
use dlm.Plock.Locks.Conflict.{Other, is_conflict-false, find_conflict-some}
use dlm.Plock.Locks.Valid.{Sound, lock_internal-Sound, unlock_internal-Sound}
use dlm.Plock.Locks.Table.{
  IsSafe, Single, lock_internal-IsSafe, unlock_internal-IsSafe, lock_internal-Single,
  unlock_internal-Single,
}
use dlm.Plock.Grant.{apply_plock}
use dlm.Plock.Grant.Safety.{IsSound, UnlessFreed, apply_plock-IsSound}

-- Process 7 of node 1 writes bytes 0 to 99, process 8 of node 2 reads bytes 200 to 299.
abbrev held_lock : PosixLock
held_lock = record { pid = 70; owner = 7; start = 0; end = 99; ex = 1; nodeid = 1; syncing = false }

abbrev far_lock : PosixLock
far_lock = record {
  pid = 80;
  owner = 8;
  start = 200;
  end = 299;
  ex = 0;
  nodeid = 2;
  syncing = false;
}

abbrev pub held_locks : List PosixLock
held_locks = held_lock ∷ far_lock ∷ []

-- Process 7 of node 1 asks for bytes 10 to 19.
abbrev pub inner_request : Info
inner_request = record zero_info {
  optype = OpType.lock;
  pid = 70;
  nodeid = 1;
  owner = 7;
  start = 10;
  end = 19;
  ex = 0;
}

-- A read lock inside a write lock splits it in three.
split_in_three : lock_internal [] held_locks inner_request ≡ record {
  locks =
      lock_for inner_request 0 10 19
      ∷ far_lock
      ∷ lock_for inner_request 1 0 9
      ∷ lock_for inner_request 1 20 99
      ∷ [];
  rv = ok;
  mem = [];
}
unfolding lock_internal add_lock malloc overlap_type lock_case2
split_in_three = refl

held_locks-valid : All IsLock held_locks
held_locks-valid = omega arith

pub inner_request-IsRequest : IsRequest inner_request
inner_request-IsRequest = omega arith

held_locks-Single : Single held_locks
unfolding sum_at
held_locks-Single n o x = ground arith

pub held_locks-IsSafe : IsSafe held_locks
unfolding sum_at
held_locks-IsSafe = record { valid = held_locks-valid; compatible = λ n o n' o' x ne. ground arith }

lock_internal-Granted_example :
    Granted
      (λ ex. ex)
      inner_request
      held_locks
      (lock_internal [] held_locks inner_request).locks
      1
      7
      15
unfolding lock_internal add_lock malloc overlap_type sum_at lock_case2
lock_internal-Granted_example =
    lock_internal-Granted (λ ex. ex) [] held_locks inner_request 1 7 15 held_locks-valid
      inner_request-IsRequest (omega arith) refl

unlock_internal-Released_example :
    Released
      (λ ex. ex)
      inner_request
      held_locks
      (unlock_internal [] held_locks inner_request).locks
      1
      7
      15
unfolding unlock_internal add_lock malloc overlap_type sum_at lock_case2
unlock_internal-Released_example =
    unlock_internal-Released (λ ex. ex) [] held_locks inner_request 1 7 15 held_locks-valid
      inner_request-IsRequest (omega arith) refl

lock_internal-IsSafe_example : IsSafe (lock_internal [] held_locks inner_request).locks
unfolding is_conflict find_conflict
lock_internal-IsSafe_example =
    lock_internal-IsSafe [] held_locks inner_request held_locks-IsSafe inner_request-IsRequest refl

unlock_internal-IsSafe_example :
    IsSafe (unlock_internal (false ∷ []) held_locks inner_request).locks
unlock_internal-IsSafe_example =
    unlock_internal-IsSafe (false ∷ []) held_locks inner_request held_locks-IsSafe
      inner_request-IsRequest

lock_internal-Single_example : Single (lock_internal [] held_locks inner_request).locks
unfolding lock_internal add_lock malloc overlap_type lock_case2
lock_internal-Single_example =
    lock_internal-Single [] held_locks inner_request held_locks-IsSafe inner_request-IsRequest
      held_locks-Single refl

unlock_internal-Single_example : Single (unlock_internal [] held_locks inner_request).locks
unfolding unlock_internal add_lock malloc overlap_type lock_case2
unlock_internal-Single_example =
    unlock_internal-Single [] held_locks inner_request held_locks-IsSafe inner_request-IsRequest
      held_locks-Single refl

lock_internal-Sound_example : Sound [] (lock_internal [] held_locks inner_request)
lock_internal-Sound_example =
    lock_internal-Sound [] held_locks inner_request held_locks-valid inner_request-IsRequest

unlock_internal-Sound_example : Sound [] (unlock_internal [] held_locks inner_request)
unlock_internal-Sound_example =
    unlock_internal-Sound [] held_locks inner_request held_locks-valid inner_request-IsRequest

ranges_overlap_iff_example :
    (ranges_overlap 10 19 0 99 ≡ true) ↔ ((x : ℕ) × (10 ≤ x) × (x ≤ 19) × (0 ≤ x) × (x ≤ 99))
ranges_overlap_iff_example = ranges_overlap_iff 10 19 0 99 (omega arith) (omega arith)

overlap_type-Relates_example : Relates (overlap_type 10 19 0 99) 10 19 0 99
overlap_type-Relates_example = overlap_type-Relates 10 19 0 99

abbrev writer : Info
writer = record zero_info {
  optype = OpType.lock;
  pid = 90;
  nodeid = 3;
  owner = 9;
  start = 250;
  end = 400;
  ex = 1;
}

writer-IsRequest : IsRequest writer
writer-IsRequest = omega arith

find_conflict-some_example :
    ((before : List PosixLock) × (after : List PosixLock) × (held_locks
        ≡ before ++ far_lock ∷ after))
    × Other writer 2 8
    × ((writer.ex ≡ 0 → ⊥) ⊎ (far_lock.ex ≡ 0 → ⊥))
    × ((x : ℕ) × (250 ≤ x) × (x ≤ 400) × (200 ≤ x) × (x ≤ 299) × (1 ≤ count_at held_locks 2 8 x))
unfolding find_conflict
find_conflict-some_example =
    find_conflict-some held_locks writer far_lock held_locks-valid writer-IsRequest refl

is_conflict-false_example :
    (count_at held_locks 2 8 15 ≡ 0) ⊎ ((inner_request.ex ≡ 0) × (ex_at held_locks 2 8 15 ≡ 0))
unfolding is_conflict find_conflict
is_conflict-false_example =
    is_conflict-false held_locks inner_request 2 8 15 refl (λ a b. omega arith) (omega arith)
      (omega arith)

info_bswap_in-info_bswap_out_example :
    info_bswap_in true (info_bswap_out true inner_request) ≡ inner_request
info_bswap_in-info_bswap_out_example = info_bswap_in-info_bswap_out true inner_request (omega arith)

abbrev at_start : Timeval
at_start = record { sec = 0; usec = 0 }

abbrev pub node_1 : Env
node_1 = record {
  our_nodeid = 1;
  plock_ownership = false;
  enable_plock = true;
  need_fsid_translation = false;
  big_endian = false;
  now = at_start;
  time = 5;
  drop_resources_count = 10;
  drop_resources_age = 10000;
  drop_resources_time = 10000;
  plock_rate_limit = 100;
  mountgroup_name = λ id. none;
  stale_flag = λ waiters i. false;
}

abbrev pub quiet : World
quiet = record {
  mem = [];
  effects = [];
  last_plock_time = λ id. 0;
  stats = record {
    read_count = 0;
    recv_count = 0;
    rate_delays = 0;
    read_time = at_start;
    recv_time = at_start;
    rate_last = at_start;
  };
}

abbrev pub file_100 : Resource
file_100 = record {
  number = 100;
  owner = 0;
  got_unown = false;
  last_access = at_start;
  locks = held_locks;
  waiters = [];
  pending = [];
}

abbrev pub fs : Lockspace
fs = record {
  name = 102 ∷ [];
  global_id = 1;
  associated_mg_id = 0;
  save_plocks = false;
  plock_resources = file_100 ∷ [];
  saved_messages = [];
  last_checkpoint_time = 0;
  drop_resources_last = at_start;
}

apply_plock-IsSound_example :
    UnlessFreed IsSound (apply_plock node_1 fs inner_request 1 file_100 quiet).0
apply_plock-IsSound_example =
    apply_plock-IsSound node_1 fs inner_request 1 file_100 quiet
      (record { safe = held_locks-IsSafe; queue = tt }) inner_request-IsRequest
