-- ===== src/Deadlock/Locks.antt =====
-- group/dlm_controld/deadlock.c: locks of the distributed lock manager, as they are read from the
-- kernel and from the checkpoints of the other nodes.
use dlm.Base.{
  suc, zero, ℕ, Bool, true, false, not, ◌&&◌, ◌||◌, Option, none, some, List, [], ◌∷◌, ◌==◌,
  if◌then◌else◌, length,
}
use dlm.Plock.Types.{Mem, malloc}
use dlm.Plock.Wire.{le32, le64}

-- The modes of a lock, the rows of `__dlm_compat_matrix`.
pub data Mode : Type 0 where
  un nl cr cw pr pw ex pd : Mode

-- `dlm_modes_compat`
unfoldable pub modes_compat : Mode → Mode → Bool
modes_compat pd m = false
modes_compat m pd = false
modes_compat un m = true
modes_compat nl m = true
modes_compat m un = true
modes_compat m nl = true
modes_compat ex m = false
modes_compat m ex = false
modes_compat cr m = true
modes_compat m cr = true
modes_compat cw cw = true
modes_compat pr pr = true
modes_compat m m' = false

-- `LOCAL_COPY`, `MASTER_COPY`, or any other value.
pub data Copy : Type 0 where
  local_copy master_copy other_copy : Copy

-- `DLM_LKSTS_WAITING` … `DLM_LKSTS_CONVERT`, or any other value.
pub data Status : Type 0 where
  waiting granted convert other_status : Status

abbrev pub is_granted : Status → Bool
is_granted granted = true
is_granted s = false

abbrev pub is_waiting : Status → Bool
is_waiting waiting = true
is_waiting s = false

-- `struct pack_lock`; `mstcpy` is the bit `IFL_MSTCPY` of the flags, and the others are kept.
pub record PackLock : Type 0 where
  pub xid : ℕ
  pub id : ℕ
  pub nodeid : ℕ
  pub remid : ℕ
  pub ownpid : ℕ
  pub exflags : ℕ
  pub flags : ℕ
  pub status : Status
  pub grmode : Mode
  pub rqmode : Mode
  pub copy : Copy

-- `struct dlm_lkb`. Its `rsb` is the name of the resource, which no two resources share; its
-- `trans`, once it is set, is the transaction of its `xid`.
pub record Lkb : Type 0 where
  pub lock : PackLock
  pub home : ℕ
  pub rsb : List ℕ
  pub waitfor_trans : Option ℕ

-- After `memset`; mode 0 is NL.
abbrev pub no_lock : PackLock
no_lock = record {
  xid = 0;
  id = 0;
  nodeid = 0;
  remid = 0;
  ownpid = 0;
  exflags = 0;
  flags = 0;
  status = other_status;
  grmode = nl;
  rqmode = nl;
  copy = other_copy;
}

abbrev pub new_lkb : List ℕ → Lkb
new_lkb rsb = record { lock = no_lock; home = 0; rsb = rsb; waitfor_trans = none }

-- `struct dlm_rsb`
pub record Rsb : Type 0 where
  pub name : List ℕ
  pub locks : List Lkb

-- `strncmp` of two names of one length, which ends at a zero byte.
unfoldable pub strncmp_equal : List ℕ → List ℕ → Bool
strncmp_equal [] name = true
strncmp_equal (c ∷ cs) [] = true
strncmp_equal (c ∷ cs) (d ∷ ds) = c == d && (c == 0 || strncmp_equal cs ds)

abbrev pub is_rsb : List ℕ → Rsb → Bool
is_rsb name r = length r.name == length name && strncmp_equal r.name name

-- `get_resource` finds the resource.
unfoldable pub find_rsb : List Rsb → List ℕ → Option Rsb
unfolding strncmp_equal
find_rsb [] name = none
find_rsb (r ∷ rest) name = if is_rsb name r then some r else find_rsb rest name

unfoldable pub change_rsb : (Rsb → Rsb) → List ℕ → List Rsb → List Rsb
unfolding strncmp_equal
change_rsb f name [] = []
change_rsb f name (r ∷ rest) = if is_rsb name r then f r ∷ rest else r ∷ change_rsb f name rest

-- `get_resource`; false is no memory.
unfoldable pub get_resource : List Rsb → List ℕ → Mem → Bool × List Rsb × Mem
unfolding find_rsb malloc
get_resource rs name mem = elim (find_rsb rs name) [
  | some r ↦ (true, rs, mem)
  | none ↦
      let (given, mem') = malloc mem in
      if given then (true, record { name = name; locks = [] } ∷ rs, mem') else (false, rs, mem')
]

-- `set_copy`; `mstcpy` is the test of `IFL_MSTCPY` in the flags.
unfoldable pub set_copy : (ℕ → Bool) → ℕ → PackLock → PackLock
set_copy mstcpy our_nodeid lock =
    if lock.nodeid == 0
    then record lock { copy = local_copy }
    else if mstcpy lock.flags
    then record lock { copy = master_copy }
    else record lock { copy = master_copy; id = lock.remid; remid = lock.id; nodeid = our_nodeid }

abbrev pub partial_master_copy : PackLock → Bool
partial_master_copy lock = not (lock.xid == 0)

-- The lock that `get_lkb` looks for.
abbrev pub is_same_lock : PackLock → Lkb → Bool
is_same_lock lock lkb = lkb.lock.nodeid == lock.nodeid && lkb.lock.id == lock.id

unfoldable pub has_lock : PackLock → List Lkb → Bool
has_lock lock [] = false
has_lock lock (lkb ∷ rest) = is_same_lock lock lkb || has_lock lock rest

unfoldable pub change_lock : (Lkb → Lkb) → PackLock → List Lkb → List Lkb
change_lock f lock [] = []
change_lock f lock (lkb ∷ rest) =
    if is_same_lock lock lkb then f lkb ∷ rest else lkb ∷ change_lock f lock rest

-- The `switch` of `add_lock`.
unfoldable pub fill_lkb : ℕ → PackLock → Lkb → Lkb
fill_lkb from_nodeid lock lkb = elim lock.copy [
  | local_copy ↦ record lkb { lock = lock; home = from_nodeid }
  | master_copy ↦
      if partial_master_copy lock
      then record lkb {
        lock = record (lkb.lock) {
          xid = lock.xid;
          nodeid = lock.nodeid;
          id = lock.id;
          remid = lock.remid;
          copy = master_copy;
        };
        home = lock.nodeid;
      }
      else record lkb { lock = record lock { xid = lkb.lock.xid }; home = lock.nodeid }
  | other_copy ↦ lkb
]

abbrev pub is_master : Copy → Bool
is_master master_copy = true
is_master c = false

-- `get_lkb` and `add_lock`, on the locks of a resource.
unfoldable pub add_dlm_lock : List ℕ → ℕ → PackLock → List Lkb → Mem → List Lkb × Mem
unfolding has_lock change_lock fill_lkb malloc
add_dlm_lock rsb from_nodeid lock locks mem =
    if is_master lock.copy && has_lock lock locks
    then (change_lock (fill_lkb from_nodeid lock) lock locks, mem)
    else (let (given, mem') = malloc mem in
        (if given then fill_lkb from_nodeid lock (new_lkb rsb) ∷ locks else locks, mem'))

-- The lock of a line of debugfs, after `sscanf`.
pub record Line : Type 0 where
  pub lock : PackLock
  pub name : List ℕ

-- The loop of `read_debugfs_locks`, up to the first line that is not valid, `none`.
unfoldable pub read_lines : (ℕ → Bool) → ℕ → List (Option Line) → List Rsb → Mem → List Rsb × Mem
unfolding get_resource set_copy add_dlm_lock
read_lines mstcpy our_nodeid [] rs mem = (rs, mem)
read_lines mstcpy our_nodeid (none ∷ rest) rs mem = (rs, mem)
read_lines mstcpy our_nodeid (some line ∷ rest) rs mem =
    let (found, rs1, mem1) = get_resource rs line.name mem in
    elim found [
      | false ↦ (rs1, mem1)
      | true ↦ elim (find_rsb rs1 line.name) [
        | none ↦ (rs1, mem1)
        | some r ↦
            let (locks, mem2) =
              add_dlm_lock r.name our_nodeid (set_copy mstcpy our_nodeid line.lock) r.locks mem1 in
            read_lines mstcpy our_nodeid rest
              (change_rsb (λ r'. record r' { locks = locks }) line.name rs1) mem2
      ]
    ]

-- `read_debugfs_locks`; `none` is a file that cannot be opened, and false the result -1.
unfoldable pub read_debugfs_locks :
    (ℕ → Bool) → ℕ → Option (List (Option Line)) → List Rsb → Mem → Bool × List Rsb × Mem
unfolding read_lines
read_debugfs_locks mstcpy our_nodeid none rs mem = (false, rs, mem)
read_debugfs_locks mstcpy our_nodeid (some lines) rs mem =
    let (rs', mem') = read_lines mstcpy our_nodeid lines rs mem in (true, rs', mem')

-- A lock in the byte order of a checkpoint, which `pack_lkb_list` writes and
-- `read_checkpoint_locks` reads.
unfoldable pub lock_bswap : Bool → PackLock → PackLock
unfolding le32 le64
lock_bswap big lock = record lock {
  xid = le64 big lock.xid;
  id = le32 big lock.id;
  nodeid = le32 big lock.nodeid;
  remid = le32 big lock.remid;
  ownpid = le32 big lock.ownpid;
  exflags = le32 big lock.exflags;
  flags = le32 big lock.flags;
}

-- `pack_lkb_list`; `max` is `section_max`.
unfoldable pub pack_lkb_list : Bool → ℕ → List Lkb → List PackLock
pack_lkb_list big max [] = []
pack_lkb_list big zero (lkb ∷ rest) = []
pack_lkb_list big (suc max) (lkb ∷ rest) = lock_bswap big lkb.lock ∷ pack_lkb_list big max rest

-- The loop of `read_checkpoint_locks`.
unfoldable pub add_locks : Bool → List ℕ → ℕ → List PackLock → List Lkb → Mem → List Lkb × Mem
unfolding add_dlm_lock lock_bswap
add_locks big rsb from_nodeid [] locks mem = (locks, mem)
add_locks big rsb from_nodeid (lock ∷ rest) locks mem =
    let (locks', mem') = add_dlm_lock rsb from_nodeid (lock_bswap big lock) locks mem in
    add_locks big rsb from_nodeid rest locks' mem'

unfoldable pub read_checkpoint_locks :
    Bool → ℕ → List ℕ → List PackLock → List Rsb → Mem → List Rsb × Mem
unfolding get_resource add_locks
read_checkpoint_locks big from_nodeid name packed rs mem =
    let (found, rs1, mem1) = get_resource rs name mem in
    elim found [
      | false ↦ (rs1, mem1)
      | true ↦ elim (find_rsb rs1 name) [
        | none ↦ (rs1, mem1)
        | some r ↦
            let (locks, mem2) = add_locks big r.name from_nodeid packed r.locks mem1 in
            (change_rsb (λ r'. record r' { locks = locks }) name rs1, mem2)
      ]
    ]
