-- ===== src/Daemon/Spaces.antt =====
-- group/dlm_controld/main.c: the lockspaces and the registered file systems; dlm_join_lockspace and
-- dlm_leave_lockspace of group/dlm_controld/cpg.c.
use dlm.Base.{
  ℕ, zero, suc, Bool, true, false, not, ◌&&◌, Option, none, some, List, [], ◌∷◌, ◌++◌, ◌==◌,
  if◌then◌else◌,
}
use dlm.Plock.Types.{Mem, malloc}
use dlm.Plock.Device.{same_name}
use dlm.Group.Types.{Space}
use dlm.Daemon.Crc.{cpgname_to_crc}
use dlm.Daemon.Clients.{Table, process_lockspace_cpg, client_add, client_dead}

-- 0, and the negated error numbers.
pub data Answer : Type 0 where
  zero_answer minus_one ealready enomem enoent esrch eagain : Answer

-- What the daemon does to the outside: a reply to a client, the result of a uevent to the kernel,
-- calls of the group communication service, and the start of the deadlock detection. `crash` is a
-- read from a NULL pointer, behind which the state means nothing.
pub data DaemonOut : Type 0 where
  reply : Option ℕ → ℕ → List ℕ → Answer → ℕ → DaemonOut
  crash : DaemonOut
  event_done : List ℕ → Answer → DaemonOut
  cpg_finalize cpg_leave : ℕ → DaemonOut
  cycle_start : List ℕ → DaemonOut

-- `lockspaces`, `fs_register_list` and the clients, with the allocator and the outputs. `stale` is what
-- the memory of the next `struct fs_reg`, which is not cleared, holds up to a 0 behind the bytes that
-- `strncpy` writes into its name.
pub record Daemon : Type 0 where
  pub spaces : List Space
  pub registered : List (List ℕ)
  pub table : Table
  pub mem : Mem
  pub out : List DaemonOut
  pub stale : List (List ℕ) → List ℕ

abbrev pub tell : DaemonOut → Daemon → Daemon
tell o d = record d { out = d.out ++ o ∷ [] }

-- `find_ls`
unfoldable pub find_space : List ℕ → List Space → Option Space
unfolding same_name
find_space name [] = none
find_space name (ls ∷ rest) =
    if same_name ls.plocks.name name then some ls else find_space name rest

-- Writes to the lockspace that `find_ls` finds.
unfoldable pub change_space : List ℕ → (Space → Space) → List Space → List Space
unfolding same_name
change_space name f [] = []
change_space name f (ls ∷ rest) =
    if same_name ls.plocks.name name then f ls ∷ rest else ls ∷ change_space name f rest

-- `find_ls_ci`
unfoldable pub find_ls_ci : ℕ → List Space → Option Space
find_ls_ci ci [] = none
find_ls_ci ci (ls ∷ rest) = if ls.cpg_client == ci then some ls else find_ls_ci ci rest

-- `list_del` of the lockspace that `find_ls_ci` finds.
unfoldable pub remove_space : ℕ → List Space → List Space
remove_space ci [] = []
remove_space ci (ls ∷ rest) = if ls.cpg_client == ci then rest else ls ∷ remove_space ci rest

-- `strncpy` into a name, of DLM_LOCKSPACE_LEN bytes at most.
unfoldable pub first_bytes : ℕ → List ℕ → List ℕ
first_bytes zero name = []
first_bytes (suc n) [] = []
first_bytes (suc n) (c ∷ cs) = c ∷ first_bytes n cs

abbrev pub copy_name : List ℕ → List ℕ
copy_name = first_bytes 64

-- `strncpy` of DLM_LOCKSPACE_LEN bytes into memory that is not cleared, read as a string: a shorter
-- name is ended by the copy, any other goes on with what is there.
unfoldable pub stale_copy : ℕ → List ℕ → List ℕ → List ℕ
stale_copy zero name stale = stale
stale_copy (suc n) [] stale = []
stale_copy (suc n) (c ∷ cs) stale = c ∷ stale_copy n cs stale

unfoldable pub fs_register_check : List ℕ → List (List ℕ) → Bool
unfolding same_name
fs_register_check name [] = false
fs_register_check name (fs ∷ rest) = if same_name name fs then true else fs_register_check name rest

unfoldable pub fs_register_add : List ℕ → Daemon → Answer × Daemon
unfolding fs_register_check malloc stale_copy
fs_register_add name d =
    if fs_register_check name d.registered
    then (ealready, d)
    else (let (given, mem) = malloc d.mem in
        if not given then (enomem, record d { mem = mem }) else (
          zero_answer,
          record d {
            mem = mem;
            registered = stale_copy 64 name (d.stale d.registered) ∷ d.registered;
          },
        ))

unfoldable pub fs_register_del : List ℕ → List (List ℕ) → List (List ℕ)
unfolding same_name
fs_register_del name [] = []
fs_register_del name (fs ∷ rest) =
    if same_name name fs then rest else fs ∷ fs_register_del name rest

-- A cleared lockspace with its name, as `create_ls` makes it.
abbrev pub new_space : List ℕ → Space
new_space name = record {
  plocks = record {
    name = copy_name name;
    global_id = 0;
    associated_mg_id = 0;
    save_plocks = false;
    plock_resources = [];
    saved_messages = [];
    last_checkpoint_time = 0;
    drop_resources_last = record { sec = 0; usec = 0 };
  };
  cpg_handle = 0;
  cpg_client = 0;
  joining = false;
  leaving = false;
  kernel_stopped = false;
  fs_registered = false;
  change_seq = 0;
  started_count = 0;
  started_change = none;
  changes = [];
  node_history = [];
  plock_ckpt_node = 0;
  need_plocks = false;
}

-- The answers of a call of `cpg_join`: CPG_OK, CPG_ERR_TRY_AGAIN, or another error.
pub data CpgAnswer : Type 0 where
  cpg_ok try_again cpg_error : CpgAnswer

-- What a join finds: the settings, whether `fence_in_progress` succeeds, the handle and the
-- descriptor of `cpg_initialize` unless it fails, and the answers to the calls of `cpg_join`.
pub record JoinEnv : Type 0 where
  pub enable_fencing : Bool
  pub fence_domain : Bool
  pub cpg_initialize : Option (ℕ × ℕ)
  pub join_answers : List CpgAnswer

-- The loop around `cpg_join`, over its answers, the last of which is the result.
unfoldable pub cpg_join : List CpgAnswer → Bool
cpg_join [] = true
cpg_join (cpg_ok ∷ rest) = true
cpg_join (try_again ∷ rest) = cpg_join rest
cpg_join (cpg_error ∷ rest) = false

-- The name of a lockspace's group, with the byte that ends it.
abbrev pub group_name : List ℕ → List ℕ
group_name name = b'd' ∷ b'l' ∷ b'm' ∷ b':' ∷ b'l' ∷ b's' ∷ b':' ∷ (name ++ 0 ∷ [])

-- What `dlm_join_lockspace` writes to its lockspace.
abbrev pub joining_space : Space → ℕ → ℕ → Space
joining_space ls h ci = record ls {
  cpg_handle = h;
  cpg_client = ci;
  kernel_stopped = true;
  need_plocks = true;
  joining = true;
  plocks = record (ls.plocks) { global_id = cpgname_to_crc (group_name ls.plocks.name) };
}

-- `dlm_join_lockspace` once it has a client: `list_add`, `cpg_join`, and the label `fail`, where
-- `list_del` takes the lockspace out again.
unfoldable pub join_group : List CpgAnswer → ℕ → Space → ℕ × Table → Daemon → Bool × Daemon
unfolding cpg_join client_dead
join_group answers h ls (ci, table) d =
    if cpg_join answers
    then (true, record d { table = table; spaces = joining_space ls h ci ∷ d.spaces })
    else (
      false,
      tell (event_done ls.plocks.name minus_one) (
          tell (cpg_finalize h)
            (tell (cpg_finalize h) (record d { table = client_dead ci table }))),
    )

-- `dlm_join_lockspace`; `false` is a lockspace that is freed.
unfoldable pub dlm_join_lockspace : JoinEnv → Space → Daemon → Bool × Daemon
unfolding join_group client_add
dlm_join_lockspace env ls d =
    if env.enable_fencing && not env.fence_domain
    then (false, tell (event_done ls.plocks.name minus_one) d)
    else elim env.cpg_initialize [
      | none ↦ (false, tell (event_done ls.plocks.name minus_one) d)
      | some (h, fd) ↦ elim (client_add fd process_lockspace_cpg none d.table) [
        | none ↦ (false, d)
        | some added ↦ join_group env.join_answers h ls added d
      ]
    ]

-- `dlm_leave_lockspace`; errors of `cpg_leave` are only logged.
unfoldable pub dlm_leave_lockspace : Space → Daemon → Daemon
unfolding change_space
dlm_leave_lockspace ls d =
    tell (cpg_leave ls.cpg_handle) (record d {
      spaces = change_space ls.plocks.name (λ l. record l { leaving = true }) d.spaces;
    })
