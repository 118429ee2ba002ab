-- ===== src/Daemon/Requests.antt =====
-- group/dlm_controld/main.c: uevents of the kernel, requests of clients, and the poll loop.
use dlm.Base.{
  ℕ, zero, suc, ◌/◌, Bool, true, false, not, ◌&&◌, ◌||◌, Option, none, some, List, [], ◌∷◌, ◌==◌,
  if◌then◌else◌, is_empty,
}
use dlm.Plock.Types.{Mem, malloc}
use dlm.Plock.Device.{same_name}
use dlm.Group.Types.{Space}
use dlm.Group.History.{set_fs_notified, Notified, done}
use dlm.Group.History as History
use dlm.Daemon.Clients.{
  process_listener, process_connection, process_uevent, process_lockspace_cpg, client_dead_fn,
  Client, slot, client_dead, client_add,
}
use dlm.Daemon.Spaces.{
  Answer, zero_answer, enoent, esrch, eagain, reply, crash, cycle_start, Daemon, tell, find_space,
  change_space, find_ls_ci, remove_space, fs_register_check, fs_register_add, first_bytes,
  fs_register_del, new_space, JoinEnv, dlm_join_lockspace, dlm_leave_lockspace,
}

-- A text up to its first '/', and what is behind that.
unfoldable pub cut : List ℕ → List ℕ × Option (List ℕ)
cut [] = ([], none)
cut (c ∷ cs) =
    let (before, after) = cut cs in if c == b'/' then ([], some cs) else (c ∷ before, after)

-- `get_args` at '/', for one more argument than its first argument; the last ends at a '/', too.
unfoldable pub get_args : ℕ → List ℕ → List (List ℕ)
unfolding cut
get_args zero text = (cut text).0 ∷ []
get_args (suc n) text = elim (cut text).1 [
  | none ↦ (cut text).0 ∷ []
  | some rest ↦ (cut text).0 ∷ get_args n rest
]

-- The uevent "online@".
unfoldable pub online : JoinEnv → List ℕ → Daemon → Daemon
unfolding find_space fs_register_check first_bytes malloc dlm_join_lockspace
online env name d = elim (find_space name d.spaces) [
  | some ls ↦ d
  | none ↦
      let (given, mem) = malloc d.mem in
      let ls = new_space name in
      if not given
      then record d { mem = mem }
      else (dlm_join_lockspace env
          (record ls { fs_registered = fs_register_check ls.plocks.name d.registered })
          (record d { mem = mem })).1
]

-- The uevent "offline@".
unfoldable pub offline : List ℕ → Daemon → Daemon
unfolding find_space dlm_leave_lockspace
offline name d = elim (find_space name d.spaces) [ none ↦ d | some ls ↦ dlm_leave_lockspace ls d ]

abbrev pub online_text : List ℕ
online_text = b'o' ∷ b'n' ∷ b'l' ∷ b'i' ∷ b'n' ∷ b'e' ∷ b'@' ∷ []

abbrev pub offline_text : List ℕ
offline_text = b'o' ∷ b'f' ∷ b'f' ∷ b'l' ∷ b'i' ∷ b'n' ∷ b'e' ∷ b'@' ∷ []

abbrev pub dlm_text : List ℕ
dlm_text = b'd' ∷ b'l' ∷ b'm' ∷ []

-- `strstr` of "dlm", in a text and in the arguments of one that has fewer than four.
unfoldable pub mentions_dlm : List ℕ → Bool
mentions_dlm (a ∷ b ∷ c ∷ rest) =
    (a == b'd' && (b == b'l' && c == b'm')) || mentions_dlm (b ∷ c ∷ rest)
mentions_dlm _ = false

unfoldable pub some_mentions_dlm : List (List ℕ) → Bool
unfolding mentions_dlm
some_mentions_dlm [] = false
some_mentions_dlm (arg ∷ rest) = mentions_dlm arg || some_mentions_dlm rest

-- The two events without a name: `find_ls` compares a NULL pointer with the names that there are, and
-- `create_ls` copies from one when it has memory.
unfoldable pub nameless : List ℕ → Daemon → Daemon
unfolding malloc same_name
nameless act d =
    if same_name act online_text
    then (if is_empty d.spaces && not (malloc d.mem).0
        then record d { mem = (malloc d.mem).1 }
        else tell crash d)
    else if same_name act offline_text && not (is_empty d.spaces)
    then tell crash d
    else d

-- `process_uevent`, on the arguments; `strlen` reads from a third that is NULL.
unfoldable pub kernel_event : JoinEnv → List (List ℕ) → Daemon → Daemon
unfolding same_name online offline nameless some_mentions_dlm
kernel_event env (act ∷ kernel ∷ sys ∷ name ∷ rest) d =
    if not (same_name sys dlm_text)
    then d
    else if same_name act online_text
    then online env name d
    else if same_name act offline_text
    then offline name d
    else d
kernel_event env (act ∷ kernel ∷ sys ∷ []) d = if same_name sys dlm_text then nameless act d else d
kernel_event env args d = if some_mentions_dlm args then tell crash d else d

-- `struct dlmc_header`, with what the read of the bytes behind it answers, if there are some.
pub record Request : Type 0 where
  pub magic : ℕ
  pub version : ℕ
  pub extra : Option Bool
  pub command : ℕ
  pub payload : ℕ
  pub name : List ℕ

-- The buffer for the bytes behind the header; `false` is `goto out`.
unfoldable pub read_extra : Option Bool → Mem → Bool × Mem
unfolding malloc
read_extra none mem = (true, mem)
read_extra (some read) mem = let (given, mem') = malloc mem in (if given then read else false, mem')

-- `do_reply`, with the descriptor of the client.
unfoldable pub do_reply : ℕ → ℕ → List ℕ → Answer → ℕ → Daemon → Daemon
unfolding malloc slot
do_reply ci command name result option d =
    let (given, mem) = malloc d.mem in
    let d' = record d { mem = mem } in
    if not given then d' else elim (slot d.table.clients ci) [
      | none ↦ d'
      | some c ↦ tell (reply c.fd command name result option) d'
    ]

abbrev pub answer_of : Notified → Answer
answer_of done = zero_answer
answer_of History.esrch = esrch
answer_of History.eagain = eagain

-- The result of `DLMC_CMD_FS_NOTIFIED`.
abbrev pub notified_answer : ℕ → Option Space → Answer
notified_answer nodeid none = enoent
notified_answer nodeid (some ls) = answer_of (set_fs_notified nodeid ls.node_history).1

abbrev pub set_registered : Bool → List ℕ → Daemon → Daemon
set_registered b name d = record d {
  spaces = change_space name (λ ls. record ls { fs_registered = b }) d.spaces;
}

-- The four commands.
unfoldable pub fs_register : ℕ → List ℕ → Daemon → Daemon
unfolding fs_register_add change_space do_reply
fs_register ci name d =
    let (rv, d') = fs_register_add name d in do_reply ci 7 name rv 0 (set_registered true name d')

unfoldable pub fs_unregister : List ℕ → Daemon → Daemon
unfolding fs_register_del change_space
fs_unregister name d =
    set_registered false name (record d { registered = fs_register_del name d.registered })

unfoldable pub fs_notified : ℕ → List ℕ → ℕ → Daemon → Daemon
unfolding find_space set_fs_notified change_space do_reply
fs_notified ci name nodeid d =
    do_reply ci 9 name (notified_answer nodeid (find_space name d.spaces)) nodeid (record d {
      spaces =
          change_space name
            (λ ls. record ls { node_history = (set_fs_notified nodeid ls.node_history).0 })
            d.spaces;
    })

unfoldable pub deadlock_check : ℕ → List ℕ → Daemon → Daemon
unfolding find_space client_dead
deadlock_check ci name d =
    let d' : Daemon = elim (find_space name d.spaces) [
      | none ↦ d
      | some ls ↦ tell (cycle_start ls.plocks.name) d
    ] in
    record d' { table = client_dead ci d'.table }

-- The `switch` of `process_connection`.
unfoldable pub do_command : ℕ → Request → Daemon → Daemon
unfolding fs_register fs_unregister fs_notified deadlock_check
do_command ci h d =
    if h.command == 7
    then fs_register ci h.name d
    else if h.command == 8
    then fs_unregister h.name d
    else if h.command == 9
    then fs_notified ci h.name h.payload d
    else if h.command == 10
    then deadlock_check ci h.name d
    else d

-- `process_connection`; `none` is a header that cannot be read. `DLMC_MAGIC` and the upper half of
-- `DLMC_VERSION` are compared.
unfoldable pub serve_connection : ℕ → Option Request → Daemon → Daemon
unfolding read_extra do_command
serve_connection ci none d = d
serve_connection ci (some h) d =
    if not (h.magic == 0xd13cd13c)
    then d
    else if not (h.version / 65536 == 1)
    then d
    else (let (ok, mem) = read_extra h.extra d.mem in
        let d' = record d { mem = mem } in if ok then do_command ci h d' else d')

-- `process_listener`, with the result of `accept`.
unfoldable pub accept_client : Option ℕ → Daemon → Daemon
unfolding client_add
accept_client none d = d
accept_client (some fd) d = elim (client_add fd process_connection none d.table) [
  | none ↦ d
  | some (ci, table) ↦ record d { table = table }
]

-- `process_lockspace_cpg`, when `confchg_cb` finds the change in which the node leaves: what it does
-- to the two lists.
unfoldable pub forget_space : ℕ → Daemon → Daemon
unfolding find_ls_ci remove_space client_dead
forget_space ci d = elim (find_ls_ci ci d.spaces) [
  | none ↦ d
  | some ls ↦
      if ls.leaving
      then record d { table = client_dead ci d.table; spaces = remove_space ci d.spaces }
      else d
]

-- What a poll finds at a client: a request, a connection, a uevent, the change in which the node
-- leaves a group, or an error.
pub data Input : Type 0 where
  request : Option Request → Input
  connected : Option ℕ → Input
  uevent : List ℕ → Input
  left_group hangup : Input

-- The calls of `workfn` and `deadfn`.
unfoldable pub run_work : JoinEnv → ℕ → Client → Input → Daemon → Daemon
unfolding serve_connection accept_client kernel_event get_args forget_space client_dead
run_work env ci c (request h) d = elim c.work [
  | some process_connection ↦ serve_connection ci h d
  | _ ↦ d
]
run_work env ci c (connected fd) d = elim c.work [
  | some process_listener ↦ accept_client fd d
  | _ ↦ d
]
run_work env ci c (uevent text) d = elim c.work [
  | some process_uevent ↦ kernel_event env (get_args 3 text) d
  | _ ↦ d
]
run_work env ci c left_group d = elim c.work [
  | some process_lockspace_cpg ↦ forget_space ci d
  | _ ↦ d
]
run_work env ci c hangup d = elim c.dead [
  | some client_dead_fn ↦ record d { table = client_dead ci d.table }
  | _ ↦ d
]

-- The loop of `loop` over the clients, at one of them.
unfoldable pub serve_client : JoinEnv → ℕ → Input → Daemon → Daemon
unfolding run_work slot
serve_client env ci input d = elim (slot d.table.clients ci) [
  | none ↦ d
  | some c ↦ elim c.fd [ none ↦ d | some fd ↦ run_work env ci c input d ]
]
