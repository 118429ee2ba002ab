-- ===== src/Daemon/Trace.antt =====
-- group/dlm_controld/main.c: the lists of the daemon after any number of calls of the poll loop.
use dlm.Base.{
  ℕ, ◌/◌, ◌<◌, ◌≤◌, ◌≡◌, refl, ap, ◌∙◌, true, false, Option, none, some, List, [], ◌∷◌, ◌==◌, arith,
  Bool-cases, Option-cases, inl, inr, length, All,
}
use dlm.Plock.Device.{same_name}
use dlm.Plock.Names.{same_name→eq}
use dlm.Daemon.Clients.{
  Work, process_listener, process_connection, process_uevent, process_lockspace_cpg, other_work,
  Dead, client_dead_fn, Client, slot, client_dead,
}
use dlm.Daemon.Spaces.{Daemon, tell, cycle_start, find_space, JoinEnv}
use dlm.Daemon.Requests.{
  get_args, online_text, offline_text, dlm_text, mentions_dlm, some_mentions_dlm, kernel_event,
  Request, read_extra, deadlock_check, do_command, serve_connection, accept_client, forget_space,
  Input, request, connected, uevent, left_group, hangup, run_work, serve_client,
}
use dlm.Daemon.Slots.{passes, is_group}
use dlm.Daemon.Consistent.{IsConsistent}
use dlm.Daemon.Registered.{
  outside-IsConsistent, fs_register-IsConsistent, fs_unregister-IsConsistent,
  fs_notified-IsConsistent,
}
use dlm.Daemon.Joined.{online-IsConsistent, offline-IsConsistent, forget_space-IsConsistent}
use dlm.Daemon.Steps.{client_dead-IsConsistent, accept_client-IsConsistent}

deadlock_check-IsConsistent :
    (ci : ℕ) (name : List ℕ) (d : Daemon)
    → passes is_group (slot d.table.clients ci) ≡ false
    → IsConsistent d
    → IsConsistent (deadlock_check ci name d)
unfolding deadlock_check
deadlock_check-IsConsistent ci name d off c = elim (Option-cases (find_space name d.spaces)) [
  | inl e ↦ rw (e, deadlock_check) (client_dead-IsConsistent ci d off c)
  | inr (ls, e) ↦
      rw (e, deadlock_check)
        (client_dead-IsConsistent ci (tell (cycle_start ls.plocks.name) d) off
          (outside-IsConsistent d d.mem _ c))
]

do_command-IsConsistent :
    (ci : ℕ) (h : Request) (d : Daemon)
    → passes is_group (slot d.table.clients ci) ≡ false
    → length h.name < 64
    → IsConsistent d
    → IsConsistent (do_command ci h d)
unfolding do_command
do_command-IsConsistent ci h d off short c = elim (Bool-cases (h.command == 7)) [
  | inl y ↦ rw (y, do_command) (fs_register-IsConsistent ci h.name d short c)
  | inr n7 ↦ elim (Bool-cases (h.command == 8)) [
    | inl y ↦ rw (n7, y, do_command) (fs_unregister-IsConsistent h.name d c)
    | inr n8 ↦ elim (Bool-cases (h.command == 9)) [
      | inl y ↦ rw (n7, n8, y, do_command) (fs_notified-IsConsistent ci h.name h.payload d c)
      | inr n9 ↦ elim (Bool-cases (h.command == 10)) [
        | inl y ↦ rw (n7, n8, n9, y, do_command) (deadlock_check-IsConsistent ci h.name d off c)
        | inr n10 ↦ rw (n7, n8, n9, n10, do_command) c
      ]
    ]
  ]
]

serve_connection-IsConsistent :
    (ci : ℕ) (h : Request) (d : Daemon)
    → passes is_group (slot d.table.clients ci) ≡ false
    → length h.name < 64
    → IsConsistent d
    → IsConsistent (serve_connection ci (some h) d)
unfolding serve_connection
serve_connection-IsConsistent ci h d off short c = elim (Bool-cases (h.magic == 0xd13cd13c)) [
  | inr n ↦ rw (n, serve_connection) c
  | inl y ↦ elim (Bool-cases (h.version / 65536 == 1)) [
    | inr n ↦ rw (y, n, serve_connection) c
    | inl v ↦
        let r = read_extra h.extra d.mem in
        let c' = outside-IsConsistent d r.1 d.out c in
        elim (Bool-cases r.0) [
          | inr n ↦ rw (y, v, n, serve_connection) c'
          | inl k ↦
              rw (y, v, k, serve_connection)
                (do_command-IsConsistent ci h (record d { mem = r.1 }) off short c')
        ]
  ]
]

-- A uevent about dlm has four parts.
abbrev pub HasParts : List (List ℕ) → Type 0
HasParts args = some_mentions_dlm args ≡ true → 4 ≤ length args

-- The names that clients send are shorter than DLM_LOCKSPACE_LEN, the parts of a uevent fit it
-- and are four if it is about dlm, and the group communication service does not hang up on a lockspace.
abbrev pub IsUsual : ℕ → Input → Daemon → Type 0
IsUsual ci (request none) d = Unit
IsUsual ci (request (some h)) d = length h.name < 64
IsUsual ci (connected fd) d = Unit
IsUsual ci (uevent text) d = All (λ a. length a ≤ 64) (get_args 3 text) × HasParts (get_args 3 text)
IsUsual ci left_group d = Unit
IsUsual ci hangup d = passes is_group (slot d.table.clients ci) ≡ false

four_of_one : 4 ≤ 1 → ⊥
four_of_one h = omega arith

four_of_two : 4 ≤ 2 → ⊥
four_of_two h = omega arith

four_of_three : 4 ≤ 3 → ⊥
four_of_three h = omega arith

dlm-mention : (sys : List ℕ) → same_name sys dlm_text ≡ true → mentions_dlm sys ≡ true
unfolding mentions_dlm
dlm-mention sys h = rw (same_name→eq sys dlm_text h) refl

three-mention :
    (act kernel sys : List ℕ)
    → same_name sys dlm_text ≡ true
    → some_mentions_dlm (act ∷ kernel ∷ sys ∷ []) ≡ true
unfolding some_mentions_dlm
three-mention act kernel sys h = let m = dlm-mention sys h in ground arith

kernel_event-IsConsistent :
    (env : JoinEnv) (args : List (List ℕ)) (d : Daemon)
    → All (λ a. length a ≤ 64) args
    → HasParts args
    → IsConsistent d
    → IsConsistent (kernel_event env args d)
unfolding kernel_event
kernel_event-IsConsistent env (act ∷ kernel ∷ sys ∷ name ∷ rest) d h k c =
    elim (Bool-cases (same_name sys dlm_text)) [
      | inr n ↦ rw (n, kernel_event) c
      | inl y ↦ elim (Bool-cases (same_name act online_text)) [
        | inl on ↦ rw (y, on, kernel_event) (online-IsConsistent env name d h.1.1.1.0 c)
        | inr n ↦ elim (Bool-cases (same_name act offline_text)) [
          | inl off ↦ rw (y, n, off, kernel_event) (offline-IsConsistent name d c)
          | inr n' ↦ rw (y, n, n', kernel_event) c
        ]
      ]
    ]
kernel_event-IsConsistent env [] d h k c = c
kernel_event-IsConsistent env (act ∷ []) d h k c =
    elim (Bool-cases (some_mentions_dlm (act ∷ []))) [
      | inl y ↦ absurd (four_of_one (k y))
      | inr n ↦ rw (n, kernel_event) c
    ]
kernel_event-IsConsistent env (act ∷ kernel ∷ []) d h k c =
    elim (Bool-cases (some_mentions_dlm (act ∷ kernel ∷ []))) [
      | inl y ↦ absurd (four_of_two (k y))
      | inr n ↦ rw (n, kernel_event) c
    ]
kernel_event-IsConsistent env (act ∷ kernel ∷ sys ∷ []) d h k c =
    elim (Bool-cases (same_name sys dlm_text)) [
      | inl y ↦ absurd (four_of_three (k (three-mention act kernel sys y)))
      | inr n ↦ rw (n, kernel_event) c
    ]

-- A client whose function is that for connections is not one of a lockspace.
connection-ne-group : (c : Client) → c.work ≡ some process_connection → is_group c ≡ false
connection-ne-group c h = elim (Option-cases c.fd) [
  | inl e ↦ ground (arith, e)
  | inr (fd, e) ↦ ground (arith, e, h)
]

module _ (env : JoinEnv) (ci : ℕ) (d : Daemon) (c : IsConsistent d) where
  request-IsConsistent :
      (h : Option Request) (client : Client) (work : Option Work)
      → slot d.table.clients ci ≡ some client
      → client.work ≡ work
      → IsUsual ci (request h) d
      → let d' : Daemon = elim work [ some process_connection ↦ serve_connection ci h d | _ ↦ d ] in
        IsConsistent d'
  unfolding serve_connection
  request-IsConsistent none client (some process_connection) at e u = c
  request-IsConsistent (some h) client (some process_connection) at e u =
      serve_connection-IsConsistent ci h d (ap (passes is_group) at ∙ connection-ne-group client e)
        u c
  request-IsConsistent h client none at e u = c
  request-IsConsistent h client (some process_listener) at e u = c
  request-IsConsistent h client (some process_uevent) at e u = c
  request-IsConsistent h client (some process_lockspace_cpg) at e u = c
  request-IsConsistent h client (some other_work) at e u = c

  run_work-IsConsistent :
      (client : Client) (input : Input)
      → slot d.table.clients ci ≡ some client
      → IsUsual ci input d
      → IsConsistent (run_work env ci client input d)
  unfolding run_work
  run_work-IsConsistent client (request h) at u =
      request-IsConsistent h client client.work at refl u
  run_work-IsConsistent client (connected fd) at u = by_work client.work
    where
      by_work :
          (work : Option Work)
          → let d' : Daemon = elim work [ some process_listener ↦ accept_client fd d | _ ↦ d ] in
            IsConsistent d'
      by_work (some process_listener) = accept_client-IsConsistent fd d c
      by_work _ = c
  run_work-IsConsistent client (uevent text) at u = by_work client.work
    where
      by_work :
          (work : Option Work)
          → let d' : Daemon = elim work [
            | some process_uevent ↦ kernel_event env (get_args 3 text) d
            | _ ↦ d
          ] in
            IsConsistent d'
      by_work (some process_uevent) = kernel_event-IsConsistent env (get_args 3 text) d u.0 u.1 c
      by_work _ = c
  run_work-IsConsistent client left_group at u = by_work client.work
    where
      by_work :
          (work : Option Work)
          → let d' : Daemon = elim work [
            | some process_lockspace_cpg ↦ forget_space ci d
            | _ ↦ d
          ] in
            IsConsistent d'
      by_work (some process_lockspace_cpg) = forget_space-IsConsistent ci d c
      by_work _ = c
  run_work-IsConsistent client hangup at u = by_dead client.dead
    where
      by_dead :
          (dead : Option Dead)
          → let d' : Daemon = elim dead [
            | some client_dead_fn ↦ record d { table = client_dead ci d.table }
            | _ ↦ d
          ] in
            IsConsistent d'
      by_dead (some client_dead_fn) = client_dead-IsConsistent ci d u c
      by_dead _ = c

  serve_client-IsConsistent :
      (input : Input) → IsUsual ci input d → IsConsistent (serve_client env ci input d)
  unfolding serve_client
  serve_client-IsConsistent input u = elim (Option-cases (slot d.table.clients ci)) [
    | inl e ↦ rw (e, serve_client) c
    | inr (client, e) ↦ elim (Option-cases client.fd) [
      | inl n ↦ rw (e, n, serve_client) c
      | inr (fd, o) ↦ rw (e, o, serve_client) (run_work-IsConsistent client input e u)
    ]
  ]

-- The calls of the poll loop, one after the other; each join has its own answers.
pub record Call : Type 0 where
  pub env : JoinEnv
  pub ci : ℕ
  pub input : Input

unfoldable pub serve_all : List Call → Daemon → Daemon
unfolding serve_client
serve_all [] d = d
serve_all (e ∷ rest) d = serve_all rest (serve_client e.env e.ci e.input d)

abbrev pub AreUsual : List Call → Daemon → Type 0
AreUsual [] d = Unit
AreUsual (e ∷ rest) d = IsUsual e.ci e.input d × AreUsual rest (serve_client e.env e.ci e.input d)

-- From a consistent state, after any calls of the poll loop, with any answers of the group
-- communication service, the clients and the allocator, but where the names in requests are
-- shorter than DLM_LOCKSPACE_LEN, the parts of a uevent fit it and are four if it is about dlm,
-- and no error occurs at the client of a lockspace: no two lockspaces have one name or one
-- client, no file system is registered twice, every lockspace has an open client that dispatches
-- its group, every lockspace whose file system is registered is marked so, and every open client
-- is among those that are polled.
pub serve_all-IsConsistent :
    (calls : List Call) (d : Daemon)
    → AreUsual calls d
    → IsConsistent d
    → IsConsistent (serve_all calls d)
unfolding serve_all
serve_all-IsConsistent [] d u c = c
serve_all-IsConsistent (e ∷ rest) d u c =
    serve_all-IsConsistent rest _ u.1 (serve_client-IsConsistent e.env e.ci d c e.input u.0)
