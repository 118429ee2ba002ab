-- ===== src/Daemon/Joined.antt =====
-- group/dlm_controld/main.c and cpg.c: lockspaces that join and leave.
use dlm.Base.{
  ℕ, ◌≤◌, ◌≡◌, refl, sym, ap, ◌∙◌, Bool, true, false, not, ◌&&◌, Option, none, some, List, [], ◌∷◌,
  ◌==◌, arith, Bool-cases, Option-cases, inl, inr, length, All, ==→eq,
}
use dlm.Plock.Types.{malloc}
use dlm.Group.Types.{Space}
use dlm.Daemon.Clients.{process_lockspace_cpg, Table, client_dead, client_add}
use dlm.Daemon.Spaces.{
  Daemon, find_space, find_ls_ci, remove_space, fs_register_check, new_space, copy_name, JoinEnv,
  join_group, dlm_join_lockspace, dlm_leave_lockspace,
}
use dlm.Daemon.Requests.{online, offline, forget_space}
use dlm.Daemon.Slots.{passes, is_group, slot-change_slot_other, client_add-Adds}
use dlm.Daemon.Consistent.{AreDistinct, IsServed, IsConsistent}
use dlm.Daemon.Registered.{first_bytes-short, outside-IsConsistent, change_space-IsConsistent}
use dlm.Daemon.Steps.{client_dead-IsPolled, join_group-IsConsistent}

module _ (env : JoinEnv) (ls : Space) (d : Daemon)
    (unused : find_space ls.plocks.name d.spaces ≡ none)
    (marked : ls.fs_registered ≡ fs_register_check ls.plocks.name d.registered)
    (c : IsConsistent d) where
  added-IsConsistent :
      (h fd : ℕ) (added : Option (ℕ × Table))
      → client_add fd process_lockspace_cpg none d.table ≡ added
      → let r : Bool × Daemon = elim added [
        | none ↦ (false, d)
        | some t ↦ join_group env.join_answers h ls t d
      ] in
        IsConsistent r.1
  added-IsConsistent h fd none e = c
  added-IsConsistent h fd (some (ci, t)) e =
      join_group-IsConsistent env.join_answers h fd ci ls t d
        (client_add-Adds fd process_lockspace_cpg none d.table t ci e) unused marked c

  dlm_join_lockspace-IsConsistent : IsConsistent (dlm_join_lockspace env ls d).1
  unfolding dlm_join_lockspace
  dlm_join_lockspace-IsConsistent = elim (Bool-cases (env.enable_fencing && not env.fence_domain)) [
    | inl y ↦ rw (y, dlm_join_lockspace) (outside-IsConsistent d d.mem _ c)
    | inr n ↦ elim (Option-cases env.cpg_initialize) [
      | inl e ↦ rw (n, e, dlm_join_lockspace) (outside-IsConsistent d d.mem _ c)
      | inr ((h, fd), e) ↦
          rw (n, e, dlm_join_lockspace)
            (added-IsConsistent h fd (client_add fd process_lockspace_cpg none d.table) refl)
    ]
  ]

pub online-IsConsistent :
    (env : JoinEnv) (name : List ℕ) (d : Daemon)
    → length name ≤ 64
    → IsConsistent d
    → IsConsistent (online env name d)
unfolding online
online-IsConsistent env name d short c = elim (Option-cases (find_space name d.spaces)) [
  | inr (ls, e) ↦ rw (e, online) c
  | inl e ↦
      let ls = new_space name in
      let ls' = record ls { fs_registered = fs_register_check (copy_name name) d.registered } in
      elim (Bool-cases (malloc d.mem).0) [
        | inr failed ↦ rw (e, failed, online) (outside-IsConsistent d (malloc d.mem).1 d.out c)
        | inl given ↦
            rw (e, given, online)
              (dlm_join_lockspace-IsConsistent env ls' (record d { mem = (malloc d.mem).1 })
                (ap (λ n. find_space n d.spaces) (first_bytes-short 64 name short) ∙ e) refl
                (outside-IsConsistent d (malloc d.mem).1 d.out c))
      ]
]

pub offline-IsConsistent :
    (name : List ℕ) (d : Daemon) → IsConsistent d → IsConsistent (offline name d)
unfolding offline dlm_leave_lockspace
offline-IsConsistent name d c = elim (Option-cases (find_space name d.spaces)) [
  | inl e ↦ rw (e, offline) c
  | inr (ls, e) ↦
      rw (e, offline)
        (outside-IsConsistent _ d.mem _ (
          change_space-IsConsistent ls.plocks.name (λ l. record l { leaving = true }) d
            (λ l. (refl, refl, refl)) c))
]

==-sym : (a b : ℕ) → (a == b) ≡ false → (b == a) ≡ false
==-sym a b h = ground arith

-- The removal of the lockspace that has a client.
find_space-remove_space :
    (n : List ℕ) (ci : ℕ) (spaces : List Space)
    → find_space n spaces ≡ none
    → find_space n (remove_space ci spaces) ≡ none
unfolding find_space remove_space
find_space-remove_space n ci [] h = refl
find_space-remove_space n ci (ls ∷ rest) h = ground (arith, find_space-remove_space n ci rest)

find_ls_ci-remove_space :
    (j ci : ℕ) (spaces : List Space)
    → find_ls_ci j spaces ≡ none
    → find_ls_ci j (remove_space ci spaces) ≡ none
unfolding find_ls_ci remove_space
find_ls_ci-remove_space j ci [] h = refl
find_ls_ci-remove_space j ci (ls ∷ rest) h = ground (arith, find_ls_ci-remove_space j ci rest)

remove_space-AreDistinct :
    (ci : ℕ) (spaces : List Space) → AreDistinct spaces → AreDistinct (remove_space ci spaces)
unfolding remove_space
remove_space-AreDistinct ci [] h = tt
remove_space-AreDistinct ci (ls ∷ rest) h = elim (Bool-cases (ls.cpg_client == ci)) [
  | inl y ↦ rw (y, remove_space) h.2
  | inr n ↦
      rw (n, remove_space)
        (
          find_space-remove_space ls.plocks.name ci rest h.0,
          find_ls_ci-remove_space ls.cpg_client ci rest h.1,
          remove_space-AreDistinct ci rest h.2,
        )
]

module _ (P Q : Space → Type 0) (ci : ℕ)
    (k : (ls : Space) → (ls.cpg_client == ci) ≡ false → P ls → Q ls) where
  without-All : (spaces : List Space) → find_ls_ci ci spaces ≡ none → All P spaces → All Q spaces
  unfolding find_ls_ci
  without-All [] e h = tt
  without-All (ls ∷ rest) e h =
      let apart : (ls.cpg_client == ci) ≡ false = ground arith in
      (k ls apart h.0, without-All rest (ground (arith, apart)) h.1)

  remove_space-All :
      (spaces : List Space) → AreDistinct spaces → All P spaces → All Q (remove_space ci spaces)
  unfolding remove_space
  remove_space-All [] u h = tt
  remove_space-All (ls ∷ rest) u h = elim (Bool-cases (ls.cpg_client == ci)) [
    | inl y ↦
        rw (y, remove_space)
          (without-All rest (ap (λ j. find_ls_ci j rest) (sym (==→eq ls.cpg_client ci y)) ∙ u.1)
            h.1)
    | inr n ↦ rw (n, remove_space) (k ls n h.0, remove_space-All rest u.2 h.1)
  ]

pub forget_space-IsConsistent :
    (ci : ℕ) (d : Daemon) → IsConsistent d → IsConsistent (forget_space ci d)
unfolding forget_space client_dead
forget_space-IsConsistent ci d c = elim (Option-cases (find_ls_ci ci d.spaces)) [
  | inl e ↦ rw (e, forget_space) c
  | inr (ls, e) ↦ elim (Bool-cases ls.leaving) [
    | inr n ↦ rw (e, n, forget_space) c
    | inl y ↦
        rw (e, y, forget_space)
          (record {
            distinct = remove_space-AreDistinct ci d.spaces c.distinct;
            names = c.names;
            served =
                remove_space-All (IsServed d.registered d.table.clients)
                  (IsServed d.registered (client_dead ci d.table).clients) ci
                  (λ l apart p. record {
                    client =
                        ap (passes is_group) (
                          slot-change_slot_other _ ci l.cpg_client d.table.clients
                            (==-sym l.cpg_client ci apart))
                        ∙ p.client;
                    marked = p.marked;
                  })
                  d.spaces c.distinct c.served;
            polled = client_dead-IsPolled ci d.table c.polled;
          })
  ]
]
