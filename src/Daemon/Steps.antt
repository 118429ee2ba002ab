-- ===== src/Daemon/Steps.antt =====
-- group/dlm_controld/main.c: the calls of the poll loop keep the lists of the daemon consistent.
use dlm.Base.{
  ℕ, zero, suc, ◌≡◌, refl, sym, ap, ◌∙◌, true, false, Option, none, some, List, [], ◌∷◌, ◌==◌,
  arith, Bool-cases, inl, inr, All, ==→eq,
}
use dlm.Group.Types.{Space}
use dlm.Daemon.Clients.{
  process_connection, process_lockspace_cpg, Client, Table, slot, change_slot, client_dead,
  client_add,
}
use dlm.Daemon.Spaces.{
  Daemon, find_space, find_ls_ci, fs_register_check, CpgAnswer, cpg_join, join_group,
}
use dlm.Daemon.Requests.{accept_client}
use dlm.Daemon.Slots.{
  passes, has_fd, is_group, is_group→has_fd, Adds, new_client, client_add-Adds,
  slot-change_slot_other,
}
use dlm.Daemon.Consistent.{IsServed, IsPolled, IsConsistent, All-map}

-- A client other than that of a lockspace goes away.
group_slot-client_dead :
    (ci j : ℕ) (t : Table)
    → passes is_group (slot t.clients ci) ≡ false
    → passes is_group (slot t.clients j) ≡ true
    → passes is_group (slot (client_dead ci t).clients j) ≡ true
unfolding client_dead
group_slot-client_dead ci j t off on = elim (Bool-cases (ci == j)) [
  | inl y ↦ cc (sym off ∙ ap (λ k. passes is_group (slot t.clients k)) (==→eq ci j y) ∙ on)
  | inr n ↦ ap (passes is_group) (slot-change_slot_other _ ci j t.clients n) ∙ on
]

-- A slot that is open behind that was open before.
slot-client_dead :
    (ci j : ℕ) (cs : List Client)
    → passes has_fd
        (slot (change_slot (λ c. record c { fd = none; work = none; polled = none }) ci cs) j)
      ≡ true
    → passes has_fd (slot cs j) ≡ true
unfolding slot change_slot
slot-client_dead ci j [] h = h
slot-client_dead zero zero (c ∷ rest) h = cc
slot-client_dead zero (suc j) (c ∷ rest) h = h
slot-client_dead (suc ci) zero (c ∷ rest) h = h
slot-client_dead (suc ci) (suc j) (c ∷ rest) h = slot-client_dead ci j rest h

pub client_dead-IsPolled : (ci : ℕ) (t : Table) → IsPolled t → IsPolled (client_dead ci t)
unfolding client_dead
client_dead-IsPolled ci t h j open_slot = h j (slot-client_dead ci j t.clients open_slot)

pub client_dead-IsConsistent :
    (ci : ℕ) (d : Daemon)
    → passes is_group (slot d.table.clients ci) ≡ false
    → IsConsistent d
    → IsConsistent (record d { table = client_dead ci d.table })
client_dead-IsConsistent ci d off c = record {
  distinct = c.distinct;
  names = c.names;
  served =
      All-map (IsServed d.registered d.table.clients)
        (IsServed d.registered (client_dead ci d.table).clients) d.spaces
        (λ ls p. record {
          client = group_slot-client_dead ci ls.cpg_client d.table off p.client;
          marked = p.marked;
        })
        c.served;
  polled = client_dead-IsPolled ci d.table c.polled;
}

pub group-has_fd : (o : Option Client) → passes is_group o ≡ true → passes has_fd o ≡ true
group-has_fd none h = h
group-has_fd (some c) h = is_group→has_fd c h

-- A new client leaves those of the lockspaces alone.
module _ (new : Client) (t t' : Table) (i : ℕ) (a : Adds new t t' i) where
  added-ne-group : (j : ℕ) → passes is_group (slot t.clients j) ≡ true → (i == j) ≡ false
  added-ne-group j on = elim (Bool-cases (i == j)) [
    | inl y ↦ cc (
        sym a.was_free
        ∙ ap (λ k. passes has_fd (slot t.clients k)) (==→eq i j y)
        ∙ group-has_fd (slot t.clients j) on)
    | inr n ↦ n
  ]

  Adds-IsPolled : IsPolled t → IsPolled t'
  Adds-IsPolled h j open_slot = elim (Bool-cases (i == j)) [
    | inl y ↦ let e = ==→eq i j y in let b = a.bound in omega arith
    | inr n ↦
        let below = h j (sym (a.others has_fd j refl n) ∙ open_slot) in
        let b = a.bound in omega arith
  ]

  Adds-IsServed :
      (regs : List (List ℕ)) (spaces : List Space)
      → All (IsServed regs t.clients) spaces
      → All (IsServed regs t'.clients) spaces
  Adds-IsServed regs spaces h =
      All-map (IsServed regs t.clients) (IsServed regs t'.clients) spaces
        (λ ls p. record {
          client =
              a.others is_group ls.cpg_client refl (added-ne-group ls.cpg_client p.client)
              ∙ p.client;
          marked = p.marked;
        })
        h

  -- The client is added, and dies.
  undone-IsServed :
      (regs : List (List ℕ)) (spaces : List Space)
      → All (IsServed regs t.clients) spaces
      → All (IsServed regs (client_dead i t').clients) spaces
  unfolding client_dead
  undone-IsServed regs spaces h =
      All-map (IsServed regs t.clients) (IsServed regs (client_dead i t').clients) spaces
        (λ ls p.
          let apart = added-ne-group ls.cpg_client p.client in
          record {
            client =
                ap (passes is_group) (slot-change_slot_other _ i ls.cpg_client t'.clients apart)
                ∙ a.others is_group ls.cpg_client refl apart
                ∙ p.client;
            marked = p.marked;
          })
        h

  -- No lockspace has the client that was free.
  find_ls_ci-free :
      (regs : List (List ℕ)) (spaces : List Space)
      → All (IsServed regs t.clients) spaces
      → find_ls_ci i spaces ≡ none
  unfolding find_ls_ci
  find_ls_ci-free regs [] h = refl
  find_ls_ci-free regs (ls ∷ rest) h =
      ground (arith, added-ne-group ls.cpg_client h.0.client, find_ls_ci-free regs rest h.1)

pub accept_client-IsConsistent :
    (fd : Option ℕ) (d : Daemon) → IsConsistent d → IsConsistent (accept_client fd d)
unfolding accept_client
accept_client-IsConsistent none d c = c
accept_client-IsConsistent (some fd) d c =
    added_client (client_add fd process_connection none d.table) refl
  where
    added_client :
        (added : Option (ℕ × Table))
        → client_add fd process_connection none d.table ≡ added
        → IsConsistent (elim added [ none ↦ d | some (ci, table) ↦ record d { table = table } ])
    added_client none e = c
    added_client (some (ci, table)) e =
        let a = client_add-Adds fd process_connection none d.table table ci e in
        record {
          distinct = c.distinct;
          names = c.names;
          served =
              Adds-IsServed (new_client fd process_connection none) d.table table ci a d.registered
                d.spaces c.served;
          polled =
              Adds-IsPolled (new_client fd process_connection none) d.table table ci a c.polled;
        }

pub join_group-IsConsistent :
    (answers : List CpgAnswer) (h fd ci : ℕ) (ls : Space) (t' : Table) (d : Daemon)
    → Adds (new_client fd process_lockspace_cpg none) d.table t' ci
    → find_space ls.plocks.name d.spaces ≡ none
    → ls.fs_registered ≡ fs_register_check ls.plocks.name d.registered
    → IsConsistent d
    → IsConsistent (join_group answers h ls (ci, t') d).1
unfolding join_group
join_group-IsConsistent answers h fd ci ls t' d a unused marked c =
    let new = new_client fd process_lockspace_cpg none in
    elim (Bool-cases (cpg_join answers)) [
      | inl y ↦
          rw (y, join_group)
            (record {
              distinct = (
                unused,
                find_ls_ci-free new d.table t' ci a d.registered d.spaces c.served,
                c.distinct,
              );
              names = c.names;
              served = (
                record { client = ap (passes is_group) a.here; marked = λ k. marked ∙ k },
                Adds-IsServed new d.table t' ci a d.registered d.spaces c.served,
              );
              polled = Adds-IsPolled new d.table t' ci a c.polled;
            })
      | inr n ↦
          rw (n, join_group)
            (record {
              distinct = c.distinct;
              names = c.names;
              served = undone-IsServed new d.table t' ci a d.registered d.spaces c.served;
              polled = client_dead-IsPolled ci t' (Adds-IsPolled new d.table t' ci a c.polled);
            })
    ]
