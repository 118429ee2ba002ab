-- ===== src/Daemon/Registered.antt =====
-- group/dlm_controld/main.c: the registered file systems, and the marks of their lockspaces.
use mathlib.Core.Path.{subst}
use dlm.Base.{
  ℕ, zero, suc, ◌<◌, ◌≤◌, ◌≡◌, refl, sym, ap, ◌∙◌, Bool, true, false, List, [], ◌∷◌, arith,
  Bool-cases, inl, inr, length,
}
use dlm.Plock.Types.{Mem, malloc}
use dlm.Plock.Device.{same_name}
use dlm.Plock.Names.{same_name_self, same_name→eq}
use dlm.Group.Types.{Space}
use dlm.Daemon.Clients.{slot}
use dlm.Daemon.Spaces.{
  Answer, DaemonOut, Daemon, change_space, first_bytes, stale_copy, fs_register_check,
  fs_register_add, fs_register_del,
}
use dlm.Daemon.Requests.{set_registered, fs_register, fs_unregister, fs_notified, do_reply}
use dlm.Daemon.Slots.{passes, is_group}
use dlm.Daemon.Consistent.{
  AreDistinctNames, IsServed, IsConsistent, change_space-AreDistinct, change_space-All,
}

stale_copy-short : (k : ℕ) (name stale : List ℕ) → length name < k → stale_copy k name stale ≡ name
unfolding stale_copy
stale_copy-short zero name stale h = absurd (omega arith)
stale_copy-short (suc k) [] stale h = refl
stale_copy-short (suc k) (c ∷ cs) stale h =
    ap (λ r. c ∷ r) (stale_copy-short k cs stale (omega arith))

pub first_bytes-short : (k : ℕ) (name : List ℕ) → length name ≤ k → first_bytes k name ≡ name
unfolding first_bytes
first_bytes-short zero [] h = refl
first_bytes-short zero (c ∷ cs) h = absurd (omega arith)
first_bytes-short (suc k) [] h = refl
first_bytes-short (suc k) (c ∷ cs) h = ap (λ r. c ∷ r) (first_bytes-short k cs (omega arith))

same_name-sym : (a b : List ℕ) → same_name a b ≡ true → same_name b a ≡ true
same_name-sym a b h = rw (same_name→eq a b h) (same_name_self b)

-- The registered names after a change at one name.
record Registers (name : List ℕ) (regs regs' : List (List ℕ)) : Type 0 where
  pub others :
      (n : List ℕ) → same_name n name ≡ false → fs_register_check n regs' ≡ fs_register_check n regs
  pub distinct : AreDistinctNames regs'

fs_register_add-Registers :
    (name : List ℕ) (d : Daemon)
    → length name < 64
    → AreDistinctNames d.registered
    → Registers name d.registered (fs_register_add name d).1.registered
unfolding fs_register_add fs_register_check
fs_register_add-Registers name d short u = elim (Bool-cases (fs_register_check name d.registered)) [
  | inl y ↦ rw (y, fs_register_add) (record { others = λ n e. refl; distinct = u })
  | inr isnt ↦ elim (Bool-cases (malloc d.mem).0) [
    | inl given ↦
        rw (isnt, given, stale_copy-short 64 name (d.stale d.registered) short, fs_register_add)
          (record { others = λ n e. ground (arith, e); distinct = (isnt, u) })
    | inr failed ↦
        rw (isnt, failed, fs_register_add) (record { others = λ n e. refl; distinct = u })
  ]
]

-- What is registered behind a removal was so before.
fs_register_check-del :
    (n name : List ℕ) (regs : List (List ℕ))
    → fs_register_check n regs ≡ false
    → fs_register_check n (fs_register_del name regs) ≡ false
unfolding fs_register_check fs_register_del
fs_register_check-del n name [] h = refl
fs_register_check-del n name (fs ∷ rest) h = ground (arith, fs_register_check-del n name rest)

fs_register_del-Registers :
    (name : List ℕ) (regs : List (List ℕ))
    → AreDistinctNames regs
    → Registers name regs (fs_register_del name regs)
      × (fs_register_check name (fs_register_del name regs) ≡ false)
unfolding fs_register_del fs_register_check
fs_register_del-Registers name [] u = (record { others = λ n e. refl; distinct = u }, refl)
fs_register_del-Registers name (fs ∷ rest) u = elim (Bool-cases (same_name name fs)) [
  | inl y ↦
      rw (y, fs_register_del)
        (
          record {
            others = λ n e. ground (arith, e, ap (same_name n) (same_name→eq name fs y));
            distinct = u.1;
          },
          ap (λ m. fs_register_check m rest) (same_name→eq name fs y) ∙ u.0,
        )
  | inr isnt ↦
      let ih = fs_register_del-Registers name rest u.1 in
      rw (isnt, fs_register_del)
        (
          record {
            others = λ n e. ground (arith, ih.0.others n e);
            distinct = (fs_register_check-del fs name rest u.0, ih.0.distinct);
          },
          ground (arith, ih.1, isnt),
        )
]

-- A change of the registered names with the mark of their lockspace.
set_registered-IsConsistent :
    (b : Bool) (name : List ℕ) (d : Daemon) (regs' : List (List ℕ)) (mem' : Mem)
    → Registers name d.registered regs'
    → (fs_register_check name regs' ≡ true → b ≡ true)
    → IsConsistent d
    → IsConsistent (set_registered b name (record d { registered = regs'; mem = mem' }))
set_registered-IsConsistent b name d regs' mem' r ok c = record {
  distinct = change_space-AreDistinct name _ d.spaces (λ ls. refl) (λ ls. refl) c.distinct;
  names = r.distinct;
  served =
      change_space-All name _ (IsServed d.registered d.table.clients)
        (IsServed regs' d.table.clients) d.spaces c.distinct
        (λ ls e p. record {
          client = p.client;
          marked = λ h.
              ok (
                ap (λ n. fs_register_check n regs') (sym (same_name→eq ls.plocks.name name e)) ∙ h);
        })
        (λ ls e p. record {
          client = p.client;
          marked = λ h. p.marked (sym (r.others ls.plocks.name e) ∙ h);
        })
        c.served;
  polled = c.polled;
}

fs_register_add-same :
    (name : List ℕ) (d : Daemon)
    → let d' = (fs_register_add name d).1 in
      record d { registered = d'.registered; mem = d'.mem } ≡ d'
unfolding fs_register_add
fs_register_add-same name d = ground arith

do_reply-same :
    (ci command : ℕ) (name : List ℕ) (rv : Answer) (option : ℕ) (d : Daemon)
    → let d' = do_reply ci command name rv option d in record d { mem = d'.mem; out = d'.out } ≡ d'
unfolding do_reply
do_reply-same ci command name rv option d = ground arith

pub outside-IsConsistent :
    (d : Daemon) (mem : Mem) (out : List DaemonOut)
    → IsConsistent d
    → IsConsistent (record d { mem = mem; out = out })
outside-IsConsistent d mem out c = record {
  distinct = c.distinct;
  names = c.names;
  served = c.served;
  polled = c.polled;
}

do_reply-IsConsistent :
    (ci command : ℕ) (name : List ℕ) (rv : Answer) (option : ℕ) (d : Daemon)
    → IsConsistent d
    → IsConsistent (do_reply ci command name rv option d)
do_reply-IsConsistent ci command name rv option d c =
    subst IsConsistent (do_reply-same ci command name rv option d) (outside-IsConsistent d _ _ c)

pub fs_register-IsConsistent :
    (ci : ℕ) (name : List ℕ) (d : Daemon)
    → length name < 64
    → IsConsistent d
    → IsConsistent (fs_register ci name d)
unfolding fs_register
fs_register-IsConsistent ci name d short c =
    let d' = (fs_register_add name d).1 in
    do_reply-IsConsistent ci 7 name (fs_register_add name d).0 0 (set_registered true name d') (
      subst (λ e. IsConsistent (set_registered true name e)) (fs_register_add-same name d)
        (set_registered-IsConsistent true name d d'.registered d'.mem
          (fs_register_add-Registers name d short c.names) (λ h. refl) c))

pub fs_unregister-IsConsistent :
    (name : List ℕ) (d : Daemon) → IsConsistent d → IsConsistent (fs_unregister name d)
unfolding fs_unregister
fs_unregister-IsConsistent name d c =
    let r = fs_register_del-Registers name d.registered c.names in
    set_registered-IsConsistent false name d (fs_register_del name d.registered) d.mem r.0
      (λ h. sym r.1 ∙ h) c

-- Writes to a lockspace that keep its name, its client and its mark.
pub change_space-IsConsistent :
    (name : List ℕ) (f : Space → Space) (d : Daemon)
    → ((ls : Space)
        → ((f ls).plocks.name ≡ ls.plocks.name)
          × ((f ls).cpg_client ≡ ls.cpg_client)
          × ((f ls).fs_registered ≡ ls.fs_registered))
    → IsConsistent d
    → IsConsistent (record d { spaces = change_space name f d.spaces })
change_space-IsConsistent name f d k c = record {
  distinct = change_space-AreDistinct name f d.spaces (λ ls. (k ls).0) (λ ls. (k ls).1) c.distinct;
  names = c.names;
  served =
      change_space-All name f (IsServed d.registered d.table.clients)
        (IsServed d.registered d.table.clients) d.spaces c.distinct
        (λ ls e p. record {
          client = ap (λ i. passes is_group (slot d.table.clients i)) (k ls).1 ∙ p.client;
          marked = λ h.
              (k ls).2 ∙ p.marked (ap (λ n. fs_register_check n d.registered) (sym (k ls).0) ∙ h);
        })
        (λ ls e p. p) c.served;
  polled = c.polled;
}

pub fs_notified-IsConsistent :
    (ci : ℕ) (name : List ℕ) (nodeid : ℕ) (d : Daemon)
    → IsConsistent d
    → IsConsistent (fs_notified ci name nodeid d)
unfolding fs_notified
fs_notified-IsConsistent ci name nodeid d c =
    do_reply-IsConsistent ci 9 name _ nodeid _
      (change_space-IsConsistent name _ d (λ ls. (refl, refl, refl)) c)
