-- ===== src/Deadlock/Complete.antt =====
-- group/dlm_controld/deadlock.c: the loops of create_waitfor_graph leave no wait out.
use dlm.Base.{
  ◌≤◌, ◌≡◌, ◌≢◌, refl, sym, ap, ◌∙◌, true, false, some, List, [], ◌∷◌, All, arith, Bool-cases, inl,
  inr, some-inj,
}
use mathlib.Core.Path.{subst}
use dlm.Deadlock.{Trans}
use dlm.Deadlock.Locks.{PackLock, modes_compat, Lkb, Rsb, is_waiting, is_granted}
use dlm.Deadlock.Pointers.{named}
use dlm.Deadlock.Graph.{change_trans, Building, wait_on_locks, locks_of, wait_for_locks, graph_pass}
use dlm.Deadlock.Linked.{
  edges, MoreEdges, same-edges, Gains, stays-Gains, Conflicts, Points, add_waitfor-Waits,
}
use dlm.Deadlock.Build.{
  IsGood, IsNamed, add_waitfor-Goes, wait_on_locks-Goes, locks_of-All, wait_for_locks-Goes,
  change_locks-IsGood,
}

-- The lock waits, in the graph, for each one of the list that it conflicts with.
abbrev pub Heeds : List Trans → Lkb → List Lkb → Type 0
Heeds ts w gs = All (λ g. Conflicts w g → Points ts w g) gs

Heeds-more :
    (ts ts' : List Trans) (w : Lkb) (gs : List Lkb)
    → MoreEdges ts ts'
    → Heeds ts w gs
    → Heeds ts' w gs
Heeds-more ts ts' w [] m h = tt
Heeds-more ts ts' w (g ∷ rest) m h = (
  λ k. let old = h.0 k in omega (arith, old, m w.lock.xid g.lock.xid),
  Heeds-more ts ts' w rest m h.1,
)

-- A lock that is not granted waits for all that it conflicts with on its resource.
abbrev pub IsLinked : List Rsb → List Trans → Lkb → Type 0
IsLinked rs ts l = is_granted l.lock.status ≡ false → Heeds ts l (locks_of rs l.rsb)

IsLinked-more :
    (rs : List Rsb) (ts ts' : List Trans) (ls : List Lkb)
    → MoreEdges ts ts'
    → All (IsLinked rs ts) ls
    → All (IsLinked rs ts') ls
IsLinked-more rs ts ts' [] m h = tt
IsLinked-more rs ts ts' (l ∷ rest) m h =
    (λ k. Heeds-more ts ts' l (locks_of rs l.rsb) m (h.0 k), IsLinked-more rs ts ts' rest m h.1)

-- Only the fields of `struct pack_lock` matter.
Heeds-lock :
    (ts : List Trans) (w w' : Lkb) (gs : List Lkb)
    → w'.lock ≡ w.lock
    → Heeds ts w' gs
    → Heeds ts w gs
Heeds-lock ts w w' gs e h = subst by_lock e h
  where
    by_lock : PackLock → Type 0
    by_lock l =
        All
          (λ g.
            (is_waiting g.lock.status ≡ false)
              × (l.xid ≢ g.lock.xid)
              × (modes_compat g.lock.grmode l.rqmode ≡ false)
            → 1 ≤ edges l.xid g.lock.xid ts)
          gs

Gains-next :
    (b : Building) (w : Lkb) (out out' : Building × Lkb)
    → Gains b w out
    → Gains out.0 out.1 out'
    → Gains b w out'
Gains-next b w out out' h k = record {
  more = λ a x. omega (arith, h.more a x, k.more a x);
  lock = k.lock ∙ h.lock;
  rsb = k.rsb ∙ h.rsb;
}

true-ne-false : true ≡ false → ⊥
true-ne-false h = cc

module _ (ts : List Trans) where
  wait_on_locks-Heeds :
      (gs : List Lkb) (b : Building) (w : Lkb) (out : Building × Lkb)
      → IsGood ts b
      → IsNamed ts w
      → All (IsNamed ts) gs
      → wait_on_locks gs b w ≡ some out
      → Gains b w out × Heeds out.0.transactions w gs
  unfolding wait_on_locks
  wait_on_locks-Heeds [] b w out h n all eq =
      (subst (Gains b w) (some-inj eq) (stays-Gains b w), tt)
  wait_on_locks-Heeds (g ∷ rest) b w out h n all eq = elim (Bool-cases (is_waiting g.lock.status)) [
    | inl e ↦
        let ih = wait_on_locks-Heeds rest b w out h n all.1 (rw (e, wait_on_locks) at eq) in
        (ih.0, (λ k. absurd (true-ne-false (sym e ∙ k.0)), ih.1))
    | inr e ↦
        let (one, at, good) = add_waitfor-Goes ts b w g h all.0 in
        let step = add_waitfor-Waits ts b w g one h n at in
        let named_one = ap (λ (l : PackLock). named l.xid ts) step.0.lock ∙ n in
        let ih =
          wait_on_locks-Heeds rest one.0 one.1 out good named_one all.1
            (rw (e, at, wait_on_locks) at eq) in
        (
          Gains-next b w one out step.0 ih.0,
          (
            λ k. let first = step.1 k in omega (arith, first, ih.0.more w.lock.xid g.lock.xid),
            Heeds-lock out.0.transactions w one.1 rest step.0.lock ih.1,
          ),
        )
  ]

  module _ (rs : List Rsb) (all : All (λ r. All (IsNamed ts) r.locks) rs) where
    abbrev Linked : Building → List Lkb → Building → Type 0
    Linked b lkbs b' =
        MoreEdges b.transactions b'.transactions × All (IsLinked rs b'.transactions) lkbs

    wait_for_locks-Linked :
        (lkbs : List Lkb) (b : Building) (out : Building × List Lkb)
        → IsGood ts b
        → All (IsNamed ts) lkbs
        → wait_for_locks rs lkbs b ≡ some out
        → Linked b lkbs out.0
    unfolding wait_for_locks
    wait_for_locks-Linked [] b out h n eq =
        subst (λ (o : Building × List Lkb). Linked b [] o.0) (some-inj eq) (λ a x. omega arith, tt)
    wait_for_locks-Linked (lkb ∷ rest) b out h n eq =
        elim (Bool-cases (is_granted lkb.lock.status)) [
          | inl e ↦
              let (later, at, good) = wait_for_locks-Goes ts rs rest b h all in
              let ih = wait_for_locks-Linked rest b later h n.1 at in
              subst (λ (o : Building × List Lkb). Linked b (lkb ∷ rest) o.0)
                (some-inj (rw (e, at, wait_for_locks) at eq))
                (ih.0, (λ k. absurd (true-ne-false (sym e ∙ k)), ih.1))
          | inr e ↦
              let gs = locks_of rs lkb.rsb in
              let named_gs = locks_of-All ts rs lkb.rsb all in
              let (one, at_one, good_one) = wait_on_locks-Goes ts gs b lkb h named_gs in
              let step = wait_on_locks-Heeds gs b lkb one h n.0 named_gs at_one in
              let (later, at, good) = wait_for_locks-Goes ts rs rest one.0 good_one all in
              let ih = wait_for_locks-Linked rest one.0 later good_one n.1 at in
              subst (λ (o : Building × List Lkb). Linked b (lkb ∷ rest) o.0)
                (some-inj (rw (e, at_one, at, wait_for_locks) at eq))
                (
                  λ a x. omega (arith, step.0.more a x, ih.0 a x),
                  (
                    λ k. Heeds-more one.0.transactions later.0.transactions lkb gs ih.0 step.1,
                    ih.1,
                  ),
                )
        ]

    pub graph_pass-Linked :
        (trs : List Trans) (b out : Building)
        → IsGood ts b
        → All (λ t. All (IsNamed ts) t.locks) trs
        → graph_pass rs trs b ≡ some out
        → MoreEdges b.transactions out.transactions
          × All (λ t. All (IsLinked rs out.transactions) t.locks) trs
    unfolding graph_pass
    graph_pass-Linked [] b out h n eq = (
      subst (λ (o : Building). MoreEdges b.transactions o.transactions) (some-inj eq)
          (λ a x. omega arith),
      tt,
    )
    graph_pass-Linked (tr ∷ rest) b out h n eq =
        let (one, at, good) = wait_for_locks-Goes ts rs tr.locks b h all in
        let step = wait_for_locks-Linked tr.locks b one h n.0 at in
        let f : Trans → Trans = λ t. record t { locks = one.1 } in
        let put = change_trans f tr.xid one.0.transactions in
        let b' = record (one.0) { transactions = put } in
        let good' = change_locks-IsGood ts one.1 tr.xid one.0 good in
        let ih = graph_pass-Linked rest b' out good' n.1 (rw (at, graph_pass) at eq) in
        let more : MoreEdges one.0.transactions out.transactions = λ a x.
          omega (arith, same-edges f tr.xid a x one.0.transactions (λ t. (refl, refl)), ih.0 a x) in
        (
          λ a x. omega (arith, step.0 a x, more a x),
          (IsLinked-more rs one.0.transactions out.transactions tr.locks more step.1, ih.1),
        )
