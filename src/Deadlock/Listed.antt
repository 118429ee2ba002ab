-- ===== src/Deadlock/Listed.antt =====
-- group/dlm_controld/deadlock.c: the locks on the transactions that create_trans_list makes are those of
-- the resources.
use dlm.Base.{
  ℕ, ◌≤◌, ◌≡◌, refl, true, some, List, [], ◌∷◌, ◌==◌, All, arith, Bool-cases, Option-cases, inl,
  inr,
}
use dlm.Plock.Types.{malloc_ok, Mem}
use dlm.Deadlock.{Trans}
use dlm.Deadlock.Locks.{Lkb, Rsb}
use dlm.Deadlock.Pointers.{named}
use dlm.Deadlock.Graph.{
  find_trans, change_trans, get_trans, add_lkb_trans, create_trans, create_trans_list,
}
use dlm.Deadlock.Standing.{change-every}

pub find-some : (x : ℕ) (ts : List Trans) (tr : Trans) → find_trans ts x ≡ some tr → 1 ≤ named x ts
unfolding find_trans
find-some x [] tr h = absurd cc
find-some x (t ∷ rest) tr h = elim (Bool-cases (t.xid == x)) [
  | inl e ↦ rw e (omega arith)
  | inr e ↦ rw e (find-some x rest tr (rw (e, find_trans) at h))
]

module _ (P : Lkb → Type 0) where
  abbrev OnTrans : Trans → Type 0
  OnTrans t = All P t.locks

  -- What holds for all locks on transactions holds for those of the resources, and the other way
  -- round.
  add_lkb-back :
      (lkb : Lkb) (xid : ℕ) (ts : List Trans)
      → 1 ≤ named xid ts
      → All OnTrans (change_trans (add_lkb_trans lkb) xid ts)
      → P lkb × All OnTrans ts
  unfolding change_trans
  add_lkb-back lkb xid [] n h = absurd (omega (arith, n))
  add_lkb-back lkb xid (t ∷ rest) n h = elim (Bool-cases (t.xid == xid)) [
    | inl e ↦ let h' = rw (e, change_trans) at h in (h'.0.0, (h'.0.1, h'.1))
    | inr e ↦
        let h' = rw (e, change_trans) at h in
        let ih = add_lkb-back lkb xid rest (rw e at n) h'.1 in (ih.0, (h'.0, ih.1))
  ]

  -- Where no allocation fails, `get_trans` finds or makes a transaction.
  get_trans-back :
      (ts : List Trans) (xid : ℕ) (mem : Mem)
      → mem ≡ []
      → let out = get_trans ts xid mem in
        (out.0 ≡ true)
        × (out.2 ≡ [])
        × (1 ≤ named xid out.1)
        × (All OnTrans out.1 → All OnTrans ts)
        × (All OnTrans ts → All OnTrans out.1)
  unfolding get_trans
  get_trans-back ts xid mem m = elim (Option-cases (find_trans ts xid)) [
    | inr (tr, e) ↦ rw (e, get_trans) (refl, m, find-some xid ts tr e, λ h. h, λ h. h)
    | inl e ↦
        let given = malloc_ok mem m in
        rw (e, given.0, get_trans) (refl, given.1, ground arith, λ h. h.1, λ h. (tt, h))
  ]

  create_trans-back :
      (lkbs : List Lkb) (ts : List Trans) (mem : Mem)
      → mem ≡ []
      → let out = create_trans lkbs ts mem in
        (out.0 ≡ true)
        × (out.2 ≡ [])
        × (All OnTrans out.1 → All P lkbs × All OnTrans ts)
        × (All P lkbs → All OnTrans ts → All OnTrans out.1)
  unfolding create_trans
  create_trans-back [] ts mem m = (refl, m, λ h. (tt, h), λ p h. h)
  create_trans-back (lkb ∷ rest) ts mem m =
      let xid = lkb.lock.xid in
      let out = get_trans ts xid mem in
      let got = get_trans-back ts xid mem m in
      let ih = create_trans-back rest (change_trans (add_lkb_trans lkb) xid out.1) out.2 got.1 in
      rw (got.0, create_trans)
        (
          ih.0,
          ih.1,
          λ h.
              let later = ih.2 h in
              let here = add_lkb-back lkb xid out.1 got.2 later.1 in
              ((here.0, later.0), got.3 here.1),
          λ p h.
              ih.3 p.1
                (change-every OnTrans (add_lkb_trans lkb) xid out.1 (λ t q. (p.0, q)) (got.4 h)),
        )

  pub create_trans_list-back :
      (rs : List Rsb) (ts : List Trans) (mem : Mem)
      → mem ≡ []
      → let out = create_trans_list rs ts mem in
        (All (λ t. All P t.locks) out.0 → All (λ r. All P r.locks) rs × All (λ t. All P t.locks) ts)
        × (All (λ r. All P r.locks) rs
            → All (λ t. All P t.locks) ts
            → All (λ t. All P t.locks) out.0)
  unfolding create_trans_list
  create_trans_list-back [] ts mem m = (λ h. (tt, h), λ p h. h)
  create_trans_list-back (r ∷ rest) ts mem m =
      let out = create_trans r.locks ts mem in
      let got = create_trans-back r.locks ts mem m in
      let ih = create_trans_list-back rest out.1 out.2 got.1 in
      rw (got.0, create_trans_list)
        (
          λ h. let later = ih.0 h in let here = got.2 later.1 in ((here.0, later.0), here.1),
          λ p h. ih.1 p.1 (got.3 p.0 h),
        )
