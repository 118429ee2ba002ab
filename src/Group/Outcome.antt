-- ===== src/Group/Outcome.antt =====
-- group/dlm_controld/cpg.c: what a change leaves, and which node stores the plocks.
use dlm.Base.{
  ℕ, ◌≤◌, ◌≡◌, ◌≢◌, ◌⊎◌, refl, sym, ◌∙◌, true, false, ◌||◌, List, [], ◌∷◌, ◌==◌, ltb, All, arith,
  Bool-cases, inl, inr, int_rank,
}
use dlm.Group.Types.{Member, Change, GroupEnv, GroupWorld, Space}
use dlm.Group.Changes.{lower, low_node, set_plock_ckpt_node}

-- A member that has plock state has at least this number, where both are a C `int`.
abbrev pub NotBelow : ℕ → Member → Type 0
NotBelow low m = m.start_flags.haveplock ≡ true → int_rank low ≤ int_rank m.nodeid

-- The number of a member with plock state.
pub data IsHolder (low : ℕ) : List Member → Type 0 where
  first :
      (m : Member) (rest : List Member)
      → m.start_flags.haveplock ≡ true
      → m.nodeid ≡ low
      → IsHolder low (m ∷ rest)
  later : (m : Member) (rest : List Member) → IsHolder low rest → IsHolder low (m ∷ rest)

-- The lowest number, as a C `int`, of a member with plock state, or 0 where there is none.
pub record IsLowest (low : ℕ) (members : List Member) : Type 0 where
  pub least : All (NotBelow low) members
  pub holder : (low ≢ 0) → IsHolder low members
  pub nobody : low ≡ 0 → All (λ m. m.start_flags.haveplock ≡ false) members

abbrev pub IsId : Member → Type 0
IsId m = m.nodeid ≢ 0

-- What one member of the loop does.
data Lowered (low : ℕ) (m : Member) (next : ℕ) : Type 0 where
  no_plocks : m.start_flags.haveplock ≡ false → next ≡ low → Lowered low m next
  not_lower : low ≢ 0 → int_rank low ≤ int_rank m.nodeid → next ≡ low → Lowered low m next
  taken :
      m.start_flags.haveplock ≡ true
      → next ≡ m.nodeid
      → (low ≢ 0 → int_rank m.nodeid ≤ int_rank low)
      → Lowered low m next

lower_lem : (low : ℕ) (m : Member) → Lowered low m (lower low m)
unfolding lower
lower_lem low m = elim (Bool-cases m.start_flags.haveplock) [
  | inr e ↦ no_plocks e (rw e refl)
  | inl e ↦ elim (Bool-cases (low == 0 || ltb (int_rank m.nodeid) (int_rank low))) [
    | inl c ↦ taken e (rw (e, c) refl) (λ k. ground arith)
    | inr c ↦ not_lower (ground arith) (ground arith) (rw (e, c) refl)
  ]
]

record IsOut (low : ℕ) (ms : List Member) (out : ℕ) : Type 0 where
  pub from : (out ≡ low) ⊎ IsHolder out ms
  pub least : All (NotBelow out) ms
  pub bound : low ≢ 0 → (out ≢ 0) × (int_rank out ≤ int_rank low)
  pub nobody : out ≡ 0 → All (λ m. m.start_flags.haveplock ≡ false) ms

IsOut-next :
    (low next out : ℕ) (m : Member) (rest : List Member)
    → IsId m
    → Lowered low m next
    → IsOut next rest out
    → IsOut low (m ∷ rest) out
IsOut-next low next out m rest h (no_plocks e same) ih = record {
  from = elim ih.from [ inl k ↦ inl (k ∙ same) | inr k ↦ inr (later m rest k) ];
  least = (λ t. absurd cc, ih.least);
  bound = λ k. rw same at (ih.bound (λ z. k (sym same ∙ z)));
  nobody = λ z. (e, ih.nobody z);
}
IsOut-next low next out m rest h (not_lower k lt same) ih =
    let b = ih.bound (λ z. k (sym same ∙ z)) in
    record {
      from = elim ih.from [ inl k ↦ inl (k ∙ same) | inr k ↦ inr (later m rest k) ];
      least = (λ t. omega arith, ih.least);
      bound = λ z. (b.0, omega arith);
      nobody = λ z. absurd (b.0 z);
    }
IsOut-next low next out m rest h (taken e same lt) ih =
    let b = ih.bound (λ z. h (sym same ∙ z)) in
    record {
      from = elim ih.from [
        | inl k ↦ inr (first m rest e (sym (k ∙ same)))
        | inr k ↦ inr (later m rest k)
      ];
      least = (λ t. omega arith, ih.least);
      bound = λ z. (b.0, let l = lt z in omega arith);
      nobody = λ z. absurd (b.0 z);
    }

low_node_lem : (low : ℕ) (ms : List Member) → All IsId ms → IsOut low ms (low_node low ms)
unfolding low_node
low_node_lem low [] h = record {
  from = inl refl;
  least = tt;
  bound = λ k. (k, omega arith);
  nobody = λ z. tt;
}
low_node_lem low (m ∷ rest) h =
    IsOut-next low (lower low m) (low_node (lower low m) rest) m rest h.0 (lower_lem low m)
      (low_node_lem (lower low m) rest h.1)

-- Among members whose numbers are not 0, the node that stores the plocks is the one with the
-- lowest number, compared as a C int, of those that have plock state, and 0 exactly where no
-- member has it.
pub set_plock_ckpt_node-IsLowest :
    (env : GroupEnv) (ls : Space) (cg : Change) (w : GroupWorld)
    → All IsId cg.members
    → IsLowest (set_plock_ckpt_node env ls cg w).0.plock_ckpt_node cg.members
unfolding set_plock_ckpt_node
set_plock_ckpt_node-IsLowest env ls cg w h =
    let out = low_node_lem 0 cg.members h in
    record {
      least = out.least;
      holder = λ k. elim out.from [ inl z ↦ absurd (k z) | inr there ↦ there ];
      nobody = out.nobody;
    }
