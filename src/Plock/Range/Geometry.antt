-- ===== src/Plock/Range/Geometry.antt =====
-- What the range tests of group/dlm_controld/plock.c mean for the points of the ranges.
use dlm.Base.{ℕ, ◌≤◌, ◌<◌, ◌≡◌, ◌⊎◌, ◌↔◌, true, arith, ltb, if◌then◌else◌}
use dlm.Plock.Range.{
  ranges_overlap, OverlapType, same, at_edge, inside, covering, partial, invalid, overlap_type,
}

-- Two non-empty ranges are found to overlap exactly when they share a point.
pub ranges_overlap_iff :
    (s1 e1 s2 e2 : ℕ)
    → s1 ≤ e1
    → s2 ≤ e2
    → (ranges_overlap s1 e1 s2 e2 ≡ true) ↔ ((x : ℕ) × (s1 ≤ x) × (x ≤ e1) × (s2 ≤ x) × (x ≤ e2))
unfolding ranges_overlap
ranges_overlap_iff s1 e1 s2 e2 h k = (
  (λ p. (if ltb s1 s2 then s2 else s1, ground arith, ground arith, ground arith, ground arith)),
  (λ q. ground arith),
)

-- The value of `overlap_type`, as a relation between the ends.
abbrev pub Relates : OverlapType → ℕ → ℕ → ℕ → ℕ → Type 0
Relates same s1 e1 s2 e2 = (s1 ≡ s2) × (e1 ≡ e2)
Relates at_edge s1 e1 s2 e2 = ((s1 ≡ s2) × (e1 < e2)) ⊎ ((s2 < s1) × (e1 ≡ e2))
Relates inside s1 e1 s2 e2 = (s2 < s1) × (e1 < e2)
Relates covering s1 e1 s2 e2 = (s1 ≤ s2) × (e2 ≤ e1) × ((s1 < s2) ⊎ (e2 < e1))
Relates partial s1 e1 s2 e2 = ((s2 < s1) × (e2 < e1)) ⊎ ((s1 < s2) × (e1 < e2))
Relates invalid s1 e1 s2 e2 = ⊥

-- Every pair of ranges gets the overlap type that describes how their ends lie, and never -1.
pub overlap_type-Relates : (s1 e1 s2 e2 : ℕ) → Relates (overlap_type s1 e1 s2 e2) s1 e1 s2 e2
unfolding overlap_type
overlap_type-Relates s1 e1 s2 e2 = ground arith
