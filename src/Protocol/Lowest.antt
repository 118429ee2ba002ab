-- ===== src/Protocol/Lowest.antt =====
-- group/dlm_controld/cpg.c: the version that is proposed is the lowest of all.
use dlm.Base.{
  ℕ, ◌≤◌, ◌<◌, ◌≡◌, ◌≢◌, ◌⊎◌, refl, sym, ◌∙◌, Bool, true, false, ◌&&◌, ◌||◌, some, List, [], ◌∷◌,
  ◌==◌, ltb, if◌then◌else◌, All, arith, Bool-cases, eq→==, ne→==, inl, inr,
}
use dlm.Protocol.{Version, lower_of, pick_lowest, pick_min, has_zero}

-- No number of the version is 0.
abbrev pub IsVersion : Version → Type 0
IsVersion v = has_zero v ≡ false

lower_of-cases :
    (low x : ℕ)
    → ((lower_of low x ≡ x) × (low ≢ 0 → x ≤ low))
      ⊎ ((lower_of low x ≡ low) × (low ≢ 0) × (low ≤ x))
lower_of-cases low x = elim (Bool-cases (low == 0 || ltb x low)) [
  | inl c ↦ inl (rw c refl, λ k. ground arith)
  | inr c ↦ inr (rw c refl, ground arith, ground arith)
]

module _ (test : Version → Bool) (part : Version → ℕ) where
  -- A version that passes the test has at least this part.
  abbrev pub NotLess : ℕ → Version → Type 0
  NotLess low v = test v ≡ true → low ≤ part v

  pub data IsPart (low : ℕ) : List Version → Type 0 where
    first :
        (v : Version) (rest : List Version) → test v ≡ true → part v ≡ low → IsPart low (v ∷ rest)
    later : (v : Version) (rest : List Version) → IsPart low rest → IsPart low (v ∷ rest)

  pub record IsPicked (low out : ℕ) (vs : List Version) : Type 0 where
    pub least : All (NotLess out) vs
    pub bound : low ≢ 0 → (out ≢ 0) × (out ≤ low)
    pub from : (out ≡ low) ⊎ IsPart out vs

  IsPicked-next :
      (low next out : ℕ) (v : Version) (rest : List Version)
      → test v ≡ true
      → part v ≢ 0
      → ((next ≡ part v) × (low ≢ 0 → part v ≤ low)) ⊎ ((next ≡ low) × (low ≢ 0) × (low ≤ part v))
      → IsPicked next out rest
      → IsPicked low out (v ∷ rest)
  IsPicked-next low next out v rest t h (inl c) ih =
      let b = ih.bound (λ z. h (sym c.0 ∙ z)) in
      record {
        least = (λ t'. omega (arith, b.1, c.0), ih.least);
        bound = λ k. (b.0, omega (arith, b.1, c.0, c.1 k));
        from = elim ih.from [
          | inl k ↦ inr (first v rest t (sym (k ∙ c.0)))
          | inr k ↦ inr (later v rest k)
        ];
      }
  IsPicked-next low next out v rest t h (inr c) ih =
      let b = ih.bound (λ z. c.1 (sym c.0 ∙ z)) in
      record {
        least = (λ t'. omega (arith, b.1, c.0, c.2), ih.least);
        bound = λ k. (b.0, omega (arith, b.1, c.0));
        from = elim ih.from [ inl k ↦ inl (k ∙ c.0) | inr k ↦ inr (later v rest k) ];
      }

  pub pick_lowest_lem :
      (low : ℕ) (vs : List Version)
      → All (λ v. part v ≢ 0) vs
      → IsPicked low (pick_lowest test part low vs) vs
  unfolding pick_lowest
  pick_lowest_lem low [] h = record { least = tt; bound = λ k. (k, omega arith); from = inl refl }
  pick_lowest_lem low (v ∷ rest) h = elim (Bool-cases (test v)) [
    | inr e ↦
        let ih = pick_lowest_lem low rest h.1 in
        rw (e, pick_lowest)
          (record {
            least = (λ t. absurd cc, ih.least);
            bound = ih.bound;
            from = elim ih.from [ inl k ↦ inl k | inr k ↦ inr (later v rest k) ];
          })
    | inl e ↦
        let next = lower_of low (part v) in
        let ih = pick_lowest_lem next rest h.1 in
        rw (e, pick_lowest)
          (IsPicked-next low next (pick_lowest test part next rest) v rest e h.0
            (lower_of-cases low (part v)) ih)
  ]

-- The version is not above another, in the order of major, minor and patch.
abbrev pub NotAbove : Version → Version → Type 0
NotAbove v w =
    (v.major < w.major)
    ⊎ ((v.major ≡ w.major) × ((v.minor < w.minor) ⊎ ((v.minor ≡ w.minor) × (v.patch ≤ w.patch))))

lowest_of :
    (major minor patch : ℕ) (vs : List Version)
    → All (NotLess (λ v. true) (λ v. v.major) major) vs
    → All (NotLess (λ v. major == v.major) (λ v. v.minor) minor) vs
    → All (NotLess (λ v. major == v.major && minor == v.minor) (λ v. v.patch) patch) vs
    → All (NotAbove (record { major = major; minor = minor; patch = patch; flags = 0 })) vs
lowest_of major minor patch [] a b c = tt
lowest_of major minor patch (v ∷ rest) a b c =
    (ground (arith, a.0, b.0, c.0), lowest_of major minor patch rest a.1 b.1 c.1)

-- One of the versions has these numbers.
pub data IsOneOf (v : Version) : List Version → Type 0 where
  here :
      (w : Version) (rest : List Version)
      → w.major ≡ v.major
      → w.minor ≡ v.minor
      → w.patch ≡ v.patch
      → IsOneOf v (w ∷ rest)
  there : (w : Version) (rest : List Version) → IsOneOf v rest → IsOneOf v (w ∷ rest)

-- Some version passes the test.
data HasOne (test : Version → Bool) : List Version → Type 0 where
  one_here : (v : Version) (rest : List Version) → test v ≡ true → HasOne test (v ∷ rest)
  one_later : (v : Version) (rest : List Version) → HasOne test rest → HasOne test (v ∷ rest)

pick_lowest-not_zero :
    (test : Version → Bool) (part : Version → ℕ) (low : ℕ) (vs : List Version)
    → All (λ v. part v ≢ 0) vs
    → HasOne test vs
    → pick_lowest test part low vs ≢ 0
unfolding pick_lowest
pick_lowest-not_zero test part low [] h k = elim k [ ]
pick_lowest-not_zero test part low (v ∷ rest) h (one_here _ _ t) =
    let next = lower_of low (part v) in
    let ih = pick_lowest_lem test part next rest h.1 in
    rw t
      (ih.bound (elim (lower_of-cases low (part v)) [
        | inl c ↦ λ z. h.0 (sym c.0 ∙ z)
        | inr c ↦ λ z. c.1 (sym c.0 ∙ z)
      ])).0
pick_lowest-not_zero test part low (v ∷ rest) h (one_later _ _ k) =
    pick_lowest-not_zero test part (if test v then lower_of low (part v) else low) rest h.1 k

-- A part that was picked, where there is one to pick.
picked :
    (test : Version → Bool) (part : Version → ℕ) (vs : List Version)
    → All (λ v. part v ≢ 0) vs
    → HasOne test vs
    → let out = pick_lowest test part 0 vs in
      (out ≢ 0) × All (NotLess test part out) vs × IsPart test part out vs
picked test part vs h one =
    let k = pick_lowest-not_zero test part 0 vs h one in
    let p = pick_lowest_lem test part 0 vs h in
    (k, p.least, elim p.from [ inl z ↦ absurd (k z) | inr z ↦ z ])

module _ (major : ℕ) where
  same_major :
      (vs : List Version)
      → IsPart (λ v. true) (λ v. v.major) major vs
      → HasOne (λ v. major == v.major) vs
  same_major [] k = elim k [ ]
  same_major (v ∷ rest) (first _ _ t e) = one_here v rest (eq→== _ _ (sym e))
  same_major (v ∷ rest) (later _ _ k) = one_later v rest (same_major rest k)

  same_minor :
      (minor : ℕ) (vs : List Version)
      → IsPart (λ v. major == v.major) (λ v. v.minor) minor vs
      → HasOne (λ v. major == v.major && minor == v.minor) vs
  same_minor minor [] k = elim k [ ]
  same_minor minor (v ∷ rest) (first _ _ t e) =
      one_here v rest (rw (t, eq→== minor v.minor (sym e)) refl)
  same_minor minor (v ∷ rest) (later _ _ k) = one_later v rest (same_minor minor rest k)

  same_patch :
      (minor patch : ℕ) (vs : List Version)
      → IsPart (λ v. major == v.major && minor == v.minor) (λ v. v.patch) patch vs
      → IsOneOf (record { major = major; minor = minor; patch = patch; flags = 0 }) vs
  same_patch minor patch [] k = elim k [ ]
  same_patch minor patch (v ∷ rest) (first _ _ t e) = here v rest (ground arith) (ground arith) e
  same_patch minor patch (v ∷ rest) (later _ _ k) = there v rest (same_patch minor patch rest k)

All-part :
    (part : Version → ℕ) (vs : List Version)
    → ((v : Version) → IsVersion v → part v ≢ 0)
    → All IsVersion vs
    → All (λ v. part v ≢ 0) vs
All-part part [] k h = tt
All-part part (v ∷ rest) k h = (k v h.0, All-part part rest k h.1)

-- From one or more versions without a zero, a version is picked that has the numbers of one of
-- them and is not above any of them in the order of major, minor and patch.
pub pick_min_lem :
    (v : Version) (rest : List Version)
    → All IsVersion (v ∷ rest)
    → (w : Version) × (pick_min (v ∷ rest) ≡ some w)
      × All (NotAbove w) (v ∷ rest)
      × IsOneOf w (v ∷ rest)
unfolding pick_min
pick_min_lem v rest h =
    let vs = v ∷ rest in
    let a =
      picked (λ v. true) (λ v. v.major) vs (All-part (λ v. v.major) vs (λ v k. ground arith) h)
        (one_here v rest refl) in
    let major = pick_lowest (λ v. true) (λ v. v.major) 0 vs in
    let b =
      picked (λ v. major == v.major) (λ v. v.minor) vs
        (All-part (λ v. v.minor) vs (λ v k. ground arith) h) (same_major major vs a.2) in
    let minor = pick_lowest (λ v. major == v.major) (λ v. v.minor) 0 vs in
    let c =
      picked (λ v. major == v.major && minor == v.minor) (λ v. v.patch) vs
        (All-part (λ v. v.patch) vs (λ v k. ground arith) h) (same_minor major minor vs b.2) in
    let patch = pick_lowest (λ v. major == v.major && minor == v.minor) (λ v. v.patch) 0 vs in
    (
      record { major = major; minor = minor; patch = patch; flags = 0 },
      rw (ne→== major 0 a.0, ne→== minor 0 b.0, ne→== patch 0 c.0) refl,
      lowest_of major minor patch vs a.1 b.1 c.1,
      same_patch major minor patch vs c.2,
    )
