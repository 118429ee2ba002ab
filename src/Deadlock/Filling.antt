-- ===== src/Deadlock/Filling.antt =====
-- group/dlm_controld/deadlock.c: the slots of `waitfor` while they are filled, and the list of
-- transactions.
use dlm.Base.{
  ℕ, zero, suc, ◌+◌, ◌≤◌, ◌<◌, ◌≡◌, refl, sym, ap, ◌∙◌, false, Option, none, some, List, [], ◌∷◌,
  ◌++◌, ◌==◌, if◌then◌else◌, length, All, arith, Bool-cases, ==→eq, inl, inr,
}
use mathlib.Core.Path.{subst}
use dlm.Deadlock.{Trans, in_waitfor}
use dlm.Deadlock.Reduce.{in_use}
use dlm.Deadlock.Pointers.{pointers, pointers_in, named, awaited}
use dlm.Deadlock.Graph.{find_trans, change_trans, set_slot, empty_slots}

-- The slots behind the first `n` are empty, and these are not.
abbrev pub IsPrefix : ℕ → List (Option ℕ) → Type 0
IsPrefix n [] = n ≡ 0
IsPrefix zero (some x ∷ rest) = ⊥
IsPrefix zero (none ∷ rest) = IsPrefix zero rest
IsPrefix (suc n) (none ∷ rest) = ⊥
IsPrefix (suc n) (some x ∷ rest) = IsPrefix n rest

pub set_slot-pointers :
    (x y n : ℕ) (slots : List (Option ℕ))
    → IsPrefix n slots
    → n < length slots
    → pointers y (set_slot x n slots) ≡ pointers y slots + (if x == y then 1 else 0)
unfolding set_slot
set_slot-pointers x y n [] p h = ground arith
set_slot-pointers x y zero (some z ∷ rest) p h = absurd p
set_slot-pointers x y zero (none ∷ rest) p h = ground arith
set_slot-pointers x y (suc n) (none ∷ rest) p h = absurd p
set_slot-pointers x y (suc n) (some z ∷ rest) p h = ground (arith, set_slot-pointers x y n rest p)

pub set_slot-IsPrefix :
    (x n : ℕ) (slots : List (Option ℕ))
    → IsPrefix n slots
    → n < length slots
    → IsPrefix (suc n) (set_slot x n slots)
unfolding set_slot
set_slot-IsPrefix x n [] p h = ground arith
set_slot-IsPrefix x zero (some z ∷ rest) p h = absurd p
set_slot-IsPrefix x zero (none ∷ rest) p h = p
set_slot-IsPrefix x (suc n) (none ∷ rest) p h = absurd p
set_slot-IsPrefix x (suc n) (some z ∷ rest) p h = set_slot-IsPrefix x n rest p (omega (arith, h))

pub IsPrefix-in_use : (n : ℕ) (slots : List (Option ℕ)) → IsPrefix n slots → n ≡ in_use slots
IsPrefix-in_use n [] p = p
IsPrefix-in_use zero (some z ∷ rest) p = absurd p
IsPrefix-in_use zero (none ∷ rest) p = IsPrefix-in_use zero rest p
IsPrefix-in_use (suc n) (none ∷ rest) p = absurd p
IsPrefix-in_use (suc n) (some z ∷ rest) p = ap suc (IsPrefix-in_use n rest p)

pub IsPrefix-grow :
    (n : ℕ) (slots : List (Option ℕ)) → IsPrefix n slots → IsPrefix n (slots ++ empty_slots)
IsPrefix-grow zero [] p = refl
IsPrefix-grow (suc n) [] p = ground arith
IsPrefix-grow zero (some z ∷ rest) p = absurd p
IsPrefix-grow zero (none ∷ rest) p = IsPrefix-grow zero rest p
IsPrefix-grow (suc n) (none ∷ rest) p = absurd p
IsPrefix-grow (suc n) (some z ∷ rest) p = IsPrefix-grow n rest p

pub set_slot-length :
    (x n : ℕ) (slots : List (Option ℕ)) → length (set_slot x n slots) ≡ length slots
unfolding set_slot
set_slot-length x n [] = refl
set_slot-length x zero (s ∷ rest) = refl
set_slot-length x (suc n) (s ∷ rest) = ap suc (set_slot-length x n rest)

pub pointers-grow :
    (y : ℕ) (slots : List (Option ℕ)) → pointers y (slots ++ empty_slots) ≡ pointers y slots
pointers-grow y [] = refl
pointers-grow y (none ∷ rest) = pointers-grow y rest
pointers-grow y (some x ∷ rest) = ground (arith, pointers-grow y rest)

pub pointers-none : (y : ℕ) (slots : List (Option ℕ)) → IsPrefix 0 slots → pointers y slots ≡ 0
pointers-none y [] p = refl
pointers-none y (none ∷ rest) p = pointers-none y rest p
pointers-none y (some x ∷ rest) p = absurd p

pub pointers-in_waitfor :
    (x : ℕ) (slots : List (Option ℕ)) → in_waitfor slots x ≡ false → pointers x slots ≡ 0
unfolding in_waitfor
pointers-in_waitfor x [] h = refl
pointers-in_waitfor x (none ∷ rest) h = pointers-in_waitfor x rest h
pointers-in_waitfor x (some y ∷ rest) h = ground (arith, pointers-in_waitfor x rest)

pub IsPrefix-length : (n : ℕ) (slots : List (Option ℕ)) → IsPrefix n slots → n ≤ length slots
IsPrefix-length n [] p = omega (arith, p)
IsPrefix-length zero (s ∷ rest) p = omega arith
IsPrefix-length (suc n) (none ∷ rest) p = absurd p
IsPrefix-length (suc n) (some x ∷ rest) p = omega (arith, IsPrefix-length n rest p)

-- The slots in use come first, and no two point to one transaction.
pub record IsFilled (tr : Trans) : Type 0 where
  pub slots : IsPrefix tr.waitfor_count tr.waitfor
  pub alloc : tr.waitfor_alloc ≡ length tr.waitfor
  pub once : (y : ℕ) → pointers y tr.waitfor ≤ 1

pub some-same : (t t' : Trans) → some t ≡ some t' → t' ≡ t
some-same t t' h = ap (λ o. elim o [ none ↦ t | some z ↦ z ]) (sym h)

-- What `find_trans` and `change_trans` do to the list.
module _ (f : Trans → Trans) (xid : ℕ) where
  pub change-pointers :
      (y : ℕ) (ts : List Trans) (tr : Trans)
      → find_trans ts xid ≡ some tr
      → pointers_in y (change_trans f xid ts) + pointers y tr.waitfor
        ≡ pointers_in y ts + pointers y (f tr).waitfor
  unfolding find_trans change_trans
  change-pointers y [] tr h = absurd cc
  change-pointers y (t ∷ rest) tr h = elim (Bool-cases (t.xid == xid)) [
    | inl e ↦
        let same = some-same t tr (rw (e, find_trans) at h) in
        rw (e, change_trans, same) (omega arith)
    | inr e ↦
        let ih = change-pointers y rest tr (rw (e, find_trans) at h) in
        rw (e, change_trans) (omega (arith, ih))
  ]

  pub change-awaited :
      (y : ℕ) (ts : List Trans) (tr : Trans)
      → find_trans ts xid ≡ some tr
      → (f tr).xid ≡ tr.xid
      → awaited y (change_trans f xid ts) + (if tr.xid == y then tr.others_waiting_on_us else 0)
        ≡ awaited y ts + (if tr.xid == y then (f tr).others_waiting_on_us else 0)
  unfolding find_trans change_trans
  change-awaited y [] tr h k = absurd cc
  change-awaited y (t ∷ rest) tr h k = elim (Bool-cases (t.xid == xid)) [
    | inl e ↦
        let same = some-same t tr (rw (e, find_trans) at h) in
        let k' = rw same at k in rw (e, change_trans, same) (ground (arith, k'))
    | inr e ↦
        let ih = change-awaited y rest tr (rw (e, find_trans) at h) k in
        rw (e, change_trans) (ground (arith, ih))
  ]

  pub change-named :
      (y : ℕ) (ts : List Trans)
      → ((t : Trans) → t.xid ≡ xid → (f t).xid ≡ xid)
      → named y (change_trans f xid ts) ≡ named y ts
  unfolding change_trans
  change-named y [] k = refl
  change-named y (t ∷ rest) k = elim (Bool-cases (t.xid == xid)) [
    | inl e ↦
        let same = k t (==→eq _ _ e) ∙ sym (==→eq _ _ e) in
        rw (e, change_trans) (ap (λ x. if x == y then suc (named y rest) else named y rest) same)
    | inr e ↦ rw (e, change_trans) (ground (arith, change-named y rest k))
  ]

  pub change-All :
      (P : Trans → Type 0) (ts : List Trans) (tr : Trans)
      → find_trans ts xid ≡ some tr
      → P (f tr)
      → All P ts
      → All P (change_trans f xid ts)
  unfolding find_trans change_trans
  change-All P [] tr h p all = tt
  change-All P (t ∷ rest) tr h p all = elim (Bool-cases (t.xid == xid)) [
    | inl e ↦
        let same = some-same t tr (rw (e, find_trans) at h) in
        rw (e, change_trans) (subst (λ z. P (f z)) same p, all.1)
    | inr e ↦ rw (e, change_trans) (all.0, change-All P rest tr (rw (e, find_trans) at h) p all.1)
  ]

  pub change-length : (ts : List Trans) → length (change_trans f xid ts) ≡ length ts
  unfolding change_trans
  change-length [] = refl
  change-length (t ∷ rest) = ground (arith, change-length rest)

pub find-All :
    (P : Trans → Type 0) (x : ℕ) (ts : List Trans) (tr : Trans)
    → find_trans ts x ≡ some tr
    → All P ts
    → P tr
unfolding find_trans
find-All P x [] tr h all = absurd cc
find-All P x (t ∷ rest) tr h all = elim (Bool-cases (t.xid == x)) [
  | inl e ↦ subst P (sym (some-same t tr (rw (e, find_trans) at h))) all.0
  | inr e ↦ find-All P x rest tr (rw (e, find_trans) at h) all.1
]

pub find-xid : (x : ℕ) (ts : List Trans) (tr : Trans) → find_trans ts x ≡ some tr → tr.xid ≡ x
unfolding find_trans
find-xid x [] tr h = absurd cc
find-xid x (t ∷ rest) tr h = elim (Bool-cases (t.xid == x)) [
  | inl e ↦ ap (λ z. z.xid) (some-same t tr (rw (e, find_trans) at h)) ∙ ==→eq _ _ e
  | inr e ↦ find-xid x rest tr (rw (e, find_trans) at h)
]

pub find-named :
    (x : ℕ) (ts : List Trans) → 1 ≤ named x ts → (tr : Trans) × (find_trans ts x ≡ some tr)
unfolding find_trans
find-named x [] h = absurd (omega (arith, h))
find-named x (t ∷ rest) h = elim (Bool-cases (t.xid == x)) [
  | inl e ↦ (t, rw (e, find_trans) refl)
  | inr e ↦ let out = find-named x rest (ground arith) in (out.0, rw (e, find_trans) out.1)
]

pub find-awaited :
    (x : ℕ) (ts : List Trans) (tr : Trans)
    → find_trans ts x ≡ some tr
    → tr.others_waiting_on_us ≤ awaited x ts
unfolding find_trans
find-awaited x [] tr h = absurd cc
find-awaited x (t ∷ rest) tr h = elim (Bool-cases (t.xid == x)) [
  | inl e ↦ let same = some-same t tr (rw (e, find_trans) at h) in rw (e, same) (omega arith)
  | inr e ↦ let ih = find-awaited x rest tr (rw (e, find_trans) at h) in rw e ih
]

pub pointers_in-length : (y : ℕ) (ts : List Trans) → All IsFilled ts → pointers_in y ts ≤ length ts
pointers_in-length y [] h = omega arith
pointers_in-length y (t ∷ rest) h = omega (arith, h.0.once y, pointers_in-length y rest h.1)
