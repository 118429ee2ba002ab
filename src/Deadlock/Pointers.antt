-- ===== src/Deadlock/Pointers.antt =====
-- The pointers of `waitfor`, which group/dlm_controld/deadlock.c counts in `others_waiting_on_us`.
use dlm.Base.{
  ℕ, suc, ◌+◌, ◌-◌, ◌<◌, ◌≤◌, ◌≡◌, ◌≢◌, refl, Option, none, some, List, [], ◌∷◌, ◌++◌, ◌==◌,
  if◌then◌else◌, All, arith, Bool-cases, inl, inr,
}
use dlm.Deadlock.{Trans, pred_int, remove_slots, remove_waitfor, remove_loop}
use dlm.Deadlock.Reduce.{in_use, remove_slots-count}

-- The slots that point to a transaction.
abbrev pub pointers : ℕ → List (Option ℕ) → ℕ
pointers y [] = 0
pointers y (none ∷ rest) = pointers y rest
pointers y (some x ∷ rest) = if x == y then suc (pointers y rest) else pointers y rest

abbrev pub pointers_in : ℕ → List Trans → ℕ
pointers_in y [] = 0
pointers_in y (tr ∷ rest) = pointers y tr.waitfor + pointers_in y rest

-- The number of transactions with an xid, and the sum of their `others_waiting_on_us`.
abbrev pub named : ℕ → List Trans → ℕ
named y [] = 0
named y (tr ∷ rest) = if tr.xid == y then suc (named y rest) else named y rest

abbrev pub awaited : ℕ → List Trans → ℕ
awaited y [] = 0
awaited y (tr ∷ rest) =
    if tr.xid == y then tr.others_waiting_on_us + awaited y rest else awaited y rest

abbrev pub IsCounted : Trans → Type 0
IsCounted tr = (tr.waitfor_count ≡ in_use tr.waitfor) × (tr.others_waiting_on_us < 4294967296)

pub pointers-in_use : (x : ℕ) (slots : List (Option ℕ)) → pointers x slots ≤ in_use slots
pointers-in_use x [] = omega arith
pointers-in_use x (none ∷ rest) = pointers-in_use x rest
pointers-in_use x (some y ∷ rest) = ground (arith, pointers-in_use x rest)

-- No pointer to the transaction is left, and each was taken off `others`.
remove_slots-clears :
    (slots : List (Option ℕ)) (x k count others m : ℕ)
    → count ≡ k + in_use slots
    → others ≡ pointers x slots + m
    → others < 4294967296
    → let out = remove_slots slots x count others in (pointers x out.waitfor ≡ 0) × (out.others ≡ m)
unfolding remove_slots
remove_slots-clears [] x k count others m c o s = (refl, omega arith)
remove_slots-clears (none ∷ rest) x k count others m c o s = elim (Bool-cases (count == 0)) [
  | inl e ↦ ground (arith, pointers-in_use x rest)
  | inr e ↦ rw (e, remove_slots) (remove_slots-clears rest x k count others m c o s)
]
remove_slots-clears (some y ∷ rest) x k count others m c o s = elim (Bool-cases (count == 0)) [
  | inl e ↦ ground arith
  | inr e ↦ elim (Bool-cases (y == x)) [
    | inl hit ↦
        rw (e, hit, remove_slots)
          (remove_slots-clears rest x k (count - 1) (pred_int others) m (omega arith) (ground arith)
            (ground arith))
    | inr miss ↦
        let ih = remove_slots-clears rest x (suc k) count others m (omega arith) (ground arith) s in
        rw (e, miss, remove_slots) (ground (arith, ih.0), ih.1)
  ]
]

remove_slots-others :
    (slots : List (Option ℕ)) (x y count others : ℕ)
    → x ≢ y
    → pointers y (remove_slots slots x count others).waitfor ≡ pointers y slots
unfolding remove_slots
remove_slots-others [] x y count others ne = refl
remove_slots-others (none ∷ rest) x y count others ne =
    ground (arith, remove_slots-others rest x y count others ne)
remove_slots-others (some z ∷ rest) x y count others ne = elim (Bool-cases (count == 0)) [
  | inl e ↦ rw (e, remove_slots) refl
  | inr e ↦ elim (Bool-cases (z == x)) [
    | inl hit ↦
        rw (e, hit, remove_slots)
          (ground (arith, remove_slots-others rest x y (count - 1) (pred_int others) ne))
    | inr miss ↦
        rw (e, miss, remove_slots) (ground (arith, remove_slots-others rest x y count others ne))
  ]
]

pub remove_loop-clears :
    (ts : List Trans) (gone : Trans) (m : ℕ)
    → All IsCounted ts
    → gone.others_waiting_on_us ≡ pointers_in gone.xid ts + m
    → gone.others_waiting_on_us < 4294967296
    → let out = remove_loop ts gone in
      (pointers_in gone.xid out.0 ≡ 0) × (out.1.others_waiting_on_us ≡ m)
unfolding remove_loop remove_waitfor
remove_loop-clears [] gone m c o s = (refl, omega arith)
remove_loop-clears (tr ∷ rest) gone m c o s = elim (Bool-cases (gone.others_waiting_on_us == 0)) [
  | inl e ↦ rw (e, remove_loop) (ground arith)
  | inr e ↦
      let first =
        remove_slots-clears tr.waitfor gone.xid 0 tr.waitfor_count gone.others_waiting_on_us
          (pointers_in gone.xid rest + m) (omega (arith, c.0.0)) (omega arith) s in
      let ih = remove_loop-clears rest (remove_waitfor tr gone).1 m c.1 first.1 (omega arith) in
      rw (e, remove_loop) (omega (arith, first.0, ih.0), ih.1)
]

pub remove_loop-IsCounted :
    (ts : List Trans) (gone : Trans) → All IsCounted ts → All IsCounted (remove_loop ts gone).0
unfolding remove_loop remove_waitfor
remove_loop-IsCounted [] gone c = tt
remove_loop-IsCounted (tr ∷ rest) gone c = elim (Bool-cases (gone.others_waiting_on_us == 0)) [
  | inl e ↦ rw (e, remove_loop) c
  | inr e ↦
      let first =
        remove_slots-count tr.waitfor gone.xid 0 tr.waitfor_count gone.others_waiting_on_us
          (omega (arith, c.0.0)) in
      rw (e, remove_loop)
        ((omega (arith, first), c.0.1), remove_loop-IsCounted rest (remove_waitfor tr gone).1 c.1)
]

-- The other pointers, the names and the sums stay.
pub remove_loop-pointers :
    (ts : List Trans) (gone : Trans) (y : ℕ)
    → gone.xid ≢ y
    → pointers_in y (remove_loop ts gone).0 ≡ pointers_in y ts
unfolding remove_loop remove_waitfor
remove_loop-pointers [] gone y ne = refl
remove_loop-pointers (tr ∷ rest) gone y ne = elim (Bool-cases (gone.others_waiting_on_us == 0)) [
  | inl e ↦ rw (e, remove_loop) refl
  | inr e ↦
      let first =
        remove_slots-others tr.waitfor gone.xid y tr.waitfor_count gone.others_waiting_on_us ne in
      rw (e, remove_loop)
        (omega (arith, first, remove_loop-pointers rest (remove_waitfor tr gone).1 y ne))
]

pub remove_loop-named :
    (ts : List Trans) (gone : Trans) (y : ℕ) → named y (remove_loop ts gone).0 ≡ named y ts
unfolding remove_loop remove_waitfor
remove_loop-named [] gone y = refl
remove_loop-named (tr ∷ rest) gone y =
    ground (arith, remove_loop-named rest (remove_waitfor tr gone).1 y)

pub remove_loop-awaited :
    (ts : List Trans) (gone : Trans) (y : ℕ) → awaited y (remove_loop ts gone).0 ≡ awaited y ts
unfolding remove_loop remove_waitfor
remove_loop-awaited [] gone y = refl
remove_loop-awaited (tr ∷ rest) gone y =
    ground (arith, remove_loop-awaited rest (remove_waitfor tr gone).1 y)

pub pointers_in-append :
    (y : ℕ) (xs ys : List Trans) → pointers_in y (xs ++ ys) ≡ pointers_in y xs + pointers_in y ys
pointers_in-append y [] ys = omega arith
pointers_in-append y (x ∷ xs) ys = omega (arith, pointers_in-append y xs ys)

pub named-append : (y : ℕ) (xs ys : List Trans) → named y (xs ++ ys) ≡ named y xs + named y ys
named-append y [] ys = omega arith
named-append y (x ∷ xs) ys = ground (arith, named-append y xs ys)

pub awaited-append :
    (y : ℕ) (xs ys : List Trans) → awaited y (xs ++ ys) ≡ awaited y xs + awaited y ys
awaited-append y [] ys = omega arith
awaited-append y (x ∷ xs) ys = ground (arith, awaited-append y xs ys)

-- A transaction that is not there awaits nothing.
pub awaited-named : (y : ℕ) (xs : List Trans) → named y xs ≡ 0 → awaited y xs ≡ 0
awaited-named y [] h = refl
awaited-named y (x ∷ xs) h = ground (arith, awaited-named y xs)
