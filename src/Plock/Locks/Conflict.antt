-- ===== src/Plock/Locks/Conflict.antt =====
-- `is_conflict` of group/dlm_controld/plock.c, byte by byte.
use dlm.Base.{
  ℕ, ◌≤◌, ◌<◌, ◌≡◌, ◌≢◌, ◌⊎◌, inl, inr, refl, ap, false, List, [], ◌∷◌, ◌++◌, All, ltb, arith,
  if◌then◌else◌, Bool-cases, some,
}
use dlm.Plock.Types.{Info, PosixLock}
use dlm.Plock.Locks.{conflicts, find_conflict, is_conflict}
use dlm.Plock.Locks.View.{sum_at, count_at, ex_at, IsLock, IsRequest, sum_at-zero}

-- Another process than the one of `i`.
abbrev pub Other : Info → ℕ → ℕ → Type 0
Other i n o = (i.nodeid ≡ n → i.owner ≡ o → ⊥)

-- Where no conflict is found, every other process holds nothing at each byte of the range, or
-- both only read.
pub is_conflict-false :
    (locks : List PosixLock) (i : Info) (n o x : ℕ)
    → is_conflict locks i ≡ false
    → Other i n o
    → i.start ≤ x
    → x ≤ i.end
    → (count_at locks n o x ≡ 0) ⊎ ((i.ex ≡ 0) × (ex_at locks n o x ≡ 0))
unfolding is_conflict find_conflict sum_at
is_conflict-false [] i n o x h other a b = inl refl
is_conflict-false (po ∷ rest) i n o x h other a b = elim (Bool-cases (conflicts po i)) [
  | inl hit ↦ cc (rw hit at h)
  | inr miss ↦ ground (
    arith,
    is_conflict-false rest i n o x (rw miss at h) other a b,
    sum_at-zero (λ ex. ex) rest n o x,
  )
]

-- On valid locks, the lock reported as a conflict with a valid request is one of the list,
-- belongs to another process, shares a byte with the request, and one of the two writes.
pub find_conflict-some :
    (locks : List PosixLock) (i : Info) (po : PosixLock)
    → All IsLock locks
    → IsRequest i
    → find_conflict locks i ≡ some po
    → ((before : List PosixLock) × (after : List PosixLock) × (locks ≡ before ++ po ∷ after))
      × Other i po.nodeid po.owner
      × ((i.ex ≢ 0) ⊎ (po.ex ≢ 0))
      × ((x : ℕ) × (i.start ≤ x)
          × (x ≤ i.end)
          × (po.start ≤ x)
          × (x ≤ po.end)
          × (0 < count_at locks po.nodeid po.owner x))
unfolding find_conflict sum_at
find_conflict-some [] i po valid request h = cc
find_conflict-some (q ∷ rest) i po valid request h = elim (Bool-cases (conflicts q i)) [
  | inl hit ↦ (
    ([], rest, let e : q ≡ po = ground arith in ap (λ p. p ∷ rest) e),
    ground arith,
    ground arith,
    (
      (if ltb q.start i.start then i.start else q.start),
      ground (arith, valid, request),
      ground (arith, valid, request),
      ground (arith, valid, request),
      ground (arith, valid, request),
      ground (arith, valid, request),
    ),
  )
  | inr miss ↦
      let ih = find_conflict-some rest i po valid.1 request (rw miss at h) in
      let (before, after, at) = ih.0 in
      let (x, low, high, from, to, held) = ih.3 in
      (
        (q ∷ before, after, ap (λ l. q ∷ l) at),
        ih.1,
        ih.2,
        (x, low, high, from, to, ground (arith, held)),
      )
]
