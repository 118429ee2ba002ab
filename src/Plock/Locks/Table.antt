-- ===== src/Plock/Locks/Table.antt =====
-- The invariant of a resource's locks (group/dlm_controld/plock.c), and that locking and unlocking
-- keep it.
use dlm.Base.{ℕ, ◌≤◌, ◌≡◌, ◌⊎◌, inl, inr, sym, ◌∙◌, true, false, List, All, arith}
use dlm.Plock.Types.{Info, PosixLock, ok, Mem}
use dlm.Plock.Locks.{lock_internal, unlock_internal, is_conflict}
use dlm.Plock.Locks.View.{count_at, ex_at, asks, IsLock, IsRequest, sum_at-zero}
use dlm.Plock.Locks.Lock.{lock_internal-Granted}
use dlm.Plock.Locks.Unlock.{unlock_internal-Released}
use dlm.Plock.Locks.Cover.{lock_internal-zero, unlock_internal-zero}
use dlm.Plock.Locks.Conflict.{is_conflict-false}
use dlm.Plock.Locks.Valid.{lock_internal-Sound, unlock_internal-Sound}

-- No byte is locked by two processes of which one writes.
abbrev pub Compatible : List PosixLock → Type 0
Compatible locks =
    (n o n' o' x : ℕ)
    → (n ≡ n' → o ≡ o' → ⊥)
    → (ex_at locks n o x ≡ 0) ⊎ (count_at locks n' o' x ≡ 0)

-- What holds of the list even when memory runs out.
pub record IsSafe (locks : List PosixLock) : Type 0 where
  pub valid : All IsLock locks
  pub compatible : Compatible locks

-- A process has one lock at a byte at most.
abbrev pub Single : List PosixLock → Type 0
Single locks = (n o x : ℕ) → count_at locks n o x ≤ 1

asks_cases :
    (i : Info) (n o x : ℕ)
    → ((asks i n o x ≡ true) × (i.nodeid ≡ n) × (i.owner ≡ o) × (i.start ≤ x) × (x ≤ i.end))
      ⊎ (asks i n o x ≡ false)
asks_cases i n o x = ground arith

module _ (mem : Mem) (locks : List PosixLock) (i : Info) (safe : IsSafe locks)
    (request : IsRequest i) where
  lock-count :
      (n o x : ℕ)
      → count_at locks n o x ≡ 0
      → asks i n o x ≡ false
      → count_at (lock_internal mem locks i).locks n o x ≡ 0
  lock-count n o x h a =
      lock_internal-zero (λ ex. 1) mem locks i n o x safe.valid request h
        (λ e. ground (arith, a, e))

  lock-ex :
      (n o x : ℕ)
      → ex_at locks n o x ≡ 0
      → (asks i n o x ≡ true → i.ex ≡ 0)
      → ex_at (lock_internal mem locks i).locks n o x ≡ 0
  lock-ex n o x h a = lock_internal-zero (λ ex. ex) mem locks i n o x safe.valid request h a

  not_asks :
      (n o n' o' x : ℕ)
      → i.nodeid ≡ n
      → i.owner ≡ o
      → (n ≡ n' → o ≡ o' → ⊥)
      → asks i n' o' x ≡ false
  not_asks n o n' o' x p q ne = ground arith

  -- On locks with this property, a valid request without a conflict, granted or failed for lack
  -- of memory, leaves no byte locked by two processes of which one writes, and only valid
  -- ranges.
  pub lock_internal-IsSafe : is_conflict locks i ≡ false → IsSafe (lock_internal mem locks i).locks
  lock_internal-IsSafe free = record {
    valid = (lock_internal-Sound mem locks i safe.valid request).0;
    compatible = λ n o n' o' x ne. elim (asks_cases i n o x) [
      | inl (a, p, q, lo, hi) ↦
          elim (is_conflict-false locks i n' o' x free (λ s t. ne (sym p ∙ s) (sym q ∙ t)) lo hi) [
            | inl clear ↦ inr (lock-count n' o' x clear (not_asks n o n' o' x p q ne))
            | inr (e, clear) ↦ elim (safe.compatible n o n' o' x ne) [
              | inl h ↦ inl (lock-ex n o x h (λ _. e))
              | inr h ↦ inr (lock-count n' o' x h (not_asks n o n' o' x p q ne))
            ]
          ]
      | inr a ↦ elim (asks_cases i n' o' x) [
        | inl (b, p, q, lo, hi) ↦
            elim (is_conflict-false locks i n o x free (λ s t. ne (sym s ∙ p) (sym t ∙ q)) lo hi) [
              | inl clear ↦ inl (
                  lock-ex n o x (sum_at-zero (λ ex. ex) locks n o x clear)
                    (λ e. ground (arith, a, e)))
              | inr (_, clear) ↦ inl (lock-ex n o x clear (λ e. ground (arith, a, e)))
            ]
        | inr b ↦ elim (safe.compatible n o n' o' x ne) [
          | inl h ↦ inl (lock-ex n o x h (λ e. ground (arith, a, e)))
          | inr h ↦ inr (lock-count n' o' x h b)
        ]
      ]
    ];
  }

  -- On locks with this property, a valid unlock, also one that fails for lack of memory, leaves
  -- no byte locked by two processes of which one writes, and only valid ranges.
  pub unlock_internal-IsSafe : IsSafe (unlock_internal mem locks i).locks
  unlock_internal-IsSafe = record {
    valid = (unlock_internal-Sound mem locks i safe.valid request).0;
    compatible = λ n o n' o' x ne. elim (safe.compatible n o n' o' x ne) [
      | inl h ↦ inl (unlock_internal-zero (λ ex. ex) mem locks i n o x safe.valid request h)
      | inr h ↦ inr (unlock_internal-zero (λ ex. 1) mem locks i n' o' x safe.valid request h)
    ];
  }

  -- On locks that no two processes hold in conflict, a valid request that returns 0 leaves each
  -- process at most one lock at each byte, when this was so before.
  pub lock_internal-Single :
      Single locks → (lock_internal mem locks i).rv ≡ ok → Single (lock_internal mem locks i).locks
  lock_internal-Single single done n o x = ground (
    arith,
    single n o x,
    lock_internal-Granted (λ ex. 1) mem locks i n o x safe.valid request (single n o x) done,
  )

  -- On locks that no two processes hold in conflict, a valid unlock that returns 0 leaves each
  -- process at most one lock at each byte, when this was so before.
  pub unlock_internal-Single :
      Single locks
      → (unlock_internal mem locks i).rv ≡ ok
      → Single (unlock_internal mem locks i).locks
  unlock_internal-Single single done n o x = ground (
    arith,
    single n o x,
    unlock_internal-Released (λ ex. 1) mem locks i n o x safe.valid request (single n o x) done,
  )
