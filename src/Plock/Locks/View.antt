-- ===== src/Plock/Locks/View.antt =====
-- The granted locks as a function of the process and the byte: how many locks cover it, and in
-- which mode.
use dlm.Base.{
  ℕ, ◌+◌, ◌≤◌, ◌<◌, ◌≡◌, Bool, ◌&&◌, List, [], ◌∷◌, ◌++◌, leb, ◌==◌, arith, if◌then◌else◌, u64_mod,
}
use dlm.Plock.Types.{Info, PosixLock}

-- The lock is held by owner `o` on node `n` and covers byte `x`.
abbrev pub holds : PosixLock → ℕ → ℕ → ℕ → Bool
holds po n o x = (po.nodeid == n && po.owner == o) && (leb po.start x && leb x po.end)

-- The sum of `f` of the mode, over the locks of the process that cover the byte.
unfoldable pub sum_at : (ℕ → ℕ) → List PosixLock → ℕ → ℕ → ℕ → ℕ
sum_at f [] n o x = 0
sum_at f (po ∷ rest) n o x =
    let below = sum_at f rest n o x in if holds po n o x then f po.ex + below else below

-- How many locks of the process cover the byte.
abbrev pub count_at : List PosixLock → ℕ → ℕ → ℕ → ℕ
count_at = sum_at (λ ex. 1)

-- Not 0 if one of them is a write lock.
abbrev pub ex_at : List PosixLock → ℕ → ℕ → ℕ → ℕ
ex_at = sum_at (λ ex. ex)

-- The request is from owner `o` on node `n`, and byte `x` lies in its range.
abbrev pub asks : Info → ℕ → ℕ → ℕ → Bool
asks i n o x = (i.nodeid == n && i.owner == o) && (leb i.start x && leb x i.end)

-- A range of 64-bit numbers that is not empty, and a mode that is 0 or 1.
pub record IsRange (start end ex : ℕ) : Type 0 where
  pub ordered : start ≤ end
  pub fits : end < u64_mod
  pub flag : ex ≤ 1

abbrev pub IsLock : PosixLock → Type 0
IsLock po = IsRange po.start po.end po.ex

abbrev pub IsRequest : Info → Type 0
IsRequest i = IsRange i.start i.end i.ex

pub sum_at-append :
    (f : ℕ → ℕ) (xs ys : List PosixLock) (n o x : ℕ)
    → sum_at f (xs ++ ys) n o x ≡ sum_at f xs n o x + sum_at f ys n o x
unfolding sum_at
sum_at-append f [] ys n o x = omega arith
sum_at-append f (po ∷ xs) ys n o x = ground (arith, sum_at-append f xs ys n o x)

-- Where no lock covers, there is no mode.
pub sum_at-zero :
    (f : ℕ → ℕ) (xs : List PosixLock) (n o x : ℕ) → count_at xs n o x ≡ 0 → sum_at f xs n o x ≡ 0
unfolding sum_at
sum_at-zero f [] n o x h = omega arith
sum_at-zero f (po ∷ xs) n o x h = ground (arith, sum_at-zero f xs n o x)
