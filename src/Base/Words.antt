-- ===== src/Base/Words.antt =====
-- C's unsigned 64-bit steps, which wrap around, and its `!`.
use Prim.Native.Nat.{ℕ, ◌+◌, ◌-◌, ◌%◌}
use dlm.Base.Tests.{◌==◌, if◌then◌else◌}

-- 2 ^ 64
abbrev pub u64_mod : ℕ
u64_mod = 18446744073709551616

-- `x + 1` and `x - 1` at `uint64_t`
abbrev pub succ_u64 : ℕ → ℕ
succ_u64 x = (x + 1) % u64_mod

abbrev pub pred_u64 : ℕ → ℕ
pred_u64 x = (x + u64_mod - 1) % u64_mod

-- The order of C's `int`: `a < b` for two values of 32-bit patterns `a` and `b` compares these.
abbrev pub int_rank : ℕ → ℕ
int_rank a = (a + 2147483648) % 4294967296

-- `!x`
abbrev pub lnot : ℕ → ℕ
lnot x = if x == 0 then 1 else 0
