-- ===== src/Prelude/Words.antt =====
-- Machine words as native numbers, with the wrap of each width written out, and tables that decide
-- a fact about every byte by evaluation.
use Prim.Native.Nat.{ℕ, zero, suc, ◌+◌, ◌-◌, ◌%◌, ◌^◌, ◌<◌}
use mathlib.Core.Path.{◌≡◌, sym, ap, ◌∙◌}
use mathlib.Core.Bool.{Bool, true, false}
use mathlib.Core.Logic.{inl, inr}
use native.Mathlib.Omega.{arith}
use webrtc_stream_server.Prelude.Tests.{◌==◌, ==_iff, if◌then◌else◌, Bool-cases}

abbrev pub u8 : ℕ → ℕ
u8 n = n % 2 ^ 8

abbrev pub u16 : ℕ → ℕ
u16 n = n % 2 ^ 16

abbrev pub u32 : ℕ → ℕ
u32 n = n % 2 ^ 32

abbrev pub u64 : ℕ → ℕ
u64 n = n % 2 ^ 64

abbrev pub IsByte : ℕ → Type 0
IsByte b = b < 256

-- `size_t` and `uint64_t` differences wrap.
abbrev pub sub64 : ℕ → ℕ → ℕ
sub64 a b = u64 (a + 2 ^ 64 - b)

abbrev pub sub32 : ℕ → ℕ → ℕ
sub32 a b = u32 (a + 2 ^ 32 - b)

-- A table of the values on which two functions are compared.
unfoldable pub same_table : (ℕ → ℕ) → (ℕ → ℕ) → ℕ → Bool
same_table f g zero = true
same_table f g (suc size) = if f size == g size then same_table f g size else false

-- Two functions that agree on a table agree at each value of it.
pub same_table_at : (f g : ℕ → ℕ) (size b : ℕ) → b < size → same_table f g size ≡ true → f b ≡ g b
unfolding same_table
same_table_at f g zero b lt same = absurd (omega arith)
same_table_at f g (suc size) b lt same = elim (Bool-cases (b == size)) [
  | inl e ↦
      let at : b ≡ size = (==_iff b size).0 e in
      let here : f size ≡ g size = ground arith in ap f at ∙ here ∙ sym (ap g at)
  | inr e ↦ same_table_at f g size b (ground arith) (ground arith)
]
