-- ===== src/Prelude/Words.antt =====
-- Machine words: little-endian fields of 4 and 8 bytes, `int` as a bit pattern, and wrap-around.
use Prim.Native.Nat.{ℕ, zero, suc, ◌+◌, ◌-◌, ◌*◌, ◌/◌, ◌%◌, ◌^◌}
use mathlib.Core.Path.{◌≡◌, refl, ap}
use mathlib.Core.List.{[], ◌∷◌}
use native.Mathlib.Omega.{arith}
use replication_protos.Prelude.Tests.{ltb, if◌then◌else◌}
use replication_protos.Prelude.Lists.{length}
use replication_protos.Prelude.Memory.{Bytes}

abbrev pub u32_mod : ℕ
u32_mod = 2 ^ 32

abbrev pub u64_mod : ℕ
u64_mod = 2 ^ 64

-- The bytes of an object of `n` bytes that holds `w`, lowest first, as on x86.
unfoldable pub encode_le : ℕ → ℕ → Bytes
encode_le zero w = []
encode_le (suc n) w = w % 256 ∷ encode_le n (w / 256)

unfoldable pub decode_le : Bytes → ℕ
decode_le [] = 0
decode_le (b ∷ bs) = b + 256 * decode_le bs

pub length-encode_le : (n w : ℕ) → length (encode_le n w) ≡ n
unfolding encode_le
length-encode_le zero w = refl
length-encode_le (suc n) w = ap suc (length-encode_le n (w / 256))

pub decode-encode_u32 : (w : ℕ) → decode_le (encode_le 4 w) ≡ w % u32_mod
unfolding encode_le decode_le
decode-encode_u32 w = omega arith

pub decode-encode_u64 : (w : ℕ) → decode_le (encode_le 8 w) ≡ w % u64_mod
unfolding encode_le decode_le
decode-encode_u64 w = omega arith

-- `-1` as an `int` or a `uint32_t`.
abbrev pub minus_one : ℕ
minus_one = u32_mod - 1

-- The conversion of an `int`, given by its bit pattern, to `uint64_t`.
unfoldable pub sign_extend : ℕ → ℕ
sign_extend w = if ltb w (2 ^ 31) then w else w + (u64_mod - u32_mod)
