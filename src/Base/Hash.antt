-- ===== src/Base/Hash.antt =====
-- FxHash, which src/wal.rs (`compute_checksum`) and src/bloom.rs (`fxhash64`) write out with the
-- same rounds: rotate by five, xor the next eight bytes, multiply.
use Prim.Native.Nat.{ℕ, ◌+◌, ◌*◌, ◌/◌, ◌%◌, ◌^◌, bit_xor}
use mathlib.Core.List.{[], ◌∷◌}
use flowdb.Base.Bytes.{Bytes}
use flowdb.Base.Words.{from_le}

abbrev pub fx_mult : ℕ
fx_mult = 0x517c_c1b7_2722_0a95

-- `hash.rotate_left(5)` of a `u64`
unfoldable pub rotate_left_5 : ℕ → ℕ
rotate_left_5 h = h * 32 % 2 ^ 64 + h / 2 ^ 59

unfoldable pub fx_round : ℕ → Bytes → ℕ
unfolding rotate_left_5 from_le
fx_round hash chunk = bit_xor (rotate_left_5 hash) (from_le chunk) * fx_mult % 2 ^ 64

-- Whole chunks of eight bytes, then what is left, padded with zeros, which add nothing to a
-- little-endian number.
unfoldable pub fx_hash : Bytes → ℕ → ℕ
unfolding fx_round
fx_hash [] hash = hash
fx_hash (a ∷ b ∷ c ∷ d ∷ e ∷ f ∷ g ∷ h ∷ rest) hash =
    fx_hash rest (fx_round hash (a ∷ b ∷ c ∷ d ∷ e ∷ f ∷ g ∷ h ∷ []))
fx_hash rest hash = fx_round hash rest
