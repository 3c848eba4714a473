-- ===== src/Base/Bytes.antt =====
-- Byte strings with the order of `[u8]`: lexicographic, a proper prefix before its extensions.
use Prim.Native.Nat.{ℕ, ◌<◌}
use mathlib.Core.Path.{◌≡◌, refl}
use mathlib.Core.Logic.{◌↔◌}
use mathlib.Core.Bool.{Bool, true, false}
use mathlib.Core.List.{List, [], ◌∷◌}
use native.Mathlib.Omega.{arith}
use flowdb.Base.Lists.{All}
use flowdb.Base.Tests.{ltb, ◌==◌, if◌then◌else◌}

abbrev pub Bytes : Type 0
Bytes = List ℕ

abbrev pub IsBytes : Bytes → Type 0
IsBytes = All (λ b. b < 256)

-- `a < b`
unfoldable pub lt_bytes : Bytes → Bytes → Bool
lt_bytes a [] = false
lt_bytes [] (y ∷ ys) = true
lt_bytes (x ∷ xs) (y ∷ ys) = if ltb x y then true else if x == y then lt_bytes xs ys else false

-- `a <= b`
unfoldable pub le_bytes : Bytes → Bytes → Bool
le_bytes [] b = true
le_bytes (x ∷ xs) [] = false
le_bytes (x ∷ xs) (y ∷ ys) = if ltb x y then true else if x == y then le_bytes xs ys else false

-- `a == b`
unfoldable pub eq_bytes : Bytes → Bytes → Bool
eq_bytes [] [] = true
eq_bytes (x ∷ xs) (y ∷ ys) = if x == y then eq_bytes xs ys else false
eq_bytes _ _ = false

-- `a.starts_with(p)`
unfoldable pub starts_with : Bytes → Bytes → Bool
starts_with a [] = true
starts_with [] (y ∷ ys) = false
starts_with (x ∷ xs) (y ∷ ys) = if x == y then starts_with xs ys else false

pub le_bytes_refl : (a : Bytes) → le_bytes a a ≡ true
unfolding le_bytes
le_bytes_refl [] = refl
le_bytes_refl (x ∷ xs) = ground (arith, le_bytes_refl xs)

pub le_bytes_trans :
    (a b c : Bytes) → le_bytes a b ≡ true → le_bytes b c ≡ true → le_bytes a c ≡ true
unfolding le_bytes
le_bytes_trans [] b c h k = refl
le_bytes_trans (x ∷ a) [] c h k = cc
le_bytes_trans (x ∷ a) (y ∷ b) [] h k = cc
le_bytes_trans (x ∷ a) (y ∷ b) (z ∷ c) h k = ground (arith, le_bytes_trans a b c)

-- `a < b` and `b <= a` are opposites.
pub lt_bytes_not_le : (a b : Bytes) → lt_bytes a b ≡ (if le_bytes b a then false else true)
unfolding lt_bytes le_bytes
lt_bytes_not_le a [] = refl
lt_bytes_not_le [] (y ∷ ys) = refl
lt_bytes_not_le (x ∷ xs) (y ∷ ys) = ground (arith, lt_bytes_not_le xs ys)

pub le_bytes_total : (a b : Bytes) → le_bytes a b ≡ false → le_bytes b a ≡ true
unfolding le_bytes
le_bytes_total [] b h = cc
le_bytes_total (x ∷ xs) [] h = refl
le_bytes_total (x ∷ xs) (y ∷ ys) h = ground (arith, le_bytes_total xs ys)

pub le_bytes_antisymm : (a b : Bytes) → le_bytes a b ≡ true → le_bytes b a ≡ true → a ≡ b
unfolding le_bytes
le_bytes_antisymm [] [] h k = refl
le_bytes_antisymm [] (y ∷ b) h k = cc
le_bytes_antisymm (x ∷ a) [] h k = cc
le_bytes_antisymm (x ∷ a) (y ∷ b) h k = ground (arith, le_bytes_antisymm a b)

pub le_of_lt_bytes : (a b : Bytes) → lt_bytes a b ≡ true → le_bytes a b ≡ true
unfolding lt_bytes le_bytes
le_of_lt_bytes a [] h = cc
le_of_lt_bytes [] (y ∷ b) h = refl
le_of_lt_bytes (x ∷ a) (y ∷ b) h = ground (arith, le_of_lt_bytes a b)

pub eq_bytes_iff : (a b : Bytes) → (eq_bytes a b ≡ true) ↔ (a ≡ b)
unfolding eq_bytes
eq_bytes_iff [] [] = ground arith
eq_bytes_iff [] (y ∷ b) = ground arith
eq_bytes_iff (x ∷ a) [] = ground arith
eq_bytes_iff (x ∷ a) (y ∷ b) = ground (arith, eq_bytes_iff a b)

pub eq_bytes_refl : (a : Bytes) → eq_bytes a a ≡ true
eq_bytes_refl a = (eq_bytes_iff a a).1 refl
