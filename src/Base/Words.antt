-- ===== src/Base/Words.antt =====
-- `to_be_bytes`, `from_be_bytes` and `from_le_bytes` at every width, and bounded reads.
use flowdb.Base.Bytes.{Bytes}
use Prim.Native.Nat.{ℕ, zero, suc, ◌+◌, ◌*◌, ◌/◌, ◌%◌, ◌^◌, ◌<◌}
use mathlib.Core.Path.{◌≡◌, refl}
use mathlib.Core.List.{[], ◌∷◌, ◌++◌}
use mathlib.Core.Option.{Option, none, some}
use native.Mathlib.Omega.{arith}
use native.Mathlib.Nat.{pow-suc}
use flowdb.Base.Lists.{length, take, drop, length-append, take-length_append, drop-length_append}
use flowdb.Base.Lists.{take-append-drop, length-take, length-drop}
use flowdb.Base.Tests.{ltb, lt→ltb, if◌then◌else◌}

-- The low `n` bytes of `v`, the highest first.
unfoldable pub be_bytes : ℕ → ℕ → Bytes
be_bytes zero v = []
be_bytes (suc n) v = be_bytes n (v / 256) ++ (v % 256 ∷ [])

be_acc : ℕ → Bytes → ℕ
be_acc acc [] = acc
be_acc acc (b ∷ bs) = be_acc (acc * 256 + b) bs

unfoldable pub from_be : Bytes → ℕ
unfolding be_acc
from_be bs = be_acc 0 bs

unfoldable pub from_le : Bytes → ℕ
from_le [] = 0
from_le (b ∷ bs) = b + 256 * from_le bs

pub length-be_bytes : (n v : ℕ) → length (be_bytes n v) ≡ n
unfolding be_bytes
length-be_bytes zero v = refl
length-be_bytes (suc n) v =
    omega (arith, length-append (be_bytes n (v / 256)) (v % 256 ∷ []), length-be_bytes n (v / 256))

be_acc-snoc : (acc : ℕ) (bs : Bytes) (b : ℕ) → be_acc acc (bs ++ (b ∷ [])) ≡ be_acc acc bs * 256 + b
unfolding be_acc
be_acc-snoc acc [] b = refl
be_acc-snoc acc (x ∷ bs) b = be_acc-snoc (acc * 256 + x) bs b

pub from_be-be_bytes : (n v : ℕ) → v < 256 ^ n → from_be (be_bytes n v) ≡ v
unfolding from_be be_acc be_bytes
from_be-be_bytes zero v h = omega arith
from_be-be_bytes (suc n) v h =
    let q : v / 256 < 256 ^ n = omega (arith, pow-suc 256 n) in
    omega (arith, be_acc-snoc 0 (be_bytes n (v / 256)) (v % 256), from_be-be_bytes n (v / 256) q)

-- The next `n` bytes and what follows them; `none` where fewer are left.
unfoldable pub split? : ℕ → Bytes → Option (Bytes × Bytes)
split? n bs = if ltb (length bs) n then none else some (take n bs, drop n bs)

pub split?-append : (xs ys : Bytes) → split? (length xs) (xs ++ ys) ≡ some (xs, ys)
unfolding split?
split?-append xs ys =
    ground (arith, length-append xs ys, take-length_append xs ys, drop-length_append xs ys)

pub split?_short : (n : ℕ) (bs : Bytes) → length bs < n → split? n bs ≡ none
unfolding split?
split?_short n bs h = rw (lt→ltb _ _ h)

pub split?_parts :
    (n : ℕ) (bs xs ys : Bytes)
    → split? n bs ≡ some (xs, ys)
    → (bs ≡ xs ++ ys) × (length xs ≡ n) × (length bs ≡ n + length ys)
unfolding split?
split?_parts n bs xs ys e =
    ground (arith, take-append-drop n bs, length-take n bs, length-drop n bs)
