-- ===== src/Bloom/Words.antt =====
-- One bit of the filter: it can be set, and once set it stays set.
use flowdb.Base.{
  ℕ, zero, suc, ◌*◌, ◌/◌, ◌%◌, ◌^◌, ◌≤◌, ◌<◌, ◌≡◌, refl, arith, true, length, get_elem?, set, some,
  List, [], ◌∷◌, Option-cases, inl, inr,
}
use mathlib.Core.Option.{none-ne-some}
use Prim.Native.Nat.{bit_and, bit_or}
use native.Mathlib.Nat.{pow-suc}
use flowdb.Base.Bits.{bit_and-bit_or, bit_and-bit_or-le}
use flowdb.Bloom.{set_bit, test_bit}

pow-pos : (n : ℕ) → 0 < 2 ^ n
pow-pos zero = omega arith
pow-pos (suc n) = omega (arith, pow-suc 2 n, pow-pos n)

get_elem?-lt : (xs : List ℕ) (i : ℕ) → i < length xs → (w : ℕ) × (get_elem? xs i ≡ some w)
get_elem?-lt [] i h = absurd (omega arith)
get_elem?-lt (x ∷ xs) zero h = (x, refl)
get_elem?-lt (x ∷ xs) (suc i) h = get_elem?-lt xs i (omega arith)

length-set : (xs : List ℕ) (i v : ℕ) → length (set xs i v) ≡ length xs
length-set [] i v = refl
length-set (x ∷ xs) zero v = refl
length-set (x ∷ xs) (suc i) v = omega (arith, length-set xs i v)

get_elem?-set_same : (xs : List ℕ) (i v : ℕ) → i < length xs → get_elem? (set xs i v) i ≡ some v
get_elem?-set_same [] i v h = absurd (omega arith)
get_elem?-set_same (x ∷ xs) zero v h = refl
get_elem?-set_same (x ∷ xs) (suc i) v h = get_elem?-set_same xs i v (omega arith)

-- Every word of the result has at least the bits of the old one.
get_elem?-set_more :
    (xs : List ℕ) (i j w x m : ℕ)
    → get_elem? xs i ≡ some w
    → (u : ℕ) → get_elem? xs j ≡ some u
    → (v : ℕ) × (get_elem? (set xs i (bit_or w x)) j ≡ some v) × (bit_and u m ≤ bit_and v m)
get_elem?-set_more [] i j w x m e u k = cc
get_elem?-set_more (y ∷ xs) zero zero w x m e u k =
    (bit_or w x, refl, ground (arith, bit_and-bit_or-le w x m))
get_elem?-set_more (y ∷ xs) zero (suc j) w x m e u k = (u, k, omega arith)
get_elem?-set_more (y ∷ xs) (suc i) zero w x m e u k = (u, k, omega arith)
get_elem?-set_more (y ∷ xs) (suc i) (suc j) w x m e u k = get_elem?-set_more xs i j w x m e u k

abbrev pub HasBit : List ℕ → ℕ → Type 0
HasBit bits pos = test_bit bits pos ≡ some true

HasBit-of :
    (bits : List ℕ) (pos w : ℕ)
    → get_elem? bits (pos / 64) ≡ some w
    → 0 < bit_and w (2 ^ (pos % 64))
    → HasBit bits pos
unfolding test_bit
HasBit-of bits pos w e h = rw (test_bit, e) (ground arith)

HasBit-word :
    (bits : List ℕ) (pos : ℕ)
    → HasBit bits pos
    → (w : ℕ) × (get_elem? bits (pos / 64) ≡ some w) × (0 < bit_and w (2 ^ (pos % 64)))
unfolding test_bit
HasBit-word bits pos h = elim (Option-cases (get_elem? bits (pos / 64))) [
  | inl e ↦ absurd (none-ne-some _ (rw (test_bit, e) at h))
  | inr (w, e) ↦ (w, e, ground (arith, rw (test_bit, e) at h))
]

set_bit_of :
    (bits : List ℕ) (pos w : ℕ)
    → get_elem? bits (pos / 64) ≡ some w
    → set_bit bits pos ≡ some (set bits (pos / 64) (bit_or w (2 ^ (pos % 64))))
unfolding set_bit
set_bit_of bits pos w e = rw (set_bit, e)

pub set_bit-HasBit :
    (bits : List ℕ) (pos : ℕ)
    → pos < length bits * 64
    → (bits' : List ℕ) × (set_bit bits pos ≡ some bits')
      × (length bits' ≡ length bits)
      × HasBit bits' pos
      × ((q : ℕ) → HasBit bits q → HasBit bits' q)
set_bit-HasBit bits pos h =
    let (w, e) = get_elem?-lt bits (pos / 64) (omega arith) in
    let bits' = set bits (pos / 64) (bit_or w (2 ^ (pos % 64))) in
    (
      bits',
      set_bit_of bits pos w e,
      length-set bits (pos / 64) _,
      HasBit-of bits' pos (bit_or w (2 ^ (pos % 64)))
          (get_elem?-set_same bits (pos / 64) _ (omega arith))
          (omega (arith, bit_and-bit_or w (2 ^ (pos % 64)), pow-pos (pos % 64))),
      λ q k.
          let (u, g, p) = HasBit-word bits q k in
          let (v, g', le) =
            get_elem?-set_more bits (pos / 64) (q / 64) w (2 ^ (pos % 64)) (2 ^ (q % 64)) e u g in
          HasBit-of bits' q v g' (omega arith),
    )
