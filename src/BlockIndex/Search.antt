-- ===== src/BlockIndex/Search.antt =====
-- The binary search finds the block that a search from the front finds.
use flowdb.Base.{
  ℕ, zero, suc, ◌+◌, ◌-◌, ◌/◌, ◌≤◌, ◌<◌, ◌≡◌, refl, sym, ap, ◌∙◌, arith, Bool, true, false, ◌&&◌,
  ltb, length, get_elem?, All, Option, none, some, List, [], ◌∷◌, Bool-cases, Option-cases, inl,
  inr,
}
use mathlib.Core.Option.{none-ne-some, some-injective}
use flowdb.Base.Bytes.{Bytes, lt_bytes, le_bytes, le_bytes_trans, lt_bytes_not_le}
use flowdb.BlockIndex.{BlockMeta, check_at, search_loop, binary_search_block}

abbrev pub covers : Bytes → BlockMeta → Bool
covers key b = le_bytes b.min_key key && le_bytes key b.max_key

-- No block ends after a later one begins. Two neighbours may share a key.
abbrev pub Ordered : List BlockMeta → Type 0
Ordered [] = Unit {0}
Ordered (b ∷ bs) =
    (le_bytes b.min_key b.max_key ≡ true)
    × All (λ c. le_bytes b.max_key c.min_key ≡ true) bs
    × Ordered bs

-- No block covers the key, or the one given is a block that does.
abbrev pub Found : List BlockMeta → Bytes → Option BlockMeta → Type 0
Found bs key none = All (λ c. covers key c ≡ false) bs
Found bs key (some b) = (i : ℕ) × (get_elem? bs i ≡ some b) × (covers key b ≡ true)

All-get_elem? {ℓ} :
    (P : BlockMeta → Type ℓ) (bs : List BlockMeta) (i : ℕ) (b : BlockMeta)
    → All P bs
    → get_elem? bs i ≡ some b
    → P b
All-get_elem? P [] i b h e = absurd (none-ne-some _ e)
All-get_elem? P (c ∷ bs) zero b h e = rw (sym (some-injective _ _ e)) h.0
All-get_elem? P (c ∷ bs) (suc i) b h e = All-get_elem? P bs i b h.1 e

Ordered-pair :
    (bs : List BlockMeta) (i j : ℕ) (c b : BlockMeta)
    → Ordered bs
    → i < j
    → get_elem? bs i ≡ some c
    → get_elem? bs j ≡ some b
    → le_bytes c.max_key b.min_key ≡ true
Ordered-pair [] i j c b h lt e f = absurd (none-ne-some _ e)
Ordered-pair (x ∷ bs) i zero c b h lt e f = absurd (omega arith)
Ordered-pair (x ∷ bs) zero (suc j) c b h lt e f =
    rw (sym (some-injective _ _ e)) (All-get_elem? _ bs j b h.1 f)
Ordered-pair (x ∷ bs) (suc i) (suc j) c b h lt e f = Ordered-pair bs i j c b h.2 (omega arith) e f

Ordered-block :
    (bs : List BlockMeta) (i : ℕ) (b : BlockMeta)
    → Ordered bs
    → get_elem? bs i ≡ some b
    → le_bytes b.min_key b.max_key ≡ true
Ordered-block [] i b h e = absurd (none-ne-some _ e)
Ordered-block (x ∷ bs) zero b h e = rw (sym (some-injective _ _ e)) h.0
Ordered-block (x ∷ bs) (suc i) b h e = Ordered-block bs i b h.2 e

-- The blocks below `lo` end before the key, those from `hi` on begin after it.
record Between (bs : List BlockMeta) (key : Bytes) (lo hi : ℕ) : Type 0 where
  below : (i : ℕ) (c : BlockMeta) → i < lo → get_elem? bs i ≡ some c → lt_bytes c.max_key key ≡ true
  above : (i : ℕ) (c : BlockMeta) → hi ≤ i → get_elem? bs i ≡ some c → lt_bytes key c.min_key ≡ true

-- A block that ends before another begins ends before what that one does not exceed.
lt_of_lt_of_le : (a b c : Bytes) → lt_bytes a b ≡ true → le_bytes b c ≡ true → lt_bytes a c ≡ true
lt_of_lt_of_le a b c h k =
    ground (arith, lt_bytes_not_le a b, lt_bytes_not_le a c, le_bytes_trans b c a)

lt_of_le_of_lt : (a b c : Bytes) → le_bytes a b ≡ true → lt_bytes b c ≡ true → lt_bytes a c ≡ true
lt_of_le_of_lt a b c h k =
    ground (arith, lt_bytes_not_le b c, lt_bytes_not_le a c, le_bytes_trans c a b)

le_of_lt : (a b : Bytes) → lt_bytes a b ≡ false → le_bytes b a ≡ true
le_of_lt a b h = ground (arith, lt_bytes_not_le a b)

All-of-get_elem? :
    (P : BlockMeta → Type 0) (bs : List BlockMeta)
    → ((i : ℕ) (c : BlockMeta) → get_elem? bs i ≡ some c → P c)
    → All P bs
All-of-get_elem? P [] h = tt
All-of-get_elem? P (b ∷ bs) h = (h 0 b refl, All-of-get_elem? P bs (λ i c e. h (suc i) c e))

Between-covers :
    (bs : List BlockMeta) (key : Bytes) (lo hi : ℕ)
    → Between bs key lo hi
    → hi ≤ lo
    → (i : ℕ) (c : BlockMeta) → get_elem? bs i ≡ some c
    → covers key c ≡ false
Between-covers bs key lo hi h le i c e = elim (Bool-cases (ltb i lo)) [
  | inl p ↦ ground (arith, h.below i c (ground arith) e, lt_bytes_not_le c.max_key key)
  | inr p ↦ ground (arith, h.above i c (ground arith) e, lt_bytes_not_le key c.min_key)
]

check_at-none :
    (bs : List BlockMeta) (key : Bytes) (lo : ℕ) → Found bs key none → check_at bs key lo ≡ none
unfolding check_at
check_at-none bs key lo h = elim (Option-cases (get_elem? bs lo)) [
  | inl e ↦ rw (check_at, e)
  | inr (b, e) ↦ rw (check_at, e, All-get_elem? (λ c. covers key c ≡ false) bs lo b h e)
]

get_elem?-lt :
    (bs : List BlockMeta) (i : ℕ) → i < length bs → (b : BlockMeta) × (get_elem? bs i ≡ some b)
get_elem?-lt [] i h = absurd (omega arith)
get_elem?-lt (b ∷ bs) zero h = (b, refl)
get_elem?-lt (b ∷ bs) (suc i) h = get_elem?-lt bs i (omega arith)

get_elem?-past :
    (bs : List BlockMeta) (i : ℕ) (c : BlockMeta) → length bs ≤ i → get_elem? bs i ≡ some c → ⊥
get_elem?-past [] i c h e = none-ne-some _ e
get_elem?-past (b ∷ bs) zero c h e = absurd (omega arith)
get_elem?-past (b ∷ bs) (suc i) c h e = get_elem?-past bs i c (omega arith) e

-- The block in the middle ends before the key, and so do those before it.
Between-right :
    (bs : List BlockMeta) (key : Bytes) (lo hi mid : ℕ) (b : BlockMeta)
    → Ordered bs
    → Between bs key lo hi
    → get_elem? bs mid ≡ some b
    → lt_bytes b.max_key key ≡ true
    → Between bs key (mid + 1) hi
Between-right bs key lo hi mid b o h e k = record {
  below = λ i c lt f. elim (Bool-cases (ltb i mid)) [
    | inl p ↦
        lt_of_le_of_lt c.max_key b.max_key key
          (le_bytes_trans c.max_key b.min_key b.max_key
            (Ordered-pair bs i mid c b o (ground arith) f e) (Ordered-block bs mid b o e))
          k
    | inr p ↦
        let same : i ≡ mid = ground arith in
        let equal : b ≡ c = some-injective _ _ (sym e ∙ ap (get_elem? bs) (sym same) ∙ f) in
        rw (sym equal) k
  ];
  above = h.above;
}

-- The block in the middle begins after the key, and so do those after it.
Between-left :
    (bs : List BlockMeta) (key : Bytes) (lo hi mid : ℕ) (b : BlockMeta)
    → Ordered bs
    → Between bs key lo hi
    → get_elem? bs mid ≡ some b
    → lt_bytes key b.min_key ≡ true
    → Between bs key lo mid
Between-left bs key lo hi mid b o h e k = record {
  below = h.below;
  above = λ i c le f. elim (Bool-cases (ltb mid i)) [
    | inl p ↦ lt_of_lt_of_le key b.min_key c.min_key k (
        le_bytes_trans b.min_key b.max_key c.min_key (Ordered-block bs mid b o e)
          (Ordered-pair bs mid i b c o (ground arith) e f))
    | inr p ↦
        let same : i ≡ mid = ground arith in
        let equal : b ≡ c = some-injective _ _ (sym e ∙ ap (get_elem? bs) (sym same) ∙ f) in
        rw (sym equal) k
  ];
}

search_loop-Found :
    (fuel : ℕ) (bs : List BlockMeta) (key : Bytes) (lo hi : ℕ)
    → Ordered bs
    → Between bs key lo hi
    → lo ≤ hi
    → hi ≤ length bs
    → hi < lo + fuel
    → (r : Option BlockMeta) × (search_loop fuel bs key lo hi ≡ some r) × Found bs key r
unfolding search_loop
search_loop-Found zero bs key lo hi o h up le enough = absurd (omega arith)
search_loop-Found (suc fuel) bs key lo hi o h up le enough = elim (Bool-cases (ltb lo hi)) [
  | inr p ↦
      let nowhere = All-of-get_elem? _ bs (Between-covers bs key lo hi h (ground arith)) in
      (none, rw (search_loop, p) (ap some (check_at-none bs key lo nowhere)), nowhere)
  | inl p ↦
      let mid = lo + (hi - lo) / 2 in
      let inside : lo < hi = ground arith in
      let (b, e) = get_elem?-lt bs mid (omega arith) in
      elim (Bool-cases (lt_bytes b.max_key key)) [
        | inl q ↦
            let right = Between-right bs key lo hi mid b o h e q in
            let (r, g, found) =
              search_loop-Found fuel bs key (mid + 1) hi o right (omega arith) le (omega arith) in
            (r, rw (search_loop, p, e, q) g, found)
        | inr q ↦ elim (Bool-cases (lt_bytes key b.min_key)) [
          | inl t ↦
              let left = Between-left bs key lo hi mid b o h e t in
              let (r, g, found) =
                search_loop-Found fuel bs key lo mid o left (omega arith) (omega arith)
                  (omega arith) in
              (r, rw (search_loop, p, e, q, t) g, found)
          | inr t ↦ (
            some b,
            rw (search_loop, p, e, q, t),
            (mid, e, ground (arith, le_of_lt b.max_key key, le_of_lt key b.min_key)),
          )
        ]
      ]
]

-- In a file whose blocks are in order, where neighbours may share a key, the search ends without a
-- panic; it gives a block that spans the key, and nothing only where no block does.
pub binary_search_block-Found :
    (bs : List BlockMeta) (key : Bytes)
    → Ordered bs
    → (r : Option BlockMeta) × (binary_search_block bs key ≡ some r) × Found bs key r
unfolding binary_search_block
binary_search_block-Found bs key o =
    search_loop-Found (suc (length bs)) bs key 0 (length bs) o
      (record {
        below = λ i c lt e. absurd (omega arith);
        above = λ i c le e. absurd (get_elem?-past bs i c le e);
      })
      (omega arith) (omega arith) (omega arith)
