-- ===== src/Base/Parse.antt =====
-- Readers of a byte buffer. A reader stands for the code that checks `pos + n > data.len()`, takes
-- `data[pos..pos + n]` and advances `pos`: it gets `data[pos..]`, and returns what it read with the
-- bytes behind it, or `none` where the buffer is too short.
use Prim.Native.Nat.{ℕ, ◌≤◌, ◌<◌, ◌^◌}
use mathlib.Core.Path.{subst, ◌≡◌, refl}
use mathlib.Core.List.{[], ◌∷◌, ◌++◌, append_assoc}
use mathlib.Core.Option.{Option, none, some}
use native.Mathlib.Omega.{arith}
use flowdb.Base.Bytes.{Bytes}
use flowdb.Base.Lists.{length}
use flowdb.Base.Words.{
  be_bytes, from_be, split?, split?-append, split?_parts, length-be_bytes, from_be-be_bytes,
}

abbrev pub Reader : Type 0 → Type 0
Reader A = Bytes → Option (A × Bytes)

infixl 5 ◌>>=◌
unfoldable pub ◌>>=◌ : {A B : Type 0} → Reader A → (A → Reader B) → Reader B
◌>>=◌ m f bs = elim (m bs) [ none ↦ none | some (a, rest) ↦ f a rest ]

abbrev pub pure : {A : Type 0} → A → Reader A
pure a bs = some (a, bs)

-- One byte.
unfoldable pub u8 : Reader ℕ
u8 [] = none
u8 (b ∷ bs) = some (b, bs)

-- A big-endian unsigned integer of `n` bytes.
unfoldable pub read_uint : ℕ → Reader ℕ
read_uint n = do word ← split? n; pure (from_be word)

-- `p` reads `a` off the front of `bytes`, whatever follows.
pub record Reads {A : Type 0} (p : Reader A) (bytes : Bytes) (a : A) : Type 0 where
  pub reads : (rest : Bytes) → p (bytes ++ rest) ≡ some (a, rest)

pub Reads-bind :
    {A B : Type 0} {p : Reader A} (f : A → Reader B) {a : A} {b : B} {xs ys : Bytes}
    → Reads p xs a
    → Reads (f a) ys b
    → Reads (p >>= f) (xs ++ ys) b
unfolding ◌>>=◌
Reads-bind f {xs = xs} {ys = ys} hp hf = record {
  reads = λ rest. rw (append_assoc xs ys rest, hp.reads (ys ++ rest), ◌>>=◌) (hf.reads rest);
}

pub Reads-pure : {A : Type 0} (a : A) → Reads (pure a) [] a
Reads-pure a = record { reads = λ rest. refl }

-- A last step that reads nothing.
pub Reads-then :
    {A B : Type 0} {p : Reader A} (f : A → Reader B) {a : A} {b : B} {xs : Bytes}
    → Reads p xs a
    → Reads (f a) [] b
    → Reads (p >>= f) xs b
unfolding ◌>>=◌
Reads-then f {xs = xs} hp hf = record { reads = λ rest. rw (hp.reads rest, ◌>>=◌) (hf.reads rest) }

pub Reads-u8 : (b : ℕ) → Reads u8 (b ∷ []) b
unfolding u8
Reads-u8 b = record { reads = λ rest. refl }

pub Reads-split : (n : ℕ) (xs : Bytes) → length xs ≡ n → Reads (split? n) xs xs
Reads-split n xs e = record { reads = λ rest. rw (← e) (split?-append xs rest) }

pub Reads-uint : (n v : ℕ) → v < 256 ^ n → Reads (read_uint n) (be_bytes n v) v
unfolding read_uint ◌>>=◌
Reads-uint n v h = record {
  reads = λ rest.
      rw ((Reads-split n (be_bytes n v) (length-be_bytes n v)).reads rest, ◌>>=◌)
        (rw (from_be-be_bytes n v h));
}

-- A reader that succeeds reads the same from a longer buffer, and never reads more than there is.
pub record Extends {A : Type 0} (p : Reader A) : Type 0 where
  pub extends :
      (bs : Bytes) (a : A) (ys more : Bytes)
      → p bs ≡ some (a, ys)
      → (p (bs ++ more) ≡ some (a, ys ++ more)) × (length ys ≤ length bs)

bind_parts :
    {A B : Type 0} (p : Reader A) (f : A → Reader B) (bs : Bytes) (r : Option (A × Bytes)) {b : B}
    {zs : Bytes}
    → p bs ≡ r
    → (p >>= f) bs ≡ some (b, zs)
    → (a : A) × (ys : Bytes) × (p bs ≡ some (a, ys)) × (f a ys ≡ some (b, zs))
unfolding ◌>>=◌
bind_parts p f bs none e h = cc (rw (e, ◌>>=◌) at h)
bind_parts p f bs (some (a, ys)) e h = (a, ys, e, rw (e, ◌>>=◌) at h)

pub >>=-eq-some :
    {A B : Type 0} (p : Reader A) (f : A → Reader B) (bs : Bytes) {b : B} {zs : Bytes}
    → (p >>= f) bs ≡ some (b, zs)
    → (a : A) × (ys : Bytes) × (p bs ≡ some (a, ys)) × (f a ys ≡ some (b, zs))
>>=-eq-some p f bs h = bind_parts p f bs (p bs) refl h

pub Extends-bind :
    {A B : Type 0} {p : Reader A} {f : A → Reader B}
    → Extends p
    → ((a : A) → Extends (f a))
    → Extends (p >>= f)
unfolding ◌>>=◌
Extends-bind {p = p} {f = f} hp hf = record {
  extends = λ bs b zs more h.
      let (a, ys, e, g) = >>=-eq-some p f bs h in
      let (e', l) = hp.extends bs a ys more e in
      let (g', m) = (hf a).extends ys b zs more g in (rw (e', ◌>>=◌) g', omega arith);
}

pub Extends-pure : {A : Type 0} (a : A) → Extends (pure a)
Extends-pure a = record { extends = λ bs b ys more h. ground arith }

u8_extends :
    (bs : Bytes) (a : ℕ) (ys more : Bytes)
    → u8 bs ≡ some (a, ys)
    → (u8 (bs ++ more) ≡ some (a, ys ++ more)) × (length ys ≤ length bs)
unfolding u8
u8_extends [] a ys more h = cc
u8_extends (b ∷ bs) a ys more h = ground arith

pub Extends-u8 : Extends u8
Extends-u8 = record { extends = u8_extends }

pub Extends-split : (n : ℕ) → Extends (split? n)
Extends-split n = record {
  extends = λ bs xs ys more h.
      let (e, l, t) = split?_parts n bs xs ys h in
      (rw (e, append_assoc xs ys more, ← l) (split?-append xs (ys ++ more)), omega arith);
}

pub Extends-uint : (n : ℕ) → Extends (read_uint n)
unfolding read_uint
Extends-uint n = Extends-bind (Extends-split n) (λ word. Extends-pure (from_be word))

-- Every result of the reader satisfies `P`.
pub record Results {A : Type 0} (P : A → Type 0) (p : Reader A) : Type 0 where
  pub results : (bs : Bytes) (a : A) (ys : Bytes) → p bs ≡ some (a, ys) → P a

pub Results-bind :
    {A B : Type 0} (P : B → Type 0) (p : Reader A) (f : A → Reader B)
    → ((a : A) → Results P (f a))
    → Results P (p >>= f)
Results-bind P p f h = record {
  results = λ bs b zs e. let (a, ys, _, g) = >>=-eq-some p f bs e in (h a).results ys b zs g;
}

-- The same, where the rest depends on what is known of the first result.
pub Results-bind_of :
    {A B : Type 0} (P : B → Type 0) (Q : A → Type 0) (p : Reader A) (f : A → Reader B)
    → Results Q p
    → ((a : A) → Q a → Results P (f a))
    → Results P (p >>= f)
Results-bind_of P Q p f hp h = record {
  results = λ bs b zs e.
      let (a, ys, d, g) = >>=-eq-some p f bs e in (h a (hp.results bs a ys d)).results ys b zs g;
}

pub Results-split : (n : ℕ) → Results (λ xs. length xs ≡ n) (split? n)
Results-split n = record { results = λ bs xs ys e. (split?_parts n bs xs ys e).1 }

-- Behind a first step that is known, the run is that of the rest.
pub Reads-run :
    {A B : Type 0} {p : Reader A} (f : A → Reader B) {a : A} {xs : Bytes} (rest : Bytes)
    → Reads p xs a
    → (p >>= f) (xs ++ rest) ≡ f a rest
unfolding ◌>>=◌
Reads-run f rest h = rw (h.reads rest, ◌>>=◌)

pub Results-pure : {A : Type 0} (P : A → Type 0) (a : A) → P a → Results P (pure a)
Results-pure P a h = record { results = λ bs b ys e. subst P (ground arith) h }
