-- ===== src/Cookie/Attributes/Fields.antt =====
-- `parse` on a field as a server writes it, and the end of the loop over the fields.
use mathlib.Core.List.{append-nil}
use mathlib.Core.Path.{subst}
use highwire.Common.{
  ℕ, zero, suc, ◌≤◌, ◌<◌, Bool, true, false, not, some, [], ◌∷◌, ◌++◌, ◌≡◌, refl, sym, ap, ◌⊎◌, inl,
  inr, arith, length, length-append, span, span-append, ◌==◌, Bool-cases,
}
use highwire.Common.Every.{Every, Every-append, span-all, span-stop}
use highwire.Common.Int.{ℤ}
use highwire.Common.Bytes.{Bytes, head_byte, is_space, skip}
use highwire.Cookie.Attributes.{is_empty, trim, split_at, parse, Attributes, attribute, attributes}

abbrev pub IsBlank : Bytes → Type 0
IsBlank s = Every (λ c. is_space c ≡ true) s

abbrev pub IsWithout : ℕ → Bytes → Type 0
IsWithout c s = Every (λ d. not (d == c) ≡ true) s

skip-blank : (bs s : Bytes) → IsBlank bs → skip is_space (bs ++ s) ≡ skip is_space s
skip-blank [] s h = refl
skip-blank (b ∷ bs) s h = rw h.0 (skip-blank bs s h.1)

skip-head : (s : Bytes) → is_space (head_byte s) ≡ false → skip is_space s ≡ s
skip-head [] h = refl
skip-head (c ∷ s) h = rw h refl

trim-blank : (bs : Bytes) → IsBlank bs → trim bs ≡ []
unfolding trim
trim-blank [] h = refl
trim-blank (b ∷ bs) h = rw (trim, trim-blank bs h.1, h.0) refl

trim-append : (s bs : Bytes) → IsBlank bs → trim (s ++ bs) ≡ trim s
unfolding trim
trim-append [] bs h = trim-blank bs h
trim-append (c ∷ s) bs h = rw (trim, trim-append s bs h) refl

-- the end of the text, or the semicolon before the next field
abbrev pub IsEnd : Bytes → Type 0
IsEnd rest = (rest ≡ []) ⊎ ((more : Bytes) × (rest ≡ b';' ∷ more))

split_at-end :
    (s rest : Bytes) → IsWithout b';' s → IsEnd rest → split_at b';' (s ++ rest) ≡ (s, rest)
split_at-end s rest h (inl e) = rw e (
    subst (λ t. split_at b';' t ≡ (s, [])) (sym (append-nil s))
      (span-all (λ d. not (d == b';')) s h))
split_at-end s rest h (inr (more, e)) = rw e (span-stop (λ d. not (d == b';')) s b';' more h refl)

IsWithout-blank : (c : ℕ) (bs : Bytes) → is_space c ≡ false → IsBlank bs → IsWithout c bs
IsWithout-blank c [] k h = tt
IsWithout-blank c (b ∷ bs) k h = (ground (arith, k, h.0), IsWithout-blank c bs k h.1)

-- a key, an equals sign, blanks, a value and blanks
abbrev pub field : Bytes → Bytes → ℕ → Bytes → Bytes → Bytes
field key cs v value ds = key ++ (b'=' ∷ (cs ++ (v ∷ (value ++ ds))))

field-head :
    (key cs : Bytes) (v : ℕ) (value ds rest : Bytes)
    → is_space (head_byte key) ≡ false
    → is_space (head_byte (field key cs v value ds ++ rest)) ≡ false
field-head [] cs v value ds rest h = refl
field-head (c ∷ key) cs v value ds rest h = h

field-IsWithout :
    (key cs : Bytes) (v : ℕ) (value ds : Bytes)
    → IsBlank cs
    → IsBlank ds
    → IsWithout b';' key
    → IsWithout b';' (v ∷ value)
    → IsWithout b';' (field key cs v value ds)
field-IsWithout key cs v value ds c d h k =
    let P = λ (x : ℕ). not (x == b';') ≡ true in
    Every-append P key (b'=' ∷ (cs ++ (v ∷ (value ++ ds)))) h (
      refl,
      Every-append P cs (v ∷ (value ++ ds)) (IsWithout-blank b';' cs refl c)
          (Every-append P (v ∷ value) ds k (IsWithout-blank b';' ds refl d)),
    )

-- A field of a key and a value, with blanks before them and behind the value and an equals sign between
-- them, up to the end or a semicolon, is read as its key and value. The key begins and ends without
-- a blank, and so does the value; the key has neither sign and the value no semicolon.
pub parse-field :
    (bs key cs : Bytes) (v : ℕ) (value ds rest : Bytes)
    → IsBlank bs
    → IsBlank cs
    → IsBlank ds
    → is_space (head_byte key) ≡ false
    → is_space v ≡ false
    → IsWithout b'=' key
    → IsWithout b';' key
    → IsWithout b';' (v ∷ value)
    → trim key ≡ key
    → trim (v ∷ value) ≡ v ∷ value
    → IsEnd rest
    → parse (bs ++ (field key cs v value ds ++ rest))
      ≡ record { key = key; value = v ∷ value; text = (v ∷ (value ++ ds)) ++ rest; rest = rest }
unfolding parse
parse-field bs key cs v value ds rest b c d first begins equals semi semi' tight tight' end =
    let inner = cs ++ (v ∷ (value ++ ds)) in
    let from = v ∷ (value ++ ds) in
    rw
      (
        parse,
        skip-blank bs (field key cs v value ds ++ rest) b,
        skip-head (field key cs v value ds ++ rest) (field-head key cs v value ds rest first),
        split_at-end (field key cs v value ds) rest
            (field-IsWithout key cs v value ds c d semi semi') end,
        span-stop (λ d. not (d == b'=')) key b'=' inner equals refl,
        skip-blank cs from c,
        skip-head from begins,
        tight,
        trim-append (v ∷ value) ds d,
        tight',
      )
      refl

length-skip : (s : Bytes) → length (skip is_space s) ≤ length s
length-skip [] = omega arith
length-skip (c ∷ s) = ground (arith, length-skip s)

length-span : (p : ℕ → Bool) (s : Bytes) → length (span p s).1 ≤ length s
length-span p s =
    omega (arith, length-append (span p s).0 (span p s).1, ap length (span-append p s))

length-parse : (s : Bytes) → length (parse s).rest ≤ length s
unfolding parse
length-parse s = omega (arith, length-span (λ d. not (d == b';')) (skip is_space s), length-skip s)

-- The loop over the fields comes to its end, with fuel for the bytes of the text.
pub attributes_ends :
    (date : Bytes → ℤ) (srvr_date tdiff : ℤ) (fuel : ℕ) (str : Bytes) (a : Attributes)
    → length str < fuel
    → (b : Attributes) × (attributes date srvr_date tdiff fuel str a ≡ some b)
unfolding attributes
attributes_ends date srvr_date tdiff zero str a l = absurd (omega arith)
attributes_ends date srvr_date tdiff (suc fuel) [] a l = (a, refl)
attributes_ends date srvr_date tdiff (suc fuel) (c ∷ str) a l =
    let f = parse str in
    let b = attribute date srvr_date tdiff f a in
    let n : length (skip is_space f.rest) < fuel =
      omega (arith, length-skip f.rest, length-parse str) in
    let (last, ends) = attributes_ends date srvr_date tdiff fuel (skip is_space f.rest) b n in
    elim (Bool-cases (c == b';')) [
      | inr other ↦ (a, rw other refl)
      | inl more ↦ elim (Bool-cases (is_empty (skip is_space f.rest))) [
        | inl done ↦ (b, rw (more, done) refl)
        | inr left ↦ (last, rw (more, left, ends) refl)
      ]
    ]
