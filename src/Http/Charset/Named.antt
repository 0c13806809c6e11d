-- ===== src/Http/Charset/Named.antt =====
-- Which name `http_charset` looks up.
use highwire.Common.{
  ℕ, suc, ◌+◌, ◌≤◌, ◌<◌, true, false, [], ◌∷◌, ◌++◌, ◌≡◌, refl, ap, arith, length, ltb,
  if◌then◌else◌, inl, inr, Bool-cases,
}
use highwire.Common.Every.{Every}
use highwire.Common.Bytes.{Bytes, codes, head_byte, is_space, same_nocase}
use highwire.Common.Number.{skip-front}
use highwire.Encoding.Select.{unknown_encoding}
use highwire.Scanner.{scan_encoding}
use highwire.Http.Charset.{is_name_byte, charset_name, buf, parameter}

-- the end of the text, or a byte that belongs to no name
abbrev pub IsNameEnd : Bytes → Type 0
IsNameEnd s = is_name_byte (head_byte s) ≡ false

charset_name-fits :
    (n : ℕ) (name s : Bytes)
    → Every (λ c. is_name_byte c ≡ true) name
    → n + length name < 20
    → IsNameEnd s
    → charset_name n (name ++ s) ≡ (name, true)
unfolding charset_name
charset_name-fits n [] [] h l e = refl
charset_name-fits n [] (c ∷ s) h l e = rw e refl
charset_name-fits n (c ∷ name) s h l e =
    let m : ltb (suc n) 20 ≡ true = ground arith in
    rw (h.0, m, charset_name-fits (suc n) name s h.1 (omega arith) e) refl

charset_name-long :
    (n : ℕ) (name s : Bytes)
    → Every (λ c. is_name_byte c ≡ true) name
    → n < 20
    → 20 ≤ n + length name
    → (charset_name n (name ++ s)).1 ≡ false
unfolding charset_name
charset_name-long n [] s h k l = absurd (omega arith)
charset_name-long n (c ∷ name) s h k l = elim (Bool-cases (ltb (suc n) 20)) [
  | inl room ↦
      rw (h.0, room) (charset_name-long (suc n) name s h.1 (ground (arith, room)) (omega arith))
  | inr full ↦ rw (h.0, full) refl
]

charset_name-length : (n : ℕ) (s : Bytes) → n < 20 → n + length (charset_name n s).0 < 20
unfolding charset_name
charset_name-length n [] l = omega arith
charset_name-length n (c ∷ s) l = ground (arith, charset_name-length (suc n) s)

-- `buf` is never overrun: the name has nineteen bytes at most, whatever the text.
pub length-buf : (s : Bytes) → length (buf s) < 20
length-buf s = elim (Bool-cases (charset_name 0 s).1) [
  | inl fits ↦ rw fits (omega (arith, charset_name-length 0 s (omega arith)))
  | inr over ↦ rw over (omega arith)
]

buf-name :
    (name s : Bytes)
    → Every (λ c. is_name_byte c ≡ true) name
    → IsNameEnd s
    → buf (name ++ s) ≡ (if ltb (length name) 20 then name else [])
buf-name name s h e = elim (Bool-cases (ltb (length name) 20)) [
  | inl short ↦ rw (charset_name-fits 0 name s h (ground (arith, short)) e, short) refl
  | inr long ↦ rw (charset_name-long 0 name s h (omega arith) (ground (arith, long)), long) refl
]

-- The parameter "charset=" right behind the semicolon or behind blanks is looked up by its letters,
-- digits and dashes if they are less than twenty, and by the empty name else.
pub parameter-charset :
    (bs : Bytes) (c : ℕ) (name s : Bytes)
    → Every (λ b. is_space b ≡ true) bs
    → Every (λ c. is_name_byte c ≡ true) (c ∷ name)
    → IsNameEnd s
    → parameter (b';' ∷ (bs ++ (codes "charset=" ++ ((c ∷ name) ++ s))))
      ≡ scan_encoding (if ltb (length (c ∷ name)) 20 then c ∷ name else []) unknown_encoding
unfolding parameter same_nocase
parameter-charset bs c name s b h e =
    let t = codes "charset=" ++ ((c ∷ name) ++ s) in
    let long : ltb 8 (length t) ≡ true = ground arith in
    rw (skip-front is_space bs t b, long)
      (ap (λ n. scan_encoding n unknown_encoding) (buf-name (c ∷ name) s h e))
