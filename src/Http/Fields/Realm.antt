-- ===== src/Http/Fields/Realm.antt =====
-- Fields of `WWW-Authenticate`: which realms are read.
use highwire.Common.{
  ℕ, true, false, not, [], ◌∷◌, ◌++◌, ◌≡◌, refl, ap, arith, length, ltb, ◌==◌, if◌then◌else◌,
}
use highwire.Common.Every.{Every, span-all, span-stop}
use highwire.Common.Bytes.{Bytes, is_space}
use highwire.Http.Fields.{realm_in}

-- A realm in quotes is read, whatever follows it.
pub realm_in_quotes :
    (r t : Bytes) → Every (λ c. not (c == b'"') ≡ true) r → realm_in ((b'"' ∷ r) ++ (b'"' ∷ t)) ≡ r
unfolding realm_in
realm_in_quotes r t h = rw (span-stop (λ c. not (c == b'"')) r b'"' t h refl) refl

-- A realm without quotes that ends the line is not read; one with a blank behind it only if that and
-- what follows are longer.
pub realm_in_plain :
    (c : ℕ) (r : Bytes) (b : ℕ) (t : Bytes)
    → Every (λ d. not (is_space d) ≡ true) (c ∷ r)
    → (c == b'"') ≡ false
    → is_space b ≡ true
    → (realm_in (c ∷ r) ≡ [])
      × (realm_in ((c ∷ r) ++ (b ∷ t))
          ≡ (if ltb (length (c ∷ r)) (length (b ∷ t)) then c ∷ r else []))
unfolding realm_in
realm_in_plain c r b t h q e =
    let p = λ (d : ℕ). not (is_space d) in
    (rw (q, span-all p (c ∷ r) h) (ground arith), rw (q, span-stop p (c ∷ r) b t h (ap not e)) refl)
