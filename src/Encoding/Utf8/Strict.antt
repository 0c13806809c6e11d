-- ===== src/Encoding/Utf8/Strict.antt =====
-- `utf8_to_unicode` accepts the shortest forms only.
use mathlib.Core.Path.{subst}
use highwire.Common.{
  ℕ, ◌+◌, ◌-◌, true, false, [], ◌∷◌, ◌≡◌, ◌≢◌, sym, arith, leb, inl, inr, Bool-cases,
}
use highwire.Common.Bytes.{Bytes, head_byte, within}
use highwire.Encoding.Utf8.{utf8_to_unicode, count_octets, is_nonshortest}
use highwire.Encoding.Utf8.Forms.{
  IsWritten, two-IsWritten, three-IsWritten, four-IsWritten, five-IsWritten, six-IsWritten,
}

accepted :
    (ch : ℕ) (s : Bytes)
    → (utf8_to_unicode (ch ∷ s)).1 ≢ 0xFFFD
    → ((count_octets ch s).1 ≡ true) × (is_nonshortest ch (head_byte s) ≡ false)
unfolding utf8_to_unicode
accepted ch s h = ground arith

abbrev IsTrail : ℕ → Type 0
IsTrail c = within 0x80 0xBF c ≡ true

two_raw :
    (ch a : ℕ) (t : Bytes)
    → within 0xC0 0xDF ch ≡ true
    → IsTrail a
    → is_nonshortest ch a ≡ false
    → (utf8_to_unicode (ch ∷ a ∷ t)).1 ≢ 0xFFFD
    → IsWritten (ch ∷ a ∷ t)
two_raw ch a t lp la f h =
    let same : ch ∷ a ∷ t ≡ (0xC0 + (ch - 0xC0)) ∷ (0x80 + (a - 0x80)) ∷ t = ground arith in
    subst (λ l. (utf8_to_unicode l).1 ≢ 0xFFFD → IsWritten l) (sym same)
      (two-IsWritten (ch - 0xC0) (a - 0x80) t (ground arith) (ground arith) (ground arith)) h

three_raw :
    (ch a b : ℕ) (t : Bytes)
    → within 0xE0 0xEF ch ≡ true
    → IsTrail a
    → IsTrail b
    → is_nonshortest ch a ≡ false
    → (utf8_to_unicode (ch ∷ a ∷ b ∷ t)).1 ≢ 0xFFFD
    → IsWritten (ch ∷ a ∷ b ∷ t)
three_raw ch a b t lp la lb f h =
    let same : ch ∷ a ∷ b ∷ t
        ≡ (0xE0 + (ch - 0xE0)) ∷ (0x80 + (a - 0x80)) ∷ (0x80 + (b - 0x80)) ∷ t =
      ground arith in
    subst (λ l. (utf8_to_unicode l).1 ≢ 0xFFFD → IsWritten l) (sym same)
      (three-IsWritten (ch - 0xE0) (a - 0x80) (b - 0x80) t (ground arith) (ground arith)
        (ground arith) (ground arith))
      h

four_raw :
    (ch a b c : ℕ) (t : Bytes)
    → within 0xF0 0xF7 ch ≡ true
    → IsTrail a
    → IsTrail b
    → IsTrail c
    → is_nonshortest ch a ≡ false
    → (utf8_to_unicode (ch ∷ a ∷ b ∷ c ∷ t)).1 ≢ 0xFFFD
    → IsWritten (ch ∷ a ∷ b ∷ c ∷ t)
four_raw ch a b c t lp la lb lc f h =
    let same : ch ∷ a ∷ b ∷ c ∷ t
        ≡ (0xF0 + (ch - 0xF0))
          ∷ (0x80 + (a - 0x80))
          ∷ (0x80 + (b - 0x80))
          ∷ (0x80 + (c - 0x80))
          ∷ t =
      ground arith in
    subst (λ l. (utf8_to_unicode l).1 ≢ 0xFFFD → IsWritten l) (sym same)
      (four-IsWritten (ch - 0xF0) (a - 0x80) (b - 0x80) (c - 0x80) t (ground arith) (ground arith)
        (ground arith) (ground arith) (ground arith))
      h

five_raw :
    (ch a b c d : ℕ) (t : Bytes)
    → within 0xF8 0xFB ch ≡ true
    → IsTrail a
    → IsTrail b
    → IsTrail c
    → IsTrail d
    → is_nonshortest ch a ≡ false
    → (utf8_to_unicode (ch ∷ a ∷ b ∷ c ∷ d ∷ t)).1 ≢ 0xFFFD
    → IsWritten (ch ∷ a ∷ b ∷ c ∷ d ∷ t)
five_raw ch a b c d t lp la lb lc ld f h =
    let same : ch ∷ a ∷ b ∷ c ∷ d ∷ t
        ≡ (0xF8 + (ch - 0xF8))
          ∷ (0x80 + (a - 0x80))
          ∷ (0x80 + (b - 0x80))
          ∷ (0x80 + (c - 0x80))
          ∷ (0x80 + (d - 0x80))
          ∷ t =
      ground arith in
    subst (λ l. (utf8_to_unicode l).1 ≢ 0xFFFD → IsWritten l) (sym same)
      (five-IsWritten (ch - 0xF8) (a - 0x80) (b - 0x80) (c - 0x80) (d - 0x80) t (ground arith)
        (ground arith) (ground arith) (ground arith) (ground arith) (ground arith))
      h

six_raw :
    (ch a b c d e : ℕ) (t : Bytes)
    → within 0xFC 0xFD ch ≡ true
    → IsTrail a
    → IsTrail b
    → IsTrail c
    → IsTrail d
    → IsTrail e
    → is_nonshortest ch a ≡ false
    → (utf8_to_unicode (ch ∷ a ∷ b ∷ c ∷ d ∷ e ∷ t)).1 ≢ 0xFFFD
    → IsWritten (ch ∷ a ∷ b ∷ c ∷ d ∷ e ∷ t)
six_raw ch a b c d e t lp la lb lc ld le f h =
    let same : ch ∷ a ∷ b ∷ c ∷ d ∷ e ∷ t
        ≡ (0xFC + (ch - 0xFC))
          ∷ (0x80 + (a - 0x80))
          ∷ (0x80 + (b - 0x80))
          ∷ (0x80 + (c - 0x80))
          ∷ (0x80 + (d - 0x80))
          ∷ (0x80 + (e - 0x80))
          ∷ t =
      ground arith in
    subst (λ l. (utf8_to_unicode l).1 ≢ 0xFFFD → IsWritten l) (sym same)
      (six-IsWritten (ch - 0xFC) (a - 0x80) (b - 0x80) (c - 0x80) (d - 0x80) (e - 0x80) t
        (ground arith) (ground arith) (ground arith) (ground arith) (ground arith) (ground arith)
        (ground arith))
      h

-- From the first byte on, by the range that it lies in.
strict :
    (ch : ℕ) (s : Bytes)
    → (count_octets ch s).1 ≡ true
    → is_nonshortest ch (head_byte s) ≡ false
    → (utf8_to_unicode (ch ∷ s)).1 ≢ 0xFFFD
    → IsWritten (ch ∷ s)
unfolding count_octets
strict ch [] c f h = absurd (ground arith)
strict ch (a ∷ s) c f h = elim (Bool-cases (leb ch 0xDF)) [
  | inl low ↦ two_raw ch a s (ground arith) (ground arith) f h
  | inr high ↦ strict_2 ch a s high c f h
]
  where
    strict_5 :
        (ch a b d e : ℕ) (s : Bytes)
        → leb ch 0xFB ≡ false
        → (count_octets ch (a ∷ b ∷ d ∷ e ∷ s)).1 ≡ true
        → is_nonshortest ch a ≡ false
        → (utf8_to_unicode (ch ∷ a ∷ b ∷ d ∷ e ∷ s)).1 ≢ 0xFFFD
        → IsWritten (ch ∷ a ∷ b ∷ d ∷ e ∷ s)
    strict_5 ch a b d e [] g c f h = absurd (ground arith)
    strict_5 ch a b d e (x ∷ s) g c f h =
        six_raw ch a b d e x s (ground arith) (ground arith) (ground arith) (ground arith)
          (ground arith) (ground arith) f h

    strict_4 :
        (ch a b d : ℕ) (s : Bytes)
        → leb ch 0xF7 ≡ false
        → (count_octets ch (a ∷ b ∷ d ∷ s)).1 ≡ true
        → is_nonshortest ch a ≡ false
        → (utf8_to_unicode (ch ∷ a ∷ b ∷ d ∷ s)).1 ≢ 0xFFFD
        → IsWritten (ch ∷ a ∷ b ∷ d ∷ s)
    strict_4 ch a b d [] g c f h = absurd (ground arith)
    strict_4 ch a b d (x ∷ s) g c f h = elim (Bool-cases (leb ch 0xFB)) [
      | inl low ↦
          five_raw ch a b d x s (ground arith) (ground arith) (ground arith) (ground arith)
            (ground arith) f h
      | inr high ↦ strict_5 ch a b d x s high c f h
    ]

    strict_3 :
        (ch a b : ℕ) (s : Bytes)
        → leb ch 0xEF ≡ false
        → (count_octets ch (a ∷ b ∷ s)).1 ≡ true
        → is_nonshortest ch a ≡ false
        → (utf8_to_unicode (ch ∷ a ∷ b ∷ s)).1 ≢ 0xFFFD
        → IsWritten (ch ∷ a ∷ b ∷ s)
    strict_3 ch a b [] g c f h = absurd (ground arith)
    strict_3 ch a b (x ∷ s) g c f h = elim (Bool-cases (leb ch 0xF7)) [
      | inl low ↦
          four_raw ch a b x s (ground arith) (ground arith) (ground arith) (ground arith) f h
      | inr high ↦ strict_4 ch a b x s high c f h
    ]

    strict_2 :
        (ch a : ℕ) (s : Bytes)
        → leb ch 0xDF ≡ false
        → (count_octets ch (a ∷ s)).1 ≡ true
        → is_nonshortest ch a ≡ false
        → (utf8_to_unicode (ch ∷ a ∷ s)).1 ≢ 0xFFFD
        → IsWritten (ch ∷ a ∷ s)
    strict_2 ch a [] g c f h = absurd (ground arith)
    strict_2 ch a (x ∷ s) g c f h = elim (Bool-cases (leb ch 0xEF)) [
      | inl low ↦ three_raw ch a x s (ground arith) (ground arith) (ground arith) f h
      | inr high ↦ strict_3 ch a x s high c f h
    ]

-- Bytes that the decoder reads as another character than the replacement are the bytes that RFC 2279
-- writes for this character, with what follows: no longer form and no invalid byte is accepted.
pub utf8_to_unicode-IsWritten : (s : Bytes) → (utf8_to_unicode s).1 ≢ 0xFFFD → IsWritten s
utf8_to_unicode-IsWritten [] h = absurd (unfold utf8_to_unicode count_octets in ground arith)
utf8_to_unicode-IsWritten (ch ∷ s) h = let (c, f) = accepted ch s h in strict ch s c f h
