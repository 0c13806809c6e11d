-- ===== src/Encoding/Bounds.antt =====
-- How much the encoders read and write.
use highwire.Common.{
  ℕ, zero, suc, ◌%◌, ◌≤◌, ◌<◌, Bool, true, List, [], ◌∷◌, ◌++◌, ◌≡◌, refl, arith, length, get_or,
  all, leb, if◌then◌else◌, inl, inr, Bool-cases, Option-cases, map,
}
use highwire.Common.Bytes.{Bytes}
use highwire.Common.Search.{chop}
use highwire.Encoding.Row.{Row, bin_search, row_order, no_row}
use highwire.Encoding.Tables.{unicode_to_bics_tab, unicode_to_atari_tab}
use highwire.Encoding.Utf8.{utf8_to_unicode}
use highwire.Encoding.Utf8.Advance.{utf8_to_unicode_advances}
use highwire.Encoding.Bics.{unicode_to_bics, byte_to_bics}
use highwire.Encoding.Atari.{uni_2_atari, high_or_ascii}
use highwire.Encoding.Aes.{unicode_to_8bit, char, high_or_ascii_8bit}

-- what holds for the text of every row and for no text
trans-get_or :
    (p : List ℕ → Bool) (tab : List Row) (k : ℕ)
    → all (λ r. p r.trans) tab ≡ true
    → p [] ≡ true
    → p (get_or tab k no_row).trans ≡ true
trans-get_or p [] k a n = n
trans-get_or p (r ∷ tab) zero a n = ground arith
trans-get_or p (r ∷ tab) (suc k) a n = trans-get_or p tab k (ground arith) n

bin_search-all :
    (p : List ℕ → Bool) (tab : List Row) (uni : ℕ)
    → all (λ r. p r.trans) tab ≡ true
    → p [] ≡ true
    → p (bin_search uni tab) ≡ true
unfolding bin_search
bin_search-all p tab uni a n =
    elim (Option-cases (chop (row_order uni tab) (length tab) 0 (length tab))) [
      | inl miss ↦ rw (miss, bin_search) (trans-get_or p tab _ a n)
      | inr (k, hit) ↦ rw (hit, bin_search) (trans-get_or p tab k a n)
    ]

abbrev is_short : List ℕ → Bool
is_short t = leb (length t) 5

of_is_short : (t : List ℕ) → is_short t ≡ true → length t ≤ 5
of_is_short t h = ground arith

bics_short : all (λ r. is_short r.trans) unicode_to_bics_tab ≡ true
unfolding unicode_to_bics_tab
bics_short = refl

atari_short : all (λ r. is_short r.trans) unicode_to_atari_tab ≡ true
unfolding unicode_to_atari_tab
atari_short = refl

pub length-byte_to_bics : (ch : ℕ) → length (byte_to_bics ch) ≤ 5
unfolding byte_to_bics
length-byte_to_bics ch = ground arith

pub length-unicode_to_bics : (uni : ℕ) → length (unicode_to_bics uni) ≤ 5
unfolding unicode_to_bics
length-unicode_to_bics uni = elim (Bool-cases (leb uni 0xFF)) [
  | inl byte ↦ rw byte (length-byte_to_bics (uni % 256))
  | inr word ↦ rw word (
      of_is_short (bin_search uni unicode_to_bics_tab)
        (bin_search-all is_short unicode_to_bics_tab uni bics_short refl))
]

pub length-uni_2_atari : (uni : ℕ) → length (uni_2_atari uni) ≤ 5
unfolding uni_2_atari
length-uni_2_atari uni =
    of_is_short (bin_search uni unicode_to_atari_tab)
      (bin_search-all is_short unicode_to_atari_tab uni atari_short refl)

pub length-high_or_ascii : (ch : ℕ) → length (high_or_ascii ch) ≤ 5
unfolding high_or_ascii
length-high_or_ascii ch = ground (arith, length-uni_2_atari ch)

length-chars : (t : List ℕ) → length (map char t) ≡ length t
length-chars [] = refl
length-chars (c ∷ t) = omega (arith, length-chars t)

pub length-unicode_to_8bit : (uni : ℕ) → length (unicode_to_8bit uni) ≤ 5
unfolding unicode_to_8bit
length-unicode_to_8bit uni = ground (arith, length-chars (uni_2_atari uni), length-uni_2_atari uni)

pub length-high_or_ascii_8bit : (ch : ℕ) → length (high_or_ascii_8bit ch) ≤ 5
unfolding high_or_ascii_8bit
length-high_or_ascii_8bit ch = ground (arith, length-unicode_to_8bit ch)

-- One step of an encoder: it reads one to six bytes, and writes five characters at most.
pub record IsStep (src : Bytes) (step : Bytes × List ℕ) : Type 0 where
  pub front : Bytes
  pub read : src ≡ front ++ step.0
  pub some_read : 0 < length front
  pub few_read : length front ≤ 6
  pub few_written : length step.1 ≤ 5

module _ (a b : ℕ) (s : Bytes) where
  pub by_byte-IsStep : (text : List ℕ) → length text ≤ 5 → IsStep (a ∷ b ∷ s) (b ∷ s, text)
  by_byte-IsStep text h = record {
    front = a ∷ [];
    read = refl;
    some_read = omega arith;
    few_read = omega arith;
    few_written = h;
  }

  pub by_word-IsStep : (text : List ℕ) → length text ≤ 5 → IsStep (a ∷ b ∷ s) (s, text)
  by_word-IsStep text h = record {
    front = a ∷ b ∷ [];
    read = refl;
    some_read = omega arith;
    few_read = omega arith;
    few_written = h;
  }

  pub utf8-IsStep :
      (f g : ℕ → List ℕ)
      → ((ch : ℕ) → length (f ch) ≤ 5)
      → ((ch : ℕ) → length (g ch) ≤ 5)
      → IsStep (a ∷ b ∷ s) (
          if leb 0x80 a
          then ((utf8_to_unicode (a ∷ b ∷ s)).0, f (utf8_to_unicode (a ∷ b ∷ s)).1)
          else (b ∷ s, g a))
  utf8-IsStep f g h k = elim (Bool-cases (leb 0x80 a)) [
    | inl high ↦
        let (front, e, p, l) = (utf8_to_unicode_advances a (b ∷ s)).0 in
        rw high (record {
          front = front;
          read = e;
          some_read = p;
          few_read = l;
          few_written = h (utf8_to_unicode (a ∷ b ∷ s)).1;
        })
    | inr low ↦ rw low (by_byte-IsStep (g a) (k a))
  ]
