-- ===== src/Encoding/RoundTrip.antt =====
-- The character set of the system: to Unicode and back.
use highwire.Common.{
  ℕ, ◌≤◌, ◌<◌, Bool, true, false, ◌||◌, not, List, [], ◌∷◌, ◌≡◌, ◌↔◌, refl, arith, if◌then◌else◌,
  ltb, ◌==◌,
}
use highwire.Common.Check.{all_below, all_below_sound, same_bytes, same_bytes_iff}
use highwire.Encoding.Row.{bin_search}
use highwire.Encoding.Tables.{unicode_to_atari_tab}
use highwire.Encoding.Latin.{atari_to_unicode_tab}
use highwire.Encoding.Unicode.{atari_to_utf16}
use highwire.Encoding.Atari.{uni_2_atari}
use highwire.Encoding.Aes.{unicode_to_8bit}

-- the characters that `unicode_to_8bit` writes for what `atari_to_utf16` reads
unfoldable pub there_and_back : ℕ → List ℕ
there_and_back c = elim (atari_to_utf16 (c ∷ [])).1 [ [] ↦ [] | u ∷ more ↦ unicode_to_8bit u ]

-- Latin f with hook, the reversed not sign, a with tilde and the caret
abbrev pub is_lossy : ℕ → Bool
is_lossy c = c == 0x9F || c == 0xA9 || c == 0xB0 || c == 0xDE

abbrev is_as_said : ℕ → Bool
is_as_said c =
    let back = same_bytes (there_and_back c) (c ∷ []) in
    if ltb c 32 then true else if is_lossy c then not back else back

as_said-all : all_below 256 is_as_said ≡ true
unfolding all_below there_and_back same_bytes atari_to_utf16 atari_to_unicode_tab unicode_to_8bit
    uni_2_atari bin_search unicode_to_atari_tab
as_said-all = refl

-- A character of the system that is no control character comes back from Unicode as itself, unless
-- it is one of four, which do not.
pub there_and_back_iff :
    (c : ℕ) → 32 ≤ c → c < 256 → (there_and_back c ≡ c ∷ []) ↔ (is_lossy c ≡ false)
there_and_back_iff c b l = ground (
  arith,
  all_below_sound 256 is_as_said c as_said-all l,
  same_bytes_iff (there_and_back c) (c ∷ []),
)
