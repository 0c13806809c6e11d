-- ===== src/Mime/Name.antt =====
-- `mime_byString`.
use mathlib.Core.List.{append_assoc}
use highwire.Common.{
  List, [], ◌∷◌, ◌++◌, ◌≡◌, ◌≢◌, refl, sym, ap, ◌∙◌, inl, inr, arith, length, ◌==◌, if◌then◌else◌,
  span, Bool-cases, span-append,
}
use highwire.Common.Bytes.{Bytes, is_alpha, head_byte}
use highwire.Mime.{
  MimeType, unknown, text, image, audio, video, application, txt_types, img_types, aud_types,
  vid_types, app_types, img_x_xbm, img_x_xpm, mime_major, SubType, MainType, mime_types, is_word,
  is_sub_byte, by_sub, by_minor, by_main, mime_by_string,
}

-- `tail` is a place in the string.
abbrev pub IsSuffix : Bytes → Bytes → Type 0
IsSuffix tail str = (front : Bytes) × (str ≡ front ++ tail)

by_sub-IsSuffix :
    (type : MimeType) (str : Bytes) (word : Bytes × Bytes) (subs : List SubType)
    → word.0 ++ word.1 ≡ str
    → IsSuffix (by_sub type str word subs).1 str
unfolding by_sub
by_sub-IsSuffix type str word [] h = ([], refl)
by_sub-IsSuffix type str word (s ∷ subs) h = elim (Bool-cases (is_word word.0 s.str)) [
  | inl found ↦ (word.0, rw found (sym h))
  | inr other ↦ rw other (by_sub-IsSuffix type str word subs h)
]

by_minor-IsSuffix :
    (type : MimeType) (subs : List SubType) (str : Bytes) → IsSuffix (by_minor type subs str).1 str
unfolding by_minor
by_minor-IsSuffix type subs [] = ([], refl)
by_minor-IsSuffix type subs (c ∷ str) = elim (Bool-cases (c == b'/')) [
  | inr other ↦ ([], rw other)
  | inl slash ↦ elim (Bool-cases (is_alpha (head_byte str))) [
    | inr other ↦ (c ∷ [], rw (slash, other))
    | inl alpha ↦
        let (front, e) =
          by_sub-IsSuffix type str (span is_sub_byte str) subs (span-append is_sub_byte str) in
        (c ∷ front, rw (slash, alpha) (ap (◌∷◌ c) e))
  ]
]

by_main-IsSuffix :
    (str : Bytes) (word : Bytes × Bytes) (mains : List MainType)
    → word.0 ++ word.1 ≡ str
    → IsSuffix (by_main str word mains).1 str
unfolding by_main
by_main-IsSuffix str word [] h = ([], refl)
by_main-IsSuffix str word (m ∷ mains) h = elim (Bool-cases (is_word word.0 m.str)) [
  | inl found ↦
      let (front, e) = by_minor-IsSuffix m.type m.subs word.1 in
      (
        word.0 ++ front,
        rw found (sym h ∙ ap (λ r. word.0 ++ r) e ∙ sym (append_assoc word.0 front _)),
      )
  | inr other ↦ rw other (by_main-IsSuffix str word mains h)
]

-- `*tail` is a place in the string, whatever it holds.
pub mime_by_string-IsSuffix : (str : Bytes) → IsSuffix (mime_by_string str).1 str
unfolding mime_by_string
mime_by_string-IsSuffix str = elim (Bool-cases (length (span is_alpha str).0 == 0)) [
  | inl empty ↦ ([], rw empty)
  | inr word ↦
      rw word (by_main-IsSuffix str (span is_alpha str) mime_types (span-append is_alpha str))
]

module _ (major : MimeType) where
  -- every minor type of the rows belongs to the major type
  abbrev AllMinor : List SubType → Type 0
  AllMinor [] = Unit
  AllMinor (s ∷ subs) = (mime_major s.type ≡ major) × AllMinor subs

  major-by_sub :
      (type : MimeType) (str : Bytes) (word : Bytes × Bytes) (subs : List SubType)
      → mime_major type ≡ major
      → AllMinor subs
      → mime_major (by_sub type str word subs).0 ≡ major
  unfolding by_sub
  major-by_sub type str word [] h a = h
  major-by_sub type str word (s ∷ subs) h a =
      ground (arith, a.0, major-by_sub type str word subs h a.1)

  major-by_minor :
      (type : MimeType) (subs : List SubType) (str : Bytes)
      → mime_major type ≡ major
      → AllMinor subs
      → mime_major (by_minor type subs str).0 ≡ major
  unfolding by_minor
  major-by_minor type subs [] h a = h
  major-by_minor type subs (c ∷ str) h a =
      ground (arith, major-by_sub type str (span is_sub_byte str) subs h a)

abbrev AllOwn : List MainType → Type 0
AllOwn [] = Unit
AllOwn (m ∷ mains) = (mime_major m.type ≡ m.type) × AllMinor m.type m.subs × AllOwn mains

-- the major type that a word names
abbrev pub main_of : Bytes → List MainType → MimeType
main_of word [] = unknown
main_of word (m ∷ mains) =
    let rest = main_of word mains in if is_word word m.str then m.type else rest

major-by_main :
    (str : Bytes) (word : Bytes × Bytes) (mains : List MainType)
    → AllOwn mains
    → mime_major (by_main str word mains).0 ≡ main_of word.0 mains
unfolding by_main
major-by_main str word [] a = unfold mime_major in refl
major-by_main str word (m ∷ mains) a =
    ground
      (arith, major-by_minor m.type m.type m.subs word.1 a.0 a.1, major-by_main str word mains a.2)

AllOwn-mime_types : AllOwn mime_types
unfolding mime_types mime_major
AllOwn-mime_types = (
  refl,
  (refl, (refl, (refl, tt))),
  (
    refl,
    (refl, (refl, (refl, (refl, (refl, (refl, tt)))))),
    (refl, (refl, (refl, (refl, tt))), (refl, (refl, tt), (refl, (refl, (refl, tt)), tt))),
  ),
)

-- The major type of the result is the one that the leading word names, whatever follows it: no
-- minor type leads out of its major type. A word of no letters names none.
pub mime_major-mime_by_string :
    (str : Bytes)
    → mime_major (mime_by_string str).0 ≡ (
        if length (span is_alpha str).0 == 0
        then unknown
        else main_of (span is_alpha str).0 mime_types)
unfolding mime_by_string
mime_major-mime_by_string str = elim (Bool-cases (length (span is_alpha str).0 == 0)) [
  | inl empty ↦ rw empty (unfold mime_major in refl)
  | inr word ↦ rw word (major-by_main str (span is_alpha str) mime_types AllOwn-mime_types)
]

-- The rows of the two bitmap types carry the names of rows above them: no string leads to them.
abbrev NoBitmap : MimeType → Type 0
NoBitmap type = (type ≢ img_x_xbm) × (type ≢ img_x_xpm)

abbrev AllPlain : List SubType → Type 0
AllPlain [] = Unit
AllPlain (s ∷ subs) = NoBitmap s.type × AllPlain subs

abbrev SubsAvoid : MimeType → List SubType → Type 0
SubsAvoid type subs = (str : Bytes) (word : Bytes × Bytes) → NoBitmap (by_sub type str word subs).0

SubsAvoid_of_AllPlain :
    (type : MimeType) (subs : List SubType) → NoBitmap type → AllPlain subs → SubsAvoid type subs
unfolding by_sub
SubsAvoid_of_AllPlain type [] h a str word = h
SubsAvoid_of_AllPlain type (s ∷ subs) h a str word = elim (Bool-cases (is_word word.0 s.str)) [
  | inl found ↦ rw found a.0
  | inr other ↦ rw other (SubsAvoid_of_AllPlain type subs h a.1 str word)
]

SubsAvoid-img_types : SubsAvoid image img_types
unfolding by_sub
SubsAvoid-img_types str word = ground arith

by_minor-NoBitmap :
    (type : MimeType) (subs : List SubType) (str : Bytes)
    → NoBitmap type
    → SubsAvoid type subs
    → NoBitmap (by_minor type subs str).0
unfolding by_minor
by_minor-NoBitmap type subs [] h a = h
by_minor-NoBitmap type subs (c ∷ str) h a = elim (Bool-cases (c == b'/')) [
  | inr other ↦ rw other h
  | inl slash ↦ elim (Bool-cases (is_alpha (head_byte str))) [
    | inr other ↦ rw (slash, other) h
    | inl alpha ↦ rw (slash, alpha) (a str (span is_sub_byte str))
  ]
]

abbrev AllAvoid : List MainType → Type 0
AllAvoid [] = Unit
AllAvoid (m ∷ mains) = NoBitmap m.type × SubsAvoid m.type m.subs × AllAvoid mains

by_main-NoBitmap :
    (str : Bytes) (word : Bytes × Bytes) (mains : List MainType)
    → AllAvoid mains
    → NoBitmap (by_main str word mains).0
unfolding by_main
by_main-NoBitmap str word [] a = ground arith
by_main-NoBitmap str word (m ∷ mains) a = elim (Bool-cases (is_word word.0 m.str)) [
  | inl found ↦ rw found (by_minor-NoBitmap m.type m.subs word.1 a.0 a.1)
  | inr other ↦ rw other (by_main-NoBitmap str word mains a.2)
]

AllAvoid-mime_types : AllAvoid mime_types
unfolding mime_types
AllAvoid-mime_types = (
  ground arith,
  SubsAvoid_of_AllPlain text txt_types (ground arith) (ground arith),
  (
    ground arith,
    SubsAvoid-img_types,
    (
      ground arith,
      SubsAvoid_of_AllPlain audio aud_types (ground arith) (ground arith),
      (
        ground arith,
        SubsAvoid_of_AllPlain video vid_types (ground arith) (ground arith),
        (
          ground arith,
          SubsAvoid_of_AllPlain application app_types (ground arith) (ground arith),
          tt,
        ),
      ),
    ),
  ),
)

-- `mime_byString` recognises no string as an X bitmap or an X pixmap.
pub mime_by_string_no_bitmap :
    (str : Bytes) → ((mime_by_string str).0 ≢ img_x_xbm) × ((mime_by_string str).0 ≢ img_x_xpm)
unfolding mime_by_string
mime_by_string_no_bitmap str = elim (Bool-cases (length (span is_alpha str).0 == 0)) [
  | inl empty ↦ rw empty (ground arith)
  | inr word ↦ rw word (by_main-NoBitmap str (span is_alpha str) mime_types AllAvoid-mime_types)
]
