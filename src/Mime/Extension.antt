-- ===== src/Mime/Extension.antt =====
-- `mime_byExtension` and `mime_toExtension`.
use mathlib.Core.List.{
  reverse, reverse-append, reverse-cons, reverse-reverse, append_assoc, append-nil,
}
use highwire.Common.{
  ℕ, zero, suc, Bool, true, false, not, ◌&&◌, Option, none, some, List, [], ◌∷◌, ◌++◌, ◌≡◌, ◌≢◌,
  refl, sym, ap, ◌∙◌, arith, length, all, ◌==◌, span, map,
}
use highwire.Common.Bytes.{Bytes, to_lower, same_nocase}
use highwire.Mime.{
  MimeType, unknown, txt_css, txt_html, txt_plain, img_jpeg, img_gif, img_png, img_x_xbm, img_x_xpm,
  img_x_icon, aud_basic, aud_mpeg, aud_x_wav, ExtType, find_type, mime_list, mime_to_extension,
  find_ext, back_to_dot, by_ext, not_query, mime_by_extension, ByExtension,
}

-- `rest` is the end of the name, or a query.
abbrev pub IsTail : Bytes → Type 0
IsTail [] = Unit
IsTail (c ∷ rest) = not_query c ≡ false

abbrev not_dot : ℕ → Bool
not_dot c = not (c == b'.')

span_query :
    (name rest : Bytes)
    → all not_query name ≡ true
    → IsTail rest
    → (span not_query (name ++ rest)).0 ≡ name
unfolding span
span_query [] [] h t = refl
span_query [] (c ∷ rest) h t = rw t
span_query (c ∷ name) rest h t = ground (arith, span_query name rest)

back_to_dot-append :
    (back ext rest : Bytes)
    → all not_dot back ≡ true
    → back_to_dot (back ++ b'.' ∷ rest) ext ≡ some (reverse back ++ ext)
unfolding back_to_dot
back_to_dot-append [] ext rest h = refl
back_to_dot-append (c ∷ back) ext rest h = ground (
  arith,
  back_to_dot-append back (c ∷ ext) rest,
  reverse-cons c back,
  append_assoc (reverse back) (c ∷ []) ext,
)

all-append {ℓ} :
    {A : Type ℓ} (p : A → Bool) (xs ys : List A) → all p (xs ++ ys) ≡ (all p xs && all p ys)
all-append p [] ys = refl
all-append p (x ∷ xs) ys = ground (arith, all-append p xs ys)

all-reverse {ℓ} :
    {A : Type ℓ} (p : A → Bool) (xs : List A) → all p xs ≡ true → all p (reverse xs) ≡ true
all-reverse p [] h = refl
all-reverse p (x ∷ xs) h =
    rw reverse-cons (ground (arith, all-append p (reverse xs) (x ∷ []), all-reverse p xs))

-- For a name without a question mark, with a query behind it or nothing, only what stands behind its
-- last dot counts.
pub mime_by_extension-dot :
    (stem ext rest : Bytes)
    → all not_query stem ≡ true
    → all not_query ext ≡ true
    → all not_dot ext ≡ true
    → IsTail rest
    → mime_by_extension ((stem ++ b'.' ∷ ext) ++ rest) ≡ by_ext (some ext)
unfolding mime_by_extension
mime_by_extension-dot stem ext rest s e d t =
    ap by_ext (ap (λ n. back_to_dot (reverse n) []) name ∙ dot)
  where
    name : (span not_query ((stem ++ b'.' ∷ ext) ++ rest)).0 ≡ stem ++ b'.' ∷ ext
    name =
        span_query (stem ++ b'.' ∷ ext) rest
          (ground (arith, all-append not_query stem (b'.' ∷ ext))) t

    turned : reverse (stem ++ b'.' ∷ ext) ≡ reverse ext ++ b'.' ∷ reverse stem
    turned =
        reverse-append stem (b'.' ∷ ext)
        ∙ ap (λ r. r ++ reverse stem) (reverse-cons b'.' ext)
        ∙ append_assoc (reverse ext) (b'.' ∷ []) (reverse stem)

    dot : back_to_dot (reverse (stem ++ b'.' ∷ ext)) [] ≡ some ext
    dot =
        ap (λ r. back_to_dot r []) turned
        ∙ back_to_dot-append (reverse ext) [] (reverse stem) (all-reverse not_dot ext d)
        ∙ ap some (append-nil (reverse (reverse ext)) ∙ reverse-reverse ext)

plain :
    (type : MimeType)
    → (all not_query (mime_to_extension type) ≡ true)
      × (all not_dot (mime_to_extension type) ≡ true)
unfolding mime_to_extension
plain txt_css = (refl, refl)
plain _ = (refl, refl)

by_ext_found :
    (type : MimeType)
    → mime_to_extension type ≢ []
    → (by_ext (some (mime_to_extension type))).type ≡ type
unfolding by_ext find_type mime_to_extension
by_ext_found txt_css h = refl
by_ext_found txt_html h = refl
by_ext_found txt_plain h = refl
by_ext_found img_jpeg h = refl
by_ext_found img_gif h = refl
by_ext_found img_png h = refl
by_ext_found img_x_xbm h = refl
by_ext_found img_x_xpm h = refl
by_ext_found img_x_icon h = refl
by_ext_found aud_basic h = refl
by_ext_found aud_mpeg h = refl
by_ext_found aud_x_wav h = refl
by_ext_found _ h = absurd (h refl)

-- A type that has an extension is found again by it, behind any name without a question mark and before
-- a query or nothing.
pub mime_by_extension-mime_to_extension :
    (type : MimeType) (stem rest : Bytes)
    → mime_to_extension type ≢ []
    → all not_query stem ≡ true
    → IsTail rest
    → (mime_by_extension ((stem ++ b'.' ∷ mime_to_extension type) ++ rest)).type ≡ type
mime_by_extension-mime_to_extension type stem rest h s t =
    ap (λ (r : ByExtension). r.type)
      (mime_by_extension-dot stem (mime_to_extension type) rest s (plain type).0 (plain type).1 t)
    ∙ by_ext_found type h

to_lower_idem : (c : ℕ) → to_lower (to_lower c) ≡ to_lower c
to_lower_idem c = ground arith

pub same_nocase-map : (s t : Bytes) (n : ℕ) → same_nocase (map to_lower s) t n ≡ same_nocase s t n
unfolding same_nocase
same_nocase-map s t zero = refl
same_nocase-map [] t (suc n) = refl
same_nocase-map (c ∷ s) [] (suc n) = refl
same_nocase-map (c ∷ s) (d ∷ t) (suc n) = rw (to_lower_idem c, same_nocase-map s t n)

pub length-map : (f : ℕ → ℕ) (s : Bytes) → length (map f s) ≡ length s
length-map f [] = refl
length-map f (c ∷ s) = ap suc (length-map f s)

find_ext-map :
    (ext : Bytes) (rows : List ExtType) → find_ext (map to_lower ext) rows ≡ find_ext ext rows
unfolding find_ext
find_ext-map ext [] = refl
find_ext-map ext (r ∷ rows) =
    rw (find_ext-map ext rows, length-map to_lower ext, same_nocase-map ext r.ext (length ext))

abbrev type_of : Option ExtType → MimeType
type_of none = unknown
type_of (some r) = r.type

by_ext-type : (c : ℕ) (ext : Bytes) → (by_ext (some (c ∷ ext))).type ≡ type_of (find_type (c ∷ ext))
unfolding by_ext
by_ext-type c ext = ground arith

find_type-map : (ext : Bytes) → find_type (map to_lower ext) ≡ find_type ext
unfolding find_type
find_type-map ext = find_ext-map ext mime_list

-- The case of the letters of an extension makes no difference to the type.
pub by_ext-map : (ext : Bytes) → (by_ext (some (map to_lower ext))).type ≡ (by_ext (some ext)).type
by_ext-map [] = refl
by_ext-map (c ∷ ext) =
    by_ext-type (to_lower c) (map to_lower ext)
    ∙ ap type_of (find_type-map (c ∷ ext))
    ∙ sym (by_ext-type c ext)
