-- ===== src/Mime.antt =====
-- src/mime.c and mime.h: MIME types, and the file extensions and type names that stand for them.
pub mod Extension
pub mod Name
mod Tests
use mathlib.Core.List.{reverse}
use Prim.Native.String.{String}
use highwire.Common.{
  ℕ, ◌+◌, Bool, true, false, not, ◌&&◌, Option, none, some, List, [], ◌∷◌, length, drop, ltb, leb,
  ◌==◌, if◌then◌else◌, span, map,
}
use highwire.Common.Bytes.{Bytes, codes, head_byte, is_alpha, to_upper, same_nocase}

-- `MIMETYPE`. The enum counts on from the major type, which is the upper four bits.
pub data MimeType : Type 0 where
  unknown : MimeType
  text txt_plain txt_html txt_css : MimeType
  image img_jpeg img_gif img_png img_x_xbm img_x_xpm img_x_icon : MimeType
  audio aud_basic aud_mpeg aud_x_wav : MimeType
  video vid_mpeg : MimeType
  application app_octet app_pdf : MimeType

-- `MIME_Major(t)`, as the enum's constant for it
unfoldable pub mime_major : MimeType → MimeType
mime_major txt_plain = text
mime_major txt_html = text
mime_major txt_css = text
mime_major img_jpeg = image
mime_major img_gif = image
mime_major img_png = image
mime_major img_x_xbm = image
mime_major img_x_xpm = image
mime_major img_x_icon = image
mime_major aud_basic = audio
mime_major aud_mpeg = audio
mime_major aud_x_wav = audio
mime_major vid_mpeg = video
mime_major app_octet = application
mime_major app_pdf = application
mime_major major = major

pub MimeType-discrete : Discrete MimeType
MimeType-discrete = hlevel

-- `struct ext_2_mime`; `appl` is `none` for NULL.
pub record ExtType : Type 0 where
  pub ext : Bytes
  pub type : MimeType
  pub appl : Option Bytes

abbrev row : String → MimeType → Option Bytes → ExtType
row ext type appl = record { ext = codes ext; type = type; appl = appl }

unfoldable pub mime_list : List ExtType
mime_list =
    row "au" aud_basic (some (codes "GEMJing"))
    ∷ row "css" txt_css none
    ∷ row "gif" img_gif none
    ∷ row "htm" txt_html none
    ∷ row "html" txt_html none
    ∷ row "ico" img_x_icon none
    ∷ row "jpeg" img_jpeg none
    ∷ row "jpg" img_jpeg none
    ∷ row "jpe" img_jpeg none
    ∷ row "mp3" aud_mpeg (some (codes ""))
    ∷ row "png" img_png none
    ∷ row "shtml" txt_html none
    ∷ row "snd" aud_basic (some (codes "GEMJing"))
    ∷ row "txt" txt_plain none
    ∷ row "wav" aud_x_wav (some (codes "GEMJing"))
    ∷ row "xbm" img_x_xbm none
    ∷ row "xpm" img_x_xpm none
    ∷ []

-- `ext_list` and the walk over it, which ends with "" behind the last row
unfoldable pub mime_to_extension : MimeType → Bytes
mime_to_extension txt_css = codes "css"
mime_to_extension txt_html = codes "htm"
mime_to_extension txt_plain = codes "txt"
mime_to_extension img_jpeg = codes "jpg"
mime_to_extension img_gif = codes "gif"
mime_to_extension img_png = codes "png"
mime_to_extension img_x_xbm = codes "xbm"
mime_to_extension img_x_xpm = codes "xpm"
mime_to_extension img_x_icon = codes "ico"
mime_to_extension aud_basic = codes "au"
mime_to_extension aud_mpeg = codes "mp3"
mime_to_extension aud_x_wav = codes "wav"
mime_to_extension type = []

-- `strnicmp (word, name, len) == 0 && strlen (name) == len`, which `!name[len]` says as well
abbrev pub is_word : Bytes → Bytes → Bool
is_word word name = same_nocase word name (length word) && length name == length word

-- the walk over `mime_list`
unfoldable pub find_ext : Bytes → List ExtType → Option ExtType
unfolding same_nocase
find_ext word [] = none
find_ext word (r ∷ rows) =
    let rest = find_ext word rows in if is_word word r.ext then some r else rest

unfoldable pub find_type : Bytes → Option ExtType
unfolding find_ext mime_list
find_type word = find_ext word mime_list

-- What `mime_byExtension` returns, and what it stores through `stored` and `ptr` if these are
-- given: `stored` is `none` if nothing is stored.
pub record ByExtension : Type 0 where
  pub type : MimeType
  pub stored : Option (Option Bytes)
  pub ptr : Bytes

-- `while (ext > file && *(--ext) != '.');` over the reversed name: what is behind the last dot
unfoldable pub back_to_dot : Bytes → Bytes → Option Bytes
back_to_dot [] ext = none
back_to_dot (c ∷ back) ext =
    let further = back_to_dot back (c ∷ ext) in if c == b'.' then some ext else further

-- the first three bytes; those behind the extension's end are cut off by the NUL
abbrev shout : Bytes → Bytes
shout (a ∷ b ∷ c ∷ ext) = to_upper a ∷ to_upper b ∷ to_upper c ∷ []
shout ext = map to_upper ext

unfoldable pub by_ext : Option Bytes → ByExtension
by_ext none = record { type = unknown; stored = none; ptr = [] }
by_ext (some []) = record { type = unknown; stored = none; ptr = [] }
by_ext (some (c ∷ ext)) = elim (find_type (c ∷ ext)) [
  | none ↦ record { type = unknown; stored = none; ptr = shout (c ∷ ext) }
  | some r ↦ record { type = r.type; stored = some r.appl; ptr = mime_to_extension r.type }
]

-- the name ends at the first '?'
abbrev pub not_query : ℕ → Bool
not_query c = not (c == b'?')

unfoldable pub mime_by_extension : Bytes → ByExtension
unfolding by_ext back_to_dot span
mime_by_extension file = by_ext (back_to_dot (reverse (span not_query file).0) [])

-- `struct mime_sub`
pub record SubType : Type 0 where
  pub str : Bytes
  pub type : MimeType

abbrev sub : String → MimeType → SubType
sub str type = record { str = codes str; type = type }

abbrev pub txt_types : List SubType
txt_types = sub "plain" txt_plain ∷ sub "html" txt_html ∷ sub "css" txt_css ∷ []

abbrev pub img_types : List SubType
img_types =
    sub "jpeg" img_jpeg
    ∷ sub "gif" img_gif
    ∷ sub "png" img_png
    ∷ sub "jpeg" img_x_xbm
    ∷ sub "gif" img_x_xpm
    ∷ sub "ico" img_x_icon
    ∷ []

abbrev pub aud_types : List SubType
aud_types = sub "basic" aud_basic ∷ sub "mpeg" aud_mpeg ∷ sub "x-wav" aud_x_wav ∷ []

abbrev pub vid_types : List SubType
vid_types = sub "mpeg" vid_mpeg ∷ []

abbrev pub app_types : List SubType
app_types = sub "octet-stream" app_octet ∷ sub "pdf" app_pdf ∷ []

-- `struct mime`
pub record MainType : Type 0 where
  pub str : Bytes
  pub type : MimeType
  pub subs : List SubType

abbrev main : String → MimeType → List SubType → MainType
main str type subs = record { str = codes str; type = type; subs = subs }

unfoldable pub mime_types : List MainType
mime_types =
    main "text" text txt_types
    ∷ main "image" image img_types
    ∷ main "audio" audio aud_types
    ∷ main "video" video vid_types
    ∷ main "application" application app_types
    ∷ []

-- letters, and behind the first one dashes too
abbrev pub is_sub_byte : ℕ → Bool
is_sub_byte c = if is_alpha c then true else c == b'-'

-- The walk over the minor types: the type so far and the place so far, if none fits.
unfoldable pub by_sub : MimeType → Bytes → Bytes × Bytes → List SubType → MimeType × Bytes
unfolding same_nocase
by_sub type str word [] = (type, str)
by_sub type str word (s ∷ subs) =
    let rest = by_sub type str word subs in if is_word word.0 s.str then (s.type, word.1) else rest

-- behind the major type: `if (*str == '/' && isalpha(*(++str)))`
unfoldable pub by_minor : MimeType → List SubType → Bytes → MimeType × Bytes
unfolding by_sub span
by_minor type subs [] = (type, [])
by_minor type subs (c ∷ str) =
    if not (c == b'/')
    then (type, c ∷ str)
    else if is_alpha (head_byte str)
    then by_sub type str (span is_sub_byte str) subs
    else (type, str)

-- the walk over the major types
unfoldable pub by_main : Bytes → Bytes × Bytes → List MainType → MimeType × Bytes
unfolding by_minor same_nocase
by_main str word [] = (unknown, str)
by_main str word (m ∷ mains) =
    let rest = by_main str word mains in
    if is_word word.0 m.str then by_minor m.type m.subs word.1 else rest

-- The type, and the place behind it, `*tail`.
unfoldable pub mime_by_string : Bytes → MimeType × Bytes
unfolding by_main span mime_types
mime_by_string str =
    let word = span is_alpha str in
    if length word.0 == 0 then (unknown, str) else by_main str word mime_types
