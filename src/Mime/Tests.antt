-- ===== src/Mime/Tests.antt =====
-- Runs of the type searches, and their theorems at concrete names.
use highwire.Common.{some, ◌≡◌, ◌≢◌, refl, arith, span}
use highwire.Common.Bytes.{codes, same_nocase}
use highwire.Mime.{
  text, img_png, img_x_xbm, img_x_xpm, txt_html, by_ext, mime_by_extension, mime_by_string,
  mime_major, mime_types, mime_to_extension, find_type,
}
use highwire.Mime.Extension.{mime_by_extension-dot, mime_by_extension-mime_to_extension, by_ext-map}
use highwire.Mime.Name.{
  IsSuffix, mime_by_string-IsSuffix, mime_major-mime_by_string, mime_by_string_no_bitmap,
}

page_type : (mime_by_extension (codes "A:\\INDEX.HTM?x.y")).type ≡ txt_html
unfolding mime_by_extension find_type
page_type = refl

charset_tail : mime_by_string (codes "text/HTML; a") ≡ (txt_html, codes "; a")
unfolding mime_by_string
charset_tail = refl

mime_by_extension-dot_run : mime_by_extension (codes "a.b.Png?c.d") ≡ by_ext (some (codes "Png"))
mime_by_extension-dot_run =
    mime_by_extension-dot (codes "a.b") (codes "Png") (codes "?c.d") refl refl refl refl

mime_by_extension-mime_to_extension_example :
    (mime_by_extension (codes "logo.png?v.2")).type ≡ img_png
unfolding mime_to_extension
mime_by_extension-mime_to_extension_example =
    mime_by_extension-mime_to_extension img_png (codes "logo") (codes "?v.2") (ground arith) refl
      refl

by_ext-map_run : (by_ext (some (codes "gif"))).type ≡ (by_ext (some (codes "GiF"))).type
by_ext-map_run = by_ext-map (codes "GiF")

mime_by_string-IsSuffix_run :
    IsSuffix (mime_by_string (codes "image/png;q=1")).1 (codes "image/png;q=1")
mime_by_string-IsSuffix_run = mime_by_string-IsSuffix (codes "image/png;q=1")

mime_major-mime_by_string_example : mime_major (mime_by_string (codes "TEXT/strange")).0 ≡ text
unfolding span mime_types same_nocase
mime_major-mime_by_string_example = mime_major-mime_by_string (codes "TEXT/strange")

mime_by_string_no_bitmap_run :
    ((mime_by_string (codes "image/x-xbitmap")).0 ≢ img_x_xbm)
    × ((mime_by_string (codes "image/x-xbitmap")).0 ≢ img_x_xpm)
mime_by_string_no_bitmap_run = mime_by_string_no_bitmap (codes "image/x-xbitmap")
