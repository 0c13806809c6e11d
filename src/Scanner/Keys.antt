-- ===== src/Scanner/Keys.antt =====
-- src/token.h: the names of the keys, in the order of the enum `HTMLKEY`, where `KEY_Unknown` is 0.
use highwire.Common.{ℕ, List, [], ◌∷◌}
use highwire.Common.Bytes.{Bytes, codes}

-- `key_table`
unfoldable pub key_table : List (Bytes × ℕ)
key_table =
    (codes "ACTION", 1)
    ∷ (codes "ALIGN", 2)
    ∷ (codes "ALT", 3)
    ∷ (codes "BGCOLOR", 4)
    ∷ (codes "BORDER", 5)
    ∷ (codes "BORDERCOLOR", 6)
    ∷ (codes "CELLPADDING", 7)
    ∷ (codes "CELLSPACING", 8)
    ∷ (codes "CHARSET", 9)
    ∷ (codes "CHECKED", 10)
    ∷ (codes "CLASS", 11)
    ∷ (codes "CLEAR", 12)
    ∷ (codes "COLOR", 13)
    ∷ (codes "COLS", 14)
    ∷ (codes "COLSPAN", 15)
    ∷ (codes "CONTENT", 16)
    ∷ (codes "COORDS", 17)
    ∷ (codes "DISABLED", 18)
    ∷ (codes "ENCTYPE", 19)
    ∷ (codes "FACE", 20)
    ∷ (codes "FRAMEBORDER", 21)
    ∷ (codes "FRAMESPACING", 22)
    ∷ (codes "HEIGHT", 23)
    ∷ (codes "HREF", 24)
    ∷ (codes "HSPACE", 25)
    ∷ (codes "HTTP_EQUIV", 26)
    ∷ (codes "ID", 27)
    ∷ (codes "LABEL", 28)
    ∷ (codes "LANG", 29)
    ∷ (codes "LEFTMARGIN", 30)
    ∷ (codes "LINK", 31)
    ∷ (codes "MARGINHEIGHT", 32)
    ∷ (codes "MARGINWIDTH", 33)
    ∷ (codes "MAXLENGTH", 34)
    ∷ (codes "MEDIA", 35)
    ∷ (codes "METHOD", 36)
    ∷ (codes "NAME", 37)
    ∷ (codes "NORESIZE", 38)
    ∷ (codes "NOSHADE", 39)
    ∷ (codes "NOWRAP", 40)
    ∷ (codes "READONLY", 41)
    ∷ (codes "REL", 42)
    ∷ (codes "ROWS", 43)
    ∷ (codes "ROWSPAN", 44)
    ∷ (codes "SCROLLING", 45)
    ∷ (codes "SELECTED", 46)
    ∷ (codes "SHAPE", 47)
    ∷ (codes "SHOUT", 48)
    ∷ (codes "SIZE", 49)
    ∷ (codes "SRC", 50)
    ∷ (codes "START", 51)
    ∷ (codes "STYLE", 52)
    ∷ (codes "TARGET", 53)
    ∷ (codes "TEXT", 54)
    ∷ (codes "TITLE", 55)
    ∷ (codes "TOPMARGIN", 56)
    ∷ (codes "TYPE", 57)
    ∷ (codes "USEMAP", 58)
    ∷ (codes "VALIGN", 59)
    ∷ (codes "VALUE", 60)
    ∷ (codes "VSPACE", 61)
    ∷ (codes "WIDTH", 62)
    ∷ []
