-- ===== src/Scanner/Tags.antt =====
-- src/token.h: the names of the tags, in the order of the enum `HTMLTAG`, where `TAG_Unknown` is 0.
use highwire.Common.{ℕ, List, [], ◌∷◌}
use highwire.Common.Bytes.{Bytes, codes}

-- `tag_table`
unfoldable pub tag_table : List (Bytes × ℕ)
tag_table =
    (codes "A", 1)
    ∷ (codes "ADDRESS", 2)
    ∷ (codes "AREA", 3)
    ∷ (codes "B", 4)
    ∷ (codes "BASE", 5)
    ∷ (codes "BASEFONT", 6)
    ∷ (codes "BGSOUND", 7)
    ∷ (codes "BIG", 8)
    ∷ (codes "BLOCKQUOTE", 9)
    ∷ (codes "BODY", 10)
    ∷ (codes "BR", 11)
    ∷ (codes "C", 12)
    ∷ (codes "CAPTION", 13)
    ∷ (codes "CENTER", 14)
    ∷ (codes "CITE", 15)
    ∷ (codes "CODE", 16)
    ∷ (codes "DD", 17)
    ∷ (codes "DEL", 18)
    ∷ (codes "DFN", 19)
    ∷ (codes "DIR", 20)
    ∷ (codes "DIV", 21)
    ∷ (codes "DL", 22)
    ∷ (codes "DT", 23)
    ∷ (codes "EM", 24)
    ∷ (codes "EMBED", 25)
    ∷ (codes "FIELDSET", 26)
    ∷ (codes "FONT", 27)
    ∷ (codes "FORM", 28)
    ∷ (codes "FRAME", 29)
    ∷ (codes "FRAMESET", 30)
    ∷ (codes "H1", 31)
    ∷ (codes "H2", 32)
    ∷ (codes "H3", 33)
    ∷ (codes "H4", 34)
    ∷ (codes "H5", 35)
    ∷ (codes "H6", 36)
    ∷ (codes "HEAD", 37)
    ∷ (codes "HR", 38)
    ∷ (codes "HTML", 39)
    ∷ (codes "I", 40)
    ∷ (codes "IMAGE", 41)
    ∷ (codes "IMG", 42)
    ∷ (codes "INPUT", 43)
    ∷ (codes "INS", 44)
    ∷ (codes "IOD", 45)
    ∷ (codes "KBD", 46)
    ∷ (codes "LABEL", 47)
    ∷ (codes "LEGEND", 48)
    ∷ (codes "LI", 49)
    ∷ (codes "LINK", 50)
    ∷ (codes "LISTING", 51)
    ∷ (codes "MAP", 52)
    ∷ (codes "MENU", 53)
    ∷ (codes "META", 54)
    ∷ (codes "NOBR", 55)
    ∷ (codes "NOSCRIPT", 56)
    ∷ (codes "OBJECT", 57)
    ∷ (codes "OL", 58)
    ∷ (codes "OPTGROUP", 59)
    ∷ (codes "OPTION", 60)
    ∷ (codes "P", 61)
    ∷ (codes "PLAINTEXT", 62)
    ∷ (codes "PRE", 63)
    ∷ (codes "Q", 64)
    ∷ (codes "S", 65)
    ∷ (codes "SAMP", 66)
    ∷ (codes "SCRIPT", 67)
    ∷ (codes "SELECT", 68)
    ∷ (codes "SMALL", 69)
    ∷ (codes "SPAN", 70)
    ∷ (codes "STRIKE", 71)
    ∷ (codes "STRONG", 72)
    ∷ (codes "STYLE", 73)
    ∷ (codes "SUB", 74)
    ∷ (codes "SUP", 75)
    ∷ (codes "TABLE", 76)
    ∷ (codes "TBODY", 77)
    ∷ (codes "TD", 78)
    ∷ (codes "TEXTAREA", 79)
    ∷ (codes "TFOOT", 80)
    ∷ (codes "TH", 81)
    ∷ (codes "THEAD", 82)
    ∷ (codes "TITLE", 83)
    ∷ (codes "TR", 84)
    ∷ (codes "TT", 85)
    ∷ (codes "U", 86)
    ∷ (codes "UL", 87)
    ∷ (codes "VAR", 88)
    ∷ (codes "WBR", 89)
    ∷ (codes "XMP", 90)
    ∷ []
