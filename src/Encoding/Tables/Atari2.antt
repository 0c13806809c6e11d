-- ===== src/Encoding/Tables/Atari2.antt =====
-- src/en_atari.h: rows of the table from Unicode to the Atari system font.
use highwire.Common.{List, [], ◌∷◌}
use highwire.Encoding.Row.{Row, small, multi}

unfoldable pub atari_2 : List Row
atari_2 =
    small 0x02AB 108 122
    ∷ small 0x02B9 39 0
    ∷ small 0x02BA 34 0
    ∷ small 0x02BC 39 0
    ∷ small 0x02C2 60 0
    ∷ small 0x02C3 62 0
    ∷ small 0x02C6 94 0
    ∷ small 0x02C8 39 0
    ∷ small 0x02C9 255 0
    ∷ small 0x02CA 186 0
    ∷ small 0x02CB 96 0
    ∷ small 0x02CD 95 0
    ∷ small 0x02D0 58 0
    ∷ small 0x02D1 250 0
    ∷ small 0x02D6 43 0
    ∷ small 0x02D7 45 0
    ∷ small 0x02DA 248 0
    ∷ small 0x02DC 126 0
    ∷ small 0x02EE 34 0
    ∷ small 0x034F 0 0
    ∷ small 0x0374 186 0
    ∷ small 0x037E 59 0
    ∷ small 0x0391 65 0
    ∷ small 0x0392 66 0
    ∷ small 0x0393 226 0
    ∷ small 0x0394 127 0
    ∷ small 0x0395 69 0
    ∷ small 0x0396 90 0
    ∷ small 0x0397 72 0
    ∷ small 0x0398 233 0
    ∷ small 0x0399 73 0
    ∷ small 0x039A 75 0
    ∷ small 0x039C 77 0
    ∷ small 0x039D 78 0
    ∷ small 0x039E 240 0
    ∷ small 0x039F 79 0
    ∷ small 0x03A0 239 0
    ∷ small 0x03A1 80 0
    ∷ small 0x03A3 228 0
    ∷ small 0x03A4 84 0
    ∷ small 0x03A5 89 0
    ∷ small 0x03A6 232 0
    ∷ small 0x03A7 88 0
    ∷ small 0x03A9 234 0
    ∷ small 0x03B1 224 0
    ∷ small 0x03B2 225 0
    ∷ small 0x03B4 235 0
    ∷ small 0x03B5 238 0
    ∷ small 0x03BC 230 0
    ∷ small 0x03BD 118 0
    ∷ small 0x03BF 111 0
    ∷ small 0x03C0 227 0
    ∷ small 0x03C1 112 0
    ∷ small 0x03C2 115 0
    ∷ small 0x03C3 229 0
    ∷ small 0x03C4 231 0
    ∷ small 0x03C6 237 0
    ∷ small 0x03D5 237 0
    ∷ small 0x03DC 70 0
    ∷ small 0x03F2 99 0
    ∷ small 0x03F3 106 0
    ∷ small 0x03F4 233 0
    ∷ small 0x03F5 238 0
    ∷ small 0x05BE 255 0
    ∷ small 0x05C0 124 0
    ∷ small 0x05C3 58 0
    ∷ small 0x05D0 194 0
    ∷ small 0x05D1 195 0
    ∷ small 0x05D2 196 0
    ∷ small 0x05D3 197 0
    ∷ small 0x05D4 198 0
    ∷ small 0x05D5 199 0
    ∷ small 0x05D6 200 0
    ∷ small 0x05D7 201 0
    ∷ small 0x05D8 202 0
    ∷ small 0x05D9 203 0
    ∷ small 0x05DA 217 0
    ∷ small 0x05DB 204 0
    ∷ small 0x05DC 205 0
    ∷ small 0x05DD 218 0
    ∷ small 0x05DE 206 0
    ∷ small 0x05DF 216 0
    ∷ small 0x05E0 207 0
    ∷ small 0x05E1 208 0
    ∷ small 0x05E2 209 0
    ∷ small 0x05E3 219 0
    ∷ small 0x05E4 210 0
    ∷ small 0x05E5 220 0
    ∷ small 0x05E6 211 0
    ∷ small 0x05E7 212 0
    ∷ small 0x05E8 213 0
    ∷ small 0x05E9 214 0
    ∷ small 0x05EA 215 0
    ∷ small 0x05F0 199 199
    ∷ small 0x05F1 203 199
    ∷ small 0x05F2 203 203
    ∷ small 0x05F3 39 0
    ∷ small 0x05F4 34 0
    ∷ small 0x0660 48 0
    ∷ small 0x0661 49 0
    ∷ small 0x0662 50 0
    ∷ small 0x0663 51 0
    ∷ small 0x0664 52 0
    ∷ small 0x0665 53 0
    ∷ small 0x0666 54 0
    ∷ small 0x0667 55 0
    ∷ small 0x0668 56 0
    ∷ small 0x0669 57 0
    ∷ small 0x066A 37 0
    ∷ small 0x066B 44 0
    ∷ small 0x066C 39 0
    ∷ small 0x066D 42 0
    ∷ small 0x070F 0 0
    ∷ multi 0x09F3 (73 ∷ 78 ∷ 82 ∷ [])
    ∷ multi 0x0E3F (84 ∷ 72 ∷ 66 ∷ [])
    ∷ small 0x10FB 58 250
    ∷ multi 0x17DB (75 ∷ 72 ∷ 82 ∷ [])
    ∷ small 0x180B 0 0
    ∷ small 0x180C 0 0
    ∷ small 0x180D 0 0
    ∷ small 0x180E 0 0
    ∷ small 0x2000 32 0
    ∷ small 0x2001 32 32
    ∷ small 0x2002 32 0
    ∷ small 0x2003 32 32
    ∷ small 0x2004 32 0
    ∷ small 0x2005 32 0
    ∷ small 0x2006 32 0
    ∷ small 0x2007 32 0
    ∷ small 0x2008 32 0
    ∷ small 0x2009 32 0
    ∷ small 0x200A 0 0
    ∷ small 0x200B 0 0
    ∷ small 0x200C 0 0
    ∷ small 0x200D 0 0
    ∷ small 0x2010 45 0
    ∷ small 0x2011 45 0
    ∷ small 0x2012 45 0
    ∷ small 0x2013 45 0
    ∷ small 0x2014 45 45
    ∷ small 0x2015 45 45
    ∷ small 0x2016 124 124
    ∷ small 0x2018 39 0
    ∷ small 0x2019 39 0
    ∷ small 0x201A 39 0
    ∷ small 0x201B 39 0
    ∷ small 0x201C 34 0
    ∷ small 0x201D 34 0
    ∷ small 0x201E 34 0
    ∷ small 0x201F 34 0
    ∷ small 0x2020 187 0
    ∷ small 0x2021 187 0
    ∷ small 0x2022 249 0
    ∷ small 0x2023 249 0
    ∷ small 0x2024 46 0
    ∷ small 0x2025 46 46
    ∷ multi 0x2026 (46 ∷ 46 ∷ 46 ∷ [])
    ∷ small 0x2027 250 0
    ∷ small 0x202F 32 0
    ∷ multi 0x2030 (248 ∷ 47 ∷ 111 ∷ 111 ∷ [])
    ∷ small 0x2032 39 0
    ∷ []
