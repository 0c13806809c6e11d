-- ===== src/Encoding/Tables/Bics2.antt =====
-- src/en_bics.h: rows of the table from Unicode to the BICS font codes.
use highwire.Common.{List, [], ◌∷◌}
use highwire.Encoding.Row.{Row, small, multi}

unfoldable pub bics_2 : List Row
bics_2 =
    small 0x0398 315 0
    ∷ small 0x0399 41 0
    ∷ small 0x039A 43 0
    ∷ small 0x039C 45 0
    ∷ small 0x039D 46 0
    ∷ small 0x039E 287 0
    ∷ small 0x039F 47 0
    ∷ small 0x03A1 48 0
    ∷ small 0x03A3 316 0
    ∷ small 0x03A4 52 0
    ∷ small 0x03A5 57 0
    ∷ small 0x03A6 317 0
    ∷ small 0x03A7 56 0
    ∷ small 0x03A9 318 0
    ∷ small 0x03AA 235 0
    ∷ small 0x03AB 222 0
    ∷ small 0x03AF 242 0
    ∷ small 0x03B1 319 0
    ∷ small 0x03B2 320 0
    ∷ small 0x03B4 321 0
    ∷ small 0x03B5 502 0
    ∷ small 0x03B7 323 0
    ∷ small 0x03B8 324 0
    ∷ small 0x03B9 122 0
    ∷ small 0x03BC 325 0
    ∷ small 0x03BD 86 0
    ∷ small 0x03BF 79 0
    ∷ small 0x03C0 326 0
    ∷ small 0x03C1 80 0
    ∷ small 0x03C2 83 0
    ∷ small 0x03C3 327 0
    ∷ small 0x03C4 328 0
    ∷ small 0x03C6 329 0
    ∷ small 0x03CA 236 0
    ∷ small 0x03CC 199 0
    ∷ small 0x03D5 329 0
    ∷ small 0x03DC 38 0
    ∷ small 0x03F2 67 0
    ∷ small 0x03F3 74 0
    ∷ small 0x03F4 315 0
    ∷ small 0x03F5 322 0
    ∷ small 0x05BE 230 0
    ∷ small 0x05C0 92 0
    ∷ small 0x05C3 26 0
    ∷ small 0x05F3 337 0
    ∷ small 0x05F4 338 0
    ∷ small 0x0660 16 0
    ∷ small 0x0661 17 0
    ∷ small 0x0662 18 0
    ∷ small 0x0663 19 0
    ∷ small 0x0664 20 0
    ∷ small 0x0665 21 0
    ∷ small 0x0666 22 0
    ∷ small 0x0667 23 0
    ∷ small 0x0668 24 0
    ∷ small 0x0669 25 0
    ∷ multi 0x0669 (181 ∷ 101 ∷ 14 ∷ [])
    ∷ multi 0x066A (181 ∷ 15 ∷ 14 ∷ [])
    ∷ small 0x066B 12 0
    ∷ small 0x066C 185 0
    ∷ small 0x070F 0 0
    ∷ multi 0x09F3 (41 ∷ 46 ∷ 50 ∷ [])
    ∷ multi 0x0E3F (52 ∷ 40 ∷ 34 ∷ [])
    ∷ small 0x10FB 26 102
    ∷ multi 0x17DB (43 ∷ 40 ∷ 50 ∷ [])
    ∷ small 0x180B 0 0
    ∷ small 0x180C 0 0
    ∷ small 0x180D 0 0
    ∷ small 0x180E 0 0
    ∷ small 0x1F08 185 33
    ∷ small 0x1F18 185 37
    ∷ small 0x1F28 185 40
    ∷ small 0x1F38 185 41
    ∷ small 0x1F48 185 47
    ∷ small 0x1F68 185 318
    ∷ small 0x1F78 201 0
    ∷ small 0x1F79 199 0
    ∷ small 0x1FB8 374 0
    ∷ small 0x1FB9 477 0
    ∷ small 0x1FBA 131 33
    ∷ small 0x1FBB 129 33
    ∷ small 0x1FBD 185 0
    ∷ small 0x1FBF 185 0
    ∷ small 0x1FC0 137 0
    ∷ small 0x1FC8 131 37
    ∷ small 0x1FC9 129 37
    ∷ small 0x1FCA 131 40
    ∷ small 0x1FCB 129 40
    ∷ small 0x1FD9 387 0
    ∷ small 0x1FDA 131 41
    ∷ small 0x1FDB 129 41
    ∷ small 0x1FE8 427 0
    ∷ small 0x1FEA 131 57
    ∷ small 0x1FEB 129 57
    ∷ small 0x1FEF 131 0
    ∷ small 0x1FF8 131 47
    ∷ small 0x1FF9 129 47
    ∷ small 0x1FFA 131 318
    ∷ small 0x1FFB 131 318
    ∷ small 0x2000 561 0
    ∷ small 0x2001 562 0
    ∷ small 0x2002 561 0
    ∷ small 0x2003 562 0
    ∷ small 0x2004 561 0
    ∷ small 0x2005 561 0
    ∷ small 0x2006 561 0
    ∷ small 0x2007 560 0
    ∷ small 0x2008 561 0
    ∷ small 0x2009 561 0
    ∷ small 0x200A 0 0
    ∷ small 0x200B 0 0
    ∷ small 0x200C 0 0
    ∷ small 0x200D 0 0
    ∷ small 0x2010 13 0
    ∷ small 0x2011 13 0
    ∷ small 0x2012 111 0
    ∷ small 0x2013 111 0
    ∷ small 0x2014 112 0
    ∷ small 0x2015 267 0
    ∷ small 0x2016 529 0
    ∷ small 0x2017 487 0
    ∷ small 0x2018 103 0
    ∷ small 0x2019 7 0
    ∷ small 0x201A 106 0
    ∷ small 0x201C 104 0
    ∷ small 0x201D 105 0
    ∷ small 0x201E 107 0
    ∷ small 0x2020 108 0
    ∷ small 0x2021 109 0
    ∷ small 0x2022 342 0
    ∷ small 0x2023 345 0
    ∷ small 0x2024 14 0
    ∷ small 0x2025 14 14
    ∷ small 0x2026 270 0
    ∷ small 0x2027 102 0
    ∷ small 0x202F 561 0
    ∷ small 0x2030 100 0
    ∷ small 0x2031 100 475
    ∷ small 0x2032 337 0
    ∷ small 0x2033 338 0
    ∷ multi 0x2034 (337 ∷ 337 ∷ 337 ∷ [])
    ∷ small 0x2039 123 0
    ∷ small 0x203A 124 0
    ∷ small 0x203C 265 0
    ∷ small 0x203E 465 0
    ∷ small 0x2043 355 0
    ∷ small 0x2044 101 0
    ∷ small 0x2047 31 31
    ∷ small 0x2048 31 1
    ∷ small 0x2049 1 31
    ∷ small 0x204A 23 0
    ∷ small 0x204E 10 0
    ∷ multi 0x2052 (181 ∷ 15 ∷ 14 ∷ [])
    ∷ small 0x2057 338 338
    ∷ small 0x205F 561 0
    ∷ small 0x2060 0 0
    ∷ small 0x2061 0 0
    ∷ small 0x2062 561 0
    ∷ small 0x2063 561 0
    ∷ small 0x2070 168 0
    ∷ small 0x2071 540 0
    ∷ small 0x2074 162 0
    ∷ small 0x2075 163 0
    ∷ small 0x2076 164 0
    ∷ small 0x2077 165 0
    ∷ small 0x2078 166 0
    ∷ small 0x2079 167 0
    ∷ small 0x207A 312 0
    ∷ small 0x207B 311 0
    ∷ small 0x207D 229 0
    ∷ small 0x207E 228 0
    ∷ small 0x207F 543 0
    ∷ small 0x2080 475 0
    ∷ small 0x2081 466 0
    ∷ small 0x2082 467 0
    ∷ small 0x2083 468 0
    ∷ small 0x2084 469 0
    ∷ small 0x2085 470 0
    ∷ small 0x2086 471 0
    ∷ small 0x2087 472 0
    ∷ small 0x2088 473 0
    ∷ small 0x2089 474 0
    ∷ small 0x208B 186 0
    ∷ []
