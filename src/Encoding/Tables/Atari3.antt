-- ===== src/Encoding/Tables/Atari3.antt =====
-- src/en_atari.h: rows of the table from Unicode to the Atari system font.
use highwire.Common.{List, [], ◌∷◌}
use highwire.Encoding.Row.{Row, small, multi}

unfoldable pub atari_3 : List Row
atari_3 =
    small 0x2333 34 0
    ∷ small 0x2039 60 0
    ∷ small 0x203A 62 0
    ∷ small 0x203C 33 33
    ∷ small 0x203E 255 0
    ∷ small 0x2043 45 0
    ∷ small 0x2044 47 0
    ∷ small 0x2047 63 63
    ∷ small 0x204A 55 0
    ∷ small 0x204C 249 0
    ∷ small 0x204D 249 0
    ∷ small 0x204E 42 0
    ∷ small 0x2052 37 0
    ∷ small 0x2057 34 34
    ∷ small 0x205F 32 0
    ∷ small 0x2060 0 0
    ∷ small 0x2061 0 0
    ∷ small 0x2062 32 0
    ∷ small 0x2063 32 0
    ∷ small 0x207F 252 0
    ∷ small 0x20A4 156 0
    ∷ multi 0x20A7 (80 ∷ 116 ∷ 115 ∷ [])
    ∷ small 0x20A8 82 115
    ∷ multi 0x20AA (73 ∷ 76 ∷ 83 ∷ [])
    ∷ small 0x20AC 238 0
    ∷ small 0x20B0 80 102
    ∷ multi 0x2100 (97 ∷ 47 ∷ 99 ∷ [])
    ∷ multi 0x2101 (97 ∷ 47 ∷ 115 ∷ [])
    ∷ small 0x2103 248 67
    ∷ multi 0x2105 (99 ∷ 47 ∷ 111 ∷ [])
    ∷ multi 0x2106 (99 ∷ 47 ∷ 117 ∷ [])
    ∷ small 0x2109 248 70
    ∷ small 0x2113 108 0
    ∷ small 0x2114 108 98
    ∷ small 0x2116 78 167
    ∷ small 0x2122 191 0
    ∷ small 0x2126 234 0
    ∷ small 0x2127 83 0
    ∷ small 0x212A 75 0
    ∷ small 0x212B 143 0
    ∷ small 0x212E 101 0
    ∷ small 0x2133 77 0
    ∷ small 0x2135 194 0
    ∷ small 0x2136 195 0
    ∷ small 0x2137 196 0
    ∷ small 0x2138 197 0
    ∷ small 0x2139 105 0
    ∷ small 0x2180 223 0
    ∷ small 0x2190 4 0
    ∷ small 0x2191 1 0
    ∷ small 0x2192 3 0
    ∷ small 0x2193 2 0
    ∷ small 0x21E6 4 0
    ∷ small 0x21E7 1 0
    ∷ small 0x21E8 3 0
    ∷ small 0x21E9 2 0
    ∷ small 0x2205 237 0
    ∷ small 0x2206 127 0
    ∷ small 0x2208 238 0
    ∷ small 0x220A 238 0
    ∷ small 0x2211 228 0
    ∷ small 0x2212 45 0
    ∷ small 0x2215 47 0
    ∷ small 0x2216 92 0
    ∷ small 0x2217 42 0
    ∷ small 0x2219 249 0
    ∷ small 0x221A 251 0
    ∷ small 0x221D 224 0
    ∷ small 0x221E 223 0
    ∷ small 0x2223 124 0
    ∷ small 0x2225 124 124
    ∷ small 0x2227 222 0
    ∷ small 0x2229 239 0
    ∷ small 0x222A 85 0
    ∷ small 0x222E 236 0
    ∷ small 0x2236 58 0
    ∷ small 0x223C 126 0
    ∷ small 0x223F 126 0
    ∷ small 0x2248 247 0
    ∷ small 0x2261 240 0
    ∷ small 0x2264 243 0
    ∷ small 0x2265 242 0
    ∷ multi 0x2295 (40 ∷ 43 ∷ 41 ∷ [])
    ∷ multi 0x2297 (40 ∷ 120 ∷ 41 ∷ [])
    ∷ multi 0x2299 (40 ∷ 250 ∷ 41 ∷ [])
    ∷ small 0x22BA 84 0
    ∷ small 0x22C0 222 0
    ∷ small 0x22C2 239 0
    ∷ small 0x22C3 85 0
    ∷ small 0x22C5 250 0
    ∷ multi 0x22EF (250 ∷ 250 ∷ 46 ∷ [])
    ∷ small 0x22FF 69 0
    ∷ small 0x2310 170 0
    ∷ small 0x2314 8 0
    ∷ small 0x231A 9 0
    ∷ small 0x2320 244 0
    ∷ small 0x2321 245 0
    ∷ small 0x2329 60 0
    ∷ small 0x232A 62 0
    ∷ small 0x23B7 251 0
    ∷ small 0x240C 12 0
    ∷ small 0x240D 13 0
    ∷ small 0x241B 27 0
    ∷ small 0x266A 11 0
    ∷ multi 0x2680 (91 ∷ 250 ∷ 93 ∷ [])
    ∷ multi 0x2681 (91 ∷ 250 ∷ 250 ∷ 93 ∷ [])
    ∷ multi 0x2682 (91 ∷ 250 ∷ 250 ∷ 250 ∷ 93 ∷ [])
    ∷ multi 0x2683 (91 ∷ 58 ∷ 58 ∷ 93 ∷ [])
    ∷ multi 0x2684 (91 ∷ 58 ∷ 250 ∷ 58 ∷ 93 ∷ [])
    ∷ multi 0x2685 (91 ∷ 58 ∷ 58 ∷ 58 ∷ 93 ∷ [])
    ∷ small 0x2713 8 0
    ∷ small 0x2714 8 0
    ∷ small 0x27E8 60 0
    ∷ small 0x27E9 62 0
    ∷ small 0x29F2 232 0
    ∷ small 0x2A0D 159 0
    ∷ small 0x2A2F 120 0
    ∷ small 0x3000 32 32
    ∷ small 0x301D 34 0
    ∷ small 0x301E 34 0
    ∷ small 0x301F 34 0
    ∷ small 0xF8F0 106 0
    ∷ small 0xFB00 102 102
    ∷ small 0xFB01 102 105
    ∷ small 0xFB02 102 108
    ∷ multi 0xFB03 (102 ∷ 102 ∷ 105 ∷ [])
    ∷ multi 0xFB04 (102 ∷ 102 ∷ 108 ∷ [])
    ∷ small 0xFB05 244 116
    ∷ small 0xFB06 115 116
    ∷ small 0xFB20 209 0
    ∷ small 0xFB21 194 0
    ∷ small 0xFB22 197 0
    ∷ small 0xFB23 198 0
    ∷ small 0xFB24 204 0
    ∷ small 0xFB25 205 0
    ∷ small 0xFB26 218 0
    ∷ small 0xFB27 213 0
    ∷ small 0xFB28 215 0
    ∷ small 0xFB29 43 0
    ∷ small 0xFB4F 194 205
    ∷ small 0xFD3E 40 0
    ∷ small 0xFD3F 41 0
    ∷ small 0xFE00 0 0
    ∷ small 0xFE01 0 0
    ∷ small 0xFE02 0 0
    ∷ small 0xFE03 0 0
    ∷ small 0xFE04 0 0
    ∷ small 0xFE05 0 0
    ∷ small 0xFE06 0 0
    ∷ small 0xFE07 0 0
    ∷ small 0xFE08 0 0
    ∷ small 0xFE09 0 0
    ∷ small 0xFE0A 0 0
    ∷ small 0xFE0B 0 0
    ∷ small 0xFE0C 0 0
    ∷ small 0xFE0D 0 0
    ∷ small 0xFE0E 0 0
    ∷ small 0xFE0F 0 0
    ∷ small 0xFEFF 0 0
    ∷ small 0xFFFD 6 0
    ∷ []
