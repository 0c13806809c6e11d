-- ===== src/Encoding/Tables/Bics3.antt =====
-- src/en_bics.h: rows of the table from Unicode to the BICS font codes.
use highwire.Common.{List, [], ◌∷◌}
use highwire.Encoding.Row.{Row, small, multi}

unfoldable pub bics_3 : List Row
bics_3 =
    small 0x208C 487 0
    ∷ multi 0x20A3 (38 ∷ 50 ∷ 38 ∷ [])
    ∷ small 0x20A4 97 0
    ∷ small 0x20A7 266 0
    ∷ small 0x20A8 50 83
    ∷ multi 0x20AA (41 ∷ 44 ∷ 51 ∷ [])
    ∷ small 0x20AC 298 0
    ∷ multi 0x20AF (39 ∷ 50 ∷ 36 ∷ [])
    ∷ small 0x20B0 48 70
    ∷ multi 0x2100 (65 ∷ 15 ∷ 67 ∷ [])
    ∷ multi 0x2101 (65 ∷ 15 ∷ 83 ∷ [])
    ∷ small 0x2102 92 35
    ∷ small 0x2103 339 35
    ∷ multi 0x2105 (67 ∷ 15 ∷ 79 ∷ [])
    ∷ multi 0x2106 (67 ∷ 15 ∷ 85 ∷ [])
    ∷ small 0x2109 339 38
    ∷ small 0x210D 92 40
    ∷ small 0x2113 497 0
    ∷ small 0x2114 76 66
    ∷ small 0x2115 92 46
    ∷ small 0x2116 46 544
    ∷ small 0x2119 92 48
    ∷ small 0x211A 92 49
    ∷ small 0x211D 92 50
    ∷ small 0x2120 51 45
    ∷ multi 0x2121 (52 ∷ 37 ∷ 44 ∷ [])
    ∷ small 0x2122 334 0
    ∷ small 0x2124 92 58
    ∷ small 0x2126 318 0
    ∷ small 0x2127 51 0
    ∷ small 0x212A 43 0
    ∷ small 0x212B 113 0
    ∷ small 0x212E 69 0
    ∷ small 0x2133 45 0
    ∷ small 0x2139 73 0
    ∷ small 0x2153 157 0
    ∷ small 0x2154 158 0
    ∷ multi 0x2155 (159 ∷ 101 ∷ 470 ∷ [])
    ∷ multi 0x2156 (160 ∷ 101 ∷ 470 ∷ [])
    ∷ multi 0x2157 (161 ∷ 101 ∷ 470 ∷ [])
    ∷ multi 0x2158 (162 ∷ 101 ∷ 470 ∷ [])
    ∷ multi 0x2159 (159 ∷ 101 ∷ 471 ∷ [])
    ∷ multi 0x215A (163 ∷ 101 ∷ 471 ∷ [])
    ∷ small 0x215B 150 0
    ∷ small 0x215C 152 0
    ∷ small 0x215D 154 0
    ∷ small 0x215E 156 0
    ∷ small 0x215F 159 101
    ∷ small 0x2160 41 0
    ∷ small 0x2161 41 41
    ∷ multi 0x2162 (41 ∷ 41 ∷ 41 ∷ [])
    ∷ small 0x2163 41 54
    ∷ small 0x2164 54 0
    ∷ small 0x2165 54 41
    ∷ multi 0x2166 (54 ∷ 41 ∷ 41 ∷ [])
    ∷ multi 0x2167 (54 ∷ 41 ∷ 41 ∷ 41 ∷ [])
    ∷ small 0x2168 41 56
    ∷ small 0x2169 56 0
    ∷ small 0x216A 56 41
    ∷ multi 0x216B (56 ∷ 41 ∷ 41 ∷ [])
    ∷ small 0x216C 44 0
    ∷ small 0x216D 35 0
    ∷ small 0x216E 36 0
    ∷ small 0x216F 45 0
    ∷ small 0x2170 73 0
    ∷ small 0x2171 73 73
    ∷ multi 0x2172 (73 ∷ 73 ∷ 73 ∷ [])
    ∷ small 0x2173 73 86
    ∷ small 0x2174 86 0
    ∷ small 0x2175 86 73
    ∷ multi 0x2176 (86 ∷ 73 ∷ 73 ∷ [])
    ∷ multi 0x2177 (86 ∷ 73 ∷ 73 ∷ 73 ∷ [])
    ∷ small 0x2178 73 88
    ∷ small 0x2179 88 0
    ∷ small 0x217A 88 73
    ∷ multi 0x217B (88 ∷ 73 ∷ 73 ∷ [])
    ∷ small 0x217C 76 0
    ∷ small 0x217D 67 0
    ∷ small 0x217E 68 0
    ∷ small 0x217F 77 0
    ∷ small 0x2180 303 0
    ∷ multi 0x2181 (92 ∷ 228 ∷ 9 ∷ [])
    ∷ multi 0x2182 (8 ∷ 229 ∷ 92 ∷ 228 ∷ 9 ∷ [])
    ∷ small 0x2183 9 0
    ∷ small 0x2190 293 0
    ∷ small 0x2191 295 0
    ∷ small 0x2192 294 0
    ∷ small 0x2193 292 0
    ∷ small 0x2194 297 0
    ∷ small 0x2195 296 0
    ∷ small 0x21A8 340 0
    ∷ small 0x21B5 293 511
    ∷ small 0x21C5 295 292
    ∷ small 0x21C8 295 295
    ∷ small 0x21CA 292 292
    ∷ small 0x21CD 28 288
    ∷ multi 0x21CE (28 ∷ 288 ∷ 30 ∷ [])
    ∷ small 0x21CF 288 30
    ∷ small 0x21D0 28 29
    ∷ small 0x21D2 29 30
    ∷ multi 0x21D4 (28 ∷ 29 ∷ 30 ∷ [])
    ∷ small 0x21DA 28 287
    ∷ small 0x21DB 287 30
    ∷ small 0x21F5 292 295
    ∷ small 0x21FD 293 0
    ∷ small 0x21FE 294 0
    ∷ small 0x21FF 297 0
    ∷ small 0x2205 329 0
    ∷ small 0x2206 314 0
    ∷ small 0x2208 298 0
    ∷ small 0x220A 298 0
    ∷ small 0x220E 356 0
    ∷ small 0x2211 316 0
    ∷ small 0x2212 283 0
    ∷ small 0x2213 492 0
    ∷ small 0x2215 15 0
    ∷ small 0x2216 60 0
    ∷ small 0x2217 10 0
    ∷ small 0x2218 499 0
    ∷ small 0x2219 341 0
    ∷ small 0x221A 302 0
    ∷ small 0x221B 161 302
    ∷ small 0x221C 162 302
    ∷ small 0x221D 429 0
    ∷ small 0x221E 303 0
    ∷ small 0x221F 494 0
    ∷ small 0x2223 92 0
    ∷ small 0x2225 529 0
    ∷ small 0x2227 62 0
    ∷ small 0x2228 86 0
    ∷ small 0x2229 299 0
    ∷ small 0x222A 53 0
    ∷ small 0x222E 428 0
    ∷ multi 0x2234 (14 ∷ 102 ∷ 14 ∷ [])
    ∷ multi 0x2235 (102 ∷ 14 ∷ 102 ∷ [])
    ∷ small 0x2236 26 0
    ∷ small 0x2237 26 26
    ∷ small 0x2239 13 26
    ∷ small 0x223C 493 0
    ∷ small 0x223F 94 0
    ∷ small 0x2248 289 0
    ∷ small 0x2254 26 29
    ∷ small 0x2255 29 26
    ∷ small 0x2260 288 0
    ∷ small 0x2261 287 0
    ∷ small 0x2264 291 0
    ∷ small 0x2265 290 0
    ∷ small 0x226A 28 28
    ∷ small 0x226B 30 30
    ∷ small 0x226C 8 9
    ∷ multi 0x2295 (8 ∷ 11 ∷ 9 ∷ [])
    ∷ multi 0x2297 (8 ∷ 284 ∷ 9 ∷ [])
    ∷ multi 0x2299 (8 ∷ 102 ∷ 9 ∷ [])
    ∷ small 0x22A2 516 0
    ∷ small 0x22A3 517 0
    ∷ small 0x22A4 514 0
    ∷ small 0x22A5 515 0
    ∷ small 0x22A6 516 0
    ∷ small 0x22A7 530 0
    ∷ small 0x22A8 530 0
    ∷ small 0x22A9 536 0
    ∷ small 0x22AA 92 536
    ∷ small 0x22AB 92 530
    ∷ multi 0x22B9 (13 ∷ 277 ∷ 13 ∷ [])
    ∷ small 0x22BA 52 0
    ∷ small 0x22C2 299 0
    ∷ small 0x22C3 53 0
    ∷ small 0x22C5 102 0
    ∷ small 0x22D5 3 0
    ∷ multi 0x22D8 (28 ∷ 28 ∷ 28 ∷ [])
    ∷ multi 0x22D9 (30 ∷ 30 ∷ 30 ∷ [])
    ∷ multi 0x22EF (102 ∷ 102 ∷ 102 ∷ [])
    ∷ multi 0x22F0 (187 ∷ 102 ∷ 181 ∷ [])
    ∷ multi 0x22F1 (181 ∷ 102 ∷ 187 ∷ [])
    ∷ small 0x22FF 37 0
    ∷ small 0x2300 329 0
    ∷ small 0x2302 508 0
    ∷ small 0x2303 62 0
    ∷ small 0x2304 86 0
    ∷ small 0x2308 313 0
    ∷ small 0x230A 44 0
    ∷ small 0x2310 310 0
    ∷ small 0x2311 559 0
    ∷ []
