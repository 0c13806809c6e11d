-- ===== src/Encoding/Tables/Bics1.antt =====
-- src/en_bics.h: rows of the table from Unicode to the BICS font codes.
use highwire.Common.{List, [], ◌∷◌}
use highwire.Encoding.Row.{Row, small, multi}

unfoldable pub bics_1 : List Row
bics_1 =
    small 0x0100 477 0
    ∷ small 0x0101 476 0
    ∷ small 0x0102 374 0
    ∷ small 0x0103 373 0
    ∷ small 0x0104 171 0
    ∷ small 0x0105 177 0
    ∷ small 0x0106 376 0
    ∷ small 0x0107 375 0
    ∷ small 0x0108 35 72
    ∷ small 0x0109 67 72
    ∷ small 0x010C 378 0
    ∷ small 0x010D 377 0
    ∷ small 0x010E 478 0
    ∷ small 0x010F 379 0
    ∷ small 0x0110 169 0
    ∷ small 0x0111 173 0
    ∷ small 0x0112 383 0
    ∷ small 0x0113 382 0
    ∷ small 0x0118 172 0
    ∷ small 0x0119 178 0
    ∷ small 0x011A 243 0
    ∷ small 0x011B 244 0
    ∷ small 0x011C 39 72
    ∷ small 0x011D 71 72
    ∷ small 0x0122 385 0
    ∷ small 0x0123 384 0
    ∷ small 0x0124 40 72
    ∷ small 0x0125 72 72
    ∷ small 0x0128 233 0
    ∷ small 0x0129 234 0
    ∷ small 0x012A 387 0
    ∷ small 0x012B 386 0
    ∷ small 0x012E 391 0
    ∷ small 0x012F 390 0
    ∷ small 0x0130 389 0
    ∷ small 0x0131 122 0
    ∷ small 0x0132 276 0
    ∷ small 0x0133 275 0
    ∷ small 0x0134 42 72
    ∷ small 0x0135 74 72
    ∷ small 0x0136 393 0
    ∷ small 0x0137 392 0
    ∷ small 0x0139 395 0
    ∷ small 0x013A 394 0
    ∷ small 0x013B 399 0
    ∷ small 0x013C 398 0
    ∷ small 0x013D 175 0
    ∷ small 0x013E 232 0
    ∷ small 0x013F 451 0
    ∷ small 0x0140 452 0
    ∷ small 0x0141 170 0
    ∷ small 0x0142 174 0
    ∷ small 0x0143 194 0
    ∷ small 0x0144 193 0
    ∷ small 0x0145 402 0
    ∷ small 0x0146 401 0
    ∷ small 0x0147 198 0
    ∷ small 0x0148 197 0
    ∷ small 0x0149 263 0
    ∷ small 0x0150 404 0
    ∷ small 0x0151 403 0
    ∷ small 0x0152 116 0
    ∷ small 0x0153 120 0
    ∷ small 0x0154 50 0
    ∷ small 0x0155 82 0
    ∷ small 0x0156 408 0
    ∷ small 0x0157 407 0
    ∷ small 0x0158 406 0
    ∷ small 0x0159 405 0
    ∷ small 0x015A 410 0
    ∷ small 0x015B 409 0
    ∷ small 0x015C 51 72
    ∷ small 0x015D 83 72
    ∷ small 0x015E 486 0
    ∷ small 0x015F 485 0
    ∷ small 0x0160 412 0
    ∷ small 0x0161 411 0
    ∷ small 0x0164 364 0
    ∷ small 0x0165 363 0
    ∷ small 0x0168 218 0
    ∷ small 0x0169 217 0
    ∷ small 0x016A 421 0
    ∷ small 0x016B 420 0
    ∷ small 0x016D 420 0
    ∷ small 0x016E 220 0
    ∷ small 0x016F 219 0
    ∷ small 0x0170 423 0
    ∷ small 0x0171 422 0
    ∷ small 0x0173 268 0
    ∷ small 0x0174 425 0
    ∷ small 0x0175 424 0
    ∷ small 0x0176 366 0
    ∷ small 0x0177 365 0
    ∷ small 0x0178 222 0
    ∷ small 0x0179 368 0
    ∷ small 0x017A 367 0
    ∷ small 0x017B 372 0
    ∷ small 0x017C 371 0
    ∷ small 0x017D 370 0
    ∷ small 0x017E 369 0
    ∷ small 0x017F 300 0
    ∷ small 0x0189 169 0
    ∷ small 0x0192 99 0
    ∷ small 0x019E 323 0
    ∷ small 0x01A9 316 0
    ∷ small 0x01C0 92 0
    ∷ small 0x01C1 92 92
    ∷ small 0x01C3 1 0
    ∷ small 0x01C4 36 370
    ∷ small 0x01C5 36 369
    ∷ small 0x01C6 68 369
    ∷ small 0x01C7 44 42
    ∷ small 0x01C8 44 74
    ∷ small 0x01C9 76 74
    ∷ small 0x01CA 46 42
    ∷ small 0x01CB 46 74
    ∷ small 0x01CC 78 74
    ∷ small 0x01E6 480 0
    ∷ small 0x01E7 479 0
    ∷ small 0x01F1 36 58
    ∷ small 0x01F2 36 90
    ∷ small 0x01F3 68 90
    ∷ small 0x0218 415 0
    ∷ small 0x0219 414 0
    ∷ small 0x021A 419 0
    ∷ small 0x021B 418 0
    ∷ small 0x025B 502 0
    ∷ small 0x02A3 68 90
    ∷ small 0x02A6 84 83
    ∷ small 0x02AA 76 83
    ∷ small 0x02AB 76 90
    ∷ small 0x02B3 545 0
    ∷ small 0x02B9 337 0
    ∷ small 0x02BA 338 0
    ∷ small 0x02BB 103 0
    ∷ small 0x02BC 185 0
    ∷ small 0x02BE 228 0
    ∷ small 0x02BF 229 0
    ∷ small 0x02C2 28 0
    ∷ small 0x02C3 30 0
    ∷ small 0x02C4 62 0
    ∷ small 0x02C5 139 0
    ∷ small 0x02C6 133 0
    ∷ small 0x02C7 139 0
    ∷ small 0x02C8 264 0
    ∷ small 0x02C9 142 0
    ∷ small 0x02CA 129 0
    ∷ small 0x02CB 131 0
    ∷ small 0x02CD 186 0
    ∷ small 0x02D0 26 0
    ∷ small 0x02D1 102 0
    ∷ small 0x02D7 13 0
    ∷ small 0x02D8 144 0
    ∷ small 0x02D9 181 0
    ∷ small 0x02DA 146 0
    ∷ small 0x02DB 190 0
    ∷ small 0x02DC 137 0
    ∷ small 0x02DD 183 0
    ∷ small 0x02DF 284 0
    ∷ small 0x02E1 541 0
    ∷ small 0x02E2 546 0
    ∷ small 0x02EE 105 0
    ∷ small 0x034F 0 0
    ∷ small 0x0374 337 0
    ∷ small 0x037A 190 0
    ∷ small 0x037E 27 0
    ∷ small 0x0384 129 0
    ∷ multi 0x0385 (181 ∷ 129 ∷ 181 ∷ [])
    ∷ small 0x0386 129 33
    ∷ small 0x0387 102 0
    ∷ small 0x0388 129 37
    ∷ small 0x0389 129 40
    ∷ small 0x038A 129 41
    ∷ small 0x038C 129 47
    ∷ small 0x038E 129 57
    ∷ small 0x038F 129 318
    ∷ small 0x0391 33 0
    ∷ small 0x0392 34 0
    ∷ small 0x0393 313 0
    ∷ small 0x0394 314 0
    ∷ small 0x0395 37 0
    ∷ small 0x0396 58 0
    ∷ small 0x0397 40 0
    ∷ []
