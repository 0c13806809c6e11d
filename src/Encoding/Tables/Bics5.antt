-- ===== src/Encoding/Tables/Bics5.antt =====
-- src/en_bics.h: rows of the table from Unicode to the BICS font codes.
use highwire.Common.{List, [], ◌∷◌}
use highwire.Encoding.Row.{Row, small, multi}

unfoldable pub bics_5 : List Row
bics_5 =
    small 0x2666 353 0
    ∷ small 0x266A 330 0
    ∷ small 0x266C 331 0
    ∷ small 0x2670 108 0
    ∷ small 0x2671 108 0
    ∷ multi 0x2680 (59 ∷ 102 ∷ 61 ∷ [])
    ∷ multi 0x2681 (59 ∷ 102 ∷ 102 ∷ 61 ∷ [])
    ∷ multi 0x2682 (59 ∷ 102 ∷ 102 ∷ 102 ∷ 61 ∷ [])
    ∷ multi 0x2683 (59 ∷ 26 ∷ 26 ∷ 61 ∷ [])
    ∷ multi 0x2684 (59 ∷ 26 ∷ 102 ∷ 26 ∷ 61 ∷ [])
    ∷ multi 0x2685 (59 ∷ 26 ∷ 26 ∷ 26 ∷ 61 ∷ [])
    ∷ small 0x2713 302 0
    ∷ small 0x2714 302 0
    ∷ small 0x2715 284 0
    ∷ small 0x2716 284 0
    ∷ small 0x2717 56 0
    ∷ small 0x2718 56 0
    ∷ small 0x271D 108 0
    ∷ small 0x271E 108 0
    ∷ small 0x271F 108 0
    ∷ small 0x274D 505 0
    ∷ small 0x274F 336 0
    ∷ small 0x2750 336 0
    ∷ small 0x2751 336 0
    ∷ small 0x2752 336 0
    ∷ small 0x2758 496 0
    ∷ small 0x2759 496 0
    ∷ small 0x275A 496 0
    ∷ small 0x275B 103 0
    ∷ small 0x275C 7 0
    ∷ small 0x275D 104 0
    ∷ small 0x275E 105 0
    ∷ small 0x2761 279 0
    ∷ small 0x2762 1 0
    ∷ small 0x2763 1 0
    ∷ small 0x2764 351 0
    ∷ small 0x2768 8 0
    ∷ small 0x2769 9 0
    ∷ small 0x276A 8 0
    ∷ small 0x276B 9 0
    ∷ small 0x276C 28 0
    ∷ small 0x276D 30 0
    ∷ small 0x276E 123 0
    ∷ small 0x276F 124 0
    ∷ small 0x2770 28 0
    ∷ small 0x2771 30 0
    ∷ small 0x2772 59 0
    ∷ small 0x2773 61 0
    ∷ small 0x2774 91 0
    ∷ small 0x2775 93 0
    ∷ small 0x2794 294 0
    ∷ small 0x2799 294 0
    ∷ small 0x279B 294 0
    ∷ small 0x279C 294 0
    ∷ small 0x279D 294 0
    ∷ small 0x279E 294 0
    ∷ small 0x279F 294 0
    ∷ small 0x27A0 294 0
    ∷ small 0x27A1 294 0
    ∷ small 0x27A2 294 0
    ∷ small 0x27A3 294 0
    ∷ small 0x27A4 294 0
    ∷ small 0x27A7 294 0
    ∷ small 0x27A8 294 0
    ∷ small 0x27A9 294 0
    ∷ small 0x27AA 294 0
    ∷ small 0x27AB 294 0
    ∷ small 0x27AC 294 0
    ∷ small 0x27AD 294 0
    ∷ small 0x27AE 294 0
    ∷ small 0x27AF 294 0
    ∷ small 0x27B1 294 0
    ∷ small 0x27B2 294 0
    ∷ small 0x27B3 294 0
    ∷ small 0x27B5 294 0
    ∷ small 0x27B8 294 0
    ∷ small 0x27BA 294 0
    ∷ small 0x27BB 294 0
    ∷ small 0x27BC 294 0
    ∷ small 0x27BD 294 0
    ∷ small 0x27BE 294 0
    ∷ small 0x27D8 515 0
    ∷ small 0x27D9 514 0
    ∷ small 0x27E8 28 0
    ∷ small 0x27E9 30 0
    ∷ small 0x27EA 28 28
    ∷ small 0x27EB 30 30
    ∷ multi 0x2980 (92 ∷ 92 ∷ 92 ∷ [])
    ∷ small 0x2981 342 0
    ∷ small 0x2991 28 102
    ∷ small 0x2992 102 30
    ∷ small 0x29E3 3 0
    ∷ small 0x29E7 288 0
    ∷ small 0x29EB 353 0
    ∷ small 0x29F4 26 294
    ∷ small 0x29F5 60 0
    ∷ small 0x29F8 431 0
    ∷ small 0x29F9 558 0
    ∷ small 0x29FE 11 0
    ∷ small 0x29FF 283 0
    ∷ small 0x2A09 284 0
    ∷ small 0x2A0D 99 0
    ∷ small 0x2A20 30 30
    ∷ small 0x2A2F 284 0
    ∷ small 0x2A3C 511 0
    ∷ small 0x2A3D 501 0
    ∷ multi 0x2A74 (26 ∷ 26 ∷ 29 ∷ [])
    ∷ small 0x2A75 29 29
    ∷ multi 0x2A76 (29 ∷ 29 ∷ 29 ∷ [])
    ∷ small 0x2AA5 30 28
    ∷ small 0x2AD0 36 0
    ∷ small 0x2ADE 517 0
    ∷ small 0x2ADF 514 0
    ∷ small 0x2AE0 515 0
    ∷ small 0x2AE3 537 0
    ∷ small 0x2AE4 531 0
    ∷ small 0x2AE5 531 92
    ∷ small 0x2AE7 549 0
    ∷ small 0x2AE8 548 0
    ∷ small 0x2AEA 533 0
    ∷ small 0x2AEB 532 0
    ∷ small 0x2AEC 551 0
    ∷ small 0x2AED 557 0
    ∷ multi 0x2AF4 (92 ∷ 92 ∷ 92 ∷ [])
    ∷ multi 0x2AFB (15 ∷ 15 ∷ 15 ∷ [])
    ∷ multi 0x2AFC (92 ∷ 92 ∷ 92 ∷ [])
    ∷ small 0x2AFD 15 15
    ∷ small 0x3000 562 0
    ∷ small 0x301D 2 0
    ∷ small 0x301E 338 0
    ∷ small 0x301F 338 0
    ∷ small 0x31D0 226 0
    ∷ small 0x31D3 225 0
    ∷ small 0x31D4 227 0
    ∷ small 0xE100 59 191
    ∷ small 0xE101 61 192
    ∷ small 0xE102 65 139
    ∷ small 0xE103 65 140
    ∷ small 0xE104 65 442
    ∷ small 0xE105 65 443
    ∷ small 0xE106 69 185
    ∷ small 0xE107 69 188
    ∷ small 0xE108 69 189
    ∷ small 0xE109 69 269
    ∷ small 0xE10A 69 457
    ∷ small 0xE10B 69 458
    ∷ small 0xE10C 69 459
    ∷ small 0xE10D 69 462
    ∷ small 0xE10E 69 463
    ∷ small 0xE10F 69 488
    ∷ small 0xE110 69 489
    ∷ small 0xE111 69 490
    ∷ small 0xF8E8 504 0
    ∷ small 0xF8E9 503 0
    ∷ small 0xF8F0 176 0
    ∷ small 0xFB00 282 0
    ∷ small 0xFB01 95 0
    ∷ small 0xFB02 96 0
    ∷ small 0xFB03 281 0
    ∷ small 0xFB04 280 0
    ∷ small 0xFB05 300 84
    ∷ small 0xFB06 83 84
    ∷ small 0xFB29 515 0
    ∷ small 0xFD3E 8 0
    ∷ small 0xFD3F 9 0
    ∷ small 0xFE00 0 0
    ∷ small 0xFE01 0 0
    ∷ small 0xFE02 0 0
    ∷ small 0xFE03 0 0
    ∷ small 0xFE04 0 0
    ∷ small 0xFE05 0 0
    ∷ small 0xFE06 0 0
    ∷ small 0xFE07 0 0
    ∷ small 0xFE08 0 0
    ∷ small 0xFE09 0 0
    ∷ small 0xFE0A 0 0
    ∷ small 0xFE0B 0 0
    ∷ small 0xFE0C 0 0
    ∷ small 0xFE0D 0 0
    ∷ small 0xFE0E 0 0
    ∷ small 0xFE0F 0 0
    ∷ small 0xFEFF 0 0
    ∷ small 0xFFFD 563 0
    ∷ []
