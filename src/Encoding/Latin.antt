-- ===== src/Encoding/Latin.antt =====
-- src/en_uni.h and en_bics.h: the tables from the 8-bit encodings, from their first code on.
use highwire.Common.{ℕ, List, [], ◌∷◌}

-- `Windows1252_to_Unicode`
unfoldable pub windows1252_to_unicode_tab : List ℕ
windows1252_to_unicode_tab =
    0x20AC ∷ 0xFFFD ∷ 0x201A ∷ 0x0192 ∷ 0x201E ∷ 0x2026 ∷ 0x2020 ∷ 0x2021 ∷ 0x02C6 ∷ 0x2030 ∷ 0x0160
    ∷ 0x2039 ∷ 0x0152 ∷ 0xFFFD ∷ 0x017D ∷ 0xFFFD ∷ 0xFFFD ∷ 0x2018 ∷ 0x2019 ∷ 0x201C ∷ 0x201D
    ∷ 0x2022 ∷ 0x2013 ∷ 0x2014 ∷ 0x02DC ∷ 0x2122 ∷ 0x0161 ∷ 0x203A ∷ 0x0153 ∷ 0xFFFD ∷ 0x017E
    ∷ 0x0178 ∷ []

-- `ISO8859_2_to_Unicode`
unfoldable pub iso8859_2_to_unicode_tab : List ℕ
iso8859_2_to_unicode_tab =
    0x00A0 ∷ 0x0104 ∷ 0x02D8 ∷ 0x0141 ∷ 0x00A4 ∷ 0x013D ∷ 0x015A ∷ 0x00A7 ∷ 0x00A8 ∷ 0x0160 ∷ 0x015E
    ∷ 0x0164 ∷ 0x0179 ∷ 0x00AD ∷ 0x017D ∷ 0x017B ∷ 0x00B0 ∷ 0x0105 ∷ 0x02DB ∷ 0x0142 ∷ 0x00B4
    ∷ 0x013E ∷ 0x015B ∷ 0x02C7 ∷ 0x00B8 ∷ 0x0161 ∷ 0x015F ∷ 0x0165 ∷ 0x017A ∷ 0x02DD ∷ 0x017E
    ∷ 0x017C ∷ 0x0154 ∷ 0x00C1 ∷ 0x00C2 ∷ 0x0102 ∷ 0x00C4 ∷ 0x0139 ∷ 0x0106 ∷ 0x00C7 ∷ 0x010C
    ∷ 0x00C9 ∷ 0x0118 ∷ 0x00CB ∷ 0x011A ∷ 0x00CD ∷ 0x00CE ∷ 0x010E ∷ 0x0110 ∷ 0x0143 ∷ 0x0147
    ∷ 0x00D3 ∷ 0x00D4 ∷ 0x0150 ∷ 0x00D6 ∷ 0x00D7 ∷ 0x0158 ∷ 0x016E ∷ 0x00DA ∷ 0x0170 ∷ 0x00DC
    ∷ 0x00DD ∷ 0x0162 ∷ 0x00DF ∷ 0x0155 ∷ 0x00E1 ∷ 0x00E2 ∷ 0x0103 ∷ 0x00E4 ∷ 0x013A ∷ 0x0107
    ∷ 0x00E7 ∷ 0x010D ∷ 0x00E9 ∷ 0x0119 ∷ 0x00EB ∷ 0x011B ∷ 0x00ED ∷ 0x00EE ∷ 0x010F ∷ 0x0111
    ∷ 0x0144 ∷ 0x0148 ∷ 0x00F3 ∷ 0x00F4 ∷ 0x0151 ∷ 0x00F6 ∷ 0x00F7 ∷ 0x0159 ∷ 0x016F ∷ 0x00FA
    ∷ 0x0171 ∷ 0x00FC ∷ 0x00FD ∷ 0x0163 ∷ 0x02D9 ∷ []

-- `Macintosh_to_Unicode`
unfoldable pub macintosh_to_unicode_tab : List ℕ
macintosh_to_unicode_tab =
    0x00C4 ∷ 0x00C5 ∷ 0x00C7 ∷ 0x00C9 ∷ 0x00D1 ∷ 0x00D6 ∷ 0x00DC ∷ 0x00E1 ∷ 0x00E0 ∷ 0x00E2 ∷ 0x00E4
    ∷ 0x00E3 ∷ 0x00E5 ∷ 0x00E7 ∷ 0x00E9 ∷ 0x00E8 ∷ 0x00EA ∷ 0x00EB ∷ 0x00ED ∷ 0x00EC ∷ 0x00EE
    ∷ 0x00EF ∷ 0x00F1 ∷ 0x00F3 ∷ 0x00F2 ∷ 0x00F4 ∷ 0x00F6 ∷ 0x00F5 ∷ 0x00FA ∷ 0x00F9 ∷ 0x00FB
    ∷ 0x00FC ∷ 0x2020 ∷ 0x00B0 ∷ 0x00A2 ∷ 0x00A3 ∷ 0x00A7 ∷ 0x2022 ∷ 0x00B6 ∷ 0x00DF ∷ 0x00AE
    ∷ 0x00A9 ∷ 0x2122 ∷ 0x00B4 ∷ 0x00A8 ∷ 0x2260 ∷ 0x00C6 ∷ 0x00D8 ∷ 0x221E ∷ 0x00B1 ∷ 0x2264
    ∷ 0x2265 ∷ 0x00A5 ∷ 0x00B5 ∷ 0x2202 ∷ 0x2211 ∷ 0x220F ∷ 0x03C0 ∷ 0x222B ∷ 0x00AA ∷ 0x00BA
    ∷ 0x03A9 ∷ 0x00E6 ∷ 0x00F8 ∷ 0x00BF ∷ 0x00A1 ∷ 0x00AC ∷ 0x221A ∷ 0x0192 ∷ 0x2248 ∷ 0x2206
    ∷ 0x00AB ∷ 0x00BB ∷ 0x2026 ∷ 0x00A0 ∷ 0x00C0 ∷ 0x00C3 ∷ 0x00D5 ∷ 0x0152 ∷ 0x0153 ∷ 0x2013
    ∷ 0x2014 ∷ 0x201C ∷ 0x201D ∷ 0x2018 ∷ 0x2019 ∷ 0x00F7 ∷ 0x25CA ∷ 0x00FF ∷ 0x0178 ∷ 0x2044
    ∷ 0x20AC ∷ 0x2039 ∷ 0x203A ∷ 0xFB01 ∷ 0xFB02 ∷ 0x2021 ∷ 0x00B7 ∷ 0x201A ∷ 0x201E ∷ 0x2030
    ∷ 0x00C2 ∷ 0x00CA ∷ 0x00C1 ∷ 0x00CB ∷ 0x00C8 ∷ 0x00CD ∷ 0x00CE ∷ 0x00CF ∷ 0x00CC ∷ 0x00D3
    ∷ 0x00D4 ∷ 0xF8FF ∷ 0x00D2 ∷ 0x00DA ∷ 0x00DB ∷ 0x00D9 ∷ 0x0131 ∷ 0x02C6 ∷ 0x02DC ∷ 0x00AF
    ∷ 0x02D8 ∷ 0x02D9 ∷ 0x02DA ∷ 0x00B8 ∷ 0x02DD ∷ 0x02DB ∷ 0x02C7 ∷ []

-- `Atari_to_Unicode`
unfoldable pub atari_to_unicode_tab : List ℕ
atari_to_unicode_tab =
    0x0394 ∷ 0x00C7 ∷ 0x00FC ∷ 0x00E9 ∷ 0x00E2 ∷ 0x00E4 ∷ 0x00E0 ∷ 0x00E5 ∷ 0x00E7 ∷ 0x00EA ∷ 0x00EB
    ∷ 0x00E8 ∷ 0x00EF ∷ 0x00EE ∷ 0x00EC ∷ 0x00C4 ∷ 0x00C5 ∷ 0x00C9 ∷ 0x00E6 ∷ 0x00C6 ∷ 0x00F4
    ∷ 0x00F6 ∷ 0x00F2 ∷ 0x00FB ∷ 0x00F9 ∷ 0x00FF ∷ 0x00D6 ∷ 0x00DC ∷ 0x00A2 ∷ 0x00A3 ∷ 0x00A5
    ∷ 0x00DF ∷ 0x0192 ∷ 0x00E1 ∷ 0x00ED ∷ 0x00F3 ∷ 0x00FA ∷ 0x00F1 ∷ 0x00D1 ∷ 0x00AA ∷ 0x00BA
    ∷ 0x00BF ∷ 0x2310 ∷ 0x00AC ∷ 0x00BD ∷ 0x00BC ∷ 0x00A1 ∷ 0x00AB ∷ 0x00BB ∷ 0x00C3 ∷ 0x00F5
    ∷ 0x00D8 ∷ 0x00F8 ∷ 0x0153 ∷ 0x0152 ∷ 0x00C0 ∷ 0x00C3 ∷ 0x00D5 ∷ 0x00A8 ∷ 0x00B4 ∷ 0x2020
    ∷ 0x00B6 ∷ 0x00A9 ∷ 0x00AE ∷ 0x2122 ∷ 0x0133 ∷ 0x0132 ∷ 0x05D0 ∷ 0x05D1 ∷ 0x05D2 ∷ 0x05D3
    ∷ 0x05D4 ∷ 0x05D5 ∷ 0x05D6 ∷ 0x05D7 ∷ 0x05D8 ∷ 0x05D9 ∷ 0x05DB ∷ 0x05DC ∷ 0x05DE ∷ 0x05E0
    ∷ 0x05E1 ∷ 0x05E2 ∷ 0x05E4 ∷ 0x05E6 ∷ 0x05E7 ∷ 0x05E8 ∷ 0x05E9 ∷ 0x05EA ∷ 0x05DF ∷ 0x05DA
    ∷ 0x05DD ∷ 0x05E3 ∷ 0x05E5 ∷ 0x00A7 ∷ 0x2038 ∷ 0x221E ∷ 0x03B1 ∷ 0x03B2 ∷ 0x0393 ∷ 0x03C0
    ∷ 0x03A3 ∷ 0x03C3 ∷ 0x00B5 ∷ 0x03C4 ∷ 0x03A6 ∷ 0x0398 ∷ 0x03A9 ∷ 0x03B4 ∷ 0x222E ∷ 0x03C6
    ∷ 0x2208 ∷ 0x2229 ∷ 0x2261 ∷ 0x00B1 ∷ 0x2265 ∷ 0x2264 ∷ 0x2320 ∷ 0x2321 ∷ 0x00F7 ∷ 0x2248
    ∷ 0x00B0 ∷ 0x2022 ∷ 0x00B7 ∷ 0x221A ∷ 0x207F ∷ 0x00B2 ∷ 0x00B3 ∷ 0x00AF ∷ []

-- `Windows1252_to_BICS`
unfoldable pub windows1252_to_bics_tab : List ℕ
windows1252_to_bics_tab =
    298 ∷ 563 ∷ 106 ∷ 99 ∷ 107 ∷ 270 ∷ 108 ∷ 109 ∷ 133 ∷ 100 ∷ 412 ∷ 123 ∷ 116 ∷ 563 ∷ 370 ∷ 563
    ∷ 563 ∷ 103 ∷ 7 ∷ 104 ∷ 105 ∷ 342 ∷ 111 ∷ 112 ∷ 137 ∷ 334 ∷ 411 ∷ 124 ∷ 120 ∷ 563 ∷ 369 ∷ 222
    ∷ 560 ∷ 128 ∷ 98 ∷ 97 ∷ 278 ∷ 274 ∷ 277 ∷ 110 ∷ 135 ∷ 332 ∷ 538 ∷ 125 ∷ 309 ∷ 13 ∷ 333 ∷ 230
    ∷ 499 ∷ 286 ∷ 160 ∷ 161 ∷ 231 ∷ 325 ∷ 279 ∷ 102 ∷ 141 ∷ 159 ∷ 544 ∷ 126 ∷ 151 ∷ 153 ∷ 155 ∷ 127
    ∷ 259 ∷ 261 ∷ 257 ∷ 253 ∷ 255 ∷ 113 ∷ 114 ∷ 148 ∷ 249 ∷ 251 ∷ 247 ∷ 245 ∷ 239 ∷ 241 ∷ 237 ∷ 235
    ∷ 169 ∷ 196 ∷ 202 ∷ 200 ∷ 204 ∷ 208 ∷ 206 ∷ 284 ∷ 115 ∷ 212 ∷ 210 ∷ 214 ∷ 216 ∷ 224 ∷ 272 ∷ 121
    ∷ 260 ∷ 262 ∷ 258 ∷ 254 ∷ 256 ∷ 117 ∷ 118 ∷ 149 ∷ 250 ∷ 252 ∷ 248 ∷ 246 ∷ 240 ∷ 242 ∷ 238 ∷ 236
    ∷ 273 ∷ 195 ∷ 201 ∷ 199 ∷ 203 ∷ 207 ∷ 205 ∷ 285 ∷ 119 ∷ 211 ∷ 209 ∷ 213 ∷ 215 ∷ 223 ∷ 271 ∷ 221
    ∷ []

-- `ISO8859_2_to_BICS`
unfoldable pub iso8859_2_to_bics_tab : List ℕ
iso8859_2_to_bics_tab =
    560 ∷ 171 ∷ 144 ∷ 170 ∷ 278 ∷ 175 ∷ 410 ∷ 110 ∷ 135 ∷ 412 ∷ 415 ∷ 364 ∷ 368 ∷ 13 ∷ 370 ∷ 372
    ∷ 339 ∷ 177 ∷ 247 ∷ 174 ∷ 129 ∷ 232 ∷ 409 ∷ 139 ∷ 141 ∷ 411 ∷ 414 ∷ 416 ∷ 367 ∷ 183 ∷ 369 ∷ 371
    ∷ 50 ∷ 261 ∷ 257 ∷ 374 ∷ 255 ∷ 395 ∷ 376 ∷ 148 ∷ 378 ∷ 251 ∷ 172 ∷ 245 ∷ 243 ∷ 241 ∷ 237 ∷ 478
    ∷ 169 ∷ 194 ∷ 198 ∷ 200 ∷ 204 ∷ 404 ∷ 206 ∷ 284 ∷ 406 ∷ 220 ∷ 210 ∷ 423 ∷ 216 ∷ 224 ∷ 419 ∷ 121
    ∷ 82 ∷ 262 ∷ 258 ∷ 373 ∷ 256 ∷ 394 ∷ 375 ∷ 149 ∷ 377 ∷ 252 ∷ 178 ∷ 246 ∷ 244 ∷ 242 ∷ 238 ∷ 379
    ∷ 173 ∷ 193 ∷ 197 ∷ 199 ∷ 203 ∷ 403 ∷ 205 ∷ 285 ∷ 405 ∷ 219 ∷ 209 ∷ 422 ∷ 215 ∷ 223 ∷ 418 ∷ 181
    ∷ []

-- `Atari_to_BICS`
unfoldable pub atari_to_bics_tab : List ℕ
atari_to_bics_tab =
    314 ∷ 148 ∷ 215 ∷ 252 ∷ 258 ∷ 256 ∷ 260 ∷ 117 ∷ 149 ∷ 248 ∷ 246 ∷ 250 ∷ 236 ∷ 238 ∷ 240 ∷ 255
    ∷ 113 ∷ 251 ∷ 118 ∷ 114 ∷ 203 ∷ 205 ∷ 201 ∷ 213 ∷ 211 ∷ 221 ∷ 206 ∷ 216 ∷ 98 ∷ 97 ∷ 274 ∷ 121
    ∷ 99 ∷ 262 ∷ 242 ∷ 199 ∷ 209 ∷ 195 ∷ 196 ∷ 538 ∷ 544 ∷ 127 ∷ 310 ∷ 309 ∷ 153 ∷ 151 ∷ 128 ∷ 125
    ∷ 126 ∷ 254 ∷ 207 ∷ 115 ∷ 119 ∷ 120 ∷ 116 ∷ 259 ∷ 253 ∷ 208 ∷ 135 ∷ 129 ∷ 108 ∷ 279 ∷ 332 ∷ 333
    ∷ 334 ∷ 275 ∷ 276 ∷ 559 ∷ 559 ∷ 559 ∷ 559 ∷ 559 ∷ 559 ∷ 559 ∷ 559 ∷ 559 ∷ 559 ∷ 559 ∷ 559 ∷ 559
    ∷ 559 ∷ 559 ∷ 559 ∷ 559 ∷ 559 ∷ 559 ∷ 559 ∷ 559 ∷ 559 ∷ 559 ∷ 559 ∷ 559 ∷ 559 ∷ 559 ∷ 110 ∷ 62
    ∷ 303 ∷ 319 ∷ 320 ∷ 313 ∷ 326 ∷ 316 ∷ 327 ∷ 325 ∷ 328 ∷ 317 ∷ 324 ∷ 318 ∷ 321 ∷ 428 ∷ 329 ∷ 298
    ∷ 299 ∷ 287 ∷ 286 ∷ 290 ∷ 291 ∷ 300 ∷ 301 ∷ 285 ∷ 289 ∷ 339 ∷ 342 ∷ 102 ∷ 302 ∷ 543 ∷ 160 ∷ 161
    ∷ 230 ∷ []
