-- ===== src/Encoding/Tables/Atari1.antt =====
-- src/en_atari.h: rows of the table from Unicode to the Atari system font.
use highwire.Common.{List, [], ◌∷◌}
use highwire.Encoding.Row.{Row, small, multi}

unfoldable pub atari_1 : List Row
atari_1 =
    small 0x0080 238 0
    ∷ small 0x0082 39 0
    ∷ small 0x0083 159 0
    ∷ small 0x0084 34 0
    ∷ multi 0x0085 (46 ∷ 46 ∷ 46 ∷ [])
    ∷ small 0x0086 187 0
    ∷ small 0x0087 187 0
    ∷ small 0x0088 94 0
    ∷ multi 0x0089 (248 ∷ 47 ∷ 111 ∷ 111 ∷ [])
    ∷ small 0x008A 83 0
    ∷ small 0x008B 60 0
    ∷ small 0x008C 181 0
    ∷ small 0x008E 90 0
    ∷ small 0x0091 39 0
    ∷ small 0x0092 39 0
    ∷ small 0x0093 34 0
    ∷ small 0x0094 34 0
    ∷ small 0x0095 249 0
    ∷ small 0x0096 45 0
    ∷ small 0x0097 45 45
    ∷ small 0x0098 126 0
    ∷ small 0x0099 191 0
    ∷ small 0x009A 115 0
    ∷ small 0x009B 62 0
    ∷ small 0x009C 180 0
    ∷ small 0x009E 122 0
    ∷ small 0x009F 89 0
    ∷ small 0x00A0 288 0
    ∷ small 0x00A1 173 0
    ∷ small 0x00A2 155 0
    ∷ small 0x00A3 156 0
    ∷ small 0x00A5 157 0
    ∷ small 0x00A6 17 0
    ∷ small 0x00A7 221 0
    ∷ small 0x00A8 185 0
    ∷ small 0x00A9 189 0
    ∷ small 0x00AA 166 0
    ∷ small 0x00AB 174 0
    ∷ small 0x00AC 170 0
    ∷ small 0x00AD 45 0
    ∷ small 0x00AE 190 0
    ∷ small 0x00AF 255 0
    ∷ small 0x00B0 248 0
    ∷ small 0x00B1 241 0
    ∷ small 0x00B2 253 0
    ∷ small 0x00B3 254 0
    ∷ small 0x00B4 186 0
    ∷ small 0x00B5 230 0
    ∷ small 0x00B6 188 0
    ∷ small 0x00B7 250 0
    ∷ small 0x00B9 39 0
    ∷ small 0x00BA 167 0
    ∷ small 0x00BB 175 0
    ∷ small 0x00BC 172 0
    ∷ small 0x00BD 171 0
    ∷ multi 0x00BE (32 ∷ 51 ∷ 47 ∷ 52 ∷ [])
    ∷ small 0x00BF 168 0
    ∷ small 0x00C0 182 0
    ∷ small 0x00C1 65 0
    ∷ small 0x00C2 65 0
    ∷ small 0x00C3 183 0
    ∷ small 0x00C4 142 0
    ∷ small 0x00C5 143 0
    ∷ small 0x00C6 146 0
    ∷ small 0x00C7 128 0
    ∷ small 0x00C8 69 0
    ∷ small 0x00C9 144 0
    ∷ small 0x00CA 69 0
    ∷ small 0x00CB 69 0
    ∷ small 0x00CC 73 0
    ∷ small 0x00CD 73 0
    ∷ small 0x00CE 73 0
    ∷ small 0x00CF 73 0
    ∷ small 0x00D0 68 0
    ∷ small 0x00D1 165 0
    ∷ small 0x00D2 79 0
    ∷ small 0x00D3 79 0
    ∷ small 0x00D4 79 0
    ∷ small 0x00D5 184 0
    ∷ small 0x00D6 153 0
    ∷ small 0x00D7 120 0
    ∷ small 0x00D8 178 0
    ∷ small 0x00D9 85 0
    ∷ small 0x00DA 85 0
    ∷ small 0x00DB 85 0
    ∷ small 0x00DC 154 0
    ∷ small 0x00DD 89 0
    ∷ small 0x00DF 158 0
    ∷ small 0x00E0 133 0
    ∷ small 0x00E1 160 0
    ∷ small 0x00E2 131 0
    ∷ small 0x00E3 176 0
    ∷ small 0x00E4 132 0
    ∷ small 0x00E5 134 0
    ∷ small 0x00E6 145 0
    ∷ small 0x00E7 135 0
    ∷ small 0x00E8 138 0
    ∷ small 0x00E9 130 0
    ∷ small 0x00EA 136 0
    ∷ small 0x00EB 137 0
    ∷ small 0x00EC 141 0
    ∷ small 0x00ED 161 0
    ∷ small 0x00EE 140 0
    ∷ small 0x00EF 139 0
    ∷ small 0x00F0 235 0
    ∷ small 0x00F1 164 0
    ∷ small 0x00F2 149 0
    ∷ small 0x00F3 162 0
    ∷ small 0x00F4 147 0
    ∷ small 0x00F5 177 0
    ∷ small 0x00F6 148 0
    ∷ small 0x00F7 246 0
    ∷ small 0x00F8 179 0
    ∷ small 0x00F9 151 0
    ∷ small 0x00FA 163 0
    ∷ small 0x00FB 150 0
    ∷ small 0x00FC 129 0
    ∷ small 0x00FD 121 0
    ∷ small 0x00FF 152 0
    ∷ small 0x0108 67 104
    ∷ small 0x0109 99 104
    ∷ small 0x010C 67 0
    ∷ small 0x010D 99 0
    ∷ small 0x010F 100 39
    ∷ small 0x011C 71 104
    ∷ small 0x011D 103 104
    ∷ small 0x0124 72 104
    ∷ small 0x0125 104 104
    ∷ small 0x0132 193 0
    ∷ small 0x0133 192 0
    ∷ small 0x0134 74 104
    ∷ small 0x0135 106 104
    ∷ small 0x013E 108 39
    ∷ small 0x013F 76 250
    ∷ small 0x0140 108 250
    ∷ small 0x0149 39 110
    ∷ small 0x0152 181 0
    ∷ small 0x0153 180 0
    ∷ small 0x015C 83 104
    ∷ small 0x015D 115 104
    ∷ small 0x0160 83 0
    ∷ small 0x0161 115 0
    ∷ small 0x016D 117 0
    ∷ small 0x0178 89 0
    ∷ small 0x017D 90 0
    ∷ small 0x017E 122 0
    ∷ small 0x017F 244 0
    ∷ small 0x01C0 124 0
    ∷ small 0x01C1 124 124
    ∷ small 0x01C3 33 0
    ∷ small 0x01C7 76 74
    ∷ small 0x01C8 76 106
    ∷ small 0x01C9 108 106
    ∷ small 0x01CA 78 74
    ∷ small 0x01CB 78 106
    ∷ small 0x01CC 110 106
    ∷ small 0x01DD 26 0
    ∷ small 0x0259 26 0
    ∷ small 0x02A3 100 122
    ∷ small 0x02A6 116 115
    ∷ small 0x02AA 108 115
    ∷ []
