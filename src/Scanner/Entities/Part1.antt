-- ===== src/Scanner/Entities/Part1.antt =====
-- src/scanner.c: the named characters, part 1 of two.
use highwire.Common.{ℕ, List, [], ◌∷◌}
use highwire.Common.Bytes.{Bytes, codes}

unfoldable pub named_1 : List (Bytes × ℕ)
named_1 =
    (codes "AElig", 198)
    ∷ (codes "Aacute", 193)
    ∷ (codes "Acirc", 194)
    ∷ (codes "Agrave", 192)
    ∷ (codes "Alpha", 913)
    ∷ (codes "Aring", 197)
    ∷ (codes "Atilde", 195)
    ∷ (codes "Auml", 196)
    ∷ (codes "Beta", 914)
    ∷ (codes "COPY", 169)
    ∷ (codes "Ccaron", 268)
    ∷ (codes "Ccedil", 199)
    ∷ (codes "Chi", 935)
    ∷ (codes "Dagger", 8225)
    ∷ (codes "Delta", 916)
    ∷ (codes "ETH", 208)
    ∷ (codes "Eacute", 201)
    ∷ (codes "Ecirc", 202)
    ∷ (codes "Egrave", 200)
    ∷ (codes "Epsilon", 917)
    ∷ (codes "Eta", 919)
    ∷ (codes "Euml", 203)
    ∷ (codes "Gamma", 915)
    ∷ (codes "Iacute", 205)
    ∷ (codes "Icirc", 206)
    ∷ (codes "Igrave", 204)
    ∷ (codes "Iota", 921)
    ∷ (codes "Iuml", 207)
    ∷ (codes "Kappa", 922)
    ∷ (codes "Lambda", 923)
    ∷ (codes "Mu", 924)
    ∷ (codes "Ntilde", 209)
    ∷ (codes "Nu", 925)
    ∷ (codes "OElig", 338)
    ∷ (codes "Oacute", 211)
    ∷ (codes "Ocirc", 212)
    ∷ (codes "Ograve", 210)
    ∷ (codes "Omega", 937)
    ∷ (codes "Omicron", 927)
    ∷ (codes "Oslash", 216)
    ∷ (codes "Otilde", 213)
    ∷ (codes "Ouml", 214)
    ∷ (codes "Phi", 934)
    ∷ (codes "Pi", 928)
    ∷ (codes "Prime", 8243)
    ∷ (codes "Psi", 936)
    ∷ (codes "Rho", 929)
    ∷ (codes "Scaron", 352)
    ∷ (codes "Sigma", 931)
    ∷ (codes "THORN", 222)
    ∷ (codes "Tau", 932)
    ∷ (codes "Theta", 920)
    ∷ (codes "Uacute", 218)
    ∷ (codes "Ucirc", 219)
    ∷ (codes "Ugrave", 217)
    ∷ (codes "Upsilon", 933)
    ∷ (codes "Uuml", 220)
    ∷ (codes "Xi", 926)
    ∷ (codes "Yacute", 221)
    ∷ (codes "Yuml", 376)
    ∷ (codes "Zcaron", 381)
    ∷ (codes "Zeta", 918)
    ∷ (codes "aacute", 225)
    ∷ (codes "acirc", 226)
    ∷ (codes "acute", 180)
    ∷ (codes "aelig", 230)
    ∷ (codes "agrave", 224)
    ∷ (codes "alefsym", 8501)
    ∷ (codes "alpha", 945)
    ∷ (codes "amp", 38)
    ∷ (codes "and", 8869)
    ∷ (codes "ang", 8736)
    ∷ (codes "apos", 39)
    ∷ (codes "aring", 229)
    ∷ (codes "asymp", 8776)
    ∷ (codes "atilde", 227)
    ∷ (codes "auml", 228)
    ∷ (codes "bdquo", 8222)
    ∷ (codes "beta", 946)
    ∷ (codes "brvbar", 166)
    ∷ (codes "bull", 8226)
    ∷ (codes "cap", 8745)
    ∷ (codes "ccaron", 269)
    ∷ (codes "ccedil", 231)
    ∷ (codes "cedil", 184)
    ∷ (codes "cent", 162)
    ∷ (codes "chi", 967)
    ∷ (codes "circ", 710)
    ∷ (codes "clubs", 9827)
    ∷ (codes "cong", 8773)
    ∷ (codes "copy", 169)
    ∷ (codes "crarr", 8629)
    ∷ (codes "cup", 8746)
    ∷ (codes "curren", 164)
    ∷ (codes "dArr", 8659)
    ∷ (codes "dagger", 8224)
    ∷ (codes "darr", 8595)
    ∷ (codes "deg", 176)
    ∷ (codes "delta", 948)
    ∷ (codes "diams", 9830)
    ∷ (codes "divide", 247)
    ∷ (codes "eacute", 233)
    ∷ (codes "ecirc", 234)
    ∷ (codes "egrave", 232)
    ∷ (codes "empty", 8709)
    ∷ (codes "emsp", 8195)
    ∷ (codes "ensp", 8194)
    ∷ (codes "epsilon", 949)
    ∷ (codes "equiv", 8801)
    ∷ (codes "eta", 951)
    ∷ (codes "eth", 240)
    ∷ (codes "euml", 235)
    ∷ (codes "euro", 8364)
    ∷ (codes "exist", 8707)
    ∷ (codes "fnof", 402)
    ∷ (codes "forall", 8704)
    ∷ (codes "frac12", 189)
    ∷ (codes "frac14", 188)
    ∷ (codes "frac34", 190)
    ∷ (codes "frasl", 8260)
    ∷ (codes "gamma", 947)
    ∷ (codes "ge", 8805)
    ∷ (codes "gt", 62)
    ∷ (codes "hArr", 8660)
    ∷ (codes "harr", 8596)
    ∷ (codes "hearts", 9829)
    ∷ (codes "hellip", 8230)
    ∷ (codes "iacute", 237)
    ∷ (codes "icirc", 238)
    ∷ []
