-- ===== src/Scanner/Entities/Part2.antt =====
-- src/scanner.c: the named characters, part 2 of two.
use highwire.Common.{ℕ, List, [], ◌∷◌}
use highwire.Common.Bytes.{Bytes, codes}

unfoldable pub named_2 : List (Bytes × ℕ)
named_2 =
    (codes "iexcl", 161)
    ∷ (codes "igrave", 236)
    ∷ (codes "image", 8465)
    ∷ (codes "infin", 8734)
    ∷ (codes "int", 8747)
    ∷ (codes "iota", 953)
    ∷ (codes "iquest", 191)
    ∷ (codes "isin", 8712)
    ∷ (codes "iuml", 239)
    ∷ (codes "kappa", 954)
    ∷ (codes "lArr", 8656)
    ∷ (codes "lambda", 955)
    ∷ (codes "lang", 9001)
    ∷ (codes "laquo", 171)
    ∷ (codes "larr", 8592)
    ∷ (codes "lceil", 8968)
    ∷ (codes "ldquo", 8220)
    ∷ (codes "le", 8804)
    ∷ (codes "lfloor", 8970)
    ∷ (codes "lowast", 8727)
    ∷ (codes "loz", 9674)
    ∷ (codes "lrm", 8206)
    ∷ (codes "lsaquo", 8249)
    ∷ (codes "lsquo", 8216)
    ∷ (codes "lt", 60)
    ∷ (codes "macr", 175)
    ∷ (codes "mdash", 8212)
    ∷ (codes "micro", 181)
    ∷ (codes "middot", 183)
    ∷ (codes "minus", 8722)
    ∷ (codes "mu", 956)
    ∷ (codes "nabla", 8711)
    ∷ (codes "nbsp", 160)
    ∷ (codes "ndash", 8211)
    ∷ (codes "ne", 8800)
    ∷ (codes "ni", 8715)
    ∷ (codes "not", 172)
    ∷ (codes "notin", 8713)
    ∷ (codes "nsub", 8836)
    ∷ (codes "ntilde", 241)
    ∷ (codes "nu", 957)
    ∷ (codes "oacute", 243)
    ∷ (codes "ocirc", 244)
    ∷ (codes "oelig", 339)
    ∷ (codes "ograve", 242)
    ∷ (codes "oline", 8254)
    ∷ (codes "omega", 969)
    ∷ (codes "omicron", 959)
    ∷ (codes "oplus", 8853)
    ∷ (codes "or", 8870)
    ∷ (codes "ordf", 170)
    ∷ (codes "ordm", 186)
    ∷ (codes "oslash", 248)
    ∷ (codes "otilde", 245)
    ∷ (codes "otimes", 8855)
    ∷ (codes "ouml", 246)
    ∷ (codes "para", 182)
    ∷ (codes "part", 8706)
    ∷ (codes "permil", 8240)
    ∷ (codes "perp", 8869)
    ∷ (codes "phi", 966)
    ∷ (codes "pi", 960)
    ∷ (codes "piv", 982)
    ∷ (codes "plusmn", 177)
    ∷ (codes "pound", 163)
    ∷ (codes "prime", 8242)
    ∷ (codes "prod", 8719)
    ∷ (codes "prop", 8733)
    ∷ (codes "psi", 968)
    ∷ (codes "quot", 34)
    ∷ (codes "rArr", 8658)
    ∷ (codes "radic", 8730)
    ∷ (codes "rang", 9002)
    ∷ (codes "raquo", 187)
    ∷ (codes "rarr", 8594)
    ∷ (codes "rceil", 8969)
    ∷ (codes "rdquo", 8221)
    ∷ (codes "real", 8476)
    ∷ (codes "reg", 174)
    ∷ (codes "rfloor", 8971)
    ∷ (codes "rho", 961)
    ∷ (codes "rlm", 8207)
    ∷ (codes "rsaquo", 8250)
    ∷ (codes "rsquo", 8217)
    ∷ (codes "sbquo", 8218)
    ∷ (codes "scaron", 353)
    ∷ (codes "sdot", 8901)
    ∷ (codes "sect", 167)
    ∷ (codes "shy", 173)
    ∷ (codes "sigma", 963)
    ∷ (codes "sigmaf", 962)
    ∷ (codes "sim", 8764)
    ∷ (codes "spades", 9824)
    ∷ (codes "sub", 8834)
    ∷ (codes "sube", 8838)
    ∷ (codes "sum", 8721)
    ∷ (codes "sup", 8835)
    ∷ (codes "sup1", 185)
    ∷ (codes "sup2", 178)
    ∷ (codes "sup3", 179)
    ∷ (codes "supe", 8839)
    ∷ (codes "szlig", 223)
    ∷ (codes "tau", 964)
    ∷ (codes "there4", 8756)
    ∷ (codes "theta", 952)
    ∷ (codes "thetasym", 977)
    ∷ (codes "thinsp", 8201)
    ∷ (codes "thorn", 254)
    ∷ (codes "tilde", 8764)
    ∷ (codes "times", 215)
    ∷ (codes "trade", 8482)
    ∷ (codes "uArr", 8657)
    ∷ (codes "uacute", 250)
    ∷ (codes "uarr", 8593)
    ∷ (codes "ucirc", 251)
    ∷ (codes "ugrave", 249)
    ∷ (codes "uml", 168)
    ∷ (codes "upsih", 978)
    ∷ (codes "upsilon", 965)
    ∷ (codes "uuml", 252)
    ∷ (codes "weierp", 8472)
    ∷ (codes "xi", 958)
    ∷ (codes "yacute", 253)
    ∷ (codes "yen", 165)
    ∷ (codes "yuml", 255)
    ∷ (codes "zcaron", 382)
    ∷ (codes "zeta", 950)
    ∷ (codes "zwj", 8205)
    ∷ (codes "zwnj", 8204)
    ∷ []
