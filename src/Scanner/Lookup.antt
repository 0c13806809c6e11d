-- ===== src/Scanner/Lookup.antt =====
-- The tables are in order, and the binary search finds in them what a walk finds.
use highwire.Common.{ℕ, ◌<◌, true, none, some, List, [], ◌∷◌, ◌≡◌, refl, ◌∙◌, sym, arith, length}
use highwire.Common.Bytes.{Bytes, strcmp}
use highwire.Common.Search.Order.{IsOrder, word_order, word_order-eq-strcmp, strcmp-IsOrder}
use highwire.Common.Search.Table.{ascending, find, search_table-eq-find}
use highwire.Scanner.{symbol, css_symbol, css_value}
use highwire.Scanner.Tags.{tag_table}
use highwire.Scanner.Keys.{key_table}
use highwire.Scanner.Css.{css_table, css_unknown}

pub word_order-IsOrder : IsOrder word_order
word_order-IsOrder = record {
  same = λ a. word_order-eq-strcmp a a ∙ strcmp-IsOrder.same a;
  equal = λ a b h. strcmp-IsOrder.equal a b (sym (word_order-eq-strcmp a b) ∙ h);
  flip = λ a b h.
      word_order-eq-strcmp b a ∙ strcmp-IsOrder.flip a b (sym (word_order-eq-strcmp a b) ∙ h);
  chain = λ a b c h k.
      word_order-eq-strcmp a c
      ∙ strcmp-IsOrder.chain a b c (sym (word_order-eq-strcmp a b) ∙ h)
          (sym (word_order-eq-strcmp b c) ∙ k);
}

-- a walk over the table with `strcmp`
unfoldable pub lookup_symbol : List (Bytes × ℕ) → ℕ → Bytes → ℕ
lookup_symbol tab unknown word = elim (find strcmp word tab) [ none ↦ unknown | some key ↦ key ]

pub find-word_order :
    {V : Type 0} (word : Bytes) (tab : List (Bytes × V))
    → find word_order word tab ≡ find strcmp word tab
unfolding find
find-word_order word [] = refl
find-word_order word (e ∷ tab) =
    ground (arith, word_order-eq-strcmp word e.0, find-word_order word tab)

tags-ascending : ascending word_order tag_table ≡ true
unfolding ascending word_order tag_table
tags-ascending = refl

keys-ascending : ascending word_order key_table ≡ true
unfolding ascending word_order key_table
keys-ascending = refl

css-ascending : ascending word_order css_table ≡ true
unfolding ascending word_order css_table
css-ascending = refl

symbol-eq-lookup :
    (tab : List (Bytes × ℕ)) (unknown c : ℕ) (word : Bytes)
    → ascending word_order tab ≡ true
    → 0 < length tab
    → symbol tab unknown (some (c ∷ word)) ≡ lookup_symbol tab unknown (c ∷ word)
unfolding symbol lookup_symbol
symbol-eq-lookup tab unknown c word a l = ground (
  arith,
  search_table-eq-find word_order word_order-IsOrder ([], 0) (c ∷ word) tab a l,
  find-word_order (c ∷ word) tab,
)

tags-filled : 0 < length tag_table
unfolding tag_table
tags-filled = omega arith

keys-filled : 0 < length key_table
unfolding key_table
keys-filled = omega arith

css-filled : 0 < length css_table
unfolding css_table
css-filled = omega arith

-- For every word that is not empty, the binary search of `scan_tag` finds what a walk over the table
-- with `strcmp` finds.
pub tag-eq-lookup :
    (c : ℕ) (word : Bytes)
    → symbol tag_table 0 (some (c ∷ word)) ≡ lookup_symbol tag_table 0 (c ∷ word)
tag-eq-lookup c word = symbol-eq-lookup tag_table 0 c word tags-ascending tags-filled

-- The same for the binary search of `scan_key`, whatever stands for an unknown key.
pub key-eq-lookup :
    (unknown c : ℕ) (word : Bytes)
    → symbol key_table unknown (some (c ∷ word)) ≡ lookup_symbol key_table unknown (c ∷ word)
key-eq-lookup unknown c word = symbol-eq-lookup key_table unknown c word keys-ascending keys-filled

-- a walk over the table of properties, and then one over the table of keys
unfoldable pub lookup_css : Bytes → ℕ
lookup_css word = elim (find strcmp word css_table) [
  | none ↦ lookup_symbol key_table css_unknown word
  | some entry ↦ css_value entry
]

-- For every word that is not empty, the two binary searches of `scan_css` find what walks over the two
-- tables with `strcmp` find.
pub css-eq-lookup : (c : ℕ) (word : Bytes) → css_symbol (some (c ∷ word)) ≡ lookup_css (c ∷ word)
unfolding css_symbol lookup_css
css-eq-lookup c word = ground (
  arith,
  search_table-eq-find word_order word_order-IsOrder ([], (0, 0)) (c ∷ word) css_table css-ascending
      css-filled,
  find-word_order (c ∷ word) css_table,
  key-eq-lookup css_unknown c word,
)
