-- ===== src/Scanner/Css.antt =====
-- src/token.h: the names of the CSS properties, in the order of the enum `HTMLCSS`, which counts on
-- from `CSS_Unknown`, with the key that each stands for, or 0.
use highwire.Common.{ℕ, List, [], ◌∷◌}
use highwire.Common.Bytes.{Bytes, codes}

-- `CSS_Unknown = KEY_LastDefined`
abbrev pub css_unknown : ℕ
css_unknown = 63

-- `css_table`
unfoldable pub css_table : List (Bytes × (ℕ × ℕ))
css_table =
    (codes "BACKGROUND", (64, 4))
    ∷ (codes "BACKGROUND_COLOR", (65, 4))
    ∷ (codes "BORDER", (66, 0))
    ∷ (codes "BORDER_BOTTOM", (67, 0))
    ∷ (codes "BORDER_BOTTOM_COLOR", (68, 0))
    ∷ (codes "BORDER_BOTTOM_STYLE", (69, 0))
    ∷ (codes "BORDER_BOTTOM_WIDTH", (70, 0))
    ∷ (codes "BORDER_COLOR", (71, 0))
    ∷ (codes "BORDER_LEFT", (72, 0))
    ∷ (codes "BORDER_LEFT_COLOR", (73, 0))
    ∷ (codes "BORDER_LEFT_STYLE", (74, 0))
    ∷ (codes "BORDER_LEFT_WIDTH", (75, 0))
    ∷ (codes "BORDER_RIGHT", (76, 0))
    ∷ (codes "BORDER_RIGHT_COLOR", (77, 0))
    ∷ (codes "BORDER_RIGHT_STYLE", (78, 0))
    ∷ (codes "BORDER_RIGHT_WIDTH", (79, 0))
    ∷ (codes "BORDER_SPACING", (80, 8))
    ∷ (codes "BORDER_STYLE", (81, 0))
    ∷ (codes "BORDER_TOP", (82, 0))
    ∷ (codes "BORDER_TOP_COLOR", (83, 0))
    ∷ (codes "BORDER_TOP_STYLE", (84, 0))
    ∷ (codes "BORDER_TOP_WIDTH", (85, 0))
    ∷ (codes "BORDER_WIDTH", (86, 0))
    ∷ (codes "BOTTOM", (87, 0))
    ∷ (codes "CLEAR", (88, 0))
    ∷ (codes "COLOR", (89, 13))
    ∷ (codes "DISPLAY", (90, 0))
    ∷ (codes "FLOAT", (91, 0))
    ∷ (codes "FONT", (92, 0))
    ∷ (codes "FONT_FAMILY", (93, 20))
    ∷ (codes "FONT_SIZE", (94, 0))
    ∷ (codes "FONT_STYLE", (95, 0))
    ∷ (codes "FONT_WEIGHT", (96, 0))
    ∷ (codes "HEIGHT", (97, 23))
    ∷ (codes "LEFT", (98, 0))
    ∷ (codes "LIST_STYLE", (99, 0))
    ∷ (codes "LIST_STYLE_TYPE", (100, 0))
    ∷ (codes "MARGIN", (101, 0))
    ∷ (codes "MARGIN_BOTTOM", (102, 0))
    ∷ (codes "MARGIN_LEFT", (103, 0))
    ∷ (codes "MARGIN_RIGHT", (104, 0))
    ∷ (codes "MARGIN_TOP", (105, 0))
    ∷ (codes "MIN_WIDTH", (106, 0))
    ∷ (codes "PADDING", (107, 0))
    ∷ (codes "PADDING_BOTTOM", (108, 0))
    ∷ (codes "PADDING_LEFT", (109, 0))
    ∷ (codes "PADDING_RIGHT", (110, 0))
    ∷ (codes "PADDING_TOP", (111, 0))
    ∷ (codes "POSITION", (112, 0))
    ∷ (codes "RIGHT", (113, 0))
    ∷ (codes "TEXT_ALIGN", (114, 0))
    ∷ (codes "TEXT_DECORATION", (115, 0))
    ∷ (codes "TEXT_INDENT", (116, 0))
    ∷ (codes "TOP", (117, 0))
    ∷ (codes "VERTICAL_ALIGN", (118, 59))
    ∷ (codes "WHITE_SPACE", (119, 0))
    ∷ (codes "WIDTH", (120, 62))
    ∷ []
