-- ===== src/Lines/Columns.antt =====
-- Indentation in `classifyLineRole` and `firstNonWhitespaceColumn`.
use stellar_debugger.Prelude.{
  ℕ, ◌+◌, ◌≡◌, refl, ap, ◌∙◌, true, false, none, some, List, [], ◌∷◌, ◌++◌, length, arith,
}
use stellar_debugger.Lines.{
  is_space, trim_start, classify_line_role, first_column, first_non_whitespace_column,
}

-- Every unit is white space.
abbrev pub IsBlank : List ℕ → Type 0
IsBlank [] = Unit {0}
IsBlank (c ∷ text) = (is_space c ≡ true) × IsBlank text

trim_start-blank : (ws text : List ℕ) → IsBlank ws → trim_start (ws ++ text) ≡ trim_start text
unfolding trim_start
trim_start-blank [] text h = refl
trim_start-blank (c ∷ ws) text h = rw (h.0) (trim_start-blank ws text h.1)

-- The role of a line does not depend on its indentation.
pub classify_line_role-indent :
    (ws text : List ℕ)
    → IsBlank ws
    → classify_line_role (some (ws ++ text)) ≡ classify_line_role (some text)
unfolding classify_line_role
classify_line_role-indent ws text h = rw (trim_start-blank ws text h)

first_column-blank : (ws : List ℕ) (i : ℕ) → IsBlank ws → first_column i ws ≡ none
unfolding first_column
first_column-blank [] i h = refl
first_column-blank (c ∷ ws) i h = rw (h.0) (first_column-blank ws (i + 1) h.1)

first_column-indent :
    (ws : List ℕ) (i c : ℕ) (text : List ℕ)
    → IsBlank ws
    → is_space c ≡ false
    → first_column i (ws ++ c ∷ text) ≡ some (i + length ws + 1)
unfolding first_column
first_column-indent [] i c text h k = rw k (ap some (omega arith))
first_column-indent (w ∷ ws) i c text h k =
    rw (h.0) (first_column-indent ws (i + 1) c text h.1 k ∙ ap some (omega arith))

-- The first column that is not white space is one past the indentation, and there is none for a
-- blank line.
pub first_non_whitespace_column_indent :
    (ws : List ℕ) (c : ℕ) (text : List ℕ)
    → IsBlank ws
    → is_space c ≡ false
    → (first_non_whitespace_column (some (ws ++ c ∷ text)) ≡ some (length ws + 1))
      × (first_non_whitespace_column (some ws) ≡ none)
unfolding first_non_whitespace_column
first_non_whitespace_column_indent ws c text h k =
    (first_column-indent ws 0 c text h k ∙ ap some (omega arith), first_column-blank ws 0 h)
