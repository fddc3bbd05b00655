-- ===== src/Sql/Shape.antt =====
-- What `pagination_query` does to a text that it accepts.
use trolley.Base.{ℕ, ◌≡◌, ◌⊎◌, Option, none, some, List, ◌∷◌, ◌++◌, length}
use trolley.Sql.Blank.{IsBlank}

-- The text `s` is a statement, its semicolon, which ends at the index in `u`, and blanks.
abbrev pub EndsAt : List ℕ → Option ℕ → Type 0
EndsAt s u =
    (u ≡ none)
    ⊎ ((before : List ℕ) × (after : List ℕ) × (s ≡ before ++ b';' ∷ after)
        × IsBlank after
        × (u ≡ some (length before)))
