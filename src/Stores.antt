-- ===== src/Stores.antt =====
-- The stores of collector-core (packages/collector-core/src/collector_core): a source's name is
-- checked against `^[a-z0-9][a-z0-9_-]*$`.
pub mod Raw
pub mod Checkpoint
use signal_observatory.Prelude.{
  ℕ, Bool, true, false, not, ◌&&◌, ◌||◌, List, [], ◌∷◌, exists, leb, ◌==◌, Result, ok, err, ◌>>=◌,
  ◌>>◌, raise_if,
}
use signal_observatory.Errors.{Error, bad_source}
use signal_observatory.Text.{Text}

abbrev pub is_letter_or_digit : ℕ → Bool
is_letter_or_digit c = (leb b'a' c && leb c b'z') || (leb b'0' c && leb c b'9')

abbrev is_name_character : ℕ → Bool
is_name_character c = is_letter_or_digit c || c == b'_' || c == b'-'

-- `SOURCE_PATTERN.fullmatch`.
unfoldable pub is_source : Text → Bool
is_source [] = false
is_source (c ∷ cs) = is_letter_or_digit c && not (exists (λ d. not (is_name_character d)) cs)

abbrev pub validate_source : Text → Result Error (Unit {0})
validate_source source = raise_if (not (is_source source)) bad_source
