-- ===== src/Queue/Name.antt =====
-- ValidateName of internal/queue/queue.go: `^[A-Za-z0-9][A-Za-z0-9_-]{0,63}$`. A name is its list of
-- code points.
use queuemaxxing.Base.{ℕ, ◌≢◌, Bool, true, false, ◌&&◌, ◌||◌, List, [], ◌∷◌, length, leb, ◌==◌}

abbrev is_letter_or_digit : ℕ → Bool
is_letter_or_digit c =
    (leb b'A' c && leb c b'Z') || (leb b'a' c && leb c b'z') || (leb b'0' c && leb c b'9')

abbrev is_name_character : ℕ → Bool
is_name_character c = is_letter_or_digit c || c == b'_' || c == b'-'

all_name_characters : List ℕ → Bool
all_name_characters [] = true
all_name_characters (c ∷ cs) = is_name_character c && all_name_characters cs

-- true where ValidateName returns nil
unfoldable pub validate_name : List ℕ → Bool
unfolding all_name_characters
validate_name [] = false
validate_name (c ∷ cs) = is_letter_or_digit c && all_name_characters cs && leb (length cs) 63

-- every code point of the name is other than `bad`
abbrev pub Lacks : ℕ → List ℕ → Type 0
Lacks bad [] = Unit {0}
Lacks bad (c ∷ cs) = (c ≢ bad) × Lacks bad cs
