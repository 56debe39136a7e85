-- ===== src/Base64.antt =====
-- Decoding of base64 texts as encoding/base64 does it: line breaks are skipped, and the bits that
-- are left over in the last character are not looked at.
pub mod Bytes
use csi_secret_age.Prelude.{
  ℕ, ◌+◌, ◌-◌, ◌*◌, ◌/◌, ◌%◌, Text, List, [], ◌∷◌, ◌++◌, Bool, not, true, false, ◌&&◌, ◌||◌, leb,
  nat_eq, if◌then◌else◌, Option, none, some,
}

abbrev pub in_range : ℕ → ℕ → ℕ → Bool
in_range low high c = leb low c && leb c high

-- The value of a letter or a digit, or of one of the last two characters of the alphabet.
unfoldable pub digit : ℕ → ℕ → ℕ → Option ℕ
digit c62 c63 c =
    if in_range b'A' b'Z' c
    then some (c - b'A')
    else if in_range b'a' b'z' c
    then some (c - b'a' + 26)
    else if in_range b'0' b'9' c
    then some (c - b'0' + 52)
    else if nat_eq c c62
    then some 62
    else if nat_eq c c63
    then some 63
    else none

abbrev pub is_line_break : ℕ → Bool
is_line_break c = nat_eq c 10 || nat_eq c 13

abbrev pub skip_line_breaks : Text → Text
skip_line_breaks [] = []
skip_line_breaks (c ∷ s) =
    let rest = skip_line_breaks s in if is_line_break c then rest else c ∷ rest

abbrev pub cons_digit : Option ℕ → Option (List ℕ) → Option (List ℕ)
cons_digit (some d) (some ds) = some (d ∷ ds)
cons_digit _ _ = none

unfoldable pub digits : ℕ → ℕ → Text → Option (List ℕ)
unfolding digit
digits c62 c63 [] = some []
digits c62 c63 (c ∷ s) = cons_digit (digit c62 c63 c) (digits c62 c63 s)

abbrev pub then_bytes : List ℕ → Option (List ℕ) → Option (List ℕ)
then_bytes bytes none = none
then_bytes [] (some rest) = some rest
then_bytes (b ∷ bytes) rest = cons_digit (some b) (then_bytes bytes rest)

-- Four digits are three bytes; one digit alone is none.
unfoldable pub bytes_of : List ℕ → Option (List ℕ)
bytes_of [] = some []
bytes_of (a ∷ []) = none
bytes_of (a ∷ b ∷ []) = some ((a * 4 + b / 16) ∷ [])
bytes_of (a ∷ b ∷ c ∷ []) = some ((a * 4 + b / 16) ∷ (b % 16 * 16 + c / 4) ∷ [])
bytes_of (a ∷ b ∷ c ∷ d ∷ ds) =
    then_bytes ((a * 4 + b / 16) ∷ (b % 16 * 16 + c / 4) ∷ (c % 4 * 64 + d) ∷ []) (bytes_of ds)

abbrev pub bytes_of_digits : Option (List ℕ) → Option (List ℕ)
bytes_of_digits none = none
bytes_of_digits (some ds) = bytes_of ds

-- `base64.RawURLEncoding.DecodeString`
unfoldable pub decode_raw_url : Text → Option (List ℕ)
unfolding digits bytes_of
decode_raw_url s = bytes_of_digits (digits b'-' b'_' (skip_line_breaks s))

abbrev pub padding : ℕ
padding = b'='

unfoldable pub bytes_of_std : Text → Option (List ℕ)
unfolding digits bytes_of
bytes_of_std s = bytes_of_digits (digits b'+' b'/' s)

abbrev pub append_bytes : List ℕ → Option (List ℕ) → Option (List ℕ)
append_bytes bytes none = none
append_bytes bytes (some rest) = some (bytes ++ rest)

abbrev pub then_groups : Option (List ℕ) → Option (List ℕ) → Option (List ℕ)
then_groups none more = none
then_groups (some bytes) more = append_bytes bytes more

abbrev pub last_group : Option (List ℕ) → Text → Option (List ℕ)
last_group bytes [] = bytes
last_group bytes (c ∷ rest) = none

-- Groups of four characters, of which only the last may end in one or two paddings.
unfoldable pub groups : Text → Option (List ℕ)
unfolding bytes_of_std
groups [] = some []
groups (a ∷ b ∷ c ∷ d ∷ rest) =
    let more = groups rest in
    if not (nat_eq d padding)
    then then_groups (bytes_of_std (a ∷ b ∷ c ∷ d ∷ [])) more
    else last_group
        (if nat_eq c padding then bytes_of_std (a ∷ b ∷ []) else bytes_of_std (a ∷ b ∷ c ∷ [])) rest
groups _ = none

-- `base64.StdEncoding.DecodeString`
unfoldable pub decode_std : Text → Option (List ℕ)
unfolding groups
decode_std s = groups (skip_line_breaks s)
