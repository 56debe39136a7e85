-- ===== src/Base64/Bytes.antt =====
-- What base64 decodes to are bytes.
use csi_secret_age.Prelude.{
  ℕ, ◌+◌, ◌*◌, ◌/◌, ◌%◌, ◌<◌, Text, List, [], ◌∷◌, ◌≡◌, refl, arith, All, Option, none, some,
}
use csi_secret_age.Base64.{
  skip_line_breaks, digit, digits, cons_digit, bytes_of, then_bytes, bytes_of_digits,
  decode_raw_url,
}

abbrev pub IsByte : ℕ → Type 0
IsByte b = b < 256

abbrev IsDigit : ℕ → Type 0
IsDigit d = d < 64

digit-lt : (c62 c63 c d : ℕ) → digit c62 c63 c ≡ some d → d < 64
unfolding digit
digit-lt c62 c63 c d h = ground arith

cons_digit-IsDigit :
    (c62 c63 c : ℕ) (o : Option ℕ) (rest : Option (List ℕ)) (ds : List ℕ)
    → digit c62 c63 c ≡ o
    → ((es : List ℕ) → rest ≡ some es → All IsDigit es)
    → cons_digit o rest ≡ some ds
    → All IsDigit ds
cons_digit-IsDigit c62 c63 c none rest ds e ih h = cc
cons_digit-IsDigit c62 c63 c (some d) none ds e ih h = cc
cons_digit-IsDigit c62 c63 c (some d) (some es) ds e ih h =
    let same : ds ≡ d ∷ es = ground arith in rw same (digit-lt c62 c63 c d e, ih es refl)

digits-IsDigit :
    (c62 c63 : ℕ) (s : Text) (ds : List ℕ) → digits c62 c63 s ≡ some ds → All IsDigit ds
unfolding digits
digits-IsDigit c62 c63 [] ds h = let same : ds ≡ [] = ground arith in rw same tt
digits-IsDigit c62 c63 (c ∷ s) ds h =
    cons_digit-IsDigit c62 c63 c (digit c62 c63 c) (digits c62 c63 s) ds refl
      (λ es e. digits-IsDigit c62 c63 s es e) h

three-IsByte :
    (x y z : ℕ) (rest : Option (List ℕ)) (bytes : List ℕ)
    → IsByte x
    → IsByte y
    → IsByte z
    → ((bs : List ℕ) → rest ≡ some bs → All IsByte bs)
    → then_bytes (x ∷ y ∷ z ∷ []) rest ≡ some bytes
    → All IsByte bytes
three-IsByte x y z none bytes hx hy hz ih h = cc
three-IsByte x y z (some bs) bytes hx hy hz ih h =
    let same : bytes ≡ x ∷ y ∷ z ∷ bs = ground arith in rw same (hx, (hy, (hz, ih bs refl)))

bytes_of-IsByte : (ds bytes : List ℕ) → All IsDigit ds → bytes_of ds ≡ some bytes → All IsByte bytes
unfolding bytes_of
bytes_of-IsByte [] bytes l h = let same : bytes ≡ [] = ground arith in rw same tt
bytes_of-IsByte (a ∷ []) bytes l h = cc
bytes_of-IsByte (a ∷ b ∷ []) bytes (la, (lb, l)) h =
    let same : bytes ≡ (a * 4 + b / 16) ∷ [] = ground arith in rw same (omega arith, tt)
bytes_of-IsByte (a ∷ b ∷ c ∷ []) bytes (la, (lb, (lc, l))) h =
    let same : bytes ≡ (a * 4 + b / 16) ∷ (b % 16 * 16 + c / 4) ∷ [] = ground arith in
    rw same (omega arith, (omega arith, tt))
bytes_of-IsByte (a ∷ b ∷ c ∷ d ∷ ds) bytes (la, (lb, (lc, (ld, l)))) h =
    three-IsByte (a * 4 + b / 16) (b % 16 * 16 + c / 4) (c % 4 * 64 + d) (bytes_of ds) bytes
      (omega arith) (omega arith) (omega arith) (λ bs e. bytes_of-IsByte ds bs l e) h

bytes_of_digits-IsByte :
    (o : Option (List ℕ)) (bytes : List ℕ)
    → ((ds : List ℕ) → o ≡ some ds → All IsDigit ds)
    → bytes_of_digits o ≡ some bytes
    → All IsByte bytes
bytes_of_digits-IsByte none bytes l h = cc
bytes_of_digits-IsByte (some ds) bytes l h = bytes_of-IsByte ds bytes (l ds refl) h

pub decode_raw_url-IsByte :
    (s : Text) (bytes : List ℕ) → decode_raw_url s ≡ some bytes → All IsByte bytes
unfolding decode_raw_url
decode_raw_url-IsByte s bytes h =
    bytes_of_digits-IsByte (digits b'-' b'_' (skip_line_breaks s)) bytes
      (λ ds e. digits-IsDigit b'-' b'_' (skip_line_breaks s) ds e) h
