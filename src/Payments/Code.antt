-- ===== src/Payments/Code.antt =====
-- PaymentService: extractPaymentCode. A text is the list of its characters' codes.
use borrow_hub.Common.{
  ℕ, zero, suc, Option, none, some, List, [], ◌∷◌, ◌&&◌, leb, ◌==◌, if◌then◌else◌, length, map,
  first_some,
}
use borrow_hub.Rentals.Intent.{is_letter_or_digit, to_upper}

-- The match of `[A-Z0-9]{0,n}` with the flag `i` at the start of a text, as long as can be.
abbrev pub take_code : ℕ → List ℕ → List ℕ
take_code zero cs = []
take_code (suc n) [] = []
take_code (suc n) (c ∷ cs) =
    let rest = take_code n cs in if is_letter_or_digit c then c ∷ rest else []

-- The match of PAYMENT_CODE_PATTERN, /BH[A-Z0-9]{10,20}/i, at the start of a text.
abbrev pub code_at : List ℕ → Option (List ℕ)
code_at [] = none
code_at (b ∷ []) = none
code_at (b ∷ h ∷ cs) =
    let run = take_code 20 cs in
    if to_upper b == b'B' && (to_upper h == b'H' && leb 10 (length run))
    then some (b ∷ h ∷ run)
    else none

-- `text.match(PAYMENT_CODE_PATTERN)?.[0]`: the leftmost match.
abbrev pub match_code : List ℕ → Option (List ℕ)
match_code [] = none
match_code (c ∷ cs) = first_some (code_at (c ∷ cs)) (match_code cs)

abbrev pub match_in : Option (List ℕ) → Option (List ℕ)
match_in none = none
match_in (some text) = match_code text

abbrev pub upper_case : Option (List ℕ) → Option (List ℕ)
upper_case none = none
upper_case (some text) = some (map to_upper text)

unfoldable pub extract_payment_code :
    (code : Option (List ℕ)) → (content : Option (List ℕ)) → Option (List ℕ)
extract_payment_code code content = upper_case (first_some (match_in code) (match_in content))
