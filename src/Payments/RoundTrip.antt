-- ===== src/Payments/RoundTrip.antt =====
-- The code that a renter is told to put into a transfer is the one that the webhook reads from it.
use borrow_hub.Common.{
  ℕ, zero, suc, ◌≤◌, Bool, true, not, ◌≡◌, refl, ap, Option, none, some, List, [], ◌∷◌, ◌++◌, arith,
  ◌&&◌, leb, ◌==◌, length, filter, map, All,
}
use borrow_hub.Rentals.Intent.{
  is_letter_or_digit, to_upper, slice_last, id_suffix, build_payment_code,
}
use borrow_hub.Payments.Code.{take_code, code_at, match_code, extract_payment_code}

-- An upper-case letter or a digit.
abbrev is_code_char : ℕ → Bool
is_code_char c = is_letter_or_digit c && to_upper c == c

-- The text is empty or goes on with neither a letter nor a digit.
abbrev pub is_apart : List ℕ → Bool
is_apart [] = true
is_apart (c ∷ cs) = not (is_letter_or_digit c)

take_code-append :
    (n : ℕ) (xs rest : List ℕ)
    → All (λ c. is_code_char c ≡ true) xs
    → length xs ≤ n
    → is_apart rest ≡ true
    → take_code n (xs ++ rest) ≡ xs
take_code-append zero [] rest h most apart = refl
take_code-append zero (x ∷ xs) rest h most apart = absurd (omega arith)
take_code-append (suc n) [] [] h most apart = refl
take_code-append (suc n) [] (c ∷ rest) h most apart = ground arith
take_code-append (suc n) (x ∷ xs) rest h most apart =
    ground (arith, take_code-append n xs rest h.1 (omega arith) apart)

map-to_upper : (xs : List ℕ) → All (λ c. is_code_char c ≡ true) xs → map to_upper xs ≡ xs
map-to_upper [] h = refl
map-to_upper (x ∷ xs) h = ground (arith, map-to_upper xs h.1)

filter-is_letter_or_digit :
    (xs : List ℕ) → All (λ c. is_letter_or_digit c ≡ true) (filter is_letter_or_digit xs)
filter-is_letter_or_digit [] = tt
filter-is_letter_or_digit (x ∷ xs) = ground (arith, filter-is_letter_or_digit xs)

slice_last-All :
    (n : ℕ) (xs : List ℕ)
    → All (λ c. is_letter_or_digit c ≡ true) xs
    → All (λ c. is_letter_or_digit c ≡ true) (slice_last n xs)
slice_last-All n [] h = tt
slice_last-All n (x ∷ xs) h = ground (arith, slice_last-All n xs h.1)

to_upper-is_code_char : (c : ℕ) → is_letter_or_digit c ≡ true → is_code_char (to_upper c) ≡ true
to_upper-is_code_char c h = ground arith

map-is_code_char :
    (xs : List ℕ)
    → All (λ c. is_letter_or_digit c ≡ true) xs
    → All (λ c. is_code_char c ≡ true) (map to_upper xs)
map-is_code_char [] h = tt
map-is_code_char (x ∷ xs) h = (to_upper-is_code_char x h.0, map-is_code_char xs h.1)

length-map : (xs : List ℕ) → length (map to_upper xs) ≡ length xs
length-map [] = refl
length-map (x ∷ xs) = ap suc (length-map xs)

length-slice_last : (n : ℕ) (xs : List ℕ) → length (slice_last n xs) ≤ n
length-slice_last n [] = ground arith
length-slice_last n (x ∷ xs) = ground (arith, length-slice_last n xs)

length-slice_last_least :
    (m n : ℕ) (xs : List ℕ) → m ≤ n → m ≤ length xs → m ≤ length (slice_last n xs)
length-slice_last_least m n [] h long = ground arith
length-slice_last_least m n (x ∷ xs) h long = ground (arith, length-slice_last_least m n xs h)

leb-true : (m n : ℕ) → m ≤ n → leb m n ≡ true
leb-true m n h = ground arith

-- The match at the start of a text that begins with a payment code.
code_at-suffix :
    (xs rest : List ℕ)
    → All (λ c. is_code_char c ≡ true) xs
    → 10 ≤ length xs
    → length xs ≤ 20
    → is_apart rest ≡ true
    → code_at (b'B' ∷ b'H' ∷ (xs ++ rest)) ≡ some (b'B' ∷ b'H' ∷ xs)
code_at-suffix xs rest h least most apart =
    rw (take_code-append 20 xs rest h most apart, leb-true 10 (length xs) least) refl

match_code-suffix :
    (xs rest : List ℕ)
    → All (λ c. is_code_char c ≡ true) xs
    → 10 ≤ length xs
    → length xs ≤ 20
    → is_apart rest ≡ true
    → match_code (b'B' ∷ b'H' ∷ (xs ++ rest)) ≡ some (b'B' ∷ b'H' ∷ xs)
match_code-suffix xs rest h least most apart = rw (code_at-suffix xs rest h least most apart) refl

-- The suffix of a payment code.
id_suffix-is_code_char : (id : List ℕ) → All (λ c. is_code_char c ≡ true) (id_suffix 12 id)
unfolding id_suffix
id_suffix-is_code_char id =
    map-is_code_char (slice_last 12 (filter is_letter_or_digit id))
      (slice_last-All 12 (filter is_letter_or_digit id) (filter-is_letter_or_digit id))

length-id_suffix :
    (id : List ℕ)
    → 10 ≤ length (filter is_letter_or_digit id)
    → (10 ≤ length (id_suffix 12 id)) × (length (id_suffix 12 id) ≤ 12)
unfolding id_suffix
length-id_suffix id long =
    let code = filter is_letter_or_digit id in
    rw (length-map (slice_last 12 code))
      (length-slice_last_least 10 12 code (omega arith) long, length-slice_last 12 code)

match-build_payment_code :
    (id rest : List ℕ)
    → 10 ≤ length (filter is_letter_or_digit id)
    → is_apart rest ≡ true
    → match_code (build_payment_code id ++ rest) ≡ some (build_payment_code id)
unfolding build_payment_code
match-build_payment_code id rest long apart =
    let (least, most) = length-id_suffix id long in
    match_code-suffix (id_suffix 12 id) rest (id_suffix-is_code_char id) least (omega arith) apart

upper-build_payment_code :
    (id : List ℕ) → map to_upper (build_payment_code id) ≡ build_payment_code id
unfolding build_payment_code
upper-build_payment_code id =
    ap (λ xs. b'B' ∷ b'H' ∷ xs) (map-to_upper (id_suffix 12 id) (id_suffix-is_code_char id))

-- For a rental whose identifier has at least ten letters and digits: from a transfer whose code, or
-- else whose content, begins with the payment code of the rental and goes on with neither a letter
-- nor a digit, the webhook reads that payment code.
pub extract-build_payment_code :
    (id rest : List ℕ) (content : Option (List ℕ))
    → 10 ≤ length (filter is_letter_or_digit id)
    → is_apart rest ≡ true
    → (extract_payment_code (some (build_payment_code id ++ rest)) content
        ≡ some (build_payment_code id))
      × (extract_payment_code none (some (build_payment_code id ++ rest))
          ≡ some (build_payment_code id))
unfolding extract_payment_code
extract-build_payment_code id rest content long apart =
    let found = match-build_payment_code id rest long apart in
    let upper = upper-build_payment_code id in (rw (found, upper) refl, rw (found, upper) refl)
