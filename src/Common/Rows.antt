-- ===== src/Common/Rows.antt =====
-- How a table changes row by row, and pairs of rows that exclude each other.

use Prim.Native.Nat.{ℕ, zero, suc}
use mathlib.Core.Path.{◌≡◌, refl, sym, subst}
use native.Mathlib.Omega.{arith}
use mathlib.Core.Bool.{Bool, true, false}
use mathlib.Core.Option.{some}
use mathlib.Core.Logic.{inl, inr}
use mathlib.Core.List.{List, [], ◌∷◌, ◌++◌}
use borrow_hub.Common.Tests.{Bool-cases, ◌==◌}
use borrow_hub.Common.Lists.{All, get_elem?, find, any, filter, update_first, update_where}

-- Each row is related to the row in its place; no row comes or goes.
abbrev pub Rows {ℓ} : {A : Type ℓ} → (A → A → Type 0) → List A → List A → Type 0
Rows E [] [] = Unit
Rows E [] (y ∷ ys) = ⊥
Rows E (x ∷ xs) [] = ⊥
Rows E (x ∷ xs) (y ∷ ys) = E x y × Rows E xs ys

-- The same, but rows may be added at the end.
abbrev pub Grown {ℓ} : {A : Type ℓ} → (A → A → Type 0) → (A → Type 0) → List A → List A → Type 0
Grown E New [] ys = All New ys
Grown E New (x ∷ xs) [] = ⊥
Grown E New (x ∷ xs) (y ∷ ys) = E x y × Grown E New xs ys

-- A row that is found by its key has the key, and is found by its own.
module _ {ℓ} {A : Type ℓ} (key : A → ℕ) where
  pub find-key : (k : ℕ) (xs : List A) (a : A) → find (λ x. key x == k) xs ≡ some a → key a ≡ k
  find-key k [] a e = cc
  find-key k (x ∷ xs) a e = elim (Bool-cases (key x == k)) [
    | inl hit ↦ grind (arith, hit, rw hit at e)
    | inr miss ↦ find-key k xs a (rw miss at e)
  ]

  pub find-own_key :
      (k : ℕ) (xs : List A) (a : A)
      → find (λ x. key x == k) xs ≡ some a
      → find (λ x. key x == key a) xs ≡ some a
  find-own_key k xs a e =
      subst (λ (i : ℕ). find (λ x. key x == i) xs ≡ some a) (sym (find-key k xs a e)) e

module _ {ℓ} {A : Type ℓ} (E : A → A → Type 0) (E_refl : (x : A) → E x x) where
  pub Rows-refl : (xs : List A) → Rows E xs xs
  Rows-refl [] = tt
  Rows-refl (x ∷ xs) = (E_refl x, Rows-refl xs)

  pub Rows-update_first :
      (p : A → Bool) (f : A → A) (xs : List A)
      → ((x : A) → find p xs ≡ some x → E x (f x))
      → Rows E xs (update_first p f xs)
  Rows-update_first p f [] h = tt
  Rows-update_first p f (x ∷ xs) h = elim (Bool-cases (p x)) [
    | inl hit ↦ rw hit (h x (rw hit), Rows-refl xs)
    | inr miss ↦ rw miss (E_refl x, Rows-update_first p f xs (λ y e. h y (rw miss e)))
  ]

  -- The update of the row that is found.
  pub Rows-update_found :
      (p : A → Bool) (f : A → A) (xs : List A) (a : A)
      → find p xs ≡ some a
      → E a (f a)
      → Rows E xs (update_first p f xs)
  Rows-update_found p f xs a found h =
      Rows-update_first p f xs
        (λ b same. let e : a ≡ b = grind (arith, found, same) in subst (λ x. E x (f x)) e h)

  pub Rows-update_where :
      (p : A → Bool) (f : A → A) (xs : List A)
      → ((x : A) → p x ≡ true → E x (f x))
      → Rows E xs (update_where p f xs)
  Rows-update_where p f [] h = tt
  Rows-update_where p f (x ∷ xs) h = elim (Bool-cases (p x)) [
    | inl hit ↦ rw hit (h x hit, Rows-update_where p f xs h)
    | inr miss ↦ rw miss (E_refl x, Rows-update_where p f xs h)
  ]

  pub Grown-append :
      (New : A → Type 0) (xs : List A) (x : A) → New x → Grown E New xs (xs ++ x ∷ [])
  Grown-append New [] x h = (h, tt)
  Grown-append New (y ∷ ys) x h = (E_refl y, Grown-append New ys x h)

module _ {ℓ} {A : Type ℓ} (E : A → A → Type 0) (New : A → Type 0) where
  pub Grown-Rows : (xs ys : List A) → Rows E xs ys → Grown E New xs ys
  Grown-Rows [] [] h = tt
  Grown-Rows [] (y ∷ ys) h = absurd h
  Grown-Rows (x ∷ xs) [] h = absurd h
  Grown-Rows (x ∷ xs) (y ∷ ys) h = (h.0, Grown-Rows xs ys h.1)

  module _ (New_step : (x y : A) → New x → E x y → New y) where
    All-Grown : (xs ys : List A) → All New xs → Grown E New xs ys → All New ys
    All-Grown [] ys h g = g
    All-Grown (x ∷ xs) [] h g = absurd g
    All-Grown (x ∷ xs) (y ∷ ys) h g = (New_step x y h.0 g.0, All-Grown xs ys h.1 g.1)

    pub Grown-trans :
        (E_trans : (x y z : A) → E x y → E y z → E x z) (xs ys zs : List A)
        → Grown E New xs ys
        → Grown E New ys zs
        → Grown E New xs zs
    Grown-trans E_trans [] ys zs g h = All-Grown ys zs g h
    Grown-trans E_trans (x ∷ xs) [] zs g h = absurd g
    Grown-trans E_trans (x ∷ xs) (y ∷ ys) [] g h = absurd h
    Grown-trans E_trans (x ∷ xs) (y ∷ ys) (z ∷ zs) g h =
        (E_trans x y z g.0 h.0, Grown-trans E_trans xs ys zs g.1 h.1)

-- The rows of the two tables at one place.
module _ {ℓ} {A : Type ℓ} (E : A → A → Type 0) where
  pub get_elem?-Rows :
      (xs ys : List A) (i : ℕ) (x : A)
      → Rows E xs ys
      → get_elem? xs i ≡ some x
      → (y : A) × (get_elem? ys i ≡ some y) × E x y
  get_elem?-Rows [] ys i x h there = absurd (ground (arith, there))
  get_elem?-Rows (x ∷ xs) [] i z h there = absurd h
  get_elem?-Rows (x ∷ xs) (y ∷ ys) zero z h there =
      (y, refl, subst (λ (w : A). E w y) (ground (arith, there)) h.0)
  get_elem?-Rows (x ∷ xs) (y ∷ ys) (suc i) z h there = get_elem?-Rows xs ys i z h.1 there

  pub Rows-map :
      (F : A → A → Type 0) (xs ys : List A)
      → ((x y : A) → E x y → F x y)
      → Rows E xs ys
      → Rows F xs ys
  Rows-map F [] [] h g = tt
  Rows-map F [] (y ∷ ys) h g = absurd g
  Rows-map F (x ∷ xs) [] h g = absurd g
  Rows-map F (x ∷ xs) (y ∷ ys) h g = (h x y g.0, Rows-map F xs ys h g.1)

-- One relation of the rows, and then another.
module _ {ℓ} {A : Type ℓ} (E F G : A → A → Type 0)
    (compose : (x y z : A) → E x y → F y z → G x z) where
  pub Rows-compose : (xs ys zs : List A) → Rows E xs ys → Rows F ys zs → Rows G xs zs
  Rows-compose [] [] [] g h = tt
  Rows-compose [] [] (z ∷ zs) g h = absurd h
  Rows-compose [] (y ∷ ys) zs g h = absurd g
  Rows-compose (x ∷ xs) [] zs g h = absurd g
  Rows-compose (x ∷ xs) (y ∷ ys) [] g h = absurd h
  Rows-compose (x ∷ xs) (y ∷ ys) (z ∷ zs) g h =
      (compose x y z g.0 h.0, Rows-compose xs ys zs g.1 h.1)

module _ {ℓ} {A : Type ℓ} (E : A → A → Type 0) where
  pub Rows-trans :
      (E_trans : (x y z : A) → E x y → E y z → E x z) (xs ys zs : List A)
      → Rows E xs ys
      → Rows E ys zs
      → Rows E xs zs
  Rows-trans E_trans [] [] zs g h = h
  Rows-trans E_trans [] (y ∷ ys) zs g h = absurd g
  Rows-trans E_trans (x ∷ xs) [] zs g h = absurd g
  Rows-trans E_trans (x ∷ xs) (y ∷ ys) [] g h = absurd h
  Rows-trans E_trans (x ∷ xs) (y ∷ ys) (z ∷ zs) g h =
      (E_trans x y z g.0 h.0, Rows-trans E_trans xs ys zs g.1 h.1)

-- No two rows clash.
abbrev pub Pairwise {ℓ} : {A : Type ℓ} → (A → A → Bool) → List A → Type 0
Pairwise clash [] = Unit
Pairwise clash (x ∷ xs) = All (λ y. clash x y ≡ false) xs × Pairwise clash xs

module _ {ℓ} {A : Type ℓ} (clash : A → A → Bool) where
  All-append-no_clash :
      (x : A) (ys : List A) (r : A)
      → All (λ y. clash x y ≡ false) ys
      → clash x r ≡ false
      → All (λ y. clash x y ≡ false) (ys ++ r ∷ [])
  All-append-no_clash x [] r h e = (e, tt)
  All-append-no_clash x (y ∷ ys) r h e = (h.0, All-append-no_clash x ys r h.1 e)

  pub Pairwise-append :
      (xs : List A) (r : A)
      → Pairwise clash xs
      → All (λ x. clash x r ≡ false) xs
      → Pairwise clash (xs ++ r ∷ [])
  Pairwise-append [] r h e = (tt, tt)
  Pairwise-append (x ∷ xs) r h e =
      (All-append-no_clash x xs r h.0 e.0, Pairwise-append xs r h.1 e.1)

module _ {ℓ} {A : Type ℓ} (clash : A → A → Bool) (E : A → A → Type 0) where
  -- A change of two rows makes no clash.
  abbrev pub MakesNoClash : Type ℓ
  MakesNoClash = (x y x' y' : A) → E x x' → E y y' → clash x y ≡ false → clash x' y' ≡ false

module _ {ℓ} {A : Type ℓ} {clash : A → A → Bool} {E : A → A → Type 0} where
  All-Rows :
      (keep : MakesNoClash clash E) (x x' : A) (ys zs : List A)
      → E x x'
      → Rows E ys zs
      → All (λ y. clash x y ≡ false) ys
      → All (λ y. clash x' y ≡ false) zs
  All-Rows keep x x' [] [] e g h = tt
  All-Rows keep x x' [] (z ∷ zs) e g h = absurd g
  All-Rows keep x x' (y ∷ ys) [] e g h = absurd g
  All-Rows keep x x' (y ∷ ys) (z ∷ zs) e g h =
      (keep x y x' z e g.0 h.0, All-Rows keep x x' ys zs e g.1 h.1)

  pub Pairwise-Rows :
      (keep : MakesNoClash clash E) (xs ys : List A)
      → Rows E xs ys
      → Pairwise clash xs
      → Pairwise clash ys
  Pairwise-Rows keep [] [] g h = tt
  Pairwise-Rows keep [] (y ∷ ys) g h = absurd g
  Pairwise-Rows keep (x ∷ xs) [] g h = absurd g
  Pairwise-Rows keep (x ∷ xs) (y ∷ ys) g h =
      (All-Rows keep x y xs ys g.0 g.1 h.0, Pairwise-Rows keep xs ys g.1 h.1)

-- Every row of a table, before and after a change of it.
module _ {ℓ} {A : Type ℓ} (P : A → Type 0) where
  pub All-update_first :
      (p : A → Bool) (f : A → A) (xs : List A)
      → ((x : A) → P x → P (f x))
      → All P xs
      → All P (update_first p f xs)
  All-update_first p f [] h a = tt
  All-update_first p f (x ∷ xs) h a = elim (Bool-cases (p x)) [
    | inl hit ↦ rw hit (h x a.0, a.1)
    | inr miss ↦ rw miss (a.0, All-update_first p f xs h a.1)
  ]

  -- The change of the row that is found.
  pub All-update_found :
      (p : A → Bool) (f : A → A) (xs : List A) (x : A)
      → find p xs ≡ some x
      → (P x → P (f x))
      → All P xs
      → All P (update_first p f xs)
  All-update_found p f [] x found h a = tt
  All-update_found p f (y ∷ ys) x found h a = elim (Bool-cases (p y)) [
    | inl hit ↦
        let same : y ≡ x = grind (arith, hit, rw hit at found) in
        rw hit (subst (λ z. P (f z)) (sym same) (h (subst P same a.0)), a.1)
    | inr miss ↦ rw miss (a.0, All-update_found p f ys x (rw miss at found) h a.1)
  ]

  pub All-append : (xs ys : List A) → All P xs → All P ys → All P (xs ++ ys)
  All-append [] ys a h = h
  All-append (x ∷ xs) ys a h = (a.0, All-append xs ys a.1 h)

  pub All-filter : (p : A → Bool) (xs : List A) → All P xs → All P (filter p xs)
  All-filter p [] a = tt
  All-filter p (x ∷ xs) a = elim (Bool-cases (p x)) [
    | inl hit ↦ rw hit (a.0, All-filter p xs a.1)
    | inr miss ↦ rw miss (All-filter p xs a.1)
  ]

  pub All-map : (Q : A → Type 0) (xs : List A) → ((x : A) → P x → Q x) → All P xs → All Q xs
  All-map Q [] h a = tt
  All-map Q (x ∷ xs) h a = (h x a.0, All-map Q xs h a.1)

-- A row of the list that passes a test makes some row of the list pass it.
abbrev pub IsSeen : {A : Type 0} → List A → A → Type 0
IsSeen {A} xs x = (p : A → Bool) → p x ≡ true → any p xs ≡ true

pub All-IsSeen : {A : Type 0} (xs : List A) → All (IsSeen xs) xs
All-IsSeen [] = tt
All-IsSeen (x ∷ xs) = (
  λ p h. rw h refl,
  All-map (IsSeen xs) (IsSeen (x ∷ xs)) xs (λ y k p h. grind (arith, k p h)) (All-IsSeen xs),
)

-- What holds of the rows before and of the new ones holds of all rows after.
module _ {A : Type 0} (E : A → A → Type 0) (New P : A → Type 0)
    (kept : (x y : A) → P x → E x y → P y) (fresh : (y : A) → New y → P y) where
  pub Grown-All : (xs ys : List A) → All P xs → Grown E New xs ys → All P ys
  Grown-All [] ys h g = All-map New P ys fresh g
  Grown-All (x ∷ xs) [] h g = absurd g
  Grown-All (x ∷ xs) (y ∷ ys) h g = (kept x y h.0 g.0, Grown-All xs ys h.1 g.1)
