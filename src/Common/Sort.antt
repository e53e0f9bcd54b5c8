-- ===== src/Common/Sort.antt =====
-- `Array.prototype.sort` and `orderBy`: a sort keeps the items and puts them in order.
use native.Mathlib.Nat.{ℕ_set}
use Prim.Native.Nat.{Ordering, suc}
use mathlib.Core.Path.{◌≡◌, refl, ap, ◌∙◌, subst}
use mathlib.Core.Logic.{inl, inr, ∥∥₁_elim, ∥∥₁_prop}
use mathlib.Core.Bool.{Bool, true, false}
use mathlib.Core.List.{List, [], ◌∷◌, Perm, Permᴰ}
use mathlib.Core.List.Perm
use borrow_hub.Common.Tests.{if◌then◌else◌, Bool-cases}
use borrow_hub.Common.Lists.{All, length, filter}
use borrow_hub.Common.Rows.{Pairwise, All-map}

abbrev pub is_after : Ordering → Bool
is_after Ordering.gt = true
is_after _ = false

-- `items.sort(callback)`, which keeps the order of equal items; also `orderBy`.
module _ {A : Type 0} (compare_items : A → A → Ordering) where
  unfoldable pub insert_item : A → List A → List A
  insert_item x [] = x ∷ []
  insert_item x (y ∷ ys) =
      let rest = insert_item x ys in if is_after (compare_items x y) then y ∷ rest else x ∷ y ∷ ys

  unfoldable pub sort_items : List A → List A
  sort_items [] = []
  sort_items (x ∷ xs) = insert_item x (sort_items xs)

module _ {A : Type 0} (compare_items : A → A → Ordering) where
  insert_item-Perm : (x : A) (xs : List A) → Perm (insert_item compare_items x xs) (x ∷ xs)
  unfolding insert_item
  insert_item-Perm x [] = Perm.refl (x ∷ [])
  insert_item-Perm x (y ∷ ys) = elim (Bool-cases (is_after (compare_items x y))) [
    | inl after ↦ rw after (Perm.trans (Perm.cons y (insert_item-Perm x ys)) (Perm.swap x y ys))
    | inr before ↦ rw before (Perm.refl (x ∷ y ∷ ys))
  ]

  pub sort_items-Perm : (xs : List A) → Perm (sort_items compare_items xs) xs
  unfolding sort_items
  sort_items-Perm [] = Perm.refl []
  sort_items-Perm (x ∷ xs) =
      Perm.trans (insert_item-Perm x (sort_items compare_items xs))
        (Perm.cons x (sort_items-Perm xs))

-- What a permutation keeps.
module _ {A : Type 0} where
  length-PermD : {xs ys : List A} → Permᴰ xs ys → length xs ≡ length ys
  length-PermD Permᴰ.nil = refl
  length-PermD (Permᴰ.cons e d) = ap suc (length-PermD d)
  length-PermD (Permᴰ.swap e f) = refl
  length-PermD (Permᴰ.trans d e) = length-PermD d ∙ length-PermD e

  pub length-Perm : {xs ys : List A} → Perm xs ys → length xs ≡ length ys
  length-Perm h = ∥∥₁_elim h (ℕ_set _ _) length-PermD

  filter-swap :
      (p : A → Bool) (a b : A) (xs : List A) → Perm (filter p (a ∷ b ∷ xs)) (filter p (b ∷ a ∷ xs))
  filter-swap p a b xs = elim (Bool-cases (p a)) [
    | inl hit ↦ elim (Bool-cases (p b)) [
      | inl also ↦ rw (hit, also) (Perm.swap b a (filter p xs))
      | inr miss ↦ rw (hit, miss) (Perm.refl (a ∷ filter p xs))
    ]
    | inr miss ↦ rw miss (Perm.refl (filter p (b ∷ xs)))
  ]

  filter-cons :
      (p : A → Bool) (a : A) (xs ys : List A)
      → Perm (filter p xs) (filter p ys)
      → Perm (filter p (a ∷ xs)) (filter p (a ∷ ys))
  filter-cons p a xs ys h = elim (Bool-cases (p a)) [
    | inl hit ↦ rw hit (Perm.cons a h)
    | inr miss ↦ rw miss h
  ]

  filter-PermD : (p : A → Bool) {xs ys : List A} → Permᴰ xs ys → Perm (filter p xs) (filter p ys)
  filter-PermD p Permᴰ.nil = Perm.refl []
  filter-PermD p (Permᴰ.cons {a} {b} {l₁ = l} {l₂ = m} e d) =
      subst (λ (c : A). Perm (filter p (a ∷ l)) (filter p (c ∷ m))) e
        (filter-cons p a l m (filter-PermD p d))
  filter-PermD p (Permᴰ.swap {a} {b} {a'} {b'} {l} e f) =
      subst (λ (c : A). Perm (filter p (a ∷ b ∷ l)) (filter p (a' ∷ c ∷ l))) e
        (subst (λ (c : A). Perm (filter p (a ∷ b ∷ l)) (filter p (c ∷ a ∷ l))) f
          (filter-swap p a b l))
  filter-PermD p (Permᴰ.trans d e) = Perm.trans (filter-PermD p d) (filter-PermD p e)

  pub filter-Perm : (p : A → Bool) {xs ys : List A} → Perm xs ys → Perm (filter p xs) (filter p ys)
  filter-Perm p h = ∥∥₁_elim h ∥∥₁_prop (filter-PermD p)

-- A comparison that orders any two items, and is transitive.
pub record IsOrder {A : Type 0} (compare_items : A → A → Ordering) : Type 0 where
  pub total : (x y : A) → is_after (compare_items x y) ≡ true → is_after (compare_items y x) ≡ false
  pub transitive :
      (x y z : A)
      → is_after (compare_items x y) ≡ false
      → is_after (compare_items y z) ≡ false
      → is_after (compare_items x z) ≡ false

module _ {A : Type 0} (compare_items : A → A → Ordering) (order : IsOrder compare_items) where
  All-insert_item :
      (P : A → Type 0) (x : A) (xs : List A)
      → P x
      → All P xs
      → All P (insert_item compare_items x xs)
  unfolding insert_item
  All-insert_item P x [] h a = (h, tt)
  All-insert_item P x (y ∷ ys) h a = elim (Bool-cases (is_after (compare_items x y))) [
    | inl after ↦ rw after (a.0, All-insert_item P x ys h a.1)
    | inr before ↦ rw before (h, (a.0, a.1))
  ]

  insert_item-Pairwise :
      (x : A) (xs : List A)
      → Pairwise (λ a b. is_after (compare_items a b)) xs
      → Pairwise (λ a b. is_after (compare_items a b)) (insert_item compare_items x xs)
  unfolding insert_item
  insert_item-Pairwise x [] h = (tt, tt)
  insert_item-Pairwise x (y ∷ ys) h = elim (Bool-cases (is_after (compare_items x y))) [
    | inl after ↦ rw after (
        (
          All-insert_item (λ b. is_after (compare_items y b) ≡ false) x ys (order.total x y after)
              h.0,
          insert_item-Pairwise x ys h.1,
        ))
    | inr before ↦ rw before (
        (
          (
            before,
            All-map (λ b. is_after (compare_items y b) ≡ false)
                (λ b. is_after (compare_items x b) ≡ false) ys
                (λ b k. order.transitive x y b before k) h.0,
          ),
          h,
        ))
  ]

  pub sort_items-Pairwise :
      (xs : List A) → Pairwise (λ a b. is_after (compare_items a b)) (sort_items compare_items xs)
  unfolding sort_items
  sort_items-Pairwise [] = tt
  sort_items-Pairwise (x ∷ xs) =
      insert_item-Pairwise x (sort_items compare_items xs) (sort_items-Pairwise xs)
