-- ===== src/Assets/Sorting.antt =====
-- The comparisons of a search are orders.
use Prim.Native.Nat.{compare, Ordering}
use borrow_hub.Common.{ℕ, true, false, ◌≡◌, Option, none, some, arith}
use borrow_hub.Common.Sort.{is_after, IsOrder}
use borrow_hub.Assets.Query.{AssetSort}
use borrow_hub.Assets.Ranking.{or_then, compare_by, compare_rows, compare_nearest}

-- First by one number, then by another.
abbrev pub by_two : {A : Type 0} → (k c : A → ℕ) → A → A → Ordering
by_two k c x y = or_then (compare (k x) (k y)) (compare (c y) (c x))

abbrev pub by_two_down : {A : Type 0} → (k c : A → ℕ) → A → A → Ordering
by_two_down k c x y = or_then (compare (k y) (k x)) (compare (c y) (c x))

lex_trans :
    (a b c p q r : ℕ)
    → is_after (or_then (compare a b) (compare q p)) ≡ false
    → is_after (or_then (compare b c) (compare r q)) ≡ false
    → is_after (or_then (compare a c) (compare r p)) ≡ false
lex_trans a b c p q r h k = ground (arith, h, k)

lex_total :
    (a b p q : ℕ)
    → is_after (or_then (compare a b) (compare q p)) ≡ true
    → is_after (or_then (compare b a) (compare p q)) ≡ false
lex_total a b p q h = ground (arith, h)

lex_down_trans :
    (a b c p q r : ℕ)
    → is_after (or_then (compare b a) (compare q p)) ≡ false
    → is_after (or_then (compare c b) (compare r q)) ≡ false
    → is_after (or_then (compare c a) (compare r p)) ≡ false
lex_down_trans a b c p q r h k = ground (arith, h, k)

lex_down_total :
    (a b p q : ℕ)
    → is_after (or_then (compare b a) (compare q p)) ≡ true
    → is_after (or_then (compare a b) (compare p q)) ≡ false
lex_down_total a b p q h = ground (arith, h)

newest_total : (p q : ℕ) → is_after (compare q p) ≡ true → is_after (compare p q) ≡ false
newest_total p q h = ground (arith, h)

newest_trans :
    (p q r : ℕ)
    → is_after (compare q p) ≡ false
    → is_after (compare r q) ≡ false
    → is_after (compare r p) ≡ false
newest_trans p q r h k = ground (arith, h, k)

module _ {A : Type 0} (k c : A → ℕ) where
  pub by_two-IsOrder : IsOrder (by_two k c)
  by_two-IsOrder = record {
    total = λ x y. lex_total (k x) (k y) (c x) (c y);
    transitive = λ x y z. lex_trans (k x) (k y) (k z) (c x) (c y) (c z);
  }

  pub by_two_down-IsOrder : IsOrder (by_two_down k c)
  by_two_down-IsOrder = record {
    total = λ x y. lex_down_total (k x) (k y) (c x) (c y);
    transitive = λ x y z. lex_down_trans (k x) (k y) (k z) (c x) (c y) (c z);
  }

module _ {A : Type 0} (c : A → ℕ) where
  pub newest-IsOrder : IsOrder (λ x y. compare (c y) (c x))
  newest-IsOrder = record {
    total = λ x y. newest_total (c x) (c y);
    transitive = λ x y z. newest_trans (c x) (c y) (c z);
  }

compare_nearest-IsOrder : IsOrder compare_nearest
compare_nearest-IsOrder = record {
  total = λ x y h. ground (arith, h);
  transitive = λ x y z h k. ground (arith, h, k);
}

-- The order of the results of a search, for each way to sort them.
pub compare_by-IsOrder : (sort : Option AssetSort) → IsOrder (compare_by sort)
unfolding compare_by
compare_by-IsOrder none = newest-IsOrder (λ x. x.created_at)
compare_by-IsOrder (some AssetSort.newest) = newest-IsOrder (λ x. x.created_at)
compare_by-IsOrder (some AssetSort.lowest_price) =
    by_two-IsOrder (λ x. x.price_per_day) (λ x. x.created_at)
compare_by-IsOrder (some AssetSort.highest_price) =
    by_two_down-IsOrder (λ x. x.price_per_day) (λ x. x.created_at)
compare_by-IsOrder (some AssetSort.highest_rating) =
    by_two_down-IsOrder (λ x. x.owner_average_rating) (λ x. x.created_at)
compare_by-IsOrder (some AssetSort.most_rented) =
    by_two_down-IsOrder (λ x. x.completed_rental_count) (λ x. x.created_at)
compare_by-IsOrder (some AssetSort.nearest) = compare_nearest-IsOrder

-- The database orders the rows in the same way, where it does.
pub compare_rows-IsOrder : (sort : Option AssetSort) → IsOrder (compare_rows sort)
unfolding compare_rows
compare_rows-IsOrder (some AssetSort.lowest_price) =
    by_two-IsOrder (λ a. a.price_per_day) (λ a. a.created_at)
compare_rows-IsOrder (some AssetSort.highest_price) =
    by_two_down-IsOrder (λ a. a.price_per_day) (λ a. a.created_at)
compare_rows-IsOrder (some AssetSort.nearest) = newest-IsOrder (λ a. a.created_at)
compare_rows-IsOrder (some AssetSort.highest_rating) = newest-IsOrder (λ a. a.created_at)
compare_rows-IsOrder (some AssetSort.most_rented) = newest-IsOrder (λ a. a.created_at)
compare_rows-IsOrder (some AssetSort.newest) = newest-IsOrder (λ a. a.created_at)
compare_rows-IsOrder none = newest-IsOrder (λ a. a.created_at)
