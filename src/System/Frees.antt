-- ===== src/System/Frees.antt =====
-- Changes of the table of rentals that reserve nothing: what the services beside RentalsService do.
use borrow_hub.Common.{
  ℕ, Bool, true, false, ◌≡◌, refl, List, [], ◌∷◌, arith, update_first, update_where,
}
use mathlib.Core.Path.{ap₂}
use borrow_hub.Common.Rows.{Rows, Rows-refl, Rows-update_first, Rows-update_where, Pairwise-Rows}
use borrow_hub.Schema.{RentalStatus, Rental, Env}
use borrow_hub.Store.{has_rental_id, touch}
use borrow_hub.Rentals.Booking.{is_reserved, set_status}
use borrow_hub.Rentals.Lifecycle.Defs.{ids}
use borrow_hub.Rentals.DoubleBooking.Calm.{clashes, IsConsistent}

-- The asset and the period are kept, and nothing is reserved that was not.
pub record Frees (r s : Rental) : Type 0 where
  pub same_id : s.id ≡ r.id
  pub same_asset : s.asset_id ≡ r.asset_id
  pub same_start : s.start_at ≡ r.start_at
  pub same_end : s.end_at ≡ r.end_at
  pub reserved : is_reserved s.status ≡ true → is_reserved r.status ≡ true

pub Frees-refl : (r : Rental) → Frees r r
Frees-refl r = record {
  same_id = refl;
  same_asset = refl;
  same_start = refl;
  same_end = refl;
  reserved = λ h. h;
}

abbrev pub RowsFree : List Rental → List Rental → Type 0
RowsFree xs ys = Rows Frees xs ys

pub RowsFree-refl : (xs : List Rental) → RowsFree xs xs
RowsFree-refl xs = Rows-refl Frees Frees-refl xs

-- A rental gets a status that does not reserve its asset.
pub RowsFree-set_status :
    (env : Env) (id : ℕ) (s : RentalStatus) (xs : List Rental)
    → is_reserved s ≡ false
    → RowsFree xs (update_first (has_rental_id id) (touch env (set_status s)) xs)
RowsFree-set_status env id s xs free =
    Rows-update_first Frees Frees-refl (has_rental_id id) (touch env (set_status s)) xs (λ r e.
      record {
        same_id = refl;
        same_asset = refl;
        same_start = refl;
        same_end = refl;
        reserved = λ h. cc;
      })

-- A change of every row that passes a test.
pub RowsFree-update_where :
    (p : Rental → Bool) (f : Rental → Rental) (xs : List Rental)
    → ((r : Rental) → p r ≡ true → Frees r (f r))
    → RowsFree xs (update_where p f xs)
RowsFree-update_where p f xs h = Rows-update_where Frees Frees-refl p f xs h

ids-RowsFree : (xs ys : List Rental) → RowsFree xs ys → ids ys ≡ ids xs
ids-RowsFree [] [] g = refl
ids-RowsFree [] (y ∷ ys) g = absurd g
ids-RowsFree (x ∷ xs) [] g = absurd g
ids-RowsFree (x ∷ xs) (y ∷ ys) g = ap₂ (λ i is. i ∷ is) g.0.same_id (ids-RowsFree xs ys g.1)

clashes-Frees :
    (x y x' y' : Rental) → Frees x x' → Frees y y' → clashes x y ≡ false → clashes x' y' ≡ false
clashes-Frees x y x' y' p q h = ground (
  arith, h, p.reserved, q.reserved, p.same_asset, q.same_asset, p.same_start, p.same_end,
  q.same_start, q.same_end,
)

pub IsConsistent-RowsFree :
    (xs ys : List Rental) → RowsFree xs ys → IsConsistent xs → IsConsistent ys
IsConsistent-RowsFree xs ys g h = record {
  unique = rw (ids-RowsFree xs ys g) h.unique;
  disjoint = Pairwise-Rows clashes-Frees xs ys g h.disjoint;
}
