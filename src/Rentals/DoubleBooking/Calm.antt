-- ===== src/Rentals/DoubleBooking/Calm.antt =====
-- The invariant against double booking, and the steps that add no reserved rental.
use borrow_hub.Common.{Bool, true, false, ◌≡◌, refl, ◌&&◌, List, [], ◌∷◌, arith, All}
use borrow_hub.Schema.{RentalStatus, Rental}
use borrow_hub.Rentals.Booking.{is_reserved, is_overlapping}
use borrow_hub.Rentals.Lifecycle.Defs.{
  Kind, Grows, Grows-rows, Grows-IsUnique, RowsGrow, Evolves, Reaches, Edge, here, after, ids,
  IsUnique,
}

-- Both reserve one asset, and their periods meet.
abbrev pub clashes : Rental → Rental → Bool
clashes r s = is_reserved r.status && is_overlapping r.asset_id r.start_at r.end_at s

abbrev pub NoDoubleBooking : List Rental → Type 0
NoDoubleBooking [] = Unit
NoDoubleBooking (x ∷ xs) = All (λ y. clashes x y ≡ false) xs × NoDoubleBooking xs

-- The invariant of the table of rentals: the primary key, and no double booking.
pub record IsConsistent (xs : List Rental) : Type 0 where
  pub unique : IsUnique (ids xs)
  pub disjoint : NoDoubleBooking xs

-- The kinds whose requests may give a pending request the period that it asks for.
abbrev pub may_reserve : Kind → Bool
may_reserve Kind.reserving = true
may_reserve Kind.whichever = true
may_reserve _ = false

Edge-calm :
    (k : Kind) {s t : RentalStatus}
    → Edge k s t
    → may_reserve k ≡ false
    → is_reserved t ≡ true
    → is_reserved s ≡ true
Edge-calm k Edge.accept calm h = cc
Edge-calm k (Edge.of_kind e) calm h = cc
Edge-calm k Edge.turn_down calm h = cc
Edge-calm k Edge.lapse calm h = cc
Edge-calm k Edge.pay_late calm h = cc
Edge-calm k Edge.pay calm h = refl
Edge-calm k Edge.sign calm h = refl
Edge-calm k Edge.prepare calm h = refl
Edge-calm k Edge.deliver calm h = refl
Edge-calm k Edge.give_back calm h = refl
Edge-calm k Edge.give_back_late calm h = refl
Edge-calm k Edge.complete calm h = cc
Edge-calm k Edge.dispute_return calm h = cc
Edge-calm k Edge.dispute_overdue calm h = cc
Edge-calm k Edge.cancel_request calm h = cc
Edge-calm k Edge.cancel_unpaid calm h = cc
Edge-calm k Edge.cancel_unsigned calm h = cc
Edge-calm k Edge.cancel_confirmed calm h = cc
Edge-calm k Edge.cancel_ready calm h = cc

module _ (k : Kind) (calm : may_reserve k ≡ false) where
  Reaches-calm : {s t : RentalStatus} → Reaches k s t → is_reserved t ≡ true → is_reserved s ≡ true
  Reaches-calm here h = h
  Reaches-calm (after e p) h = Edge-calm k e calm (Reaches-calm p h)

  -- A calm step makes no clash.
  clashes-calm :
      (x y x' y' : Rental)
      → Evolves k x x'
      → Evolves k y y'
      → clashes x y ≡ false
      → clashes x' y' ≡ false
  clashes-calm x y x' y' p q h = ground (
    arith,
    Reaches-calm p.path,
    Reaches-calm q.path,
    p.same_asset,
    q.same_asset,
    p.same_start,
    p.same_end,
    q.same_start,
    q.same_end,
  )

  -- A row that was added does not reserve.
  clashes-new : (x y : Rental) → Reaches k RentalStatus.pending_owner y.status → clashes x y ≡ false
  clashes-new x y p = ground (arith, Reaches-calm p)

  All-clashes-new :
      (x : Rental) (ys : List Rental)
      → All (λ y. Reaches k RentalStatus.pending_owner y.status) ys
      → All (λ y. clashes x y ≡ false) ys
  All-clashes-new x [] h = tt
  All-clashes-new x (y ∷ ys) h = (clashes-new x y h.0, All-clashes-new x ys h.1)

  All-clashes-calm :
      (x x' : Rental) (ys zs : List Rental)
      → Evolves k x x'
      → RowsGrow k ys zs
      → All (λ y. clashes x y ≡ false) ys
      → All (λ y. clashes x' y ≡ false) zs
  All-clashes-calm x x' [] zs p g h = All-clashes-new x' zs g
  All-clashes-calm x x' (y ∷ ys) [] p g h = absurd g
  All-clashes-calm x x' (y ∷ ys) (z ∷ zs) p g h =
      (clashes-calm x y x' z p g.0 h.0, All-clashes-calm x x' ys zs p g.1 h.1)

  NoDoubleBooking-calm :
      (xs ys : List Rental) → RowsGrow k xs ys → NoDoubleBooking xs → NoDoubleBooking ys
  NoDoubleBooking-calm [] [] g h = tt
  NoDoubleBooking-calm [] (y ∷ ys) g h =
      (All-clashes-new y ys g.1, NoDoubleBooking-calm [] ys g.1 tt)
  NoDoubleBooking-calm (x ∷ xs) [] g h = absurd g
  NoDoubleBooking-calm (x ∷ xs) (y ∷ ys) g h =
      (All-clashes-calm x y xs ys g.0 g.1 h.0, NoDoubleBooking-calm xs ys g.1 h.1)

  pub IsConsistent-calm : (xs ys : List Rental) → Grows k xs ys → IsConsistent xs → IsConsistent ys
  IsConsistent-calm xs ys g h = record {
    unique = Grows-IsUnique k xs ys g h.unique;
    disjoint = NoDoubleBooking-calm xs ys (Grows-rows k xs ys g) h.disjoint;
  }
