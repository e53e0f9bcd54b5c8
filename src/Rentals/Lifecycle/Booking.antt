-- ===== src/Rentals/Lifecycle/Booking.antt =====
-- The requests of Rentals/Booking.antt follow the diagram.
use borrow_hub.Common.{
  ℕ, String, true, ◌≡◌, refl, Option, List, arith, find, inl, inr, Option-cases, first_some,
  update_where, update_first,
}
use borrow_hub.Schema.{RentalStatus, Rental, Asset, Database, AuthenticatedUser, Env}
use borrow_hub.Store.{has_rental_id}
use borrow_hub.Rentals.Booking.{
  CreateRentalRequestDto, Pricing, decline, request_return, reserve, approve, book, create,
  is_pending_owner, is_awaiting_payment, is_with_renter, is_lapsed, new_rental, compute_pricing,
  ensure_within_availability,
}
use borrow_hub.Rentals.Lifecycle.Defs.{
  Grows, Grows-refl, Grows-trans, Grows-append, Kind, Reaches, Reaches-edge, turn_down, accept,
  lapse, pay_late, give_back, give_back_late,
}
use borrow_hub.Rentals.Lifecycle.Rules.{
  accessible-Grows, move-Grows, set-Grows, set_where-Grows, find_self,
}

decline-path :
    (s : RentalStatus) → is_pending_owner s ≡ true → Reaches Kind.refusing s RentalStatus.declined
decline-path RentalStatus.pending_owner h = Reaches-edge Kind.refusing turn_down
decline-path _ h = cc

pub decline-Grows :
    (env : Env) (u : AuthenticatedUser) (id : ℕ) (reason : Option String) (db : Database)
    → Grows Kind.refusing db.rentals (decline env u id reason db).1.rentals
unfolding decline
decline-Grows env u id reason db = accessible-Grows Kind.refusing u id _ db (λ r found self may.
    ground (
      arith,
      Grows-refl Kind.refusing db.rentals,
      decline-path r.status,
      move-Grows Kind.refusing id db.rentals r RentalStatus.declined (first_some reason r.message)
          env.now found,
    ))

return-path :
    (s : RentalStatus)
    → is_with_renter s ≡ true
    → Reaches Kind.returning s RentalStatus.return_pending
return-path RentalStatus.ongoing h = Reaches-edge Kind.returning give_back
return-path RentalStatus.overdue h = Reaches-edge Kind.returning give_back_late
return-path _ h = cc

pub request_return-Grows :
    (env : Env) (u : AuthenticatedUser) (id : ℕ) (db : Database)
    → Grows Kind.returning db.rentals (request_return env u id db).1.rentals
unfolding request_return
request_return-Grows env u id db = accessible-Grows Kind.returning u id _ db (λ r found self may.
    ground (
      arith,
      Grows-refl Kind.returning db.rentals,
      return-path r.status,
      set-Grows Kind.returning r.id db.rentals r RentalStatus.return_pending env.now self,
    ))

accept-path :
    (s : RentalStatus)
    → is_pending_owner s ≡ true
    → Reaches Kind.reserving s RentalStatus.awaiting_payment
accept-path RentalStatus.pending_owner h = Reaches-edge Kind.reserving accept
accept-path _ h = cc

pub lapse-path :
    (s : RentalStatus) → is_awaiting_payment s ≡ true → Reaches Kind.paying s RentalStatus.expired
lapse-path RentalStatus.awaiting_payment h = Reaches-edge Kind.paying pay_late
lapse-path _ h = cc

lapse-path_reserving :
    (s : RentalStatus)
    → is_awaiting_payment s ≡ true
    → Reaches Kind.reserving s RentalStatus.expired
lapse-path_reserving RentalStatus.awaiting_payment h = Reaches-edge Kind.reserving lapse
lapse-path_reserving _ h = cc

-- The table after the lapsed bookings of the asset have expired.
abbrev pub lapsed_rentals : Env → (minutes asset_id : ℕ) → List Rental → List Rental
lapsed_rentals env minutes asset_id xs =
    update_where (is_lapsed env minutes asset_id)
      (λ q. record q { status = RentalStatus.expired; updated_at = env.now }) xs

pub lapsed-Grows :
    (k : Kind)
    → (env : Env) (minutes asset_id : ℕ) (xs : List Rental)
    → ((s : RentalStatus) → is_awaiting_payment s ≡ true → Reaches k s RentalStatus.expired)
    → Grows k xs (lapsed_rentals env minutes asset_id xs)
lapsed-Grows k env minutes asset_id xs path =
    set_where-Grows k (is_lapsed env minutes asset_id) xs RentalStatus.expired env.now
      (λ r e. path r.status (ground arith))

pub reserve-Grows :
    (env : Env) (u : AuthenticatedUser) (id asset_id minutes : ℕ) (message : Option String)
    (db : Database)
    → Grows Kind.reserving db.rentals (reserve env u id asset_id minutes message db).1.rentals
unfolding reserve
reserve-Grows env u id asset_id minutes message db =
    let ys = lapsed_rentals env minutes asset_id db.rentals in
    let lapsed = lapsed-Grows Kind.reserving env minutes asset_id db.rentals lapse-path_reserving in
    elim (Option-cases (find (has_rental_id id) ys)) [
      | inl missing ↦ ground (arith, missing, lapsed)
      | inr (r, found) ↦
          let to = RentalStatus.awaiting_payment in
          let m = first_some message r.message in
          let zs =
            update_first (has_rental_id r.id)
              (λ q. record q { status = to; message = m; updated_at = env.now }) ys in
          ground (
            arith,
            found,
            lapsed,
            accept-path r.status,
            move-Grows Kind.reserving r.id ys r to m env.now (find_self id ys r found),
            Grows-trans Kind.reserving db.rentals ys zs,
          )
    ]

pub approve-Grows :
    (env : Env) (u : AuthenticatedUser) (id : ℕ) (message : Option String) (db : Database)
    → Grows Kind.reserving db.rentals (approve env u id message db).1.rentals
unfolding approve
approve-Grows env u id message db =
    accessible-Grows Kind.reserving u id _ db
      (λ r found self may. grind (arith, Grows-refl, reserve-Grows))

book-Grows :
    (env : Env) (u : AuthenticatedUser) (dto : CreateRentalRequestDto) (a : Asset) (s e : ℕ)
    (p : Pricing) (db : Database)
    → Grows Kind.still db.rentals (book env u dto a s e p db).1.rentals
unfolding book ensure_within_availability
book-Grows env u dto a s e p db = ground (
  arith,
  Grows-refl Kind.still db.rentals,
  Grows-append Kind.still db.rentals (new_rental env u dto a s e p) refl,
)

pub create-Grows :
    (env : Env) (u : AuthenticatedUser) (dto : CreateRentalRequestDto) (db : Database)
    → Grows Kind.still db.rentals (create env u dto db).1.rentals
unfolding create compute_pricing
create-Grows env u dto db = grind (arith, Grows-refl, book-Grows)
