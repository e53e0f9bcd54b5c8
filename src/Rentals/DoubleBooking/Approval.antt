-- ===== src/Rentals/DoubleBooking/Approval.antt =====
-- `approve` keeps the invariant, and so does every sequence of requests.
use borrow_hub.Common.{
  ℕ, Bool, true, false, ◌≡◌, refl, sym, ◌&&◌, ◌==◌, not, Option, some, List, [], ◌∷◌, arith, All,
  find, any, update_first, Bool-cases, Option-cases, inl, inr, includes, first_some,
}
use mathlib.Core.Path.{subst}
use borrow_hub.Common.{String}
use borrow_hub.Schema.{RentalStatus, Rental, Database, AuthenticatedUser, Env}
use borrow_hub.Store.{has_rental_id}
use borrow_hub.Rentals.Booking.{is_overlapping, reserve, approve}
use borrow_hub.Rentals.Requests.{Request, Call, handle, serve}
use borrow_hub.Rentals.Lifecycle.Defs.{Kind, Grows-IsUnique, ids, IsUnique, some-eq}
use borrow_hub.Rentals.Lifecycle.Requests.{kind_of, handle-Grows}
use borrow_hub.Rentals.Lifecycle.Rules.{find_self}
use borrow_hub.Rentals.Lifecycle.Booking.{lapsed_rentals, lapsed-Grows, lapse-path}
use borrow_hub.Rentals.DoubleBooking.Calm.{
  may_reserve, clashes, NoDoubleBooking, IsConsistent, IsConsistent-calm,
}

abbrev promised : (message : Option String) → (now : ℕ) → Rental → Rental
promised message now q = record q {
  status = RentalStatus.awaiting_payment;
  message = message;
  updated_at = now;
}

-- The overlap query of `approve`.
abbrev rival : Rental → Rental → Bool
rival r q = not (q.id == r.id) && is_overlapping r.asset_id r.start_at r.end_at q

-- Behind the row itself no rival means no clash.
clashes-behind :
    (r : Rental) (m : Option String) (t : ℕ) (ys : List Rental)
    → includes (ids ys) r.id ≡ false
    → any (rival r) ys ≡ false
    → All (λ y. clashes (promised m t r) y ≡ false) ys
clashes-behind r m t [] new free = tt
clashes-behind r m t (y ∷ ys) new free = (
  ground (arith, new, free),
  clashes-behind r m t ys (ground (arith, new)) (ground (arith, free)),
)

-- In front of the row, a row that is no rival does not clash with it.
clashes-front :
    (x r : Rental) (m : Option String) (t : ℕ) (ys : List Rental)
    → (x.id == r.id) ≡ false
    → rival r x ≡ false
    → find (has_rental_id r.id) ys ≡ some r
    → All (λ y. clashes x y ≡ false) ys
    → All (λ y. clashes x y ≡ false) (update_first (has_rental_id r.id) (promised m t) ys)
clashes-front x r m t [] ne free found h = tt
clashes-front x r m t (y ∷ ys) ne free found h = elim (Bool-cases (has_rental_id r.id y)) [
  | inl hit ↦
      let same : y ≡ r = some-eq (ground (arith, hit, found)) in
      rw hit
        (subst (λ (q : Rental). clashes x (promised m t q) ≡ false) (sym same) (ground arith), h.1)
  | inr miss ↦ rw miss (h.0, clashes-front x r m t ys ne free (ground (arith, miss, found)) h.1)
]

NoDoubleBooking-promise :
    (r : Rental) (m : Option String) (t : ℕ) (xs : List Rental)
    → IsUnique (ids xs)
    → find (has_rental_id r.id) xs ≡ some r
    → any (rival r) xs ≡ false
    → NoDoubleBooking xs
    → NoDoubleBooking (update_first (has_rental_id r.id) (promised m t) xs)
NoDoubleBooking-promise r m t [] u found free h = tt
NoDoubleBooking-promise r m t (x ∷ xs) u found free h = elim (Bool-cases (has_rental_id r.id x)) [
  | inl hit ↦
      let same : x ≡ r = some-eq (ground (arith, hit, found)) in
      rw hit (
        subst (λ (q : Rental). All (λ y. clashes (promised m t q) y ≡ false) xs) (sym same)
            (clashes-behind r m t xs
              (subst (λ (q : Rental). includes (ids xs) q.id ≡ false) same u.0)
              (ground (arith, free))),
        h.1,
      )
  | inr miss ↦
      let later : find (has_rental_id r.id) xs ≡ some r = ground (arith, miss, found) in
      let rest : any (rival r) xs ≡ false = ground (arith, free) in
      rw miss (
        clashes-front x r m t xs miss (ground (arith, free)) later h.0,
        NoDoubleBooking-promise r m t xs u.1 later rest h.1,
      )
]

reserve-NoDoubleBooking :
    (env : Env) (u : AuthenticatedUser) (id asset_id minutes : ℕ) (message : Option String)
    (db : Database)
    → IsConsistent db.rentals
    → NoDoubleBooking (reserve env u id asset_id minutes message db).1.rentals
unfolding reserve
reserve-NoDoubleBooking env u id asset_id minutes message db h =
    let ys = lapsed_rentals env minutes asset_id db.rentals in
    let c =
      IsConsistent-calm Kind.paying refl db.rentals ys
        (lapsed-Grows Kind.paying env minutes asset_id db.rentals lapse-path) h in
    elim (Option-cases (find (has_rental_id id) ys)) [
      | inl missing ↦ ground (arith, missing, c.disjoint)
      | inr (r, found) ↦ ground (
        arith,
        found,
        c.disjoint,
        find_self id ys r found,
        NoDoubleBooking-promise r (first_some message r.message) env.now ys c.unique
            (find_self id ys r found),
      )
    ]

approve-NoDoubleBooking :
    (env : Env) (u : AuthenticatedUser) (id : ℕ) (message : Option String) (db : Database)
    → IsConsistent db.rentals
    → NoDoubleBooking (approve env u id message db).1.rentals
unfolding approve
approve-NoDoubleBooking env u id message db h =
    elim (Option-cases (find (has_rental_id id) db.rentals)) [
      | inl missing ↦ ground (arith, missing, h.disjoint)
      | inr (r, found) ↦ grind (arith, found, h.disjoint, reserve-NoDoubleBooking)
    ]

approve-IsConsistent :
    (env : Env) (u : AuthenticatedUser) (id : ℕ) (message : Option String) (db : Database)
    → IsConsistent db.rentals
    → IsConsistent (handle env u (Request.approve id message) db).1.rentals
unfolding handle
approve-IsConsistent env u id message db h = record {
  unique =
      Grows-IsUnique Kind.reserving db.rentals (approve env u id message db).1.rentals
        (handle-Grows env u (Request.approve id message) db) h.unique;
  disjoint = approve-NoDoubleBooking env u id message db h;
}

-- Only an approval may reserve.
only_approve-IsConsistent :
    (env : Env) (u : AuthenticatedUser) (q : Request) (db : Database)
    → may_reserve (kind_of q) ≡ true
    → IsConsistent db.rentals
    → IsConsistent (handle env u q db).1.rentals
only_approve-IsConsistent env u (Request.approve id message) db reserving h =
    approve-IsConsistent env u id message db h
only_approve-IsConsistent env u _ db reserving h = cc

-- Every request keeps the table of rentals consistent: no two rows have one id, and no two rentals
-- that reserve one asset have periods that meet.
pub handle-IsConsistent :
    (env : Env) (u : AuthenticatedUser) (q : Request) (db : Database)
    → IsConsistent db.rentals
    → IsConsistent (handle env u q db).1.rentals
handle-IsConsistent env u q db h = elim (Bool-cases (may_reserve (kind_of q))) [
  | inl reserving ↦ only_approve-IsConsistent env u q db reserving h
  | inr calm ↦
      IsConsistent-calm (kind_of q) calm db.rentals (handle env u q db).1.rentals
        (handle-Grows env u q db) h
]

-- No sequence of requests, successful or not, books an asset twice: if no two rentals have one id,
-- and no two that reserve one asset have periods that meet, then so it is after the requests.
pub serve-IsConsistent :
    (cs : List Call) (db : Database) → IsConsistent db.rentals → IsConsistent (serve cs db).rentals
unfolding serve
serve-IsConsistent [] db h = h
serve-IsConsistent (c ∷ cs) db h =
    serve-IsConsistent cs (handle c.env c.user c.request db).1
      (handle-IsConsistent c.env c.user c.request db h)
