-- ===== src/Rentals/Lifecycle/Rules.antt =====
-- How the database calls of the handlers change the table of rentals.
use borrow_hub.Common.{
  ℕ, String, Bool, true, ◌≡◌, refl, sym, ◌∙◌, Option, some, List, [], ◌∷◌, arith, find, inl, inr,
  Option-cases, Bool-cases, update_first, update_where,
}
use mathlib.Core.Path.{subst}
use borrow_hub.Schema.{RentalStatus, Rental, Database, AuthenticatedUser}
use borrow_hub.Store.{find_rental, has_rental_id, Action, Result, ok, err, continue, ◌>>=◌}
use borrow_hub.Rentals.Guards.{
  RentalView, rental_include, find_accessible_rental, found_accessible, can_access,
}
use borrow_hub.Rentals.Lifecycle.Defs.{
  Grows, Grows-refl, Grows-trans, Grows-update_first, Grows-update_where, Evolves, Reaches, Kind,
  some-eq,
}

pub find-id :
    (id : ℕ) (xs : List Rental) (r : Rental) → find (has_rental_id id) xs ≡ some r → r.id ≡ id
find-id id [] r e = cc
find-id id (x ∷ xs) r e = elim (Bool-cases (has_rental_id id x)) [
  | inl hit ↦ ground (arith, hit)
  | inr miss ↦ find-id id xs r (ground arith)
]

pub find_self :
    (id : ℕ) (xs : List Rental) (r : Rental)
    → find (has_rental_id id) xs ≡ some r
    → find (has_rental_id r.id) xs ≡ some r
find_self id xs r e =
    subst (λ (i : ℕ). find (has_rental_id i) xs ≡ some r) (sym (find-id id xs r e)) e

-- A row moves along the diagram, perhaps with a new message.
Evolves-move :
    (k : Kind)
    → (r : Rental) (s : RentalStatus) (m : Option String) (t : ℕ) → Reaches k r.status s
    → Evolves k r (record r { status = s; message = m; updated_at = t })
Evolves-move k r s m t p = record {
  same_id = refl;
  same_asset = refl;
  same_owner = refl;
  same_renter = refl;
  same_start = refl;
  same_end = refl;
  same_total = refl;
  same_fee = refl;
  same_service = refl;
  same_delivery = refl;
  same_late = refl;
  same_currency = refl;
  path = p;
}

pub move-Grows :
    (k : Kind)
    → (id : ℕ) (xs : List Rental) (r : Rental) (s : RentalStatus) (m : Option String) (t : ℕ)
    → find (has_rental_id id) xs ≡ some r
    → Reaches k r.status s
    → Grows k xs (
        update_first
          (has_rental_id id)
          (λ q. record q { status = s; message = m; updated_at = t })
          xs)
move-Grows k id xs r s m t e p = Grows-update_first k (has_rental_id id) _ xs (λ q f.
    Evolves-move k q s m t (subst (λ (q : Rental). Reaches k q.status s) (some-eq (sym e ∙ f)) p))

pub set-Grows :
    (k : Kind)
    → (id : ℕ) (xs : List Rental) (r : Rental) (s : RentalStatus) (t : ℕ)
    → find (has_rental_id id) xs ≡ some r
    → Reaches k r.status s
    → Grows k xs (update_first (has_rental_id id) (λ q. record q { status = s; updated_at = t }) xs)
set-Grows k id xs r s t e p = Grows-update_first k (has_rental_id id) _ xs (λ q f.
    Evolves-move k q s q.message t
      (subst (λ (q : Rental). Reaches k q.status s) (some-eq (sym e ∙ f)) p))

-- Every row that passes a test moves along the diagram.
pub set_where-Grows :
    (k : Kind)
    → (p : Rental → Bool) (xs : List Rental) (s : RentalStatus) (t : ℕ)
    → ((r : Rental) → p r ≡ true → Reaches k r.status s)
    → Grows k xs (update_where p (λ q. record q { status = s; updated_at = t }) xs)
set_where-Grows k p xs s t h =
    Grows-update_where k p _ xs (λ r e. Evolves-move k r s r.message t (h r e))

module _ {A : Type 0} where
  -- A handler that begins with `findAccessibleRental` either fails there or goes on with a rental
  -- of the table.
  pub accessible-Grows :
      (k : Kind)
      → (u : AuthenticatedUser) (id : ℕ) (f : RentalView → Action A) (db : Database)
      → ((r : Rental)
          → find_rental id db ≡ some r
          → find_rental r.id db ≡ some r
          → can_access r u ≡ true
          → Grows k db.rentals (f (rental_include db r) db).1.rentals)
      → Grows k db.rentals ((find_accessible_rental id u >>= f) db).1.rentals
  accessible-Grows k u id f db h = elim (Option-cases (find_rental id db)) [
    | inl missing ↦ rw (missing, found_accessible) (Grows-refl k db.rentals)
    | inr (r, found) ↦ elim (Bool-cases (can_access r u)) [
      | inl may ↦
          rw (found, found_accessible) (rw may (h r found (find_self id db.rentals r found) may))
      | inr denied ↦ rw (found, found_accessible) (rw denied (Grows-refl k db.rentals))
    ]
  ]

module _ {A B : Type 0} where
  continue-Grows :
      (k : Kind)
      → (r : Result A) (f : A → Action B) (db : Database) (xs : List Rental) → Grows k xs db.rentals
      → ((a : A) → Grows k db.rentals (f a db).1.rentals)
      → Grows k xs (continue r f db).1.rentals
  continue-Grows k (ok a) f db xs g h = Grows-trans k xs db.rentals _ g (h a)
  continue-Grows k (err e) f db xs g h = g

  -- Two actions in a row.
  pub bind-Grows :
      (k : Kind)
      → (m : Action A) (f : A → Action B) (db : Database) → Grows k db.rentals (m db).1.rentals
      → ((a : A) (d : Database) → Grows k d.rentals (f a d).1.rentals)
      → Grows k db.rentals ((m >>= f) db).1.rentals
  bind-Grows k m f db g h = continue-Grows k (m db).0 f (m db).1 db.rentals g (λ a. h a (m db).1)
