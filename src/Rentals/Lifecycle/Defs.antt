-- ===== src/Rentals/Lifecycle/Defs.antt =====
-- The life of a rental: the diagram of its statuses, and how the table of rentals evolves.
use borrow_hub.Common.{
  ℕ, ap, includes, ◌==◌, Bool, true, false, ◌≡◌, refl, ◌∙◌, some, List, [], ◌∷◌, ◌++◌, arith, All,
  find, any, update_where, update_first, Bool-cases, inl, inr,
}
use mathlib.Core.Path.{ap₂}
use borrow_hub.Store.{has_rental_id}
use borrow_hub.Schema.{RentalStatus, Rental}

-- What a request may do to the status of a rental, and `whichever` for a sequence of requests.
pub data Kind : Type 0 where
  still reserving refusing returning paying cancelling signing preparing confirming : Kind
  disputing whichever : Kind

-- The edges of the diagram that RentalsService follows, by the kind of request that follows them.
pub data Edge : Kind → RentalStatus → RentalStatus → Type 0 where
  accept : Edge Kind.reserving RentalStatus.pending_owner RentalStatus.awaiting_payment
  lapse : Edge Kind.reserving RentalStatus.awaiting_payment RentalStatus.expired
  turn_down : Edge Kind.refusing RentalStatus.pending_owner RentalStatus.declined
  pay_late : Edge Kind.paying RentalStatus.awaiting_payment RentalStatus.expired
  pay : Edge Kind.paying RentalStatus.awaiting_payment RentalStatus.awaiting_signature
  sign : Edge Kind.signing RentalStatus.awaiting_signature RentalStatus.confirmed
  prepare : Edge Kind.preparing RentalStatus.confirmed RentalStatus.ready_for_handover
  deliver : Edge Kind.confirming RentalStatus.ready_for_handover RentalStatus.ongoing
  complete : Edge Kind.confirming RentalStatus.return_pending RentalStatus.completed
  give_back : Edge Kind.returning RentalStatus.ongoing RentalStatus.return_pending
  give_back_late : Edge Kind.returning RentalStatus.overdue RentalStatus.return_pending
  dispute_return : Edge Kind.disputing RentalStatus.return_pending RentalStatus.disputed
  dispute_overdue : Edge Kind.disputing RentalStatus.overdue RentalStatus.disputed
  cancel_request : Edge Kind.cancelling RentalStatus.pending_owner RentalStatus.cancelled
  cancel_unpaid : Edge Kind.cancelling RentalStatus.awaiting_payment RentalStatus.cancelled
  cancel_unsigned : Edge Kind.cancelling RentalStatus.awaiting_signature RentalStatus.cancelled
  cancel_confirmed : Edge Kind.cancelling RentalStatus.confirmed RentalStatus.cancelled
  cancel_ready : Edge Kind.cancelling RentalStatus.ready_for_handover RentalStatus.cancelled
  of_kind : {k : Kind} {s t : RentalStatus} → Edge k s t → Edge Kind.whichever s t

pub data Reaches (k : Kind) : RentalStatus → RentalStatus → Type 0 where
  here : {s : RentalStatus} → Reaches k s s
  after : {s t u : RentalStatus} → Edge k s t → Reaches k t u → Reaches k s u

pub Reaches-trans :
    (k : Kind) → {s t u : RentalStatus} → Reaches k s t → Reaches k t u → Reaches k s u
Reaches-trans k here q = q
Reaches-trans k (after e p) q = after e (Reaches-trans k p q)

pub Reaches-edge : (k : Kind) → {s t : RentalStatus} → Edge k s t → Reaches k s t
Reaches-edge k e = after e here

-- The parties, the period and the money of a rental are fixed; its status follows the diagram.
pub record Evolves (k : Kind) (r s : Rental) : Type 0 where
  pub same_id : s.id ≡ r.id
  pub same_asset : s.asset_id ≡ r.asset_id
  pub same_owner : s.owner_id ≡ r.owner_id
  pub same_renter : s.renter_id ≡ r.renter_id
  pub same_start : s.start_at ≡ r.start_at
  pub same_end : s.end_at ≡ r.end_at
  pub same_total : s.total_amount ≡ r.total_amount
  pub same_fee : s.rental_fee ≡ r.rental_fee
  pub same_service : s.service_fee ≡ r.service_fee
  pub same_delivery : s.delivery_fee ≡ r.delivery_fee
  pub same_late : s.late_fee ≡ r.late_fee
  pub same_currency : s.currency ≡ r.currency
  pub path : Reaches k r.status s.status

-- Row by row; rows are only added at the end, and come from a rental request.
abbrev pub RowsGrow : Kind → List Rental → List Rental → Type 0
RowsGrow k [] ys = All (λ r. Reaches k RentalStatus.pending_owner r.status) ys
RowsGrow k (x ∷ xs) [] = ⊥
RowsGrow k (x ∷ xs) (y ∷ ys) = Evolves k x y × RowsGrow k xs ys

abbrev pub ids : List Rental → List ℕ
ids [] = []
ids (x ∷ xs) = x.id ∷ ids xs

abbrev pub IsUnique : List ℕ → Type 0
IsUnique [] = Unit
IsUnique (i ∷ is) = (includes is i ≡ false) × IsUnique is

-- What a step does to the table: the rows grow, and the primary key stays one.
pub data Grows (k : Kind) (xs ys : List Rental) : Type 0 where
  grown : RowsGrow k xs ys → (IsUnique (ids xs) → IsUnique (ids ys)) → Grows k xs ys

pub Grows-rows : (k : Kind) (xs ys : List Rental) → Grows k xs ys → RowsGrow k xs ys
Grows-rows k xs ys (grown rows unique) = rows

pub Grows-IsUnique :
    (k : Kind) (xs ys : List Rental) → Grows k xs ys → IsUnique (ids xs) → IsUnique (ids ys)
Grows-IsUnique k xs ys (grown rows unique) = unique

pub Evolves-refl : (k : Kind) → (r : Rental) → Evolves k r r
Evolves-refl k r = record {
  same_id = refl;
  same_asset = refl;
  same_owner = refl;
  same_renter = refl;
  same_start = refl;
  same_end = refl;
  same_total = refl;
  same_fee = refl;
  same_service = refl;
  same_delivery = refl;
  same_late = refl;
  same_currency = refl;
  path = here;
}

pub Evolves-trans : (k : Kind) → {r s t : Rental} → Evolves k r s → Evolves k s t → Evolves k r t
Evolves-trans k p q = record {
  same_id = q.same_id ∙ p.same_id;
  same_asset = q.same_asset ∙ p.same_asset;
  same_owner = q.same_owner ∙ p.same_owner;
  same_renter = q.same_renter ∙ p.same_renter;
  same_start = q.same_start ∙ p.same_start;
  same_end = q.same_end ∙ p.same_end;
  same_total = q.same_total ∙ p.same_total;
  same_fee = q.same_fee ∙ p.same_fee;
  same_service = q.same_service ∙ p.same_service;
  same_delivery = q.same_delivery ∙ p.same_delivery;
  same_late = q.same_late ∙ p.same_late;
  same_currency = q.same_currency ∙ p.same_currency;
  path = Reaches-trans k p.path q.path;
}

RowsGrow-refl : (k : Kind) (xs : List Rental) → RowsGrow k xs xs
RowsGrow-refl k [] = tt
RowsGrow-refl k (x ∷ xs) = (Evolves-refl k x, RowsGrow-refl k xs)

pub Grows-refl : (k : Kind) (xs : List Rental) → Grows k xs xs
Grows-refl k xs = grown (RowsGrow-refl k xs) (λ u. u)

RowsGrow-All :
    (k : Kind) (ys zs : List Rental)
    → All (λ r. Reaches k RentalStatus.pending_owner r.status) ys
    → RowsGrow k ys zs
    → All (λ r. Reaches k RentalStatus.pending_owner r.status) zs
RowsGrow-All k [] zs h g = g
RowsGrow-All k (y ∷ ys) [] h g = absurd g
RowsGrow-All k (y ∷ ys) (z ∷ zs) h g = (Reaches-trans k h.0 g.0.path, RowsGrow-All k ys zs h.1 g.1)

RowsGrow-trans :
    (k : Kind) (xs ys zs : List Rental) → RowsGrow k xs ys → RowsGrow k ys zs → RowsGrow k xs zs
RowsGrow-trans k [] ys zs g h = RowsGrow-All k ys zs g h
RowsGrow-trans k (x ∷ xs) [] zs g h = absurd g
RowsGrow-trans k (x ∷ xs) (y ∷ ys) [] g h = absurd h
RowsGrow-trans k (x ∷ xs) (y ∷ ys) (z ∷ zs) g h =
    (Evolves-trans k g.0 h.0, RowsGrow-trans k xs ys zs g.1 h.1)

pub Grows-trans :
    (k : Kind) (xs ys zs : List Rental) → Grows k xs ys → Grows k ys zs → Grows k xs zs
Grows-trans k xs ys zs (grown g u) (grown h v) =
    grown (RowsGrow-trans k xs ys zs g h) (λ unique. v (u unique))

RowsGrow-append :
    (k : Kind) (xs : List Rental) (r : Rental)
    → r.status ≡ RentalStatus.pending_owner
    → RowsGrow k xs (xs ++ r ∷ [])
RowsGrow-append k [] r e = (rw e here, tt)
RowsGrow-append k (x ∷ xs) r e = (Evolves-refl k x, RowsGrow-append k xs r e)

includes-append :
    (xs : List Rental) (r : Rental) (i : ℕ)
    → includes (ids xs) i ≡ false
    → (r.id == i) ≡ false
    → includes (ids (xs ++ r ∷ [])) i ≡ false
includes-append [] r i h e = ground arith
includes-append (x ∷ xs) r i h e = ground (arith, includes-append xs r i)

IsUnique-append :
    (xs : List Rental) (r : Rental)
    → any (has_rental_id r.id) xs ≡ false
    → IsUnique (ids xs)
    → IsUnique (ids (xs ++ r ∷ []))
IsUnique-append [] r e u = (refl, tt)
IsUnique-append (x ∷ xs) r e u =
    (includes-append xs r x.id u.0 (ground arith), IsUnique-append xs r (ground arith) u.1)

-- A row with a fresh key.
pub Grows-append :
    (k : Kind) (xs : List Rental) (r : Rental)
    → r.status ≡ RentalStatus.pending_owner
    → any (has_rental_id r.id) xs ≡ false
    → Grows k xs (xs ++ r ∷ [])
Grows-append k xs r e fresh = grown (RowsGrow-append k xs r e) (IsUnique-append xs r fresh)

RowsGrow-update_first :
    (k : Kind) (p : Rental → Bool) (f : Rental → Rental) (xs : List Rental)
    → ((r : Rental) → find p xs ≡ some r → Evolves k r (f r))
    → RowsGrow k xs (update_first p f xs)
RowsGrow-update_first k p f [] h = tt
RowsGrow-update_first k p f (x ∷ xs) h = elim (Bool-cases (p x)) [
  | inl hit ↦ rw hit (h x (rw hit), RowsGrow-refl k xs)
  | inr miss ↦ rw miss (Evolves-refl k x, RowsGrow-update_first k p f xs (λ r e. h r (rw miss e)))
]

ids-update_first :
    (k : Kind) (p : Rental → Bool) (f : Rental → Rental) (xs : List Rental)
    → ((r : Rental) → find p xs ≡ some r → Evolves k r (f r))
    → ids (update_first p f xs) ≡ ids xs
ids-update_first k p f [] h = refl
ids-update_first k p f (x ∷ xs) h = elim (Bool-cases (p x)) [
  | inl hit ↦ rw hit (ap (λ i. i ∷ ids xs) (h x (rw hit)).same_id)
  | inr miss ↦ rw miss (ap (λ is. x.id ∷ is) (ids-update_first k p f xs (λ r e. h r (rw miss e))))
]

-- An update of the row that is found.
pub Grows-update_first :
    (k : Kind) (p : Rental → Bool) (f : Rental → Rental) (xs : List Rental)
    → ((r : Rental) → find p xs ≡ some r → Evolves k r (f r))
    → Grows k xs (update_first p f xs)
Grows-update_first k p f xs h =
    grown (RowsGrow-update_first k p f xs h) (λ u. rw (ids-update_first k p f xs h) u)

RowsGrow-update_where :
    (k : Kind) (p : Rental → Bool) (f : Rental → Rental) (xs : List Rental)
    → ((r : Rental) → p r ≡ true → Evolves k r (f r))
    → RowsGrow k xs (update_where p f xs)
RowsGrow-update_where k p f [] h = tt
RowsGrow-update_where k p f (x ∷ xs) h = elim (Bool-cases (p x)) [
  | inl hit ↦ rw hit (h x hit, RowsGrow-update_where k p f xs h)
  | inr miss ↦ rw miss (Evolves-refl k x, RowsGrow-update_where k p f xs h)
]

ids-update_where :
    (k : Kind) (p : Rental → Bool) (f : Rental → Rental) (xs : List Rental)
    → ((r : Rental) → p r ≡ true → Evolves k r (f r))
    → ids (update_where p f xs) ≡ ids xs
ids-update_where k p f [] h = refl
ids-update_where k p f (x ∷ xs) h = elim (Bool-cases (p x)) [
  | inl hit ↦ rw hit (ap₂ (λ i is. i ∷ is) (h x hit).same_id (ids-update_where k p f xs h))
  | inr miss ↦ rw miss (ap (λ is. x.id ∷ is) (ids-update_where k p f xs h))
]

-- An update of every row that passes a test.
pub Grows-update_where :
    (k : Kind) (p : Rental → Bool) (f : Rental → Rental) (xs : List Rental)
    → ((r : Rental) → p r ≡ true → Evolves k r (f r))
    → Grows k xs (update_where p f xs)
Grows-update_where k p f xs h =
    grown (RowsGrow-update_where k p f xs h) (λ u. rw (ids-update_where k p f xs h) u)

pub some-eq : {r s : Rental} → some r ≡ some s → r ≡ s
some-eq e = cc
