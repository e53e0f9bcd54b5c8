-- ===== src/Rentals/Lifecycle/Requests.antt =====
-- Every request of Rentals/Requests.antt, and any sequence of them, follows the diagram.
use borrow_hub.Common.{ℕ, zero, suc, Bool, true, false, ◌≡◌, refl, some, List, [], ◌∷◌, get_elem?}
use mathlib.Core.Path.{subst}
use borrow_hub.Schema.{RentalStatus, Rental, Database, AuthenticatedUser, Env}
use borrow_hub.Rentals.Requests.{Request, Call, handle, serve}
use borrow_hub.Rentals.Lifecycle.Defs.{
  Kind, Grows, grown, Grows-rows, Grows-refl, Grows-trans, RowsGrow, Evolves, Reaches, Edge,
  of_kind, here, after, some-eq,
}
use borrow_hub.Rentals.Lifecycle.Booking
use borrow_hub.Rentals.Lifecycle.Payments
use borrow_hub.Rentals.Lifecycle.Closing
use borrow_hub.Rentals.Lifecycle.Handovers

-- The kind of a request: what it may do to the status of a rental.
abbrev pub kind_of : Request → Kind
kind_of (Request.create dto) = Kind.still
kind_of (Request.payment_intent id) = Kind.paying
kind_of (Request.approve id m) = Kind.reserving
kind_of (Request.decline id m) = Kind.refusing
kind_of (Request.cancel id m) = Kind.cancelling
kind_of (Request.record_payment id t) = Kind.paying
kind_of (Request.confirm_demo_payment id) = Kind.paying
kind_of (Request.sign_contract id dto) = Kind.signing
kind_of (Request.start_handover id dto) = Kind.preparing
kind_of (Request.confirm_handover id h n) = Kind.confirming
kind_of (Request.generate_handover_qr id h) = Kind.still
kind_of (Request.confirm_handover_by_qr t n) = Kind.confirming
kind_of (Request.request_return id) = Kind.returning
kind_of (Request.upload_evidence id dto) = Kind.still
kind_of (Request.report_issue id dto) = Kind.disputing
kind_of (Request.mark_asset_not_returned id d e) = Kind.disputing
kind_of (Request.settle_verified_payment p t) = Kind.paying

-- One request moves the table of rentals by the edges of its kind.
pub handle-Grows :
    (env : Env) (u : AuthenticatedUser) (q : Request) (db : Database)
    → Grows (kind_of q) db.rentals (handle env u q db).1.rentals
unfolding handle
handle-Grows env u (Request.create dto) db = Booking.create-Grows env u dto db
handle-Grows env u (Request.payment_intent id) db = Payments.get_payment_intent-Grows env u id db
handle-Grows env u (Request.approve id m) db = Booking.approve-Grows env u id m db
handle-Grows env u (Request.decline id m) db = Booking.decline-Grows env u id m db
handle-Grows env u (Request.cancel id m) db = Closing.cancel-Grows env u id m db
handle-Grows env u (Request.record_payment id t) db = Payments.record_payment-Grows env u id t db
handle-Grows env u (Request.confirm_demo_payment id) db =
    Payments.confirm_demo_payment-Grows env u id db
handle-Grows env u (Request.sign_contract id dto) db = Closing.sign_contract-Grows env u id dto db
handle-Grows env u (Request.start_handover id dto) db =
    Handovers.start_handover-Grows env u id dto db
handle-Grows env u (Request.confirm_handover id h n) db =
    Handovers.confirm_handover-Grows env u id h n db
handle-Grows env u (Request.generate_handover_qr id h) db =
    Handovers.generate_handover_qr-Grows env u id h db
handle-Grows env u (Request.confirm_handover_by_qr t n) db =
    Handovers.confirm_handover_by_qr-Grows env u t n db
handle-Grows env u (Request.request_return id) db = Booking.request_return-Grows env u id db
handle-Grows env u (Request.upload_evidence id dto) db =
    Handovers.upload_evidence-Grows env u id dto db
handle-Grows env u (Request.report_issue id dto) db = Handovers.report_issue-Grows env u id dto db
handle-Grows env u (Request.mark_asset_not_returned id d e) db =
    Handovers.mark_asset_not_returned-Grows env u id d e db
handle-Grows env u (Request.settle_verified_payment p t) db =
    Payments.settle_verified_payment-Grows env p t db

-- One request, successful or not, removes no rental. Each rental keeps its place in the table, its
-- parties, its period, its currency and all its amounts, and its status moves at most along edges of
-- the diagram `Edge` that belong to the kind of the request: only a payment leads out of
-- `awaiting_payment` towards the contract, only a signature to `confirmed`, and so on. A rental that
-- is added comes from `pending_owner` in the same way.
pub handle-RowsGrow :
    (env : Env) (u : AuthenticatedUser) (q : Request) (db : Database)
    → RowsGrow (kind_of q) db.rentals (handle env u q db).1.rentals
handle-RowsGrow env u q db =
    Grows-rows (kind_of q) db.rentals (handle env u q db).1.rentals (handle-Grows env u q db)

-- Rows that move by edges of one kind move by any.
Reaches-weaken : (k : Kind) {s t : RentalStatus} → Reaches k s t → Reaches Kind.whichever s t
Reaches-weaken k here = here
Reaches-weaken k (after e p) = after (of_kind e) (Reaches-weaken k p)

Evolves-weaken : (k : Kind) {r s : Rental} → Evolves k r s → Evolves Kind.whichever r s
Evolves-weaken k p = record {
  same_id = p.same_id;
  same_asset = p.same_asset;
  same_owner = p.same_owner;
  same_renter = p.same_renter;
  same_start = p.same_start;
  same_end = p.same_end;
  same_total = p.same_total;
  same_fee = p.same_fee;
  same_service = p.same_service;
  same_delivery = p.same_delivery;
  same_late = p.same_late;
  same_currency = p.same_currency;
  path = Reaches-weaken k p.path;
}

RowsGrow-weaken :
    (k : Kind) (xs ys : List Rental) → RowsGrow k xs ys → RowsGrow Kind.whichever xs ys
RowsGrow-weaken k [] [] g = tt
RowsGrow-weaken k [] (y ∷ ys) g = (Reaches-weaken k g.0, RowsGrow-weaken k [] ys g.1)
RowsGrow-weaken k (x ∷ xs) [] g = absurd g
RowsGrow-weaken k (x ∷ xs) (y ∷ ys) g = (Evolves-weaken k g.0, RowsGrow-weaken k xs ys g.1)

Grows-weaken : (k : Kind) (xs ys : List Rental) → Grows k xs ys → Grows Kind.whichever xs ys
Grows-weaken k xs ys (grown rows unique) = grown (RowsGrow-weaken k xs ys rows) unique

-- Any sequence of requests.
pub serve-Grows :
    (cs : List Call) (db : Database) → Grows Kind.whichever db.rentals (serve cs db).rentals
unfolding serve
serve-Grows [] db = Grows-refl Kind.whichever db.rentals
serve-Grows (c ∷ cs) db =
    let mid = (handle c.env c.user c.request db).1 in
    Grows-trans Kind.whichever db.rentals mid.rentals (serve cs mid).rentals
      (Grows-weaken (kind_of c.request) db.rentals mid.rentals
        (handle-Grows c.env c.user c.request db))
      (serve-Grows cs mid)

-- The same over any sequence of requests, by any edges.
serve-RowsGrow :
    (cs : List Call) (db : Database) → RowsGrow Kind.whichever db.rentals (serve cs db).rentals
serve-RowsGrow cs db =
    Grows-rows Kind.whichever db.rentals (serve cs db).rentals (serve-Grows cs db)

-- The statuses that no edge leaves.
abbrev pub is_final : RentalStatus → Bool
is_final RentalStatus.completed = true
is_final RentalStatus.declined = true
is_final RentalStatus.cancelled = true
is_final RentalStatus.expired = true
is_final RentalStatus.disputed = true
is_final _ = false

Edge-not_final : (k : Kind) {s t : RentalStatus} → Edge k s t → is_final s ≡ false
Edge-not_final k Edge.accept = refl
Edge-not_final k Edge.pay_late = refl
Edge-not_final k (Edge.of_kind e) = Edge-not_final _ e
Edge-not_final k Edge.turn_down = refl
Edge-not_final k Edge.lapse = refl
Edge-not_final k Edge.pay = refl
Edge-not_final k Edge.sign = refl
Edge-not_final k Edge.prepare = refl
Edge-not_final k Edge.deliver = refl
Edge-not_final k Edge.give_back = refl
Edge-not_final k Edge.give_back_late = refl
Edge-not_final k Edge.complete = refl
Edge-not_final k Edge.dispute_return = refl
Edge-not_final k Edge.dispute_overdue = refl
Edge-not_final k Edge.cancel_request = refl
Edge-not_final k Edge.cancel_unpaid = refl
Edge-not_final k Edge.cancel_unsigned = refl
Edge-not_final k Edge.cancel_confirmed = refl
Edge-not_final k Edge.cancel_ready = refl

Reaches-final : (k : Kind) {s t : RentalStatus} → Reaches k s t → is_final s ≡ true → t ≡ s
Reaches-final k here h = refl
Reaches-final k (after e p) h = cc (Edge-not_final k e)

RowsGrow-get_elem? :
    (k : Kind) (xs ys : List Rental) (i : ℕ) (r : Rental)
    → RowsGrow k xs ys
    → get_elem? xs i ≡ some r
    → (s : Rental) × (get_elem? ys i ≡ some s) × Evolves k r s
RowsGrow-get_elem? k [] ys i r g e = cc
RowsGrow-get_elem? k (x ∷ xs) [] i r g e = absurd g
RowsGrow-get_elem? k (x ∷ xs) (y ∷ ys) zero r g e =
    (y, refl, subst (λ (q : Rental). Evolves k q y) (some-eq e) g.0)
RowsGrow-get_elem? k (x ∷ xs) (y ∷ ys) (suc i) r g e = RowsGrow-get_elem? k xs ys i r g.1 e

-- A rental that is completed, declined, cancelled, expired or disputed stays so, whatever requests
-- to RentalsService follow.
pub serve-final :
    (cs : List Call) (db : Database) (i : ℕ) (r : Rental)
    → get_elem? db.rentals i ≡ some r
    → is_final r.status ≡ true
    → (s : Rental) × (get_elem? (serve cs db).rentals i ≡ some s)
      × (s.id ≡ r.id)
      × (s.status ≡ r.status)
serve-final cs db i r e h =
    let (s, at, p) =
      RowsGrow-get_elem? Kind.whichever db.rentals (serve cs db).rentals i r (serve-RowsGrow cs db)
        e in
    (s, at, p.same_id, Reaches-final Kind.whichever p.path h)
