-- ===== src/System/Disputes.antt =====
-- DisputesService reserves nothing: it only gives a rental the status disputed or completed.
use borrow_hub.Common.{
  any, ℕ, String, Bool, false, ◌≡◌, refl, Option, List, [], ◌∷◌, arith, ◌==◌, find, inl, inr,
  Bool-cases,
}
use borrow_hub.Schema.{RentalStatus, Evidence, Dispute, Payout, Database, AuthenticatedUser, Env}
use borrow_hub.Store.{Result, Result-cases}
use borrow_hub.Rentals.Lifecycle.Handovers.{load_evidence-keeps}
use borrow_hub.Rentals.Booking.{is_reserved}
use borrow_hub.Disputes.Guards.{DisputeView, is_dispute_manager}
use borrow_hub.Disputes.Opening.{
  CreateDisputeDto, create, record_dispute, file_dispute, filed_dispute,
}
use borrow_hub.Disputes.Handling.{
  is_confirmed_return, UpdateDisputeStatusDto, attach_if_any, add_response, respond, accept_report,
  accept_damage_report, assign_dispute, assign, decide, update_status, rental_status_after,
}
use borrow_hub.Disputes.Requests.{DisputeRequest, settle_dispute}
use borrow_hub.Disputes.Access.{accessible_dispute}
use borrow_hub.Disputes.Refinement.{create-cases}
use borrow_hub.System.Frees.{RowsFree, RowsFree-refl, RowsFree-set_status}

attach_if_any-rentals :
    (u : AuthenticatedUser) (id : ℕ) (es : List Evidence) (db : Database)
    → (attach_if_any u id es db).1.rentals ≡ db.rentals
unfolding attach_if_any
attach_if_any-rentals u id [] db = refl
attach_if_any-rentals u id (e ∷ es) db = ground arith

add_response-rentals :
    (u : AuthenticatedUser) (d : Dispute) (es : List Evidence) (db : Database)
    → (add_response u d es db).1.rentals ≡ db.rentals
unfolding add_response
add_response-rentals u d es db = grind (arith, attach_if_any-rentals)

assign_dispute-rentals :
    (u : AuthenticatedUser) (d : Dispute) (to : Option ℕ) (db : Database)
    → (assign_dispute u d to db).1.rentals ≡ db.rentals
unfolding assign_dispute
assign_dispute-rentals u d to db = ground arith

file_dispute-RowsFree :
    (env : Env) (id : ℕ) (payout : Option Payout) (d : Dispute) (db : Database)
    → RowsFree db.rentals (file_dispute env id payout d db).1.rentals
unfolding file_dispute
file_dispute-RowsFree env id payout d db = ground (
  arith,
  RowsFree-refl db.rentals,
  RowsFree-set_status env id RentalStatus.disputed db.rentals refl,
)

accept_report-RowsFree :
    (env : Env) (u : AuthenticatedUser) (v : DisputeView) (text : String) (db : Database)
    → RowsFree db.rentals (accept_report env u v text db).1.rentals
unfolding accept_report
accept_report-RowsFree env u v text db = ground (
  arith,
  RowsFree-refl db.rentals,
  RowsFree-set_status env v.rental_id RentalStatus.completed db.rentals refl,
)

decide-RowsFree :
    (env : Env) (u : AuthenticatedUser) (v : DisputeView) (dto : UpdateDisputeStatusDto)
    (db : Database)
    → RowsFree db.rentals (decide env u v dto db).1.rentals
unfolding decide
decide-RowsFree env u v dto db =
    let free : (b : Bool) → is_reserved (rental_status_after dto.status b) ≡ false =
      λ b. ground arith in
    ground (
      arith,
      RowsFree-refl db.rentals,
      RowsFree-set_status env v.rental_id
          (rental_status_after dto.status (any is_confirmed_return v.handovers)) db.rentals
          (free _),
    )

-- The motive of the proofs below.
abbrev FreesRentals : {A : Type 0} → Database → Result A × Database → Type 0
FreesRentals before x = RowsFree before.rentals x.1.rentals

create-RowsFree :
    (env : Env) (u : AuthenticatedUser) (dto : CreateDisputeDto) (db : Database)
    → RowsFree db.rentals (create env u dto db).1.rentals
unfolding record_dispute
create-RowsFree env u dto db =
    create-cases env u dto db (FreesRentals db) (λ e. RowsFree-refl db.rentals)
      (λ r es fresh.
        let payout = find (λ p. p.rental_id == r.id) db.payouts in
        let d = filed_dispute env u r.id dto es in
        let filed = file_dispute-RowsFree env r.id payout d db in
        elim (Result-cases (file_dispute env r.id payout d db).0) [
          | inl (x, fine) ↦ rw fine filed
          | inr (e, failed) ↦ rw failed (RowsFree-refl db.rentals)
        ])

respond-RowsFree :
    (u : AuthenticatedUser) (id : ℕ) (es : List ℕ) (db : Database)
    → RowsFree db.rentals (respond u id es db).1.rentals
unfolding respond
respond-RowsFree u id es db =
    accessible_dispute (FreesRentals db) u id _ db (λ e. RowsFree-refl db.rentals)
      (λ d r same found booked may.
        grind (arith, load_evidence-keeps, RowsFree-refl, add_response-rentals))

accept_damage_report-RowsFree :
    (env : Env) (u : AuthenticatedUser) (id : ℕ) (text : Option String) (db : Database)
    → RowsFree db.rentals (accept_damage_report env u id text db).1.rentals
unfolding accept_damage_report
accept_damage_report-RowsFree env u id text db =
    accessible_dispute (FreesRentals db) u id _ db (λ e. RowsFree-refl db.rentals)
      (λ d r same found booked may. grind (arith, RowsFree-refl, accept_report-RowsFree))

assign-RowsFree :
    (u : AuthenticatedUser) (id : ℕ) (to : Option ℕ) (db : Database)
    → RowsFree db.rentals (assign u id to db).1.rentals
unfolding assign
assign-RowsFree u id to db = elim (Bool-cases (is_dispute_manager u)) [
  | inl manager ↦ rw manager (
      accessible_dispute (FreesRentals db) u id _ db (λ e. RowsFree-refl db.rentals)
        (λ d r same found booked may. grind (arith, RowsFree-refl, assign_dispute-rentals)))
  | inr other ↦ rw other (RowsFree-refl db.rentals)
]

update_status-RowsFree :
    (env : Env) (u : AuthenticatedUser) (id : ℕ) (dto : UpdateDisputeStatusDto) (db : Database)
    → RowsFree db.rentals (update_status env u id dto db).1.rentals
unfolding update_status
update_status-RowsFree env u id dto db = elim (Bool-cases (is_dispute_manager u)) [
  | inl manager ↦ rw manager (
      accessible_dispute (FreesRentals db) u id _ db (λ e. RowsFree-refl db.rentals)
        (λ d r same found booked may. grind (arith, RowsFree-refl, decide-RowsFree)))
  | inr other ↦ rw other (RowsFree-refl db.rentals)
]

pub settle_dispute-RowsFree :
    (env : Env) (u : AuthenticatedUser) (q : DisputeRequest) (db : Database)
    → RowsFree db.rentals (settle_dispute env u q db).rentals
unfolding settle_dispute
settle_dispute-RowsFree env u (DisputeRequest.create dto) db = create-RowsFree env u dto db
settle_dispute-RowsFree env u (DisputeRequest.respond id es) db = respond-RowsFree u id es db
settle_dispute-RowsFree env u (DisputeRequest.accept_damage_report id text) db =
    accept_damage_report-RowsFree env u id text db
settle_dispute-RowsFree env u (DisputeRequest.assign id to) db = assign-RowsFree u id to db
settle_dispute-RowsFree env u (DisputeRequest.update_status id dto) db =
    update_status-RowsFree env u id dto db
