-- ===== src/Disputes/Refinement.antt =====
-- Every request to DisputesService is a run of the machine on every dispute.
use borrow_hub.Common.{
  ℕ, String, false, ◌≡◌, refl, ◌||◌, Option, List, [], ◌∷◌, ◌++◌, ◌==◌, arith, find, any, inl, inr,
  Bool-cases, Option-cases,
}
use borrow_hub.Schema.{
  DisputeStatus, Evidence, Dispute, Rental, Payout, Database, AuthenticatedUser, Env,
}
use borrow_hub.Store.{Result, err, ok, Exception, Result-cases, is_active_dispute_of, find_rental}
use borrow_hub.Rentals.Issues.{load_evidence_for_rental}
use borrow_hub.Rentals.Lifecycle.Handovers.{load_evidence-keeps}
use borrow_hub.Rentals.Guards.{is_owner, is_renter, is_staff}
use borrow_hub.Disputes.Guards.{is_dispute_manager}
use borrow_hub.Disputes.Opening.{
  CreateDisputeDto, create, file_dispute, filed_dispute, record_dispute,
}
use borrow_hub.Disputes.Handling.{
  UpdateDisputeStatusDto, respond, accept_damage_report, assign, update_status,
}
use borrow_hub.Disputes.Access.{accessible_dispute}
use borrow_hub.Disputes.Machine.{DisputesEvolve, DisputesEvolve-refl}
use borrow_hub.Disputes.Writes.{
  decide-DisputesEvolve, accept_report-DisputesEvolve, assign_dispute-DisputesEvolve,
  add_response-DisputesEvolve,
}

pub respond-DisputesEvolve :
    (u : AuthenticatedUser) (id : ℕ) (es : List ℕ) (db : Database)
    → DisputesEvolve db.disputes (respond u id es db).1.disputes
unfolding respond
respond-DisputesEvolve u id es db =
    accessible_dispute (λ x. DisputesEvolve db.disputes x.1.disputes) u id _ db
      (λ e. DisputesEvolve-refl db.disputes)
      (λ d r same found booked may.
        grind (arith, load_evidence-keeps, DisputesEvolve-refl, add_response-DisputesEvolve))

pub accept_damage_report-DisputesEvolve :
    (env : Env) (u : AuthenticatedUser) (id : ℕ) (text : Option String) (db : Database)
    → DisputesEvolve db.disputes (accept_damage_report env u id text db).1.disputes
unfolding accept_damage_report
accept_damage_report-DisputesEvolve env u id text db =
    accessible_dispute (λ x. DisputesEvolve db.disputes x.1.disputes) u id _ db
      (λ e. DisputesEvolve-refl db.disputes)
      (λ d r same found booked may.
        grind (arith, DisputesEvolve-refl, accept_report-DisputesEvolve))

pub assign-DisputesEvolve :
    (u : AuthenticatedUser) (id : ℕ) (to : Option ℕ) (db : Database)
    → DisputesEvolve db.disputes (assign u id to db).1.disputes
unfolding assign
assign-DisputesEvolve u id to db = elim (Bool-cases (is_dispute_manager u)) [
  | inl manager ↦ rw manager (
      accessible_dispute (λ x. DisputesEvolve db.disputes x.1.disputes) u id _ db
        (λ e. DisputesEvolve-refl db.disputes)
        (λ d r same found booked may.
          grind (arith, DisputesEvolve-refl, assign_dispute-DisputesEvolve)))
  | inr other ↦ rw other (DisputesEvolve-refl db.disputes)
]

pub update_status-DisputesEvolve :
    (env : Env) (u : AuthenticatedUser) (id : ℕ) (dto : UpdateDisputeStatusDto) (db : Database)
    → DisputesEvolve db.disputes (update_status env u id dto db).1.disputes
unfolding update_status
update_status-DisputesEvolve env u id dto db = elim (Bool-cases (is_dispute_manager u)) [
  | inl manager ↦ rw manager (
      accessible_dispute (λ x. DisputesEvolve db.disputes x.1.disputes) u id _ db
        (λ e. DisputesEvolve-refl db.disputes)
        (λ d r same found booked may. grind (arith, DisputesEvolve-refl, decide-DisputesEvolve)))
  | inr other ↦ rw other (DisputesEvolve-refl db.disputes)
]

file_dispute_lem :
    (env : Env) (id : ℕ) (payout : Option Payout) (x d : Dispute) (db : Database)
    → (file_dispute env id payout x db).0 ≡ ok d
    → (d ≡ x) × ((file_dispute env id payout x db).1.disputes ≡ db.disputes ++ x ∷ [])
unfolding file_dispute
file_dispute_lem env id payout x d db done = ground arith

module _ (env : Env) (u : AuthenticatedUser) (r : Rental) (payout : Option Payout)
    (dto : CreateDisputeDto) (es : List Evidence) (db : Database) where
  record_dispute-ok :
      (d : Dispute)
      → (record_dispute env u r payout dto es db).0 ≡ ok d
      → ((record_dispute env u r payout dto es db).1.disputes ≡ db.disputes ++ d ∷ [])
        × (d.status ≡ DisputeStatus.opened)
        × (d.rental_id ≡ r.id)
        × (d.opened_by_id ≡ u.id)
  unfolding record_dispute
  record_dispute-ok d done =
      elim (Result-cases (file_dispute env r.id payout (filed_dispute env u r.id dto es) db).0) [
        | inl (x, fine) ↦
            let (same, rows) =
              file_dispute_lem env r.id payout (filed_dispute env u r.id dto es) x db fine in
            grind (arith, fine, same, rows, done)
        | inr (e, failed) ↦ absurd (ground (arith, failed, done))
      ]

  record_dispute-err :
      (e : Exception)
      → (record_dispute env u r payout dto es db).0 ≡ err e
      → (record_dispute env u r payout dto es db).1.disputes ≡ db.disputes
  unfolding record_dispute
  record_dispute-err e failed =
      elim (Result-cases (file_dispute env r.id payout (filed_dispute env u r.id dto es) db).0) [
        | inl (x, fine) ↦ absurd (ground (arith, fine, failed))
        | inr (e, bad) ↦ rw bad refl
      ]

module _ (env : Env) (u : AuthenticatedUser) (dto : CreateDisputeDto) (db : Database)
    (P : Result Dispute × Database → Type 0) where
  -- `create` either fails with the database as it was, or it records a dispute of a rental that has
  -- no active one.
  pub create-cases :
      ((e : Exception) → P (err e, db))
      → ((r : Rental) (es : List Evidence)
          → any (is_active_dispute_of r.id) db.disputes ≡ false
          → P (record_dispute env u r (find (λ p. p.rental_id == r.id) db.payouts) dto es db))
      → P (create env u dto db)
  unfolding create
  create-cases fail go = elim (Option-cases (find_rental dto.rental_id db)) [
    | inl missing ↦ rw missing (fail _)
    | inr (r, found) ↦ elim (Bool-cases (is_owner r u || (is_renter r u || is_staff u))) [
      | inr denied ↦ rw (found, denied) (fail _)
      | inl may ↦ elim (Bool-cases (any (is_active_dispute_of r.id) db.disputes)) [
        | inl taken ↦ rw (found, may, taken) (fail _)
        | inr fresh ↦
            let kept = load_evidence-keeps r.id dto.evidence_ids u.id db in
            elim (Result-cases (load_evidence_for_rental r.id dto.evidence_ids u.id db).0) [
              | inl (es, loaded) ↦ rw (found, may, fresh, loaded, kept) (go r es fresh)
              | inr (e, failed) ↦ rw (found, may, fresh, failed, kept) (fail e)
            ]
      ]
    ]
  ]

module _ (env : Env) (u : AuthenticatedUser) (dto : CreateDisputeDto) (db : Database) where
  -- A request that `create` accepts adds one dispute, which is open and of the user, of a rental that
  -- had no active one.
  pub create-ok :
      (d : Dispute)
      → (create env u dto db).0 ≡ ok d
      → ((create env u dto db).1.disputes ≡ db.disputes ++ d ∷ [])
        × (d.status ≡ DisputeStatus.opened)
        × (d.opened_by_id ≡ u.id)
        × (any (is_active_dispute_of d.rental_id) db.disputes ≡ false)
  create-ok d =
      create-cases env u dto db
        (λ x.
          x.0 ≡ ok d
          → (x.1.disputes ≡ db.disputes ++ d ∷ [])
            × (d.status ≡ DisputeStatus.opened)
            × (d.opened_by_id ≡ u.id)
            × (any (is_active_dispute_of d.rental_id) db.disputes ≡ false))
        (λ e h. cc)
        (λ r es fresh done.
          let payout = find (λ p. p.rental_id == r.id) db.payouts in
          let (rows, status, same, opener) = record_dispute-ok env u r payout dto es db d done in
          (rows, status, opener, rw same fresh))

  -- One that it refuses adds none.
  pub create-err :
      (e : Exception)
      → (create env u dto db).0 ≡ err e
      → (create env u dto db).1.disputes ≡ db.disputes
  create-err e =
      create-cases env u dto db (λ x. x.0 ≡ err e → x.1.disputes ≡ db.disputes) (λ x h. refl)
        (λ r es fresh done.
          record_dispute-err env u r (find (λ p. p.rental_id == r.id) db.payouts) dto es db e done)
