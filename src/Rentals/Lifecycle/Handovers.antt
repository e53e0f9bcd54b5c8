-- ===== src/Rentals/Lifecycle/Handovers.antt =====
-- The requests of Rentals/Handovers.antt and Rentals/Issues.antt follow the diagram.

use borrow_hub.Common.{
  ℕ, String, true, ◌≡◌, refl, Option, some, List, [], ◌∷◌, arith, ◌&&◌, ◌==◌, find, update_where,
}
use borrow_hub.Schema.{
  RentalStatus, HandoverType, Handover, HandoverQrSession, Rental, Database, AuthenticatedUser, Env,
}
use borrow_hub.Store.{has_rental_id}
use borrow_hub.Rentals.Guards.{rental_include}
use borrow_hub.Rentals.Handovers.{
  StartHandoverDto, may_start, may_confirm, status_of_session, open_handover, start_handover,
  claim_and_close, finalize_handover_confirmation, confirm_handover, generate_handover_qr,
  confirm_handover_by_qr, confirm_session, is_live, use_session, is_return_pending,
}
use borrow_hub.Rentals.Issues.{
  UploadRentalEvidenceDto, ReportIssueDto, DisputeOptions, is_out, upload_evidence,
  load_evidence_for_rental, open_dispute, create_rental_dispute, report_issue,
  mark_asset_not_returned,
}
use borrow_hub.Rentals.Lifecycle.Defs.{
  Grows, Grows-refl, Kind, Reaches, Reaches-edge, here, prepare, deliver, complete, dispute_return,
  dispute_overdue,
}
use borrow_hub.Rentals.Lifecycle.Rules.{accessible-Grows, set-Grows, move-Grows, find_self}

start-path :
    (t : HandoverType) (s : RentalStatus)
    → may_start t s ≡ true
    → Reaches Kind.preparing (s) (status_of_session t)
start-path HandoverType.delivery RentalStatus.confirmed h = Reaches-edge Kind.preparing prepare
start-path HandoverType.delivery RentalStatus.ready_for_handover h = here
start-path HandoverType.delivery _ h = cc
start-path HandoverType.return RentalStatus.return_pending h = here
start-path HandoverType.return _ h = cc

open_handover-Grows :
    (env : Env) (u : AuthenticatedUser) (r : Rental) (dto : StartHandoverDto) (db d : Database)
    → find (has_rental_id r.id) db.rentals ≡ some r
    → may_start dto.type r.status ≡ true
    → Grows Kind.preparing db.rentals (open_handover env u (rental_include d r) dto db).1.rentals
unfolding open_handover
open_handover-Grows env u r dto db d found h = ground (
  arith,
  found,
  Grows-refl Kind.preparing db.rentals,
  set-Grows Kind.preparing r.id db.rentals r (status_of_session dto.type) env.now found
      (start-path dto.type r.status h),
)

pub start_handover-Grows :
    (env : Env) (u : AuthenticatedUser) (id : ℕ) (dto : StartHandoverDto) (db : Database)
    → Grows Kind.preparing db.rentals (start_handover env u id dto db).1.rentals
unfolding start_handover
start_handover-Grows env u id dto db =
    accessible-Grows Kind.preparing u id _ db
      (λ r found self may. grind (arith, Grows-refl, open_handover-Grows))

abbrev status_after : HandoverType → RentalStatus
status_after HandoverType.delivery = RentalStatus.ongoing
status_after HandoverType.return = RentalStatus.completed

confirm-path :
    (t : HandoverType) (s : RentalStatus)
    → may_confirm t s ≡ true
    → Reaches Kind.confirming (s) (status_after t)
confirm-path HandoverType.delivery RentalStatus.ready_for_handover h =
    Reaches-edge Kind.confirming deliver
confirm-path HandoverType.delivery _ h = cc
confirm-path HandoverType.return RentalStatus.return_pending h =
    Reaches-edge Kind.confirming complete
confirm-path HandoverType.return _ h = cc

finalize-Grows :
    (env : Env) (u : AuthenticatedUser) (r : Rental) (h : Handover) (notes : Option String)
    (db d : Database)
    → find (has_rental_id r.id) db.rentals ≡ some r
    → Grows Kind.confirming db.rentals
        (finalize_handover_confirmation env (rental_include d r) h u notes db).1.rentals
unfolding finalize_handover_confirmation claim_and_close
finalize-Grows env u r h notes db d found = ground (
  arith,
  found,
  Grows-refl Kind.confirming db.rentals,
  confirm-path h.type r.status,
  set-Grows Kind.confirming r.id db.rentals r (status_after h.type) env.now found,
)

pub confirm_handover-Grows :
    (env : Env) (u : AuthenticatedUser) (id handover_id : ℕ) (notes : Option String) (db : Database)
    → Grows Kind.confirming db.rentals (confirm_handover env u id handover_id notes db).1.rentals
unfolding confirm_handover
confirm_handover-Grows env u id handover_id notes db =
    accessible-Grows Kind.confirming u id _ db
      (λ r found self may. grind (arith, Grows-refl, finalize-Grows))

pub generate_handover_qr-Grows :
    (env : Env) (u : AuthenticatedUser) (id handover_id : ℕ) (db : Database)
    → Grows Kind.still db.rentals (generate_handover_qr env u id handover_id db).1.rentals
unfolding generate_handover_qr
generate_handover_qr-Grows env u id handover_id db =
    accessible-Grows Kind.still u id _ db
      (λ r found self may. ground (arith, Grows-refl Kind.still db.rentals))

confirm_session-Grows :
    (env : Env) (u : AuthenticatedUser) (x : HandoverQrSession) (h : Handover) (r : Rental)
    (notes : Option String) (db : Database)
    → find (has_rental_id r.id) db.rentals ≡ some r
    → Grows Kind.confirming db.rentals
        (confirm_session env u x h (rental_include db r) notes db).1.rentals
unfolding confirm_session
confirm_session-Grows env u x h r notes db found =
    let claimed = record db {
      qr_sessions =
          update_where (λ s. s.id == x.id && is_live env s) (use_session env) db.qr_sessions;
    } in
    ground (
      arith,
      Grows-refl Kind.confirming db.rentals,
      finalize-Grows env u r h notes claimed db found,
    )

pub confirm_handover_by_qr-Grows :
    (env : Env) (u : AuthenticatedUser) (token : String) (notes : Option String) (db : Database)
    → Grows Kind.confirming db.rentals (confirm_handover_by_qr env u token notes db).1.rentals
unfolding confirm_handover_by_qr
confirm_handover_by_qr-Grows env u token notes db =
    grind (arith, Grows-refl, confirm_session-Grows, find_self)

pub upload_evidence-Grows :
    (env : Env) (u : AuthenticatedUser) (id : ℕ) (dto : UploadRentalEvidenceDto) (db : Database)
    → Grows Kind.still db.rentals (upload_evidence env u id dto db).1.rentals
unfolding upload_evidence
upload_evidence-Grows env u id dto db =
    accessible-Grows Kind.still u id _ db
      (λ r found self may. ground (arith, Grows-refl Kind.still db.rentals))

dispute-path : (s : RentalStatus) → is_out s ≡ true → Reaches Kind.disputing s RentalStatus.disputed
dispute-path RentalStatus.return_pending h = Reaches-edge Kind.disputing dispute_return
dispute-path RentalStatus.overdue h = Reaches-edge Kind.disputing dispute_overdue
dispute-path _ h = cc

is_out_of_return_pending : (s : RentalStatus) → is_return_pending s ≡ true → is_out s ≡ true
is_out_of_return_pending s h = ground arith

open_dispute-Grows :
    (env : Env) (u : AuthenticatedUser) (r : Rental) (o : DisputeOptions) (db d : Database)
    → find (has_rental_id r.id) db.rentals ≡ some r
    → is_out r.status ≡ true
    → Grows Kind.disputing db.rentals (open_dispute env u (rental_include d r) o db).1.rentals
unfolding open_dispute
open_dispute-Grows env u r o db d found h = ground (
  arith,
  found,
  Grows-refl Kind.disputing db.rentals,
  move-Grows Kind.disputing r.id db.rentals r RentalStatus.disputed (some o.description) env.now
      found (dispute-path r.status h),
)

create_rental_dispute-Grows :
    (env : Env) (u : AuthenticatedUser) (r : Rental) (o : DisputeOptions) (db d : Database)
    → find (has_rental_id r.id) db.rentals ≡ some r
    → is_out r.status ≡ true
    → Grows Kind.disputing db.rentals
        (create_rental_dispute env u (rental_include d r) o db).1.rentals
unfolding create_rental_dispute
create_rental_dispute-Grows env u r o db d found h =
    ground (arith, Grows-refl Kind.disputing db.rentals, open_dispute-Grows env u r o db d found h)

pub load_evidence-keeps :
    (id : ℕ) (ids : List ℕ) (user_id : ℕ) (db : Database)
    → (load_evidence_for_rental id ids user_id db).1 ≡ db
unfolding load_evidence_for_rental
load_evidence-keeps id [] user_id db = refl
load_evidence-keeps id (i ∷ ids) user_id db = ground arith

pub report_issue-Grows :
    (env : Env) (u : AuthenticatedUser) (id : ℕ) (dto : ReportIssueDto) (db : Database)
    → Grows Kind.disputing db.rentals (report_issue env u id dto db).1.rentals
unfolding report_issue
report_issue-Grows env u id dto db = accessible-Grows Kind.disputing u id _ db (λ r found self may.
    grind (
      arith, load_evidence-keeps, Grows-refl, create_rental_dispute-Grows, is_out_of_return_pending,
    ))

pub mark_asset_not_returned-Grows :
    (env : Env) (u : AuthenticatedUser) (id : ℕ) (text : Option String) (ids : List ℕ)
    (db : Database)
    → Grows Kind.disputing db.rentals (mark_asset_not_returned env u id text ids db).1.rentals
unfolding mark_asset_not_returned
mark_asset_not_returned-Grows env u id text ids db =
    accessible-Grows Kind.disputing u id _ db (λ r found self may.
      grind (arith, load_evidence-keeps, Grows-refl, create_rental_dispute-Grows))
