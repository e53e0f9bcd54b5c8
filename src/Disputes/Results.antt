-- ===== src/Disputes/Results.antt =====
-- What a decision of a dispute does to the dispute, its rental and its payout.
use borrow_hub.Common.{
  ◌∙◌, ℕ, true, false, ◌≡◌, refl, ◌&&◌, if◌then◌else◌, Option, none, some, List, arith, find, any,
  update_first, inl, inr, Bool-cases,
}
use mathlib.Core.Path.{subst}
use borrow_hub.Schema.{PayoutStatus, Dispute, Rental, Payout, Database, AuthenticatedUser, Env}
use borrow_hub.Store.{ok, Result-cases, find_rental, has_rental_id, has_payout_id, touch}
use borrow_hub.Rentals.Booking.{set_status}
use borrow_hub.Rentals.Cancellation.{set_payout_status}
use borrow_hub.Disputes.Guards.{
  DisputeView, dispute_include, is_terminal, is_allowed, is_dispute_manager, has_dispute_id,
  find_dispute, add_event,
}
use borrow_hub.Disputes.Handling.{
  UpdateDisputeStatusDto, decided, decide, event_of, is_blank, is_blocked_payout,
  is_confirmed_return, rental_status_after, update_status,
}
use borrow_hub.Disputes.Access.{accessible_dispute}
use borrow_hub.Disputes.Machine.{find-add_event, find-updated, any-find}

-- The payouts once the payout of a dispute is released, if it was blocked.
abbrev pub released : Option Payout → List Payout → List Payout
released none xs = xs
released (some p) xs =
    if is_blocked_payout p.status
    then update_first (has_payout_id p.id) (set_payout_status PayoutStatus.pending) xs
    else xs

abbrev pub IsDecided :
    Env → UpdateDisputeStatusDto → DisputeView → (before after : Database) → Dispute → Type 0
IsDecided env dto v before after d =
    let settled = is_terminal dto.status && any is_confirmed_return v.handovers in
    (find_dispute v.id after ≡ some d)
    × (d.status ≡ dto.status)
    × (d.resolved_at ≡ (if is_terminal dto.status then some env.now else none))
    × (after.rentals
        ≡ update_first (has_rental_id v.rental_id)
            (touch env
              (set_status (rental_status_after dto.status (any is_confirmed_return v.handovers))))
            before.rentals)
    × (after.payouts ≡ (if settled then released v.payout before.payouts else before.payouts))

decide_lem :
    (env : Env) (u : AuthenticatedUser) (v : DisputeView) (dto : UpdateDisputeStatusDto)
    (db : Database) (d : Dispute)
    → find (has_dispute_id v.id) db.disputes ≡ some v.dispute
    → (decide env u v dto db).0 ≡ ok d
    → IsDecided env dto v db (decide env u v dto db).1 d
unfolding decide
decide_lem env u v dto db d found done =
    let t = event_of dto.status in
    let x = add_event u.id t v.dispute in
    let xs = update_first (has_dispute_id v.id) (add_event u.id t) db.disputes in
    let still = find-add_event v.id u.id t db.disputes v.dispute found in
    ground (
      arith,
      done,
      any-find v.id db.disputes v.dispute found,
      any-find v.id xs x still,
      find-updated v.id (decided env v.resolution_summary dto) xs x still refl,
    )

-- The dispute that was decided, and its rental, as they were before.
abbrev pub IsDecision :
    Env → (dispute_id : ℕ) → UpdateDisputeStatusDto → (before after : Database) → Dispute → Type 0
IsDecision env dispute_id dto before after d =
    (x : Dispute) × (r : Rental) × (find_dispute dispute_id before ≡ some x)
    × (find_rental x.rental_id before ≡ some r)
    × (is_allowed x.status dto.status ≡ true)
    × ((is_terminal dto.status && is_blank dto.resolution_summary) ≡ false)
    × IsDecided env dto (dispute_include before x r) before after d

-- A decision that is accepted comes from a manager of disputes. It is of the dispute that the
-- database has under its id, whose rental is there too; it is an allowed transition from the status
-- that the dispute has, and comes with a summary if it ends the dispute. The dispute has the new
-- status then; its rental is completed if the dispute is over and a return of the asset was
-- confirmed, and else it is disputed; and in the first case alone the payout of the rental is
-- pending again if it was blocked.
pub update_status_lem :
    (env : Env) (u : AuthenticatedUser) (id : ℕ) (dto : UpdateDisputeStatusDto) (db : Database)
    (d : Dispute)
    → (update_status env u id dto db).0 ≡ ok d
    → (is_dispute_manager u ≡ true) × IsDecision env id dto db (update_status env u id dto db).1 d
unfolding update_status
update_status_lem env u id dto db d = elim (Bool-cases (is_dispute_manager u)) [
  | inl manager ↦ rw manager (λ done. (
    refl,
    accessible_dispute (λ y. y.0 ≡ ok d → IsDecision env id dto db y.1 d) u id _ db
        (λ e h. absurd cc)
        (λ x r same found booked may. elim (Bool-cases (is_allowed x.status dto.status)) [
          | inr forbidden ↦ rw forbidden (λ h. absurd cc)
          | inl allowed ↦
              elim (Bool-cases (is_terminal dto.status && is_blank dto.resolution_summary)) [
                | inl silent ↦ rw (allowed, silent) (λ h. absurd cc)
                | inr told ↦ elim (Result-cases (decide env u (dispute_include db x r) dto db).0) [
                  | inr (e, failed) ↦ rw (allowed, told, failed) (λ h. absurd cc)
                  | inl (y, fine) ↦
                      let decided_so = decide_lem env u (dispute_include db x r) dto db d found in
                      rw (allowed, told, fine)
                        (λ h. (
                          x,
                          r,
                          subst (λ (i : ℕ). find (has_dispute_id i) db.disputes ≡ some x) same
                              found,
                          booked,
                          allowed,
                          refl,
                          decided_so (fine ∙ h),
                        ))
                ]
              ]
        ])
        done,
  ))
  | inr other ↦ rw other (λ h. absurd cc)
]
