-- ===== src/Finance/Payouts.antt =====
-- FinanceService: updatePayoutStatus.
use borrow_hub.Common.{ℕ, Bool, true, false, not, ◌||◌, ◌&&◌, some, ◌∷◌, [], find, if◌then◌else◌}
use borrow_hub.Schema.{
  RentalStatus, PayoutStatus, NotificationType, Payout, Effect, Reference, AuthenticatedUser, Env,
}
use borrow_hub.Store.{
  Exception, Action, ◌>>=◌, ◌>>◌, pure, gets, require, or_raise, when, emit, find_rental,
  has_payout_id, update_payout,
}
use borrow_hub.Finance.Refunds.{assert_finance_manager}

abbrev pub is_paid : PayoutStatus → Bool
is_paid PayoutStatus.paid = true
is_paid _ = false

abbrev pub is_payable : PayoutStatus → Bool
is_payable PayoutStatus.pending = true
is_payable PayoutStatus.paid = true
is_payable _ = false

abbrev pub is_completed_rental : RentalStatus → Bool
is_completed_rental RentalStatus.completed = true
is_completed_rental _ = false

abbrev pub with_status : Env → PayoutStatus → Payout → Payout
with_status env status p = record p {
  status = status;
  paid_at = if is_paid status then some env.now else p.paid_at;
}

unfoldable pub update_payout_status :
    Env → AuthenticatedUser → (payout_id : ℕ) → PayoutStatus → Action Payout
update_payout_status env u payout_id status = do
  assert_finance_manager u
  found ← gets (λ db. find (has_payout_id payout_id) db.payouts)
  payout ← or_raise found (Exception.not_found "Payout not found")
  found_rental ← gets (find_rental payout.rental_id)
  rental ← or_raise found_rental (Exception.not_found "Payout not found")
  require
      (not (
        is_paid status
        && (not (is_completed_rental rental.status) || not (is_payable payout.status))))
      (Exception.conflict
        "Only a pending payout for a completed rental without an active dispute can be marked as paid")
  update_payout payout.id (with_status env status)
  emit (Effect.audit (some u.id) "finance.payout.status.update" (Reference.payout payout.id))
  when (is_paid status && not (is_paid payout.status)) (
      emit (
        Effect.notify (payout.owner_id ∷ []) NotificationType.payout_completed
          (Reference.payout payout.id)))
  pure (with_status env status payout)
