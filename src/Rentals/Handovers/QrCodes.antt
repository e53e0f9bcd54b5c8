-- ===== src/Rentals/Handovers/QrCodes.antt =====
-- RentalsService: generateHandoverQr, confirmHandoverByQr.
use text.Mathlib.Text.{◌==◌ as str_eq}
use borrow_hub.Common.{
  ℕ, ◌+◌, String, Bool, not, ◌&&◌, Option, none, some, [], ◌∷◌, ◌++◌, ltb, ◌==◌, find, filter,
  is_some,
}
use borrow_hub.Schema.{
  Rental, Handover, HandoverQrSession, Reference, Effect, AuthenticatedUser, Env,
}
use borrow_hub.Store.{
  Exception, Action, pure, raise, gets, or_raise, require, modify, try_catch, emit, ◌>>=◌, ◌>>◌,
  find_rental, update_session, claim_sessions,
}
use borrow_hub.Rentals.Guards.{
  RentalView, rental_include, find_accessible_rental, find_rental_handover, assert_owner,
  assert_renter,
}
use borrow_hub.Rentals.Handovers.Confirmation.{
  is_pending_handover, finalize_handover_confirmation, completion_notice, completion_event,
}

-- A session that can still be used: `usedAt: null, expiresAt: { gt: now }`.
abbrev pub is_live : Env → HandoverQrSession → Bool
is_live env s = not (is_some s.used_at) && ltb env.now s.expires_at

abbrev pub expire_now : Env → HandoverQrSession → HandoverQrSession
expire_now env s = record s { expires_at = env.now }

abbrev pub new_session : Env → AuthenticatedUser → (rental_id handover_id : ℕ) → HandoverQrSession
new_session env u rental_id handover_id = record {
  id = env.new_id 0;
  rental_id = rental_id;
  handover_id = handover_id;
  generated_by_id = u.id;
  token = env.random_text;
  expires_at = env.now + 60000;
  used_at = none;
}

unfoldable pub generate_handover_qr :
    Env → AuthenticatedUser → (rental_id handover_id : ℕ) → Action HandoverQrSession
generate_handover_qr env u rental_id handover_id = do
  rental ← find_accessible_rental rental_id u
  assert_owner rental.owner_id u
  handover ← find_rental_handover rental.id handover_id
  require (is_pending_handover handover.status)
      (Exception.conflict "Handover QR can only be generated for a pending session")
  claim_sessions (λ s. s.handover_id == handover.id && is_live env s) (expire_now env)
  let session = new_session env u rental.id handover.id
  modify (λ db. record db { qr_sessions = db.qr_sessions ++ session ∷ [] })
  emit (Effect.audit (some u.id) "handover.qr.generate" (Reference.qr_session session.id))
  pure session

abbrev pub use_session : Env → HandoverQrSession → HandoverQrSession
use_session env s = record s { used_at = some env.now }

abbrev pub free_session : HandoverQrSession → HandoverQrSession
free_session s = record s { used_at = none }

-- `confirmHandoverByQr` after its lookups: the session is claimed, and freed again if the
-- confirmation fails.
unfoldable pub confirm_session :
    Env
    → AuthenticatedUser
    → HandoverQrSession
    → Handover
    → RentalView
    → Option String
    → Action Rental
confirm_session env u session handover rental notes = do
  require (not (is_some session.used_at)) (Exception.conflict "Handover QR has already been used")
  require (ltb env.now session.expires_at) (Exception.conflict "Handover QR has expired")
  assert_renter rental.renter_id u
  claimed ← claim_sessions (λ s. s.id == session.id && is_live env s) (use_session env)
  require claimed (Exception.conflict "Handover QR is no longer available")
  try_catch (finalize_handover_confirmation env rental handover u notes)
      (λ e. do update_session session.id free_session; raise e)

abbrev pub announce_session :
    AuthenticatedUser → HandoverQrSession → Handover → Rental → Action (Unit {0})
announce_session u session handover r = do
  emit (
      Effect.notify (filter (λ id. not (id == u.id)) (r.owner_id ∷ []))
        (completion_notice handover.type) (Reference.rental r.id))
  emit (Effect.audit (some u.id) "handover.qr.confirm" (Reference.qr_session session.id))
  emit (Effect.track (completion_event handover.type) u.id (Reference.handover handover.id))
  emit (Effect.chat_message r.id u.id)

unfoldable pub confirm_handover_by_qr :
    Env → AuthenticatedUser → (token : String) → Option String → Action Rental
confirm_handover_by_qr env u token notes = do
  found ← gets (λ db. find (λ s. str_eq s.token token) db.qr_sessions)
  session ← or_raise found (Exception.not_found "Handover QR session not found")
  found_handover ← gets (λ db. find (λ h. h.id == session.handover_id) db.handovers)
  handover ← or_raise found_handover (Exception.not_found "Handover QR session not found")
  found_rental ← gets (find_rental session.rental_id)
  r ← or_raise found_rental (Exception.not_found "Handover QR session not found")
  rental ← gets (λ db. rental_include db r)
  updated ← confirm_session env u session handover rental notes
  announce_session u session handover r
  pure updated
