-- ===== src/Rentals/Results/Sessions.antt =====
-- Handover sessions by QR code.
use borrow_hub.Common.{
  ℕ, ◌≤◌, String, true, false, ◌≡◌, refl, Option, List, [], ◌∷◌, arith, ◌==◌, ◌&&◌, any,
  update_where,
}
use borrow_hub.Schema.{Rental, Handover, HandoverQrSession, Database, AuthenticatedUser, Env}
use borrow_hub.Store.{ok}
use borrow_hub.Rentals.Access.{is_error}
use borrow_hub.Rentals.Guards.{RentalView}
use borrow_hub.Rentals.Handovers.{
  claim_and_close, finalize_handover_confirmation, confirm_session, is_live, use_session,
}

-- Confirming does not touch the sessions.
finalize-sessions :
    (env : Env) (v : RentalView) (h : Handover) (u : AuthenticatedUser) (notes : Option String)
    (db : Database)
    → (finalize_handover_confirmation env v h u notes db).1.qr_sessions ≡ db.qr_sessions
unfolding finalize_handover_confirmation claim_and_close
finalize-sessions env v h u notes db = ground arith

none_live :
    (env env' : Env) (id : ℕ) (xs : List HandoverQrSession)
    → env.now ≤ env'.now
    → any
        (λ s. s.id == id && is_live env' s)
        (update_where (λ s. s.id == id && is_live env s) (use_session env) xs)
      ≡ false
none_live env env' id [] h = refl
none_live env env' id (x ∷ xs) h = ground (arith, none_live env env' id xs h)

-- The sessions after a confirmation that succeeded.
confirm_session-sessions :
    (env : Env) (u : AuthenticatedUser) (x : HandoverQrSession) (h : Handover) (v : RentalView)
    (notes : Option String) (db : Database) (r : Rental)
    → (confirm_session env u x h v notes db).0 ≡ ok r
    → (confirm_session env u x h v notes db).1.qr_sessions
      ≡ update_where (λ s. s.id == x.id && is_live env s) (use_session env) db.qr_sessions
unfolding confirm_session
confirm_session-sessions env u x h v notes db r done =
    let claimed = record db {
      qr_sessions =
          update_where (λ s. s.id == x.id && is_live env s) (use_session env) db.qr_sessions;
    } in
    ground (arith, finalize-sessions env v h u notes claimed)

-- Without a live session of this id nothing can be confirmed.
confirm_session-none_live :
    (env : Env) (u : AuthenticatedUser) (x : HandoverQrSession) (h : Handover) (v : RentalView)
    (notes : Option String) (db : Database)
    → any (λ s. s.id == x.id && is_live env s) db.qr_sessions ≡ false
    → is_error (confirm_session env u x h v notes db).0 ≡ true
unfolding confirm_session
confirm_session-none_live env u x h v notes db dead = ground (arith, dead)

-- A QR session confirms at most once: right after a confirmation by it that succeeded, a second one
-- fails, also with copies of the session, the handover and the rental that were read before.
pub confirm_session-once :
    (env env' : Env) (u u' : AuthenticatedUser) (x x' : HandoverQrSession) (h h' : Handover)
    (v v' : RentalView) (notes notes' : Option String) (db : Database) (r : Rental)
    → env.now ≤ env'.now
    → x'.id ≡ x.id
    → (confirm_session env u x h v notes db).0 ≡ ok r
    → is_error (confirm_session env' u' x' h' v' notes' (confirm_session env u x h v notes db).1).0
      ≡ true
confirm_session-once env env' u u' x x' h h' v v' notes notes' db r later same done =
    confirm_session-none_live env' u' x' h' v' notes' _ (
      rw (same, confirm_session-sessions env u x h v notes db r done)
        (none_live env env' x.id db.qr_sessions later))
