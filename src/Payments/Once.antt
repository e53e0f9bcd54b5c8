-- ===== src/Payments/Once.antt =====
-- A transfer that the bank delivers again.
use borrow_hub.Common.{
  ◌⊎◌, ℕ, true, false, ◌≡◌, refl, ◌∙◌, some, List, [], ◌∷◌, ==_refl, arith, any, find, update_first,
  inl, inr, Bool-cases, Option-cases,
}
use borrow_hub.Schema.{TransactionId, ConfigKey, Payment, Rental, Database, Env}
use borrow_hub.Store.{Result-cases, ok, find_rental, find_payment, has_payment_id}
use borrow_hub.Rentals.Settlement.{settle_verified_payment, settle_new, settled_payment, is_success}
use borrow_hub.Rentals.Guards.{numeric_config}
use borrow_hub.Rentals.Booking.{round_percent}
use borrow_hub.Rentals.Once.{settle_again, settle-unfolds, settle_new_lem}
use borrow_hub.Rentals.Lifecycle.Rules.{find_self}
use borrow_hub.Payments.Code.{extract_payment_code}
use borrow_hub.Payments.Results.{handle_sepay_webhook-settled}
use borrow_hub.Payments.Webhook.{
  SepayConfig, SepayWebhookDto, SepayWebhook, WebhookAnswer, is_recorded, is_transfer,
  is_verified_webhook, same_text, find_intent, is_sepay, is_exact, apply_transfer, handle_transfer,
  handle_sepay_webhook,
}

any-has :
    (id : ℕ) (xs : List Payment) (p : Payment)
    → find (has_payment_id id) xs ≡ some p
    → any (has_payment_id p.id) xs ≡ true
any-has id [] p found = cc
any-has id (x ∷ xs) p found = ground (arith, found, ==_refl p.id, any-has id xs p)

any-settled :
    (env : Env) (id transfer_id : ℕ) (xs : List Payment)
    → any (has_payment_id id) xs ≡ true
    → any
        (λ q. is_transfer transfer_id q.provider_transaction_id)
        (update_first
          (has_payment_id id)
          (settled_payment env (TransactionId.sepay transfer_id))
          xs)
      ≡ true
any-settled env id t [] there = cc
any-settled env id t (x ∷ xs) there = ground (arith, there, ==_refl t, any-settled env id t xs)

-- A settlement under the id of a transfer records it, unless the payment was settled already.
settle_verified-cases :
    (env : Env) (id transfer_id : ℕ) (db : Database) (r : Rental)
    → (settle_verified_payment env id (TransactionId.sepay transfer_id) db).0 ≡ ok r
    → ((later : Env) (t : TransactionId) → (settle_verified_payment later id t db).1 ≡ db)
      ⊎ (is_recorded transfer_id
            (settle_verified_payment env id (TransactionId.sepay transfer_id) db).1
          ≡ true)
unfolding settle_verified_payment
settle_verified-cases env id i db r = elim (Option-cases (find_payment id db)) [
  | inl missing ↦ rw missing (λ h. absurd cc)
  | inr (p, paid) ↦ elim (Option-cases (find_rental p.rental_id db)) [
    | inl missing ↦ rw (paid, missing) (λ h. absurd cc)
    | inr (q, booked) ↦ elim (Bool-cases (is_success p.status)) [
      | inl settled ↦ λ h.
          inl (λ later t.
            rw (paid, booked, settle_again later id t _ db p q paid booked settled) refl)
      | inr fresh ↦
          let t = TransactionId.sepay i in
          let c =
            round_percent q.rental_fee (numeric_config db ConfigKey.owner_commission_percent 10) in
          let same = settle-unfolds env id t c db p q paid booked fresh in
          let self = find_self p.rental_id db.rentals q booked in
          let kept = any-settled env p.id i db.payments (any-has id db.payments p paid) in
          elim (Result-cases (settle_new env t c p q db).0) [
            | inr (e, failed) ↦ rw (paid, booked, same, failed) (λ h. absurd cc)
            | inl ((a, true), done) ↦
                let (answer, payments, rentals) = settle_new_lem env t c p q db a true self done in
                λ h. inr (rw (paid, booked, same, done, payments) kept)
            | inl ((a, false), done) ↦
                let (answer, payments, rentals) = settle_new_lem env t c p q db a false self done in
                λ h. inr (rw (paid, booked, same, done, payments) kept)
          ]
    ]
  ]
]

-- A webhook of a transfer that is recorded changes nothing.
recorded-kept :
    (env : Env) (config : SepayConfig) (w : SepayWebhook) (db : Database)
    → is_recorded w.dto.id db ≡ true
    → (handle_sepay_webhook env config w db).1 ≡ db
unfolding handle_sepay_webhook handle_transfer
recorded-kept env config w db seen = elim (Bool-cases (is_verified_webhook env config w)) [
  | inr unsigned ↦ rw unsigned refl
  | inl signed ↦ elim (Bool-cases w.dto.is_incoming) [
    | inr outgoing ↦ rw (signed, outgoing) refl
    | inl incoming ↦ rw (signed, incoming, seen) refl
  ]
]

-- What an exact transfer does: it settles the payment.
settling :
    (env : Env) (config : SepayConfig) (dto : SepayWebhookDto) (db : Database) (code : List ℕ)
    (p : Payment) (r : Rental)
    → dto.is_incoming ≡ true
    → is_recorded dto.id db ≡ false
    → same_text dto.account_number config.account_number ≡ true
    → extract_payment_code dto.code dto.content ≡ some code
    → find_intent code db ≡ some p
    → is_sepay p.provider ≡ true
    → find_rental p.rental_id db ≡ some r
    → is_exact dto p r ≡ true
    → (handle_transfer env config dto db).1
      ≡ (settle_verified_payment env p.id (TransactionId.sepay dto.id) db).1
unfolding handle_transfer apply_transfer
settling env config dto db code p r incoming new own read found sepay booked exact =
    elim (Result-cases (settle_verified_payment env p.id (TransactionId.sepay dto.id) db).0) [
      | inl (x, done) ↦ rw (incoming, new, own, read, found, sepay, booked, exact, done) refl
      | inr (e, failed) ↦ rw (incoming, new, own, read, found, sepay, booked, exact, failed) refl
    ]

settling-ok :
    (env : Env) (config : SepayConfig) (dto : SepayWebhookDto) (db : Database) (code : List ℕ)
    (p : Payment) (r : Rental)
    → dto.is_incoming ≡ true
    → is_recorded dto.id db ≡ false
    → same_text dto.account_number config.account_number ≡ true
    → extract_payment_code dto.code dto.content ≡ some code
    → find_intent code db ≡ some p
    → is_sepay p.provider ≡ true
    → find_rental p.rental_id db ≡ some r
    → is_exact dto p r ≡ true
    → (handle_transfer env config dto db).0 ≡ ok WebhookAnswer.settled
    → (x : Rental) × ((settle_verified_payment env p.id (TransactionId.sepay dto.id) db).0 ≡ ok x)
unfolding handle_transfer apply_transfer
settling-ok env config dto db code p r incoming new own read found sepay booked exact =
    elim (Result-cases (settle_verified_payment env p.id (TransactionId.sepay dto.id) db).0) [
      | inl (x, done) ↦ λ h. (x, done)
      | inr (e, failed) ↦
          rw (incoming, new, own, read, found, sepay, booked, exact, failed) (λ h. absurd cc)
    ]

-- The webhook with a signature, and without one.
signed-handle :
    (env : Env) (config : SepayConfig) (w : SepayWebhook) (db : Database)
    → is_verified_webhook env config w ≡ true
    → handle_sepay_webhook env config w db ≡ handle_transfer env config w.dto db
unfolding handle_sepay_webhook
signed-handle env config w db signed = rw signed refl

unsigned-handle :
    (env : Env) (config : SepayConfig) (w : SepayWebhook) (db : Database)
    → is_verified_webhook env config w ≡ false
    → (handle_sepay_webhook env config w db).1 ≡ db
unfolding handle_sepay_webhook
unsigned-handle env config w db unsigned = rw unsigned refl

-- The bank may deliver a transfer again, at any time and with any headers: once the webhook has
-- answered that it settled the payment, it changes nothing more.
pub handle_sepay_webhook-once :
    (env later : Env) (config : SepayConfig) (w again : SepayWebhook) (db : Database)
    → again.dto ≡ w.dto
    → (handle_sepay_webhook env config w db).0 ≡ ok WebhookAnswer.settled
    → (handle_sepay_webhook later config again (handle_sepay_webhook env config w db).1).1
      ≡ (handle_sepay_webhook env config w db).1
handle_sepay_webhook-once env later config w again db e done =
    let (signed, incoming, new, own, paid) = handle_sepay_webhook-settled env config w db done in
    let (code, p, r, read, found, sepay, booked, exact) = paid in
    let handled = signed-handle env config w db signed in
    let (x, settled) =
      settling-ok env config w.dto db code p r incoming new own read found sepay booked exact
        (rw handled at done) in
    let same =
      settling env config w.dto db code p r incoming new own read found sepay booked exact in
    elim (settle_verified-cases env p.id w.dto.id db x settled) [
      | inr recorded ↦ rw (handled, same) (recorded-kept later config again _ (rw e recorded))
      | inl unchanged ↦
          rw (handled, same, unchanged env (TransactionId.sepay w.dto.id))
            (elim (Bool-cases (is_verified_webhook later config again)) [
              | inr unsigned ↦ unsigned-handle later config again db unsigned
              | inl verified ↦
                  rw (signed-handle later config again db verified, e)
                    (settling later config w.dto db code p r incoming new own read found sepay
                        booked exact
                      ∙ unchanged later (TransactionId.sepay w.dto.id))
            ])
    ]
