-- ===== src/Payments/Results.antt =====
-- What the webhook does with a transfer.

use borrow_hub.Common.{
  ℕ, Bool, true, false, not, ◌&&◌, ◌≡◌, refl, none, some, List, [], ◌∷◌, ◌==◌, arith, any, find,
  update_where, inl, inr, Bool-cases, Option-cases,
}
use borrow_hub.Schema.{Payment, Rental, Database, Env}
use borrow_hub.Store.{ok, find_rental}
use borrow_hub.Payments.Code.{extract_payment_code}
use borrow_hub.Payments.Webhook.{
  SepayConfig, SepayWebhookDto, SepayWebhook, WebhookAnswer, is_verified_webhook, is_recorded,
  is_exact, is_sepay, same_text, find_intent, is_sepay_intent, flagged, is_flaggable,
  flag_payment_for_review, apply_transfer, apply_code, handle_transfer, handle_sepay_webhook,
}

-- The payment and the rental that a transfer pays for in full.
abbrev pub IsPaidInFull : SepayWebhookDto → Database → Type 0
IsPaidInFull dto db =
    (code : List ℕ) × (p : Payment) × (r : Rental) × (extract_payment_code dto.code dto.content
      ≡ some code)
    × (find_intent code db ≡ some p)
    × (is_sepay p.provider ≡ true)
    × (find_rental p.rental_id db ≡ some r)
    × (is_exact dto p r ≡ true)

apply_transfer-settled :
    (env : Env) (dto : SepayWebhookDto) (p : Payment) (db : Database)
    → (apply_transfer env dto p db).0 ≡ ok WebhookAnswer.settled
    → (r : Rental) × (find_rental p.rental_id db ≡ some r) × (is_exact dto p r ≡ true)
unfolding apply_transfer
apply_transfer-settled env dto p db = elim (Option-cases (find_rental p.rental_id db)) [
  | inl missing ↦ rw missing (λ h. absurd cc)
  | inr (r, found) ↦ elim (Bool-cases (is_exact dto p r)) [
    | inl exact ↦ λ h. (r, found, exact)
    | inr off ↦ rw (found, off) (λ h. absurd (ground (arith, h)))
  ]
]

apply_code-settled :
    (env : Env) (dto : SepayWebhookDto) (db : Database)
    → (apply_code env dto (extract_payment_code dto.code dto.content) db).0
      ≡ ok WebhookAnswer.settled
    → IsPaidInFull dto db
apply_code-settled env dto db h = elim (Option-cases (extract_payment_code dto.code dto.content)) [
  | inl missing ↦ absurd (ground (arith, h, missing))
  | inr (code, read) ↦ elim (Option-cases (find_intent code db)) [
    | inl unknown ↦ absurd (ground (arith, h, read, unknown))
    | inr (p, found) ↦ elim (Bool-cases (is_sepay p.provider)) [
      | inr other ↦ absurd (ground (arith, h, read, found, other))
      | inl sepay ↦
          let applied : (apply_transfer env dto p db).0 ≡ ok WebhookAnswer.settled =
            ground (arith, h, read, found, sepay) in
          let (r, booked, exact) = apply_transfer-settled env dto p db applied in
          (code, p, r, read, found, sepay, booked, exact)
    ]
  ]
]

-- The webhook settles a payment only for a transfer that comes with a valid key or signature, is
-- incoming, was not recorded before and went to the configured account, and whose payment code names
-- a SePay payment; and only if its amount is that of the payment and the total of the rental, in VND.
pub handle_sepay_webhook-settled :
    (env : Env) (config : SepayConfig) (w : SepayWebhook) (db : Database)
    → (handle_sepay_webhook env config w db).0 ≡ ok WebhookAnswer.settled
    → (is_verified_webhook env config w ≡ true)
      × (w.dto.is_incoming ≡ true)
      × (is_recorded w.dto.id db ≡ false)
      × (same_text w.dto.account_number config.account_number ≡ true)
      × IsPaidInFull w.dto db
unfolding handle_sepay_webhook handle_transfer
handle_sepay_webhook-settled env config w db h =
    elim (Bool-cases (is_verified_webhook env config w)) [
      | inr unsigned ↦ absurd (ground (arith, h, unsigned))
      | inl signed ↦ elim (Bool-cases w.dto.is_incoming) [
        | inr outgoing ↦ absurd (ground (arith, h, signed, outgoing))
        | inl incoming ↦ elim (Bool-cases (is_recorded w.dto.id db)) [
          | inl seen ↦ absurd (ground (arith, h, signed, incoming, seen))
          | inr new ↦ elim (Bool-cases (same_text w.dto.account_number config.account_number)) [
            | inr foreign ↦ absurd (ground (arith, h, signed, incoming, new, foreign))
            | inl own ↦ (
              signed,
              incoming,
              new,
              own,
              apply_code-settled env w.dto db (ground (arith, h, signed, incoming, new, own)),
            )
          ]
        ]
      ]
    ]

-- No other payment has the intent of a code: `providerTransactionId` is unique.
abbrev pub IsOnlyIntent : (code : List ℕ) → (payment_id : ℕ) → List Payment → Type 0
IsOnlyIntent code payment_id xs =
    any (λ q. not (q.id == payment_id) && is_sepay_intent code q.provider_transaction_id) xs ≡ false

-- The payment with the id, if it is there, is pending or processing.
abbrev pub are_open : (payment_id : ℕ) → List Payment → Bool
are_open payment_id xs = not (any (λ q. q.id == payment_id && not (is_flaggable payment_id q)) xs)

find-flagged :
    (code : List ℕ) (id t : ℕ) (xs : List Payment)
    → are_open id xs ≡ true
    → IsOnlyIntent code id xs
    → find
        (λ p. is_sepay_intent code p.provider_transaction_id)
        (update_where (is_flaggable id) (flagged t) xs)
      ≡ none
find-flagged code id t [] o u = refl
find-flagged code id t (x ∷ xs) o u = ground (arith, o, u, find-flagged code id t xs)

-- Once a payment that is pending or processing, and is the only one with the intent of a code, is
-- flagged for review, that code is unknown: any later transfer with it is ignored and changes
-- nothing.
pub flag_payment_for_review-forgets :
    (env : Env) (code : List ℕ) (payment_id rental_id transfer_id : ℕ) (dto : SepayWebhookDto)
    (db : Database)
    → are_open payment_id db.payments ≡ true
    → IsOnlyIntent code payment_id db.payments
    → apply_code env dto (some code) (flag_payment_for_review payment_id rental_id transfer_id db).1
      ≡ (ok WebhookAnswer.ignored, (flag_payment_for_review payment_id rental_id transfer_id db).1)
unfolding flag_payment_for_review
flag_payment_for_review-forgets env code id rental_id t dto db o u =
    elim (Bool-cases (any (is_flaggable id) db.payments)) [
      | inl open_ ↦ rw (open_, find-flagged code id t db.payments o u) refl
      | inr closed ↦ rw (closed, find-flagged code id t db.payments o u) refl
    ]
