-- ===== src/Rentals/Results/Intent.antt =====
-- Payment intents: getPaymentIntent, asked again.
use borrow_hub.Common.{
  ℕ, sym, ap, ◌<◌, ◌+◌, leb, ltb, Bool-cases, Bool, true, false, any, filter, ◌==◌, ◌≡◌, refl, some,
  List, [], ◌∷◌, ◌++◌, arith, find_last, inl, inr, Option-cases,
}
use mathlib.Core.Path.{subst}
use borrow_hub.Schema.{
  ConfigKey, AuthenticatedUser, PaymentProvider, Rental, Payment, Database, Env,
}
use borrow_hub.Store.{ok, Result-cases, find_rental}
use borrow_hub.Rentals.Guards.{RentalView, rental_include, numeric_config, can_access}
use borrow_hub.Rentals.Booking.{window_ms}
use borrow_hub.Rentals.Intent.{
  open_intent, is_intent_of, intent_payment, same_provider, is_completed_payment, PaymentIntent,
  payable_intent, get_payment_intent, amount_due, build_payment_code, build_payment_intent,
  get_configured_payment_provider,
}

find_last-append :
    (p : Payment → Bool) (xs : List Payment) (x : Payment)
    → p x ≡ true
    → find_last p (xs ++ x ∷ []) ≡ some x
find_last-append p [] x h = rw h refl
find_last-append p (y ∷ ys) x h = rw (find_last-append p ys x h) refl

same_provider_refl : (p : PaymentProvider) → same_provider p p ≡ true
same_provider_refl PaymentProvider.sandbox = refl
same_provider_refl PaymentProvider.sepay = refl
same_provider_refl PaymentProvider.bank_transfer = refl
same_provider_refl PaymentProvider.qr = refl
same_provider_refl PaymentProvider.e_wallet = refl

is_intent_of-new :
    (env : Env) (v : RentalView) (provider : PaymentProvider) (code : List ℕ)
    → is_intent_of v.id provider (intent_payment env v provider code) ≡ true
is_intent_of-new env v provider code = ground (arith, same_provider_refl provider)

-- Whether a rental was paid, after its intent was opened.
any-filter-append :
    (p q : Payment → Bool) (xs : List Payment) (x : Payment)
    → p x ≡ false
    → any p (filter q (xs ++ x ∷ [])) ≡ any p (filter q xs)
any-filter-append p q [] x h = ground (arith, h)
any-filter-append p q (y ∷ ys) x h = ground (arith, any-filter-append p q ys x h)

module _ (env env' : Env) (r : Rental) (d d' : Database) (provider : PaymentProvider)
    (code : List ℕ) (db : Database) (p : Payment)
    (done : (open_intent env (rental_include d r) provider code db).0 ≡ ok p) where
  abbrev after : Database
  after = (open_intent env (rental_include d r) provider code db).1

  open_intent-kept : after ≡ record db { payments = after.payments }
  unfolding open_intent
  open_intent-kept = elim (Option-cases (find_last (is_intent_of r.id provider) db.payments)) [
    | inl missing ↦ ground (arith, missing, done)
    | inr (q, found) ↦ ground (arith, found, done)
  ]

  open_intent-paid :
      any (λ x. is_completed_payment x.status) (filter (λ x. x.rental_id == r.id) after.payments)
      ≡ any (λ x. is_completed_payment x.status) (filter (λ x. x.rental_id == r.id) db.payments)
  unfolding open_intent
  open_intent-paid = elim (Option-cases (find_last (is_intent_of r.id provider) db.payments)) [
    | inl missing ↦ ground (
      arith,
      missing,
      done,
      any-filter-append (λ x. is_completed_payment x.status) (λ x. x.rental_id == r.id) db.payments
          (intent_payment env (rental_include d r) provider code) refl,
    )
    | inr (q, found) ↦ ground (arith, found, done)
  ]

  open_intent-same : open_intent env' (rental_include d' r) provider code after ≡ (ok p, after)
  unfolding open_intent
  open_intent-same = elim (Option-cases (find_last (is_intent_of r.id provider) db.payments)) [
    | inl missing ↦ ground (
      arith,
      missing,
      done,
      find_last-append (is_intent_of r.id provider) db.payments
          (intent_payment env (rental_include d r) provider code)
          (is_intent_of-new env (rental_include d r) provider code),
    )
    | inr (q, found) ↦ ground (arith, found, done)
  ]

  after-rentals : after.rentals ≡ db.rentals
  after-rentals = ap (λ (x : Database). x.rentals) open_intent-kept

  after-config : after.config ≡ db.config
  after-config = ap (λ (x : Database). x.config) open_intent-kept

-- What a request of a payable rental that was answered leaves, and that it can be made again.
module _ (env : Env) (t : ℕ) (ids : ℕ → ℕ) (r : Rental) (provider : PaymentProvider)
    (base : PaymentIntent) (db : Database) (i : PaymentIntent) (e : ℕ)
    (done : (payable_intent env (rental_include db r) provider base db).0 ≡ ok i)
    (expires : i.expires_at ≡ some e) (early : t < e) where
  abbrev served : Database
  served = (payable_intent env (rental_include db r) provider base db).1

  abbrev IsServedAgain : Database → Type 0
  IsServedAgain x =
      (x.rentals ≡ db.rentals)
      × (amount_due (rental_include x r) ≡ amount_due (rental_include db r))
      × (payable_intent (record env { now = t; new_id = ids }) (rental_include x r) provider base x
          ≡ (ok i, x))

  payable_intent-again : IsServedAgain served
  unfolding payable_intent amount_due
  payable_intent-again =
      let minutes = numeric_config db ConfigKey.payment_window_minutes 30 in
      let code = build_payment_code (env.id_text r.id) in
      elim (Bool-cases (leb (r.updated_at + window_ms minutes) env.now)) [
        | inl late ↦ absurd (ground (arith, late, done))
        | inr early_yet ↦
            elim (Result-cases (open_intent env (rental_include db r) provider code db).0) [
              | inr (x, failed) ↦ absurd (ground (arith, early_yet, failed, done))
              | inl (p, fine) ↦
                  let x = (open_intent env (rental_include db r) provider code db).1 in
                  let env' = record env { now = t; new_id = ids } in
                  let again = open_intent-same env env' r db x provider code db p fine in
                  let paid = open_intent-paid env env' r db x provider code db p fine in
                  let rentals = after-rentals env env' r db x provider code db p fine in
                  let config = after-config env env' r db x provider code db p fine in
                  let still : leb (r.updated_at + window_ms minutes) t ≡ false =
                    ground (arith, early_yet, fine, done, expires, early) in
                  let same : (payable_intent env (rental_include db r) provider base db).1 ≡ x =
                    rw (early_yet, fine) refl in
                  let answer : ok (record base {
                    payment_id = some p.id;
                    payment_code = code;
                    expires_at = some (r.updated_at + window_ms minutes);
                  })
                      ≡ ok i =
                    ground (arith, early_yet, fine, done) in
                  subst IsServedAgain (sym same)
                    (rentals, rw paid refl, rw (config, still, again) (ap (λ y. (y, x)) answer))
            ]
      ]

-- If `getPaymentIntent` answers a payment intent with a time at which it expires, then asked again by
-- the same user before that time, with any new identifiers, it answers the same intent and changes
-- nothing.
pub get_payment_intent-again :
    (env : Env) (t : ℕ) (ids : ℕ → ℕ) (u : AuthenticatedUser) (id : ℕ) (db : Database)
    (i : PaymentIntent) (e : ℕ)
    → (get_payment_intent env u id db).0 ≡ ok i
    → i.expires_at ≡ some e
    → t < e
    → get_payment_intent
        (record env { now = t; new_id = ids })
        u
        id
        (get_payment_intent env u id db).1
      ≡ (ok i, (get_payment_intent env u id db).1)
unfolding get_payment_intent build_payment_intent
get_payment_intent-again env t ids u id db i e done expires early =
    let provider = get_configured_payment_provider env in
    let env' = record env { now = t; new_id = ids } in
    elim (Option-cases (find_rental id db)) [
      | inl missing ↦ absurd (ground (arith, missing, done))
      | inr (r, found) ↦ elim (Bool-cases (can_access r u)) [
        | inr denied ↦ absurd (ground (arith, found, denied, done))
        | inl may ↦ elim (Bool-cases (r.renter_id == u.id)) [
          | inr other ↦ absurd (ground (arith, found, may, other, done))
          | inl renter ↦ elim (Bool-cases (ltb 0 (amount_due (rental_include db r)))) [
            | inr nothing ↦ absurd (ground (arith, found, may, renter, nothing, done, expires))
            | inl due ↦
                let base = record (build_payment_intent (rental_include db r) provider) {
                  is_payable = true;
                } in
                let x = (payable_intent env (rental_include db r) provider base db).1 in
                let answered : (payable_intent env (rental_include db r) provider base db).0
                    ≡ ok i =
                  rw (found, may, renter, due) at done in
                let (rentals, amount, again) =
                  payable_intent-again env t ids r provider base db i e answered expires early in
                let same : (get_payment_intent env u id db).1 ≡ x =
                  rw (found, may, renter, due) refl in
                subst (λ (y : Database). get_payment_intent env' u id y ≡ (ok i, y)) (sym same)
                  (rw (rentals, found, may, renter, amount, due) again)
          ]
        ]
      ]
    ]
