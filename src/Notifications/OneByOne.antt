-- ===== src/Notifications/OneByOne.antt =====
-- The updates of the overdue loop, one by one, are one update of all rows that are due.
use borrow_hub.Common.{
  ℕ, zero, suc, true, ◌⊎◌, ap, Bool, false, ◌≡◌, refl, ◌∙◌, List, [], ◌∷◌, ==_refl, arith, filter,
  includes, update_first, update_where, inl, inr, Bool-cases,
}
use borrow_hub.Common.Rows.{Rows, Rows-refl}
use borrow_hub.Schema.{Rental, Env}
use borrow_hub.Store.{has_rental_id, touch}
use borrow_hub.Assets.Ranking.{take}
use borrow_hub.Rentals.Lifecycle.Defs.{ids, IsUnique}
use borrow_hub.Notifications.Reminders.{calculate_late_fee, is_due, set_overdue}

take-nil : {A : Type 0} (n : ℕ) → take {A = A} n [] ≡ []
take-nil zero = refl
take-nil (suc n) = refl

-- The change that the job makes to one rental.
abbrev pub overdue_at : Env → (date rate : ℕ) → Rental → Rental
overdue_at env date rate r = touch env (set_overdue (calculate_late_fee r.end_at date rate)) r

-- The updates of the loop, without the notifications.
abbrev pub update_each : Env → (date rate : ℕ) → List Rental → List Rental → List Rental
update_each env date rate [] xs = xs
update_each env date rate (r ∷ rs) xs = update_each env date rate rs (
    update_first (has_rental_id r.id)
      (touch env (set_overdue (calculate_late_fee r.end_at date rate))) xs)

module _ (env : Env) (date rate : ℕ) where
  -- An update of other rows does not touch the first one.
  update_each-skip :
      (rs : List Rental) (y : Rental) (ys : List Rental)
      → includes (ids rs) y.id ≡ false
      → update_each env date rate rs (y ∷ ys) ≡ y ∷ update_each env date rate rs ys
  update_each-skip [] y ys h = refl
  update_each-skip (r ∷ rs) y ys h =
      let miss : has_rental_id r.id y ≡ false = ground (arith, h) in
      rw miss (update_each-skip rs y _ (ground (arith, h)))

  includes-filter :
      (p : Rental → Bool) (xs : List Rental) (i : ℕ)
      → includes (ids xs) i ≡ false
      → includes (ids (filter p xs)) i ≡ false
  includes-filter p [] i h = refl
  includes-filter p (x ∷ xs) i h = ground (arith, h, includes-filter p xs i)

  update_first_self :
      (x : Rental) (xs : List Rental)
      → update_first
          (has_rental_id x.id)
          (touch env (set_overdue (calculate_late_fee x.end_at date rate)))
          (x ∷ xs)
        ≡ overdue_at env date rate x ∷ xs
  update_first_self x xs = rw (==_refl x.id) refl

  -- One by one, or all at once.
  pub update_each-filter :
      (xs : List Rental)
      → IsUnique (ids xs)
      → update_each env date rate (filter (is_due date) xs) xs
        ≡ update_where (is_due date) (overdue_at env date rate) xs
  update_each-filter [] u = refl
  update_each-filter (x ∷ xs) u = elim (Bool-cases (is_due date x)) [
    | inl due ↦
        let rest = filter (is_due date) xs in
        let behind : includes (ids rest) x.id ≡ false = includes-filter (is_due date) xs x.id u.0 in
        rw due (
          ap (λ ys. update_each env date rate rest ys) (update_first_self x xs)
          ∙ update_each-skip rest (overdue_at env date rate x) xs behind
          ∙ ap (λ ys. overdue_at env date rate x ∷ ys) (update_each-filter xs u.1))
    | inr miss ↦
        let rest = filter (is_due date) xs in
        let behind : includes (ids rest) x.id ≡ false = includes-filter (is_due date) xs x.id u.0 in
        rw miss (update_each-skip rest x xs behind ∙ ap (λ ys. x ∷ ys) (update_each-filter xs u.1))
  ]

  includes-take :
      (n : ℕ) (rs : List Rental) (i : ℕ)
      → includes (ids rs) i ≡ false
      → includes (ids (take n rs)) i ≡ false
  includes-take zero rs i h = refl
  includes-take (suc n) [] i h = refl
  includes-take (suc n) (r ∷ rs) i h = ground (arith, h, includes-take n rs i)

  -- A rental that is due may become overdue, and every other one is left as it was.
  abbrev pub IsLeftOrOverdue : Rental → Rental → Type 0
  IsLeftOrOverdue x y = (y ≡ x) ⊎ ((is_due date x ≡ true) × (y ≡ overdue_at env date rate x))

  -- The first updates of the loop.
  pub update_each-Rows :
      (n : ℕ) (xs : List Rental)
      → IsUnique (ids xs)
      → Rows IsLeftOrOverdue xs (update_each env date rate (take n (filter (is_due date) xs)) xs)
  update_each-Rows n [] u = rw (take-nil n) tt
  update_each-Rows zero (x ∷ xs) u = Rows-refl IsLeftOrOverdue (λ y. inl refl) (x ∷ xs)
  update_each-Rows (suc n) (x ∷ xs) u =
      let rest = filter (is_due date) xs in
      let behind : includes (ids rest) x.id ≡ false = includes-filter (is_due date) xs x.id u.0 in
      elim (Bool-cases (is_due date x)) [
        | inl due ↦
            rw
              (
                due,
                update_first_self x xs,
                update_each-skip (take n rest) (overdue_at env date rate x) xs
                    (includes-take n rest x.id behind),
              )
              (inr (due, refl), update_each-Rows n xs u.1)
        | inr miss ↦
            rw
              (
                miss,
                update_each-skip (take (suc n) rest) x xs (includes-take (suc n) rest x.id behind),
              )
              (inl refl, update_each-Rows (suc n) xs u.1)
      ]
