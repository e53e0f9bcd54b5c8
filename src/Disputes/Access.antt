-- ===== src/Disputes/Access.antt =====
-- A handler of DisputesService that begins with `findAccessibleDispute`.
use borrow_hub.Common.{
  ℕ, true, ◌≡◌, sym, some, List, [], ◌∷◌, arith, find, inl, inr, Bool-cases, Option-cases,
}
use mathlib.Core.Path.{subst}
use borrow_hub.Schema.{Dispute, Rental, Database, AuthenticatedUser}
use borrow_hub.Store.{Result, err, Exception, Action, ◌>>=◌, find_rental}
use borrow_hub.Disputes.Guards.{
  DisputeView, dispute_include, has_dispute_id, can_access_dispute, find_accessible_dispute,
}

dispute-id :
    (id : ℕ) (xs : List Dispute) (d : Dispute) → find (has_dispute_id id) xs ≡ some d → d.id ≡ id
dispute-id id [] d e = cc
dispute-id id (x ∷ xs) d e = ground (arith, dispute-id id xs d)

find_dispute_self :
    (id : ℕ) (xs : List Dispute) (d : Dispute)
    → find (has_dispute_id id) xs ≡ some d
    → find (has_dispute_id d.id) xs ≡ some d
find_dispute_self id xs d e =
    subst (λ (i : ℕ). find (has_dispute_id i) xs ≡ some d) (sym (dispute-id id xs d e)) e

module _ {A : Type 0} (P : Result A × Database → Type 0) where
  -- A handler that begins with `findAccessibleDispute` either fails there or goes on with a dispute
  -- of the table.
  pub accessible_dispute :
      (u : AuthenticatedUser) (id : ℕ) (f : DisputeView → Action A) (db : Database)
      → ((e : Exception) → P (err e, db))
      → ((d : Dispute) (r : Rental)
          → d.id ≡ id
          → find (has_dispute_id d.id) db.disputes ≡ some d
          → find_rental d.rental_id db ≡ some r
          → can_access_dispute d r u ≡ true
          → P (f (dispute_include db d r) db))
      → P ((find_accessible_dispute id u >>= f) db)
  unfolding find_accessible_dispute
  accessible_dispute u id f db fail h = elim (Option-cases (find (has_dispute_id id) db.disputes)) [
    | inl missing ↦ rw missing (fail _)
    | inr (d, found) ↦ elim (Option-cases (find_rental d.rental_id db)) [
      | inl missing ↦ rw (found, missing) (fail _)
      | inr (r, booked) ↦ elim (Bool-cases (can_access_dispute d r u)) [
        | inl may ↦
            rw (found, booked, may)
              (h d r (dispute-id id db.disputes d found) (find_dispute_self id db.disputes d found)
                booked may)
        | inr denied ↦ rw (found, booked, denied) (fail _)
      ]
    ]
  ]
