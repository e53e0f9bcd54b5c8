-- ===== src/Disputes/Machine.antt =====
-- The abstract machine of a dispute, and how a row of the table of disputes may change.
use borrow_hub.Common.{ℕ, true, ◌≡◌, refl, ◌∙◌, some, List, [], ◌∷◌, arith, find, any, update_first}
use mathlib.Core.Path.{subst}
use borrow_hub.Common.Rows.{Rows, Rows-refl, Rows-update_found, Rows-compose}
use borrow_hub.Schema.{DisputeStatus, DisputeEventType, Dispute}
use borrow_hub.Disputes.Guards.{is_terminal, is_allowed, has_dispute_id, add_event}

-- The machine that ALLOWED_DISPUTE_TRANSITIONS describes: its state is the status alone.
pub data Follows : DisputeStatus → DisputeStatus → Type 0 where
  stay : {s : DisputeStatus} → Follows s s
  go : {s t u : DisputeStatus} → is_allowed s t ≡ true → Follows t u → Follows s u

pub Follows-trans : {s t u : DisputeStatus} → Follows s t → Follows t u → Follows s u
Follows-trans stay q = q
Follows-trans (go e p) q = go e (Follows-trans p q)

-- A terminal status is left by no step.
pub Follows-is_terminal : {s t : DisputeStatus} → Follows s t → is_terminal s ≡ true → t ≡ s
Follows-is_terminal stay h = refl
Follows-is_terminal (go {s} {t} e p) h = absurd (ground (arith, e, h))

-- What one request may do to a status: nothing, or one step of the machine.
pub data Moves : DisputeStatus → DisputeStatus → Type 0 where
  stays : {s : DisputeStatus} → Moves s s
  moves : {s t : DisputeStatus} → is_allowed s t ≡ true → Moves s t

pub Moves-Follows : {s t : DisputeStatus} → Moves s t → Follows s t
Moves-Follows stays = stay
Moves-Follows (moves e) = go e stay

-- The rental and the opener of a dispute are fixed; `P` is what may become of its status.
pub record DisputeBecomes (P : DisputeStatus → DisputeStatus → Type 0) (d e : Dispute)
    : Type 0 where
  pub same_id : e.id ≡ d.id
  pub same_rental : e.rental_id ≡ d.rental_id
  pub same_opener : e.opened_by_id ≡ d.opened_by_id
  pub path : P d.status e.status

-- The status is kept; it makes one step at most; it runs the machine.
abbrev pub DisputeKept : Dispute → Dispute → Type 0
DisputeKept = DisputeBecomes (λ s t. t ≡ s)

abbrev pub DisputeEvolves : Dispute → Dispute → Type 0
DisputeEvolves = DisputeBecomes Moves

abbrev pub DisputeRuns : Dispute → Dispute → Type 0
DisputeRuns = DisputeBecomes Follows

DisputeKept-refl : (d : Dispute) → DisputeKept d d
DisputeKept-refl d = record { same_id = refl; same_rental = refl; same_opener = refl; path = refl }

pub DisputeEvolves-refl : (d : Dispute) → DisputeEvolves d d
DisputeEvolves-refl d = record {
  same_id = refl;
  same_rental = refl;
  same_opener = refl;
  path = stays;
}

pub DisputeRuns-refl : (d : Dispute) → DisputeRuns d d
DisputeRuns-refl d = record { same_id = refl; same_rental = refl; same_opener = refl; path = stay }

pub DisputeEvolves-runs : (d e : Dispute) → DisputeEvolves d e → DisputeRuns d e
DisputeEvolves-runs d e p = record {
  same_id = p.same_id;
  same_rental = p.same_rental;
  same_opener = p.same_opener;
  path = Moves-Follows p.path;
}

pub DisputeRuns-trans : (d e f : Dispute) → DisputeRuns d e → DisputeRuns e f → DisputeRuns d f
DisputeRuns-trans d e f p q = record {
  same_id = q.same_id ∙ p.same_id;
  same_rental = q.same_rental ∙ p.same_rental;
  same_opener = q.same_opener ∙ p.same_opener;
  path = Follows-trans p.path q.path;
}

-- A change that keeps the status, and then one that has `P` of it.
module _ (P : DisputeStatus → DisputeStatus → Type 0) where
  DisputeKept-then :
      (d e f : Dispute) → DisputeKept d e → DisputeBecomes P e f → DisputeBecomes P d f
  DisputeKept-then d e f p q = record {
    same_id = q.same_id ∙ p.same_id;
    same_rental = q.same_rental ∙ p.same_rental;
    same_opener = q.same_opener ∙ p.same_opener;
    path = subst (λ (s : DisputeStatus). P s f.status) p.path q.path;
  }

  pub DisputesKept-then :
      (xs ys zs : List Dispute)
      → Rows DisputeKept xs ys
      → Rows (DisputeBecomes P) ys zs
      → Rows (DisputeBecomes P) xs zs
  DisputesKept-then =
      Rows-compose DisputeKept (DisputeBecomes P) (DisputeBecomes P) DisputeKept-then

-- The table of disputes, row by row.
abbrev pub DisputesKept : List Dispute → List Dispute → Type 0
DisputesKept xs ys = Rows DisputeKept xs ys

abbrev pub DisputesEvolve : List Dispute → List Dispute → Type 0
DisputesEvolve xs ys = Rows DisputeEvolves xs ys

pub DisputesKept-refl : (xs : List Dispute) → DisputesKept xs xs
DisputesKept-refl xs = Rows-refl DisputeKept DisputeKept-refl xs

pub DisputesEvolve-refl : (xs : List Dispute) → DisputesEvolve xs xs
DisputesEvolve-refl xs = Rows-refl DisputeEvolves DisputeEvolves-refl xs

module _ (id : ℕ) (f : Dispute → Dispute) (xs : List Dispute) (d : Dispute)
    (found : find (has_dispute_id id) xs ≡ some d) where
  -- An update of the row that is found.
  pub update-DisputesKept :
      DisputeKept d (f d) → DisputesKept xs (update_first (has_dispute_id id) f xs)
  update-DisputesKept =
      Rows-update_found DisputeKept DisputeKept-refl (has_dispute_id id) f xs d found

  pub update-DisputesEvolve :
      DisputeEvolves d (f d) → DisputesEvolve xs (update_first (has_dispute_id id) f xs)
  update-DisputesEvolve =
      Rows-update_found DisputeEvolves DisputeEvolves-refl (has_dispute_id id) f xs d found

pub find-updated :
    (id : ℕ) (f : Dispute → Dispute) (xs : List Dispute) (d : Dispute)
    → find (has_dispute_id id) xs ≡ some d
    → (f d).id ≡ d.id
    → find (has_dispute_id id) (update_first (has_dispute_id id) f xs) ≡ some (f d)
find-updated id f [] d found same = cc
find-updated id f (x ∷ xs) d found same = ground (arith, find-updated id f xs d)

-- A row with an event more.
pub find-add_event :
    (id user_id : ℕ) (t : DisputeEventType) (xs : List Dispute) (d : Dispute)
    → find (has_dispute_id id) xs ≡ some d
    → find (has_dispute_id id) (update_first (has_dispute_id id) (add_event user_id t) xs)
      ≡ some (add_event user_id t d)
find-add_event id user_id t xs d found = find-updated id (add_event user_id t) xs d found refl

pub any-find :
    (id : ℕ) (xs : List Dispute) (d : Dispute)
    → find (has_dispute_id id) xs ≡ some d
    → any (has_dispute_id id) xs ≡ true
any-find id [] d found = cc
any-find id (x ∷ xs) d found = ground (arith, any-find id xs d)
