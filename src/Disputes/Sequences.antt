-- ===== src/Disputes/Sequences.antt =====
-- One request to DisputesService, and sequences of them.
use borrow_hub.Common.{
  ℕ, Bool, true, false, ◌≡◌, refl, ◌&&◌, some, List, [], ◌∷◌, arith, any, zero, suc, get_elem?, inl,
  inr, All,
}
use mathlib.Core.Path.{subst}
use borrow_hub.Common.Rows.{
  Rows-refl, Grown, Grown-Rows, Grown-append, Grown-trans, Pairwise, Pairwise-append, Pairwise-Rows,
}
use borrow_hub.Schema.{DisputeStatus, Dispute, Database, AuthenticatedUser, Env}
use borrow_hub.Store.{Result-cases, is_active_status, is_active_dispute_of}
use borrow_hub.Disputes.Guards.{is_terminal}
use borrow_hub.Disputes.Opening.{CreateDisputeDto, create}
use borrow_hub.Disputes.Handling.{respond, accept_damage_report, assign, update_status}
use borrow_hub.Disputes.Requests.{DisputeRequest, DisputeCall, settle_dispute, settle_disputes}
use borrow_hub.Disputes.Machine.{
  Follows, stay, go, Follows-is_terminal, Moves-Follows, DisputeEvolves, DisputeEvolves-refl,
  DisputeRuns, DisputeRuns-refl, DisputeRuns-trans, DisputeEvolves-runs, DisputesEvolve,
  DisputesEvolve-refl,
}
use borrow_hub.Disputes.Refinement.{
  respond-DisputesEvolve, accept_damage_report-DisputesEvolve, assign-DisputesEvolve,
  update_status-DisputesEvolve, create-ok, create-err,
}

-- A dispute that a request of the user opens.
abbrev pub IsOpenedBy : AuthenticatedUser → Dispute → Type 0
IsOpenedBy u d = (d.status ≡ DisputeStatus.opened) × (d.opened_by_id ≡ u.id)

-- What one request may do to the table.
abbrev pub DisputesGrow : AuthenticatedUser → List Dispute → List Dispute → Type 0
DisputesGrow u xs ys = Grown DisputeEvolves (IsOpenedBy u) xs ys

evolve-DisputesGrow :
    (u : AuthenticatedUser) (xs ys : List Dispute) → DisputesEvolve xs ys → DisputesGrow u xs ys
evolve-DisputesGrow u xs ys h = Grown-Rows DisputeEvolves (IsOpenedBy u) xs ys h

create-DisputesGrow :
    (env : Env) (u : AuthenticatedUser) (dto : CreateDisputeDto) (db : Database)
    → DisputesGrow u db.disputes (create env u dto db).1.disputes
create-DisputesGrow env u dto db = elim (Result-cases (create env u dto db).0) [
  | inl (d, done) ↦
      let (rows, opened, opener, only) = create-ok env u dto db d done in
      rw rows (
        Grown-append DisputeEvolves DisputeEvolves-refl (IsOpenedBy u) db.disputes d
          (opened, opener))
  | inr (e, failed) ↦
      rw (create-err env u dto db e failed)
        (evolve-DisputesGrow u db.disputes db.disputes (DisputesEvolve-refl db.disputes))
]

-- One request to DisputesService removes no dispute. Each keeps its id, its rental and its opener, and
-- either keeps its status or makes one transition that the table of transitions allows. A dispute
-- that is added is in `opened`, and its opener is the user who asked.
pub settle_dispute-DisputesGrow :
    (env : Env) (u : AuthenticatedUser) (q : DisputeRequest) (db : Database)
    → DisputesGrow u db.disputes (settle_dispute env u q db).disputes
unfolding settle_dispute
settle_dispute-DisputesGrow env u (DisputeRequest.create dto) db = create-DisputesGrow env u dto db
settle_dispute-DisputesGrow env u (DisputeRequest.respond id es) db =
    evolve-DisputesGrow u _ _ (respond-DisputesEvolve u id es db)
settle_dispute-DisputesGrow env u (DisputeRequest.accept_damage_report id text) db =
    evolve-DisputesGrow u _ _ (accept_damage_report-DisputesEvolve env u id text db)
settle_dispute-DisputesGrow env u (DisputeRequest.assign id to) db =
    evolve-DisputesGrow u _ _ (assign-DisputesEvolve u id to db)
settle_dispute-DisputesGrow env u (DisputeRequest.update_status id dto) db =
    evolve-DisputesGrow u _ _ (update_status-DisputesEvolve env u id dto db)

-- What a sequence of requests does to the disputes that were there.
abbrev pub DisputesRun : List Dispute → List Dispute → Type 0
DisputesRun xs ys = Grown DisputeRuns (λ d. Unit) xs ys

grow-DisputesRun :
    (u : AuthenticatedUser) (xs ys : List Dispute) → DisputesGrow u xs ys → DisputesRun xs ys
grow-DisputesRun u [] [] g = tt
grow-DisputesRun u [] (y ∷ ys) g = (tt, grow-DisputesRun u [] ys g.1)
grow-DisputesRun u (x ∷ xs) [] g = absurd g
grow-DisputesRun u (x ∷ xs) (y ∷ ys) g = (DisputeEvolves-runs x y g.0, grow-DisputesRun u xs ys g.1)

-- No dispute is removed, and each runs the machine.
settle_disputes-DisputesRun :
    (cs : List DisputeCall) (db : Database)
    → DisputesRun db.disputes (settle_disputes cs db).disputes
unfolding settle_disputes
settle_disputes-DisputesRun [] db =
    Grown-Rows DisputeRuns (λ d. Unit) db.disputes db.disputes
      (Rows-refl DisputeRuns DisputeRuns-refl db.disputes)
settle_disputes-DisputesRun (c ∷ cs) db =
    let mid = settle_dispute c.env c.user c.request db in
    Grown-trans DisputeRuns (λ d. Unit) (λ d e n p. tt) DisputeRuns-trans db.disputes mid.disputes
      (settle_disputes cs mid).disputes
      (grow-DisputesRun c.user db.disputes mid.disputes
        (settle_dispute-DisputesGrow c.env c.user c.request db))
      (settle_disputes-DisputesRun cs mid)

get_elem?-DisputesRun :
    (xs ys : List Dispute)
    → DisputesRun xs ys
    → (i : ℕ) (d : Dispute) → get_elem? xs i ≡ some d
    → (e : Dispute) × (get_elem? ys i ≡ some e) × DisputeRuns d e
get_elem?-DisputesRun [] ys g i d there = absurd (ground (arith, there))
get_elem?-DisputesRun (x ∷ xs) [] g i d there = absurd g
get_elem?-DisputesRun (x ∷ xs) (y ∷ ys) g zero d there =
    (y, refl, subst (λ (z : Dispute). DisputeRuns z y) (cc) g.0)
get_elem?-DisputesRun (x ∷ xs) (y ∷ ys) g (suc i) d there =
    get_elem?-DisputesRun xs ys g.1 i d there

-- A dispute that is resolved, rejected or closed keeps its status for ever, whatever requests come.
pub settle_disputes-is_terminal :
    (cs : List DisputeCall) (db : Database) (i : ℕ) (d : Dispute)
    → get_elem? db.disputes i ≡ some d
    → is_terminal d.status ≡ true
    → (e : Dispute) × (get_elem? (settle_disputes cs db).disputes i ≡ some e)
      × (e.id ≡ d.id)
      × (e.status ≡ d.status)
settle_disputes-is_terminal cs db i d there over =
    let (e, still, p) =
      get_elem?-DisputesRun db.disputes (settle_disputes cs db).disputes
        (settle_disputes-DisputesRun cs db) i d there in
    (e, still, p.same_id, Follows-is_terminal p.path over)

-- Two active disputes of one rental.
abbrev pub both_active : Dispute → Dispute → Bool
both_active d e = is_active_dispute_of d.rental_id e && is_active_status d.status

abbrev pub IsOneActive : Database → Type 0
IsOneActive db = Pairwise both_active db.disputes

is_active_status-Follows :
    {s t : DisputeStatus} → Follows s t → is_active_status s ≡ false → is_active_status t ≡ false
is_active_status-Follows stay h = h
is_active_status-Follows (go {s} {t} e p) h =
    is_active_status-Follows p (absurd (ground (arith, e, h)))

both_active-evolves :
    (d e d' e' : Dispute)
    → DisputeEvolves d d'
    → DisputeEvolves e e'
    → both_active d e ≡ false
    → both_active d' e' ≡ false
both_active-evolves d e d' e' p q h = ground (
  arith,
  p.same_rental,
  q.same_rental,
  is_active_status-Follows (Moves-Follows p.path),
  is_active_status-Follows (Moves-Follows q.path),
)

no_active-All :
    (d : Dispute) (xs : List Dispute)
    → any (is_active_dispute_of d.rental_id) xs ≡ false
    → All (λ x. both_active x d ≡ false) xs
no_active-All d [] h = tt
no_active-All d (x ∷ xs) h = (ground (arith, h), no_active-All d xs (ground (arith, h)))

evolves-IsOneActive :
    (db db' : Database) → DisputesEvolve db.disputes db'.disputes → IsOneActive db → IsOneActive db'
evolves-IsOneActive db db' rows h =
    Pairwise-Rows both_active-evolves db.disputes db'.disputes rows h

create-IsOneActive :
    (env : Env) (u : AuthenticatedUser) (dto : CreateDisputeDto) (db : Database)
    → IsOneActive db
    → IsOneActive (create env u dto db).1
create-IsOneActive env u dto db h = elim (Result-cases (create env u dto db).0) [
  | inl (d, done) ↦
      let (rows, opened, opener, only) = create-ok env u dto db d done in
      rw rows (Pairwise-append both_active db.disputes d h (no_active-All d db.disputes only))
  | inr (e, failed) ↦ rw (create-err env u dto db e failed) h
]

-- One request.
settle_dispute-IsOneActive :
    (env : Env) (u : AuthenticatedUser) (q : DisputeRequest) (db : Database)
    → IsOneActive db
    → IsOneActive (settle_dispute env u q db)
unfolding settle_dispute
settle_dispute-IsOneActive env u (DisputeRequest.create dto) db h =
    create-IsOneActive env u dto db h
settle_dispute-IsOneActive env u (DisputeRequest.respond id es) db h =
    evolves-IsOneActive db (respond u id es db).1 (respond-DisputesEvolve u id es db) h
settle_dispute-IsOneActive env u (DisputeRequest.accept_damage_report id text) db h =
    evolves-IsOneActive db (accept_damage_report env u id text db).1
      (accept_damage_report-DisputesEvolve env u id text db) h
settle_dispute-IsOneActive env u (DisputeRequest.assign id to) db h =
    evolves-IsOneActive db (assign u id to db).1 (assign-DisputesEvolve u id to db) h
settle_dispute-IsOneActive env u (DisputeRequest.update_status id dto) db h =
    evolves-IsOneActive db (update_status env u id dto db).1
      (update_status-DisputesEvolve env u id dto db) h

-- No sequence of requests to DisputesService gives a rental a second active dispute: if no rental
-- has two, then none has two after the requests.
pub settle_disputes-IsOneActive :
    (cs : List DisputeCall) (db : Database) → IsOneActive db → IsOneActive (settle_disputes cs db)
unfolding settle_disputes
settle_disputes-IsOneActive [] db h = h
settle_disputes-IsOneActive (c ∷ cs) db h =
    settle_disputes-IsOneActive cs (settle_dispute c.env c.user c.request db)
      (settle_dispute-IsOneActive c.env c.user c.request db h)
