-- ===== src/Disputes/Writes.antt =====
-- The transactions of DisputesService run the machine.
use borrow_hub.Common.{
  ℕ, String, true, false, ◌≡◌, refl, Option, some, List, [], ◌∷◌, arith, find, any, update_first,
}
use borrow_hub.Schema.{
  DisputeStatus, DisputeEventType, Evidence, Dispute, Database, AuthenticatedUser, Env,
}
use borrow_hub.Store.{ok}
use borrow_hub.Disputes.Guards.{DisputeView, is_terminal, is_allowed, has_dispute_id, add_event}
use borrow_hub.Disputes.Handling.{
  UpdateDisputeStatusDto, attach, attach_if_any, status_after_response, status_after_assignment,
  add_response, accepted, reassigned, decided, set_dispute_status, accept_report, assign_dispute,
  decide, event_of,
}
use borrow_hub.Disputes.Machine.{
  Moves, stays, moves, DisputeKept, DisputeEvolves, DisputesKept, DisputesKept-refl,
  DisputesKept-then, DisputesEvolve, update-DisputesKept, update-DisputesEvolve, find-add_event,
  find-updated, any-find,
}

module _ (id : ℕ) (u : ℕ) (t : DisputeEventType) (xs : List Dispute) (d : Dispute) where
  event-DisputesKept :
      find (has_dispute_id id) xs ≡ some d
      → DisputesKept xs (update_first (has_dispute_id id) (add_event u t) xs)
  event-DisputesKept found =
      update-DisputesKept id (add_event u t) xs d found
        (record { same_id = refl; same_rental = refl; same_opener = refl; path = refl })

  -- An event and then another update of the same row.
  event_then-DisputesEvolve :
      (f : Dispute → Dispute)
      → find (has_dispute_id id) xs ≡ some d
      → DisputeEvolves (add_event u t d) (f (add_event u t d))
      → DisputesEvolve xs
          (update_first (has_dispute_id id) f (update_first (has_dispute_id id) (add_event u t) xs))
  event_then-DisputesEvolve f found p =
      let ys = update_first (has_dispute_id id) (add_event u t) xs in
      DisputesKept-then Moves xs ys (update_first (has_dispute_id id) f ys)
        (event-DisputesKept found)
        (update-DisputesEvolve id f ys (add_event u t d) (find-add_event id u t xs d found) p)

  any-event :
      find (has_dispute_id id) xs ≡ some d
      → any (has_dispute_id id) (update_first (has_dispute_id id) (add_event u t) xs) ≡ true
  any-event found =
      any-find id (update_first (has_dispute_id id) (add_event u t) xs) (add_event u t d)
        (find-add_event id u t xs d found)

-- A row whose status moves by the machine, whatever else it gets.
module _ (d : Dispute) (s : DisputeStatus) (to : Option ℕ) (r : Option String) (t : Option ℕ) where
  moved-DisputeEvolves :
      Moves d.status s
      → DisputeEvolves d
          (record d { status = s; assigned_to_id = to; resolution_summary = r; resolved_at = t })
  moved-DisputeEvolves p = record {
    same_id = refl;
    same_rental = refl;
    same_opener = refl;
    path = p;
  }

pub decide-DisputesEvolve :
    (env : Env) (u : AuthenticatedUser) (v : DisputeView) (dto : UpdateDisputeStatusDto)
    (db : Database)
    → find (has_dispute_id v.id) db.disputes ≡ some v.dispute
    → is_allowed v.status dto.status ≡ true
    → DisputesEvolve db.disputes (decide env u v dto db).1.disputes
unfolding decide
decide-DisputesEvolve env u v dto db found allowed =
    let f = decided env v.resolution_summary dto in
    let d = add_event u.id (event_of dto.status) v.dispute in
    ground (
      arith,
      any-find v.id db.disputes v.dispute found,
      any-event v.id u.id (event_of dto.status) db.disputes v.dispute found,
      event_then-DisputesEvolve v.id u.id (event_of dto.status) db.disputes v.dispute f found (
          moved-DisputeEvolves d dto.status d.assigned_to_id (f d).resolution_summary
            (f d).resolved_at (moves allowed)),
    )

pub accept_report-DisputesEvolve :
    (env : Env) (u : AuthenticatedUser) (v : DisputeView) (text : String) (db : Database)
    → find (has_dispute_id v.id) db.disputes ≡ some v.dispute
    → is_terminal v.status ≡ false
    → DisputesEvolve db.disputes (accept_report env u v text db).1.disputes
unfolding accept_report
accept_report-DisputesEvolve env u v text db found mutable =
    let f = accepted env text in
    let d = add_event u.id DisputeEventType.resolved v.dispute in
    let allowed : is_allowed v.status DisputeStatus.resolved ≡ true = ground (arith, mutable) in
    ground (
      arith,
      any-find v.id db.disputes v.dispute found,
      any-event v.id u.id DisputeEventType.resolved db.disputes v.dispute found,
      event_then-DisputesEvolve v.id u.id DisputeEventType.resolved db.disputes v.dispute f found (
          moved-DisputeEvolves d DisputeStatus.resolved d.assigned_to_id (some text) (some env.now)
            (moves allowed)),
    )

assignment_path : (s : DisputeStatus) → Moves s (status_after_assignment s)
assignment_path DisputeStatus.opened = moves refl
assignment_path DisputeStatus.waiting_response = moves refl
assignment_path _ = stays

pub assign_dispute-DisputesEvolve :
    (u : AuthenticatedUser) (d : Dispute) (to : Option ℕ) (db : Database)
    → find (has_dispute_id d.id) db.disputes ≡ some d
    → DisputesEvolve db.disputes (assign_dispute u d to db).1.disputes
unfolding assign_dispute
assign_dispute-DisputesEvolve u d to db found =
    let s = status_after_assignment d.status in
    let e = add_event u.id DisputeEventType.assigned d in
    ground (
      arith,
      any-find d.id db.disputes d found,
      any-event d.id u.id DisputeEventType.assigned db.disputes d found,
      event_then-DisputesEvolve d.id u.id DisputeEventType.assigned db.disputes d (reassigned to s)
          found
          (moved-DisputeEvolves e s to e.resolution_summary e.resolved_at
            (assignment_path d.status)),
    )

attach-DisputeKept : (d : Dispute) (es : List Evidence) → DisputeKept d (attach es d)
attach-DisputeKept d es = record {
  same_id = refl;
  same_rental = refl;
  same_opener = refl;
  path = refl;
}

-- What attaching evidence leaves of the row: its status.
attach_if_any_lem :
    (u : AuthenticatedUser) (id : ℕ) (es : List Evidence) (db : Database) (d : Dispute)
    → find (has_dispute_id id) db.disputes ≡ some d
    → (e : Dispute) × (find (has_dispute_id id) (attach_if_any u id es db).1.disputes ≡ some e)
      × (e.status ≡ d.status)
      × DisputesKept db.disputes (attach_if_any u id es db).1.disputes
      × ((attach_if_any u id es db).0 ≡ ok tt)
unfolding attach_if_any
attach_if_any_lem u id [] db d found = (d, found, refl, DisputesKept-refl db.disputes, refl)
attach_if_any_lem u id (x ∷ xs) db d found =
    let f = attach (x ∷ xs) in
    let ys = update_first (has_dispute_id id) f db.disputes in
    let t = DisputeEventType.evidence_attached in
    let attached = find-updated id f db.disputes d found refl in
    let known = any-find id db.disputes d found in
    let known_still = any-find id ys (f d) attached in
    (
      add_event u.id t (f d),
      ground (arith, known, known_still, find-add_event id u.id t ys (f d) attached),
      refl,
      ground (
        arith,
        known,
        known_still,
        DisputesKept-then (λ s t. t ≡ s) db.disputes ys
            (update_first (has_dispute_id id) (add_event u.id t) ys)
            (update-DisputesKept id f db.disputes d found (attach-DisputeKept d (x ∷ xs)))
            (event-DisputesKept id u.id t ys (f d) attached),
      ),
      ground (arith, known, known_still),
    )

response_path : (s : DisputeStatus) → is_terminal s ≡ false → Moves s (status_after_response s)
response_path DisputeStatus.opened h = moves refl
response_path DisputeStatus.waiting_response h = moves refl
response_path DisputeStatus.under_review h = stays
response_path _ h = cc

-- The rest of `add_response`, after its first event.
add_response_rest :
    (u : AuthenticatedUser) (id : ℕ) (s : DisputeStatus) (es : List Evidence) (db : Database)
    (d : Dispute)
    → find (has_dispute_id id) db.disputes ≡ some d
    → Moves d.status s
    → DisputesEvolve db.disputes (
        update_first
          (has_dispute_id id)
          (set_dispute_status s)
          (attach_if_any u id es db).1.disputes)
add_response_rest u id s es db d found path =
    let (e, still, same, rows, fine) = attach_if_any_lem u id es db d found in
    let ys = (attach_if_any u id es db).1.disputes in
    DisputesKept-then Moves db.disputes ys
      (update_first (has_dispute_id id) (set_dispute_status s) ys) rows
      (update-DisputesEvolve id (set_dispute_status s) ys e still (
        moved-DisputeEvolves e s e.assigned_to_id e.resolution_summary e.resolved_at
          (rw same path)))

pub add_response-DisputesEvolve :
    (u : AuthenticatedUser) (d : Dispute) (es : List Evidence) (db : Database)
    → find (has_dispute_id d.id) db.disputes ≡ some d
    → is_terminal d.status ≡ false
    → DisputesEvolve db.disputes (add_response u d es db).1.disputes
unfolding add_response
add_response-DisputesEvolve u d es db found mutable =
    let t = DisputeEventType.response_added in
    let s = status_after_response d.status in
    let told = record db {
      disputes = update_first (has_dispute_id d.id) (add_event u.id t) db.disputes;
    } in
    let still = find-add_event d.id u.id t db.disputes d found in
    let (e, there, same, rows, fine) =
      attach_if_any_lem u d.id es told (add_event u.id t d) still in
    let final = (attach_if_any u d.id es told).1.disputes in
    ground (
      arith,
      fine,
      any-find d.id db.disputes d found,
      any-find d.id final e there,
      DisputesKept-then Moves db.disputes told.disputes
          (update_first (has_dispute_id d.id) (set_dispute_status s) final)
          (event-DisputesKept d.id u.id t db.disputes d found)
          (add_response_rest u d.id s es told (add_event u.id t d) still
            (response_path d.status mutable)),
    )
