-- ===== src/Support/Changes.antt =====
-- What the requests do to the table of tickets.
use borrow_hub.Common.{
  ℕ, true, ◌≡◌, Option, some, List, [], ◌∷◌, ◌++◌, any, find, update_first, inl, inr, Bool-cases,
  Option-cases, arith,
}
use borrow_hub.Common.Rows.{find-own_key}
use borrow_hub.Schema.{SupportTicketStatus, SupportTicket, Database, AuthenticatedUser, Env}
use borrow_hub.Store.{Result, ok, err, Exception, Action, ◌>>=◌, Result-cases}
use borrow_hub.Support.Guards.{
  is_support_staff, has_ticket_id, can_access_ticket, find_accessible_ticket,
  ensure_assignable_staff, CreateSupportTicketDto, resolve_linked_entities,
}
use borrow_hub.Support.Service.{
  new_ticket, create_ticket, ensure_assignable_if_given, assigned_ticket, assign_ticket,
  ticket_with_status, update_ticket_status, noted_ticket, add_ticket_note,
}

resolve_linked_entities-keeps :
    (u : AuthenticatedUser) (dto : CreateSupportTicketDto) (db : Database)
    → (resolve_linked_entities u dto db).1 ≡ db
unfolding resolve_linked_entities
resolve_linked_entities-keeps u dto db = ground arith

ensure_assignable-keeps :
    (to : Option ℕ) (db : Database) → (ensure_assignable_if_given to db).1 ≡ db
unfolding ensure_assignable_staff
ensure_assignable-keeps to db = ground arith

find_accessible_ticket-keeps :
    (id : ℕ) (u : AuthenticatedUser) (db : Database) → (find_accessible_ticket id u db).1 ≡ db
unfolding find_accessible_ticket
find_accessible_ticket-keeps id u db = ground arith

module _ {A : Type 0} (P : Result A × Database → Type 0) where
  -- A handler that begins with `findAccessibleTicket` either fails there or goes on with a ticket of
  -- the table.
  accessible_ticket :
      (u : AuthenticatedUser) (id : ℕ) (f : SupportTicket → Action A) (db : Database)
      → ((e : Exception) → P (err e, db))
      → ((t : SupportTicket)
          → find (has_ticket_id t.id) db.tickets ≡ some t
          → can_access_ticket t u ≡ true
          → P (f t db))
      → P ((find_accessible_ticket id u >>= f) db)
  unfolding find_accessible_ticket
  accessible_ticket u id f db fail go = elim (Option-cases (find (has_ticket_id id) db.tickets)) [
    | inl missing ↦ rw missing (fail _)
    | inr (t, found) ↦ elim (Bool-cases (can_access_ticket t u)) [
      | inr denied ↦ rw (found, denied) (fail _)
      | inl may ↦
          rw (found, may)
            (go t (find-own_key (λ (x : SupportTicket). x.id) id db.tickets t found) may)
    ]
  ]

module _ (P : List SupportTicket → Type 0) (env : Env) (u : AuthenticatedUser) (db : Database) where
  -- `create` adds at most one ticket, after the checks of its links.
  pub create-cases :
      (dto : CreateSupportTicketDto)
      → P db.tickets
      → ((resolve_linked_entities u dto db).0 ≡ ok tt → P (db.tickets ++ new_ticket env u dto ∷ []))
      → P (create_ticket env u dto db).1.tickets
  unfolding create_ticket
  create-cases dto same added =
      let kept = resolve_linked_entities-keeps u dto db in
      elim (Result-cases (resolve_linked_entities u dto db).0) [
        | inr (e, failed) ↦ rw (failed, kept) same
        | inl (x, linked) ↦ elim (Bool-cases (any (has_ticket_id (env.new_id 0)) db.tickets)) [
          | inl twice ↦ rw (linked, kept, twice) same
          | inr fresh ↦ rw (linked, kept, fresh) (added linked)
        ]
      ]

  -- `assign` changes at most one ticket, for staff.
  pub assign-cases :
      (id : ℕ) (to : Option ℕ)
      → P db.tickets
      → ((t : SupportTicket)
          → find (has_ticket_id t.id) db.tickets ≡ some t
          → is_support_staff u ≡ true
          → P (update_first (has_ticket_id t.id) (assigned_ticket env u to t.status) db.tickets))
      → P (assign_ticket env u id to db).1.tickets
  unfolding assign_ticket
  assign-cases id to same changed = elim (Bool-cases (is_support_staff u)) [
    | inr other ↦ rw other same
    | inl staff ↦ rw staff (
        accessible_ticket (λ x. P x.1.tickets) u id _ db (λ e. same)
          (λ t found may.
            let kept = ensure_assignable-keeps to db in
            elim (Result-cases (ensure_assignable_if_given to db).0) [
              | inr (e, failed) ↦ rw (failed, kept) same
              | inl (x, fine) ↦ rw (fine, kept, found) (changed t found staff)
            ]))
  ]

  -- `updateStatus` changes at most one ticket, which the user can access.
  pub update_status-cases :
      (id : ℕ) (status : SupportTicketStatus)
      → P db.tickets
      → ((t : SupportTicket)
          → find (has_ticket_id t.id) db.tickets ≡ some t
          → can_access_ticket t u ≡ true
          → P (update_first (has_ticket_id t.id) (ticket_with_status env u status) db.tickets))
      → P (update_ticket_status env u id status db).1.tickets
  unfolding update_ticket_status
  update_status-cases id status same changed =
      accessible_ticket (λ x. P x.1.tickets) u id _ db (λ e. same)
        (λ t found may. rw (may, found) (changed t found may))

  -- `addNote` adds an event to at most one ticket, which the user can access.
  pub add_note-cases :
      (id : ℕ)
      → P db.tickets
      → ((t : SupportTicket)
          → find (has_ticket_id t.id) db.tickets ≡ some t
          → can_access_ticket t u ≡ true
          → P (update_first (has_ticket_id t.id) (noted_ticket u) db.tickets))
      → P (add_ticket_note u id db).1.tickets
  unfolding add_ticket_note
  add_note-cases id same changed =
      accessible_ticket (λ x. P x.1.tickets) u id _ db (λ e. same)
        (λ t found may.
          rw (may, found, find_accessible_ticket-keeps t.id u _) (changed t found may))
