-- ===== src/System/Listings.antt =====
-- AssetsService and SupportService leave the table of rentals alone.
use borrow_hub.Common.{ℕ, ◌≡◌, arith, Option, String}
use borrow_hub.Schema.{AssetStatus, SupportTicketStatus, Asset, Database, AuthenticatedUser, Env}
use borrow_hub.Assets.Forms.{CreateAssetDto, UpdateAssetDto}
use borrow_hub.Assets.Listing.{
  create_asset, save_asset, finish_update, update_asset, archive_asset, remove_asset,
  moderate_asset,
}
use borrow_hub.Assets.Requests.{AssetRequest, serve_listing}
use borrow_hub.Support.Guards.{
  CreateSupportTicketDto, find_accessible_ticket, ensure_assignable_staff, resolve_linked_entities,
}
use borrow_hub.Support.Service.{create_ticket, assign_ticket, update_ticket_status, add_ticket_note}
use borrow_hub.Support.Requests.{TicketRequest, serve_ticket}

create_asset-rentals :
    (env : Env) (u : AuthenticatedUser) (dto : CreateAssetDto) (db : Database)
    → (create_asset env u dto db).1.rentals ≡ db.rentals
unfolding create_asset
create_asset-rentals env u dto db = ground arith

finish_update-rentals :
    (u : AuthenticatedUser) (id : ℕ) (dto : UpdateAssetDto) (a : Asset) (db : Database)
    → (finish_update u id dto a db).1.rentals ≡ db.rentals
unfolding finish_update save_asset
finish_update-rentals u id dto a db = ground arith

update_asset-rentals :
    (u : AuthenticatedUser) (id : ℕ) (dto : UpdateAssetDto) (db : Database)
    → (update_asset u id dto db).1.rentals ≡ db.rentals
unfolding update_asset
update_asset-rentals u id dto db = grind (arith, finish_update-rentals)

remove_asset-rentals :
    (u : AuthenticatedUser) (id : ℕ) (reason : Option String) (db : Database)
    → (remove_asset u id reason db).1.rentals ≡ db.rentals
unfolding remove_asset archive_asset
remove_asset-rentals u id reason db = ground arith

moderate_asset-rentals :
    (u : AuthenticatedUser) (id : ℕ) (s : AssetStatus) (db : Database)
    → (moderate_asset u id s db).1.rentals ≡ db.rentals
unfolding moderate_asset
moderate_asset-rentals u id s db = ground arith

pub serve_listing-rentals :
    (env : Env) (u : AuthenticatedUser) (q : AssetRequest) (db : Database)
    → (serve_listing env u q db).1.rentals ≡ db.rentals
unfolding serve_listing
serve_listing-rentals env u (AssetRequest.create dto) db = create_asset-rentals env u dto db
serve_listing-rentals env u (AssetRequest.update id dto) db = update_asset-rentals u id dto db
serve_listing-rentals env u (AssetRequest.remove id reason) db = remove_asset-rentals u id reason db
serve_listing-rentals env u (AssetRequest.moderate id s) db = moderate_asset-rentals u id s db

create_ticket-rentals :
    (env : Env) (u : AuthenticatedUser) (dto : CreateSupportTicketDto) (db : Database)
    → (create_ticket env u dto db).1.rentals ≡ db.rentals
unfolding create_ticket resolve_linked_entities
create_ticket-rentals env u dto db = ground arith

assign_ticket-rentals :
    (env : Env) (u : AuthenticatedUser) (id : ℕ) (to : Option ℕ) (db : Database)
    → (assign_ticket env u id to db).1.rentals ≡ db.rentals
unfolding assign_ticket find_accessible_ticket ensure_assignable_staff
assign_ticket-rentals env u id to db = ground arith

update_ticket_status-rentals :
    (env : Env) (u : AuthenticatedUser) (id : ℕ) (s : SupportTicketStatus) (db : Database)
    → (update_ticket_status env u id s db).1.rentals ≡ db.rentals
unfolding update_ticket_status find_accessible_ticket
update_ticket_status-rentals env u id s db = ground arith

add_ticket_note-rentals :
    (u : AuthenticatedUser) (id : ℕ) (db : Database)
    → (add_ticket_note u id db).1.rentals ≡ db.rentals
unfolding add_ticket_note find_accessible_ticket
add_ticket_note-rentals u id db = ground arith

pub serve_ticket-rentals :
    (env : Env) (u : AuthenticatedUser) (q : TicketRequest) (db : Database)
    → (serve_ticket env u q db).1.rentals ≡ db.rentals
unfolding serve_ticket
serve_ticket-rentals env u (TicketRequest.create dto) db = create_ticket-rentals env u dto db
serve_ticket-rentals env u (TicketRequest.assign id to) db = assign_ticket-rentals env u id to db
serve_ticket-rentals env u (TicketRequest.update_status id s) db =
    update_ticket_status-rentals env u id s db
serve_ticket-rentals env u (TicketRequest.add_note id) db = add_ticket_note-rentals u id db
