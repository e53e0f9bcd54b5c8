-- ===== src/Assets/Invariant.antt =====
-- The durations and the windows of the listings stay well formed.
use borrow_hub.Common.{
  update_first, ℕ, ◌<◌, true, ◌≡◌, Option, none, some, List, [], ◌∷◌, arith, leb, All, filter, not,
  ◌==◌, or_else,
}
use borrow_hub.Common.Rows.{All-update_first, All-update_found, All-append, All-filter}
use borrow_hub.Schema.{Asset, AssetStatus, AssetAvailability, Database, AuthenticatedUser, Env}
use borrow_hub.Assets.Guards.{AssetAvailabilityDto, are_windows, are_windows_if_given, has_asset_id}
use borrow_hub.Assets.Forms.{new_asset, new_windows, windows_after, edited_asset}
use borrow_hub.Assets.Listing.{set_asset_status}
use borrow_hub.Assets.Requests.{AssetRequest, AssetCall, serve_listing, serve_listings}
use borrow_hub.Assets.Changes.{create-cases, update-cases, remove-cases, moderate-cases}

abbrev pub HasDurations : Asset → Type 0
HasDurations a = leb a.minimum_duration_days a.maximum_duration_days ≡ true

abbrev pub IsWindow : AssetAvailability → Type 0
IsWindow w = w.start_at < w.end_at

pub record IsWellFormed (assets : List Asset) (windows : List AssetAvailability) : Type 0 where
  pub durations : All HasDurations assets
  pub nonempty : All IsWindow windows

new_windows-IsWindow :
    (id : ℕ) (ws : List AssetAvailabilityDto)
    → are_windows ws ≡ true
    → All IsWindow (new_windows id ws)
new_windows-IsWindow id [] h = tt
new_windows-IsWindow id (w ∷ ws) h =
    (ground (arith, h), new_windows-IsWindow id ws (ground (arith, h)))

given_windows-IsWindow :
    (id : ℕ) (ws : Option (List AssetAvailabilityDto))
    → are_windows_if_given ws ≡ true
    → All IsWindow (new_windows id (or_else ws []))
given_windows-IsWindow id none h = tt
given_windows-IsWindow id (some ws) h = new_windows-IsWindow id ws h

windows_after-IsWindow :
    (id : ℕ) (new : Option (List AssetAvailabilityDto)) (ws : List AssetAvailability)
    → are_windows_if_given new ≡ true
    → All IsWindow ws
    → All IsWindow (windows_after id new ws)
windows_after-IsWindow id none ws h a = a
windows_after-IsWindow id (some new) ws h a =
    All-append IsWindow (filter (λ w. not (w.asset_id == id)) ws) (new_windows id new)
      (All-filter IsWindow (λ w. not (w.asset_id == id)) ws a) (new_windows-IsWindow id new h)

status-IsWellFormed :
    (id : ℕ) (status : AssetStatus) (xs : List Asset) (ws : List AssetAvailability)
    → IsWellFormed xs ws
    → IsWellFormed (update_first (has_asset_id id) (set_asset_status status) xs) ws
status-IsWellFormed id status xs ws h = record {
  durations =
      All-update_first HasDurations (has_asset_id id) (set_asset_status status) xs (λ a k. k)
        h.durations;
  nonempty = h.nonempty;
}

serve_listing-IsWellFormed :
    (env : Env) (u : AuthenticatedUser) (q : AssetRequest) (db : Database)
    → IsWellFormed db.assets db.availability
    → IsWellFormed (serve_listing env u q db).1.assets (serve_listing env u q db).1.availability
unfolding serve_listing
serve_listing-IsWellFormed env u (AssetRequest.create dto) db h =
    create-cases IsWellFormed env u db dto h (λ category user known fits right. record {
      durations =
          All-append HasDurations db.assets (new_asset env u category dto ∷ []) h.durations
            (fits, tt);
      nonempty =
          All-append IsWindow db.availability
            (new_windows (env.new_id 0) (or_else dto.availability [])) h.nonempty
            (given_windows-IsWindow (env.new_id 0) dto.availability right);
    })
serve_listing-IsWellFormed env u (AssetRequest.update id dto) db h =
    update-cases IsWellFormed env u db id dto h (λ a found may live keeps right. record {
      durations =
          All-update_found HasDurations (has_asset_id id) (edited_asset dto a.status) db.assets a
            found keeps h.durations;
      nonempty = windows_after-IsWindow id dto.availability db.availability right h.nonempty;
    })
serve_listing-IsWellFormed env u (AssetRequest.remove id reason) db h =
    remove-cases IsWellFormed env u db id reason h (λ a found may live.
      status-IsWellFormed a.id AssetStatus.archived db.assets db.availability h)
serve_listing-IsWellFormed env u (AssetRequest.moderate id status) db h =
    moderate-cases IsWellFormed env u db id status h
      (λ a staff found live known. status-IsWellFormed id status db.assets db.availability h)

-- If every listing allows durations from a minimum to a maximum that is no smaller, and every window
-- begins before it ends, then so it is after any sequence of requests to AssetsService.
pub serve_listings-IsWellFormed :
    (cs : List AssetCall) (db : Database)
    → IsWellFormed db.assets db.availability
    → IsWellFormed (serve_listings cs db).assets (serve_listings cs db).availability
unfolding serve_listings
serve_listings-IsWellFormed [] db h = h
serve_listings-IsWellFormed (c ∷ cs) db h =
    serve_listings-IsWellFormed cs (serve_listing c.env c.user c.request db).1
      (serve_listing-IsWellFormed c.env c.user c.request db h)
