-- ===== src/Assets/Availability.antt =====
-- A search for dates and the checks of a booking.
use borrow_hub.Common.{
  ℕ, Bool, true, false, not, ◌&&◌, ◌≡◌, refl, ◌∙◌, ◌↔◌, Option, some, List, [], ◌∷◌, arith, ltb,
  leb, ◌==◌, any, filter, find, inl, inr, Option-cases,
}
use borrow_hub.Schema.{
  RentalStatus, Asset, AssetAvailability, Rental, Database, AuthenticatedUser, Env, ConfigKey,
}
use borrow_hub.Store.{ok}
use borrow_hub.Rentals.Guards.{numeric_config}
use borrow_hub.Rentals.Booking.{
  is_reserved, CreateRentalRequestDto, Pricing, is_overlapping, is_active, is_blocked, blocks,
  covers, is_available_window, ensure_within_availability, compute_pricing, book, create,
  new_rental, price, duration_in_days,
}
use borrow_hub.Common.Rows.{find-own_key}
use borrow_hub.Rentals.Results.Booking.{create-no_asset, create-no_start, create-no_end}
use borrow_hub.Assets.Guards.{has_asset_id}
use borrow_hub.Assets.Query.{
  hides_listing, SearchTools, SearchAssetsQueryDto, QueryDate, is_match, is_open_for, windows_of,
  is_booked_in,
}

any_congr :
    {A : Type 0} (p q : A → Bool) (xs : List A) → ((x : A) → p x ≡ q x) → any p xs ≡ any q xs
any_congr p q [] h = refl
any_congr p q (x ∷ xs) h = rw (h x, any_congr p q xs h) refl

any-filter :
    {A : Type 0} (p q : A → Bool) (xs : List A) → any p (filter q xs) ≡ any (λ x. q x && p x) xs
any-filter p q [] = refl
any-filter p q (x ∷ xs) = grind (arith, any-filter p q xs)

module _ (id s e : ℕ) (ws : List AssetAvailability) where
  blocked_windows :
      any
        (λ (w : AssetAvailability).
          is_blocked w.availability_type && (ltb w.start_at e && ltb s w.end_at))
        (filter (λ w. w.asset_id == id) ws)
      ≡ any (blocks id s e) ws
  blocked_windows =
      any-filter _ (λ w. w.asset_id == id) ws ∙ any_congr _ (blocks id s e) ws (λ w. ground arith)

  open_windows :
      any
        (λ (w : AssetAvailability). not (is_blocked w.availability_type))
        (filter (λ w. w.asset_id == id) ws)
      ≡ any (is_available_window id) ws
  open_windows =
      any-filter _ (λ w. w.asset_id == id) ws
      ∙ any_congr _ (is_available_window id) ws (λ w. ground arith)

  covering_windows :
      any
        (λ (w : AssetAvailability).
          not (is_blocked w.availability_type) && (leb w.start_at s && leb e w.end_at))
        (filter (λ w. w.asset_id == id) ws)
      ≡ any (covers id s e) ws
  covering_windows =
      any-filter _ (λ w. w.asset_id == id) ws ∙ any_congr _ (covers id s e) ws (λ w. ground arith)

-- A search for the dates sees the windows of the asset as the booking does.
pub is_open_for-ensure_within_availability :
    (id s e : ℕ) (db : Database)
    → (is_open_for s e (windows_of id db) ≡ true)
      ↔ ((ensure_within_availability id s e db).0 ≡ ok tt)
unfolding is_open_for ensure_within_availability
is_open_for-ensure_within_availability id s e db =
    rw
      (
        blocked_windows id s e db.availability,
        open_windows id s e db.availability,
        covering_windows id s e db.availability,
      )
      (ground arith)

hides-reserved : (t : RentalStatus) → is_reserved t ≡ false → hides_listing t ≡ false
hides-reserved t h = ground (arith, h)

not_overlapping-booked :
    (id s e : ℕ) (rs : List Rental)
    → any (is_overlapping id s e) rs ≡ false
    → any (is_booked_in id s e) rs ≡ false
not_overlapping-booked id s e [] h = refl
not_overlapping-booked id s e (r ∷ rs) h =
    grind (arith, hides-reserved r.status, not_overlapping-booked id s e rs)

book-open :
    (env : Env) (u : AuthenticatedUser) (dto : CreateRentalRequestDto) (a : Asset) (s e : ℕ)
    (p : Pricing) (db : Database) (r : Rental)
    → (book env u dto a s e p db).0 ≡ ok r
    → (r ≡ new_rental env u dto a s e p)
      × (any (is_overlapping a.id s e) db.rentals ≡ false)
      × ((ensure_within_availability a.id s e db).0 ≡ ok tt)
unfolding book ensure_within_availability
book-open env u dto a s e p db r done = ground arith

create-open_at :
    (env : Env) (u : AuthenticatedUser) (dto : CreateRentalRequestDto) (db : Database) (r : Rental)
    (a : Asset) (s e : ℕ)
    → find (λ (x : Asset). x.id == dto.asset_id) db.assets ≡ some a
    → dto.start_at ≡ some s
    → dto.end_at ≡ some e
    → (create env u dto db).0 ≡ ok r
    → (r.asset_id ≡ a.id)
      × (r.start_at ≡ s)
      × (r.end_at ≡ e)
      × (is_active a.status ≡ true)
      × (any (is_overlapping a.id s e) db.rentals ≡ false)
      × ((ensure_within_availability a.id s e db).0 ≡ ok tt)
unfolding create compute_pricing price
create-open_at env u dto db r a s e found from to done = ground (
  arith,
  found,
  from,
  to,
  book-open env u dto a s e
      (price a.price_per_day (duration_in_days s e)
        (numeric_config db ConfigKey.platform_fee_percent 5))
      db r,
)

module _ (env : Env) (u : AuthenticatedUser) (dto : CreateRentalRequestDto) (db : Database)
    (r : Rental) where
  create-open :
      (create env u dto db).0 ≡ ok r
      → (a : Asset) × (find (λ (x : Asset). x.id == dto.asset_id) db.assets ≡ some a)
        × (r.asset_id ≡ a.id)
        × (is_active a.status ≡ true)
        × (any (is_overlapping a.id r.start_at r.end_at) db.rentals ≡ false)
        × ((ensure_within_availability a.id r.start_at r.end_at db).0 ≡ ok tt)
  create-open done = elim (Option-cases (find (λ (x : Asset). x.id == dto.asset_id) db.assets)) [
    | inl missing ↦ absurd (create-no_asset env u dto db r missing done)
    | inr (a, found) ↦ elim (Option-cases dto.start_at) [
      | inl missing ↦ absurd (create-no_start env u dto db r missing done)
      | inr (s, from) ↦ elim (Option-cases dto.end_at) [
        | inl missing ↦ absurd (create-no_end env u dto db r missing done)
        | inr (e, to) ↦
            let (same, starts, ends, active, free, within) =
              create-open_at env u dto db r a s e found from to done in
            (a, found, same, active, rw starts (rw ends free), rw starts (rw ends within))
      ]
    ]
  ]

-- The same query without dates.
abbrev pub at_any_time : SearchAssetsQueryDto → SearchAssetsQueryDto
at_any_time q = record q { start_at = QueryDate.missing; end_at = QueryDate.missing }

-- If RentalsService.create accepts a request, then its asset is active, and a search for the dates
-- of the booking, before it is made, lists the asset whenever the same search without dates does.
pub create-is_match :
    (env : Env) (u : AuthenticatedUser) (dto : CreateRentalRequestDto) (db : Database) (r : Rental)
    (tools : SearchTools) (visitor : Option AuthenticatedUser) (q : SearchAssetsQueryDto)
    → (create env u dto db).0 ≡ ok r
    → q.start_at ≡ QueryDate.at r.start_at
    → q.end_at ≡ QueryDate.at r.end_at
    → (a : Asset) × (find (has_asset_id r.asset_id) db.assets ≡ some a)
      × (is_active a.status ≡ true)
      × (is_match tools visitor q db a ≡ is_match tools visitor (at_any_time q) db a)
unfolding is_match
create-is_match env u dto db r tools visitor q done from to =
    let (a, found, same, active, free, within) = create-open env u dto db r done in
    let open_ = (is_open_for-ensure_within_availability a.id r.start_at r.end_at db).1 within in
    let booked = not_overlapping-booked a.id r.start_at r.end_at db.rentals free in
    (
      a,
      rw same (find-own_key (λ (x : Asset). x.id) dto.asset_id db.assets a found),
      active,
      rw (from, to, booked, open_) refl,
    )
