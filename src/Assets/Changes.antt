-- ===== src/Assets/Changes.antt =====
-- What the requests do to the tables of assets and of their windows.
use borrow_hub.Common.{
  ℕ, String, Bool, true, false, ◌||◌, not, ◌≡◌, Option, some, List, [], ◌∷◌, ◌++◌, leb, arith, any,
  find, update_first, or_else, is_some, inl, inr, Bool-cases, Option-cases,
}
use borrow_hub.Common.Rows.{find-own_key}
use borrow_hub.Schema.{AssetStatus, Asset, AssetAvailability, Database, AuthenticatedUser, Env}
use borrow_hub.Store.{Result-cases}
use borrow_hub.Rentals.Guards.{is_verified}
use borrow_hub.Assets.Guards.{
  is_listing_staff, is_admin, is_owner_of, is_archived, is_locked, are_windows_if_given,
  has_asset_id, category_or_default, ensure_category_exists, ensure_category_if_given,
}
use borrow_hub.Assets.Forms.{
  CreateAssetDto, UpdateAssetDto, new_asset, new_windows, windows_after, edited_asset,
}
use borrow_hub.Assets.Listing.{
  create_asset, update_asset, finish_update, save_asset, remove_asset, archive_asset,
  moderate_asset, set_asset_status, is_moderation_status, trimmed_reason,
}

category_or_default-keeps : (id : Option ℕ) (db : Database) → (category_or_default id db).1 ≡ db
category_or_default-keeps id db = ground arith

ensure_category-keeps : (id : ℕ) (db : Database) → (ensure_category_exists id db).1 ≡ db
ensure_category-keeps id db = ground arith

ensure_category_if_given-keeps :
    (id : Option ℕ) (db : Database) → (ensure_category_if_given id db).1 ≡ db
ensure_category_if_given-keeps id db = ground arith

abbrev asks_duration : UpdateAssetDto → Bool
asks_duration dto = is_some dto.minimum_duration_days || is_some dto.maximum_duration_days

abbrev are_durations : UpdateAssetDto → Asset → Bool
are_durations dto a =
    leb (or_else dto.minimum_duration_days a.minimum_duration_days)
      (or_else dto.maximum_duration_days a.maximum_duration_days)

-- The last checks of an update keep an order of the durations that was right.
abbrev pub KeepsDuration : UpdateAssetDto → Asset → Type 0
KeepsDuration dto a =
    leb a.minimum_duration_days a.maximum_duration_days ≡ true → are_durations dto a ≡ true

silent-KeepsDuration :
    (dto : UpdateAssetDto) (a : Asset) → asks_duration dto ≡ false → KeepsDuration dto a
silent-KeepsDuration dto a silent h = ground (arith, silent, h)

module _ (P : List Asset → List AssetAvailability → Type 0) (env : Env) (u : AuthenticatedUser)
    (db : Database) where
  -- The last part of `update`, after the durations.
  save-cases :
      (id : ℕ) (dto : UpdateAssetDto) (a : Asset)
      → find (has_asset_id id) db.assets ≡ some a
      → is_archived a.status ≡ false
      → P db.assets db.availability
      → (are_windows_if_given dto.availability ≡ true
          → P
              (update_first (has_asset_id id) (edited_asset dto a.status) db.assets)
              (windows_after id dto.availability db.availability))
      → P (finish_update u id dto a db).1.assets (finish_update u id dto a db).1.availability
  unfolding finish_update save_asset
  save-cases id dto a found live same changed =
      elim (Bool-cases (are_windows_if_given dto.availability)) [
        | inr wrong ↦ rw wrong same
        | inl right ↦ rw (right, found, live) (changed right)
      ]

  -- `create` adds at most one listing, of a verified user who is no administrator.
  pub create-cases :
      (dto : CreateAssetDto)
      → P db.assets db.availability
      → ((category : ℕ)
          → is_admin u ≡ false
          → is_verified u.verification_status ≡ true
          → leb dto.minimum_duration_days dto.maximum_duration_days ≡ true
          → are_windows_if_given dto.availability ≡ true
          → P
              (db.assets ++ new_asset env u category dto ∷ [])
              (db.availability ++ new_windows (env.new_id 0) (or_else dto.availability [])))
      → P (create_asset env u dto db).1.assets (create_asset env u dto db).1.availability
  unfolding create_asset
  create-cases dto same added = elim (Bool-cases (is_admin u)) [
    | inl admin ↦ rw admin same
    | inr user ↦ elim (Bool-cases (is_verified u.verification_status)) [
      | inr unknown ↦ rw (user, unknown) same
      | inl known ↦ elim (Result-cases (category_or_default dto.category_id db).0) [
        | inr (e, failed) ↦
            rw (user, known, failed, category_or_default-keeps dto.category_id db) same
        | inl (category, chosen) ↦
            let kept = category_or_default-keeps dto.category_id db in
            elim (Result-cases (ensure_category_exists category db).0) [
              | inr (e, failed) ↦
                  rw (user, known, chosen, kept, failed, ensure_category-keeps category db) same
              | inl (c, there) ↦
                  let still = ensure_category-keeps category db in
                  elim (Bool-cases (leb dto.minimum_duration_days dto.maximum_duration_days)) [
                    | inr long ↦ rw (user, known, chosen, kept, there, still, long) same
                    | inl fits ↦ elim (Bool-cases (are_windows_if_given dto.availability)) [
                      | inr wrong ↦ rw (user, known, chosen, kept, there, still, fits, wrong) same
                      | inl right ↦
                          elim (Bool-cases (any (has_asset_id (env.new_id 0)) db.assets)) [
                            | inl twice ↦
                                rw (user, known, chosen, kept, there, still, fits, right, twice)
                                  same
                            | inr fresh ↦
                                rw (user, known, chosen, kept, there, still, fits, right, fresh)
                                  (added category user known fits right)
                          ]
                    ]
                  ]
            ]
      ]
    ]
  ]

  -- `update` changes at most one listing, which its owner or the staff may edit, and its windows.
  pub update-cases :
      (id : ℕ) (dto : UpdateAssetDto)
      → P db.assets db.availability
      → ((a : Asset)
          → find (has_asset_id id) db.assets ≡ some a
          → (is_owner_of a u || is_listing_staff u) ≡ true
          → is_archived a.status ≡ false
          → KeepsDuration dto a
          → are_windows_if_given dto.availability ≡ true
          → P
              (update_first (has_asset_id id) (edited_asset dto a.status) db.assets)
              (windows_after id dto.availability db.availability))
      → P (update_asset u id dto db).1.assets (update_asset u id dto db).1.availability
  unfolding update_asset
  update-cases id dto same changed = elim (Option-cases (find (has_asset_id id) db.assets)) [
    | inl missing ↦ rw missing same
    | inr (a, found) ↦ elim (Bool-cases (is_owner_of a u || is_listing_staff u)) [
      | inr denied ↦ rw (found, denied) same
      | inl may ↦ elim (Bool-cases (is_archived a.status)) [
        | inl removed ↦ rw (found, may, removed) same
        | inr live ↦ elim (Bool-cases (not (is_locked a.status) || is_listing_staff u)) [
          | inr locked ↦ rw (found, may, live, locked) same
          | inl editable ↦
              let keeps = ensure_category_if_given-keeps dto.category_id db in
              elim (Result-cases (ensure_category_if_given dto.category_id db).0) [
                | inr (e, failed) ↦ rw (found, may, live, editable, failed, keeps) same
                | inl (c, there) ↦ elim (Bool-cases (asks_duration dto)) [
                  | inr silent ↦
                      rw (found, may, live, editable, there, keeps, silent)
                        (save-cases id dto a found live same
                          (changed a found may live (silent-KeepsDuration dto a silent)))
                  | inl asked ↦ elim (Bool-cases (are_durations dto a)) [
                    | inr long ↦ rw (found, may, live, editable, there, keeps, asked, long) same
                    | inl fits ↦
                        rw (found, may, live, editable, there, keeps, asked, fits)
                          (save-cases id dto a found live same
                            (changed a found may live (λ h. fits)))
                  ]
                ]
              ]
        ]
      ]
    ]
  ]

  -- `remove` archives at most one listing.
  pub remove-cases :
      (id : ℕ) (reason : Option String)
      → P db.assets db.availability
      → ((a : Asset)
          → find (has_asset_id id) db.assets ≡ some a
          → (is_owner_of a u || is_listing_staff u) ≡ true
          → is_archived a.status ≡ false
          → P
              (update_first (has_asset_id a.id) (set_asset_status AssetStatus.archived) db.assets)
              db.availability)
      → P (remove_asset u id reason db).1.assets (remove_asset u id reason db).1.availability
  unfolding remove_asset archive_asset
  remove-cases id reason same changed = elim (Option-cases (find (has_asset_id id) db.assets)) [
    | inl missing ↦ rw missing same
    | inr (a, found) ↦ elim (Bool-cases (is_owner_of a u || is_listing_staff u)) [
      | inr denied ↦ rw (found, denied) same
      | inl may ↦ elim (Bool-cases (is_archived a.status)) [
        | inl removed ↦ rw (found, may, removed) same
        | inr live ↦ elim (Bool-cases (is_owner_of a u || is_some (trimmed_reason reason))) [
          | inr silent ↦ rw (found, may, live, silent) same
          | inl told ↦
              let self = find-own_key (λ (x : Asset). x.id) id db.assets a found in
              elim (Bool-cases (is_owner_of a u)) [
                | inl own ↦ rw (found, may, live, told, self, own) (changed a found may live)
                | inr other ↦ rw (found, may, live, told, self, other) (changed a found may live)
              ]
        ]
      ]
    ]
  ]

  -- `moderate` sets the status of at most one listing.
  pub moderate-cases :
      (id : ℕ) (status : AssetStatus)
      → P db.assets db.availability
      → ((a : Asset)
          → is_listing_staff u ≡ true
          → find (has_asset_id id) db.assets ≡ some a
          → is_archived a.status ≡ false
          → is_moderation_status status ≡ true
          → P (update_first (has_asset_id id) (set_asset_status status) db.assets) db.availability)
      → P (moderate_asset u id status db).1.assets (moderate_asset u id status db).1.availability
  unfolding moderate_asset
  moderate-cases id status same changed = elim (Bool-cases (is_listing_staff u)) [
    | inr other ↦ rw other same
    | inl staff ↦ elim (Option-cases (find (has_asset_id id) db.assets)) [
      | inl missing ↦ rw (staff, missing) same
      | inr (a, found) ↦ elim (Bool-cases (is_archived a.status)) [
        | inl removed ↦ rw (staff, found, removed) same
        | inr live ↦ elim (Bool-cases (is_moderation_status status)) [
          | inr unknown ↦ rw (staff, found, live, unknown) same
          | inl known ↦
              rw (staff, found, live, known, found, live) (changed a staff found live known)
        ]
      ]
    ]
  ]
