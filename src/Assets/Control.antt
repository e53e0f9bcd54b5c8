-- ===== src/Assets/Control.antt =====
-- Who changes and who publishes a listing, over any sequence of requests.
use borrow_hub.Common.{
  ==_refl, ==_iff, update_first, ℕ, Bool, true, false, ◌||◌, ◌≡◌, refl, sym, ◌∙◌, ◌⊎◌, inl, inr,
  List, [], ◌∷◌, arith, ◌==◌, All, any, some, find, Bool-cases,
}
use borrow_hub.Common.Rows.{
  find-own_key, Grown, Grown-append, Grown-Rows, Grown-trans, Rows-refl, Rows-update_found, All-map,
  IsSeen, All-IsSeen,
}
use borrow_hub.Schema.{AssetStatus, Asset, Database, AuthenticatedUser, Env}
use borrow_hub.Rentals.Booking.{is_active}
use borrow_hub.Assets.Guards.{is_listing_staff, is_owner_of, is_archived, has_asset_id}
use borrow_hub.Assets.Forms.{new_asset, edited_asset, status_after_edit}
use borrow_hub.Assets.Listing.{set_asset_status}
use borrow_hub.Assets.Requests.{AssetRequest, AssetCall, serve_listing, serve_listings}
use borrow_hub.Assets.Changes.{create-cases, update-cases, remove-cases, moderate-cases}

-- What may happen to a listing, where `staff` says whether staff acts, and `acts` which users do.
pub record IsControlled (staff : Bool) (acts : ℕ → Bool) (a b : Asset) : Type 0 where
  pub same_id : b.id ≡ a.id
  pub same_owner : b.owner_id ≡ a.owner_id
  pub final : is_archived a.status ≡ true → b ≡ a
  pub published : is_active b.status ≡ true → (is_active a.status ≡ true) ⊎ (staff ≡ true)
  pub touched : (b ≡ a) ⊎ ((acts a.owner_id || staff) ≡ true)

abbrev pub IsUnpublished : Bool → Asset → Type 0
IsUnpublished staff a = is_active a.status ≡ true → staff ≡ true

module _ (staff : Bool) (acts : ℕ → Bool) where
  IsControlled-refl : (a : Asset) → IsControlled staff acts a a
  IsControlled-refl a = record {
    same_id = refl;
    same_owner = refl;
    final = λ h. refl;
    published = λ h. inl h;
    touched = inl refl;
  }

  IsControlled-trans :
      (a b c : Asset)
      → IsControlled staff acts a b
      → IsControlled staff acts b c
      → IsControlled staff acts a c
  IsControlled-trans a b c p q = record {
    same_id = cc;
    same_owner = grind (arith, p.same_owner, q.same_owner);
    final = λ h. let e = p.final h in q.final (rw e h) ∙ e;
    published = λ h. grind (arith, p.published, q.published);
    touched = elim p.touched [
      | inr k ↦ inr k
      | inl e ↦ elim q.touched [ inl f ↦ inl (f ∙ e) | inr k ↦ inr (rw (sym p.same_owner) k) ]
    ];
  }

  -- A user who acts, as staff or as the owner, changes a listing that is not archived.
  by_user-IsControlled :
      (u : AuthenticatedUser) (a b : Asset)
      → (is_listing_staff u ≡ true → staff ≡ true)
      → acts u.id ≡ true
      → b.id ≡ a.id
      → b.owner_id ≡ a.owner_id
      → is_archived a.status ≡ false
      → (is_owner_of a u || is_listing_staff u) ≡ true
      → (is_active b.status ≡ true → (is_active a.status ≡ true) ⊎ (is_listing_staff u ≡ true))
      → IsControlled staff acts a b
  by_user-IsControlled u a b counts acting id owner live may published = record {
    same_id = id;
    same_owner = owner;
    final = λ h. cc;
    published = λ h. grind (arith, published, counts);
    touched = inr (elim (Bool-cases (is_owner_of a u)) [
      | inl own ↦ rw ((==_iff a.owner_id u.id).0 own, acting) refl
      | inr other ↦ grind (arith, counts (grind (arith, other, may)))
    ]);
  }

  module _ (id : ℕ) (f : Asset → Asset) (xs : List Asset) where
    -- One listing is changed.
    one-Grown :
        (a : Asset)
        → find (has_asset_id id) xs ≡ some a
        → IsControlled staff acts a (f a)
        → Grown
            (IsControlled staff acts)
            (IsUnpublished staff)
            xs
            (update_first (has_asset_id id) f xs)
    one-Grown a found h =
        Grown-Rows (IsControlled staff acts) (IsUnpublished staff) xs
          (update_first (has_asset_id id) f xs)
          (Rows-update_found (IsControlled staff acts) IsControlled-refl (has_asset_id id) f xs a
            found h)

  same-Grown : (xs : List Asset) → Grown (IsControlled staff acts) (IsUnpublished staff) xs xs
  same-Grown xs =
      Grown-Rows (IsControlled staff acts) (IsUnpublished staff) xs xs
        (Rows-refl (IsControlled staff acts) IsControlled-refl xs)

  edit_keeps_active :
      (s : AssetStatus) → is_active (status_after_edit s) ≡ true → is_active s ≡ true
  edit_keeps_active s h = ground (arith, h)

  module _ (env : Env) (u : AuthenticatedUser) (db : Database)
      (counts : is_listing_staff u ≡ true → staff ≡ true) (acting : acts u.id ≡ true) where
    serve_listing-Grown :
        (q : AssetRequest)
        → Grown
            (IsControlled staff acts)
            (IsUnpublished staff)
            db.assets
            (serve_listing env u q db).1.assets
    unfolding serve_listing
    serve_listing-Grown (AssetRequest.create dto) =
        create-cases (λ xs ws. Grown (IsControlled staff acts) (IsUnpublished staff) db.assets xs)
          env u db dto (same-Grown db.assets)
          (λ category user known fits right.
            Grown-append (IsControlled staff acts) IsControlled-refl (IsUnpublished staff) db.assets
              (new_asset env u category dto) (λ h. cc))
    serve_listing-Grown (AssetRequest.update id dto) =
        update-cases (λ xs ws. Grown (IsControlled staff acts) (IsUnpublished staff) db.assets xs)
          env u db id dto (same-Grown db.assets)
          (λ a found may live keeps right.
            one-Grown id (edited_asset dto a.status) db.assets a found (
              by_user-IsControlled u a (edited_asset dto a.status a) counts acting refl refl live
                may (λ h. inl (edit_keeps_active a.status h))))
    serve_listing-Grown (AssetRequest.remove id reason) =
        remove-cases (λ xs ws. Grown (IsControlled staff acts) (IsUnpublished staff) db.assets xs)
          env u db id reason (same-Grown db.assets)
          (λ a found may live.
            one-Grown a.id (set_asset_status AssetStatus.archived) db.assets a
              (find-own_key (λ (x : Asset). x.id) id db.assets a found)
              (by_user-IsControlled u a (set_asset_status AssetStatus.archived a) counts acting refl
                refl live may (λ h. cc)))
    serve_listing-Grown (AssetRequest.moderate id status) =
        moderate-cases (λ xs ws. Grown (IsControlled staff acts) (IsUnpublished staff) db.assets xs)
          env u db id status (same-Grown db.assets)
          (λ a ok_staff found live known. one-Grown id (set_asset_status status) db.assets a found (
            by_user-IsControlled u a (set_asset_status status a) counts acting refl refl live
              (grind (arith, ok_staff)) (λ h. inr ok_staff)))

  abbrev Counts : AssetCall → Type 0
  Counts c = (is_listing_staff c.user ≡ true → staff ≡ true) × (acts c.user.id ≡ true)

  IsUnpublished-step :
      (a b : Asset) → IsUnpublished staff a → IsControlled staff acts a b → IsUnpublished staff b
  IsUnpublished-step a b h p active = grind (arith, p.published active, h)

  serve_listings-Grown :
      (cs : List AssetCall) (db : Database)
      → All Counts cs
      → Grown
          (IsControlled staff acts)
          (IsUnpublished staff)
          db.assets
          (serve_listings cs db).assets
  unfolding serve_listings
  serve_listings-Grown [] db h = same-Grown db.assets
  serve_listings-Grown (c ∷ cs) db h =
      let next = (serve_listing c.env c.user c.request db).1 in
      Grown-trans (IsControlled staff acts) (IsUnpublished staff) IsUnpublished-step
        IsControlled-trans db.assets next.assets (serve_listings cs next).assets
        (serve_listing-Grown c.env c.user db h.0.0 h.0.1 c.request)
        (serve_listings-Grown cs next h.1)

abbrev pub staff_acts : List AssetCall → Bool
staff_acts cs = any (λ c. is_listing_staff c.user) cs

abbrev pub user_acts : List AssetCall → ℕ → Bool
user_acts cs id = any (λ c. c.user.id == id) cs

-- Over any sequence of requests to AssetsService no listing is lost or changes its owner; an archived
-- one never changes; one that is published in the end was so before, or staff acted; and one that
-- has changed did so after a request of its owner or of staff. A new one is published only if staff
-- acted.
pub serve_listings-IsControlled :
    (cs : List AssetCall) (db : Database)
    → Grown
        (IsControlled (staff_acts cs) (user_acts cs))
        (IsUnpublished (staff_acts cs))
        db.assets
        (serve_listings cs db).assets
serve_listings-IsControlled cs db = serve_listings-Grown (staff_acts cs) (user_acts cs) cs db (
    All-map (IsSeen cs) (Counts (staff_acts cs) (user_acts cs)) cs
      (λ c seen. (
        seen (λ d. is_listing_staff d.user),
        seen (λ d. d.user.id == c.user.id) (==_refl c.user.id),
      ))
      (All-IsSeen cs))
