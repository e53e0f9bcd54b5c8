-- ===== src/Reports/Confined.antt =====
-- What the requests of ReportsService may change outside the table of reports.
use borrow_hub.Common.Int.{ℤ, pos}
use borrow_hub.Common.{ℕ, ◌≤◌, Bool, true, ◌≡◌, ◌≢◌, refl, ◌∙◌, ap, ◌⊎◌, inl, inr, List}
use borrow_hub.Common.Rows.{Rows, Rows-refl, Rows-trans}
use borrow_hub.Schema.{
  UserStatus, AssetStatus, ReviewStatus, UserRow, Asset, Review, Message, Report, Database, Effect,
}
use borrow_hub.Reviews.Service.{moderated}
use borrow_hub.Assets.Listing.{set_asset_status}
use borrow_hub.Reports.Moderation.{hidden_message}

-- A trust score that the recalculation may give.
abbrev pub IsScore : ℤ → Type 0
IsScore z = (n : ℕ) × (z ≡ pos n) × (n ≤ 100)

-- A row is left as it was, or changed by `f`, if `staff` acts.
abbrev pub IsLeftOr : {A : Type 0} → Bool → (A → A) → A → A → Type 0
IsLeftOr staff f a b = (b ≡ a) ⊎ ((staff ≡ true) × (b ≡ f a))

-- Of a user only the status and the trust score may change, and only by staff: a user who is not
-- banned or deleted may be suspended, and the score may be computed again.
pub record IsUserKept (staff : Bool) (x y : UserRow) : Type 0 where
  pub rest : y ≡ record x { status = y.status; trust_score = y.trust_score }
  pub score : (y.trust_score ≡ x.trust_score) ⊎ ((staff ≡ true) × IsScore y.trust_score)
  pub status :
      (y.status ≡ x.status)
      ⊎ ((staff ≡ true)
          × (y.status ≡ UserStatus.suspended)
          × (x.status ≢ UserStatus.banned)
          × (x.status ≢ UserStatus.deleted))

pub record IsConfined (staff : Bool) (db next : Database) : Type 0 where
  pub users : Rows (IsUserKept staff) db.users next.users
  pub assets : Rows (IsLeftOr staff (set_asset_status AssetStatus.suspended)) db.assets next.assets
  pub reviews : Rows (IsLeftOr staff (moderated ReviewStatus.hidden)) db.reviews next.reviews
  pub messages : Rows (IsLeftOr staff hidden_message) db.messages next.messages
  pub rest : next ≡ record db {
    users = next.users;
    assets = next.assets;
    reviews = next.reviews;
    messages = next.messages;
    reports = next.reports;
    effects = next.effects;
  }

module _ {A : Type 0} (staff : Bool) (f : A → A) (again : (a : A) → f (f a) ≡ f a) where
  IsLeftOr-refl : (a : A) → IsLeftOr staff f a a
  IsLeftOr-refl a = inl refl

  IsLeftOr-trans : (a b c : A) → IsLeftOr staff f a b → IsLeftOr staff f b c → IsLeftOr staff f a c
  IsLeftOr-trans a b c (inl p) (inl q) = inl (q ∙ p)
  IsLeftOr-trans a b c (inl p) (inr q) = inr (q.0, q.1 ∙ ap f p)
  IsLeftOr-trans a b c (inr p) (inl q) = inr (p.0, q ∙ p.1)
  IsLeftOr-trans a b c (inr p) (inr q) = inr (p.0, q.1 ∙ (ap f p.1 ∙ again a))

  IsLeftOr-Rows-trans :
      (xs ys zs : List A)
      → Rows (IsLeftOr staff f) xs ys
      → Rows (IsLeftOr staff f) ys zs
      → Rows (IsLeftOr staff f) xs zs
  IsLeftOr-Rows-trans = Rows-trans (IsLeftOr staff f) IsLeftOr-trans

module _ (staff : Bool) where
  pub IsUserKept-refl : (x : UserRow) → IsUserKept staff x x
  IsUserKept-refl x = record { rest = refl; score = inl refl; status = inl refl }

  IsUserKept-trans :
      (x y z : UserRow) → IsUserKept staff x y → IsUserKept staff y z → IsUserKept staff x z
  IsUserKept-trans x y z p q = record {
    rest =
        q.rest
        ∙ ap (λ (w : UserRow). record w { status = z.status; trust_score = z.trust_score }) p.rest;
    score = elim q.score [
      | inl b ↦ elim p.score [ inl a ↦ inl (b ∙ a) | inr a ↦ inr (a.0, rw b a.1) ]
      | inr b ↦ inr b
    ];
    status = elim p.status [
      | inl a ↦ elim q.status [
        | inl b ↦ inl (b ∙ a)
        | inr b ↦ inr (b.0, b.1, rw a at b.2, rw a at b.3)
      ]
      | inr a ↦ elim q.status [
        | inl b ↦ inr (a.0, b ∙ a.1, a.2, a.3)
        | inr b ↦ inr (a.0, b.1, a.2, a.3)
      ]
    ];
  }

  -- The tables after a request, and what it must leave of them.
  module _ (db : Database) (us : List UserRow) (xs : List Asset) (vs : List Review)
      (ms : List Message) (rs : List Report) (es : List Effect) where
    pub confined :
        Rows (IsUserKept staff) db.users us
        → Rows (IsLeftOr staff (set_asset_status AssetStatus.suspended)) db.assets xs
        → Rows (IsLeftOr staff (moderated ReviewStatus.hidden)) db.reviews vs
        → Rows (IsLeftOr staff hidden_message) db.messages ms
        → IsConfined staff db (record db {
          users = us;
          assets = xs;
          reviews = vs;
          messages = ms;
          reports = rs;
          effects = es;
        })
    confined hu ha hv hm = record {
      users = hu;
      assets = ha;
      reviews = hv;
      messages = hm;
      rest = refl;
    }

  pub same_users : (xs : List UserRow) → Rows (IsUserKept staff) xs xs
  same_users xs = Rows-refl (IsUserKept staff) IsUserKept-refl xs

  same-Rows : {A : Type 0} (f : A → A) (xs : List A) → Rows (IsLeftOr staff f) xs xs
  same-Rows f xs = Rows-refl (IsLeftOr staff f) (λ a. inl refl) xs

  pub same_assets :
      (xs : List Asset) → Rows (IsLeftOr staff (set_asset_status AssetStatus.suspended)) xs xs
  same_assets xs = same-Rows (set_asset_status AssetStatus.suspended) xs

  pub same_reviews :
      (xs : List Review) → Rows (IsLeftOr staff (moderated ReviewStatus.hidden)) xs xs
  same_reviews xs = same-Rows (moderated ReviewStatus.hidden) xs

  pub same_messages : (xs : List Message) → Rows (IsLeftOr staff hidden_message) xs xs
  same_messages xs = same-Rows hidden_message xs

  -- Only reports and effects change.
  pub left :
      (db : Database) (rs : List Report) (es : List Effect)
      → IsConfined staff db (record db { reports = rs; effects = es })
  left db rs es =
      confined db db.users db.assets db.reviews db.messages rs es (same_users db.users)
        (same_assets db.assets) (same_reviews db.reviews) (same_messages db.messages)

  pub IsConfined-trans :
      (a b c : Database) → IsConfined staff a b → IsConfined staff b c → IsConfined staff a c
  IsConfined-trans a b c p q = record {
    users = Rows-trans (IsUserKept staff) IsUserKept-trans a.users b.users c.users p.users q.users;
    assets =
        IsLeftOr-Rows-trans staff (set_asset_status AssetStatus.suspended) (λ x. refl) a.assets
          b.assets c.assets p.assets q.assets;
    reviews =
        IsLeftOr-Rows-trans staff (moderated ReviewStatus.hidden) (λ x. refl) a.reviews b.reviews
          c.reviews p.reviews q.reviews;
    messages =
        IsLeftOr-Rows-trans staff hidden_message (λ x. refl) a.messages b.messages c.messages
          p.messages q.messages;
    rest =
        q.rest
        ∙ ap
            (λ (d : Database). record d {
              users = c.users;
              assets = c.assets;
              reviews = c.reviews;
              messages = c.messages;
              reports = c.reports;
              effects = c.effects;
            })
            p.rest;
  }
