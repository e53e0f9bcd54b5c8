-- ===== src/Reports/Actions.antt =====
-- The moderation actions of ReportsService change what staff may change, and no more.
use borrow_hub.Common.{
  ℕ, Bool, true, ◌||◌, ◌≡◌, refl, inl, inr, Option, none, some, arith, any, update_first, find,
  Bool-cases, Option-cases,
}
use borrow_hub.Common.Int.{pos}
use borrow_hub.Common.Rows.{Rows-update_first, Rows-update_found, find-own_key}
use borrow_hub.Schema.{
  ReportTargetType, UserStatus, AssetStatus, ReviewStatus, UserRow, Asset, Review, Report, Database,
  AuthenticatedUser, Env,
}
use borrow_hub.Store.{Result-cases, ◌>>◌, pure, has_user_id}
use borrow_hub.TrustScore.Score.{recalculate_user_trust_score, trust_score, set_trust_score}
use borrow_hub.TrustScore.Results.{trust_score-bound}
use borrow_hub.Reviews.Service.{update_review, moderated, has_review_id}
use borrow_hub.Assets.Guards.{has_asset_id}
use borrow_hub.Assets.Listing.{set_asset_status}
use borrow_hub.Reports.Guards.{
  related_user, find_user, reported_user, resolve_reported_user, has_message_id,
}
use borrow_hub.Reports.Moderation.{
  is_hidden, is_review_report, is_suspended_user, is_message_report, is_suspended_asset,
  is_asset_report, set_user_status, is_gone, warn_user, suspend_user, hide_reported_asset,
  hide_published_review, hide_reported_review, hidden_message, hide_reported_chat_message,
}
use borrow_hub.Reports.Confined.{
  IsUserKept, IsUserKept-refl, IsLeftOr, IsConfined, IsConfined-trans, confined, left, same_users,
  same_assets, same_reviews, same_messages,
}

-- A call that is made for its effect.
recalculate_then :
    (env : Env) (id : ℕ) (db : Database)
    → ((recalculate_user_trust_score env id >> pure tt) db).1
      ≡ (recalculate_user_trust_score env id db).1
recalculate_then env id db = elim (Result-cases (recalculate_user_trust_score env id db).0) [
  | inl (x, fine) ↦ rw fine refl
  | inr (e, failed) ↦ rw failed refl
]

find_user_self :
    (id : ℕ) (db : Database) (x : UserRow)
    → find_user id db ≡ some x
    → find (has_user_id x.id) db.users ≡ some x
find_user_self id db x e = find-own_key (λ (y : UserRow). y.id) id db.users x e

related_user-found :
    {A : Type 0} (user_id : A → ℕ) (o : Option A) (db : Database) (x : UserRow)
    → related_user user_id o db ≡ some x
    → find (has_user_id x.id) db.users ≡ some x
related_user-found user_id none db x e = cc
related_user-found user_id (some a) db x e = find_user_self (user_id a) db x e

-- The user of a target is the row of its id.
reported_user-found :
    (t : ReportTargetType) (id : ℕ) (db : Database) (x : UserRow)
    → reported_user t id db ≡ some x
    → find (has_user_id x.id) db.users ≡ some x
reported_user-found ReportTargetType.user id db x e = find_user_self id db x e
reported_user-found ReportTargetType.asset id db x e = related_user-found _ _ db x e
reported_user-found ReportTargetType.review id db x e = related_user-found _ _ db x e
reported_user-found ReportTargetType.chat_message id db x e = related_user-found _ _ db x e

module _ (staff : Bool) where
  recalculate-IsConfined :
      (env : Env) (id : ℕ) (db : Database)
      → staff ≡ true
      → IsConfined staff db (recalculate_user_trust_score env id db).1
  unfolding recalculate_user_trust_score
  recalculate-IsConfined env id db acting = elim (Option-cases (find (has_user_id id) db.users)) [
    | inl missing ↦ rw missing (left staff db db.reports db.effects)
    | inr (x, found) ↦ elim (Bool-cases (any (has_user_id id) db.users)) [
      | inr gone ↦ rw (found, gone) (left staff db db.reports db.effects)
      | inl there ↦
          rw (found, there)
            (confined staff db _ db.assets db.reviews db.messages db.reports db.effects
              (Rows-update_first (IsUserKept staff) (IsUserKept-refl staff) (has_user_id id)
                (set_trust_score (pos (trust_score env.now x db))) db.users
                (λ y e. record {
                  rest = refl;
                  score =
                      inr
                        (acting, (trust_score env.now x db, refl, trust_score-bound env.now x db));
                  status = inl refl;
                }))
              (same_assets staff db.assets) (same_reviews staff db.reviews)
              (same_messages staff db.messages))
    ]
  ]

  module _ (u : AuthenticatedUser) (env : Env) (r : Report) (db : Database) where
    pub warn-IsConfined : IsConfined staff db (warn_user env u r db).1
    unfolding warn_user resolve_reported_user
    warn-IsConfined = elim (Option-cases (reported_user r.target_type r.target_id db)) [
      | inl missing ↦ rw missing (left staff db db.reports db.effects)
      | inr (x, found) ↦ rw found (left staff db db.reports _)
    ]

    module _ (acting : staff ≡ true) where
      pub hide_asset-IsConfined : IsConfined staff db (hide_reported_asset env u r db).1
      unfolding hide_reported_asset
      hide_asset-IsConfined = elim (Bool-cases (is_asset_report r.target_type)) [
        | inr other ↦ rw other (left staff db db.reports db.effects)
        | inl right ↦ elim (Option-cases (find (has_asset_id r.target_id) db.assets)) [
          | inl missing ↦ rw (right, missing) (left staff db db.reports db.effects)
          | inr (a, found) ↦ elim (Bool-cases (is_suspended_asset a.status)) [
            | inl done ↦ rw (right, found, done) (left staff db db.reports _)
            | inr visible ↦
                rw
                  (
                    right,
                    found,
                    visible,
                    find-own_key (λ (x : Asset). x.id) r.target_id db.assets a found,
                  )
                  (confined staff db db.users _ db.reviews db.messages db.reports _
                    (same_users staff db.users)
                    (Rows-update_first (IsLeftOr staff (set_asset_status AssetStatus.suspended))
                      (λ b. inl refl) (has_asset_id a.id) (set_asset_status AssetStatus.suspended)
                      db.assets (λ b e. inr (acting, refl)))
                    (same_reviews staff db.reviews) (same_messages staff db.messages))
          ]
        ]
      ]

      pub hide_message-IsConfined : IsConfined staff db (hide_reported_chat_message env u r db).1
      unfolding hide_reported_chat_message
      hide_message-IsConfined = elim (Bool-cases (is_message_report r.target_type)) [
        | inr other ↦ rw other (left staff db db.reports db.effects)
        | inl right ↦ elim (Option-cases (find (has_message_id r.target_id) db.messages)) [
          | inl missing ↦ rw (right, missing) (left staff db db.reports db.effects)
          | inr (m, found) ↦ elim (Bool-cases (any (has_message_id m.id) db.messages)) [
            | inr gone ↦ rw (right, found, gone) (left staff db db.reports db.effects)
            | inl there ↦
                rw (right, found, there)
                  (confined staff db db.users db.assets db.reviews _ db.reports _
                    (same_users staff db.users) (same_assets staff db.assets)
                    (same_reviews staff db.reviews)
                    (Rows-update_first (IsLeftOr staff hidden_message) (λ b. inl refl)
                      (has_message_id m.id) hidden_message db.messages (λ b e. inr (acting, refl))))
          ]
        ]
      ]

      pub suspend-IsConfined : IsConfined staff db (suspend_user env u r db).1
      unfolding suspend_user resolve_reported_user
      suspend-IsConfined = elim (Option-cases (reported_user r.target_type r.target_id db)) [
        | inl missing ↦ rw missing (left staff db db.reports db.effects)
        | inr (x, found) ↦ elim (Bool-cases (is_gone x.status || is_suspended_user x.status)) [
          | inl done ↦ rw (found, done) (left staff db db.reports _)
          | inr active ↦ elim (Bool-cases (any (has_user_id x.id) db.users)) [
            | inr gone ↦ rw (found, active, gone) (left staff db db.reports db.effects)
            | inl there ↦
                rw (found, active, there)
                  (confined staff db _ db.assets db.reviews db.messages db.reports _
                    (Rows-update_found (IsUserKept staff) (IsUserKept-refl staff) (has_user_id x.id)
                      (set_user_status UserStatus.suspended) db.users x
                      (reported_user-found r.target_type r.target_id db x found)
                      (record {
                        rest = refl;
                        score = inl refl;
                        status = inr (acting, refl, ground (arith, active), ground (arith, active));
                      }))
                    (same_assets staff db.assets) (same_reviews staff db.reviews)
                    (same_messages staff db.messages))
          ]
        ]
      ]

      -- The database between the two calls of `hide_published_review` has the review hidden.
      hide_published-IsConfined :
          (v : Review) → IsConfined staff db (hide_published_review env v db).1
      unfolding hide_published_review update_review
      hide_published-IsConfined v = elim (Option-cases (find (has_review_id v.id) db.reviews)) [
        | inl missing ↦ rw missing (left staff db db.reports db.effects)
        | inr (w, found) ↦
            let next = record db {
              reviews =
                  update_first (has_review_id v.id) (moderated ReviewStatus.hidden) db.reviews;
            } in
            let hidden : IsConfined staff db next =
              confined staff db db.users db.assets next.reviews db.messages db.reports db.effects
                (same_users staff db.users) (same_assets staff db.assets)
                (Rows-update_first (IsLeftOr staff (moderated ReviewStatus.hidden)) (λ b. inl refl)
                  (has_review_id v.id) (moderated ReviewStatus.hidden) db.reviews
                  (λ b e. inr (acting, refl)))
                (same_messages staff db.messages) in
            rw (found, recalculate_then env v.reviewee_id next)
              (IsConfined-trans staff db next _ hidden
                (recalculate-IsConfined env v.reviewee_id next acting))
      ]

      pub hide_review-IsConfined : IsConfined staff db (hide_reported_review env u r db).1
      unfolding hide_reported_review
      hide_review-IsConfined = elim (Bool-cases (is_review_report r.target_type)) [
        | inr other ↦ rw other (left staff db db.reports db.effects)
        | inl right ↦ elim (Option-cases (find (has_review_id r.target_id) db.reviews)) [
          | inl missing ↦ rw (right, missing) (left staff db db.reports db.effects)
          | inr (v, found) ↦ elim (Bool-cases (is_hidden v.status)) [
            | inl done ↦ rw (right, found, done) (left staff db db.reports _)
            | inr visible ↦ elim (Result-cases (hide_published_review env v db).0) [
              | inr (e, failed) ↦ rw (right, found, visible, failed) (hide_published-IsConfined v)
              | inl (x, fine) ↦
                  let next = (hide_published_review env v db).1 in
                  rw (right, found, visible, fine)
                    (IsConfined-trans staff db next _ (hide_published-IsConfined v)
                      (left staff next next.reports _))
            ]
          ]
        ]
      ]
