-- ===== src/Notifications/Once.antt =====
-- A reminder is sent once in its window.
use borrow_hub.Common.{
  ℕ, ◌+◌, Bool, true, ◌≡◌, refl, sym, List, [], ◌∷◌, ◌++◌, ==_refl, arith, All, any, length, inl,
  inr, Bool-cases,
}
use mathlib.Core.Path.{subst}
use borrow_hub.Schema.{NotificationType, Notification, Reference, Database, Env}
use borrow_hub.Store.{ok}
use borrow_hub.Notifications.Service.{
  new_notification, create_notification, create_unique, create_each_unique, create_many_unique,
  is_repeat, same_type, same_reference,
}
use borrow_hub.Disputes.Guards.{distinct}

any-append :
    {A : Type 0} (p : A → Bool) (xs ys : List A) → any p xs ≡ true → any p (xs ++ ys) ≡ true
any-append p [] ys h = cc
any-append p (x ∷ xs) ys h = ground (arith, h, any-append p xs ys)

any_last :
    {A : Type 0} (p : A → Bool) (xs : List A) (x : A) → p x ≡ true → any p (xs ++ x ∷ []) ≡ true
any_last p [] x h = ground (arith, h)
any_last p (y ∷ ys) x h = ground (arith, any_last p ys x h)

same_type_refl : (t : NotificationType) → same_type t t ≡ true
unfolding same_type
same_type_refl t = ==_refl _

same_reference_refl : (r : Reference) → same_reference r r ≡ true
unfolding same_reference
same_reference_refl r = rw (==_refl, ==_refl) refl

module _ (t : NotificationType) (ref : Reference) (is_recent : ℕ → Bool) where
  -- The notification is there already.
  abbrev pub IsKnown : List Notification → ℕ → Type 0
  IsKnown ns i = any (is_repeat i t ref is_recent) ns ≡ true

  create_unique-known :
      (env : Env) (i : ℕ) (db : Database)
      → IsKnown db.notifications i
      → create_unique env i t ref is_recent db ≡ (ok 0, db)
  unfolding create_unique
  create_unique-known env i db h = rw h refl

  -- When every user has it, the loop does nothing.
  known-again :
      (env : Env) (is : List ℕ) (db : Database)
      → All (IsKnown db.notifications) is
      → create_each_unique env is t ref is_recent db ≡ (ok 0, db)
  unfolding create_each_unique
  known-again env [] db h = refl
  known-again env (i ∷ is) db h =
      rw (create_unique-known env i db h.0, known-again env is db h.1) refl

  module _ (env : Env) (now_recent : is_recent env.now ≡ true) where
    create_unique-knows :
        (i : ℕ) (db : Database)
        → (n : ℕ) × ((create_unique env i t ref is_recent db).0 ≡ ok n)
          × IsKnown (create_unique env i t ref is_recent db).1.notifications i
          × ((j : ℕ)
              → IsKnown db.notifications j
              → IsKnown (create_unique env i t ref is_recent db).1.notifications j)
    unfolding create_unique create_notification
    create_unique-knows i db =
        elim (Bool-cases (any (is_repeat i t ref is_recent) db.notifications)) [
          | inl known ↦ (0, rw known refl, rw known known, λ j h. rw known h)
          | inr new ↦
              let x = new_notification env (length db.notifications) i t ref in
              let hit : is_repeat i t ref is_recent x ≡ true =
                ground (arith, same_type_refl t, same_reference_refl ref, now_recent) in
              (
                1,
                rw new refl,
                rw new (any_last (is_repeat i t ref is_recent) db.notifications x hit),
                λ j h.
                    rw new (any-append (is_repeat j t ref is_recent) db.notifications (x ∷ []) h),
              )
        ]

    create_each-knows :
        (is : List ℕ) (db : Database)
        → (n : ℕ) × ((create_each_unique env is t ref is_recent db).0 ≡ ok n)
          × All (IsKnown (create_each_unique env is t ref is_recent db).1.notifications) is
          × ((j : ℕ)
              → IsKnown db.notifications j
              → IsKnown (create_each_unique env is t ref is_recent db).1.notifications j)
    unfolding create_each_unique
    create_each-knows [] db = (0, refl, tt, λ j h. h)
    create_each-knows (i ∷ is) db =
        let (n, fine, knows, keeps) = create_unique-knows i db in
        let mid = (create_unique env i t ref is_recent db).1 in
        let (m, done, all, still) = create_each-knows is mid in
        let same : (create_each_unique env (i ∷ is) t ref is_recent db).1
            ≡ (create_each_unique env is t ref is_recent mid).1 =
          rw (fine, done) refl in
        (
          n + m,
          rw (fine, done) refl,
          subst (λ (d : Database). All (IsKnown d.notifications) (i ∷ is)) (sym same)
              (still i knows, all),
          λ j h. rw same (still j (keeps j h)),
        )

    -- If a reminder is sent at a time that is in its window, then sent again, at any time, with the
    -- same window, it reaches nobody, and nothing is changed.
    pub create_many_unique-once :
        (later : Env) (ids : List ℕ) (db : Database)
        → create_many_unique later ids t ref is_recent
            (create_many_unique env ids t ref is_recent db).1
          ≡ (ok 0, (create_many_unique env ids t ref is_recent db).1)
    create_many_unique-once later ids db =
        let (n, fine, all, still) = create_each-knows (distinct ids) db in
        known-again later (distinct ids) (create_many_unique env ids t ref is_recent db).1 all
