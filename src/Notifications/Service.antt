-- ===== src/Notifications/Service.antt =====
-- NotificationsService: createMany, createManyUnique, markAsRead, markAllAsRead. The texts of the
-- notifications and the events for connected clients are left out.
use borrow_hub.Common.{
  ℕ, ◌+◌, Bool, true, false, not, ◌&&◌, none, some, List, [], ◌∷◌, ◌++◌, ◌==◌, any, find, filter,
  is_some, length, update_first, update_where,
}
use borrow_hub.Schema.{NotificationType, Notification, Reference, Env}
use borrow_hub.Store.{Exception, Action, pure, gets, require, or_raise, modify, ◌>>=◌, ◌>>◌}
use borrow_hub.Disputes.Guards.{distinct}

-- A new row; the database makes its id, and its time is that of the insertion.
abbrev pub new_notification :
    Env → (count : ℕ) → (user_id : ℕ) → NotificationType → Reference → Notification
new_notification env count user_id t ref = record {
  id = env.new_id count;
  user_id = user_id;
  type = t;
  reference = ref;
  created_at = env.now;
  read_at = none;
}

unfoldable pub create_notification :
    Env → (user_id : ℕ) → NotificationType → Reference → Action (Unit {0})
create_notification env user_id t ref = modify (λ db. record db {
  notifications =
      db.notifications ++ new_notification env (length db.notifications) user_id t ref ∷ [];
})

unfoldable pub create_many : Env → List ℕ → NotificationType → Reference → Action (Unit {0})
create_many env [] t ref = pure tt
create_many env (i ∷ is) t ref = create_notification env i t ref >> create_many env is t ref

-- What the modelled enums and references are compared by.
abbrev pub type_index : NotificationType → ℕ
type_index NotificationType.rental_tomorrow = 1
type_index NotificationType.return_reminder = 2
type_index NotificationType.rental_overdue = 3
type_index NotificationType.review_reminder = 4
type_index NotificationType.rental_request_created = 5
type_index NotificationType.rental_request_approved = 6
type_index NotificationType.rental_request_declined = 7
type_index NotificationType.payment_success = 8
type_index NotificationType.contract_ready = 9
type_index NotificationType.signature_required = 10
type_index NotificationType.contract_signed = 11
type_index NotificationType.rental_confirmed = 12
type_index NotificationType.handover_ready = 13
type_index NotificationType.handover_completed = 14
type_index NotificationType.return_requested = 15
type_index NotificationType.return_completed = 16
type_index NotificationType.availability_match = 17
type_index NotificationType.payout_completed = 18
type_index NotificationType.asset_moderated = 19
type_index NotificationType.kyc_updated = 20
type_index NotificationType.system = 21

-- The name in `referenceType`, and the id in `referenceId`.
abbrev pub reference_parts : Reference → ℕ × ℕ
reference_parts (Reference.rental i) = (1, i)
reference_parts (Reference.payment i) = (2, i)
reference_parts (Reference.payout i) = (3, i)
reference_parts (Reference.dispute i) = (4, i)
reference_parts (Reference.refund i) = (5, i)
reference_parts (Reference.handover i) = (6, i)
reference_parts (Reference.evidence i) = (7, i)
reference_parts (Reference.contract i) = (8, i)
reference_parts (Reference.qr_session i) = (9, i)
reference_parts (Reference.review i) = (10, i)
reference_parts (Reference.asset i) = (11, i)
reference_parts (Reference.support_ticket i) = (12, i)
reference_parts (Reference.report i) = (13, i)
reference_parts (Reference.user i) = (14, i)
reference_parts (Reference.message i) = (15, i)

unfoldable pub same_type : NotificationType → NotificationType → Bool
same_type s t = type_index s == type_index t

unfoldable pub same_reference : Reference → Reference → Bool
same_reference r s =
    (reference_parts r).0 == (reference_parts s).0 && (reference_parts r).1 == (reference_parts s).1

-- The `where` of `createManyUnique`; the window begins at `start`, which is given as a test so that
-- it may lie before the epoch.
abbrev pub is_repeat :
    (user_id : ℕ) → NotificationType → Reference → (is_recent : ℕ → Bool) → Notification → Bool
is_repeat user_id t ref is_recent n =
    n.user_id == user_id
    && (same_type n.type t && (same_reference n.reference ref && is_recent n.created_at))

abbrev pub create_if : Bool → Env → (user_id : ℕ) → NotificationType → Reference → Action ℕ
create_if false env i t ref = pure 0
create_if true env i t ref = create_notification env i t ref >> pure 1

-- The body of the loop of `createManyUnique`.
unfoldable pub create_unique :
    Env → (user_id : ℕ) → NotificationType → Reference → (is_recent : ℕ → Bool) → Action ℕ
create_unique env i t ref is_recent = do
  existing ← gets (λ db. any (is_repeat i t ref is_recent) db.notifications)
  create_if (not existing) env i t ref

-- The loop of `createManyUnique`, with its count.
unfoldable pub create_each_unique :
    Env → List ℕ → NotificationType → Reference → (is_recent : ℕ → Bool) → Action ℕ
create_each_unique env [] t ref is_recent = pure 0
create_each_unique env (i ∷ is) t ref is_recent = do
  n ← create_unique env i t ref is_recent
  rest ← create_each_unique env is t ref is_recent
  pure (n + rest)

abbrev pub create_many_unique :
    Env → List ℕ → NotificationType → Reference → (is_recent : ℕ → Bool) → Action ℕ
create_many_unique env ids t ref is_recent = create_each_unique env (distinct ids) t ref is_recent

abbrev pub has_notification_id : ℕ → Notification → Bool
has_notification_id id n = n.id == id

abbrev pub is_unread_of : (user_id : ℕ) → Notification → Bool
is_unread_of user_id n = n.user_id == user_id && not (is_some n.read_at)

abbrev pub set_read : (now : ℕ) → Notification → Notification
set_read now n = record n { read_at = some now }

unfoldable pub mark_as_read : Env → (user_id notification_id : ℕ) → Action Notification
mark_as_read env user_id notification_id = do
  found ← gets (λ db. find (has_notification_id notification_id) db.notifications)
  n ← or_raise found (Exception.forbidden "Notification not found")
  require (n.user_id == user_id) (Exception.forbidden "Notification not found")
  modify (λ db. record db {
    notifications =
        update_first (has_notification_id notification_id) (set_read env.now) db.notifications;
  })
  pure (set_read env.now n)

-- The number of rows that `updateMany` changed.
unfoldable pub mark_all_as_read : Env → (user_id : ℕ) → Action ℕ
mark_all_as_read env user_id = do
  count ← gets (λ db. length (filter (is_unread_of user_id) db.notifications))
  modify (λ db. record db {
    notifications = update_where (is_unread_of user_id) (set_read env.now) db.notifications;
  })
  pure count
