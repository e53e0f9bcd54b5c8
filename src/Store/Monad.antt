-- ===== src/Store/Monad.antt =====
-- Exceptions of `@nestjs/common`, and the monad of an async method that reads and writes the
-- database.
use borrow_hub.Common.{
  inr, inl, ◌⊎◌, ◌≡◌, refl, String, Bool, true, false, Option, none, some, [], ◌∷◌, ◌++◌,
}
use borrow_hub.Schema.{RentalStatus, Database, Effect}

pub data Exception : Type 0 where
  not_found forbidden conflict bad_request unauthorized : String → Exception
  -- ConflictException(`Rental is in status ${current} and cannot perform this action`)
  wrong_status : RentalStatus → Exception
  -- Prisma's P2025, a row to update is missing, and P2002, a unique index is violated
  record_missing unique_violation : Exception
  -- Prisma's error on a number that its `Int` column cannot hold
  out_of_range : Exception

pub data Result (A : Type 0) : Type 0 where
  ok : A → Result A
  err : Exception → Result A

abbrev pub Action : Type 0 → Type 0
Action A = Database → Result A × Database

module _ {A : Type 0} where
  abbrev pub pure : A → Action A
  pure a db = (ok a, db)

  abbrev pub raise : Exception → Action A
  raise e db = (err e, db)

  abbrev pub gets : (Database → A) → Action A
  gets f db = (ok (f db), db)

  -- `if (!row) throw e`
  abbrev pub or_raise : Option A → Exception → Action A
  or_raise none e = raise e
  or_raise (some a) e = pure a

module _ {A B : Type 0} where
  abbrev pub continue : Result A → (A → Action B) → Action B
  continue (ok a) f db = f a db
  continue (err e) f db = (err e, db)

infixl 5 ◌>>=◌ ◌>>◌
abbrev pub ◌>>=◌ : {A B : Type 0} → Action A → (A → Action B) → Action B
◌>>=◌ m f db = continue (m db).0 f (m db).1

abbrev pub ◌>>◌ : {A B : Type 0} → Action A → Action B → Action B
m >> k = m >>= λ _. k

-- `if (!test) throw e`
abbrev pub require : Bool → Exception → Action (Unit {0})
require true e db = (ok tt, db)
require false e db = (err e, db)

abbrev pub modify : (Database → Database) → Action (Unit {0})
modify f db = (ok tt, f db)

-- `if (test) { … }`
abbrev pub when : Bool → Action (Unit {0}) → Action (Unit {0})
when true m = m
when false m = pure tt

-- `if (row) { … }`
abbrev pub for_some : {A : Type 0} → Option A → (A → Action (Unit {0})) → Action (Unit {0})
for_some none f = pure tt
for_some (some a) f = f a

module _ {A : Type 0} where
  abbrev pub commit : Result A → Database → Database → Result A × Database
  commit (ok a) before after = (ok a, after)
  commit (err e) before after = (err e, before)

  -- `prisma.$transaction`
  abbrev pub transaction : Action A → Action A
  transaction m db = commit (m db).0 db (m db).1

  abbrev pub rescue : Result A → (Exception → Action A) → Action A
  rescue (ok a) handler db = (ok a, db)
  rescue (err e) handler db = handler e db

  -- `try { … } catch (error) { … }`
  abbrev pub try_catch : Action A → (Exception → Action A) → Action A
  try_catch m handler db = rescue (m db).0 handler (m db).1

-- A call of a sibling service, which is recorded.
abbrev pub emit : Effect → Action (Unit {0})
emit e db = (ok tt, record db { effects = db.effects ++ e ∷ [] })

-- To split on a result and keep the equation.
pub Result-cases :
    {A : Type 0} (r : Result A) → ((a : A) × (r ≡ ok a)) ⊎ ((e : Exception) × (r ≡ err e))
Result-cases (ok a) = inl (a, refl)
Result-cases (err e) = inr (e, refl)
