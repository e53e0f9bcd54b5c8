-- ===== src/Schema/Listings.antt =====
-- The rows of the listings: assets and the categories that they stand in.
use borrow_hub.Common.{ℕ, String, Bool, Option, List}
use borrow_hub.Common.Int.{ℤ}
use borrow_hub.Schema.Enums.{AssetStatus, AssetCondition, CategoryStatus}

-- The rows of `asset_images` and `asset_accessories`, which only come with their asset.
pub record AssetImage : Type 0 where
  pub url : String
  pub file_key : Option String
  pub sort_order : ℕ
  pub is_cover : Bool

pub record AssetAccessory : Type 0 where
  pub name : String
  pub quantity : ℕ
  pub description : Option String

-- A coordinate is a `Float` column; here it is a count of some fixed fraction of a degree. The JSON
-- column of the delivery options is read as an array if it is one; an element that is no text is
-- `none`.
pub record Asset : Type 0 where
  pub id : ℕ
  pub owner_id : ℕ
  pub category_id : ℕ
  pub title : String
  pub description : String
  pub brand : Option String
  pub model : Option String
  pub serial_number : Option String
  pub condition : AssetCondition
  pub estimated_value : ℕ
  pub price_per_day : ℕ
  pub minimum_duration_days : ℕ
  pub maximum_duration_days : ℕ
  pub city : String
  pub district : String
  pub ward : Option String
  pub latitude : Option ℤ
  pub longitude : Option ℤ
  pub meeting_point : Option String
  pub delivery_options : Option (List (Option String))
  pub usage_instructions : Option String
  pub cancellation_policy : Option String
  pub status : AssetStatus
  pub created_at : ℕ
  pub images : List AssetImage
  pub accessories : List AssetAccessory

pub record Category : Type 0 where
  pub id : ℕ
  pub parent_id : Option ℕ
  pub status : CategoryStatus
