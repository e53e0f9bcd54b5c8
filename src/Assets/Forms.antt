-- ===== src/Assets/Forms.antt =====
-- AssetsService: the bodies of the requests, and the rows that they make. A field of a request that is sent as `null` is
-- left out.
use borrow_hub.Common.{
  ℕ, suc, String, Bool, not, Option, none, some, List, [], ◌∷◌, ◌++◌, ◌==◌, filter, or_else,
  first_some,
}
use borrow_hub.Common.Int.{ℤ}
use borrow_hub.Schema.{
  AssetStatus, AssetCondition, AvailabilityType, Asset, AssetImage, AssetAccessory,
  AssetAvailability, AuthenticatedUser, Env,
}
use borrow_hub.Assets.Guards.{AssetAvailabilityDto}

pub record AssetImageDto : Type 0 where
  pub url : String
  pub file_key : Option String
  pub sort_order : Option ℕ
  pub is_cover : Option Bool

pub record CreateAssetDto : Type 0 where
  pub category_id : Option ℕ
  pub title : String
  pub description : String
  pub brand : Option String
  pub model : Option String
  pub serial_number : Option String
  pub condition : AssetCondition
  pub estimated_value : ℕ
  pub price_per_day : ℕ
  pub minimum_duration_days : ℕ
  pub maximum_duration_days : ℕ
  pub city : String
  pub district : String
  pub ward : Option String
  pub latitude : Option ℤ
  pub longitude : Option ℤ
  pub meeting_point : Option String
  pub delivery_options : Option (List (Option String))
  pub usage_instructions : Option String
  pub cancellation_policy : Option String
  pub images : Option (List AssetImageDto)
  pub accessories : Option (List AssetAccessory)
  pub availability : Option (List AssetAvailabilityDto)

pub record UpdateAssetDto : Type 0 where
  pub category_id : Option ℕ
  pub title : Option String
  pub description : Option String
  pub brand : Option String
  pub model : Option String
  pub serial_number : Option String
  pub condition : Option AssetCondition
  pub estimated_value : Option ℕ
  pub price_per_day : Option ℕ
  pub minimum_duration_days : Option ℕ
  pub maximum_duration_days : Option ℕ
  pub city : Option String
  pub district : Option String
  pub ward : Option String
  pub latitude : Option ℤ
  pub longitude : Option ℤ
  pub meeting_point : Option String
  pub delivery_options : Option (List (Option String))
  pub usage_instructions : Option String
  pub cancellation_policy : Option String
  pub images : Option (List AssetImageDto)
  pub accessories : Option (List AssetAccessory)
  pub availability : Option (List AssetAvailabilityDto)

-- The callback of `dto.images.map`, from the given index on.
abbrev pub new_images : (index : ℕ) → List AssetImageDto → List AssetImage
new_images index [] = []
new_images index (i ∷ is) =
    record {
      url = i.url;
      file_key = i.file_key;
      sort_order = or_else i.sort_order index;
      is_cover = or_else i.is_cover (index == 0);
    }
    ∷ new_images (suc index) is

abbrev pub new_window : (asset_id : ℕ) → AssetAvailabilityDto → AssetAvailability
new_window asset_id w = record {
  asset_id = asset_id;
  start_at = w.start_at;
  end_at = w.end_at;
  availability_type = or_else w.availability_type AvailabilityType.blocked;
}

abbrev pub new_windows : (asset_id : ℕ) → List AssetAvailabilityDto → List AssetAvailability
new_windows asset_id [] = []
new_windows asset_id (w ∷ ws) = new_window asset_id w ∷ new_windows asset_id ws

abbrev pub new_asset : Env → AuthenticatedUser → (category_id : ℕ) → CreateAssetDto → Asset
new_asset env u category_id dto = record {
  id = env.new_id 0;
  owner_id = u.id;
  category_id = category_id;
  title = dto.title;
  description = dto.description;
  brand = dto.brand;
  model = dto.model;
  serial_number = dto.serial_number;
  condition = dto.condition;
  estimated_value = dto.estimated_value;
  price_per_day = dto.price_per_day;
  minimum_duration_days = dto.minimum_duration_days;
  maximum_duration_days = dto.maximum_duration_days;
  city = dto.city;
  district = dto.district;
  ward = dto.ward;
  latitude = dto.latitude;
  longitude = dto.longitude;
  meeting_point = dto.meeting_point;
  delivery_options = dto.delivery_options;
  usage_instructions = dto.usage_instructions;
  cancellation_policy = dto.cancellation_policy;
  status = AssetStatus.pending_review;
  created_at = env.now;
  images = new_images 0 (or_else dto.images []);
  accessories = or_else dto.accessories [];
}

abbrev pub status_after_edit : AssetStatus → AssetStatus
status_after_edit AssetStatus.rejected = AssetStatus.pending_review
status_after_edit AssetStatus.draft = AssetStatus.pending_review
status_after_edit status = status

abbrev pub images_after : Option (List AssetImageDto) → List AssetImage → List AssetImage
images_after none is = is
images_after (some new) is = new_images 0 new

-- The data of `asset.update` in `update`; `status` is of the row that was read first.
abbrev pub edited_asset : UpdateAssetDto → AssetStatus → Asset → Asset
edited_asset dto status a = record {
  id = a.id;
  owner_id = a.owner_id;
  category_id = or_else dto.category_id a.category_id;
  title = or_else dto.title a.title;
  description = or_else dto.description a.description;
  brand = first_some dto.brand a.brand;
  model = first_some dto.model a.model;
  serial_number = first_some dto.serial_number a.serial_number;
  condition = or_else dto.condition a.condition;
  estimated_value = or_else dto.estimated_value a.estimated_value;
  price_per_day = or_else dto.price_per_day a.price_per_day;
  minimum_duration_days = or_else dto.minimum_duration_days a.minimum_duration_days;
  maximum_duration_days = or_else dto.maximum_duration_days a.maximum_duration_days;
  city = or_else dto.city a.city;
  district = or_else dto.district a.district;
  ward = first_some dto.ward a.ward;
  latitude = first_some dto.latitude a.latitude;
  longitude = first_some dto.longitude a.longitude;
  meeting_point = first_some dto.meeting_point a.meeting_point;
  delivery_options = first_some dto.delivery_options a.delivery_options;
  usage_instructions = first_some dto.usage_instructions a.usage_instructions;
  cancellation_policy = first_some dto.cancellation_policy a.cancellation_policy;
  status = status_after_edit status;
  created_at = a.created_at;
  images = images_after dto.images a.images;
  accessories = or_else dto.accessories a.accessories;
}

-- The deletion and the creation of the windows in `update`.
abbrev pub windows_after :
    (asset_id : ℕ)
    → Option (List AssetAvailabilityDto)
    → List AssetAvailability
    → List AssetAvailability
windows_after asset_id none ws = ws
windows_after asset_id (some new) ws =
    filter (λ w. not (w.asset_id == asset_id)) ws ++ new_windows asset_id new
