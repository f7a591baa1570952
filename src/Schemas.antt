-- ===== src/Schemas.antt =====
-- app/api/schemas.py: the request and response models. Floats are `Number`s.
pub mod Validate
pub mod Bounds
pub mod Date
pub mod Request
use image_descriptor.Prelude.{ℕ, String, Bool, Option, none, List, []}
use image_descriptor.Prelude.Number.{Number}

pub record DescribeRequest : Type 0 where
  pub thumbnail : String
  pub coordinates : List Number
  pub bbox : Option (List Number)
  pub captured_at : Option String
  pub cog_image_id : Option String
  pub stac_id : Option String

-- the same fields; the thumbnail's size is not validated
pub record BatchDescribeItem : Type 0 where
  pub thumbnail : String
  pub coordinates : List Number
  pub bbox : Option (List Number)
  pub captured_at : Option String
  pub cog_image_id : Option String
  pub stac_id : Option String

pub record Location : Type 0 where
  pub country : String
  pub country_code : String
  pub region : String
  pub city : Option String
  pub place_name : String
  pub lat : Number
  pub lon : Number

pub record LandCoverClass : Type 0 where
  pub tag : String
  pub label : String
  pub percentage : Option ℕ

pub record LandCover : Type 0 where
  pub classes : List LandCoverClass
  pub summary : String

pub record Event : Type 0 where
  pub title : String
  pub date : String
  pub source_url : String
  pub relevance : String

pub record Context : Type 0 where
  pub events : List Event
  pub summary : String

pub record Mission : Type 0 where
  pub platform : String
  pub instrument : String
  pub constellation : Option String
  pub processing_level : Option String
  pub cloud_cover : Option Number
  pub gsd : Option Number
  pub spectral_bands : Option ℕ

-- `Warning`
pub record Warned : Type 0 where
  pub service : String
  pub error : String

pub record DescribeResponse : Type 0 where
  pub description : Option String
  pub location : Option Location
  pub land_cover : Option LandCover
  pub context : Option Context
  pub mission : Option Mission
  pub warnings : List Warned
  pub cached : Bool
  pub saved : Option Bool

pub record BatchItemError : Type 0 where
  pub error_type : String
  pub message : String

pub record BatchItemResult : Type 0 where
  pub index : ℕ
  pub result : Option DescribeResponse
  pub error : Option String
  pub error_detail : Option BatchItemError

pub record BatchDescribeResponse : Type 0 where
  pub results : List BatchItemResult
  pub total : ℕ
  pub succeeded : ℕ
  pub failed : ℕ
  pub interrupted : ℕ

abbrev pub max_batch_size : ℕ
max_batch_size = 10
