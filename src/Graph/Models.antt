-- ===== src/Graph/Models.antt =====
-- The records of internal/graph/models.go and drive_item.go that the Graph API returns.
use onecloudriver.Prelude.{ℕ, String, Bool, Option, none, some, is_some}
use onecloudriver.Prelude.Int.{ℤ, pos_part}

pub record DriveItemParent : Type 0 where
  pub path : String
  pub id : String
  pub drive_id : String
  pub drive_type : String

-- `child_count` is a uint32.
pub record Folder : Type 0 where
  pub child_count : ℕ

pub record File : Type 0 where
  pub sha1_hash : String
  pub quick_xor_hash : String

-- A pointer field is an option, and a time is its Unix seconds. `size` is a uint64.
pub record DriveItem : Type 0 where
  pub id : String
  pub name : String
  pub size : ℕ
  pub mod_time : Option ℤ
  pub parent : Option DriveItemParent
  pub folder : Option Folder
  pub file : Option File
  pub deleted : Option String
  pub conflict_behavior : String
  pub etag : String
  pub created_time : Option ℤ

-- The zero `DriveItem` with an ID and a name.
abbrev pub blank_item : String → String → DriveItem
blank_item id name = record {
  id = id;
  name = name;
  size = 0;
  mod_time = none;
  parent = none;
  folder = none;
  file = none;
  deleted = none;
  conflict_behavior = "";
  etag = "";
  created_time = none;
}

-- &DriveItemParent{ID: id}
abbrev pub parent_with_id : String → DriveItemParent
parent_with_id id = record { path = ""; id = id; drive_id = ""; drive_type = "" }

abbrev pub is_folder : DriveItem → Bool
is_folder d = is_some d.folder

-- A date before 1970 counts as 0, and so does a missing one.
unfoldable pub mod_time_unix : DriveItem → ℕ
mod_time_unix d = elim d.mod_time [ none ↦ 0 | some t ↦ pos_part t ]

-- An item of the delta endpoint: its own `Deleted` hides that of the embedded `DriveItem`.
pub record DeltaItem : Type 0 where
  pub item : DriveItem
  pub deleted : Option String
