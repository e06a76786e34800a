-- ===== src/Uploads/Remote.antt =====
-- What internal/fs/upload_manager.go asks of the Graph client (internal/graph/upload.go and
-- items.go), as an interface over a state `W` of the server.
use onecloudriver.Prelude.{ℕ, String, Bool, List}
use onecloudriver.Graph.Models.{DriveItem}

-- An error by what the upload code asks of it: its text, `isNetworkError`, and whether it wraps
-- ErrPreconditionFailed (HTTP 412). Wrapping an error keeps the last two.
pub record Failure : Type 0 where
  pub message : String
  pub network : Bool
  pub precondition : Bool

pub data Answer {ℓ} (A : Type ℓ) : Type ℓ where
  failed : Failure → Answer A
  answered : A → Answer A

-- A resource of the API: by path or by ID.
pub data Resource : Type 0 where
  item_path item_id : String → Resource

-- Contents are bytes, and the streams come with their announced size. The strings that follow are
-- the ETag for If-Match, "" for none.
pub record Remote (W : Type 0) : Type 0 where
  pub overwrite_item : String → List ℕ → String → W → Answer DriveItem × W
  pub overwrite_item_stream : String → List ℕ → ℕ → String → W → Answer DriveItem × W
  pub upload_item : Resource → String → List ℕ → String → W → Answer DriveItem × W
  pub upload_item_stream : Resource → String → List ℕ → ℕ → String → W → Answer DriveItem × W
  pub rename_item : Resource → String → String → W → Answer DriveItem × W
  pub move_item : Resource → Resource → String → W → Answer DriveItem × W
