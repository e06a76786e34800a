-- ===== src/Filesystem/State.antt =====
-- What the operations of internal/fs/fs_ops.go and drive_item_node.go work on: `nodeDeps`, and what
-- they ask of the Graph client and of the libraries.
use onecloudriver.Prelude.{ℕ, String, Bool, Option, none, some, List}
use onecloudriver.Graph.Models.{DriveItem}
use onecloudriver.Uploads.Remote.{Resource}
use onecloudriver.Uploads.Session.{UploadSession}
use onecloudriver.Uploads.Manager.{UploadManager}
use onecloudriver.Inodes.Inode.{Inode}
use onecloudriver.Inodes.Cache.{InodeCache, find, store}
use onecloudriver.Inodes.Fetch.{Listing}
use onecloudriver.Contents.Cache.{Naming, ContentCache}

-- The errors of the operations.
pub data Errno : Type 0 where
  enoent eio enotdir eisdir enotempty einval : Errno

-- A result, or an errno that is not 0.
pub data Reply {ℓ} (A : Type ℓ) : Type ℓ where
  done : A → Reply A
  errno : Errno → Reply A

-- The calls of the Graph client, over a state `W` of the server. A listing is a GET. `false` and
-- `none` are errors; a download gives what reached the reader, and whether the transfer succeeded.
pub record Drive (W : Type 0) : Type 0 where
  pub list_drive_root : W → Listing (List DriveItem)
  pub list_children : String → W → Listing (List DriveItem)
  pub create_folder : Resource → String → W → Option DriveItem × W
  pub delete_item : String → W → Bool × W
  pub rename_item : String → String → W → Bool × W
  pub move_item : String → String → W → Bool × W
  pub get_item_content_stream : String → W → (List ℕ × Bool) × W

-- strings.EqualFold, regexp (does a pattern match somewhere in a text?), and the libraries of the
-- content cache: the naming of files, and the hash of a content in base64.
pub record Library : Type 0 where
  pub equal_fold : String → String → Bool
  pub matches : String → String → Bool
  pub naming : Naming
  pub hash : List ℕ → String

-- The server, the uploads, the sessions sent to their queue and not received yet (the oldest first),
-- and the contents. The inode cache is the one that the upload manager shares, and the snapshots
-- are its files. `has_manager` is false for a nil upload manager.
pub record FileSystem (W : Type 0) : Type 0 where
  pub server : W
  pub manager : UploadManager
  pub has_manager : Bool
  pub queue : List UploadSession
  pub contents : ContentCache

module _ {W : Type 0} where
  abbrev pub cache : FileSystem W → InodeCache
  cache f = f.manager.cache

  abbrev pub set_cache : InodeCache → FileSystem W → FileSystem W
  set_cache c f = record f { manager = record f.manager { cache = c } }

  abbrev pub set_server : W → FileSystem W → FileSystem W
  set_server w f = record f { server = w }

  abbrev pub set_contents : ContentCache → FileSystem W → FileSystem W
  set_contents c f = record f { contents = c }

-- A write through the pointer that the cache holds under `id`.
unfoldable pub change_inode : String → (Inode → Inode) → InodeCache → InodeCache
change_inode id g c = elim (find c id) [ none ↦ c | some i ↦ store id (g i) c ]
