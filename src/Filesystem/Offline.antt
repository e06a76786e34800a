-- ===== src/Filesystem/Offline.antt =====
-- The offline mode of a listing (internal/fs/fs_ops.go: fetchChildrenWithOffline).
use onecloudriver.Prelude.{String, ◌≡◌, Bool, Option, none, some, List, ◌==◌}
use mathlib.Core.List.{Memᴰ}
use onecloudriver.Prelude.Dict.{Dict}
use onecloudriver.Graph.Models.{DriveItem}
use onecloudriver.Inodes.Inode.{Inode, parent_id}
use onecloudriver.Inodes.Cache.{contains_id}
use onecloudriver.Inodes.Fetch.{Listing, listed}

-- Does the cache know an inode, found under `id`, as a child of the folder? The list of the folder's
-- children tells, and where it was evicted the parent that the inode names.
abbrev pub is_child : Option (List String) → String → String → Inode → Bool
is_child (some ids) pid id i = contains_id ids id
is_child none pid id i = parent_id i == pid

-- A listing with an item.
abbrev pub IsListedWith : DriveItem → Listing (List DriveItem) → Type 0
IsListedWith x r = (items : List DriveItem) × (r ≡ listed items) × Memᴰ x items
