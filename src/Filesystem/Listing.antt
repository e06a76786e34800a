-- ===== src/Filesystem/Listing.antt =====
-- Listings of folders for FUSE (internal/fs/fs_ops.go, root.go): the fetch with its offline fallback,
-- and the search for a child by name.
use onecloudriver.Prelude.{
  ℕ, String, Bool, true, false, ◌||◌, Option, none, some, List, [], ◌∷◌, ◌==◌, if◌then◌else◌,
}
use onecloudriver.Prelude.Dict
use onecloudriver.Prelude.Dict.{Dict}
use onecloudriver.Graph.Models.{DriveItem}
use onecloudriver.Inodes.Inode.{Inode, mode_of}
use onecloudriver.Inodes.Cache.{InodeCache, find, set_offline}
use onecloudriver.Inodes.Fetch.{
  Listing, listed, failed, ListError, fetch_error, SystemError, econnrefused, econnreset,
  ehostunreach, enetunreach, etimedout, other_errno, no_fetcher, is_root, not_found, not_a_folder,
  Fetcher, get_children, items_by_parent,
}
use onecloudriver.Filesystem.State.{
  enoent, eio, Reply, done, errno, Drive, FileSystem, cache, set_cache,
}

-- fetchChildrenFromGraph
unfoldable pub fetch_children_from_graph :
    {W : Type 0} → Drive W → String → W → Listing (List DriveItem)
fetch_children_from_graph drive pid w =
    if pid == "root" || pid == "" then drive.list_drive_root w else drive.list_children pid w

-- The connection errors that net.OpError.Temporary() does not report.
abbrev pub is_connection_errno : SystemError → Bool
is_connection_errno econnrefused = true
is_connection_errno econnreset = true
is_connection_errno ehostunreach = true
is_connection_errno enetunreach = true
is_connection_errno etimedout = true
is_connection_errno other_errno = false

abbrev pub has_connection_errno : List SystemError → Bool
has_connection_errno [] = false
has_connection_errno (e ∷ es) = is_connection_errno e || has_connection_errno es

abbrev pub is_transient : Option (Bool × Bool) → Bool
is_transient none = false
is_transient (some (timeout, temporary)) = timeout || temporary

-- isNetworkError. The errors that the cache makes itself wrap no other.
abbrev pub is_network_error : ListError → Bool
is_network_error (fetch_error fault) =
    is_transient fault.as_network || has_connection_errno fault.chain
is_network_error no_fetcher = false
is_network_error is_root = false
is_network_error not_found = false
is_network_error not_a_folder = false

unfoldable pub cached_items : InodeCache → List String → List DriveItem
cached_items c [] = []
cached_items c (id ∷ ids) =
    let rest = cached_items c ids in elim (find c id) [ none ↦ rest | some i ↦ i.item ∷ rest ]

-- The children of a folder whose list was evicted, by the parent that they name.
abbrev pub rebuilt : ListError → List DriveItem → Listing (List DriveItem)
rebuilt e [] = failed e
rebuilt e (i ∷ is) = listed (i ∷ is)

-- What is served without the network.
unfoldable pub serve_offline : ListError → String → InodeCache → Listing (List DriveItem)
unfolding cached_items items_by_parent
serve_offline e pid c =
    let orphans = rebuilt e (items_by_parent pid c) in
    elim (find c pid) [
      | none ↦ orphans
      | some parent ↦ elim parent.children [
        | none ↦ orphans
        | some ids ↦ listed (cached_items c ids)
      ]
    ]

unfoldable pub fetch_children_with_offline :
    Listing (List DriveItem) → String → InodeCache → Listing (List DriveItem) × InodeCache
unfolding serve_offline set_offline
fetch_children_with_offline (listed items) pid c =
    (listed items, if c.offline then set_offline false c else c)
fetch_children_with_offline (failed e) pid c =
    let c' = set_offline true c in
    if is_network_error e then (serve_offline e pid c', c') else (failed e, c)

-- The fetcher of a node, at the present state of the server.
unfoldable pub fetch_children : {W : Type 0} → Drive W → W → Fetcher
unfolding fetch_children_with_offline fetch_children_from_graph
fetch_children drive w pid c =
    fetch_children_with_offline (fetch_children_from_graph drive pid w) pid c

abbrev pub child_named : String → Listing (Dict Inode) → Reply Inode
child_named name (failed e) = errno eio
child_named name (listed m) = elim (Dict.get m name) [ none ↦ errno enoent | some i ↦ done i ]

-- The names and modes of a folder's entries.
unfoldable pub entries_of : Dict Inode → List (String × ℕ)
unfolding mode_of
entries_of [] = []
entries_of ((_, i) ∷ m) = (i.item.name, mode_of i) ∷ entries_of m

module _ {W : Type 0} (drive : Drive W) where
  -- The state after a listing, which is all that a listing changes.
  unfoldable pub list_folder : ℕ → String → FileSystem W → Listing (Dict Inode) × FileSystem W
  unfolding get_children fetch_children
  list_folder now pid f =
      let (r, c) = get_children now pid (some (fetch_children drive f.server)) (cache f) in
      (r, set_cache c f)

  unfoldable pub lookup_child : ℕ → String → String → FileSystem W → Reply Inode × FileSystem W
  unfolding list_folder
  lookup_child now pid name f = let (r, f') = list_folder now pid f in (child_named name r, f')

  unfoldable pub readdir_children :
      ℕ → String → FileSystem W → Reply (List (String × ℕ)) × FileSystem W
  unfolding list_folder entries_of
  readdir_children now pid f =
      let (r, f') = list_folder now pid f in
      elim r [ failed e ↦ (errno eio, f') | listed m ↦ (done (entries_of m), f') ]
