-- ===== src/Inodes/Fetch.antt =====
-- Listing folders through the cache (internal/fs/cache.go): hits, fetches, lookups and paths.
use onecloudriver.Prelude.{
  ℕ, suc, ◌+◌, String, Bool, true, false, ◌&&◌, ◌||◌, Option, none, some, List, [], ◌∷◌, is_some,
  ◌==◌, if◌then◌else◌,
}
use onecloudriver.Prelude.Int.{pos, ◌+ℤ◌}
use onecloudriver.Prelude.Dict
use onecloudriver.Prelude.Dict.{Dict}
use onecloudriver.Graph.Models.{DriveItem, blank_item, parent_with_id}
use onecloudriver.Inodes.Inode.{
  Inode, u32, u64, is_dir, parent_id, is_children_fetched, set_children, bump_children_access,
  new_inode_drive_item,
}
use onecloudriver.Inodes.Cache.{InodeCache, find, store, mark_dirty}
use onecloudriver.Inodes.Ttl.{register_ttl, is_children_fresh}
use onecloudriver.Inodes.SizeLimit.{update_eviction_entry}

-- The system errors that are looked for in an error's chain.
pub data SystemError : Type 0 where
  econnrefused econnreset ehostunreach enetunreach etimedout other_errno : SystemError

-- What is asked of an error of the Graph client: Timeout() and Temporary() of the first error in its
-- chain that has both, and the system errors in the chain.
pub record Fault : Type 0 where
  pub as_network : Option (Bool × Bool)
  pub chain : List SystemError

-- What can go wrong in a listing: an error of a fetcher, no fetcher at all, and the errors of a walk
-- along a path.
pub data ListError : Type 0 where
  fetch_error : Fault → ListError
  no_fetcher is_root not_found not_a_folder : ListError

pub data Listing {ℓ} (A : Type ℓ) : Type ℓ where
  listed : A → Listing A
  failed : ListError → Listing A

-- A `ChildrenFetcher` may change the cache (its offline flag); `none` is a nil fetcher.
abbrev pub Fetcher : Type 0
Fetcher = String → InodeCache → Listing (List DriveItem) × InodeCache

unfoldable pub build_child_map : InodeCache → List String → Dict Inode
build_child_map c [] = []
build_child_map c (id ∷ ids) =
    let rest = build_child_map c ids in
    elim (find c id) [
      | none ↦ rest
      | some i ↦ if is_some (Dict.get rest i.item.name) then rest else Dict.put rest i.item.name i
    ]

-- Marks the folder as used, and schedules and scores it again.
unfoldable pub touch_folder : ℕ → String → Inode → InodeCache → InodeCache
unfolding bump_children_access register_ttl update_eviction_entry
touch_folder now pid parent c =
    let p = bump_children_access now parent in
    update_eviction_entry p now (register_ttl p (store pid p c))

-- The inode of a fetched item; the parent is filled in where the API left it out.
unfoldable pub inode_of_item : String → DriveItem → Inode
unfolding new_inode_drive_item parent_id
inode_of_item pid item =
    let i = new_inode_drive_item item in
    let named = record i { item = record item { parent = some (parent_with_id pid) } } in
    if parent_id i == "" then named else i

unfoldable pub store_children : String → Bool → List DriveItem → InodeCache → InodeCache
unfolding inode_of_item
store_children pid mark [] c = c
store_children pid mark (item ∷ items) c =
    let i = inode_of_item pid item in
    let c1 = store i.item.id i c in
    store_children pid mark items (if mark then mark_dirty i.item.id c1 else c1)

unfoldable pub child_ids : List DriveItem → List String
child_ids [] = []
child_ids (item ∷ items) = item.id ∷ child_ids items

-- The map from names to inodes; a later item takes the name from an earlier one.
unfoldable pub child_map : String → List DriveItem → Dict Inode
unfolding inode_of_item
child_map pid [] = []
child_map pid (item ∷ items) =
    let rest = child_map pid items in
    let i = inode_of_item pid item in
    if is_some (Dict.get rest i.item.name) then rest else Dict.put rest i.item.name i

unfoldable pub count_dirs : Dict Inode → ℕ
count_dirs [] = 0
count_dirs ((_, i) ∷ d) = if is_dir i then suc (count_dirs d) else count_dirs d

-- The folder that stands in for a parent which the cache does not hold.
abbrev minimal_parent : String → Inode
minimal_parent pid =
    let item = blank_item pid pid in
    new_inode_drive_item (record item { folder = some (record { child_count = 0 }) })

abbrev pub or_minimal : String → Option Inode → Inode
or_minimal pid none = minimal_parent pid
or_minimal pid (some p) = p

-- What follows a successful fetch. A listing does not hold the folder itself, so the map still
-- has the parent's object when the children are in.
unfoldable pub populate : ℕ → String → Bool → List DriveItem → InodeCache → InodeCache
unfolding store_children child_map child_ids count_dirs touch_folder set_children mark_dirty
    new_inode_drive_item
populate now pid mark items c =
    let c1 = store_children pid mark items c in
    let parent = or_minimal pid (find c1 pid) in
    let was_fetched = is_children_fetched parent in
    let p = set_children now (some (child_ids items)) parent in
    let subdir = u32 (count_dirs (child_map pid items)) in
    let c2 = touch_folder now pid (record p { subdir = subdir }) c1 in
    let c3 =
      if was_fetched then c2 else record c2 { cached_folders = c2.cached_folders +ℤ pos 1 } in
    if mark then mark_dirty pid c3 else c3

abbrev pub count_hit : InodeCache → InodeCache
count_hit c = record c { hits = u64 (c.hits + 1) }

abbrev pub count_miss : InodeCache → InodeCache
count_miss c = record c { misses = u64 (c.misses + 1) }

unfoldable pub fetch_and_populate :
    ℕ → String → Fetcher → Bool → InodeCache → Listing (Dict Inode) × InodeCache
unfolding populate
fetch_and_populate now pid fetch mark c =
    let (r, c') = fetch pid c in
    elim r [
      | failed e ↦ (failed e, c')
      | listed items ↦ (listed (child_map pid items), populate now pid mark items c')
    ]

unfoldable pub serve_miss :
    ℕ → String → Option Fetcher → Bool → InodeCache → Listing (Dict Inode) × InodeCache
unfolding fetch_and_populate
serve_miss now pid none mark c = (failed no_fetcher, count_miss c)
serve_miss now pid (some fetch) mark c = fetch_and_populate now pid fetch mark (count_miss c)

unfoldable pub serve_hit :
    ℕ → String → Inode → List String → InodeCache → Listing (Dict Inode) × InodeCache
unfolding touch_folder build_child_map
serve_hit now pid parent ids c =
    let c' = touch_folder now pid parent (count_hit c) in (listed (build_child_map c' ids), c')

-- getChildren, with the flag `markDirty`: fresh children are served, others are fetched.
unfoldable pub get_children_marking :
    Bool → ℕ → String → Option Fetcher → InodeCache → Listing (Dict Inode) × InodeCache
unfolding serve_hit serve_miss is_children_fresh
get_children_marking mark now pid fetch c = elim (find c pid) [
  | none ↦ serve_miss now pid fetch mark c
  | some parent ↦ elim parent.children [
    | none ↦ serve_miss now pid fetch mark c
    | some ids ↦
        if is_children_fresh now c parent
        then serve_hit now pid parent ids c
        else serve_miss now pid fetch mark c
  ]
]

-- GetChildren
unfoldable pub get_children :
    ℕ → String → Option Fetcher → InodeCache → Listing (Dict Inode) × InodeCache
get_children = get_children_marking true

unfoldable pub prefetch_children :
    ℕ → String → Option Fetcher → InodeCache → Listing (Dict Inode) × InodeCache
prefetch_children = get_children_marking false

abbrev named : String → Listing (Dict Inode) → Listing (Option Inode)
named name (listed m) = listed (Dict.get m name)
named name (failed e) = failed e

unfoldable pub get_child :
    ℕ → String → String → Option Fetcher → InodeCache → Listing (Option Inode) × InodeCache
unfolding get_children
get_child now pid name fetch c = let (r, c') = get_children now pid fetch c in (named name r, c')

unfoldable pub items_in : String → Dict Inode → List DriveItem
unfolding parent_id
items_in pid [] = []
items_in pid ((_, i) ∷ d) =
    let rest = items_in pid d in if parent_id i == pid then i.item ∷ rest else rest

unfoldable pub items_by_parent : String → InodeCache → List DriveItem
unfolding items_in
items_by_parent pid c = items_in pid c.inodes

-- What GetPath does with the child that it found: the last component ends the walk, and the walk
-- goes on through folders alone.
pub data Visit : Type 0 where
  arrived : Inode → Visit
  enter : String → Visit
  stop : ListError → Visit

abbrev visit : Bool → Option Inode → Visit
visit last none = stop not_found
visit true (some child) = arrived child
visit false (some child) = if is_dir child then enter child.item.id else stop not_a_folder

abbrev is_last : List String → Bool
is_last [] = true
is_last (_ ∷ _) = false

-- The loop of GetPath over the components; "" and "." are skipped.
unfoldable pub walk_path :
    ℕ → String → Option Fetcher → List String → InodeCache → Listing Inode × InodeCache
unfolding get_children
walk_path now at fetch [] c = (failed not_found, c)
walk_path now at fetch (name ∷ names) c =
    let (r, c') = get_children now at fetch c in
    let skip = walk_path now at fetch names c in
    let step : Listing Inode × InodeCache = elim r [
      | failed e ↦ (failed e, c')
      | listed m ↦ elim (visit (is_last names) (Dict.get m name)) [
        | arrived child ↦ (listed child, c')
        | enter id ↦ walk_path now id fetch names c'
        | stop e ↦ (failed e, c')
      ]
    ] in
    if name == "" || name == "." then skip else step

-- `components` is the trimmed path, split at "/".
unfoldable pub get_path : ℕ → Option Fetcher → List String → InodeCache → Listing Inode × InodeCache
unfolding walk_path
get_path now fetch [] c = (failed is_root, c)
get_path now fetch (name ∷ names) c =
    if is_last names && (name == "" || name == ".")
    then (failed is_root, c)
    else walk_path now "root" fetch (name ∷ names) c
