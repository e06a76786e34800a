-- ===== src/Examples/Listings.antt =====
-- A listing of the small tree that is fetched and then served: internal/fs/cache.go.
use native.Mathlib.Omega.{arith}
use onecloudriver.Prelude.{true, ◌≡◌, refl, ◌+◌, none, List, [], ◌∷◌}
use onecloudriver.Graph.Models.{DriveItem}
use onecloudriver.Inodes.Inode.{u64}
use onecloudriver.Inodes.Cache.{InodeCache, contains_id}
use onecloudriver.Inodes.Fetch.{listed, populate, get_children, child_map, child_ids}
use onecloudriver.Inodes.Hits.{get_children-populate}
use onecloudriver.Examples.Trees.{saved, file_item, folder_item}

abbrev items : List DriveItem
items = file_item "f3" "plan" "d1" ∷ folder_item "d4" "old" "" ∷ []

abbrev after_fetch : InodeCache
after_fetch = populate 7 "d1" true items saved

get_children-populate_example :
    let r = get_children 9 "d1" none after_fetch in
    (r.0 ≡ listed (child_map "d1" items))
    × (r.1.hits ≡ u64 (after_fetch.hits + 1))
    × (r.1.misses ≡ after_fetch.misses)
unfolding child_ids contains_id
get_children-populate_example =
    get_children-populate 7 "d1" true items saved 9 (omega arith) (refl, (refl, tt)) refl
