-- ===== src/Examples/Trees.antt =====
-- A small tree: the root lists the folder "docs" and the file "note"; "docs" is listed and empty.
-- internal/fs/cache.go on it.
use onecloudriver.Prelude.{ℕ, String, ◌≡◌, refl, true, false, Option, none, some, List, [], ◌∷◌}
use onecloudriver.Prelude.Int.{ℤ}
use onecloudriver.Prelude.Dict
use onecloudriver.Prelude.Dict.{Dict}
use onecloudriver.Graph.Models.{DriveItem, blank_item, parent_with_id}
use onecloudriver.Inodes.Inode.{Inode, new_inode_local}
use onecloudriver.Inodes.Cache.{InodeCache, Bolt, find, has, without_id}
use onecloudriver.Inodes.Tree.Marking.{insert-IsSynced}
use onecloudriver.Inodes.Tree.{insert, move_child, delete, remove_child}
use onecloudriver.Inodes.Tree.Moves.{children_of, move_child-stale}
use onecloudriver.Inodes.Tree.Runs.{
  Change, inserting, deleting, moving_id, serializing, run, run_converges,
}
use onecloudriver.Inodes.Tree.Counting.{
  CountedBy, IsCounted, flag, fetched_count, delete-IsCounted, remove_child-CountedBy,
}
use native.Mathlib.Omega.{arith}
use onecloudriver.Prelude.Int.{◌-ℤ◌}
use onecloudriver.Inodes.Inode.{evict_children}
use onecloudriver.Inodes.Cache.{EvictionEntry}
use onecloudriver.Inodes.Ttl.{evict_folder}
use onecloudriver.Inodes.SizeLimit.{
  evict_children_by_size_limit, evict_candidates, pop_evictable_candidate, pop_evictable, heap_pop,
  less, is_current, size_evictable,
}
use onecloudriver.Inodes.Pressure.{find-evict_children_by_size_limit}
use onecloudriver.Inodes.Bolt.{serialize_dirty}
use onecloudriver.Inodes.Bolt.Sync.{Agrees}
use onecloudriver.Inodes.Bolt.Convergence.{IsSynced, always, serialize_dirty-IsSynced}

abbrev pub folder_item : String → String → String → DriveItem
folder_item id name pid =
    let item = blank_item id name in
    record item { parent = some (parent_with_id pid); folder = some (record { child_count = 0 }) }

abbrev pub file_item : String → String → String → DriveItem
file_item id name pid =
    let item = blank_item id name in record item { parent = some (parent_with_id pid); etag = "v1" }

abbrev pub plain : DriveItem → Option (List String) → Inode
plain item children = record {
  item = item;
  children = children;
  subdir = 0;
  mode = 0;
  has_changes = false;
  access_count = 0;
  last_access = 0;
  cached_at = 0;
}

abbrev pub root : Inode
root = plain (folder_item "root" "root" "") (some ("d1" ∷ "f1" ∷ []))

abbrev pub docs : Inode
docs = plain (folder_item "d1" "docs" "root") (some [])

abbrev pub note : Inode
note = plain (file_item "f1" "note" "root") none

abbrev pub tree : Dict Inode
tree = ("root", root) ∷ ("d1", docs) ∷ ("f1", note) ∷ []

abbrev pub disk : Bolt
disk = record { metadata = tree; link = none; uploads = []; commits = [] }

-- The cache that was just written to the database.
abbrev pub saved : InodeCache
saved = record {
  inodes = tree;
  hits = 0;
  misses = 0;
  evictions = 0;
  db = some disk;
  offline = false;
  max_entries = 2000;
  base_ttl = 60_000_000_000;
  dirty = [];
  deleted = [];
  ttl_buckets = λ _. [];
  last_sweep = 0;
  eviction_heap = [];
  eviction_generation = [];
  cached_folders = ℤ.pos 2;
}

Agrees-same : (o : Option Inode) → Agrees o o
Agrees-same none = refl
Agrees-same (some i) = λ _. refl

pub saved-IsSynced : IsSynced disk saved
unfolding Dict.get
saved-IsSynced = record {
  opened = refl;
  unmarked = λ id _ _. Agrees-same (Dict.get tree id);
  absent = λ id h. cc;
}

saved-IsCounted : IsCounted saved
unfolding fetched_count Dict.get
saved-IsCounted = record { keyed = (refl, (refl, (refl, tt))); counted = refl }

move_child-stale_example :
    let c = move_child 7 "root" "d1" "f1" saved in
    (children_of (find c "root") ≡ some (without_id ("d1" ∷ "f1" ∷ []) "f1"))
    × (c.db ≡ some disk)
    × (children_of (Dict.get disk.metadata "root") ≡ some ("d1" ∷ "f1" ∷ []))
    × (has c.dirty "root" ≡ false)
    × (has c.deleted "root" ≡ false)
unfolding Dict.get
move_child-stale_example =
    move_child-stale 7 "root" "d1" "f1" saved note root disk saved-IsSynced refl refl
      ("d1" ∷ "f1" ∷ []) refl refl refl refl refl

delete-IsCounted_example : IsCounted (delete "d1" saved)
delete-IsCounted_example = delete-IsCounted saved saved-IsCounted "d1"

remove_child-CountedBy_example : CountedBy (flag (find saved "d1")) (remove_child "root" "d1" saved)
remove_child-CountedBy_example = remove_child-CountedBy saved saved-IsCounted "root" "d1"

-- A new file, a failed write of everything, and the upload of the file.
abbrev pub changes : List Change
changes =
    inserting 7 (new_inode_local "local-1" "todo" 0o100644 (some root))
    ∷ serializing (λ _. false) always
    ∷ moving_id "local-1" "f2"
    ∷ deleting "f1"
    ∷ []

run_converges_example :
    let r = serialize_dirty always always (run changes saved) in
    (b : Bolt) × (r.0 ≡ true)
    × (r.1.db ≡ some b)
    × ((id : String) → Agrees (find (run changes saved) id) (Dict.get b.metadata id))
    × (r.1.dirty ≡ [])
    × (r.1.deleted ≡ [])
run_converges_example = run_converges changes disk saved saved-IsSynced

abbrev pub edited : InodeCache
edited = insert 7 (new_inode_local "local-1" "todo" 0o100644 (some root)) saved

serialize_dirty-IsSynced_example :
    (b : Bolt) × IsSynced b (serialize_dirty always (λ _. false) edited).1
serialize_dirty-IsSynced_example =
    serialize_dirty-IsSynced always (λ _. false) disk edited
      (insert-IsSynced disk saved saved-IsSynced 7
        (new_inode_local "local-1" "todo" 0o100644 (some root)))

-- The root was just read, "docs" is idle, and only one listed folder is allowed.
abbrev busy : Inode
busy = record root { last_access = 10_000_000_000 }

abbrev entry : String → ℕ → EvictionEntry
entry id hits = record {
  id = id;
  score = record { hits = hits; idle = 0 };
  age = 0;
  generation = 1;
}

abbrev crowded : InodeCache
crowded = record saved {
  inodes = ("root", busy) ∷ ("d1", docs) ∷ ("f1", note) ∷ [];
  max_entries = 1;
  eviction_heap = entry "root" 4 ∷ entry "d1" 0 ∷ [];
  eviction_generation = ("root", 1) ∷ ("d1", 1) ∷ [];
}

crowded-IsCounted : IsCounted crowded
unfolding fetched_count Dict.get
crowded-IsCounted = record { keyed = (refl, (refl, (refl, tt))); counted = refl }

find-evict_children_by_size_limit_example :
    find (evict_children_by_size_limit 12_000_000_000 crowded) "root" ≡ some busy
unfolding Dict.get
find-evict_children_by_size_limit_example =
    find-evict_children_by_size_limit "root" busy 12_000_000_000 (omega arith) crowded refl

-- The idle folder goes.
evicted_docs : children_of (find (evict_children_by_size_limit 12_000_000_000 crowded) "d1") ≡ none
unfolding evict_children_by_size_limit evict_candidates pop_evictable_candidate pop_evictable
    heap_pop less is_current size_evictable evict_folder evict_children Dict.get Dict.put
    Dict.remove ◌-ℤ◌
evicted_docs = refl
