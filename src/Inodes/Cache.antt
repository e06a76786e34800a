-- ===== src/Inodes/Cache.antt =====
-- The state of `InodeCache` (internal/fs/cache.go), its counters, and the bookkeeping that every
-- mutation shares: the dirty and deleted sets, and the children list of a folder.
-- The counter of serialized bytes, the database's path and the locks are left out.
use onecloudriver.Prelude.{
  ℕ, ◌+◌, ◌-◌, String, Bool, false, ◌&&◌, ◌||◌, Option, none, some, List, [], ◌∷◌, ◌++◌, is_some,
  ltb, ◌==◌, if◌then◌else◌,
}
use onecloudriver.Prelude.Int.{ℤ}
use onecloudriver.Prelude.Dict
use onecloudriver.Prelude.Dict.{Dict}
use onecloudriver.Uploads.Session.{StoredSession}
use onecloudriver.Inodes.Inode.{Inode, u32}

pub record TtlEntry : Type 0 where
  pub inode_id : String
  pub expiry : ℕ

-- The score of a folder, hits / (minutes idle + 1), as an exact fraction: the hits, and the idle
-- time in nanoseconds.
pub record Score : Type 0 where
  pub hits : ℕ
  pub idle : ℕ

pub record EvictionEntry : Type 0 where
  pub id : String
  pub score : Score
  pub age : ℕ
  pub generation : ℕ

-- The three buckets of the database. An inode is stored by its JSON form, which keeps every field
-- of `Inode` (times to the millisecond). `commits` tells what will become of the transactions that
-- write one link or one session: whether each of them commits, in their order, and past its end all
-- do. Which of the others commit is an argument of theirs.
pub record Bolt : Type 0 where
  pub metadata : Dict Inode
  pub link : Option String
  pub uploads : Dict StoredSession
  pub commits : List Bool

abbrev pub StringSet : Type 0
StringSet = Dict (Unit {0})

-- `last_sweep` is 0 before the first sweep; a limit of 0 (or below) is no limit.
pub record InodeCache : Type 0 where
  pub inodes : Dict Inode
  pub hits : ℕ
  pub misses : ℕ
  pub evictions : ℕ
  pub db : Option Bolt
  pub offline : Bool
  pub max_entries : ℕ
  pub base_ttl : ℕ
  pub dirty : StringSet
  pub deleted : StringSet
  pub ttl_buckets : ℕ → List TtlEntry
  pub last_sweep : ℕ
  pub eviction_heap : List EvictionEntry
  pub eviction_generation : Dict ℕ
  pub cached_folders : ℤ

unfoldable pub new_inode_cache : InodeCache
new_inode_cache = record {
  inodes = [];
  hits = 0;
  misses = 0;
  evictions = 0;
  db = none;
  offline = false;
  max_entries = 2000;
  base_ttl = 60_000_000_000;
  dirty = [];
  deleted = [];
  ttl_buckets = λ _. [];
  last_sweep = 0;
  eviction_heap = [];
  eviction_generation = [];
  cached_folders = ℤ.pos 0;
}

-- Get
abbrev pub find : InodeCache → String → Option Inode
find c id = Dict.get c.inodes id

-- c.inodes.Store; also a write through a pointer that the map holds under `id`.
abbrev pub store : String → Inode → InodeCache → InodeCache
store id i c = record c { inodes = Dict.put c.inodes id i }

-- c.inodes.Delete
abbrev pub drop_inode : String → InodeCache → InodeCache
drop_inode id c = record c { inodes = Dict.remove c.inodes id }

abbrev pub has : StringSet → String → Bool
has s id = is_some (Dict.get s id)

-- Adds `id` to the first set and drops it from the second.
unfoldable pub mark_exclusive : StringSet → StringSet → String → StringSet × StringSet
mark_exclusive set other id = (Dict.put set id tt, Dict.remove other id)

unfoldable pub mark_dirty : String → InodeCache → InodeCache
unfolding mark_exclusive
mark_dirty id c =
    let (d, r) = mark_exclusive c.dirty c.deleted id in record c { dirty = d; deleted = r }

unfoldable pub mark_deleted : String → InodeCache → InodeCache
unfolding mark_exclusive
mark_deleted id c =
    let (r, d) = mark_exclusive c.deleted c.dirty id in record c { dirty = d; deleted = r }

unfoldable pub contains_id : List String → String → Bool
contains_id [] id = false
contains_id (x ∷ xs) id = x == id || contains_id xs id

-- The filter of `detachChild`.
unfoldable pub without_id : List String → String → List String
without_id [] id = []
without_id (x ∷ xs) id = let rest = without_id xs id in if x == id then rest else x ∷ rest

abbrev pub add_id : List String → String → List String
add_id ids id = if contains_id ids id then ids else ids ++ id ∷ []

-- The arguments of the source in its order: is the child a folder, and is a nil list seeded.
unfoldable pub attach_child : Inode → String → Bool → Bool → Inode
attach_child parent child_id child_is_dir seed =
    let children : Option (List String) = elim parent.children [
      | some ids ↦ some (add_id ids child_id)
      | none ↦ if seed then some (add_id [] child_id) else none
    ] in
    let subdir = if child_is_dir then u32 (parent.subdir + 1) else parent.subdir in
    record parent { children = children; subdir = subdir }

unfoldable pub detach_child : Inode → String → Bool → Inode
detach_child parent child_id child_is_dir =
    let children : Option (List String) = elim parent.children [
      | some ids ↦ some (without_id ids child_id)
      | none ↦ none
    ] in
    let subdir = if child_is_dir && ltb 0 parent.subdir then parent.subdir - 1 else parent.subdir in
    record parent { children = children; subdir = subdir }

-- The offline flag and the counters.
unfoldable pub set_offline : Bool → InodeCache → InodeCache
set_offline v c = record c { offline = v }
