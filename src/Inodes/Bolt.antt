-- ===== src/Inodes/Bolt.antt =====
-- The persistence of internal/fs/cache.go: inodes, the delta link and upload sessions in BoltDB.
-- bbolt is an embedded database with serializable transactions: a transaction that commits
-- applies all its writes, one that fails applies none. Which of the transactions fail is a
-- parameter.
pub mod Batches
pub mod Sync
pub mod Transactions
pub mod Convergence
pub mod Mirror
use Prim.Native.String.{compare}
use text.Mathlib.Text.{is_le}
use onecloudriver.Prelude.{
  ℕ, zero, suc, ◌-◌, ◌*◌, ◌/◌, String, Bool, true, false, ◌&&◌, ◌||◌, not, Option, none, some, List,
  [], ◌∷◌, ◌++◌, is_some, length, ◌==◌, if◌then◌else◌,
}
use onecloudriver.Prelude.Int.{pos, ◌+ℤ◌}
use onecloudriver.Prelude.Dict
use onecloudriver.Prelude.Dict.{Dict}
use onecloudriver.Uploads.Session.{StoredSession}
use onecloudriver.Inodes.Inode.{Inode, parent_id, is_children_fetched}
use onecloudriver.Inodes.Cache.{InodeCache, Bolt, StringSet, find, store, mark_dirty, mark_deleted}
use onecloudriver.Inodes.Ttl.{register_ttl}
use onecloudriver.Inodes.SizeLimit.{update_eviction_entry}

abbrev millisecond : ℕ
millisecond = 1_000_000

-- AsJSON and NewInodeJSON: every field survives, times to the millisecond.
unfoldable pub stored_inode : Inode → Inode
stored_inode i = record i {
  last_access = i.last_access / millisecond * millisecond;
  cached_at = i.cached_at / millisecond * millisecond;
}

-- Only inodes of the browsed tree are written: listed folders, and what has a parent.
unfoldable pub in_tree : Inode → Bool
unfolding parent_id
in_tree i = is_children_fetched i || not (parent_id i == "")

abbrev Metadata : Type 0
Metadata = Dict Inode

-- The IDs that SerializeAll gathers in its first pass, and the children that they list.
unfoldable pub tree_ids : Dict Inode → List String
unfolding in_tree
tree_ids [] = []
tree_ids ((_, i) ∷ d) = let rest = tree_ids d in if in_tree i then i.item.id ∷ rest else rest

unfoldable pub listed_ids : Dict Inode → List String
listed_ids [] = []
listed_ids ((_, i) ∷ d) = elim i.children [ none ↦ listed_ids d | some ids ↦ ids ++ listed_ids d ]

unfoldable pub write_all : InodeCache → List String → Metadata → Metadata
unfolding stored_inode
write_all c [] m = m
write_all c (id ∷ ids) m =
    write_all c ids (elim (find c id) [ none ↦ m | some i ↦ Dict.put m id (stored_inode i) ])

abbrev with_metadata : Metadata → Bolt → InodeCache → InodeCache
with_metadata m b c = record c { db = some (record b { metadata = m }) }

-- The flag tells whether the transaction commits, and whether the call succeeds. On failure
-- nothing changes.
unfoldable pub serialize_all : Bool → InodeCache → Bool × InodeCache
unfolding tree_ids listed_ids write_all
serialize_all commits c = elim c.db [
  | none ↦ (true, c)
  | some b ↦
      let ids = tree_ids c.inodes ++ listed_ids c.inodes in
      let c' = with_metadata (write_all c ids b.metadata) b c in
      if commits then (true, record c' { dirty = []; deleted = [] }) else (false, c)
]

abbrev string_le : String → String → Bool
string_le a b = is_le (compare a b)

unfoldable pub insert_sorted : String → List String → List String
insert_sorted x [] = x ∷ []
insert_sorted x (y ∷ ys) =
    let rest = insert_sorted x ys in if string_le x y then x ∷ y ∷ ys else y ∷ rest

unfoldable pub sort_strings : List String → List String
unfolding insert_sorted
sort_strings [] = []
sort_strings (x ∷ xs) = insert_sorted x (sort_strings xs)

unfoldable pub sorted_keys : StringSet → List String
unfolding sort_strings
sorted_keys s = sort_strings (Dict.keys s)

unfoldable pub take_batch : ℕ → List String → List String × List String
take_batch zero xs = ([], xs)
take_batch (suc n) [] = ([], [])
take_batch (suc n) (x ∷ xs) = let (b, rest) = take_batch n xs in (x ∷ b, rest)

abbrev serialize_dirty_batch_size : ℕ
serialize_dirty_batch_size = 500

-- for i := 0; i < len; i += size, with the length as fuel; a batch is one ID and up to `more`
-- others, so `size` is `more + 1`.
unfoldable pub batches : ℕ → ℕ → List String → List (List String)
batches more zero xs = []
batches more (suc n) [] = []
batches more (suc n) (x ∷ xs) = let (b, rest) = take_batch more xs in (x ∷ b) ∷ batches more n rest

-- One ID of a batch of dirty inodes: gone, outside the tree, or written.
unfoldable pub write_dirty : InodeCache → String → Metadata → Metadata
unfolding in_tree stored_inode
write_dirty c id m = elim (find c id) [
  | none ↦ Dict.remove m id
  | some i ↦ if in_tree i then Dict.put m id (stored_inode i) else m
]

unfoldable pub write_dirty_batch : InodeCache → List String → Metadata → Metadata
unfolding write_dirty
write_dirty_batch c [] m = m
write_dirty_batch c (id ∷ ids) m = write_dirty_batch c ids (write_dirty c id m)

unfoldable pub remove_batch : List String → Metadata → Metadata
remove_batch [] m = m
remove_batch (id ∷ ids) m = remove_batch ids (Dict.remove m id)

unfoldable pub mark_all_dirty : List String → InodeCache → InodeCache
unfolding mark_dirty
mark_all_dirty [] c = c
mark_all_dirty (id ∷ ids) c = mark_all_dirty ids (mark_dirty id c)

unfoldable pub mark_all_deleted : List String → InodeCache → InodeCache
unfolding mark_deleted
mark_all_deleted [] c = c
mark_all_deleted (id ∷ ids) c = mark_all_deleted ids (mark_deleted id c)

abbrev pub Outcome : Type 0
Outcome = Bool × Metadata × InodeCache

-- One transaction; a failed batch is marked again, and the call will report an error.
unfoldable pub persist_batch : (List String → Bool) → List String → Outcome → Outcome
unfolding write_dirty_batch mark_all_dirty
persist_batch commits b (good, m, c) =
    if commits b then (good, write_dirty_batch c b m, c) else (false, m, mark_all_dirty b c)

unfoldable pub persist_batches : (List String → Bool) → List (List String) → Outcome → Outcome
unfolding persist_batch
persist_batches commits [] o = o
persist_batches commits (b ∷ bs) o = persist_batches commits bs (persist_batch commits b o)

unfoldable pub bury_batch : (List String → Bool) → List String → Outcome → Outcome
unfolding remove_batch mark_all_deleted
bury_batch buries b (good, m, c) =
    if buries b then (good, remove_batch b m, c) else (false, m, mark_all_deleted b c)

unfoldable pub bury_batches : (List String → Bool) → List (List String) → Outcome → Outcome
unfolding bury_batch
bury_batches buries [] o = o
bury_batches buries (b ∷ bs) o = bury_batches buries bs (bury_batch buries b o)

-- The pass over an open database. The sets are swapped out first.
unfoldable pub serialize_marked :
    (List String → Bool) → (List String → Bool) → Bolt → InodeCache → Bool × InodeCache
unfolding persist_batches bury_batches batches take_batch sorted_keys
serialize_marked commits buries b c =
    let more = serialize_dirty_batch_size - 1 in
    let dirty_ids = sorted_keys c.dirty in
    let deleted_ids = sorted_keys c.deleted in
    let c0 = record c { dirty = []; deleted = [] } in
    let o =
      persist_batches commits (batches more (length dirty_ids) dirty_ids) (true, b.metadata, c0) in
    let (good, m, c1) = bury_batches buries (batches more (length deleted_ids) deleted_ids) o in
    (good, with_metadata m b c1)

-- `commits` and `buries` tell which transactions commit: those that write dirty inodes, and those
-- that remove deleted ones. The first part of the result tells whether no transaction failed.
unfoldable pub serialize_dirty :
    (List String → Bool) → (List String → Bool) → InodeCache → Bool × InodeCache
unfolding serialize_marked
serialize_dirty commits buries c = elim c.db [
  | none ↦ (true, c)
  | some b ↦ serialize_marked commits buries b c
]

-- One entry of the metadata bucket: memory wins.
unfoldable pub restore_inode : ℕ → String → Inode → InodeCache → InodeCache
unfolding register_ttl update_eviction_entry
restore_inode now id i c =
    let c1 = update_eviction_entry i now (register_ttl i (store id i c)) in
    let c2 =
      if is_children_fetched i
      then record c1 { cached_folders = c1.cached_folders +ℤ pos 1 }
      else c1 in
    elim (find c id) [ some _ ↦ c | none ↦ c2 ]

unfoldable pub restore_inodes : ℕ → Metadata → InodeCache → InodeCache
unfolding restore_inode
restore_inodes now [] c = c
restore_inodes now ((id, i) ∷ m) c = restore_inodes now m (restore_inode now id i c)

unfoldable pub deserialize_from_disk : ℕ → InodeCache → InodeCache
unfolding restore_inodes
deserialize_from_disk now c = elim c.db [ none ↦ c | some b ↦ restore_inodes now b.metadata c ]

-- A failed read is only logged, and gives "".
unfoldable pub get_delta_link : InodeCache → String
get_delta_link c = elim c.db [ none ↦ "" | some b ↦ elim b.link [ none ↦ "" | some l ↦ l ] ]

-- A transaction that changes the database by `f`: a failed one is only logged, and changes nothing.
abbrev pub transact : (Bolt → Bolt) → List Bool → Bolt → Bolt
transact f [] b = f b
transact f (true ∷ later) b = record (f b) { commits = later }
transact f (false ∷ later) b = record b { commits = later }

abbrev pub update_db : (Bolt → Bolt) → InodeCache → InodeCache
update_db f c = elim c.db [ none ↦ c | some b ↦ record c { db = some (transact f b.commits b) } ]

unfoldable pub set_delta_link : String → InodeCache → InodeCache
set_delta_link l c = update_db (λ b. record b { link = some l }) c

unfoldable pub save_upload_session : String → StoredSession → InodeCache → InodeCache
save_upload_session id s c = update_db (λ b. record b { uploads = Dict.put b.uploads id s }) c

unfoldable pub delete_upload_session : String → InodeCache → InodeCache
delete_upload_session id c = update_db (λ b. record b { uploads = Dict.remove b.uploads id }) c

unfoldable pub load_upload_sessions : InodeCache → Dict StoredSession
load_upload_sessions c = elim c.db [ none ↦ [] | some b ↦ b.uploads ]
