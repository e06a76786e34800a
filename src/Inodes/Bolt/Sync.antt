-- ===== src/Inodes/Bolt/Sync.antt =====
-- When the database mirrors memory (internal/fs/cache.go, SerializeDirty): every ID whose disk
-- entry may differ is marked.
use onecloudriver.Prelude.{
  String, ◌≡◌, refl, inl, inr, true, false, ◌||◌, Option, none, some, List, [], ◌∷◌, arith, ◌==◌,
  eq_iff, Option-cases, if◌then◌else◌,
}
use onecloudriver.Prelude.Dict
use onecloudriver.Prelude.Dict.{Dict, get-remove, get-put}
use onecloudriver.Inodes.Inode.{Inode}
use onecloudriver.Inodes.Cache.{InodeCache, find, has, contains_id, mark_dirty, mark_deleted}
use onecloudriver.Inodes.Bolt.{
  in_tree, stored_inode, write_dirty, write_dirty_batch, remove_batch, mark_all_dirty,
  mark_all_deleted,
}

-- What of an inode SerializeDirty keeps current: all but the eviction counters and times.
abbrev pub tree_part : Inode → Inode
tree_part i = record i { access_count = 0; last_access = 0; cached_at = 0 }

abbrev pub image : Option Inode → Option Inode
image none = none
image (some i) = some (tree_part i)

-- The disk has what memory has; of an inode outside the tree nothing is asked.
abbrev pub Agrees : Option Inode → Option Inode → Type 0
Agrees none d = d ≡ none
Agrees (some i) d = in_tree i ≡ true → image d ≡ some (tree_part i)

-- What a committed write leaves under an ID whose entry was `old`.
abbrev pub written : Option Inode → Option Inode → Option Inode
written none old = none
written (some i) old = if in_tree i then some (stored_inode i) else old

get-write_dirty :
    (c : InodeCache) (m : Dict Inode) (j id : String)
    → Dict.get (write_dirty c j m) id
      ≡ (if j == id then written (find c id) (Dict.get m id) else Dict.get m id)
unfolding write_dirty
get-write_dirty c m j id = elim (Option-cases (find c j)) [
  | inl e ↦ ground (arith, eq_iff j id, get-remove m j id)
  | inr (i, e) ↦ ground (arith, eq_iff j id, get-put m j id (stored_inode i))
]

pub get-write_dirty_batch :
    (c : InodeCache) (m : Dict Inode) (ids : List String) (id : String)
    → Dict.get (write_dirty_batch c ids m) id
      ≡ (if contains_id ids id then written (find c id) (Dict.get m id) else Dict.get m id)
unfolding write_dirty_batch contains_id
get-write_dirty_batch c m [] id = refl
get-write_dirty_batch c m (j ∷ ids) id = ground (
  arith,
  get-write_dirty_batch c (write_dirty c j m) ids id,
  get-write_dirty c m j id,
  eq_iff j id,
)

pub get-remove_batch :
    (m : Dict Inode) (ids : List String) (id : String)
    → Dict.get (remove_batch ids m) id ≡ (if contains_id ids id then none else Dict.get m id)
unfolding remove_batch contains_id
get-remove_batch m [] id = refl
get-remove_batch m (j ∷ ids) id =
    ground (arith, get-remove_batch (Dict.remove m j) ids id, get-remove m j id)

pub Agrees-written : (o old : Option Inode) → Agrees o (written o old)
unfolding stored_inode
Agrees-written none old = refl
Agrees-written (some i) old = λ t. rw t

-- Marking a batch again changes the sets alone.
pub find-mark_all_dirty :
    (ids : List String) (c : InodeCache) (id : String) → find (mark_all_dirty ids c) id ≡ find c id
unfolding mark_all_dirty
find-mark_all_dirty [] c id = refl
find-mark_all_dirty (j ∷ ids) c id = find-mark_all_dirty ids (mark_dirty j c) id

pub find-mark_all_deleted :
    (ids : List String) (c : InodeCache) (id : String)
    → find (mark_all_deleted ids c) id ≡ find c id
unfolding mark_all_deleted
find-mark_all_deleted [] c id = refl
find-mark_all_deleted (j ∷ ids) c id = find-mark_all_deleted ids (mark_deleted j c) id

-- How a mark changes the two sets.
pub marks-mark_dirty :
    (j : String) (c : InodeCache) (id : String)
    → (has (mark_dirty j c).dirty id ≡ (j == id || has c.dirty id))
      × (has (mark_dirty j c).deleted id ≡ (if j == id then false else has c.deleted id))
unfolding mark_dirty
marks-mark_dirty j c id = ground (arith, get-put c.dirty j id tt, get-remove c.deleted j id)

pub marks-mark_deleted :
    (j : String) (c : InodeCache) (id : String)
    → (has (mark_deleted j c).deleted id ≡ (j == id || has c.deleted id))
      × (has (mark_deleted j c).dirty id ≡ (if j == id then false else has c.dirty id))
unfolding mark_deleted
marks-mark_deleted j c id = ground (arith, get-put c.deleted j id tt, get-remove c.dirty j id)

pub marks-mark_all_dirty :
    (ids : List String) (c : InodeCache) (id : String)
    → (has (mark_all_dirty ids c).dirty id ≡ (contains_id ids id || has c.dirty id))
      × (has (mark_all_dirty ids c).deleted id
          ≡ (if contains_id ids id then false else has c.deleted id))
unfolding mark_all_dirty contains_id
marks-mark_all_dirty [] c id = (refl, refl)
marks-mark_all_dirty (j ∷ ids) c id =
    ground (arith, marks-mark_all_dirty ids (mark_dirty j c) id, marks-mark_dirty j c id)

pub marks-mark_all_deleted :
    (ids : List String) (c : InodeCache) (id : String)
    → (has (mark_all_deleted ids c).deleted id ≡ (contains_id ids id || has c.deleted id))
      × (has (mark_all_deleted ids c).dirty id
          ≡ (if contains_id ids id then false else has c.dirty id))
unfolding mark_all_deleted contains_id
marks-mark_all_deleted [] c id = (refl, refl)
marks-mark_all_deleted (j ∷ ids) c id =
    ground (arith, marks-mark_all_deleted ids (mark_deleted j c) id, marks-mark_deleted j c id)
