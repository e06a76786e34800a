-- ===== src/Inodes/Tree.antt =====
-- The operations of internal/fs/cache.go that change the tree: insertion, removal, moves, new IDs
-- and invalidation. `now` is the time that the cache's clock shows.
pub mod Marking
pub mod Counting
pub mod Runs
pub mod Moves
pub mod Joining
use onecloudriver.Prelude.{
  ℕ, String, Bool, true, false, ◌&&◌, not, Option, none, some, List, [], ◌∷◌, is_some, ◌==◌,
  if◌then◌else◌,
}
use onecloudriver.Prelude.Int.{pos, ◌+ℤ◌, ◌-ℤ◌}
use onecloudriver.Prelude.Dict
use onecloudriver.Graph.Models.{parent_with_id}
use onecloudriver.Inodes.Inode.{
  Inode, is_dir, parent_id, is_children_fetched, has_children, set_children,
}
use onecloudriver.Inodes.Cache.{
  InodeCache, find, store, drop_inode, mark_dirty, mark_deleted, attach_child, detach_child,
}
use onecloudriver.Inodes.Ttl.{register_ttl}
use onecloudriver.Inodes.SizeLimit.{update_eviction_entry}

abbrev pub count_folder : InodeCache → InodeCache
count_folder c = record c { cached_folders = c.cached_folders +ℤ pos 1 }

abbrev pub uncount_folder : InodeCache → InodeCache
uncount_folder c = record c { cached_folders = c.cached_folders -ℤ pos 1 }

-- `if x := Get(id); x != nil { … }`
abbrev pub when_found : Option Inode → InodeCache → (Inode → InodeCache) → InodeCache
when_found none c f = c
when_found (some i) c f = f i

unfoldable pub attach_to : ℕ → String → String → Bool → Inode → InodeCache → InodeCache
unfolding attach_child register_ttl update_eviction_entry mark_dirty
attach_to now pid child_id child_is_dir parent c =
    let p = attach_child parent child_id child_is_dir true in
    let c1 = store pid p c in
    let seeded = not (is_children_fetched parent) && is_children_fetched p in
    mark_dirty pid
      (if seeded then count_folder (update_eviction_entry p now (register_ttl p c1)) else c1)

-- The block that Insert and MoveChild share: the child joins the folder's list, seeded if nil, and
-- a folder that was not listed before is registered and counted.
unfoldable pub attach_seeded : ℕ → String → String → Bool → InodeCache → InodeCache
unfolding attach_to
attach_seeded now pid child_id child_is_dir c =
    when_found (find c pid) c (λ parent. attach_to now pid child_id child_is_dir parent c)

-- The child leaves the folder's list; the folder is not marked.
unfoldable pub detach_from : String → String → Bool → InodeCache → InodeCache
unfolding detach_child
detach_from pid child_id child_is_dir c =
    when_found (find c pid) c (λ parent. store pid (detach_child parent child_id child_is_dir) c)

unfoldable pub insert : ℕ → Inode → InodeCache → InodeCache
unfolding attach_seeded parent_id mark_dirty
insert now i c =
    let id = i.item.id in
    let c1 = mark_dirty id (store id i c) in
    if parent_id i == "" then c1 else attach_seeded now (parent_id i) id (is_dir i) c1

unfoldable pub delete_found : String → Inode → InodeCache → InodeCache
unfolding detach_from parent_id mark_dirty mark_deleted
delete_found id i c =
    let pid = parent_id i in
    let c1 = if pid == "" then c else detach_from pid id (is_dir i) c in
    let c2 = if is_children_fetched i then uncount_folder c1 else c1 in
    let c3 = mark_deleted id (drop_inode id c2) in if pid == "" then c3 else mark_dirty pid c3

unfoldable pub delete : String → InodeCache → InodeCache
unfolding delete_found
delete id c = when_found (find c id) c (λ i. delete_found id i c)

abbrev pub with_parent : String → Inode → Inode
with_parent pid i =
    let item = i.item in record i { item = record item { parent = some (parent_with_id pid) } }

unfoldable pub insert_child : String → Inode → InodeCache → InodeCache
unfolding attach_child mark_dirty
insert_child pid i c =
    let id = i.item.id in
    let c1 = store id (with_parent pid i) c in
    mark_dirty id (
      when_found (find c1 pid) c1
        (λ parent. mark_dirty pid (store pid (attach_child parent id (is_dir i) false) c1)))

unfoldable pub remove_found : String → String → Inode → InodeCache → InodeCache
unfolding detach_from mark_dirty mark_deleted
remove_found pid child_id i c =
    let c1 = detach_from pid child_id (is_dir i) c in
    let c2 = mark_deleted child_id (drop_inode child_id c1) in
    if pid == "" then c2 else mark_dirty pid c2

unfoldable pub remove_child : String → String → InodeCache → InodeCache
unfolding remove_found
remove_child pid child_id c = when_found (find c child_id) c (λ i. remove_found pid child_id i c)

-- The first entry that is `old` becomes `new`.
unfoldable pub rename_id : String → String → List String → List String
rename_id old new [] = []
rename_id old new (x ∷ xs) =
    let rest = rename_id old new xs in if x == old then new ∷ xs else x ∷ rest

abbrev pub with_id : String → Inode → Inode
with_id id i = let item = i.item in record i { item = record item { id = id } }

unfoldable pub with_renamed : String → String → Inode → Inode
unfolding rename_id
with_renamed old new i = elim i.children [
  | none ↦ i
  | some ids ↦ record i { children = some (rename_id old new ids) }
]

-- The parent's children list follows a new ID.
unfoldable pub rename_in : String → String → String → InodeCache → InodeCache
unfolding mark_dirty with_renamed
rename_in pid old new c =
    when_found (find c pid) c (λ parent. mark_dirty pid (store pid (with_renamed old new parent) c))

unfoldable pub move_id_found : String → String → Inode → InodeCache → InodeCache
unfolding mark_dirty mark_deleted parent_id rename_in
move_id_found old new i c =
    let c1 = drop_inode old (store new (with_id new i) c) in
    let c2 = mark_dirty new (if old == new then c1 else mark_deleted old c1) in
    if parent_id i == "" then c2 else rename_in (parent_id i) old new c2

unfoldable pub move_id : String → String → InodeCache → InodeCache
unfolding move_id_found
move_id old new c = when_found (find c old) c (λ i. move_id_found old new i c)

unfoldable pub move_found : ℕ → String → String → String → Inode → InodeCache → InodeCache
unfolding detach_from attach_seeded mark_dirty
move_found now old_parent new_parent child_id i c =
    let c1 = detach_from old_parent child_id (is_dir i) c in
    mark_dirty child_id (attach_seeded now new_parent child_id (is_dir i) c1)

unfoldable pub move_child : ℕ → String → String → String → InodeCache → InodeCache
unfolding move_found
move_child now old_parent new_parent child_id c =
    when_found (find c child_id) c (λ i. move_found now old_parent new_parent child_id i c)

unfoldable pub invalidate_found : ℕ → String → Inode → InodeCache → InodeCache
unfolding mark_dirty set_children
invalidate_found now pid parent c =
    let c1 = if is_children_fetched parent then uncount_folder c else c in
    mark_dirty pid (store pid (set_children now none parent) c1)

unfoldable pub invalidate : ℕ → String → InodeCache → InodeCache
unfolding invalidate_found
invalidate now pid c = when_found (find c pid) c (λ parent. invalidate_found now pid parent c)

unfoldable pub invalidate_inode : ℕ → String → InodeCache → InodeCache
unfolding mark_dirty set_children has_children
invalidate_inode now id c = when_found (find c id) c (λ i.
    if has_children i
    then mark_dirty id (uncount_folder (store id (set_children now none i) c))
    else c)

unfoldable pub invalidate_inodes : ℕ → List String → InodeCache → InodeCache
unfolding invalidate_inode
invalidate_inodes now [] c = c
invalidate_inodes now (id ∷ ids) c = invalidate_inodes now ids (invalidate_inode now id c)

unfoldable pub invalidate_all : ℕ → InodeCache → InodeCache
unfolding invalidate_inodes
invalidate_all now c = invalidate_inodes now (Dict.keys c.inodes) c
