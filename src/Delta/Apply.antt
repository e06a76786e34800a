-- ===== src/Delta/Apply.antt =====
-- Applying one change, or a page of them (internal/fs/delta.go: resolveParentID to applyPage).
use onecloudriver.Prelude.{
  ℕ, String, Bool, true, false, ◌&&◌, ◌||◌, not, Option, none, some, List, [], ◌∷◌, ◌++◌, is_some,
  ltb, ◌==◌, if◌then◌else◌,
}
use onecloudriver.Graph.Models.{DriveItem, File, DeltaItem, is_folder, mod_time_unix}
use onecloudriver.Inodes.Inode.{
  Inode, is_local_id, parent_id, has_children, inode_mod_time, new_inode_drive_item,
}
use onecloudriver.Inodes.Cache.{InodeCache, find, store, mark_dirty}
use onecloudriver.Inodes.Tree.{when_found, remove_child, move_id, insert_child, move_child}
use onecloudriver.Inodes.Fetch.{Listing, listed, failed, get_child}

-- What a DeltaSync is wired with, at one time. `drop` and `sum_quick_xor_hash` are the content
-- cache's Delete (false for an error) and SumQuickXorHash, `equal_fold` is strings.EqualFold,
-- `uploads` is HasPendingUpload unless nil, and `root_item` is GetItem of the root: `none` without
-- a client, `some none` for an error.
pub record Wiring (K : Type 0) : Type 0 where
  pub drop : String → K → Bool × K
  pub sum_quick_xor_hash : String → K → Option String
  pub equal_fold : String → String → Bool
  pub uploads : Option (String → Bool)
  pub root_item : Option (Option DriveItem)
  pub now : ℕ

-- `root_id_once` is whether `rootIDOnce` has run.
pub record DeltaSync (K : Type 0) : Type 0 where
  pub cache : InodeCache
  pub content : K
  pub root_real_id : String
  pub root_id_once : Bool
  pub sync_count : ℕ
  pub error_count : ℕ

pub data DeltaError : Type 0 where
  dir_not_empty : DeltaError

abbrev pub delta_parent : DeltaItem → String
delta_parent delta = elim delta.item.parent [ none ↦ "" | some p ↦ p.id ]

abbrev pub is_root_item : DeltaItem → Bool
is_root_item delta = is_folder delta.item && delta.item.name == "root"

abbrev pub on_cache : {K : Type 0} → (InodeCache → InodeCache) → DeltaSync K → DeltaSync K
on_cache f d = record d { cache = f d.cache }

-- The answer of GetItem(root), if there is one.
abbrev root_id_of : Option (Option DriveItem) → String
root_id_of none = ""
root_id_of (some none) = ""
root_id_of (some (some root)) = root.id

-- The root's folder metadata, marked.
unfoldable pub refresh_root : {K : Type 0} → DeltaItem → DeltaSync K → DeltaSync K
unfolding mark_dirty
refresh_root delta d =
    on_cache
      (λ c. when_found (find c "root") c (λ i.
        let item = i.item in
        let i' = record i { item = record item { folder = delta.item.folder } } in
        mark_dirty "root" (store "root" i' c)))
      d

abbrev pub holds_children : Option Inode → Bool
holds_children none = false
holds_children (some i) = has_children i

abbrev pub local_match : Listing (Option Inode) → Option String
local_match (failed _) = none
local_match (listed none) = none
local_match (listed (some i)) = if is_local_id i.item.id then some i.item.id else none

abbrev pub with_name : DeltaItem → Inode → Inode
with_name delta i =
    let item = i.item in
    let named = record item { name = delta.item.name } in
    elim delta.item.parent [
      | none ↦ record i { item = named }
      | some p ↦ record i { item = record named { parent = some p } }
    ]

abbrev pub with_remote : DeltaItem → Inode → Inode
with_remote delta i =
    let item = i.item in
    let r = delta.item in
    let taken = record item { mod_time = r.mod_time; size = r.size; etag = r.etag } in
    let j = record i { has_changes = false } in
    elim r.file [
      | none ↦ record j { item = taken }
      | some f ↦ record j { item = record taken { file = some f } }
    ]

-- applyOrReport: is the item to be retried? (No error but one comes out of applyDelta.)
abbrev pub retryable : Option DeltaError → Bool
retryable none = false
retryable (some dir_not_empty) = true

module _ {K : Type 0} (env : Wiring K) where
  -- The lazy fetch of the root's ID, once, when the parent is not in the cache.
  unfoldable pub learn_root : String → DeltaSync K → DeltaSync K
  learn_root pid d =
      let root = root_id_of env.root_item in
      let tried = record d { root_id_once = true } in
      if is_some (find d.cache pid) || not (is_some env.root_item) || d.root_id_once
      then d
      else if root == ""
      then tried
      else record tried { root_real_id = root }

  unfoldable pub resolve_parent_id : String → DeltaItem → DeltaSync K → String × DeltaSync K
  unfolding learn_root
  resolve_parent_id pid delta d =
      if pid == "" && is_root_item delta
      then (pid, record d { root_real_id = delta.item.id })
      else if pid == "" || pid == "root"
      then (pid, d)
      else if pid == d.root_real_id
      then ("root", d)
      else let d' = learn_root pid d in (if pid == d'.root_real_id then "root" else pid, d')

  -- The content of an ID goes; an error only goes into the log.
  unfoldable pub drop_content : String → DeltaSync K → DeltaSync K
  drop_content id d = let (_, k) = env.drop id d.content in record d { content = k }

  -- Case 1: a deleted item.
  unfoldable pub apply_deletion :
      DeltaItem → String → Option Inode → DeltaSync K → Option DeltaError × DeltaSync K
  unfolding drop_content remove_child has_children
  apply_deletion delta pid local d =
      let id = delta.item.id in
      if is_folder delta.item && holds_children local
      then (some dir_not_empty, d)
      else (none, drop_content id (on_cache (remove_child pid id) d))

  -- Case 2: an item that the cache lacks. A child of that name with a local ID takes the new ID.
  unfoldable pub apply_new : DeltaItem → String → DeltaSync K → DeltaSync K
  unfolding get_child move_id insert_child new_inode_drive_item is_local_id
  apply_new delta pid d =
      let (r, c) = get_child env.now pid delta.item.name none d.cache in
      elim (local_match r) [
        | some old ↦ record d { cache = move_id old delta.item.id c }
        | none ↦ record d { cache = insert_child pid (new_inode_drive_item delta.item) c }
      ]

  -- Case 3: another name or parent.
  unfoldable pub apply_move : DeltaItem → String → Inode → DeltaSync K → DeltaSync K
  unfolding move_child parent_id
  apply_move delta pid local d =
      let id = delta.item.id in
      let c = move_child env.now (parent_id local) pid id d.cache in
      if parent_id local == pid && local.item.name == delta.item.name
      then d
      else record d { cache = when_found (find c id) c (λ i. store id (with_name delta i) c) }

  -- Does the content on disk have the remote hash?
  unfoldable pub content_matches_remote : String → Option File → DeltaSync K → Bool
  content_matches_remote id none d = false
  content_matches_remote id (some f) d = elim (env.sum_quick_xor_hash id d.content) [
    | none ↦ false
    | some sum ↦ not (f.quick_xor_hash == "") && env.equal_fold sum f.quick_xor_hash
  ]

  unfoldable pub has_pending : String → Bool
  has_pending id = elim env.uploads [ none ↦ false | some q ↦ q id ]

  -- The remote version replaces the metadata, and the content unless it has the same hash.
  unfoldable pub overwrite_local : DeltaItem → Inode → DeltaSync K → DeltaSync K
  unfolding content_matches_remote drop_content
  overwrite_local delta local d =
      let id = delta.item.id in
      let d' = on_cache (store id (with_remote delta local)) d in
      if content_matches_remote id delta.item.file d' then d' else drop_content id d'

  -- Is there a newer remote version, and no local work that wins?
  unfoldable pub remote_wins : DeltaItem → Inode → Bool
  unfolding mod_time_unix inode_mod_time has_pending
  remote_wins delta local =
      is_some delta.item.mod_time
      && ltb (inode_mod_time local) (mod_time_unix delta.item)
      && not local.has_changes
      && not (has_pending delta.item.id)
      && not (delta.item.etag == local.item.etag)

  abbrev pub overwrite_found : DeltaItem → Option Inode → DeltaSync K → DeltaSync K
  overwrite_found delta none d = d
  overwrite_found delta (some i) d = if remote_wins delta i then overwrite_local delta i d else d

  -- Case 4: other content. The pointer that was read before a move is that of the map.
  unfoldable pub apply_content : DeltaItem → DeltaSync K → DeltaSync K
  unfolding remote_wins overwrite_local
  apply_content delta d = overwrite_found delta (find d.cache delta.item.id) d

  abbrev pub apply_change : DeltaItem → String → Option Inode → DeltaSync K → DeltaSync K
  apply_change delta pid none d = apply_new delta pid d
  apply_change delta pid (some local) d = apply_content delta (apply_move delta pid local d)

  -- The four cases, once the parent is in the cache.
  unfoldable pub apply_known : DeltaItem → String → DeltaSync K → Option DeltaError × DeltaSync K
  unfolding apply_deletion apply_new apply_move apply_content
  apply_known delta pid d =
      let local = find d.cache delta.item.id in
      if is_some delta.deleted
      then apply_deletion delta pid local d
      else (none, apply_change delta pid local d)

  unfoldable pub apply_delta : DeltaItem → DeltaSync K → Option DeltaError × DeltaSync K
  unfolding resolve_parent_id refresh_root apply_known
  apply_delta delta d =
      let (pid, d') = resolve_parent_id (delta_parent delta) delta d in
      if pid == "" && is_root_item delta
      then (none, refresh_root delta d')
      else if is_some (find d'.cache pid)
      then apply_known delta pid d'
      else (none, d')

  -- One pass over items; those that are to be retried come out.
  unfoldable pub apply_pass : List DeltaItem → DeltaSync K → List DeltaItem × DeltaSync K
  unfolding apply_delta
  apply_pass [] d = ([], d)
  apply_pass (x ∷ xs) d =
      let (e, d') = apply_delta x d in
      let (rest, d'') = apply_pass xs d' in (if retryable e then x ∷ rest else rest, d'')

  unfoldable pub apply_page :
      List DeltaItem → List DeltaItem → DeltaSync K → List DeltaItem × DeltaSync K
  unfolding apply_pass
  apply_page items pending d =
      let (blocked, d1) = apply_pass items d in
      let (still_blocked, d2) = apply_pass blocked d1 in
      let (merged, d3) = apply_pass pending d2 in (merged ++ still_blocked, d3)
