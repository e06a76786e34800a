-- ===== src/Delta/Stale.antt =====
-- A remote content change (internal/fs/delta.go, case 4 of applyDelta) and the inode database.
use onecloudriver.Prelude.{
  String, ◌≡◌, refl, ap, ◌∙◌, Bool, true, false, ◌&&◌, Option, none, some, is_some, ◌==◌,
  if◌then◌else◌, eq_refl, arith,
}
use onecloudriver.Prelude.Dict
use onecloudriver.Prelude.Dict.{get-put}
use onecloudriver.Graph.Models.{DeltaItem, File}
use onecloudriver.Inodes.Inode.{Inode, parent_id}
use onecloudriver.Inodes.Cache.{InodeCache, Bolt, find, store, has}
use onecloudriver.Inodes.Bolt.{in_tree}
use onecloudriver.Inodes.Bolt.Sync.{image, tree_part}
use onecloudriver.Inodes.Bolt.Convergence.{IsSynced}
use onecloudriver.Delta.Apply.{
  Wiring, DeltaSync, DeltaError, is_root_item, delta_parent, apply_move, apply_content, apply_known,
  apply_delta, apply_change, with_remote, remote_wins, overwrite_found, overwrite_local,
  content_matches_remote, drop_content,
}
use onecloudriver.Delta.Resolve.{SameStore-resolve_parent_id, parent_key, resolved, apply_delta_lem}

-- The ETag of an entry.
abbrev pub etag_of : Option Inode → Option String
etag_of none = none
etag_of (some i) = some i.item.etag

etag-with_remote :
    (delta : DeltaItem) (i : Inode) → (with_remote delta i).item.etag ≡ delta.item.etag
etag-with_remote delta i = filed delta.item.file
  where
    filed :
        (o : Option File)
        → let item = i.item in
          let r = delta.item in
          let taken = record item { mod_time = r.mod_time; size = r.size; etag = r.etag } in
          let j = record i { has_changes = false } in
          let k : Inode = elim o [
            | none ↦ record j { item = taken }
            | some f ↦ record j { item = record taken { file = some f } }
          ] in
          k.item.etag ≡ delta.item.etag
    filed none = refl
    filed (some f) = refl

etag-image :
    (o : Option Inode) (i : Inode) → image o ≡ some (tree_part i) → etag_of o ≡ some i.item.etag
etag-image none i h = cc
etag-image (some j) i h = ap etag_of h

module _ {K : Type 0} (env : Wiring K) (delta : DeltaItem) (i : Inode) where
  cache-drop_content : (id : String) (d : DeltaSync K) → (drop_content env id d).cache ≡ d.cache
  unfolding drop_content
  cache-drop_content id d = refl

  cache-overwrite_local :
      (d : DeltaSync K)
      → (overwrite_local env delta i d).cache ≡ store delta.item.id (with_remote delta i) d.cache
  unfolding overwrite_local
  cache-overwrite_local d =
      let d' = record d { cache = store delta.item.id (with_remote delta i) d.cache } in
      either d' (content_matches_remote env delta.item.id delta.item.file d')
    where
      either :
          (e : DeltaSync K) (q : Bool)
          → (if q then e else drop_content env delta.item.id e).cache ≡ e.cache
      either e true = refl
      either e false = cache-drop_content delta.item.id e

  -- A change of the content alone.
  cache-apply_change :
      (pid : String) (d : DeltaSync K)
      → find d.cache delta.item.id ≡ some i
      → (parent_id i == pid) ≡ true
      → (i.item.name == delta.item.name) ≡ true
      → remote_wins env delta i ≡ true
      → (apply_change env delta pid (find d.cache delta.item.id) d).cache
        ≡ store delta.item.id (with_remote delta i) d.cache
  unfolding apply_move apply_content
  cache-apply_change pid d h p n wins =
      ap (λ o. (apply_change env delta pid o d).cache) h
      ∙ rw (p, n)
          (ap (λ o. (overwrite_found env delta o d).cache) h ∙ rw wins (cache-overwrite_local d))

  cache-apply_known :
      (pid : String) (d : DeltaSync K)
      → is_some delta.deleted ≡ false
      → find d.cache delta.item.id ≡ some i
      → (parent_id i == pid) ≡ true
      → (i.item.name == delta.item.name) ≡ true
      → remote_wins env delta i ≡ true
      → (apply_known env delta pid d).1.cache ≡ store delta.item.id (with_remote delta i) d.cache
  unfolding apply_known
  cache-apply_known pid d alive h p n wins = rw alive (cache-apply_change pid d h p n wins)

  cache-apply_delta :
      (d : DeltaSync K)
      → (parent_key env delta d == "" && is_root_item delta) ≡ false
      → is_some (find d.cache (parent_key env delta d)) ≡ true
      → is_some delta.deleted ≡ false
      → find d.cache delta.item.id ≡ some i
      → (parent_id i == parent_key env delta d) ≡ true
      → (i.item.name == delta.item.name) ≡ true
      → remote_wins env delta i ≡ true
      → (apply_delta env delta d).1.cache ≡ store delta.item.id (with_remote delta i) d.cache
  cache-apply_delta d plain known alive h p n wins =
      let pid = parent_key env delta d in
      let e = resolved env delta d in
      let same = (SameStore-resolve_parent_id env (delta_parent delta) delta d).cache in
      let here : find e.cache delta.item.id ≡ some i = ap (λ c. find c delta.item.id) same ∙ h in
      ap (λ (r : Option DeltaError × DeltaSync K). r.1.cache) (apply_delta_lem env delta d plain)
      ∙ ap (λ (q : Bool). (if q then apply_known env delta pid e else (none, e)).1.cache) known
      ∙ cache-apply_known pid e alive here p n wins
      ∙ ap (store delta.item.id (with_remote delta i)) same

  differs : remote_wins env delta i ≡ true → (delta.item.etag == i.item.etag) ≡ false
  unfolding remote_wins
  differs h = ground arith

  -- Where the open database mirrors memory except at marked IDs: a change that is no deletion and
  -- not of the root, of an unmarked inode of the browsed tree, under its old name and its old
  -- parent, which is in the cache, and that wins over the local version, replaces the ETag in
  -- memory but marks nothing. The stored entry keeps the old ETag, which differs from the new one,
  -- and neither mark tells the next SerializeDirty to write it.
  pub apply_delta-stale :
      (b : Bolt) (d : DeltaSync K)
      → IsSynced b d.cache
      → (parent_key env delta d == "" && is_root_item delta) ≡ false
      → is_some (find d.cache (parent_key env delta d)) ≡ true
      → is_some delta.deleted ≡ false
      → find d.cache delta.item.id ≡ some i
      → in_tree i ≡ true
      → (parent_id i == parent_key env delta d) ≡ true
      → (i.item.name == delta.item.name) ≡ true
      → remote_wins env delta i ≡ true
      → has d.cache.dirty delta.item.id ≡ false
      → has d.cache.deleted delta.item.id ≡ false
      → let c = (apply_delta env delta d).1.cache in
        (etag_of (find c delta.item.id) ≡ some delta.item.etag)
        × (c.db ≡ some b)
        × (etag_of (Dict.get b.metadata delta.item.id) ≡ some i.item.etag)
        × ((delta.item.etag == i.item.etag) ≡ false)
        × (has c.dirty delta.item.id ≡ false)
        × (has c.deleted delta.item.id ≡ false)
  apply_delta-stale b d s plain known alive h t p n wins x y =
      let e = cache-apply_delta d plain known alive h p n wins in
      let kept = s.unmarked delta.item.id x y in
      (
        ap (λ c. etag_of (find c delta.item.id)) e
            ∙ rw
                (
                  get-put d.cache.inodes delta.item.id delta.item.id (with_remote delta i),
                  eq_refl delta.item.id,
                )
                (ap some (etag-with_remote delta i)),
        ap (λ (c : InodeCache). c.db) e ∙ s.opened,
        etag-image (Dict.get b.metadata delta.item.id) i ((rw h at kept) t),
        differs wins,
        ap (λ (c : InodeCache). has c.dirty delta.item.id) e ∙ x,
        ap (λ (c : InodeCache). has c.deleted delta.item.id) e ∙ y,
      )
