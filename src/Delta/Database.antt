-- ===== src/Delta/Database.antt =====
-- Applying changes (internal/fs/delta.go) leaves the open database to SetDeltaLink and SerializeDirty.
use onecloudriver.Prelude.{
  ℕ, String, ◌≡◌, refl, sym, ap, ◌∙◌, Bool, true, false, ◌&&◌, Option, none, some, List, [], ◌∷◌,
  is_some, ◌==◌, if◌then◌else◌, arith,
}
use onecloudriver.Prelude.Dict.{Dict}
use onecloudriver.Graph.Models.{DeltaItem, is_folder}
use onecloudriver.Inodes.Inode.{Inode, is_dir, parent_id, new_inode_drive_item}
use onecloudriver.Inodes.Cache.{
  InodeCache, Bolt, find, store, drop_inode, mark_dirty, mark_deleted, attach_child, detach_child,
}
use onecloudriver.Inodes.Ttl.{register_ttl, is_children_fresh}
use onecloudriver.Inodes.SizeLimit.{update_eviction_entry}
use onecloudriver.Inodes.Tree.{
  when_found, attach_to, attach_seeded, detach_from, remove_child, remove_found, insert_child,
  move_child, move_found, move_id, move_id_found, rename_in, with_id, with_renamed, with_parent,
}
use onecloudriver.Inodes.Tree.Marking.{SameTree-attach_to}
use onecloudriver.Inodes.Fetch.{
  Listing, get_child, get_children, get_children_marking, serve_hit, serve_miss, touch_folder,
  count_hit,
}
use onecloudriver.Delta.Apply.{
  Wiring, DeltaSync, DeltaError, is_root_item, delta_parent, apply_delta, apply_known,
  apply_deletion, apply_new, apply_move, apply_content, apply_change, refresh_root, overwrite_found,
  overwrite_local, drop_content, resolve_parent_id, apply_pass, apply_page, with_name, remote_wins,
  content_matches_remote, with_remote, holds_children, local_match,
}
use onecloudriver.Delta.Resolve.{SameStore-resolve_parent_id}

abbrev pub db : InodeCache → Option Bolt
db c = c.db

pub found-db :
    (o : Option Inode) (c : InodeCache) (f : Inode → InodeCache)
    → ((i : Inode) → db (f i) ≡ db c)
    → db (when_found o c f) ≡ db c
found-db none c f h = refl
found-db (some i) c f h = h i

pub if-db :
    (q : Bool) (b : Option Bolt) (c d : InodeCache)
    → db c ≡ b
    → db d ≡ b
    → db (if q then c else d) ≡ b
if-db true b c d h k = h
if-db false b c d h k = k

detach_from-db :
    (pid id : String) (dir : Bool) (c : InodeCache) → db (detach_from pid id dir c) ≡ db c
unfolding detach_from
detach_from-db pid id dir c =
    found-db (find c pid) c (λ p. store pid (detach_child p id dir) c) λ p. refl

attach_seeded-db :
    (now : ℕ) (pid id : String) (dir : Bool) (c : InodeCache)
    → db (attach_seeded now pid id dir c) ≡ db c
unfolding attach_seeded mark_dirty
attach_seeded-db now pid id dir c =
    found-db (find c pid) c (λ p. attach_to now pid id dir p c)
      λ p. sym (SameTree-attach_to now pid id dir p c).db

remove_child-db : (pid id : String) (c : InodeCache) → db (remove_child pid id c) ≡ db c
unfolding remove_child remove_found mark_dirty mark_deleted
remove_child-db pid id c =
    found-db (find c id) c (λ i. remove_found pid id i c)
      λ i.
        if-db (pid == "") (db c) _ _ (detach_from-db pid id (is_dir i) c)
          (detach_from-db pid id (is_dir i) c)

insert_child-db : (pid : String) (i : Inode) (c : InodeCache) → db (insert_child pid i c) ≡ db c
unfolding insert_child mark_dirty
insert_child-db pid i c =
    let id = i.item.id in
    let c1 = store id (with_parent pid i) c in
    found-db (find c1 pid) c1
      (λ parent. mark_dirty pid (store pid (attach_child parent id (is_dir i) false) c1)) λ p. refl

move_child-db :
    (now : ℕ) (old new id : String) (c : InodeCache) → db (move_child now old new id c) ≡ db c
unfolding move_child move_found mark_dirty
move_child-db now old new id c =
    found-db (find c id) c (λ i. move_found now old new id i c)
      λ i.
        attach_seeded-db now new id (is_dir i) (detach_from old id (is_dir i) c)
        ∙ detach_from-db old id (is_dir i) c

rename_in-db : (pid old new : String) (c : InodeCache) → db (rename_in pid old new c) ≡ db c
unfolding rename_in mark_dirty
rename_in-db pid old new c =
    found-db (find c pid) c (λ p. mark_dirty pid (store pid (with_renamed old new p) c)) λ p. refl

pub move_id-db : (old new : String) (c : InodeCache) → db (move_id old new c) ≡ db c
unfolding move_id move_id_found mark_dirty mark_deleted
move_id-db old new c =
    found-db (find c old) c (λ i. move_id_found old new i c)
      λ i.
        let c1 = drop_inode old (store new (with_id new i) c) in
        let c2 = mark_dirty new (if old == new then c1 else mark_deleted old c1) in
        let h : db c2 ≡ db c = if-db (old == new) (db c) c1 (mark_deleted old c1) refl refl in
        if-db (parent_id i == "") (db c) c2 (rename_in (parent_id i) old new c2) h
          (rename_in-db (parent_id i) old new c2 ∙ h)

touch_folder-db :
    (now : ℕ) (pid : String) (p : Inode) (c : InodeCache) → db (touch_folder now pid p c) ≡ db c
unfolding touch_folder register_ttl update_eviction_entry
touch_folder-db now pid p c = ground arith

-- A lookup by name without a fetcher.
get_child-db :
    (now : ℕ) (pid name : String) (c : InodeCache) → db (get_child now pid name none c).1 ≡ db c
unfolding get_child get_children get_children_marking serve_hit serve_miss
get_child-db now pid name c = at_parent (find c pid)
  where
    fresh :
        (p : Inode) (ids : List String) (q : Bool)
        → let r : Listing (Dict Inode) × InodeCache =
            if q then serve_hit now pid p ids c else serve_miss now pid none true c in
          db r.1 ≡ db c
    fresh p ids true = touch_folder-db now pid p (count_hit c)
    fresh p ids false = refl

    at_list :
        (p : Inode) (o : Option (List String))
        → let r : Listing (Dict Inode) × InodeCache = elim o [
          | none ↦ serve_miss now pid none true c
          | some ids ↦
              if is_children_fresh now c p
              then serve_hit now pid p ids c
              else serve_miss now pid none true c
        ] in
          db r.1 ≡ db c
    at_list p none = refl
    at_list p (some ids) = fresh p ids (is_children_fresh now c p)

    at_parent :
        (o : Option Inode)
        → let r : Listing (Dict Inode) × InodeCache = elim o [
          | none ↦ serve_miss now pid none true c
          | some parent ↦ elim parent.children [
            | none ↦ serve_miss now pid none true c
            | some ids ↦
                if is_children_fresh now c parent
                then serve_hit now pid parent ids c
                else serve_miss now pid none true c
          ]
        ] in
          db r.1 ≡ db c
    at_parent none = refl
    at_parent (some p) = at_list p p.children

module _ {K : Type 0} (env : Wiring K) where
  drop_content-db : (id : String) (d : DeltaSync K) → db (drop_content env id d).cache ≡ db d.cache
  unfolding drop_content
  drop_content-db id d = refl

  refresh_root-db :
      (delta : DeltaItem) (d : DeltaSync K) → db (refresh_root delta d).cache ≡ db d.cache
  unfolding refresh_root mark_dirty
  refresh_root-db delta d =
      found-db (find d.cache "root") d.cache
        (λ i.
          let item = i.item in
          let i' = record i { item = record item { folder = delta.item.folder } } in
          mark_dirty "root" (store "root" i' d.cache))
        λ i. refl

  -- A state whose cache has the database `b`.
  if-state :
      (q : Bool) (b : Option Bolt) (d e : DeltaSync K)
      → db d.cache ≡ b
      → db e.cache ≡ b
      → db (if q then d else e).cache ≡ b
  if-state true b d e h k = h
  if-state false b d e h k = k

  apply_new-db :
      (delta : DeltaItem) (pid : String) (d : DeltaSync K)
      → db (apply_new env delta pid d).cache ≡ db d.cache
  unfolding apply_new
  apply_new-db delta pid d =
      let (r, c) = get_child env.now pid delta.item.name none d.cache in
      either c (local_match r) (get_child-db env.now pid delta.item.name d.cache)
    where
      either :
          (c : InodeCache) (o : Option String)
          → db c ≡ db d.cache
          → let e : DeltaSync K = elim o [
            | some old ↦ record d { cache = move_id old delta.item.id c }
            | none ↦ record d { cache = insert_child pid (new_inode_drive_item delta.item) c }
          ] in
            db e.cache ≡ db d.cache
      either c none h = insert_child-db pid (new_inode_drive_item delta.item) c ∙ h
      either c (some old) h = move_id-db old delta.item.id c ∙ h

  apply_move-db :
      (delta : DeltaItem) (pid : String) (i : Inode) (d : DeltaSync K)
      → db (apply_move env delta pid i d).cache ≡ db d.cache
  unfolding apply_move
  apply_move-db delta pid i d =
      let id = delta.item.id in
      let c = move_child env.now (parent_id i) pid id d.cache in
      if-state (parent_id i == pid && i.item.name == delta.item.name) (db d.cache) d _ refl (
        found-db (find c id) c (λ j. store id (with_name delta j) c) (λ j. refl)
        ∙ move_child-db env.now (parent_id i) pid id d.cache)

  apply_content-db :
      (delta : DeltaItem) (d : DeltaSync K) → db (apply_content env delta d).cache ≡ db d.cache
  unfolding apply_content overwrite_local
  apply_content-db delta d = at_found (find d.cache delta.item.id)
    where
      at_found : (o : Option Inode) → db (overwrite_found env delta o d).cache ≡ db d.cache
      at_found none = refl
      at_found (some i) =
          let e = record d { cache = store delta.item.id (with_remote delta i) d.cache } in
          if-state (remote_wins env delta i) (db d.cache) (overwrite_local env delta i d) d
            (if-state (content_matches_remote env delta.item.id delta.item.file e) (db d.cache) e
              (drop_content env delta.item.id e) refl (drop_content-db delta.item.id e))
            refl

  apply_change-db :
      (delta : DeltaItem) (pid : String) (o : Option Inode) (d : DeltaSync K)
      → db (apply_change env delta pid o d).cache ≡ db d.cache
  apply_change-db delta pid none d = apply_new-db delta pid d
  apply_change-db delta pid (some i) d =
      apply_content-db delta (apply_move env delta pid i d) ∙ apply_move-db delta pid i d

  if-result :
      (q : Bool) (b : Option Bolt) (x y : Option DeltaError × DeltaSync K)
      → db x.1.cache ≡ b
      → db y.1.cache ≡ b
      → db (if q then x else y).1.cache ≡ b
  if-result true b x y h k = h
  if-result false b x y h k = k

  pub apply_delta-db :
      (delta : DeltaItem) (d : DeltaSync K) → db (apply_delta env delta d).1.cache ≡ db d.cache
  unfolding apply_delta apply_known apply_deletion
  apply_delta-db delta d =
      let (pid, e) = resolve_parent_id env (delta_parent delta) delta d in
      let h = ap db (SameStore-resolve_parent_id env (delta_parent delta) delta d).cache in
      let local = find e.cache delta.item.id in
      let removed = record e { cache = remove_child pid delta.item.id e.cache } in
      if-result (pid == "" && is_root_item delta) (db d.cache) _ _ (refresh_root-db delta e ∙ h) (
        if-result (is_some (find e.cache pid)) (db d.cache) _ _
          (if-result (is_some delta.deleted) (db d.cache) _ _
            (if-result (is_folder delta.item && holds_children local) (db d.cache) _ _ h (
              drop_content-db delta.item.id removed
              ∙ remove_child-db pid delta.item.id e.cache
              ∙ h))
            (apply_change-db delta pid local e ∙ h))
          h)

  pub apply_pass-db :
      (xs : List DeltaItem) (d : DeltaSync K) → db (apply_pass env xs d).1.cache ≡ db d.cache
  unfolding apply_pass
  apply_pass-db [] d = refl
  apply_pass-db (x ∷ xs) d = apply_pass-db xs (apply_delta env x d).1 ∙ apply_delta-db x d

  pub apply_page-db :
      (items pending : List DeltaItem) (d : DeltaSync K)
      → db (apply_page env items pending d).1.cache ≡ db d.cache
  unfolding apply_page
  apply_page-db items pending d =
      let (blocked, d1) = apply_pass env items d in
      let (still_blocked, d2) = apply_pass env blocked d1 in
      apply_pass-db pending d2 ∙ apply_pass-db blocked d1 ∙ apply_pass-db items d
