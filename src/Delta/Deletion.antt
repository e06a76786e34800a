-- ===== src/Delta/Deletion.antt =====
-- Remote deletions (internal/fs/delta.go): applyDelta, and which changes applyPage hands on.
use mathlib.Core.Path.{subst}
use onecloudriver.Prelude.{
  sym, String, ◌≡◌, refl, ◌∙◌, Bool, true, false, ◌&&◌, Option, none, some, is_some, ◌==◌,
  if◌then◌else◌, Bool-cases, inl, inr, eq_refl,
}
use onecloudriver.Prelude.Dict
use onecloudriver.Prelude.Dict.{get-remove}
use onecloudriver.Graph.Models.{DeltaItem, is_folder}
use onecloudriver.Inodes.Inode.{Inode, is_dir}
use onecloudriver.Inodes.Cache.{InodeCache, find, mark_dirty, mark_deleted}
use onecloudriver.Inodes.Tree.{remove_child, remove_found, detach_from, when_found}
use onecloudriver.Delta.Apply.{
  Wiring, DeltaSync, DeltaError, dir_not_empty, is_root_item, holds_children, apply_deletion,
  apply_known, apply_delta, drop_content, delta_parent,
}
use onecloudriver.Delta.Resolve.{SameStore-resolve_parent_id, parent_key, resolved, apply_delta_lem}

find-remove_found :
    (pid id : String) (i : Inode) (c : InodeCache) → find (remove_found pid id i c) id ≡ none
unfolding remove_found mark_dirty mark_deleted
find-remove_found pid id i c =
    let c1 = detach_from pid id (is_dir i) c in
    let gone : Dict.get (Dict.remove c1.inodes id) id ≡ none =
      rw (get-remove c1.inodes id id, eq_refl id) in
    elim (Bool-cases (pid == "")) [ inl e ↦ rw e gone | inr e ↦ rw e gone ]

pub find-remove_child : (pid id : String) (c : InodeCache) → find (remove_child pid id c) id ≡ none
unfolding remove_child
find-remove_child pid id c = at_found (find c id) refl
  where
    at_found :
        (o : Option Inode)
        → find c id ≡ o
        → find (when_found o c (λ i. remove_found pid id i c)) id ≡ none
    at_found none h = h
    at_found (some i) h = find-remove_found pid id i c

-- A folder that the cache knows to have children.
abbrev pub is_blocked : DeltaItem → InodeCache → Bool
is_blocked delta c = is_folder delta.item && holds_children (find c delta.item.id)

-- What a deletion makes of the two caches: a folder with children is refused and nothing changes;
-- else the inode and the content are gone.
pub record IsDeleted {K : Type 0} (env : Wiring K) (delta : DeltaItem) (c : InodeCache) (k : K)
    (r : Option DeltaError × DeltaSync K) : Type 0 where
  pub error : r.0 ≡ (if is_blocked delta c then some dir_not_empty else none)
  pub refused : is_blocked delta c ≡ true → (r.1.cache ≡ c) × (r.1.content ≡ k)
  pub gone :
      is_blocked delta c ≡ false
      → (find r.1.cache delta.item.id ≡ none) × (r.1.content ≡ (env.drop delta.item.id k).1)

module _ {K : Type 0} (env : Wiring K) (delta : DeltaItem) where
  IsDeleted-same :
      {c c' : InodeCache} {k k' : K} {r : Option DeltaError × DeltaSync K}
      → c ≡ c'
      → k ≡ k'
      → IsDeleted env delta c k r
      → IsDeleted env delta c' k' r
  IsDeleted-same h l s = record {
    error = rw (← h) s.error;
    refused = λ q. let t = s.refused (rw h q) in (t.0 ∙ h, t.1 ∙ l);
    gone = λ q. let t = s.gone (rw h q) in (t.0, rw (← l) t.1);
  }

  choose-IsDeleted :
      (q : Bool) (c : InodeCache) (k : K) (x y : Option DeltaError × DeltaSync K)
      → is_blocked delta c ≡ q
      → (x.0 ≡ some dir_not_empty) × (x.1.cache ≡ c) × (x.1.content ≡ k)
      → (y.0 ≡ none)
        × (find y.1.cache delta.item.id ≡ none)
        × (y.1.content ≡ (env.drop delta.item.id k).1)
      → IsDeleted env delta c k (if q then x else y)
  choose-IsDeleted true c k x y q s t = record {
    error = rw (q, s.0);
    refused = λ _. (s.1, s.2);
    gone = λ f. cc;
  }
  choose-IsDeleted false c k x y q s t = record {
    error = rw (q, t.0);
    refused = λ f. cc;
    gone = λ _. (t.1, t.2);
  }

  apply_deletion-IsDeleted :
      (pid : String) (d : DeltaSync K)
      → IsDeleted env delta d.cache d.content
          (apply_deletion env delta pid (find d.cache delta.item.id) d)
  unfolding apply_deletion drop_content
  apply_deletion-IsDeleted pid d =
      choose-IsDeleted (is_blocked delta d.cache) d.cache d.content _ _ refl (refl, refl, refl)
        (refl, find-remove_child pid delta.item.id d.cache, refl)

  apply_known-IsDeleted :
      (pid : String) (d : DeltaSync K)
      → is_some delta.deleted ≡ true
      → IsDeleted env delta d.cache d.content (apply_known env delta pid d)
  unfolding apply_known
  apply_known-IsDeleted pid d h = rw h (apply_deletion-IsDeleted pid d)

  -- A deletion, of an item other than the root, whose parent is in the cache: a folder with known
  -- children is refused with errDirNotEmpty and neither cache changes; otherwise no error comes
  -- out, the cache has no inode of that ID, and the content of that ID was dropped.
  pub apply_delta-IsDeleted :
      (d : DeltaSync K)
      → (parent_key env delta d == "" && is_root_item delta) ≡ false
      → is_some (find d.cache (parent_key env delta d)) ≡ true
      → is_some delta.deleted ≡ true
      → IsDeleted env delta d.cache d.content (apply_delta env delta d)
  apply_delta-IsDeleted d plain known deleted =
      let same = SameStore-resolve_parent_id env (delta_parent delta) delta d in
      let e = resolved env delta d in
      IsDeleted-same same.cache same.content (
        subst (λ r. IsDeleted env delta e.cache e.content r)
          (sym (apply_delta_lem env delta d plain ∙ at_known known))
          (apply_known-IsDeleted (parent_key env delta d) e deleted))
    where
      at_known :
          is_some (find d.cache (parent_key env delta d)) ≡ true
          → (if is_some (find d.cache (parent_key env delta d))
              then apply_known env delta (parent_key env delta d) (resolved env delta d)
              else (none, resolved env delta d))
            ≡ apply_known env delta (parent_key env delta d) (resolved env delta d)
      at_known h = rw h

-- The changes that are tried again: deletions of folders.
abbrev pub IsFolderDeletion : DeltaItem → Type 0
IsFolderDeletion x = (is_folder x.item ≡ true) × (is_some x.deleted ≡ true)
