-- ===== src/Delta/Local.antt =====
-- Local work and remote changes (internal/fs/delta.go: cases 3 and 4 of applyDelta).
use mathlib.Core.Path.{subst}
use onecloudriver.Prelude.{
  ℕ, String, ◌≡◌, refl, sym, ap, ◌∙◌, Bool, true, false, ◌&&◌, ◌||◌, Option, none, some, is_some,
  ◌==◌, if◌then◌else◌, eq_refl, arith,
}
use onecloudriver.Prelude.Dict.{get-put}
use onecloudriver.Graph.Models.{DeltaItem, DriveItemParent}
use onecloudriver.Inodes.Inode.{Inode, is_dir, parent_id}
use onecloudriver.Inodes.Cache.{InodeCache, find, store, mark_dirty, detach_child}
use onecloudriver.Inodes.Tree.{move_child, move_found, detach_from, when_found}
use onecloudriver.Inodes.Tree.Moves.{SameAt-attach_seeded}
use onecloudriver.Delta.Apply.{
  Wiring, DeltaSync, DeltaError, is_root_item, delta_parent, apply_move, apply_content, apply_known,
  apply_delta, apply_change, with_name, remote_wins, overwrite_found, has_pending,
}
use onecloudriver.Delta.Resolve.{
  SameStore, SameStore-resolve_parent_id, parent_key, resolved, apply_delta_lem,
}

find-detach_from :
    (pid child_id : String) (dir : Bool) (id : String) (c : InodeCache)
    → (pid == id) ≡ false
    → find (detach_from pid child_id dir c) id ≡ find c id
unfolding detach_from
find-detach_from pid child_id dir id c h = at_parent (find c pid)
  where
    at_parent :
        (o : Option Inode)
        → find (when_found o c (λ p. store pid (detach_child p child_id dir) c)) id ≡ find c id
    at_parent none = refl
    at_parent (some p) = rw (get-put c.inodes pid id (detach_child p child_id dir), h)

-- A move leaves the inode that moves as it is.
find-move_child :
    (now : ℕ) (old new id : String) (c : InodeCache)
    → (old == id) ≡ false
    → (new == id) ≡ false
    → find (move_child now old new id c) id ≡ find c id
unfolding move_child move_found mark_dirty
find-move_child now old new id c h k = at_found (find c id)
  where
    at_found :
        (o : Option Inode)
        → find (when_found o c (λ i. move_found now old new id i c)) id ≡ find c id
    at_found none = refl
    at_found (some i) =
        (SameAt-attach_seeded now new id (is_dir i) (detach_from old id (is_dir i) c) id k).inode
        ∙ find-detach_from old id (is_dir i) id c h

-- The parts of an inode that a write changes.
pub record SameContent (i j : Inode) : Type 0 where
  pub size : j.item.size ≡ i.item.size
  pub etag : j.item.etag ≡ i.item.etag
  pub mod_time : j.item.mod_time ≡ i.item.mod_time
  pub file : j.item.file ≡ i.item.file
  pub has_changes : j.has_changes ≡ i.has_changes

SameContent-with_name : (delta : DeltaItem) (i : Inode) → SameContent i (with_name delta i)
SameContent-with_name delta i = named delta.item.parent
  where
    named :
        (o : Option DriveItemParent)
        → let item = i.item in
          let n = record item { name = delta.item.name } in
          SameContent i (elim o [
            | none ↦ record i { item = n }
            | some p ↦ record i { item = record n { parent = some p } }
          ])
    named none = record {
      size = refl;
      etag = refl;
      mod_time = refl;
      file = refl;
      has_changes = refl;
    }
    named (some p) = record {
      size = refl;
      etag = refl;
      mod_time = refl;
      file = refl;
      has_changes = refl;
    }

-- The inode is still there with its size, ETag, time and flag, and no content was dropped.
pub record IsKept {K : Type 0} (id : String) (i : Inode) (k : K) (e : DeltaSync K) : Type 0 where
  pub inode : Inode
  pub found : find e.cache id ≡ some inode
  pub same : SameContent i inode
  pub content : e.content ≡ k

module _ {K : Type 0} (env : Wiring K) (delta : DeltaItem) (i : Inode) where
  apply_move-IsKept :
      (pid : String) (d : DeltaSync K)
      → find d.cache delta.item.id ≡ some i
      → (parent_id i == delta.item.id) ≡ false
      → (pid == delta.item.id) ≡ false
      → IsKept delta.item.id i d.content (apply_move env delta pid i d)
  unfolding apply_move
  apply_move-IsKept pid d h k l = choose (parent_id i == pid && i.item.name == delta.item.name)
    where
      id : String
      id = delta.item.id

      c : InodeCache
      c = move_child env.now (parent_id i) pid id d.cache

      moved :
          find (when_found (find c id) c (λ j. store id (with_name delta j) c)) id
          ≡ some (with_name delta i)
      moved =
          ap (λ o. find (when_found o c (λ j. store id (with_name delta j) c)) id)
            (find-move_child env.now (parent_id i) pid id d.cache k l ∙ h)
          ∙ rw (get-put c.inodes id id (with_name delta i), eq_refl id)

      choose :
          (q : Bool)
          → IsKept id i d.content (
              if q then d else record d {
                cache = when_found (find c id) c (λ j. store id (with_name delta j) c);
              })
      choose true = record {
        inode = i;
        found = h;
        same = record {
          size = refl;
          etag = refl;
          mod_time = refl;
          file = refl;
          has_changes = refl;
        };
        content = refl;
      }
      choose false = record {
        inode = with_name delta i;
        found = moved;
        same = SameContent-with_name delta i;
        content = refl;
      }

  -- Work that waits on this side: unsaved changes, or an upload.
  abbrev pub has_local_work : Bool
  has_local_work = i.has_changes || has_pending env delta.item.id

  local_wins :
      (j : Inode) → SameContent i j → has_local_work ≡ true → remote_wins env delta j ≡ false
  unfolding remote_wins
  local_wins j s h = let t = s.has_changes in ground arith

  apply_content-IsKept :
      (k : K) (d : DeltaSync K)
      → has_local_work ≡ true
      → IsKept delta.item.id i k d
      → IsKept delta.item.id i k (apply_content env delta d)
  unfolding apply_content
  apply_content-IsKept k d h s = subst (λ e. IsKept delta.item.id i k e) (sym unchanged) s
    where
      unchanged : apply_content env delta d ≡ d
      unchanged = ap (λ o. overwrite_found env delta o d) s.found ∙ rw (local_wins s.inode s.same h)

  apply_known-IsKept :
      (pid : String) (d : DeltaSync K)
      → has_local_work ≡ true
      → is_some delta.deleted ≡ false
      → find d.cache delta.item.id ≡ some i
      → (parent_id i == delta.item.id) ≡ false
      → (pid == delta.item.id) ≡ false
      → IsKept delta.item.id i d.content (apply_known env delta pid d).1
  unfolding apply_known
  apply_known-IsKept pid d work alive h k l = rw alive (
      subst (λ e. IsKept delta.item.id i d.content e)
        (sym (ap (λ o. apply_change env delta pid o d) h))
        (apply_content-IsKept d.content (apply_move env delta pid i d) work
          (apply_move-IsKept pid d h k l)))

  -- A change that is no deletion and not of the root, of an inode with local work (unsaved changes,
  -- or a pending upload) whose parents, the old one and the new one, are other inodes: the inode
  -- stays in the cache with its size, ETag, modification time, hashes and change flag, and no
  -- content is dropped, also if the change renames or moves it and whatever its date and ETag are.
  pub apply_delta-IsKept :
      (d : DeltaSync K)
      → has_local_work ≡ true
      → (parent_key env delta d == "" && is_root_item delta) ≡ false
      → is_some delta.deleted ≡ false
      → find d.cache delta.item.id ≡ some i
      → (parent_id i == delta.item.id) ≡ false
      → (parent_key env delta d == delta.item.id) ≡ false
      → IsKept delta.item.id i d.content (apply_delta env delta d).1
  apply_delta-IsKept d work plain alive h k l =
      subst (λ (r : Option DeltaError × DeltaSync K). IsKept delta.item.id i d.content r.1)
        (sym (apply_delta_lem env delta d plain))
        (either (is_some (find d.cache (parent_key env delta d))))
    where
      same : SameStore d (resolved env delta d)
      same = SameStore-resolve_parent_id env (delta_parent delta) delta d

      at_resolved : find (resolved env delta d).cache delta.item.id ≡ some i
      at_resolved = ap (λ c. find c delta.item.id) same.cache ∙ h

      either :
          (q : Bool)
          → IsKept delta.item.id i d.content
              (if q
                then apply_known env delta (parent_key env delta d) (resolved env delta d)
                else (none, resolved env delta d)).1
      either true =
          subst
            (λ k'.
              IsKept delta.item.id i k'
                (apply_known env delta (parent_key env delta d) (resolved env delta d)).1)
            same.content
            (apply_known-IsKept (parent_key env delta d) (resolved env delta d) work alive
              at_resolved k l)
      either false = record {
        inode = i;
        found = at_resolved;
        same = record {
          size = refl;
          etag = refl;
          mod_time = refl;
          file = refl;
          has_changes = refl;
        };
        content = same.content;
      }
