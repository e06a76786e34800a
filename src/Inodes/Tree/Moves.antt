-- ===== src/Inodes/Tree/Moves.antt =====
-- MoveChild and MoveID (internal/fs/cache.go).
use onecloudriver.Prelude.{
  ℕ, String, ◌≡◌, refl, ap, ◌∙◌, Bool, true, false, Option, none, some, List, arith, ◌==◌, eq_refl,
}
use onecloudriver.Prelude.Dict
use onecloudriver.Prelude.Dict.{Dict, get-remove, get-put}
use onecloudriver.Inodes.Inode.{Inode, is_dir}
use onecloudriver.Inodes.Cache.{
  InodeCache, Bolt, find, store, has, without_id, mark_dirty, attach_child, detach_child,
}
use onecloudriver.Inodes.Tree.{attach_seeded, attach_to, detach_from, move_child, move_found}
use onecloudriver.Inodes.Tree.Marking.{SameTree, SameTree-attach_to}
use onecloudriver.Inodes.Tree.{when_found}
use onecloudriver.Inodes.Bolt.Sync.{image, tree_part, marks-mark_dirty}
use onecloudriver.Inodes.Bolt.{in_tree}
use onecloudriver.Inodes.Bolt.Convergence.{IsSynced}

abbrev pub children_of : Option Inode → Option (List String)
children_of none = none
children_of (some i) = i.children

-- What concerns one ID: its inode, its two marks, and the database.
pub record SameAt (id : String) (c d : InodeCache) : Type 0 where
  pub inode : find d id ≡ find c id
  pub dirty : has d.dirty id ≡ has c.dirty id
  pub deleted : has d.deleted id ≡ has c.deleted id
  pub db : d.db ≡ c.db

SameAt-store :
    (id pid : String) (i : Inode) (c : InodeCache)
    → (pid == id) ≡ false
    → SameAt id c (mark_dirty pid (store pid i c))
unfolding mark_dirty
SameAt-store id pid i c h =
    let k = marks-mark_dirty pid (store pid i c) id in
    record {
      inode = rw (get-put c.inodes pid id i, h);
      dirty = ground arith;
      deleted = ground arith;
      db = refl;
    }

SameAt-SameTree : {id : String} {c d e : InodeCache} → SameAt id c d → SameTree d e → SameAt id c e
SameAt-SameTree {id} {c} {d} {e} s t = record {
  inode = rw (← t.inodes) s.inode;
  dirty = rw (← t.dirty) s.dirty;
  deleted = rw (← t.deleted) s.deleted;
  db = rw (← t.db) s.db;
}

SameAt-refl : (id : String) (c : InodeCache) → SameAt id c c
SameAt-refl id c = record { inode = refl; dirty = refl; deleted = refl; db = refl }

-- Attaching under another ID changes nothing of this one.
pub SameAt-attach_seeded :
    (now : ℕ) (pid child_id : String) (dir : Bool) (c : InodeCache) (id : String)
    → (pid == id) ≡ false
    → SameAt id c (attach_seeded now pid child_id dir c)
unfolding attach_seeded
SameAt-attach_seeded now pid child_id dir c id h =
    elim (find c pid)
      as (λ o. SameAt id c (when_found o c (λ parent. attach_to now pid child_id dir parent c))) [
        | none ↦ SameAt-refl id c
        | some parent ↦
            SameAt-SameTree (SameAt-store id pid (attach_child parent child_id dir true) c h)
              (SameTree-attach_to now pid child_id dir parent c)
      ]

SameAt-mark_dirty :
    (id pid : String) (c d : InodeCache)
    → (pid == id) ≡ false
    → SameAt id c d
    → SameAt id c (mark_dirty pid d)
unfolding mark_dirty
SameAt-mark_dirty id pid c d h s =
    let k = marks-mark_dirty pid d id in
    record { inode = s.inode; dirty = ground arith; deleted = ground arith; db = s.db }

pub SameAt-trans :
    {id : String} {c d e : InodeCache} → SameAt id c d → SameAt id d e → SameAt id c e
SameAt-trans s t = record {
  inode = t.inode ∙ s.inode;
  dirty = t.dirty ∙ s.dirty;
  deleted = t.deleted ∙ s.deleted;
  db = t.db ∙ s.db;
}

children-detach_child :
    (parent : Inode) (child_id : String) (dir : Bool) (ids : List String)
    → parent.children ≡ some ids
    → (detach_child parent child_id dir).children ≡ some (without_id ids child_id)
unfolding detach_child
children-detach_child parent child_id dir ids h =
    ap
      (λ (o : Option (List String)). elim o [ some l ↦ some (without_id l child_id) | none ↦ none ])
      h

-- What the mirrored entry of a listed folder lists.
children-image :
    (p : Inode) (o : Option Inode) (ids : List String)
    → p.children ≡ some ids
    → (in_tree p ≡ true → image o ≡ some (tree_part p))
    → children_of o ≡ some ids
unfolding in_tree
children-image p none ids h k = cc (k (rw h))
children-image p (some q) ids h k = ap children_of (k (rw h)) ∙ h

-- The old parent after MoveChild.
module _ (now : ℕ) (old new child_id : String) (c : InodeCache) (i parent : Inode) where
  detached : InodeCache
  detached = store old (detach_child parent child_id (is_dir i)) c

  move_child_lem :
      find c child_id ≡ some i
      → move_child now old new child_id c ≡ move_found now old new child_id i c
  unfolding move_child
  move_child_lem h = ap (λ o. when_found o c (λ j. move_found now old new child_id j c)) h

  detach_from_lem : find c old ≡ some parent → detach_from old child_id (is_dir i) c ≡ detached
  unfolding detach_from detached
  detach_from_lem h =
      ap (λ o. when_found o c (λ p. store old (detach_child p child_id (is_dir i)) c)) h

  move_found_lem :
      find c old ≡ some parent
      → move_found now old new child_id i c
        ≡ mark_dirty child_id (attach_seeded now new child_id (is_dir i) detached)
  unfolding move_found
  move_found_lem h =
      ap (λ d. mark_dirty child_id (attach_seeded now new child_id (is_dir i) d))
        (detach_from_lem h)

  -- Where the database mirrors memory except at marked IDs: a move of a child out of a listed and
  -- unmarked folder into another one takes the child out of the old folder's list in memory but
  -- does not mark that folder. Its stored entry still has the old list.
  pub move_child-stale :
      (b : Bolt)
      → IsSynced b c
      → find c child_id ≡ some i
      → find c old ≡ some parent
      → (ids : List String) → parent.children ≡ some ids
      → (new == old) ≡ false
      → (child_id == old) ≡ false
      → has c.dirty old ≡ false
      → has c.deleted old ≡ false
      → let c' = move_child now old new child_id c in
        (children_of (find c' old) ≡ some (without_id ids child_id))
        × (c'.db ≡ some b)
        × (children_of (Dict.get b.metadata old) ≡ some ids)
        × (has c'.dirty old ≡ false)
        × (has c'.deleted old ≡ false)
  unfolding detached
  move_child-stale b s fi fp ids listed h k d x =
      let same : SameAt old detached (move_child now old new child_id c) =
        rw (move_child_lem fi, move_found_lem fp)
          (SameAt-mark_dirty old child_id detached _ k
            (SameAt-attach_seeded now new child_id (is_dir i) detached old h)) in
      (
        rw (same.inode, get-put c.inodes old old _, eq_refl old)
            (children-detach_child parent child_id (is_dir i) ids listed),
        same.db ∙ s.opened,
        children-image parent (Dict.get b.metadata old) ids listed (rw fp at (s.unmarked old d x)),
        same.dirty ∙ d,
        same.deleted ∙ x,
      )
