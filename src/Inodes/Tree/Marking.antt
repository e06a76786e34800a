-- ===== src/Inodes/Tree/Marking.antt =====
-- Which operations on the tree (internal/fs/cache.go) mark every inode that they change, so that
-- the next SerializeDirty writes it.
use onecloudriver.Prelude.{
  ℕ, String, ◌≡◌, refl, ap, Bool, true, false, not, ◌&&◌, Option, none, some, arith, ◌==◌, eq_iff,
  eq_refl, or_false, Bool-cases, inl, inr, if◌then◌else◌,
}
use onecloudriver.Prelude.Dict
use onecloudriver.Prelude.Dict.{Dict, get-remove, get-put}
use onecloudriver.Inodes.Inode.{Inode, is_dir, parent_id, is_children_fetched, set_children}
use onecloudriver.Inodes.Cache.{
  InodeCache, Bolt, find, store, drop_inode, mark_dirty, mark_deleted, attach_child, detach_child,
}
use onecloudriver.Inodes.Ttl.{register_ttl}
use onecloudriver.Inodes.SizeLimit.{update_eviction_entry}
use onecloudriver.Inodes.Tree.{
  count_folder, uncount_folder, when_found, attach_to, delete_found, remove_found, move_id_found,
  move_found, rename_in, with_renamed, with_id, with_parent, invalidate_found, attach_seeded,
  detach_from, insert, delete, insert_child, remove_child, move_id, move_child, invalidate,
}
use onecloudriver.Inodes.Bolt.Convergence.{IsSynced}
use onecloudriver.Inodes.Bolt.Mirror.{
  Mirrors, nothing, also, IsSynced-Mirrors, Mirrors-IsSynced, store-Mirrors, drop_inode-Mirrors,
  mark_dirty-Mirrors, mark_deleted-Mirrors,
}

-- A change of the other fields, such as the eviction bookkeeping.
pub record SameTree (c d : InodeCache) : Type 0 where
  pub inodes : c.inodes ≡ d.inodes
  pub db : c.db ≡ d.db
  pub dirty : c.dirty ≡ d.dirty
  pub deleted : c.deleted ≡ d.deleted

SameTree-Mirrors :
    {todo : String → Bool} {b : Bolt} {c d : InodeCache}
    → SameTree c d
    → Mirrors todo b c
    → Mirrors todo b d
SameTree-Mirrors {todo} {b} {c} {d} e s = record {
  opened = rw (← e.db) s.opened;
  unmarked = λ id t p x. rw (← e.inodes) (s.unmarked id t (rw e.dirty p) (rw e.deleted x));
  absent = λ id t x. rw (← e.inodes) (s.absent id t (rw e.deleted x));
}

SameTree-count_folder : (c : InodeCache) → SameTree c (count_folder c)
SameTree-count_folder c = record { inodes = refl; db = refl; dirty = refl; deleted = refl }

SameTree-uncount_folder : (c : InodeCache) → SameTree c (uncount_folder c)
SameTree-uncount_folder c = record { inodes = refl; db = refl; dirty = refl; deleted = refl }

-- Listing a folder anew changes the bookkeeping alone.
SameTree-seeded :
    (p : Inode) (now : ℕ) (c : InodeCache)
    → SameTree c (count_folder (update_eviction_entry p now (register_ttl p c)))
unfolding register_ttl update_eviction_entry
SameTree-seeded p now c = ground arith

subsume-Mirrors :
    {todo : String → Bool} {b : Bolt} {c : InodeCache} (todo' : String → Bool)
    → ((id : String) → todo' id ≡ false → todo id ≡ false)
    → Mirrors todo b c
    → Mirrors todo' b c
subsume-Mirrors todo' sub s = record {
  opened = s.opened;
  unmarked = λ id t. s.unmarked id (sub id t);
  absent = λ id t. s.absent id (sub id t);
}

weaken-Mirrors :
    {todo : String → Bool} {b : Bolt} {c : InodeCache} (j : String)
    → Mirrors todo b c
    → Mirrors (also j todo) b c
weaken-Mirrors {todo} j = subsume-Mirrors (also j todo) λ id t. (or_false (j == id) (todo id) t).1

if-Mirrors :
    {todo : String → Bool} {b : Bolt} (q : Bool) (c d : InodeCache)
    → Mirrors todo b c
    → Mirrors todo b d
    → Mirrors todo b (if q then c else d)
if-Mirrors true c d x y = x
if-Mirrors false c d x y = y

SameTree-mark_dirty :
    (id : String) {c d : InodeCache} → SameTree c d → SameTree (mark_dirty id c) (mark_dirty id d)
unfolding mark_dirty
SameTree-mark_dirty id e = record {
  inodes = e.inodes;
  db = e.db;
  dirty = ap (λ s. Dict.put s id tt) e.dirty;
  deleted = ap (λ s. Dict.remove s id) e.deleted;
}

if-SameTree : (q : Bool) (c d : InodeCache) → SameTree c d → SameTree c (if q then d else c)
if-SameTree true c d e = e
if-SameTree false c d e = record { inodes = refl; db = refl; dirty = refl; deleted = refl }

-- Beside the bookkeeping, attaching is a store of the folder and its mark.
pub SameTree-attach_to :
    (now : ℕ) (pid child_id : String) (dir : Bool) (parent : Inode) (c : InodeCache)
    → SameTree
        (mark_dirty pid (store pid (attach_child parent child_id dir true) c))
        (attach_to now pid child_id dir parent c)
unfolding attach_to
SameTree-attach_to now pid child_id dir parent c =
    let p = attach_child parent child_id dir true in
    SameTree-mark_dirty pid (
      if-SameTree (not (is_children_fetched parent) && is_children_fetched p) (store pid p c) _
        (SameTree-seeded p now (store pid p c)))

when_found-Mirrors :
    {todo : String → Bool} {b : Bolt} (o : Option Inode) (c : InodeCache) (f : Inode → InodeCache)
    → Mirrors todo b c
    → ((i : Inode) → Mirrors todo b (f i))
    → Mirrors todo b (when_found o c f)
when_found-Mirrors none c f s k = s
when_found-Mirrors (some i) c f s k = k i

module _ (b : Bolt) (c : InodeCache) (todo : String → Bool) (s : Mirrors todo b c) where
  attach_seeded-Mirrors :
      (now : ℕ) (pid child_id : String) (dir : Bool)
      → Mirrors todo b (attach_seeded now pid child_id dir c)
  unfolding attach_seeded
  attach_seeded-Mirrors now pid child_id dir =
      when_found-Mirrors (find c pid) c (λ parent. attach_to now pid child_id dir parent c) s
        λ parent.
          let p = attach_child parent child_id dir true in
          let base = store-Mirrors pid todo b c p s in
          mark_dirty-Mirrors pid todo b _ (
            if-Mirrors (not (is_children_fetched parent) && is_children_fetched p) _ _
              (SameTree-Mirrors (SameTree-seeded p now (store pid p c)) base) base)

  detach_from-Mirrors :
      (pid child_id : String) (dir : Bool)
      → Mirrors (also pid todo) b (detach_from pid child_id dir c)
  unfolding detach_from
  detach_from-Mirrors pid child_id dir =
      when_found-Mirrors (find c pid) c (λ parent. store pid (detach_child parent child_id dir) c)
        (weaken-Mirrors pid s)
        (λ parent. store-Mirrors pid todo b c (detach_child parent child_id dir) s)

find-drop_inode : (id : String) (c : InodeCache) → find (drop_inode id c) id ≡ none
find-drop_inode id c = rw (get-remove c.inodes id id, eq_refl id)

-- Removing an inode, with its tombstone.
bury-Mirrors :
    {todo : String → Bool} {b : Bolt} (id : String) (c : InodeCache)
    → Mirrors todo b c
    → Mirrors todo b (mark_deleted id (drop_inode id c))
bury-Mirrors {todo} {b} id c s =
    mark_deleted-Mirrors id todo b _ (find-drop_inode id c) (drop_inode-Mirrors id todo b c s)

-- Storing an inode, with its mark.
record-Mirrors :
    {todo : String → Bool} {b : Bolt} (id : String) (i : Inode) (c : InodeCache)
    → Mirrors todo b c
    → Mirrors todo b (mark_dirty id (store id i c))
record-Mirrors {todo} {b} id i c s = mark_dirty-Mirrors id todo b _ (store-Mirrors id todo b c i s)

uncount-Mirrors :
    {todo : String → Bool} {b : Bolt} (q : Bool) (c : InodeCache)
    → Mirrors todo b c
    → Mirrors todo b (if q then uncount_folder c else c)
uncount-Mirrors q c s =
    if-Mirrors q (uncount_folder c) c (SameTree-Mirrors (SameTree-uncount_folder c) s) s

module _ (b : Bolt) (c : InodeCache) (s : IsSynced b c) where
  base : Mirrors nothing b c
  base = IsSynced-Mirrors s

  pub insert-IsSynced : (now : ℕ) (i : Inode) → IsSynced b (insert now i c)
  unfolding insert
  insert-IsSynced now i =
      let id = i.item.id in
      let stored = record-Mirrors id i c base in
      Mirrors-IsSynced (
        if-Mirrors (parent_id i == "") _ _ stored
          (attach_seeded-Mirrors b _ nothing stored now (parent_id i) id (is_dir i)))

  delete_found-Mirrors : (id : String) (i : Inode) → Mirrors nothing b (delete_found id i c)
  unfolding delete_found
  delete_found-Mirrors id i =
      let pid = parent_id i in
      elim (Bool-cases (pid == "")) [
        | inl e ↦ rw e (bury-Mirrors id _ (uncount-Mirrors (is_children_fetched i) c base))
        | inr e ↦
            let detached = detach_from-Mirrors b c nothing base pid id (is_dir i) in
            rw e (
              mark_dirty-Mirrors pid nothing b _
                (bury-Mirrors id _ (uncount-Mirrors (is_children_fetched i) _ detached)))
      ]

  pub delete-IsSynced : (id : String) → IsSynced b (delete id c)
  unfolding delete
  delete-IsSynced id =
      Mirrors-IsSynced
        (when_found-Mirrors (find c id) c (λ i. delete_found id i c) base (delete_found-Mirrors id))

  pub insert_child-IsSynced : (pid : String) (i : Inode) → IsSynced b (insert_child pid i c)
  unfolding insert_child
  insert_child-IsSynced pid i =
      let id = i.item.id in
      let c1 = store id (with_parent pid i) c in
      let stored = store-Mirrors id nothing b c (with_parent pid i) base in
      Mirrors-IsSynced (
        mark_dirty-Mirrors id nothing b _ (
          when_found-Mirrors (find c1 pid) c1
            (λ parent. mark_dirty pid (store pid (attach_child parent id (is_dir i) false) c1))
            stored
            (λ parent. record-Mirrors pid (attach_child parent id (is_dir i) false) c1 stored)))

  pub remove_child-IsSynced :
      (pid child_id : String) → (pid == "") ≡ false → IsSynced b (remove_child pid child_id c)
  unfolding remove_child
  remove_child-IsSynced pid child_id named = Mirrors-IsSynced (
      when_found-Mirrors (find c child_id) c (λ i. remove_found pid child_id i c) base
        (λ i.
          let detached = detach_from-Mirrors b c nothing base pid child_id (is_dir i) in
          unfold remove_found in
          rw named (mark_dirty-Mirrors pid nothing b _ (bury-Mirrors child_id _ detached))))

  rename_in-Mirrors :
      (pid old new : String) (d : InodeCache)
      → Mirrors nothing b d
      → Mirrors nothing b (rename_in pid old new d)
  unfolding rename_in
  rename_in-Mirrors pid old new d t =
      when_found-Mirrors (find d pid) d
        (λ parent. mark_dirty pid (store pid (with_renamed old new parent) d)) t
        (λ parent. record-Mirrors pid (with_renamed old new parent) d t)

  move_id_found-Mirrors :
      (old new : String) (i : Inode) → Mirrors nothing b (move_id_found old new i c)
  unfolding move_id_found
  move_id_found-Mirrors old new i =
      let c1 = drop_inode old (store new (with_id new i) c) in
      let moved =
        drop_inode-Mirrors old (also new nothing) b _
          (store-Mirrors new nothing b c (with_id new i) base) in
      let marked : Mirrors (also new nothing) b (if old == new then c1 else mark_deleted old c1) =
        elim (Bool-cases (old == new)) [
          | inl e ↦ rw e (
              subsume-Mirrors (also new nothing)
                (λ id t. let p = (eq_iff old new).0 e in rw p (ground arith)) moved)
          | inr e ↦ rw e (
              mark_deleted-Mirrors old (also new nothing) b _
                (find-drop_inode old (store new (with_id new i) c)) moved)
        ] in
      let done = mark_dirty-Mirrors new nothing b _ marked in
      if-Mirrors (parent_id i == "") _ _ done (rename_in-Mirrors (parent_id i) old new _ done)

  pub move_id-IsSynced : (old new : String) → IsSynced b (move_id old new c)
  unfolding move_id
  move_id-IsSynced old new = Mirrors-IsSynced (
      when_found-Mirrors (find c old) c (λ i. move_id_found old new i c) base
        (move_id_found-Mirrors old new))

  -- All but the old parent's entry is marked.
  move_found-Mirrors :
      (now : ℕ) (old_parent new_parent child_id : String) (i : Inode)
      → Mirrors (also old_parent nothing) b (move_found now old_parent new_parent child_id i c)
  unfolding move_found
  move_found-Mirrors now old_parent new_parent child_id i =
      let detached = detach_from-Mirrors b c nothing base old_parent child_id (is_dir i) in
      mark_dirty-Mirrors child_id (also old_parent nothing) b _ (
        weaken-Mirrors child_id (
          attach_seeded-Mirrors b _ (also old_parent nothing) detached now new_parent child_id
            (is_dir i)))

  pub move_child-Mirrors :
      (now : ℕ) (old_parent new_parent child_id : String)
      → Mirrors (also old_parent nothing) b (move_child now old_parent new_parent child_id c)
  unfolding move_child
  move_child-Mirrors now old_parent new_parent child_id =
      when_found-Mirrors (find c child_id) c
        (λ i. move_found now old_parent new_parent child_id i c) (weaken-Mirrors old_parent base)
        (move_found-Mirrors now old_parent new_parent child_id)

  pub invalidate-IsSynced : (now : ℕ) (pid : String) → IsSynced b (invalidate now pid c)
  unfolding invalidate invalidate_found
  invalidate-IsSynced now pid = Mirrors-IsSynced (
      when_found-Mirrors (find c pid) c (λ parent. invalidate_found now pid parent c) base
        (λ parent.
          record-Mirrors pid (set_children now none parent) _
            (uncount-Mirrors (is_children_fetched parent) c base)))
