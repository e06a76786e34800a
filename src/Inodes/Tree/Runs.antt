-- ===== src/Inodes/Tree/Runs.antt =====
-- Runs of the operations on the tree and of SerializeDirty (internal/fs/cache.go), in any order.
use onecloudriver.Prelude.{ℕ, String, ◌≡◌, Bool, true, false, some, List, [], ◌∷◌, ◌==◌}
use onecloudriver.Prelude.Dict
use onecloudriver.Inodes.Inode.{Inode}
use onecloudriver.Inodes.Cache.{InodeCache, Bolt, find}
use onecloudriver.Inodes.Tree.{insert, delete, insert_child, remove_child, move_id, invalidate}
use onecloudriver.Inodes.Tree.Marking.{
  insert-IsSynced, delete-IsSynced, insert_child-IsSynced, remove_child-IsSynced, move_id-IsSynced,
  invalidate-IsSynced,
}
use onecloudriver.Inodes.Bolt.{serialize_dirty}
use onecloudriver.Inodes.Bolt.Sync.{Agrees}
use onecloudriver.Inodes.Bolt.Convergence.{
  IsSynced, always, serialize_dirty-IsSynced, serialize_dirty_converges,
}

-- One call on the cache, at a time where it needs one. A pass of SerializeDirty comes with the
-- transactions that commit.
pub data Change : Type 0 where
  inserting : ℕ → Inode → Change
  deleting : String → Change
  inserting_child : String → Inode → Change
  removing_child : (pid child_id : String) → (pid == "") ≡ false → Change
  moving_id : String → String → Change
  invalidating : ℕ → String → Change
  serializing : (List String → Bool) → (List String → Bool) → Change

unfoldable pub apply : Change → InodeCache → InodeCache
apply (inserting now i) c = insert now i c
apply (deleting id) c = delete id c
apply (inserting_child pid i) c = insert_child pid i c
apply (removing_child pid child_id _) c = remove_child pid child_id c
apply (moving_id old new) c = move_id old new c
apply (invalidating now pid) c = invalidate now pid c
apply (serializing commits buries) c = (serialize_dirty commits buries c).1

unfoldable pub run : List Change → InodeCache → InodeCache
unfolding apply
run [] c = c
run (x ∷ xs) c = run xs (apply x c)

apply-IsSynced :
    (x : Change) (b : Bolt) (c : InodeCache) → IsSynced b c → (b' : Bolt) × IsSynced b' (apply x c)
unfolding apply
apply-IsSynced (inserting now i) b c s = (b, insert-IsSynced b c s now i)
apply-IsSynced (deleting id) b c s = (b, delete-IsSynced b c s id)
apply-IsSynced (inserting_child pid i) b c s = (b, insert_child-IsSynced b c s pid i)
apply-IsSynced (removing_child pid child_id named) b c s =
    (b, remove_child-IsSynced b c s pid child_id named)
apply-IsSynced (moving_id old new) b c s = (b, move_id-IsSynced b c s old new)
apply-IsSynced (invalidating now pid) b c s = (b, invalidate-IsSynced b c s now pid)
apply-IsSynced (serializing commits buries) b c s = serialize_dirty-IsSynced commits buries b c s

pub run-IsSynced :
    (xs : List Change) (b : Bolt) (c : InodeCache)
    → IsSynced b c
    → (b' : Bolt) × IsSynced b' (run xs c)
unfolding run
run-IsSynced [] b c s = (b, s)
run-IsSynced (x ∷ xs) b c s =
    let (b', s') = apply-IsSynced x b c s in run-IsSynced xs b' (apply x c) s'

-- From a cache whose open database mirrors memory except at marked IDs, run any inserts,
-- deletions, insertions and removals of children (from a parent that has an ID), ID changes and
-- invalidations, mixed with SerializeDirty passes of which any transactions fail. A last pass
-- whose transactions all commit then succeeds, leaves nothing marked, and leaves a database that
-- agrees with memory at every ID: no entry for an ID that memory lacks, and for an inode of the
-- browsed tree its tree part (its item, children, subdirectory count, mode and change flag).
pub run_converges :
    (xs : List Change) (b : Bolt) (c : InodeCache)
    → IsSynced b c
    → let r = serialize_dirty always always (run xs c) in
      (b' : Bolt) × (r.0 ≡ true)
      × (r.1.db ≡ some b')
      × ((id : String) → Agrees (find (run xs c) id) (Dict.get b'.metadata id))
      × (r.1.dirty ≡ [])
      × (r.1.deleted ≡ [])
run_converges xs b c s =
    let (b', s') = run-IsSynced xs b c s in serialize_dirty_converges b' (run xs c) s'
