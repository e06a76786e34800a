-- ===== src/Inodes/Bolt/Mirror.antt =====
-- How the primitive changes of the cache (internal/fs/cache.go: map stores and deletes, marks)
-- keep the database in step with memory. `todo` names the IDs whose mark is still missing.
use onecloudriver.Prelude.{
  String, ◌≡◌, refl, Bool, true, false, ◌||◌, none, some, arith, ◌==◌, eq_iff, Bool-cases, or_false,
  inl, inr,
}
use onecloudriver.Prelude.Dict
use onecloudriver.Prelude.Dict.{Dict, get-remove, get-put}
use onecloudriver.Inodes.Inode.{Inode}
use onecloudriver.Inodes.Cache.{
  InodeCache, Bolt, find, store, drop_inode, has, mark_dirty, mark_deleted,
}
use onecloudriver.Inodes.Bolt.Sync.{Agrees, marks-mark_dirty, marks-mark_deleted}
use onecloudriver.Inodes.Bolt.Convergence.{IsSynced}

pub record Mirrors (todo : String → Bool) (b : Bolt) (c : InodeCache) : Type 0 where
  pub opened : c.db ≡ some b
  pub unmarked :
      (id : String)
      → todo id ≡ false
      → has c.dirty id ≡ false
      → has c.deleted id ≡ false
      → Agrees (find c id) (Dict.get b.metadata id)
  pub absent : (id : String) → todo id ≡ false → has c.deleted id ≡ true → find c id ≡ none

abbrev pub nothing : String → Bool
nothing _ = false

abbrev pub also : String → (String → Bool) → String → Bool
also j todo id = j == id || todo id

pub IsSynced-Mirrors : {b : Bolt} {c : InodeCache} → IsSynced b c → Mirrors nothing b c
IsSynced-Mirrors s = record {
  opened = s.opened;
  unmarked = λ id _. s.unmarked id;
  absent = λ id _. s.absent id;
}

pub Mirrors-IsSynced : {b : Bolt} {c : InodeCache} → Mirrors nothing b c → IsSynced b c
Mirrors-IsSynced s = record {
  opened = s.opened;
  unmarked = λ id. s.unmarked id refl;
  absent = λ id. s.absent id refl;
}

module _ (j : String) (todo : String → Bool) (b : Bolt) (c : InodeCache) where
  pub store-Mirrors : (i : Inode) → Mirrors todo b c → Mirrors (also j todo) b (store j i c)
  store-Mirrors i s = record {
    opened = s.opened;
    unmarked = λ id t d x.
        let o = or_false (j == id) (todo id) t in
        rw (get-put c.inodes j id i, o.0) (s.unmarked id o.1 d x);
    absent = λ id t x.
        let o = or_false (j == id) (todo id) t in
        rw (get-put c.inodes j id i, o.0) (s.absent id o.1 x);
  }

  pub drop_inode-Mirrors : Mirrors todo b c → Mirrors (also j todo) b (drop_inode j c)
  drop_inode-Mirrors s = record {
    opened = s.opened;
    unmarked = λ id t d x.
        let o = or_false (j == id) (todo id) t in
        rw (get-remove c.inodes j id, o.0) (s.unmarked id o.1 d x);
    absent = λ id t x.
        let o = or_false (j == id) (todo id) t in
        rw (get-remove c.inodes j id, o.0) (s.absent id o.1 x);
  }

  pub mark_dirty-Mirrors : Mirrors (also j todo) b c → Mirrors todo b (mark_dirty j c)
  unfolding mark_dirty
  mark_dirty-Mirrors s = record {
    opened = s.opened;
    unmarked = λ id t d x.
        let k = marks-mark_dirty j c id in
        s.unmarked id (ground arith) (ground arith) (ground arith);
    absent = λ id t x. let k = marks-mark_dirty j c id in s.absent id (ground arith) (ground arith);
  }

  pub mark_deleted-Mirrors :
      find c j ≡ none → Mirrors (also j todo) b c → Mirrors todo b (mark_deleted j c)
  unfolding mark_deleted
  mark_deleted-Mirrors gone s = record {
    opened = s.opened;
    unmarked = λ id t d x.
        let k = marks-mark_deleted j c id in
        s.unmarked id (ground arith) (ground arith) (ground arith);
    absent = λ id t x. elim (Bool-cases (j == id)) [
      | inl e ↦ rw (← (eq_iff j id).0 e) gone
      | inr e ↦ let k = marks-mark_deleted j c id in s.absent id (ground arith) (ground arith)
    ];
  }
