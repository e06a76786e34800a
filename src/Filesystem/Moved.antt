-- ===== src/Filesystem/Moved.antt =====
-- The tree after a rename (internal/fs/fs_ops.go: doRename).
use onecloudriver.Prelude.{
  ℕ, String, ◌≡◌, refl, sym, ap, ◌∙◌, true, false, ◌⊎◌, Option, none, some, is_some, ◌==◌, eq_iff,
  arith, Bool-cases, inl, inr,
}
use onecloudriver.Prelude.Dict
use onecloudriver.Prelude.Dict.{get-put}
use onecloudriver.Uploads.Session.{StoredSession, as_json}
use onecloudriver.Uploads.Manager.{
  UploadManager, rename_session, retarget_at, retarget, persist_session,
}
use onecloudriver.Inodes.Inode.{Inode}
use onecloudriver.Inodes.Cache.{InodeCache, Bolt, find, store}
use onecloudriver.Inodes.Bolt.{save_upload_session, transact}
use onecloudriver.Inodes.Tree.{move_child}
use onecloudriver.Inodes.Tree.Joining.{lists, in_list, IsMoved, move_child-IsMoved}
use onecloudriver.Filesystem.State.{change_inode}

-- What a write to an inode leaves of the tree, where it leaves the list of children.
module _ (id : String) (g : Inode → Inode) (c : InodeCache) where
  find-change_inode : (i : Inode) → find c id ≡ some i → find (change_inode id g c) id ≡ some (g i)
  unfolding change_inode
  find-change_inode i h =
      ap (λ o. find (elim o [ none ↦ c | some j ↦ store id (g j) c ]) id) h
      ∙ ground (arith, get-put c.inodes id id (g i), eq_iff id id)

  lists-change_inode :
      ((i : Inode) → (g i).children ≡ i.children)
      → (k x : String) → lists (find (change_inode id g c) k) x ≡ lists (find c k) x
  unfolding change_inode
  lists-change_inode same k x = go (find c id) refl
    where
      go :
          (o : Option Inode)
          → find c id ≡ o
          → lists (find (elim o [ none ↦ c | some j ↦ store id (g j) c ]) k) x ≡ lists (find c k) x
      go none h = refl
      go (some i) h = elim (Bool-cases (id == k)) [
        | inl e ↦
            let f : find c k ≡ some i = ap (find c) (sym ((eq_iff id k).0 e)) ∙ h in
            rw (get-put c.inodes id k (g i), e, f) (ap (λ l. in_list l x) (same i))
        | inr e ↦ rw (get-put c.inodes id k (g i), e) refl
      ]

-- RenameSession touches the database alone.
pub persisted-inodes :
    (id : String) (r : StoredSession) (c : InodeCache)
    → (save_upload_session id r c).inodes ≡ c.inodes
unfolding save_upload_session
persisted-inodes id r c = go c.db
  where
    go :
        (o : Option Bolt)
        → let d : InodeCache = elim o [
          | none ↦ c
          | some b ↦ record c {
            db = some (transact (λ x. record x { uploads = Dict.put x.uploads id r }) b.commits b);
          }
        ] in
          d.inodes ≡ c.inodes
    go none = refl
    go (some b) = refl

pub rename_session-inodes :
    (id p n : String) (m : UploadManager) → (rename_session id p n m).cache.inodes ≡ m.cache.inodes
unfolding rename_session retarget_at persist_session
rename_session-inodes id p n m = go (Dict.get m.sessions id)
  where
    go :
        (o : Option ℕ)
        → let r : UploadManager = elim o [ none ↦ m | some a ↦ retarget_at id a p n m ] in
          r.cache.inodes ≡ m.cache.inodes
    go none = refl
    go (some a) = persisted-inodes id (as_json (retarget p n (m.objects a))) m.cache

-- The tree after a rename: the inode is there and has a new name, the new folder lists it if the cache
-- has that folder, and another old folder does not.
pub record IsRenamed (old new name id : String) (c d : InodeCache) : Type 0 where
  pub inode : (i : Inode) × (find d id ≡ some i) × (i.item.name ≡ name)
  pub joined : lists (find d new) id ≡ is_some (find c new)
  pub left : ((old == new) ≡ true) ⊎ (lists (find d old) id ≡ false)

pub found-again : (o : Option Inode) → is_some o ≡ true → (i : Inode) × (o ≡ some i)
found-again none h = cc
found-again (some i) h = (i, refl)

module _ (now : ℕ) (old new name id : String) (g : Inode → Inode) (c d : InodeCache) (i : Inode)
    (same : d.inodes ≡ c.inodes) (here : find c id ≡ some i)
    (children : (j : Inode) → (g j).children ≡ j.children) where
  unfoldable pub after_move : InodeCache
  after_move = change_inode id g (move_child now old new id d)

  moved : IsMoved old new id d (move_child now old new id d)
  moved = move_child-IsMoved now old new id d i (ap (λ x. Dict.get x id) same ∙ here)

  pub found_after : (j : Inode) × (find after_move id ≡ some (g j))
  unfolding after_move
  found_after =
      let (j, e) =
        found-again (find (move_child now old new id d) id)
          (moved.kept id ∙ ap (λ x. is_some (Dict.get x id)) same ∙ ap is_some here) in
      (j, find-change_inode id g (move_child now old new id d) j e)

  pub after_move-IsRenamed :
      ((j : Inode) → (g j).item.name ≡ name) → IsRenamed old new name id c after_move
  unfolding after_move
  after_move-IsRenamed named =
      let (j, e) = found_after in
      let l = lists-change_inode id g (move_child now old new id d) children in
      record {
        inode = (g j, e, named j);
        joined = l new id ∙ moved.joined ∙ ap (λ x. is_some (Dict.get x new)) same;
        left = elim (Bool-cases (old == new)) [
          | inl q ↦ inl q
          | inr q ↦ inr (l old id ∙ moved.left (ground (arith, q, eq_iff old new, eq_iff new old)))
        ];
      }
