-- ===== src/Filesystem/Saving.antt =====
-- No change is lost on its way to the upload queue (internal/fs/drive_item_node.go: Fsync, Flush;
-- upload_manager.go: QueueUpload; content_cache.go: Snapshot).
use onecloudriver.Prelude.{
  ℕ, String, ◌≡◌, refl, ap, ◌∙◌, true, false, ◌&&◌, ◌||◌, not, ◌⊎◌, Option, none, some, List, [],
  ◌∷◌, ◌++◌, length, ltb, eqb, ◌==◌, eq_iff, arith, Bool-cases, inl, inr, by_test,
}
use onecloudriver.Prelude.Dict
use onecloudriver.Prelude.Dict.{get, get-put}
use onecloudriver.Uploads.Session.{UploadSession, fresh_session, new_upload_session_snapshot}
use onecloudriver.Uploads.Manager.{session_of_snapshot}
use onecloudriver.Inodes.Inode.{Inode, parent_id}
use onecloudriver.Contents.Cache.{Naming, Io, ContentCache, path_of}
use onecloudriver.Contents.Files.{
  Error, not_exist, io_error, open_cached, snapshot, has_content, size, bytes_of,
}
use onecloudriver.Filesystem.State.{Library, FileSystem}
use onecloudriver.Filesystem.Node.{queue_snapshot, queue_upload, fsync}

abbrev pub Snapped : Type 0
Snapped = (String × ℕ × Option Error) × ContentCache

-- What a snapshot gives: an error, no bytes, or a copy of the file under the name drawn for it.
data IsSnapshot (lib : Naming) (temp id : String) : Snapped → Type 0 where
  refused : (e : Error) (c : ContentCache) → IsSnapshot lib temp id (("", 0, some e), c)
  empty : (c : ContentCache) → IsSnapshot lib temp id (("", 0, none), c)
  copied :
      (bytes : List ℕ) (c : ContentCache)
      → bytes ≡ bytes_of (get c.files (path_of lib c id))
      → get c.snapshots temp ≡ some bytes
      → ltb 0 (length bytes) ≡ true
      → IsSnapshot lib temp id ((temp, length bytes, none), c)

snapshot-IsSnapshot :
    (lib : Naming) (io : Io) (temp id : String) (c : ContentCache)
    → IsSnapshot lib temp id (snapshot lib io temp id c)
unfolding snapshot
snapshot-IsSnapshot lib io temp id c =
    let o = open_cached lib io id c in
    let bytes = bytes_of (get o.1.files (path_of lib o.1 id)) in
    let P : Snapped → Type 0 = IsSnapshot lib temp id in
    by_test P (not (has_content lib io id c)) (λ _. refused not_exist c)
      λ _.
        by_test P (not (o.0 && io.seeks && io.reads && io.writes)) (λ _. refused io_error o.1)
          λ _.
            by_test P (ltb 0 (length bytes))
              (λ e.
                copied bytes (record o.1 { snapshots = Dict.put o.1.snapshots temp bytes }) refl
                  (ground (arith, get-put o.1.snapshots temp temp bytes, eq_iff temp temp)) e)
              λ _. empty o.1

-- A session that carries a content, under the names of its file.
pub record Carries (id parent name : String) (content : List ℕ) (files : Dict.Dict (List ℕ))
    (s : UploadSession) : Type 0 where
  pub its_id : s.id ≡ id
  pub its_parent : s.parent_id ≡ parent
  pub its_name : s.name ≡ name
  pub its_size : s.size ≡ length content
  pub its_content : get files s.snapshot_path ≡ some content

-- A session at the end of the queue, with the content that the file has.
abbrev pub IsQueued :
    {W : Type 0} → Naming → String → String → String → FileSystem W → FileSystem W → Type 0
IsQueued lib id parent name f f' =
    (s : UploadSession) × (f'.queue ≡ f.queue ++ s ∷ [])
    × Carries id parent name (bytes_of (get f'.contents.files (path_of lib f'.contents id)))
        f'.manager.files s

pub session_of_copy :
    (temp id parent name : String) (n : ℕ)
    → (temp == "") ≡ false
    → eqb n 0 ≡ false
    → session_of_snapshot id parent name (some (temp, n))
      ≡ some (fresh_session id parent name [] temp n)
unfolding session_of_snapshot new_upload_session_snapshot
session_of_copy temp id parent name n named z =
    rw (session_of_snapshot, z, new_upload_session_snapshot, named) refl

module _ {W : Type 0} (lib : Naming) (temp id parent name : String)
    (named : (temp == "") ≡ false) where
  queue_snapshot-IsQueued :
      (f : FileSystem W) (r : Snapped)
      → IsSnapshot lib temp id r
      → (queue_snapshot id parent name f r).0 ≡ true
      → IsQueued lib id parent name f (queue_snapshot id parent name f r).1
  unfolding queue_snapshot session_of_snapshot new_upload_session_snapshot
  queue_snapshot-IsQueued f _ (refused e c) h = cc
  queue_snapshot-IsQueued f _ (empty c) h = cc
  queue_snapshot-IsQueued f _ (copied bytes c g k l) h =
      let z : eqb (length bytes) 0 ≡ false = ground (arith, l) in
      let s = fresh_session id parent name [] temp (length bytes) in
      let e = session_of_copy temp id parent name (length bytes) named z in
      rw (queue_snapshot, e)
        (
          s,
          refl,
          record {
            its_id = refl;
            its_parent = refl;
            its_name = refl;
            its_size = ap length g;
            its_content = k ∙ ap some g;
          },
        )

no_bytes : (xs : List ℕ) → length xs ≡ 0 → xs ≡ []
no_bytes [] h = refl
no_bytes (x ∷ xs) h = ground (arith, h)

-- A size of 0 is that of an empty file, or stands for an error.
no_size :
    (lib : Naming) (io : Io) (id : String) (c : ContentCache)
    → size lib io id c ≡ 0
    → (bytes_of (get c.files (path_of lib c id)) ≡ []) ⊎ (io.stats ≡ false)
unfolding size
no_size lib io id c h = elim (Bool-cases io.stats) [
  | inl e ↦ inl (no_bytes _ (rw e at h))
  | inr e ↦ inr e
]

module _ {W : Type 0} (lib : Library) (io : Io) (temp : String) (named : (temp == "") ≡ false) where
  queue_upload-IsQueued :
      (id parent name : String) (f : FileSystem W)
      → (queue_upload lib io temp id parent name f).0 ≡ true
      → IsQueued lib.naming id parent name f (queue_upload lib io temp id parent name f).1
  unfolding queue_upload
  queue_upload-IsQueued id parent name f h =
      let shared = record f.contents { snapshots = f.manager.files } in
      queue_snapshot-IsQueued lib.naming temp id parent name named f
        (snapshot lib.naming io temp id shared) (snapshot-IsSnapshot lib.naming io temp id shared) h

  -- Where Fsync of a changed file, under an upload manager, leaves the file unmarked, one of three
  -- holds, whichever system calls fail. A session with its ID, parent, name and the very content that
  -- the cache holds is the last of the queue; or the cached file is empty or missing; or its size
  -- could not be read, and then the file is unmarked with nothing queued whatever it holds.
  pub fsync-IsQueued :
      (node : Inode) (f : FileSystem W)
      → f.has_manager ≡ true
      → node.has_changes ≡ true
      → (fsync lib io temp node f).0.has_changes ≡ false
      → let f' = (fsync lib io temp node f).1 in
        IsQueued lib.naming node.item.id (parent_id node) node.item.name f f'
        ⊎ ((bytes_of (get f'.contents.files (path_of lib.naming f'.contents node.item.id)) ≡ [])
            ⊎ (io.stats ≡ false))
  unfolding fsync
  fsync-IsQueued node f m h =
      let q = queue_upload lib io temp node.item.id (parent_id node) node.item.name f in
      let k = queue_upload-IsQueued node.item.id (parent_id node) node.item.name f in
      let n = size lib.naming io node.item.id q.1.contents in
      let P : Inode × FileSystem W → Type 0 = λ r.
        r.0.has_changes ≡ false
        → IsQueued lib.naming node.item.id (parent_id node) node.item.name f r.1
          ⊎ ((bytes_of (get r.1.contents.files (path_of lib.naming r.1.contents node.item.id)) ≡ [])
              ⊎ (io.stats ≡ false)) in
      by_test P (not node.has_changes) (λ e. ground (arith, e, h))
        λ _.
          by_test P f.has_manager
            (λ _.
              by_test P (q.0 || eqb n 0)
                (λ e _. elim (Bool-cases q.0) [
                  | inl s ↦ inl (k s)
                  | inr s ↦
                      inr (no_size lib.naming io node.item.id q.1.contents (ground (arith, e, s)))
                ])
                λ _ c. cc)
            λ e. cc
