-- ===== src/Filesystem/Removal.antt =====
-- What removing an entry does, on every branch (internal/fs/fs_ops.go: doUnlink, doRmdir; the content
-- cache's Delete in content_cache.go).
use mathlib.Core.Path.{subst}
use onecloudriver.Prelude.{
  ℕ, String, ◌≡◌, refl, sym, ap, ◌∙◌, Bool, true, false, ◌||◌, not, Option, none, eq_iff, is_some,
  arith, Option-cases, inl, inr, if◌then◌else◌, by_test,
}
use onecloudriver.Prelude.Dict
use onecloudriver.Prelude.Dict.{get, get-remove}
use onecloudriver.Inodes.Inode.{Inode, is_local_id, is_dir, has_children}
use onecloudriver.Inodes.Cache.{find, has}
use onecloudriver.Inodes.Tree.{remove_child}
use onecloudriver.Delta.Deletion.{find-remove_child}
use onecloudriver.Contents.Cache.{
  Naming, Io, ContentCache, path_of, content_path, forget_eviction_entry,
}
use onecloudriver.Contents.Files.{
  Error, close_locked, close_fd, delete, delete_file, size, file_or_new,
}
use onecloudriver.Contents.RoundTrip.{SameFiles-track_file_info}
use onecloudriver.Filesystem.State.{
  eio, enotdir, enotempty, Reply, done, errno, Drive, Library, FileSystem, cache, set_cache,
  set_server, set_contents,
}
use onecloudriver.Filesystem.Listing.{lookup_child}
use onecloudriver.Filesystem.Directory.{
  delete_remote, remove_folder, remove_file, do_rmdir, do_unlink,
}

-- The files and the directory are those of before.
record SameDisk (c c' : ContentCache) : Type 0 where
  directory : c'.directory ≡ c.directory
  files : c'.files ≡ c.files

forget_eviction_entry-SameDisk :
    (path : String) (c : ContentCache) → SameDisk c (forget_eviction_entry path c)
unfolding forget_eviction_entry
forget_eviction_entry-SameDisk path c =
    by_test (SameDisk c) (is_some (get c.entries path))
      (λ _. record { directory = refl; files = refl })
      λ _. record { directory = refl; files = refl }

module _ (lib : Naming) (io : Io) where
  close_locked-SameDisk : (id : String) (c : ContentCache) → SameDisk c (close_locked lib io id c).1
  unfolding close_locked
  close_locked-SameDisk id c =
      let path = path_of lib c id in
      let s =
        SameFiles-track_file_info id path (file_or_new io (get c.files path)) (close_fd id c) in
      by_test (λ (r : Bool × ContentCache). SameDisk c r.1) (has c.fds id)
        (λ _.
          by_test (SameDisk c) io.stats (λ _. record { directory = s.directory; files = s.files })
            λ _. record { directory = refl; files = refl })
        λ _. record { directory = refl; files = refl }

  delete_file-files :
      (prev : ℕ) (path : String) (c : ContentCache)
      → io.removes path ≡ true
      → get (delete_file io prev path c).1.files path ≡ none
  unfolding delete_file
  delete_file-files prev path c r = elim (Option-cases (get c.files path)) [
    | inl g ↦
        rw (delete_file, g)
          (by_test (λ (x : Option Error × ContentCache). get x.1.files path ≡ none)
            (is_some (get c.entries path))
            (λ _. ap (λ d. get d path) (forget_eviction_entry-SameDisk path c).files ∙ g) λ _. g)
    | inr (f, g) ↦
        let c' = record c { files = Dict.remove c.files path } in
        rw (delete_file, g, r)
          (ap (λ d. get d path) (forget_eviction_entry-SameDisk path c').files
            ∙ ground (arith, get-remove c.files path path, eq_iff path path))
  ]

  pub delete-files :
      (id : String) (c : ContentCache)
      → c.closed ≡ false
      → io.removes (path_of lib c id) ≡ true
      → get (delete lib io id c).1.files (path_of lib c id) ≡ none
  unfolding delete
  delete-files id c z r =
      let d = (close_locked lib io id c).1 in
      let q : path_of lib d id ≡ path_of lib c id =
        ap (λ x. content_path lib x id) (close_locked-SameDisk id c).directory in
      by_test (λ (x : Option Error × ContentCache). get x.1.files (path_of lib c id) ≡ none)
        c.closed (λ e. cc)
        λ _.
          subst (λ p. get (delete_file io (size lib io id c) (path_of lib d id) d).1.files p ≡ none)
            q (delete_file-files (size lib io id c) (path_of lib d id) d (ap io.removes q ∙ r))

-- All but the server is as before.
pub record SameLocal {W : Type 0} (f f' : FileSystem W) : Type 0 where
  pub manager : f'.manager ≡ f.manager
  pub queue : f'.queue ≡ f.queue
  pub contents : f'.contents ≡ f.contents

module _ {W : Type 0} (lib : Library) (drive : Drive W) where
  -- A removal that was done: the inode is gone, and the server was asked unless the ID is local.
  pub record IsGone (id : String) (f f' : FileSystem W) : Type 0 where
    pub inode : find (cache f') id ≡ none
    pub server :
        f'.server ≡ (if is_local_id id then f.server else (drive.delete_item id f.server).1)
    pub accepted : (is_local_id id || (drive.delete_item id f.server).0) ≡ true
    pub queue : f'.queue ≡ f.queue
    pub sessions : f'.manager.sessions ≡ f.manager.sessions

  -- A removal that the server refused: nothing else changed.
  pub record IsRefused (id : String) (f f' : FileSystem W) : Type 0 where
    pub remote : is_local_id id ≡ false
    pub answer : (drive.delete_item id f.server).0 ≡ false
    pub local : SameLocal f f'

  pub data Unlinked (io : Io) (child : Inode) (f : FileSystem W)
      : Reply (Unit {0}) × FileSystem W → Type 0 where
    unlinked :
        (f' : FileSystem W)
        → IsGone child.item.id f f'
        → get f'.contents.files (path_of lib.naming f.contents child.item.id) ≡ none
        → Unlinked io child f (done tt, f')
    refused :
        (f' : FileSystem W) → IsRefused child.item.id f f' → Unlinked io child f (errno eio, f')

  pub data Unmade (child : Inode) (f : FileSystem W)
      : Reply (Unit {0}) × FileSystem W → Type 0 where
    a_file : is_dir child ≡ false → Unmade child f (errno enotdir, f)
    not_empty :
        is_dir child ≡ true → has_children child ≡ true → Unmade child f (errno enotempty, f)
    refused : (f' : FileSystem W) → IsRefused child.item.id f f' → Unmade child f (errno eio, f')
    unmade :
        (f' : FileSystem W)
        → is_dir child ≡ true
        → has_children child ≡ false
        → IsGone child.item.id f f'
        → f'.contents ≡ f.contents
        → Unmade child f (done tt, f')

  data Asked (id : String) (f : FileSystem W) : Bool × FileSystem W → Type 0 where
    unasked : is_local_id id ≡ true → Asked id f (true, f)
    asked :
        is_local_id id ≡ false
        → Asked id f
            ((drive.delete_item id f.server).0, set_server (drive.delete_item id f.server).1 f)

  delete_remote-Asked : (id : String) (f : FileSystem W) → Asked id f (delete_remote lib drive id f)
  unfolding delete_remote
  delete_remote-Asked id f = by_test (Asked id f) (is_local_id id) (λ e. unasked e) λ e. asked e

  gone :
      (pid id : String) (f : FileSystem W) (r : Bool × FileSystem W)
      → Asked id f r
      → r.0 ≡ true
      → IsGone id f (set_cache (remove_child pid id (cache r.1)) r.1)
  gone pid id f _ (unasked e) h = record {
    inode = find-remove_child pid id (cache f);
    server = ground (arith, e);
    accepted = ground (arith, e);
    queue = refl;
    sessions = refl;
  }
  gone pid id f _ (asked e) h = record {
    inode = find-remove_child pid id (cache f);
    server = ground (arith, e);
    accepted = ground (arith, e, h);
    queue = refl;
    sessions = refl;
  }

  not_gone :
      (id : String) (f : FileSystem W) (r : Bool × FileSystem W)
      → Asked id f r
      → r.0 ≡ false
      → IsRefused id f r.1
  not_gone id f _ (unasked e) h = cc
  not_gone id f _ (asked e) h = record {
    remote = e;
    answer = h;
    local = record { manager = refl; queue = refl; contents = refl };
  }

  same_contents :
      (id : String) (f : FileSystem W) (r : Bool × FileSystem W)
      → Asked id f r
      → r.1.contents ≡ f.contents
  same_contents id f _ (unasked e) = refl
  same_contents id f _ (asked e) = refl

  remove_file-Unlinked :
      (io : Io) (pid : String) (child : Inode) (f : FileSystem W)
      → f.contents.closed ≡ false
      → io.removes (path_of lib.naming f.contents child.item.id) ≡ true
      → Unlinked io child f (remove_file lib drive io pid child f)
  unfolding remove_file
  remove_file-Unlinked io pid child f z m =
      let id = child.item.id in
      let r = delete_remote lib drive id f in
      let a = delete_remote-Asked id f in
      let d =
        set_contents (delete lib.naming io id r.1.contents).1
          (set_cache (remove_child pid id (cache r.1)) r.1) in
      let k : get d.contents.files (path_of lib.naming f.contents id) ≡ none =
        subst
          (λ c. get (delete lib.naming io id c).1.files (path_of lib.naming f.contents id) ≡ none)
          (sym (same_contents id f r a)) (delete-files lib.naming io id f.contents z m) in
      by_test (Unlinked io child f) r.0
        (λ e.
          let g = gone pid id f r a e in
          unlinked d
            (record {
              inode = g.inode;
              server = g.server;
              accepted = g.accepted;
              queue = g.queue;
              sessions = g.sessions;
            })
            k)
        λ e. refused r.1 (not_gone id f r a e)

  remove_folder-Unmade :
      (pid : String) (child : Inode) (f : FileSystem W)
      → Unmade child f (remove_folder lib drive pid child f)
  unfolding remove_folder
  remove_folder-Unmade pid child f =
      let id = child.item.id in
      let r = delete_remote lib drive id f in
      let a = delete_remote-Asked id f in
      let P = Unmade child f in
      by_test P (not (is_dir child)) (λ e. a_file (ground (arith, e)))
        λ n.
          by_test P (has_children child) (λ e. not_empty (ground (arith, n)) e)
            λ e.
              by_test P (not r.0) (λ k. refused r.1 (not_gone id f r a (ground (arith, k))))
                λ k.
                  unmade (set_cache (remove_child pid id (cache r.1)) r.1) (ground (arith, n)) e
                    (gone pid id f r a (ground (arith, k))) (same_contents id f r a)

  -- Unlink of a name that the lookup finds, on an open content cache from which its file can be
  -- removed, ends in one of two ways. The inode and the content are gone, where the ID is local (and
  -- the server was not asked) or the server agreed; or the server refused, and the errno is EIO and
  -- nothing else changed. In both ways the sessions and the queue of the
  -- uploads are as they were, so that an upload of the file is not cancelled.
  pub do_unlink-Unlinked :
      (io : Io) (now : ℕ) (pid name : String) (f f₁ : FileSystem W) (child : Inode)
      → lookup_child drive now pid name f ≡ (done child, f₁)
      → f₁.contents.closed ≡ false
      → io.removes (path_of lib.naming f₁.contents child.item.id) ≡ true
      → Unlinked io child f₁ (do_unlink lib drive io now pid name f)
  unfolding do_unlink
  do_unlink-Unlinked io now pid name f f₁ child e z m =
      let s : do_unlink lib drive io now pid name f ≡ remove_file lib drive io pid child f₁ =
        ap
          (λ (x : Reply Inode × FileSystem W). elim x.0 [
            | errno i ↦ (errno i, x.1)
            | done c ↦ remove_file lib drive io pid c x.1
          ])
          e in
      subst (Unlinked io child f₁) (sym s) (remove_file-Unlinked io pid child f₁ z m)

  -- Rmdir of a name that the lookup finds: a file gives ENOTDIR and a folder with children ENOTEMPTY,
  -- with no request and no change; where the server refuses, the errno is EIO and nothing else
  -- changed; and else the empty folder is gone from the cache, and the contents and the uploads are
  -- as they were.
  pub do_rmdir-Unmade :
      (now : ℕ) (pid name : String) (f f₁ : FileSystem W) (child : Inode)
      → lookup_child drive now pid name f ≡ (done child, f₁)
      → Unmade child f₁ (do_rmdir lib drive now pid name f)
  unfolding do_rmdir
  do_rmdir-Unmade now pid name f f₁ child e =
      let s : do_rmdir lib drive now pid name f ≡ remove_folder lib drive pid child f₁ =
        ap
          (λ (x : Reply Inode × FileSystem W). elim x.0 [
            | errno i ↦ (errno i, x.1)
            | done c ↦ remove_folder lib drive pid c x.1
          ])
          e in
      subst (Unmade child f₁) (sym s) (remove_folder-Unmade pid child f₁)
