-- ===== src/Filesystem/Directory.antt =====
-- The operations of internal/fs/fs_ops.go on folders: doMkdir, doRmdir, doUnlink, doRename, doCreate,
-- and the guards of the nodes (drive_item_node.go) around them.
use onecloudriver.Prelude.{
  ℕ, String, Bool, true, ◌||◌, not, Option, none, some, ◌==◌, if◌then◌else◌,
}
use onecloudriver.Prelude.Dict
use onecloudriver.Graph.Models.{parent_with_id}
use onecloudriver.Uploads.Remote.{item_path, item_id}
use onecloudriver.Uploads.Manager.{rename_session}
use onecloudriver.Inodes.Inode.{
  Inode, is_local_id, is_dir, has_children, new_inode_drive_item, new_inode_local,
}
use onecloudriver.Inodes.Fetch.{listed, failed}
use onecloudriver.Inodes.Tree.{insert_child, remove_child, move_child}
use onecloudriver.Contents.Cache.{Io}
use onecloudriver.Contents.Files.{open_cached, delete}
use onecloudriver.Filesystem.State.{
  eio, enotdir, enotempty, einval, Reply, done, errno, Drive, Library, FileSystem, cache, set_cache,
  set_server, set_contents, change_inode,
}
use onecloudriver.Filesystem.Listing.{list_folder, lookup_child}

abbrev pub disallowed_rexp : String
disallowed_rexp = "(?i)LPT[0-9]|COM[0-9]|_vti_|[\"*:<>?\\/\\\\|]"

unfoldable pub is_name_restricted : Library → String → Bool
is_name_restricted lib name =
    lib.equal_fold name "CON"
    || lib.equal_fold name "AUX"
    || lib.equal_fold name "PRN"
    || lib.equal_fold name "NUL"
    || lib.equal_fold name ".lock"
    || lib.equal_fold name "desktop.ini"
    || lib.matches disallowed_rexp name

abbrev pub rename_to : String → Inode → Inode
rename_to name i = record i { item = record i.item { name = name } }

abbrev pub reparent_to : String → Inode → Inode
reparent_to pid i = record i { item = record i.item { parent = some (parent_with_id pid) } }

abbrev pub truncate_inode : Inode → Inode
truncate_inode i = record i { item = record i.item { size = 0 }; has_changes = true }

module _ {W : Type 0} (lib : Library) (drive : Drive W) where
  unfoldable pub do_mkdir : String → String → FileSystem W → Reply String × FileSystem W
  unfolding is_name_restricted insert_child new_inode_drive_item
  do_mkdir pid name f =
      let resource = if pid == "root" then item_path "/" else item_id pid in
      let (r, w) = drive.create_folder resource name f.server in
      let f' = set_server w f in
      if is_name_restricted lib name then (errno einval, f) else elim r [
        | none ↦ (errno eio, f')
        | some item ↦
            (done item.id, set_cache (insert_child pid (new_inode_drive_item item) (cache f')) f')
      ]

  -- Is the item gone? No request is made for a local ID.
  unfoldable pub delete_remote : String → FileSystem W → Bool × FileSystem W
  unfolding is_local_id
  delete_remote id f =
      let (ok, w) = drive.delete_item id f.server in
      if is_local_id id then (true, f) else (ok, set_server w f)

  -- doRmdir, from the child that was found.
  unfoldable pub remove_folder : String → Inode → FileSystem W → Reply (Unit {0}) × FileSystem W
  unfolding has_children delete_remote remove_child
  remove_folder pid child f =
      let (ok, f') = delete_remote child.item.id f in
      if not (is_dir child)
      then (errno enotdir, f)
      else if has_children child
      then (errno enotempty, f)
      else if not ok
      then (errno eio, f')
      else (done tt, set_cache (remove_child pid child.item.id (cache f')) f')

  unfoldable pub do_rmdir : ℕ → String → String → FileSystem W → Reply (Unit {0}) × FileSystem W
  unfolding lookup_child remove_folder
  do_rmdir now pid name f =
      let (r, f') = lookup_child drive now pid name f in
      elim r [ errno e ↦ (errno e, f') | done child ↦ remove_folder pid child f' ]

  -- doUnlink, from the child that was found; an error of the content cache is logged.
  unfoldable pub remove_file : Io → String → Inode → FileSystem W → Reply (Unit {0}) × FileSystem W
  unfolding delete_remote remove_child delete
  remove_file io pid child f =
      let id = child.item.id in
      let (ok, f1) = delete_remote id f in
      let f2 = set_cache (remove_child pid id (cache f1)) f1 in
      if ok
      then (done tt, set_contents (delete lib.naming io id f2.contents).1 f2)
      else (errno eio, f1)

  unfoldable pub do_unlink :
      Io → ℕ → String → String → FileSystem W → Reply (Unit {0}) × FileSystem W
  unfolding lookup_child remove_file
  do_unlink io now pid name f =
      let (r, f') = lookup_child drive now pid name f in
      elim r [ errno e ↦ (errno e, f') | done child ↦ remove_file io pid child f' ]

  -- A local item is renamed in its session and in the cache.
  unfoldable pub rename_local : ℕ → String → String → String → String → FileSystem W → FileSystem W
  unfolding rename_session move_child change_inode
  rename_local now pid new_pid new_name id f =
      let f1 =
        if f.has_manager
        then record f { manager = rename_session id new_pid new_name f.manager }
        else f in
      let moved = move_child now pid new_pid id (cache f1) in
      set_cache (change_inode id (λ i. reparent_to new_pid (rename_to new_name i)) moved) f1

  -- A remote item is renamed on the server, then moved if the folder changes, then in the cache.
  unfoldable pub rename_remote :
      ℕ → String → String → String → String → FileSystem W → Reply (Unit {0}) × FileSystem W
  unfolding move_child change_inode
  rename_remote now pid new_pid new_name id f =
      let (renamed, w1) = drive.rename_item id new_name f.server in
      let (moved, w2) = drive.move_item id new_pid w1 in
      let in_cache : FileSystem W → FileSystem W = λ g.
        set_cache (change_inode id (rename_to new_name) (move_child now pid new_pid id (cache g)))
          g in
      if not renamed
      then (errno eio, set_server w1 f)
      else if pid == new_pid
      then (done tt, in_cache (set_server w1 f))
      else if not moved
      then (errno eio, set_server w2 f)
      else (done tt, in_cache (set_server w2 f))

  unfoldable pub rename_found :
      ℕ → String → String → String → String → FileSystem W → Reply (Unit {0}) × FileSystem W
  unfolding rename_local rename_remote is_local_id
  rename_found now pid new_pid new_name id f =
      if is_local_id id
      then (done tt, rename_local now pid new_pid new_name id f)
      else rename_remote now pid new_pid new_name id f

  unfoldable pub do_rename :
      ℕ → String → String → String → String → FileSystem W → Reply (Unit {0}) × FileSystem W
  unfolding is_name_restricted lookup_child rename_found
  do_rename now pid name new_pid new_name f =
      let (r, f') = lookup_child drive now pid name f in
      let found : Reply (Unit {0}) × FileSystem W = elim r [
        | errno e ↦ (errno e, f')
        | done child ↦ rename_found now pid new_pid new_name child.item.id f'
      ] in
      if is_name_restricted lib new_name then (errno einval, f) else found

  -- fuseRename: the new parent is a node of this program, or the rename is refused.
  unfoldable pub fuse_rename :
      ℕ → String → String → Option String → String → FileSystem W → Reply (Unit {0}) × FileSystem W
  unfolding do_rename
  fuse_rename now pid name none new_name f = (errno einval, f)
  fuse_rename now pid name (some new_pid) new_name f =
      if new_pid == "" then (errno einval, f) else do_rename now pid name new_pid new_name f

  -- doCreate over a file of that name: it becomes empty and changed.
  unfoldable pub create_over : Io → Inode → FileSystem W → Reply String × FileSystem W
  unfolding delete open_cached change_inode
  create_over io existing f =
      let id = existing.item.id in
      let (opened, contents) =
        open_cached lib.naming io id (delete lib.naming io id f.contents).1 in
      let f' = set_contents contents f in
      if opened
      then (done id, set_cache (change_inode id truncate_inode (cache f')) f')
      else (errno eio, f')

  -- doCreate of a new file; `fresh` is the ID that newLocalID draws.
  unfoldable pub create_new :
      Io → String → String → String → ℕ → FileSystem W → Reply String × FileSystem W
  unfolding new_inode_local insert_child open_cached
  create_new io fresh pid name mode f =
      let f1 = set_cache (insert_child pid (new_inode_local fresh name mode none) (cache f)) f in
      let (opened, contents) = open_cached lib.naming io fresh f1.contents in
      let f2 = set_contents contents f1 in if opened then (done fresh, f2) else (errno eio, f2)

  unfoldable pub do_create :
      Io → ℕ → String → String → String → ℕ → FileSystem W → Reply String × FileSystem W
  unfolding is_name_restricted list_folder create_over create_new
  do_create io now fresh pid name mode f =
      let (r, f') = list_folder drive now pid f in
      let found : Reply String × FileSystem W = elim r [
        | failed e ↦ (errno eio, f')
        | listed m ↦ elim (Dict.get m name) [
          | some existing ↦ create_over io existing f'
          | none ↦ create_new io fresh pid name mode f'
        ]
      ] in
      if is_name_restricted lib name then (errno einval, f) else found

-- A node that is no folder refuses every operation on its entries.
abbrev pub in_folder {ℓ} :
    {W : Type 0} {A : Type ℓ}
    → Inode
    → Reply A × FileSystem W
    → FileSystem W
    → Reply A × FileSystem W
in_folder node r f = if is_dir node then r else (errno enotdir, f)
