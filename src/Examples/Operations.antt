-- ===== src/Examples/Operations.antt =====
-- A mounted tree: internal/fs/fs_ops.go and drive_item_node.go on it.
use onecloudriver.Prelude.{
  ℕ, ◌-◌, String, ◌≡◌, refl, true, false, ◌⊎◌, none, some, List, [], ◌∷◌, ◌==◌, if◌then◌else◌,
}
use onecloudriver.Prelude.Dict
use onecloudriver.Prelude.Dict.{get}
use onecloudriver.Uploads.Session.{UploadSession}
use onecloudriver.Inodes.Inode.{Inode, parent_id}
use onecloudriver.Inodes.Ttl.{effective_ttl}
use onecloudriver.Contents.Operations.{start_content_cache}
use onecloudriver.Inodes.Fetch.{get_children_marking, failed, ListError, fetch_error, econnrefused}
use onecloudriver.Contents.Cache.{content_path, path_of}
use onecloudriver.Contents.Files.{bytes_of}
use onecloudriver.Contents.Bytes.{byte_at, covers}
use onecloudriver.Filesystem.State.{done, Drive, Library, FileSystem, set_contents}
use onecloudriver.Filesystem.Listing.{lookup_child}
use onecloudriver.Filesystem.Directory.{do_unlink, do_rmdir}
use onecloudriver.Filesystem.Node.{write_node, fsync, flush}
use onecloudriver.Filesystem.Saving.{IsQueued, Carries, fsync-IsQueued}
use onecloudriver.Filesystem.WriteBack.{write_node-flush}
use onecloudriver.Filesystem.Removal.{Unlinked, Unmade, do_unlink-Unlinked, do_rmdir-Unmade}
use onecloudriver.Examples.Trees.{saved, docs, note}
use onecloudriver.Examples.Sessions.{idle}
use onecloudriver.Examples.Files.{naming, working, started, working-IsWorking}

-- Connection refused, which Temporary() does not report.
abbrev refused : ListError
refused = fetch_error (record { as_network = some (false, false); chain = econnrefused ∷ [] })

-- A server that agrees to everything.
abbrev drive : Drive (Unit {0})
drive = record {
  list_drive_root = λ w. failed refused;
  list_children = λ id w. failed refused;
  create_folder = λ r name w. (none, w);
  delete_item = λ id w. (true, w);
  rename_item = λ id name w. (true, w);
  move_item = λ id pid w. (true, w);
  get_item_content_stream = λ id w. (([], true), w);
}

abbrev library : Library
library = record {
  equal_fold = λ s t. s == t;
  matches = λ pattern s. false;
  naming = naming;
  hash = λ bytes. "";
}

abbrev mount : FileSystem (Unit {0})
mount = record {
  server = tt;
  manager = record idle { cache = saved };
  has_manager = true;
  queue = [];
  contents = started;
}

abbrev looked : String → FileSystem (Unit {0})
looked name = (lookup_child drive 1 "root" name mount).1

-- The file "a" of the content cache, changed.
abbrev changed : Inode
changed = record note { item = record note.item { id = "a" }; has_changes = true }

do_unlink-Unlinked_example :
    Unlinked library drive working note
      (looked "note")
      (do_unlink library drive working 1 "root" "note" mount)
unfolding lookup_child get_children_marking get effective_ttl Dict.put Dict.remove
    start_content_cache
do_unlink-Unlinked_example =
    do_unlink-Unlinked library drive working 1 "root" "note" mount (looked "note") note refl refl
      refl

do_rmdir-Unmade_example :
    Unmade library drive docs (looked "docs") (do_rmdir library drive 1 "root" "docs" mount)
unfolding lookup_child get_children_marking get effective_ttl Dict.put Dict.remove
do_rmdir-Unmade_example =
    do_rmdir-Unmade library drive 1 "root" "docs" mount (looked "docs") docs refl

fsync-IsQueued_example :
    let f' = (fsync library working "s" changed mount).1 in
    IsQueued naming "a" "root" "note" mount f'
    ⊎ ((bytes_of (get f'.contents.files (path_of naming f'.contents "a")) ≡ [])
        ⊎ (working.stats ≡ false))
unfolding fsync get start_content_cache Dict.put parent_id
fsync-IsQueued_example = fsync-IsQueued library working "s" refl changed mount refl refl refl

write_node-flush_example :
    let w = write_node library working (7 ∷ []) 4 changed mount.contents in
    let r = flush library working "s" w.1 (set_contents w.2 mount) in
    (w.0 ≡ done 1)
    × (r.0.has_changes ≡ false)
    × ((s : UploadSession) × ((content : List ℕ) × (r.1.queue ≡ s ∷ [])
          × Carries "a" "root" "note" content r.1.manager.files s
          × ((k : ℕ)
              → byte_at content k
                ≡ (if covers 4 1 k then byte_at (7 ∷ []) (k - 4) else byte_at (1 ∷ 2 ∷ []) k))))
unfolding get start_content_cache Dict.put parent_id content_path
write_node-flush_example =
    write_node-flush library working working-IsWorking "s" refl 7 [] 4 changed mount refl refl refl
      refl
