-- ===== src/Filesystem/Node.antt =====
-- The operations of internal/fs/drive_item_node.go on a file: Open, Read, Write, Flush, Fsync and
-- Setattr. A node holds a pointer to its inode, which is passed and returned.
use onecloudriver.Prelude.{
  ℕ, ◌+◌, ◌-◌, ◌%◌, ◌^◌, String, Bool, true, false, ◌&&◌, ◌||◌, not, Option, none, some, List, [],
  ◌∷◌, ◌++◌, length, ltb, eqb, ◌==◌, if◌then◌else◌, take, drop,
}
use onecloudriver.Prelude.Int.{ℤ}
use onecloudriver.Prelude.Dict
use onecloudriver.Uploads.Manager.{session_of_snapshot}
use onecloudriver.Inodes.Inode.{Inode, is_local_id, is_dir, parent_id}
use onecloudriver.Contents.Cache.{Naming, Io, ContentCache, path_of, content_path}
use onecloudriver.Contents.Files.{
  Error, open_cached, delete, insert_stream, write_at, close, size, snapshot, sum_quick_xor_hash,
  take_padded, set_file, bytes_of,
}
use onecloudriver.Filesystem.State.{
  eio, eisdir, einval, Reply, done, errno, Drive, Library, FileSystem, set_server, set_contents,
}

abbrev pub max_int64 : ℕ
max_int64 = 2 ^ 63 - 1

abbrev pub max_uint32 : ℕ
max_uint32 = 2 ^ 32 - 1

abbrev pub set_size : ℕ → Inode → Inode
set_size n i = record i { item = record i.item { size = n }; has_changes = true }

abbrev pub clean : Inode → Inode
clean i = record i { has_changes = false }

-- `fd.Truncate` on the file of an ID: cut off, or filled with zeros.
unfoldable pub truncate : Naming → Io → String → ℕ → ContentCache → ContentCache
unfolding take_padded
truncate lib io id n c =
    let path = path_of lib c id in
    set_file path (take_padded n (bytes_of (Dict.get c.files path))) io c

-- The hash that the server gave, "" for none.
abbrev pub expected_hash : Inode → String
expected_hash i = elim i.item.file [ none ↦ "" | some f ↦ f.quick_xor_hash ]

-- What Write does with what WriteAt returned.
unfoldable pub finish_write :
    ℕ → Inode → (ℕ × Option Error) × ContentCache → Reply ℕ × Inode × ContentCache
finish_write off node ((n, some e), c) = (errno eio, node, c)
finish_write off node ((n, none), c) =
    let end = off + n in
    let grown = set_size (if ltb node.item.size end then end else node.item.size) node in
    if ltb max_int64 end
    then (errno einval, node, c)
    else if ltb max_uint32 n
    then (errno eio, grown, c)
    else (done n, grown, c)

-- What QueueUpload does with what Snapshot returned.
unfoldable pub queue_snapshot :
    {W : Type 0}
    → String
    → String
    → String
    → FileSystem W
    → (String × ℕ × Option Error) × ContentCache
    → Bool × FileSystem W
unfolding session_of_snapshot
queue_snapshot id parent name f ((path, n, e), c) =
    let f' = record f { contents = c; manager = record f.manager { files = c.snapshots } } in
    let snapped : Option (String × ℕ) = elim e [ none ↦ some (path, n) | some _ ↦ none ] in
    elim (session_of_snapshot id parent name snapped) [
      | none ↦ (false, f')
      | some s ↦ (true, record f' { queue = f.queue ++ s ∷ [] })
    ]

module _ (lib : Library) where
  unfoldable pub has_content_on_disk : Io → String → ContentCache → Bool
  unfolding size
  has_content_on_disk io id c = ltb 0 (size lib.naming io id c)

  unfoldable pub verify_cached_content : Io → String → Inode → ContentCache → Bool × ContentCache
  unfolding sum_quick_xor_hash
  verify_cached_content io id node c =
      let (sum, c') = sum_quick_xor_hash lib.naming lib.hash io id c in
      let same : Bool = elim sum [
        | none ↦ false
        | some s ↦ lib.equal_fold s (expected_hash node)
      ] in
      if expected_hash node == "" then (true, c) else (same, c')

  -- Read: at most `n` bytes from an offset.
  unfoldable pub read_node : Io → ℕ → ℕ → Inode → ContentCache → Reply (List ℕ) × ContentCache
  unfolding open_cached take drop content_path
  read_node io n off node c =
      let id = node.item.id in
      let (opened, c') = open_cached lib.naming io id c in
      let bytes = bytes_of (Dict.get c'.files (path_of lib.naming c' id)) in
      if opened then (done (take n (drop off bytes)), c') else (errno eio, c')

  -- Write
  unfoldable pub write_node :
      Io → List ℕ → ℕ → Inode → ContentCache → Reply ℕ × Inode × ContentCache
  unfolding write_at finish_write
  write_node io bytes off node c =
      finish_write off node (write_at lib.naming io node.item.id bytes off c)

  -- Setattr's chmod, with S_IFDIR and S_IFREG.
  unfoldable pub set_mode : Option ℕ → Inode → Inode
  set_mode none node = node
  set_mode (some m) node =
      let kind = if is_dir node then 0o40000 else 0o100000 in
      record node { mode = kind + m % 0o10000 }

  abbrev pub set_mod_time : Option ℤ → Inode → Inode
  set_mod_time none node = node
  set_mod_time (some t) node = record node { item = record node.item { mod_time = some t } }

  unfoldable pub truncate_node :
      Io → Option ℕ → Inode → ContentCache → Reply (Unit {0}) × Inode × ContentCache
  unfolding open_cached truncate
  truncate_node io none node c = (done tt, node, c)
  truncate_node io (some n) node c =
      let id = node.item.id in
      let (opened, c') = open_cached lib.naming io id c in
      if not opened
      then (errno eio, node, c')
      else if ltb max_int64 n
      then (errno einval, node, c')
      else if not io.truncates
      then (errno eio, node, c')
      else (done tt, set_size n node, truncate lib.naming io id n c')

  unfoldable pub setattr :
      Io
      → Option ℕ
      → Option ℤ
      → Option ℕ
      → Inode
      → ContentCache
      → Reply (Unit {0}) × Inode × ContentCache
  unfolding set_mode truncate_node
  setattr io mode mtime n node c = truncate_node io n (set_mod_time mtime (set_mode mode node)) c

  module _ {W : Type 0} where
    -- QueueUpload: a snapshot, whose name os.CreateTemp chooses, becomes a session of the queue.
    unfoldable pub queue_upload :
        Io → String → String → String → String → FileSystem W → Bool × FileSystem W
    unfolding snapshot queue_snapshot
    queue_upload io temp id parent name f =
        let shared = record f.contents { snapshots = f.manager.files } in
        queue_snapshot id parent name f (snapshot lib.naming io temp id shared)

    unfoldable pub fsync : Io → String → Inode → FileSystem W → Inode × FileSystem W
    unfolding queue_upload size parent_id
    fsync io temp node f =
        let id = node.item.id in
        let (queued, f') = queue_upload io temp id (parent_id node) node.item.name f in
        let uploaded : Inode × FileSystem W =
          if queued || eqb (size lib.naming io id f'.contents) 0
          then (clean node, f')
          else (node, f') in
        if not node.has_changes
        then (node, f)
        else if f.has_manager
        then uploaded
        else (clean node, f)

    unfoldable pub flush : Io → String → Inode → FileSystem W → Inode × FileSystem W
    unfolding fsync close
    flush io temp node f =
        let (node', f') = fsync io temp node f in
        (node', set_contents (close lib.naming io node.item.id f'.contents) f')

    module _ (drive : Drive W) where
      -- The two halves of the pipe: the transfer, and the content cache. Either may fail; a transfer
      -- that fails fails the copy too.
      unfoldable pub download_content : Io → String → FileSystem W → Bool × FileSystem W
      unfolding insert_stream
      download_content io id f =
          let ((bytes, ok), w) = drive.get_item_content_stream id f.server in
          let broken = record io {
            writes = false;
            written = if io.writes then length bytes else io.written;
          } in
          let ((_, e), c) =
            insert_stream lib.naming (if ok then io else broken) id bytes f.contents in
          (ok && elim e [ none ↦ true | some _ ↦ false ], set_contents c (set_server w f))

      -- Open, by the flags: is it read only, and does it truncate? The errno, if any.
      abbrev downloaded : Bool × FileSystem W → Reply (Unit {0}) × FileSystem W
      downloaded (ok, f) = (if ok then done tt else errno eio, f)

      unfoldable pub open_to_read : Io → Inode → FileSystem W → Reply (Unit {0}) × FileSystem W
      unfolding is_local_id has_content_on_disk verify_cached_content delete download_content
      open_to_read io node f =
          let id = node.item.id in
          let (valid, c) = verify_cached_content io id node f.contents in
          let dropped = set_contents (delete lib.naming io id c).1 f in
          if is_local_id id
          then (done tt, f)
          else if not (has_content_on_disk io id f.contents)
          then downloaded (download_content io id f)
          else if valid
          then (done tt, set_contents c f)
          else downloaded (download_content io id dropped)

      -- After a failed download the source closes the descriptor and leaves it in the map of the
      -- content cache; the model has no closed descriptors, and keeps it.
      unfoldable pub open_to_write :
          Io → Bool → Inode → FileSystem W → (Reply (Unit {0}) × Inode) × FileSystem W
      unfolding is_local_id has_content_on_disk download_content truncate
      open_to_write io truncates node f =
          let id = node.item.id in
          let needs = not (is_local_id id) && not (has_content_on_disk io id f.contents) in
          let (ok, f1) = if needs then download_content io id f else (true, f) in
          if not ok
          then ((errno eio, node), f1)
          else if not truncates
          then ((done tt, node), f1)
          else if not io.truncates
          then ((errno eio, node), f1)
          else (
            (done tt, set_size 0 node),
            set_contents (truncate lib.naming io id 0 f1.contents) f1,
          )

      unfoldable pub open_node :
          Io → Bool → Bool → Inode → FileSystem W → (Reply (Unit {0}) × Inode) × FileSystem W
      unfolding open_cached open_to_read open_to_write
      open_node io read_only truncates node f =
          let (opened, c) = open_cached lib.naming io node.item.id f.contents in
          let f' = set_contents c f in
          let (r, f'') = open_to_read io node f' in
          if is_dir node
          then ((errno eisdir, node), f)
          else if not opened
          then ((errno eio, node), f')
          else if read_only
          then ((r, node), f'')
          else open_to_write io truncates node f'
