-- ===== src/Filesystem/WriteBack.antt =====
-- A write and the close that follows it (internal/fs/drive_item_node.go: Write, Flush), where every
-- call succeeds: the content that was written is in the upload queue.
use mathlib.Core.Path.{subst}
use onecloudriver.Prelude.{
  ℕ, ◌+◌, ◌-◌, String, ◌≡◌, refl, sym, ap, ◌∙◌, true, false, ◌&&◌, ◌||◌, not, Option, none, some,
  List, [], ◌∷◌, ◌++◌, length, ltb, eqb, is_some, ◌==◌, arith, if◌then◌else◌, by_test,
}
use onecloudriver.Prelude.Dict.{get}
use onecloudriver.Uploads.Session.{UploadSession, fresh_session}
use onecloudriver.Inodes.Inode.{Inode, parent_id}
use onecloudriver.Contents.Cache.{Io, DiskFile, ContentCache, path_of, content_path}
use onecloudriver.Contents.Files.{
  open_cached, snapshot, has_content, size, bytes_of, splice, write_at,
}
use onecloudriver.Contents.RoundTrip.{IsWorking, open_cached-IsOpened, get-put_same}
use onecloudriver.Contents.ReadBack.{IsWritten, write_at-IsWritten}
use onecloudriver.Contents.Bytes.{byte_at, covers, byte_at-splice, length-splice_all}
use onecloudriver.Filesystem.State.{Reply, done, Library, FileSystem, set_contents}
use onecloudriver.Filesystem.Node.{
  queue_snapshot, queue_upload, fsync, flush, clean, finish_write, write_node, max_int64,
  max_uint32,
}
use onecloudriver.Filesystem.Saving.{Snapped, Carries, session_of_copy}

some_bytes : (o : Option DiskFile) → ltb 0 (length (bytes_of o)) ≡ true → is_some o ≡ true
some_bytes none h = cc
some_bytes (some f) h = refl

module _ (lib : Library) (io : Io) (ok : IsWorking io) (temp : String)
    (named : (temp == "") ≡ false) where
  -- The snapshot of a file with bytes.
  snapshot_lem :
      (id : String) (c : ContentCache)
      → let content = bytes_of (get c.files (path_of lib.naming c id)) in
        ltb 0 (length content) ≡ true
        → let r = snapshot lib.naming io temp id c in
          (r.0 ≡ (temp, length content, none)) × (get r.1.snapshots temp ≡ some content)
  unfolding snapshot has_content
  snapshot_lem id c h =
      let path = path_of lib.naming c id in
      let content = bytes_of (get c.files path) in
      let o = open_cached lib.naming io id c in
      let (s, i) = open_cached-IsOpened lib.naming io ok id c in
      let same : bytes_of (get o.1.files (path_of lib.naming o.1 id)) ≡ content =
        ap (λ x. bytes_of (get o.1.files (content_path lib.naming x id))) i.directory ∙ i.bytes in
      let there = some_bytes (get c.files path) h in
      let reads = ok.reads in
      let seeks = ok.seeks in
      let writes = ok.writes in
      let stats = ok.stats in
      let P : Snapped → Type 0 =
        λ r. (r.0 ≡ (temp, length content, none)) × (get r.1.snapshots temp ≡ some content) in
      by_test P (not (has_content lib.naming io id c)) (λ e. ground (arith, e, stats, there))
        λ _.
          by_test P (not (o.0 && io.seeks && io.reads && io.writes))
            (λ e. ground (arith, e, s, seeks, reads, writes))
            λ _.
              by_test P (ltb 0 (length (bytes_of (get o.1.files (path_of lib.naming o.1 id)))))
                (λ _. (
                  ap (λ b. (temp, length b, none)) same,
                  get-put_same o.1.snapshots temp _ ∙ ap some same,
                ))
                λ e. let k = ap length same in ground (arith, e, k, h)

  -- What is known of a node and of the contents after a Write.
  record IsSaved (id : String) (bytes : List ℕ) (off : ℕ) (node : Inode) (c : ContentCache)
      (r : Reply ℕ × Inode × ContentCache) : Type 0 where
    replied : r.0 ≡ done (length bytes)
    changed : r.1.has_changes ≡ true
    its_id : r.1.item.id ≡ id
    its_name : r.1.item.name ≡ node.item.name
    its_parent : parent_id r.1 ≡ parent_id node
    written :
        IsWritten
          (path_of lib.naming c id)
          (splice bytes off (bytes_of (get c.files (path_of lib.naming c id))))
          c
          r.2

  finish_write-IsSaved :
      (bytes : List ℕ) (off : ℕ) (node : Inode) (c c' : ContentCache)
      → ltb max_int64 (off + length bytes) ≡ false
      → ltb max_uint32 (length bytes) ≡ false
      → let path = path_of lib.naming c node.item.id in
        IsWritten path (splice bytes off (bytes_of (get c.files path))) c c'
        → IsSaved node.item.id bytes off node c (finish_write off node ((length bytes, none), c'))
  unfolding finish_write parent_id
  finish_write-IsSaved bytes off node c c' l m w =
      rw (finish_write, l, m)
        (record {
          replied = refl;
          changed = refl;
          its_id = refl;
          its_name = refl;
          its_parent = refl;
          written = w;
        })

  write_node-IsSaved :
      (bytes : List ℕ) (off : ℕ) (node : Inode) (c : ContentCache)
      → c.closed ≡ false
      → ltb max_int64 (off + length bytes) ≡ false
      → ltb max_uint32 (length bytes) ≡ false
      → IsSaved node.item.id bytes off node c (write_node lib io bytes off node c)
  unfolding write_node
  write_node-IsSaved bytes off node c z l m =
      let (n, w) = write_at-IsWritten lib.naming io ok node.item.id bytes off c z in
      let c' = (write_at lib.naming io node.item.id bytes off c).1 in
      let k = finish_write-IsSaved bytes off node c c' l m w in
      subst (λ x. IsSaved node.item.id bytes off node c (finish_write off node (x, c'))) (sym n) k

  module _ {W : Type 0} where
    -- A session that carries a content is the last of the queue.
    abbrev Queues : String → String → String → List ℕ → FileSystem W → FileSystem W → Type 0
    Queues id parent name content f f' =
        (s : UploadSession) × (f'.queue ≡ f.queue ++ s ∷ [])
        × Carries id parent name content f'.manager.files s

    queue_snapshot_lem :
        (id parent name : String) (content : List ℕ) (f : FileSystem W) (c : ContentCache)
        → ltb 0 (length content) ≡ true
        → get c.snapshots temp ≡ some content
        → let r = queue_snapshot id parent name f ((temp, length content, none), c) in
          (r.0 ≡ true) × Queues id parent name content f r.1
    unfolding queue_snapshot
    queue_snapshot_lem id parent name content f c h g =
        let s = fresh_session id parent name [] temp (length content) in
        let e = session_of_copy temp id parent name (length content) named (ground (arith, h)) in
        rw (queue_snapshot, e)
          (
            refl,
            (
              s,
              refl,
              record {
                its_id = refl;
                its_parent = refl;
                its_name = refl;
                its_size = refl;
                its_content = g;
              },
            ),
          )

    queue_upload_lem :
        (id parent name : String) (f : FileSystem W)
        → let content = bytes_of (get f.contents.files (path_of lib.naming f.contents id)) in
          ltb 0 (length content) ≡ true
          → let r = queue_upload lib io temp id parent name f in
            (r.0 ≡ true) × Queues id parent name content f r.1
    unfolding queue_upload
    queue_upload_lem id parent name f h =
        let content = bytes_of (get f.contents.files (path_of lib.naming f.contents id)) in
        let shared = record f.contents { snapshots = f.manager.files } in
        let r = snapshot lib.naming io temp id shared in
        let (e, g) = snapshot_lem id shared h in
        let P : Snapped → Type 0 = λ x.
          let q = queue_snapshot id parent name f x in
          (q.0 ≡ true) × Queues id parent name content f q.1 in
        subst (λ t. P (t, r.1)) (sym e) (queue_snapshot_lem id parent name content f r.1 h g)

    fsync_lem :
        (node : Inode) (f : FileSystem W)
        → f.has_manager ≡ true
        → node.has_changes ≡ true
        → let content =
            bytes_of (get f.contents.files (path_of lib.naming f.contents node.item.id)) in
          ltb 0 (length content) ≡ true
          → let r = fsync lib io temp node f in
            (r.0 ≡ clean node) × Queues node.item.id (parent_id node) node.item.name content f r.1
    unfolding fsync
    fsync_lem node f m d h =
        let content =
          bytes_of (get f.contents.files (path_of lib.naming f.contents node.item.id)) in
        let q = queue_upload lib io temp node.item.id (parent_id node) node.item.name f in
        let (k, w) = queue_upload_lem node.item.id (parent_id node) node.item.name f h in
        let P : Inode × FileSystem W → Type 0 = λ r.
          (r.0 ≡ clean node) × Queues node.item.id (parent_id node) node.item.name content f r.1 in
        by_test P (not node.has_changes) (λ e. ground (arith, e, d))
          λ _.
            by_test P f.has_manager
              (λ _.
                by_test P (q.0 || eqb (size lib.naming io node.item.id q.1.contents) 0)
                  (λ _. (refl, w)) λ e. ground (arith, e, k))
              λ e. cc

    -- Where every call succeeds, on an open cache and under an upload manager, a Write of at least one
    -- byte, within the range of an int64 offset and a uint32 length, and the Flush that follows
    -- leave the file unmarked and a session of its ID, parent and name at the end of the queue. The
    -- session's snapshot holds the written bytes at their positions, and the old ones elsewhere.
    pub write_node-flush :
        (x : ℕ) (xs : List ℕ) (off : ℕ) (node : Inode) (f : FileSystem W)
        → f.contents.closed ≡ false
        → f.has_manager ≡ true
        → ltb max_int64 (off + length (x ∷ xs)) ≡ false
        → ltb max_uint32 (length (x ∷ xs)) ≡ false
        → let bytes = x ∷ xs in
          let w = write_node lib io bytes off node f.contents in
          let r = flush lib io temp w.1 (set_contents w.2 f) in
          let old = bytes_of (get f.contents.files (path_of lib.naming f.contents node.item.id)) in
          (w.0 ≡ done (length bytes))
          × (r.0.has_changes ≡ false)
          × ((s : UploadSession) × ((content : List ℕ) × (r.1.queue ≡ f.queue ++ s ∷ [])
                × Carries node.item.id (parent_id node) node.item.name content r.1.manager.files s
                × ((k : ℕ)
                    → byte_at content k ≡ (
                        if covers off (length bytes) k
                        then byte_at bytes (k - off)
                        else byte_at old k))))
    unfolding flush
    write_node-flush x xs off node f z m l n =
        let bytes = x ∷ xs in
        let old = bytes_of (get f.contents.files (path_of lib.naming f.contents node.item.id)) in
        let w = write_node lib io bytes off node f.contents in
        let i = write_node-IsSaved bytes off node f.contents z l n in
        let g = set_contents w.2 f in
        let same : bytes_of (get w.2.files (path_of lib.naming w.2 w.1.item.id))
            ≡ splice bytes off old =
          ap (λ d. bytes_of (get w.2.files (content_path lib.naming d w.1.item.id)))
            i.written.directory
          ∙ (ap (λ d. bytes_of (get w.2.files (content_path lib.naming f.contents.directory d)))
                i.its_id
              ∙ i.written.written) in
        let long : ltb 0 (length (bytes_of (get w.2.files (path_of lib.naming w.2 w.1.item.id))))
            ≡ true =
          let k = ap length same ∙ length-splice_all bytes off old in ground (arith, k) in
        let (c, (s, q, k)) = fsync_lem w.1 g m i.changed long in
        (
          i.replied,
          ap (λ (y : Inode). y.has_changes) c,
          (
            s,
            (
              bytes_of (get w.2.files (path_of lib.naming w.2 w.1.item.id)),
              q,
              record {
                its_id = k.its_id ∙ i.its_id;
                its_parent = k.its_parent ∙ i.its_parent;
                its_name = k.its_name ∙ i.its_name;
                its_size = k.its_size;
                its_content = k.its_content;
              },
              λ p. ap (λ b. byte_at b p) same ∙ byte_at-splice bytes off old p,
            ),
          ),
        )
