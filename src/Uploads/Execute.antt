-- ===== src/Uploads/Execute.antt =====
-- executeUpload and what it calls (internal/fs/upload_manager.go), in two steps between which other
-- goroutines may run: the start, which reads the session, and the rest. `W` is the server's state,
-- `stamp` is the formatted `time.Now()` of a conflict and `opening` the error of `os.Open`.
use onecloudriver.Prelude.{
  ℕ, ◌+◌, ◌*◌, String, Bool, true, false, ◌&&◌, ◌||◌, not, Option, none, some, List, leb, ◌==◌,
  if◌then◌else◌,
}
use Prim.Native.String.{◌++◌ as ◌<>◌}
use onecloudriver.Graph.Models.{DriveItem}
use onecloudriver.Inodes.Inode.{Inode, is_local_id, u64}
use onecloudriver.Inodes.Cache.{InodeCache, find, store}
use onecloudriver.Inodes.Tree.{when_found, move_id, invalidate}
use onecloudriver.Uploads.Session.{
  uploading, complete, errored, set_state, set_transient, open_content,
}
use onecloudriver.Uploads.Remote.{
  Failure, Answer, failed, answered, Resource, item_path, item_id, Remote,
}
use onecloudriver.Uploads.Manager.{UploadManager, set_object, release_in_flight}

-- What an upload captured when it started.
pub record Launch : Type 0 where
  pub session : ℕ
  pub id : String
  pub parent_id : String
  pub name : String
  pub etag : String

abbrev etag_of : Option Inode → String
etag_of none = ""
etag_of (some i) = i.item.etag

-- executeUpload up to the request.
unfoldable pub start_upload : ℕ → UploadManager → Launch × UploadManager
unfolding set_state is_local_id
start_upload a m =
    let s = m.objects a in
    let l : Launch = record {
      session = a;
      id = s.id;
      parent_id = s.parent_id;
      name = s.name;
      etag = if is_local_id s.id then "" else etag_of (find m.cache s.id);
    } in
    (l, set_object a (set_state uploading none s) m)

unfoldable pub parent_resource : String → Resource
parent_resource pid = if pid == "root" || pid == "" then item_path "/" else item_id pid

abbrev pub simple_upload_limit : ℕ
simple_upload_limit = 4 * 1024 * 1024

module _ {W : Type 0} (remote : Remote W) where
  -- doUpload
  unfoldable pub do_upload :
      String → Bool → String → String → List ℕ × ℕ → String → W → Answer DriveItem × W
  unfolding parent_resource
  do_upload id is_local parent_id name (bytes, size) etag w =
      let small = leb size simple_upload_limit in
      if is_local
      then if small
        then remote.upload_item (parent_resource parent_id) name bytes etag w
        else remote.upload_item_stream (parent_resource parent_id) name bytes size etag w
      else if small
      then remote.overwrite_item id bytes etag w
      else remote.overwrite_item_stream id bytes size etag w

  abbrev wrap : String → Answer DriveItem → Answer (DriveItem × Bool)
  wrap prefix (failed e) = failed (record e { message = prefix <> e.message })
  wrap prefix (answered item) = answered (item, true)

  -- uploadAfterConflict, under the name that `conflictName` made: whether the rename succeeds only
  -- goes into the log.
  unfoldable pub upload_after_conflict :
      Option (List ℕ × ℕ) → Failure → String → Launch → W → Answer (DriveItem × Bool) × W
  unfolding do_upload
  upload_after_conflict none opening conflicted l w =
      let (_, w') = remote.rename_item (item_id l.id) conflicted "" w in
      (
        failed
            (record opening { message = "conflict: re-open upload snapshot: " <> opening.message }),
        w',
      )
  upload_after_conflict (some content) opening conflicted l w =
      let (_, w1) = remote.rename_item (item_id l.id) conflicted "" w in
      let (r, w2) = do_upload l.id true l.parent_id l.name content "" w1 in
      (wrap "conflict: re-upload local version: " r, w2)

  -- upload: the item, and whether it is a new one.
  unfoldable pub upload :
      Option (List ℕ × ℕ) → Failure → String → Launch → W → Answer (DriveItem × Bool) × W
  unfolding do_upload upload_after_conflict is_local_id
  upload none opening conflicted l w = (failed opening, w)
  upload (some content) opening conflicted l w =
      let is_local = is_local_id l.id in
      let (r, w') = do_upload l.id is_local l.parent_id l.name content l.etag w in
      elim r [
        | answered item ↦ (answered (item, is_local), w')
        | failed e ↦
            if not is_local && e.precondition
            then upload_after_conflict (some content) opening conflicted l w'
            else (failed e, w')
      ]

  abbrev reported : Answer DriveItem → Bool
  reported (failed _) = false
  reported (answered _) = true

  unfoldable pub move_after_upload : String → String → String → W → Bool × W
  move_after_upload id launched_parent cur_parent w =
      let (r, w') = remote.move_item (item_id id) (item_id cur_parent) "" w in
      if cur_parent == launched_parent then (true, w) else (reported r, w')

  -- applyInflightTargetChange: the move is tried only after the rename, if one is due, succeeded.
  unfoldable pub apply_inflight_target_change :
      String → String → String → String → String → W → Bool × W
  unfolding move_after_upload
  apply_inflight_target_change id launched_name cur_name launched_parent cur_parent w =
      let (r, w') = remote.rename_item (item_id id) cur_name "" w in
      if cur_name == launched_name
      then move_after_upload id launched_parent cur_parent w
      else if reported r
      then move_after_upload id launched_parent cur_parent w'
      else (false, w')

-- The metadata that the server returned, written through the cache's pointer.
unfoldable pub absorb : DriveItem → Inode → Inode
absorb item i =
    let d = i.item in
    record i { item = record d { etag = item.etag; size = item.size; mod_time = item.mod_time } }

abbrev pub absorb_id : DriveItem → Inode → Inode
absorb_id item i =
    let j = absorb item i in let d = j.item in record j { item = record d { id = item.id } }

-- The cache after a successful upload: the inode takes the new metadata, and the new ID of an item
-- that was created; then the parent's list is dropped.
unfoldable pub settle_cache : ℕ → Launch → DriveItem → Bool → InodeCache → InodeCache
unfolding move_id invalidate absorb
settle_cache now l item created_new c =
    let c1 =
      if created_new
      then move_id l.id item.id (when_found (find c l.id) c (λ i. store l.id (absorb_id item i) c))
      else when_found (find c l.id) c (λ i. store l.id (absorb item i) c) in
    invalidate now l.parent_id c1

unfoldable pub fail_upload : Launch → Failure → UploadManager → UploadManager
unfolding set_state set_transient
fail_upload l e m =
    let s = set_transient e.network (set_state errored (some e.message) (m.objects l.session)) in
    let m' = set_object l.session s m in record m' { failed = u64 (m.failed + 1) }

unfoldable pub complete_upload : Launch → UploadManager → UploadManager
unfolding set_state
complete_upload l m =
    let m' = set_object l.session (set_state complete none (m.objects l.session)) m in
    record m' { completed = u64 (m.completed + 1) }

-- executeUpload from the outcome of the request on: the slot is given back on every path.
unfoldable pub conclude :
    {W : Type 0}
    → Remote W
    → ℕ
    → Launch
    → UploadManager
    → Answer (DriveItem × Bool)
    → W
    → UploadManager × W
unfolding apply_inflight_target_change settle_cache fail_upload complete_upload release_in_flight
conclude remote now l m (failed e) w = (release_in_flight (fail_upload l e m), w)
conclude remote now l m (answered (item, created_new)) w =
    let s = m.objects l.session in
    let (_, w') =
      apply_inflight_target_change remote item.id l.name s.name l.parent_id s.parent_id w in
    let m1 = record m { cache = settle_cache now l item created_new m.cache } in
    (release_in_flight (complete_upload l m1), w')

-- The rest of executeUpload: the request and what follows.
unfoldable pub finish_upload :
    {W : Type 0} → Remote W → ℕ → String → Failure → Launch → UploadManager → W → UploadManager × W
unfolding upload conclude open_content
finish_upload remote now conflicted opening l m w =
    let content = open_content m.files (m.objects l.session) in
    let (r, w') = upload remote content opening conflicted l w in conclude remote now l m r w'
