-- ===== src/Uploads/Manager.antt =====
-- internal/fs/upload_manager.go: the queue of sessions and the loop that serves it.
-- A session is shared between the map and the goroutines that upload it, so the model keeps the
-- session objects in a store, by address. `time.Now()` is the argument `now`; one tick reads it once.
use Prim.Native.Nat.{min}
use onecloudriver.Prelude.{
  ℕ, zero, suc, ◌+◌, ◌-◌, ◌*◌, String, Bool, true, false, Option, none, some, List, [], ◌∷◌, ◌++◌,
  ltb, leb, eqb, ◌==◌, if◌then◌else◌,
}
use onecloudriver.Prelude.Dict
use onecloudriver.Prelude.Dict.{Dict}
use onecloudriver.Inodes.Cache.{InodeCache}
use onecloudriver.Inodes.Bolt.{save_upload_session, delete_upload_session, load_upload_sessions}
use onecloudriver.Uploads.Session.{
  pending, uploading, complete, errored, UploadSession, StoredSession, Files, set_state,
  set_next_retry_at, new_upload_session_snapshot, discard_snapshot, as_json,
  new_upload_session_json,
}

-- `running` lists the goroutines of `executeUpload` by the address of their session.
pub record UploadManager : Type 0 where
  pub sessions : Dict ℕ
  pub objects : ℕ → UploadSession
  pub next : ℕ
  pub in_flight : ℕ
  pub running : List ℕ
  pub completed : ℕ
  pub failed : ℕ
  pub max_uploads_in_flight : ℕ
  pub max_upload_retries : ℕ
  pub cache : InodeCache
  pub files : Files

abbrev pub default_max_uploads_in_flight : ℕ
default_max_uploads_in_flight = 5

abbrev pub default_max_upload_retries : ℕ
default_max_upload_retries = 5

abbrev pub upload_ticker_interval : ℕ
upload_ticker_interval = 2_000_000_000

abbrev pub max_retry_backoff : ℕ
max_retry_backoff = 60_000_000_000

-- A write through a pointer to a session.
abbrev pub set_object : ℕ → UploadSession → UploadManager → UploadManager
set_object a s m = record m { objects = λ b. if eqb a b then s else m.objects b }

unfoldable pub persist_session : String → UploadSession → UploadManager → UploadManager
unfolding as_json save_upload_session
persist_session id s m = record m { cache = save_upload_session id (as_json s) m.cache }

unfoldable pub in_flight_cap : UploadManager → ℕ
in_flight_cap m =
    if eqb m.max_uploads_in_flight 0 then default_max_uploads_in_flight else m.max_uploads_in_flight

unfoldable pub retry_cap : UploadManager → ℕ
retry_cap m =
    if eqb m.max_upload_retries 0 then default_max_upload_retries else m.max_upload_retries

-- The loop of backoffFor, with the rounds left: it ends early once the cap is reached.
unfoldable pub double_capped : ℕ → ℕ → ℕ
double_capped zero d = d
double_capped (suc n) d =
    double_capped n (if ltb d max_retry_backoff then min (d * 2) max_retry_backoff else d)

unfoldable pub backoff_for : ℕ → ℕ
unfolding double_capped
backoff_for retries = double_capped (retries - 1) upload_ticker_interval

-- Discards the snapshot of the session at an address.
unfoldable pub discard_at : ℕ → UploadManager → UploadManager
unfolding discard_snapshot
discard_at a m =
    let (s, files) = discard_snapshot (m.objects a) m.files in
    record m { objects = λ b. if eqb a b then s else m.objects b; files = files }

unfoldable pub supersede : Option ℕ → UploadManager → UploadManager
unfolding set_state discard_at
supersede none m = m
supersede (some a) m = discard_at a (set_object a (set_state complete none (m.objects a)) m)

-- The session gets the next address.
unfoldable pub enqueue_session : UploadSession → UploadManager → UploadManager
unfolding supersede persist_session
enqueue_session s m =
    let m1 = supersede (Dict.get m.sessions s.id) m in
    let m2 = set_object m1.next s m1 in
    let m3 = record m2 { sessions = Dict.put m1.sessions s.id m1.next; next = m1.next + 1 } in
    persist_session s.id s m3

unfoldable pub has_pending_upload : UploadManager → String → Bool
has_pending_upload m id = elim (Dict.get m.sessions id) [ none ↦ false | some _ ↦ true ]

unfoldable pub retarget : String → String → UploadSession → UploadSession
retarget new_parent new_name s =
    let t = record s { name = new_name } in
    if new_parent == "" then t else record t { parent_id = new_parent }

-- RenameSession from its second lock on, for the session that it found.
unfoldable pub retarget_at : String → ℕ → String → String → UploadManager → UploadManager
unfolding retarget persist_session
retarget_at id a new_parent new_name m =
    let s = retarget new_parent new_name (m.objects a) in persist_session id s (set_object a s m)

-- RenameSession where nothing comes between its look-up and the rest.
unfoldable pub rename_session : String → String → String → UploadManager → UploadManager
unfolding retarget_at
rename_session id new_parent new_name m = elim (Dict.get m.sessions id) [
  | none ↦ m
  | some a ↦ retarget_at id a new_parent new_name m
]

unfoldable pub finish_at : String → ℕ → UploadManager → UploadManager
unfolding discard_at delete_upload_session
finish_at id a m =
    let m1 = record m { sessions = Dict.remove m.sessions id } in
    let m2 = discard_at a m1 in record m2 { cache = delete_upload_session id m2.cache }

unfoldable pub finish_session : String → UploadManager → UploadManager
unfolding finish_at
finish_session id m = elim (Dict.get m.sessions id) [ none ↦ m | some a ↦ finish_at id a m ]

unfoldable pub launch_if_capacity : ℕ → UploadManager → UploadManager
unfolding in_flight_cap
launch_if_capacity a m =
    if leb (in_flight_cap m) m.in_flight
    then m
    else record m { in_flight = m.in_flight + 1; running = m.running ++ a ∷ [] }

-- Back to pending, with the retry counted, and launched if there is room.
unfoldable pub relaunch : ℕ → UploadSession → UploadManager → UploadManager
unfolding set_state launch_if_capacity
relaunch a s m = launch_if_capacity a (set_object a (set_state pending none s) m)

unfoldable pub retry_errored : ℕ → ℕ → UploadSession → UploadManager → UploadManager
unfolding relaunch backoff_for set_next_retry_at retry_cap finish_session
retry_errored now a s m =
    let t = record s { retries = s.retries + 1 } in
    if s.transient
    then relaunch a (set_next_retry_at (now + backoff_for t.retries) t) m
    else if ltb (retry_cap m) t.retries
    then finish_session t.id (set_object a t m)
    else relaunch a t m

-- The `switch` of processSessions, for one session.
unfoldable pub process_session : ℕ → ℕ → UploadManager → UploadManager
unfolding retry_errored launch_if_capacity finish_session
process_session now a m =
    let s = m.objects a in
    elim s.state [
      | pending ↦ launch_if_capacity a m
      | uploading ↦ m
      | complete ↦ finish_session s.id m
      | errored ↦ if ltb now s.next_retry then m else retry_errored now a s m
    ]

unfoldable pub process_each : ℕ → Dict ℕ → UploadManager → UploadManager
unfolding process_session
process_each now [] m = m
process_each now ((_, a) ∷ d) m = process_each now d (process_session now a m)

-- The loop goes over a copy of the map that is taken before it.
unfoldable pub process_sessions : ℕ → UploadManager → UploadManager
unfolding process_each
process_sessions now m = process_each now m.sessions m

unfoldable pub release_in_flight : UploadManager → UploadManager
release_in_flight m = record m { in_flight = m.in_flight - 1 }

-- QueueUpload up to the queue: what `Snapshot` returned becomes a session, or nothing is queued.
-- `none` is an error of `Snapshot`; the files with no session are removed.
unfoldable pub session_of_snapshot :
    String → String → String → Option (String × ℕ) → Option UploadSession
unfolding new_upload_session_snapshot
session_of_snapshot id parent_id name none = none
session_of_snapshot id parent_id name (some (path, size)) =
    if eqb size 0 then none else new_upload_session_snapshot id parent_id name path size

-- restoreIncompleteSessions for one entry of the bucket (an entry that does not parse is removed
-- from the bucket, and is not modelled).
unfoldable pub restore_session : String → StoredSession → UploadManager → UploadManager
unfolding new_upload_session_json set_state discard_snapshot delete_upload_session
restore_session id r m =
    let s = new_upload_session_json r in
    let resumed = set_object m.next (set_state pending none s) m in
    let requeued = record resumed { sessions = Dict.put m.sessions id m.next; next = m.next + 1 } in
    elim s.state [
      | complete ↦
          let (_, files) = discard_snapshot s m.files in
          record m { files = files; cache = delete_upload_session id m.cache }
      | _ ↦ requeued
    ]

unfoldable pub restore_each : Dict StoredSession → UploadManager → UploadManager
unfolding restore_session
restore_each [] m = m
restore_each ((id, r) ∷ d) m = restore_each d (restore_session id r m)

-- NewUploadManager: limits of 0 (or below) take the defaults, then the stored sessions come back.
-- Which object the unused addresses hold is of no account; `filler` is it.
unfoldable pub new_upload_manager : UploadSession → ℕ → ℕ → InodeCache → Files → UploadManager
unfolding restore_each load_upload_sessions
new_upload_manager filler max_in_flight max_retries cache files =
    restore_each (load_upload_sessions cache) (record {
      sessions = [];
      objects = λ _. filler;
      next = 0;
      in_flight = 0;
      running = [];
      completed = 0;
      failed = 0;
      max_uploads_in_flight =
          if eqb max_in_flight 0 then default_max_uploads_in_flight else max_in_flight;
      max_upload_retries = if eqb max_retries 0 then default_max_upload_retries else max_retries;
      cache = cache;
      files = files;
    })
