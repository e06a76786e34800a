-- ===== src/Examples/Sessions.antt =====
-- Uploads of one file with a server that accepts everything: internal/fs/upload_manager.go.
use Prim.Native.Nat.{min}
use onecloudriver.Prelude.{◌*◌, ◌^◌, ◌<◌, ◌≡◌, refl, false, ◌||◌, [], ◌∷◌, leb, arith}
use onecloudriver.Prelude.Dict
use onecloudriver.Uploads.Session.{UploadSession, pending, errored}
use onecloudriver.Uploads.Remote.{Remote, Failure, answered}
use onecloudriver.Uploads.Manager.{
  UploadManager, enqueue_session, process_sessions, process_session, has_pending_upload, retry_cap,
  in_flight_cap, backoff_for, upload_ticker_interval, max_retry_backoff,
}
use onecloudriver.Uploads.Execute.{start_upload, finish_upload}
use onecloudriver.Uploads.Slots.{
  System, here, after, enqueued, ticked, started, finished, IsBounded, Reachable-IsBounded,
}
use onecloudriver.Uploads.Stored.{IsDurable}
use onecloudriver.Uploads.Durable.{IsKept}
use onecloudriver.Uploads.Crash.{Reachable-IsDurable}
use onecloudriver.Uploads.Manager.{retarget_at}
use onecloudriver.Uploads.Slots.{renamed}
use onecloudriver.Inodes.Cache.{Bolt, InodeCache}
use onecloudriver.Prelude.{some}
use onecloudriver.Uploads.Session.{as_json}
use onecloudriver.Uploads.Manager.{new_upload_manager}
use onecloudriver.Uploads.Restart.{new_upload_manager-IsDurable}
use onecloudriver.Uploads.Retries.{process_session-keeps, backoff_for-pow}
use onecloudriver.Examples.Trees.{saved, disk, file_item}

abbrev accepting : Remote (Unit {0})
accepting = record {
  overwrite_item = λ id _ _ w. (answered (file_item id "note" "root"), w);
  overwrite_item_stream = λ id _ _ _ w. (answered (file_item id "note" "root"), w);
  upload_item = λ _ name _ _ w. (answered (file_item "f9" name "root"), w);
  upload_item_stream = λ _ name _ _ _ w. (answered (file_item "f9" name "root"), w);
  rename_item = λ _ name _ w. (answered (file_item "f1" name "root"), w);
  move_item = λ _ _ _ w. (answered (file_item "f1" "note" "d1"), w);
}

abbrev session : UploadSession
session = record {
  id = "f1";
  parent_id = "root";
  name = "note";
  content = 104 ∷ 105 ∷ [];
  snapshot_path = "";
  size = 0;
  state = pending;
  retries = 0;
  last_err = "";
  transient = false;
  next_retry = 0;
}

abbrev refusal : Failure
refusal = record { message = "no such file"; network = false; precondition = false }

abbrev pub idle : UploadManager
idle = record {
  sessions = [];
  objects = λ _. session;
  next = 0;
  in_flight = 0;
  running = [];
  completed = 0;
  failed = 0;
  max_uploads_in_flight = 1;
  max_upload_retries = 2;
  cache = saved;
  files = [];
}

abbrev queued : UploadManager
queued = enqueue_session session idle

abbrev launched : UploadManager
launched = process_sessions 5 queued

abbrev begun : UploadManager
begun = record (start_upload 0 launched).1 { running = [] }

abbrev first : System (Unit {0})
first = record { manager = idle; launches = []; server = tt }

abbrev last : System (Unit {0})
last = record {
  manager = (finish_upload accepting 9 "" refusal (start_upload 0 launched).0 begun tt).0;
  launches = [];
  server = tt;
}

launched_running : launched.running ≡ 0 ∷ []
unfolding process_sessions enqueue_session Dict.get Dict.put Dict.remove
launched_running = refl

begun_session :
    (0 < begun.next) × ((begun.objects 0).id ≡ "f1") × (Dict.get begun.sessions "f1" ≡ some 0)
unfolding process_sessions enqueue_session start_upload Dict.get Dict.put Dict.remove
begun_session = (omega arith, refl, refl)

idle-IsBounded : IsBounded first
unfolding in_flight_cap
idle-IsBounded = record { counted = refl; bounded = omega arith }

-- Queued, launched, started and finished.
Reachable-IsBounded_example : IsBounded last
Reachable-IsBounded_example =
    Reachable-IsBounded accepting
      (after
        (after (after (after (here first) (enqueued session idle [] tt)) (ticked 5 queued [] tt))
          (started [] 0 [] launched [] tt launched_running))
        (finished 9 "" refusal [] (start_upload 0 launched).0 [] begun tt))
      idle-IsBounded

-- The third failure of an upload with two retries.
abbrev given_up : UploadManager
given_up = record idle {
  sessions = ("f1", 0) ∷ [];
  objects = λ _. record session { state = errored; retries = 2 };
}

process_session-keeps_example :
    has_pending_upload (process_session 5 0 given_up) "f1" ≡ (false || leb 3 (retry_cap given_up))
unfolding Dict.get
process_session-keeps_example = process_session-keeps 5 0 given_up "f1" refl refl refl (omega arith)

backoff_for-pow_example : backoff_for 4 ≡ min (upload_ticker_interval * 2 ^ 3) max_retry_backoff
backoff_for-pow_example = backoff_for-pow 3

idle-IsKept : IsKept idle
unfolding Dict.get
idle-IsKept = record {
  durable = record {
    bolt = disk;
    opened = refl;
    stored = λ id. refl;
    keyed = λ id a h. cc;
    fresh = λ id a h. cc;
  };
  commits = refl;
}

-- Queued and launched, then renamed while it is in flight.
Reachable-IsDurable_example : IsDurable (retarget_at "f1" 0 "d1" "memo" begun)
Reachable-IsDurable_example =
    Reachable-IsDurable accepting
      (after
        (after (after (after (here first) (enqueued session idle [] tt)) (ticked 5 queued [] tt))
          (started [] 0 [] launched [] tt launched_running))
        (renamed "f1" 0 "d1" "memo" begun ((start_upload 0 launched).0 ∷ []) tt begun_session.0
          begun_session.1))
      ((((tt, tt), tt), tt), begun_session.2) idle-IsKept.durable idle-IsKept.commits

-- The database after a crash during an upload.
abbrev crashed : Bolt
crashed = record disk { uploads = ("f1", as_json session) ∷ [] }

abbrev remounted : InodeCache
remounted = record saved { db = some crashed }

new_upload_manager-IsDurable_example : IsDurable (new_upload_manager session 0 0 remounted [])
unfolding Dict.get as_json
new_upload_manager-IsDurable_example =
    new_upload_manager-IsDurable session 0 0 remounted [] crashed refl (refl, tt) (refl, tt)
