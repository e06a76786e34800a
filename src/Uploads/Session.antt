-- ===== src/Uploads/Session.antt =====
-- internal/fs/upload_session.go: the state of one upload, its content and its persisted form.
-- The files on disk that hold upload snapshots are a dictionary from paths to bytes.
use onecloudriver.Prelude.{
  ℕ, String, Bool, false, Option, none, some, List, [], ◌∷◌, length, eqb, ◌==◌, if◌then◌else◌,
}
use onecloudriver.Prelude.Dict
use onecloudriver.Prelude.Dict.{Dict}

pub data UploadState : Type 0 where
  pending uploading complete errored : UploadState

-- `content` is the field `Data`; a snapshot path of "" is the in-memory variant. `next_retry` is
-- in nanoseconds since Go's zero time.
pub record UploadSession : Type 0 where
  pub id : String
  pub parent_id : String
  pub name : String
  pub content : List ℕ
  pub snapshot_path : String
  pub size : ℕ
  pub state : UploadState
  pub retries : ℕ
  pub last_err : String
  pub transient : Bool
  pub next_retry : ℕ

-- The fields that the JSON form keeps: all but the state and the retry time.
pub record StoredSession : Type 0 where
  pub id : String
  pub parent_id : String
  pub name : String
  pub content : List ℕ
  pub snapshot_path : String
  pub size : ℕ
  pub retries : ℕ
  pub last_err : String
  pub transient : Bool

abbrev pub Files : Type 0
Files = Dict (List ℕ)

unfoldable pub set_state : UploadState → Option String → UploadSession → UploadSession
set_state st err s =
    let t = record s { state = st } in elim err [ none ↦ t | some e ↦ record t { last_err = e } ]

unfoldable pub set_transient : Bool → UploadSession → UploadSession
set_transient v s = record s { transient = v }

unfoldable pub set_next_retry_at : ℕ → UploadSession → UploadSession
set_next_retry_at t s = record s { next_retry = t }

-- A session in the state that `State: uploadPending` and Go's zero values give it.
abbrev pub fresh_session : String → String → String → List ℕ → String → ℕ → UploadSession
fresh_session id parent_id name content path size = record {
  id = id;
  parent_id = parent_id;
  name = name;
  content = content;
  snapshot_path = path;
  size = size;
  state = pending;
  retries = 0;
  last_err = "";
  transient = false;
  next_retry = 0;
}

-- `none` is the error for empty data.
unfoldable pub new_upload_session : String → String → String → List ℕ → Option UploadSession
new_upload_session id parent_id name [] = none
new_upload_session id parent_id name (b ∷ bs) = some (fresh_session id parent_id name (b ∷ bs) "" 0)

-- `none` is the error for an empty path or a size that is not positive.
unfoldable pub new_upload_session_snapshot :
    String → String → String → String → ℕ → Option UploadSession
new_upload_session_snapshot id parent_id name path size =
    if path == ""
    then none
    else if eqb size 0
    then none
    else some (fresh_session id parent_id name [] path size)

-- The reader's bytes and the announced size; `none` is the error of `os.Open`.
unfoldable pub open_content : Files → UploadSession → Option (List ℕ × ℕ)
open_content files s =
    if s.snapshot_path == ""
    then some (s.content, length s.content)
    else elim (Dict.get files s.snapshot_path) [ none ↦ none | some bytes ↦ some (bytes, s.size) ]

-- Clears the reference and removes the file; a file that is gone already is no error.
unfoldable pub discard_snapshot : UploadSession → Files → UploadSession × Files
discard_snapshot s files =
    let s' = record s { snapshot_path = "" } in
    if s.snapshot_path == "" then (s', files) else (s', Dict.remove files s.snapshot_path)

unfoldable pub as_json : UploadSession → StoredSession
as_json s = record {
  id = s.id;
  parent_id = s.parent_id;
  name = s.name;
  content = s.content;
  snapshot_path = s.snapshot_path;
  size = s.size;
  retries = s.retries;
  last_err = s.last_err;
  transient = s.transient;
}

-- The fields that the JSON form lacks take their zero values: `uploadPending` and the zero time.
unfoldable pub new_upload_session_json : StoredSession → UploadSession
new_upload_session_json r = record {
  id = r.id;
  parent_id = r.parent_id;
  name = r.name;
  content = r.content;
  snapshot_path = r.snapshot_path;
  size = r.size;
  state = pending;
  retries = r.retries;
  last_err = r.last_err;
  transient = r.transient;
  next_retry = 0;
}
