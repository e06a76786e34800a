-- ===== src/Graph/Chunks.antt =====
-- The upload of a content in chunks: `uploadStream` of internal/graph/upload.go over a server that is
-- a parameter. A size is positive (validateStreamInputs); the reader has the bytes given, and fails
-- with io.ErrUnexpectedEOF past them. The texts of the errors are left out.
use onecloudriver.Prelude.{
  ℕ, zero, suc, ◌+◌, ◌-◌, ◌/◌, String, Bool, not, Option, none, some, List, [], ◌∷◌, length, ltb,
  leb, ◌==◌, if◌then◌else◌, take, drop,
}
use onecloudriver.Graph.Models.{DriveItem}

abbrev pub chunk_size : ℕ
chunk_size = 327_680

-- A request for the bytes `start` to `end` of the file.
pub record Chunk : Type 0 where
  pub start : ℕ
  pub end : ℕ
  pub bytes : List ℕ

-- 200 or 201 with the item, or with a text that does not parse; 202; another status; and no response.
pub data ChunkAnswer : Type 0 where
  created : Option DriveItem → ChunkAnswer
  accepted rejected unreachable : ChunkAnswer

pub data UploadError : Type 0 where
  cancelled short_content no_item bad_item bad_status network no_session : UploadError

pub data Upload : Type 0 where
  uploaded : DriveItem → Upload
  failed : UploadError → Upload

-- The session's URL, if the server opens one ("" is a response without it), the state of the context
-- before each chunk, and the PUT of a chunk.
pub record Server (W : Type 0) : Type 0 where
  pub create_session : W → Option String × W
  pub is_done : W → Bool
  pub put : Chunk → W → ChunkAnswer × W

-- The last byte of the chunk at `start`.
unfoldable pub chunk_end : ℕ → ℕ → ℕ
chunk_end size start =
    let end = start + chunk_size - 1 in if leb (size - 1) end then size - 1 else end

unfoldable pub next_chunk : ℕ → ℕ → List ℕ → Chunk
unfolding chunk_end take
next_chunk size start content =
    let end = chunk_end size start in
    record { start = start; end = end; bytes = take (end - start + 1) content }

-- The chunks that were sent, in order, and the outcome.
pub record Sent (W : Type 0) : Type 0 where
  pub outcome : Upload
  pub world : W
  pub chunks : List Chunk

-- Does the loop go on after an answer?
abbrev pub after_chunk : ChunkAnswer → Option Upload
after_chunk (created (some item)) = some (uploaded item)
after_chunk (created none) = some (failed bad_item)
after_chunk accepted = none
after_chunk rejected = some (failed bad_status)
after_chunk unreachable = some (failed network)

module _ {W : Type 0} (server : Server W) where
  abbrev pub ended : Upload → W → List Chunk → Sent W
  ended o w cs = record { outcome = o; world = w; chunks = cs }

  abbrev pub sent_first : Chunk → Sent W → Sent W
  sent_first c s = record s { chunks = c ∷ s.chunks }

  -- The loop, on fuel for the number of chunks.
  unfoldable pub upload_chunks : ℕ → ℕ → ℕ → List ℕ → W → Sent W
  unfolding next_chunk drop
  upload_chunks zero size start content w = ended (failed no_item) w []
  upload_chunks (suc n) size start content w =
      let c = next_chunk size start content in
      let (a, w') = server.put c w in
      let sent : Sent W = elim (after_chunk a) [
        | some o ↦ ended o w' (c ∷ [])
        | none ↦
            sent_first c
              (upload_chunks n size (start + chunk_size) (drop (c.end - start + 1) content) w')
      ] in
      if not (ltb start size)
      then ended (failed no_item) w []
      else if server.is_done w
      then ended (failed cancelled) w []
      else if ltb (length content) (c.end - start + 1)
      then ended (failed short_content) w []
      else sent

  abbrev pub chunks_of : ℕ → ℕ
  chunks_of size = size / chunk_size + 1

  unfoldable pub upload_stream : ℕ → List ℕ → W → Sent W
  unfolding upload_chunks
  upload_stream size content w =
      let (url, w') = server.create_session w in
      let sent = upload_chunks (chunks_of size) size 0 content w' in
      elim url [
        | none ↦ ended (failed no_session) w' []
        | some u ↦ if u == "" then ended (failed no_session) w' [] else sent
      ]
