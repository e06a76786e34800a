-- ===== src/Graph/Tiling.antt =====
-- The chunks of an upload tile the file (internal/graph/upload.go: uploadStream).
use onecloudriver.Prelude.{
  ℕ, zero, suc, ◌+◌, ◌-◌, ◌*◌, ◌≤◌, ◌<◌, String, ◌≡◌, ◌≢◌, refl, ap, ◌∙◌, false, not, ◌⊎◌, Option,
  none, some, List, [], ◌∷◌, ◌++◌, length, length-append, ltb, leb, ◌==◌, arith, if◌then◌else◌,
  Bool-cases, Option-cases, inl, inr, take, drop, by_test,
}
use onecloudriver.Graph.Chunks.{
  chunk_size, Chunk, ChunkAnswer, created, accepted, rejected, unreachable, Upload, uploaded,
  failed, no_item, cancelled, short_content, bad_item, bad_status, network, no_session, Server,
  chunk_end, next_chunk, Sent, after_chunk, ended, sent_first, upload_chunks, chunks_of,
  upload_stream,
}

-- Chunks that follow one another from `start`: each has the bytes of its range, no more than a chunk
-- holds, and it is a full one unless it ends the file.
pub data IsTiling (size : ℕ) : ℕ → List Chunk → Type 0 where
  stops : (start : ℕ) → IsTiling size start []
  tile :
      (c : Chunk) (cs : List Chunk)
      → c.start < size
      → c.end < size
      → c.start + length c.bytes ≡ c.end + 1
      → (length c.bytes ≡ chunk_size) ⊎ ((length c.bytes ≤ chunk_size) × (c.end + 1 ≡ size))
      → IsTiling size (c.start + chunk_size) cs
      → IsTiling size c.start (c ∷ cs)

abbrev pub bytes_sent : List Chunk → List ℕ
bytes_sent [] = []
bytes_sent (c ∷ cs) = c.bytes ++ bytes_sent cs

pub length-take : (n : ℕ) (xs : List ℕ) → ltb (length xs) n ≡ false → length (take n xs) ≡ n
unfolding take
length-take zero xs h = refl
length-take (suc n) [] h = ground (arith, h)
length-take (suc n) (x ∷ xs) h = ap suc (length-take n xs (ground (arith, h)))

chunk_end-bounds :
    (size start : ℕ)
    → start < size
    → (start ≤ chunk_end size start)
      × (chunk_end size start < size)
      × ((chunk_end size start - start + 1 ≡ chunk_size)
          ⊎ ((chunk_end size start - start + 1 ≤ chunk_size) × (chunk_end size start + 1 ≡ size)))
unfolding chunk_end
chunk_end-bounds size start h = elim (Bool-cases (leb (size - 1) (start + chunk_size - 1))) [
  | inl e ↦ rw e (omega arith, omega arith, inr (ground (arith, e, h), omega arith))
  | inr e ↦ rw e (omega arith, ground (arith, e, h), inl (omega arith))
]

take-drop : (n : ℕ) (xs : List ℕ) → take n xs ++ drop n xs ≡ xs
unfolding take drop
take-drop zero xs = refl
take-drop (suc n) [] = refl
take-drop (suc n) (x ∷ xs) = ap (λ ys. x ∷ ys) (take-drop n xs)

append_assoc : (xs ys zs : List ℕ) → (xs ++ ys) ++ zs ≡ xs ++ (ys ++ zs)
append_assoc [] ys zs = refl
append_assoc (x ∷ xs) ys zs = ap (λ l. x ∷ l) (append_assoc xs ys zs)

-- The outcome of a loop whose every chunk was accepted.
abbrev pub IsNoItem : Upload → Type 0
IsNoItem o = o ≡ failed no_item

module _ {W : Type 0} (server : Server W) (size : ℕ) where
  -- What was sent of a content from `start`, and whether it is all of it.
  record IsSent (start : ℕ) (content : List ℕ) (s : Sent W) : Type 0 where
    tiling : IsTiling size start s.chunks
    prefix : (rest : List ℕ) × (bytes_sent s.chunks ++ rest ≡ content)
    whole : IsNoItem s.outcome → size ≤ start + length (bytes_sent s.chunks)

  nothing-IsSent :
      (start : ℕ) (content : List ℕ) (o : Upload) (w : W)
      → (IsNoItem o → size ≤ start)
      → IsSent start content (ended server o w [])
  nothing-IsSent start content o w h = record {
    tiling = stops start;
    prefix = (content, refl);
    whole = λ i. let k = h i in omega arith;
  }

  -- Only the end of the loop gives that outcome.
  after_chunk-IsNoItem :
      (a : ChunkAnswer) (o : Upload) → after_chunk a ≡ some o → IsNoItem o → size ≤ 0
  after_chunk-IsNoItem (created (some item)) o e i = cc
  after_chunk-IsNoItem (created none) o e i = cc
  after_chunk-IsNoItem accepted o e i = cc
  after_chunk-IsNoItem rejected o e i = cc
  after_chunk-IsNoItem unreachable o e i = cc

  module _ (start : ℕ) (content : List ℕ) (inside : start < size)
      (long : ltb (length content) (chunk_end size start - start + 1) ≡ false) where
    abbrev first : Chunk
    first = next_chunk size start content

    first_length : length first.bytes ≡ chunk_end size start - start + 1
    unfolding next_chunk
    first_length = length-take (chunk_end size start - start + 1) content long

    first-IsTiling :
        (cs : List Chunk) → IsTiling size (start + chunk_size) cs → IsTiling size start (first ∷ cs)
    unfolding next_chunk
    first-IsTiling cs t =
        let (l, b, f) = chunk_end-bounds size start inside in
        let k = first_length in
        tile first cs inside b (omega (arith, k, l))
          (elim f [ inl e ↦ inl (k ∙ e) | inr (e, g) ↦ inr (omega (arith, k, e), g) ]) t

    first-prefix :
        (cs : List Chunk) (rest : List ℕ)
        → bytes_sent cs ++ rest ≡ drop (chunk_end size start - start + 1) content
        → bytes_sent (first ∷ cs) ++ rest ≡ content
    unfolding next_chunk
    first-prefix cs rest e =
        append_assoc first.bytes (bytes_sent cs) rest
        ∙ (ap (λ ys. first.bytes ++ ys) e ∙ take-drop (chunk_end size start - start + 1) content)

    first-whole :
        (cs : List Chunk)
        → size ≤ start + chunk_size + length (bytes_sent cs)
        → size ≤ start + length (bytes_sent (first ∷ cs))
    first-whole cs h =
        let (l, b, f) = chunk_end-bounds size start inside in
        let k = first_length in
        let n = length-append first.bytes (bytes_sent cs) in
        elim f [ inl e ↦ omega (arith, k, e, n, h) | inr (e, g) ↦ omega (arith, k, e, g, n, l) ]

    first-IsSent :
        (s : Sent W)
        → IsSent (start + chunk_size) (drop (chunk_end size start - start + 1) content) s
        → IsSent start content (sent_first server first s)
    first-IsSent s i =
        let (rest, e) = i.prefix in
        record {
          tiling = first-IsTiling s.chunks i.tiling;
          prefix = (rest, first-prefix s.chunks rest e);
          whole = λ x. first-whole s.chunks (i.whole x);
        }

    answered-IsSent :
        (w : W) (a : ChunkAnswer) (s : Sent W)
        → IsSent (start + chunk_size) (drop (chunk_end size start - start + 1) content) s
        → IsSent start content (elim (after_chunk a) [
          | some o ↦ ended server o w (first ∷ [])
          | none ↦ sent_first server first s
        ])
    answered-IsSent w a s i = elim (Option-cases (after_chunk a)) [
      | inl e ↦ rw e (first-IsSent s i)
      | inr (o, e) ↦ rw e (
          first-IsSent (ended server o w []) (
            nothing-IsSent (start + chunk_size) _ o w
              λ x. let z = after_chunk-IsNoItem a o e x in omega (arith, z)))
    ]

  upload_chunks-IsSent :
      (n start : ℕ) (content : List ℕ) (w : W)
      → size ≤ start + n * chunk_size
      → IsSent start content (upload_chunks server n size start content w)
  unfolding upload_chunks next_chunk
  upload_chunks-IsSent zero start content w h =
      nothing-IsSent start content (failed no_item) w λ i. omega (arith, h)
  upload_chunks-IsSent (suc n) start content w h =
      let c = next_chunk size start content in
      let a = server.put c w in
      let P = IsSent start content in
      by_test P (not (ltb start size))
        (λ e. nothing-IsSent start content (failed no_item) w λ i. ground (arith, e))
        λ e.
          by_test P (server.is_done w)
            (λ _. nothing-IsSent start content (failed cancelled) w λ i. cc)
            λ _.
              by_test P (ltb (length content) (c.end - start + 1))
                (λ _. nothing-IsSent start content (failed short_content) w λ i. cc)
                λ l.
                  answered-IsSent start content (ground (arith, e)) l a.1 a.0
                    (upload_chunks server n size (start + chunk_size)
                      (drop (c.end - start + 1) content) a.1)
                    (upload_chunks-IsSent n (start + chunk_size) (drop (c.end - start + 1) content)
                      a.1 (omega (arith, h)))

  not_no_item : (o : Upload) → IsNoItem o ⊎ (o ≢ failed no_item)
  not_no_item (uploaded i) = inr λ e. cc
  not_no_item (failed no_item) = inl refl
  not_no_item (failed cancelled) = inr λ e. cc
  not_no_item (failed short_content) = inr λ e. cc
  not_no_item (failed bad_item) = inr λ e. cc
  not_no_item (failed bad_status) = inr λ e. cc
  not_no_item (failed network) = inr λ e. cc
  not_no_item (failed no_session) = inr λ e. cc

  enough : size ≤ 0 + chunks_of server size * chunk_size
  enough = omega arith

  no_session-IsSent :
      (content : List ℕ) (w : W) → IsSent 0 content (ended server (failed no_session) w [])
  no_session-IsSent content w = nothing-IsSent 0 content (failed no_session) w λ i. cc

  upload_stream-IsSent :
      (content : List ℕ) (w : W) → IsSent 0 content (upload_stream server size content w)
  unfolding upload_stream
  upload_stream-IsSent content w =
      let (url, w') = server.create_session w in
      let s = upload_chunks-IsSent (chunks_of server size) 0 content w' enough in
      of_session url w' (upload_chunks server (chunks_of server size) size 0 content w') s
    where
      of_session :
          (url : Option String) (w' : W) (sent : Sent W)
          → IsSent 0 content sent
          → IsSent 0 content (elim url [
            | none ↦ ended server (failed no_session) w' []
            | some u ↦ if u == "" then ended server (failed no_session) w' [] else sent
          ])
      of_session none w' sent s = no_session-IsSent content w'
      of_session (some u) w' sent s =
          by_test (IsSent 0 content) (u == "") (λ _. no_session-IsSent content w') λ _. s

  -- Whatever the server answers, the chunks that an upload sends tile the file from its start: each is
  -- within the file and has the bytes of its range, and is full, or smaller and the last one. Their
  -- bytes are, in order, the first ones of the content; and they are the whole file where the loop
  -- ended with every chunk accepted.
  pub upload_stream-IsTiling :
      (content : List ℕ) (w : W)
      → let s = upload_stream server size content w in
        IsTiling size 0 s.chunks
        × ((rest : List ℕ) × (bytes_sent s.chunks ++ rest ≡ content))
        × ((size ≤ length (bytes_sent s.chunks)) ⊎ (s.outcome ≢ failed no_item))
  upload_stream-IsTiling content w =
      let s = upload_stream server size content w in
      let i = upload_stream-IsSent content w in
      (
        i.tiling,
        i.prefix,
        elim (not_no_item s.outcome) [
          | inl e ↦ inl (let k = i.whole e in omega (arith, k))
          | inr e ↦ inr e
        ],
      )
