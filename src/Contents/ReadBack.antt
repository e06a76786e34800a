-- ===== src/Contents/ReadBack.antt =====
-- What WriteAt, Insert and InsertStream write to a `ContentCache` (internal/fs/content_cache.go) is
-- what ReadAll gives, where every call succeeds.
use mathlib.Core.Path.{subst}
use onecloudriver.Prelude.{
  ◌-◌, if◌then◌else◌, ℕ, ◌+◌, String, ◌≡◌, refl, sym, ap, ◌∙◌, true, false, ◌&&◌, not, Option, none,
  some, List, length, ltb, ◌==◌, arith, by_test,
}
use onecloudriver.Prelude.Dict.{get, get-put}
use onecloudriver.Contents.Cache.{
  Naming, Io, DiskFile, ContentCache, path_of, content_path, track_file,
}
use onecloudriver.Contents.Files.{
  Error, open_cached, insert, insert_stream, write_at, read_all, bytes_of, set_file, splice, size,
}
use onecloudriver.Contents.RoundTrip.{
  IsWorking, SameFiles, SameFiles-track_file_info, SameFiles-maybe_evict, IsOpened,
  open_cached-IsOpened, get-put_same,
}
use onecloudriver.Contents.Bytes.{
  byte_at, covers, written_length, byte_at-splice, length-splice_all,
}

-- A file written under a path, apart from which nothing changes but the index.
pub record IsWritten (path : String) (bytes : List ℕ) (c c' : ContentCache) : Type 0 where
  pub directory : c'.directory ≡ c.directory
  pub written : bytes_of (get c'.files path) ≡ bytes
  pub others : (p : String) → (path == p) ≡ false → get c'.files p ≡ get c.files p

IsWritten-SameFiles :
    {path : String} {bytes : List ℕ} {c d e : ContentCache}
    → IsWritten path bytes c d
    → SameFiles d e
    → IsWritten path bytes c e
IsWritten-SameFiles h s = record {
  directory = s.directory ∙ h.directory;
  written = rw s.files h.written;
  others = λ p g. rw s.files (h.others p g);
}

set_file-IsWritten :
    (path : String) (bytes : List ℕ) (io : Io) (c : ContentCache)
    → IsWritten path bytes c (set_file path bytes io c)
set_file-IsWritten path bytes io c =
    let f : DiskFile = record { bytes = bytes; mod_time = io.now } in
    record {
      directory = refl;
      written = ap bytes_of (get-put_same c.files path f);
      others = λ p g. ground (arith, get-put c.files path p f, g);
    }

module _ (lib : Naming) (io : Io) (ok : IsWorking io) where
  track_file-IsWritten :
      (id : String) (bytes : List ℕ) (c : ContentCache)
      → let r = track_file lib io id (set_file (path_of lib c id) bytes io c) in
        (r.0 ≡ true) × IsWritten (path_of lib c id) bytes c r.1
  unfolding track_file
  track_file-IsWritten id bytes c =
      let path = path_of lib c id in
      let f : DiskFile = record { bytes = bytes; mod_time = io.now } in
      rw (track_file, get-put_same c.files path f, ok.stats)
        (
          refl,
          IsWritten-SameFiles (set_file-IsWritten path bytes io c)
              (SameFiles-track_file_info id path f (set_file path bytes io c)),
        )

  -- The same over the state that Open left.
  opened-IsWritten :
      (id : String) (bytes : List ℕ) (c d e : ContentCache)
      → IsOpened id (path_of lib c id) c d
      → IsWritten (path_of lib d id) bytes d e
      → IsWritten (path_of lib c id) bytes c e
  opened-IsWritten id bytes c d e o w =
      let q : path_of lib d id ≡ path_of lib c id = ap (λ x. content_path lib x id) o.directory in
      record {
        directory = w.directory ∙ o.directory;
        written = subst (λ p. bytes_of (get e.files p) ≡ bytes) q w.written;
        others = λ p g. w.others p (subst (λ k. (k == p) ≡ false) (sym q) g) ∙ o.others p g;
      }

  pub write_at-IsWritten :
      (id : String) (bytes : List ℕ) (off : ℕ) (c : ContentCache)
      → c.closed ≡ false
      → let r = write_at lib io id bytes off c in
        let path = path_of lib c id in
        (r.0 ≡ (length bytes, none))
        × IsWritten path (splice bytes off (bytes_of (get c.files path))) c r.1
  unfolding write_at
  write_at-IsWritten id bytes off c z =
      let path = path_of lib c id in
      let P : (ℕ × Option Error) × ContentCache → Type 0 = λ r.
        (r.0 ≡ (length bytes, none))
        × IsWritten path (splice bytes off (bytes_of (get c.files path))) c r.1 in
      let o = open_cached lib io id c in
      let (s, i) = open_cached-IsOpened lib io ok id c in
      let new = splice bytes off (bytes_of (get o.1.files (path_of lib o.1 id))) in
      let t = track_file lib io id (set_file (path_of lib o.1 id) new io o.1) in
      let (u, w) = track_file-IsWritten id new o.1 in
      let same : bytes_of (get o.1.files (path_of lib o.1 id)) ≡ bytes_of (get c.files path) =
        ap (λ x. bytes_of (get o.1.files (content_path lib x id))) i.directory ∙ i.bytes in
      let v = opened-IsWritten id new c o.1 t.1 i w in
      let k : IsWritten path (splice bytes off (bytes_of (get c.files path))) c t.1 =
        subst (λ b. IsWritten path (splice bytes off b) c t.1) same v in
      by_test P c.closed (λ e. cc)
        λ _.
          by_test P (not o.0) (λ e. ground (arith, e, s))
            λ _.
              by_test P (not io.writes) (λ e. let g = ok.writes in ground (arith, e, g))
                λ _.
                  by_test P (not t.0) (λ e. ground (arith, e, u))
                    λ _. (
                      refl,
                      by_test (IsWritten path (splice bytes off (bytes_of (get c.files path))) c)
                          (ltb (size lib io id c) (off + length bytes))
                          (λ _. IsWritten-SameFiles k (SameFiles-maybe_evict t.1)) λ _. k,
                    )

  insert-IsWritten :
      (id : String) (bytes : List ℕ) (c : ContentCache)
      → c.closed ≡ false
      → IsWritten (path_of lib c id) bytes c (insert lib io id bytes c).1
  unfolding insert
  insert-IsWritten id bytes c z =
      let P : Option Error × ContentCache → Type 0 =
        λ r. IsWritten (path_of lib c id) bytes c r.1 in
      let t = track_file lib io id (set_file (path_of lib c id) bytes io c) in
      let (u, w) = track_file-IsWritten id bytes c in
      let opens = ok.opens in
      let writes = ok.writes in
      by_test P c.closed (λ e. cc)
        λ _.
          by_test P (not io.opens) (λ e. ground (arith, e, opens))
            λ _.
              by_test P (not io.writes) (λ e. ground (arith, e, writes))
                λ _. by_test P t.0 (λ _. IsWritten-SameFiles w (SameFiles-maybe_evict t.1)) λ e. cc

  insert_stream-IsWritten :
      (id : String) (bytes : List ℕ) (c : ContentCache)
      → c.closed ≡ false
      → IsWritten (path_of lib c id) bytes c (insert_stream lib io id bytes c).1
  unfolding insert_stream
  insert_stream-IsWritten id bytes c z =
      let P : (ℕ × Option Error) × ContentCache → Type 0 =
        λ r. IsWritten (path_of lib c id) bytes c r.1 in
      let o = open_cached lib io id c in
      let (s, i) = open_cached-IsOpened lib io ok id c in
      let t = track_file lib io id (set_file (path_of lib o.1 id) bytes io o.1) in
      let (u, w) = track_file-IsWritten id bytes o.1 in
      let k = opened-IsWritten id bytes c o.1 t.1 i w in
      let seeks = ok.seeks in
      let truncates = ok.truncates in
      let writes = ok.writes in
      by_test P c.closed (λ e. cc)
        λ _.
          by_test P (not o.0) (λ e. ground (arith, e, s))
            λ _.
              by_test P (not io.seeks) (λ e. ground (arith, e, seeks))
                λ _.
                  by_test P (not io.truncates) (λ e. ground (arith, e, truncates))
                    λ _.
                      by_test P (not io.writes) (λ e. ground (arith, e, writes))
                        λ _.
                          by_test P t.0 (λ _. IsWritten-SameFiles k (SameFiles-maybe_evict t.1))
                            λ e. cc

  -- What ReadAll gives is the bytes of the file.
  read_all_lem :
      (id : String) (c : ContentCache)
      → (read_all lib io id c).0 ≡ some (bytes_of (get c.files (path_of lib c id)))
  unfolding read_all
  read_all_lem id c =
      let o = open_cached lib io id c in
      let (s, i) = open_cached-IsOpened lib io ok id c in
      let r = ok.reads in
      let k = ok.seeks in
      let same : bytes_of (get o.1.files (path_of lib o.1 id))
          ≡ bytes_of (get c.files (path_of lib c id)) =
        ap (λ x. bytes_of (get o.1.files (content_path lib x id))) i.directory ∙ i.bytes in
      by_test
        (λ (p : Option (List ℕ) × ContentCache).
          p.0 ≡ some (bytes_of (get c.files (path_of lib c id))))
        (o.0 && io.seeks && io.reads) (λ _. ap some same) λ e. ground (arith, e, s, r, k)

  read-IsWritten :
      (id : String) (bytes : List ℕ) (c d : ContentCache)
      → IsWritten (path_of lib c id) bytes c d
      → (read_all lib io id d).0 ≡ some bytes
  read-IsWritten id bytes c d w =
      read_all_lem id d
      ∙ (ap (λ x. some (bytes_of (get d.files (content_path lib x id)))) w.directory
          ∙ ap some w.written)

  -- On an open cache, where every call succeeds, a WriteAt of any bytes writes them all. ReadAll then
  -- gives a content whose byte at each position that was covered is the one written, and at every
  -- other position is the old one (0 past the old end); a write of no byte leaves the length, and any
  -- other makes it the larger of the old length and the end of the write. The files at other paths
  -- are as they were.
  pub write_at-read_all :
      (id : String) (bytes : List ℕ) (off : ℕ) (c : ContentCache)
      → c.closed ≡ false
      → let r = write_at lib io id bytes off c in
        let path = path_of lib c id in
        let old = bytes_of (get c.files path) in
        (r.0 ≡ (length bytes, none))
        × ((content : List ℕ) × ((read_all lib io id r.1).0 ≡ some content)
            × (length content ≡ written_length (length bytes) off (length old))
            × ((k : ℕ)
                → byte_at content k ≡ (
                    if covers off (length bytes) k
                    then byte_at bytes (k - off)
                    else byte_at old k)))
        × ((p : String) → (path == p) ≡ false → get r.1.files p ≡ get c.files p)
  write_at-read_all id bytes off c z =
      let (n, w) = write_at-IsWritten id bytes off c z in
      let old = bytes_of (get c.files (path_of lib c id)) in
      (
        n,
        (
          splice bytes off old,
          read-IsWritten id _ c (write_at lib io id bytes off c).1 w,
          length-splice_all bytes off old,
          byte_at-splice bytes off old,
        ),
        w.others,
      )

  -- On an open cache, where every call succeeds, ReadAll gives the content that was inserted, or
  -- the bytes of the inserted stream, in place of all that the file held before.
  pub insert-read_all :
      (id : String) (bytes : List ℕ) (c : ContentCache)
      → c.closed ≡ false
      → ((read_all lib io id (insert lib io id bytes c).1).0 ≡ some bytes)
        × ((read_all lib io id (insert_stream lib io id bytes c).1).0 ≡ some bytes)
  insert-read_all id bytes c z =
      let v = insert-IsWritten id bytes c z in
      let w = insert_stream-IsWritten id bytes c z in
      (
        read-IsWritten id bytes c (insert lib io id bytes c).1 v,
        read-IsWritten id bytes c (insert_stream lib io id bytes c).1 w,
      )
