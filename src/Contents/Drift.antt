-- ===== src/Contents/Drift.antt =====
-- Where the total of a `ContentCache` leaves the sum of its index (internal/fs/content_cache.go:
-- Delete): a file that Insert began and did not complete is on the disk and not in the index.
use mathlib.Core.Path.{subst}
use onecloudriver.Prelude.{
  ℕ, String, ◌≡◌, refl, sym, ap, ◌∙◌, Bool, true, false, none, some, List, length, if◌then◌else◌,
  take,
}
use onecloudriver.Prelude.Int.{pos, ◌-ℤ◌}
use onecloudriver.Prelude.Dict.{get}
use onecloudriver.Inodes.Cache.{has}
use onecloudriver.Contents.Cache.{
  Naming, Io, DiskFile, ContentCache, path_of, forget_eviction_entry,
}
use onecloudriver.Contents.Files.{
  cache_closed, io_error, insert, delete, delete_file, close_locked, set_file, size, bytes_of,
}
use onecloudriver.Contents.RoundTrip.{get-put_same}

module _ (lib : Naming) (io io' : Io) (id : String) (content : List ℕ) (c : ContentCache) where
  insert_failed :
      c.closed ≡ false
      → io.opens ≡ true
      → io.writes ≡ false
      → insert lib io id content c
        ≡ (some io_error, set_file (path_of lib c id) (take io.written content) io c)
  unfolding insert
  insert_failed z o w = rw (insert, z, o, w) refl

  close-unopened :
      (d : ContentCache) → has d.fds id ≡ false → close_locked lib io' id d ≡ (false, d)
  unfolding close_locked
  close-unopened d f = rw (close_locked, f) refl

  delete_file-unindexed :
      (prev : ℕ) (path : String) (d : ContentCache) {file : DiskFile}
      → get d.files path ≡ some file
      → io'.removes path ≡ true
      → get d.entries path ≡ none
      → let d' = (delete_file io' prev path d).1 in
        (d'.total_size ≡ d.total_size -ℤ pos prev) × (d'.entries ≡ d.entries)
  unfolding delete_file forget_eviction_entry
  delete_file-unindexed prev path d k r e =
      rw (delete_file, k, r, forget_eviction_entry, e) (refl, refl)

  delete-unopened :
      (d : ContentCache)
      → d.closed ≡ false
      → has d.fds id ≡ false
      → delete lib io' id d ≡ delete_file io' (size lib io' id d) (path_of lib d id) d
  unfolding delete
  delete-unopened d z f =
      ap
        (λ (q : Bool).
          if q
          then (some cache_closed, d)
          else (let c' = (close_locked lib io' id d).1 in
              delete_file io' (size lib io' id d) (path_of lib c' id) c'))
        z
      ∙ ap
          (λ (x : Bool × ContentCache).
            delete_file io' (size lib io' id d) (path_of lib x.1 id) x.1)
          (close-unopened d f)

  delete-unindexed :
      (d : ContentCache) {file : DiskFile}
      → d.closed ≡ false
      → has d.fds id ≡ false
      → io'.stats ≡ true
      → get d.files (path_of lib d id) ≡ some file
      → io'.removes (path_of lib d id) ≡ true
      → get d.entries (path_of lib d id) ≡ none
      → let d' = (delete lib io' id d).1 in
        (d'.total_size ≡ d.total_size -ℤ pos (size lib io' id d)) × (d'.entries ≡ d.entries)
  delete-unindexed d z f s k r e =
      subst
        (λ x.
          (x.1.total_size ≡ d.total_size -ℤ pos (size lib io' id d)) × (x.1.entries ≡ d.entries))
        (sym (delete-unopened d z f))
        (delete_file-unindexed (size lib io' id d) (path_of lib d id) d k r e)

  -- An Insert into an ID with no descriptor and no index entry that fails after some bytes, and a
  -- Delete of that ID: the Delete takes the size of what was written off the total, which never
  -- counted it, and leaves the index as it was.
  pub insert-delete_total :
      c.closed ≡ false
      → io.opens ≡ true
      → io.writes ≡ false
      → io'.stats ≡ true
      → io'.removes (path_of lib c id) ≡ true
      → has c.fds id ≡ false
      → get c.entries (path_of lib c id) ≡ none
      → let c' = (delete lib io' id (insert lib io id content c).1).1 in
        (c'.total_size ≡ c.total_size -ℤ pos (length (take io.written content)))
        × (c'.entries ≡ c.entries)
  unfolding size
  insert-delete_total z o w s r f e =
      let path = path_of lib c id in
      let file : DiskFile = record { bytes = take io.written content; mod_time = io.now } in
      let d = set_file path (take io.written content) io c in
      let k = get-put_same c.files path file in
      let n : size lib io' id d ≡ length (take io.written content) =
        rw s (ap (λ q. length (bytes_of q)) k) in
      let t = delete-unindexed d z f s k r e in
      rw (insert_failed z o w) (t.0 ∙ ap (λ q. c.total_size -ℤ pos q) n, t.1)
