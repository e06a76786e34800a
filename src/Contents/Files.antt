-- ===== src/Contents/Files.antt =====
-- The operations of `ContentCache` (internal/fs/content_cache.go). Each runs under the mutex of its
-- ID, and its changes of the index under `evictMu`, so that it is one step here. A descriptor is
-- for the file at its ID's path: that is so while no two IDs share a path.
use onecloudriver.Prelude.{
  ℕ, zero, suc, ◌+◌, String, Bool, true, false, ◌&&◌, not, Option, none, some, List, [], ◌∷◌, ◌++◌,
  length, is_some, ltb, if◌then◌else◌, take, drop,
}
use onecloudriver.Prelude.Int.{ℤ, pos, ◌-ℤ◌, ltb_ℤ}
use onecloudriver.Prelude.Dict
use onecloudriver.Prelude.Dict.{Dict}
use onecloudriver.Inodes.Cache.{has}
use onecloudriver.Contents.Cache.{
  Naming, Io, DiskFile, EvictEntry, ContentCache, disk_size, path_of, content_path, track_file,
  track_open_file, track_file_info, forget_eviction_entry,
}
use onecloudriver.Contents.Evict.{maybe_evict, remove_file}

-- ErrCacheClosed, os.ErrNotExist, and any other error.
pub data Error : Type 0 where
  cache_closed : Error
  not_exist : Error
  io_error : Error

-- The first n bytes of a file, with zeros past its end.
unfoldable pub take_padded : ℕ → List ℕ → List ℕ
take_padded zero xs = []
take_padded (suc n) [] = 0 ∷ take_padded n []
take_padded (suc n) (x ∷ xs) = x ∷ take_padded n xs

-- pwrite(2): an empty write leaves the file alone.
unfoldable pub splice : List ℕ → ℕ → List ℕ → List ℕ
unfolding take_padded drop
splice [] off old = old
splice (x ∷ xs) off old = take_padded off old ++ ((x ∷ xs) ++ drop (off + length (x ∷ xs)) old)

abbrev pub set_file : String → List ℕ → Io → ContentCache → ContentCache
set_file path bytes io c =
    let f : DiskFile = record { bytes = bytes; mod_time = io.now } in
    record c { files = Dict.put c.files path f }

-- The bytes at a path, none where there is no file.
abbrev pub bytes_of : Option DiskFile → List ℕ
bytes_of none = []
bytes_of (some f) = f.bytes

abbrev pub file_or_new : Io → Option DiskFile → DiskFile
file_or_new io none = record { bytes = []; mod_time = io.now }
file_or_new io (some f) = f

abbrev pub close_fd : String → ContentCache → ContentCache
close_fd id c = record c { fds = Dict.remove c.fds id }

-- total > max, under a limit
abbrev pub needs_eviction : ContentCache → Bool
needs_eviction c = ltb 0 c.max_size && ltb_ℤ (pos c.max_size) c.total_size

unfoldable pub is_open : String → ContentCache → Bool
is_open id c = has c.fds id

-- The total after the removal of a file whose entry is given.
abbrev pub subtract_removed : ℕ → Option EvictEntry → ℤ → ℤ
subtract_removed prev none total = total -ℤ pos prev
subtract_removed prev (some e) total = total -ℤ pos e.size

abbrev pub forget_removed : ℕ → String → ContentCache → ContentCache
forget_removed prev path c = record (forget_eviction_entry path c) {
  total_size = subtract_removed prev (Dict.get c.entries path) c.total_size;
}

-- os.Remove and the switch on its error.
unfoldable pub delete_file : Io → ℕ → String → ContentCache → Option Error × ContentCache
unfolding forget_eviction_entry
delete_file io prev path c = elim (Dict.get c.files path) [
  | some _ ↦
      if io.removes path
      then (none, forget_removed prev path (remove_file path c))
      else (some io_error, c)
  | none ↦
      if is_some (Dict.get c.entries path)
      then (some not_exist, forget_removed prev path c)
      else (some not_exist, c)
]

module _ (lib : Naming) where
  -- The state after os.OpenFile and fds.Store.
  unfoldable pub open_file : Io → String → ContentCache → ContentCache
  unfolding content_path
  open_file io id c =
      let path = path_of lib c id in
      record c {
        files = Dict.put c.files path (file_or_new io (Dict.get c.files path));
        fds = Dict.put c.fds id tt;
      }

  unfoldable pub open_cached : Io → String → ContentCache → Bool × ContentCache
  unfolding open_file content_path track_open_file
  open_cached io id c =
      let f = file_or_new io (Dict.get c.files (path_of lib c id)) in
      let (tracked, c') = track_open_file lib io id f (open_file io id c) in
      if has c.fds id
      then (true, c)
      else if not io.opens
      then (false, c)
      else if tracked
      then (true, c')
      else (false, close_fd id c')

  unfoldable pub has_content : Io → String → ContentCache → Bool
  unfolding content_path
  has_content io id c =
      if has c.fds id then true else io.stats && is_some (Dict.get c.files (path_of lib c id))

  unfoldable pub size : Io → String → ContentCache → ℕ
  unfolding content_path
  size io id c = if io.stats then length (bytes_of (Dict.get c.files (path_of lib c id))) else 0

  unfoldable pub insert : Io → String → List ℕ → ContentCache → Option Error × ContentCache
  unfolding content_path track_file maybe_evict take
  insert io id content c =
      let path = path_of lib c id in
      let (tracked, c') = track_file lib io id (set_file path content io c) in
      if c.closed
      then (some cache_closed, c)
      else if not io.opens
      then (some io_error, c)
      else if not io.writes
      then (some io_error, set_file path (take io.written content) io c)
      else if tracked
      then (none, maybe_evict c')
      else (some io_error, c')

  unfoldable pub insert_stream :
      Io → String → List ℕ → ContentCache → (ℕ × Option Error) × ContentCache
  unfolding open_cached content_path track_file maybe_evict take
  insert_stream io id stream c =
      let (opened, c1) = open_cached io id c in
      let path = path_of lib c1 id in
      let (tracked, c2) = track_file lib io id (set_file path stream io c1) in
      if c.closed
      then ((0, some cache_closed), c)
      else if not opened
      then ((0, some io_error), c1)
      else if not io.seeks
      then ((0, some io_error), c1)
      else if not io.truncates
      then ((0, some io_error), c1)
      else if not io.writes
      then ((0, some io_error), set_file path (take io.written stream) io c1)
      else if tracked
      then ((length stream, none), maybe_evict c2)
      else ((length stream, some io_error), c2)

  -- Is an eviction due?
  unfoldable pub close_locked : Io → String → ContentCache → Bool × ContentCache
  unfolding content_path track_file_info
  close_locked io id c =
      let path = path_of lib c id in
      let f = file_or_new io (Dict.get c.files path) in
      let c' = if io.stats then track_file_info id path f (close_fd id c) else close_fd id c in
      if has c.fds id then (needs_eviction c', c') else (false, c)

  unfoldable pub close : Io → String → ContentCache → ContentCache
  unfolding close_locked maybe_evict
  close io id c = let (due, c') = close_locked io id c in if due then maybe_evict c' else c'

  unfoldable pub delete : Io → String → ContentCache → Option Error × ContentCache
  unfolding size close_locked delete_file content_path
  delete io id c =
      let (_, c') = close_locked io id c in
      if c.closed
      then (some cache_closed, c)
      else delete_file io (size io id c) (path_of lib c' id) c'

  unfoldable pub write_at :
      Io → String → List ℕ → ℕ → ContentCache → (ℕ × Option Error) × ContentCache
  unfolding open_cached size content_path track_file maybe_evict splice take
  write_at io id bytes off c =
      let (opened, c1) = open_cached io id c in
      let path = path_of lib c1 id in
      let old = bytes_of (Dict.get c1.files path) in
      let (tracked, c2) = track_file lib io id (set_file path (splice bytes off old) io c1) in
      let grows = ltb (size io id c) (off + length bytes) in
      if c.closed
      then ((0, some cache_closed), c)
      else if not opened
      then ((0, some io_error), c1)
      else if not io.writes
      then (
        (io.written, some io_error),
        set_file path (splice (take io.written bytes) off old) io c1,
      )
      else if not tracked
      then ((length bytes, some io_error), c2)
      else ((length bytes, none), if grows then maybe_evict c2 else c2)

  -- A nil slice is `none`.
  unfoldable pub read_all : Io → String → ContentCache → Option (List ℕ) × ContentCache
  unfolding open_cached content_path
  read_all io id c =
      let (opened, c') = open_cached io id c in
      if opened && io.seeks && io.reads
      then (some (bytes_of (Dict.get c'.files (path_of lib c' id))), c')
      else (none, c')

  -- The name is what os.CreateTemp chooses. The path is empty for an error or an empty file.
  unfoldable pub snapshot :
      Io → String → String → ContentCache → (String × ℕ × Option Error) × ContentCache
  unfolding has_content open_cached content_path
  snapshot io name id c =
      let (opened, c') = open_cached io id c in
      let bytes = bytes_of (Dict.get c'.files (path_of lib c' id)) in
      let kept : ContentCache = record c' { snapshots = Dict.put c'.snapshots name bytes } in
      if not (has_content io id c)
      then (("", 0, some not_exist), c)
      else if not (opened && io.seeks && io.reads && io.writes)
      then (("", 0, some io_error), c')
      else if ltb 0 (length bytes)
      then ((name, length bytes, none), kept)
      else (("", 0, none), c')

  -- The hash and its base64 form are the library's.
  unfoldable pub sum_quick_xor_hash :
      (List ℕ → String) → Io → String → ContentCache → Option String × ContentCache
  unfolding has_content open_cached content_path
  sum_quick_xor_hash hash io id c =
      let (opened, c') = open_cached io id c in
      if not (has_content io id c)
      then (none, c)
      else if opened && io.seeks && io.reads
      then (some (hash (bytes_of (Dict.get c'.files (path_of lib c' id)))), c')
      else (none, c')

unfoldable pub set_max_size : ℕ → ContentCache → ContentCache
set_max_size n c = record c { max_size = n }

unfoldable pub close_all : ContentCache → ContentCache
close_all c = record c { closed = true; fds = [] }

-- A directory that cannot be read gives the tracked total.
unfoldable pub sum_disk : Dict DiskFile → ℕ
sum_disk [] = 0
sum_disk ((_, f) ∷ fs) = disk_size f + sum_disk fs

unfoldable pub total_disk_usage : Io → ContentCache → ℤ
unfolding sum_disk
total_disk_usage io c = if io.reads then pos (sum_disk c.files) else c.total_size
