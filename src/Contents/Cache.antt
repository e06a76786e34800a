-- ===== src/Contents/Cache.antt =====
-- The state of `ContentCache` (internal/fs/content_cache.go) and its index of files
-- (content_eviction.go). The disk is a dictionary from paths to files, of the cache's directory
-- alone; a subdirectory (the snapshots) is another one.
use Prim.Native.String.{compare}
use text.Mathlib.Text.{is_le}
use onecloudriver.Prelude.{
  ℕ, String, Bool, true, false, ◌&&◌, ◌||◌, not, Option, none, some, List, [], ◌∷◌, length, is_some,
  ltb, eqb, ◌==◌, if◌then◌else◌,
}
use onecloudriver.Prelude.Int.{ℤ, pos, ◌+ℤ◌, ◌-ℤ◌}
use onecloudriver.Prelude.Dict
use onecloudriver.Prelude.Dict.{Dict}
use onecloudriver.Inodes.Cache.{StringSet, has, contains_id, without_id}

-- What the cache uses of the library to make a file name of an ID: strings.ReplaceAll of null
-- bytes, filepath.IsLocal, hex.EncodeToString and filepath.Join.
pub record Naming : Type 0 where
  pub without_nulls : String → String
  pub is_local : String → Bool
  pub encode_hex : String → String
  pub join : String → String → String

-- Which system calls of an operation succeed, and the time that it stamps on files. A write that
-- fails has written the first `written` bytes. A file that is not there cannot be removed in any
-- case.
pub record Io : Type 0 where
  pub opens : Bool
  pub stats : Bool
  pub seeks : Bool
  pub truncates : Bool
  pub reads : Bool
  pub writes : Bool
  pub written : ℕ
  pub removes : String → Bool
  pub now : ℕ

-- The bytes of a file and its modification time.
pub record DiskFile : Type 0 where
  pub bytes : List ℕ
  pub mod_time : ℕ

-- An `evictEntry`; its path is the key, and its place in the heap is that of the path.
pub record EvictEntry : Type 0 where
  pub id : String
  pub mod_time : ℕ
  pub size : ℕ

-- `fds` holds the IDs with an open descriptor, `heap` the paths of the entries in the heap.
-- `evicting` is the flag of a running eviction. `max_size` is 0 for no limit.
pub record ContentCache : Type 0 where
  pub directory : String
  pub files : Dict DiskFile
  pub snapshots : Dict (List ℕ)
  pub fds : StringSet
  pub max_size : ℕ
  pub total_size : ℤ
  pub evicting : Bool
  pub heap : List String
  pub entries : Dict EvictEntry
  pub closed : Bool

unfoldable pub content_path : Naming → String → String → String
content_path lib directory id =
    let safe = lib.without_nulls id in
    lib.join directory (if lib.is_local safe then safe else lib.encode_hex id)

-- evictHeap.Less: the older file, and the path for a tie.
unfoldable pub older : EvictEntry → String → EvictEntry → String → Bool
older a p b q =
    if eqb a.mod_time b.mod_time then not (is_le (compare q p)) else ltb a.mod_time b.mod_time

abbrev pub older_of : Option EvictEntry → String → Option EvictEntry → String → Bool
older_of none p o q = true
older_of (some a) p none q = false
older_of (some a) p (some b) q = older a p b q

abbrev pub is_older : Dict EvictEntry → String → String → Bool
is_older entries p q = older_of (Dict.get entries p) p (Dict.get entries q) q

-- The path at the top of the heap.
unfoldable pub oldest : Dict EvictEntry → List String → Option String
unfolding older
oldest entries [] = none
oldest entries (p ∷ ps) = elim (oldest entries ps) [
  | none ↦ some p
  | some q ↦ if is_older entries p q then some p else some q
]

abbrev pub disk_size : DiskFile → ℕ
disk_size f = length f.bytes

-- heap.Push of an entry, unless it is in the heap and only moves (heap.Fix).
abbrev pub push : String → List String → List String
push p heap = if contains_id heap p then heap else p ∷ heap

-- trackFileInfoLocked
unfoldable pub track_file_info : String → String → DiskFile → ContentCache → ContentCache
unfolding contains_id
track_file_info id path info c =
    let size = disk_size info in
    let entry : EvictEntry = record { id = id; mod_time = info.mod_time; size = size } in
    elim (Dict.get c.entries path) [
      | none ↦ record c {
        entries = Dict.put c.entries path entry;
        heap = path ∷ c.heap;
        total_size = c.total_size +ℤ pos size;
      }
      | some old ↦ record c {
        entries = Dict.put c.entries path entry;
        heap = push path c.heap;
        total_size = c.total_size +ℤ (pos size -ℤ pos old.size);
      }
    ]

-- forgetEvictionEntryLocked
unfoldable pub forget_eviction_entry : String → ContentCache → ContentCache
unfolding without_id
forget_eviction_entry path c =
    if is_some (Dict.get c.entries path)
    then record c { heap = without_id c.heap path; entries = Dict.remove c.entries path }
    else c

module _ (lib : Naming) where
  abbrev pub path_of : ContentCache → String → String
  path_of c id = content_path lib c.directory id

  -- trackFileLocked: false for an error of `os.Stat`.
  unfoldable pub track_file : Io → String → ContentCache → Bool × ContentCache
  unfolding track_file_info content_path
  track_file io id c =
      let path = path_of c id in
      elim (Dict.get c.files path) [
        | none ↦ (false, c)
        | some f ↦ if io.stats then (true, track_file_info id path f c) else (false, c)
      ]

  -- trackOpenFileLocked
  unfoldable pub track_open_file : Io → String → DiskFile → ContentCache → Bool × ContentCache
  unfolding track_file_info content_path
  track_open_file io id f c =
      let path = path_of c id in
      if is_some (Dict.get c.entries path)
      then (true, c)
      else if io.stats
      then (true, track_file_info id path f c)
      else (false, c)

  -- The c.fds.Range of evictEntryIsOpen.
  unfoldable pub any_path : String → StringSet → String → Bool
  unfolding content_path
  any_path directory [] path = false
  any_path directory ((id, _) ∷ ids) path =
      content_path lib directory id == path || any_path directory ids path

  -- evictEntryIsOpen: by the logical ID, or by the path of any open ID.
  unfoldable pub evict_entry_is_open : String → EvictEntry → ContentCache → Bool
  unfolding any_path
  evict_entry_is_open path e c =
      (not (e.id == "") && has c.fds e.id) || any_path c.directory c.fds path
