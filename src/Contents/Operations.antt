-- ===== src/Contents/Operations.antt =====
-- The calls of a `ContentCache` (internal/fs/content_cache.go, content_eviction.go) and their runs.
-- The background eviction is a step of its own: it runs at any time after the call that asked for
-- it. Also the start of a cache over the files that an earlier process left.
use onecloudriver.Prelude.{
  ℕ, String, Bool, false, ◌&&◌, Option, none, some, List, [], ◌∷◌, if◌then◌else◌,
}
use onecloudriver.Prelude.Int.{pos, ◌+ℤ◌}
use onecloudriver.Prelude.Dict
use onecloudriver.Prelude.Dict.{Dict}
use onecloudriver.Contents.Cache.{Naming, Io, DiskFile, EvictEntry, ContentCache, disk_size}
use onecloudriver.Contents.Evict.{evict_by_size, finish_eviction}
use onecloudriver.Contents.Files.{
  open_cached, insert, insert_stream, close, delete, write_at, read_all, snapshot,
  sum_quick_xor_hash, set_max_size, close_all,
}

pub data Operation : Type 0 where
  opens : String → Operation
  inserts : String → List ℕ → Operation
  streams : String → List ℕ → Operation
  writes : String → List ℕ → ℕ → Operation
  closes : String → Operation
  deletes : String → Operation
  reads : String → Operation
  snapshots : String → String → Operation
  hashes : (List ℕ → String) → String → Operation
  resizes : ℕ → Operation
  finishes_eviction : Operation
  forces_eviction : Operation
  shuts : Operation

module _ (lib : Naming) where
  unfoldable pub run : Io → Operation → ContentCache → ContentCache
  unfolding open_cached insert insert_stream write_at close delete read_all snapshot
      sum_quick_xor_hash set_max_size finish_eviction evict_by_size close_all
  run io (opens id) c = (open_cached lib io id c).1
  run io (inserts id content) c = (insert lib io id content c).1
  run io (streams id stream) c = (insert_stream lib io id stream c).1
  run io (writes id bytes off) c = (write_at lib io id bytes off c).1
  run io (closes id) c = close lib io id c
  run io (deletes id) c = (delete lib io id c).1
  run io (reads id) c = (read_all lib io id c).1
  run io (snapshots name id) c = (snapshot lib io name id c).1
  run io (hashes hash id) c = (sum_quick_xor_hash lib hash io id c).1
  run io (resizes n) c = set_max_size n c
  run io finishes_eviction c = finish_eviction lib io c
  run io forces_eviction c = evict_by_size lib io c
  run io shuts c = close_all c

  unfoldable pub run_all : List (Io × Operation) → ContentCache → ContentCache
  unfolding run
  run_all [] c = c
  run_all ((io, o) ∷ os) c = run_all os (run io o c)

  -- The files of a directory, under their paths.
  unfoldable pub at_paths : String → Dict DiskFile → Dict DiskFile
  at_paths directory [] = []
  at_paths directory ((name, f) ∷ fs) = (lib.join directory name, f) ∷ at_paths directory fs

  -- initializeEvictionIndex over the files that ReadDir lists: an entry for each of which Info
  -- succeeds; the others are skipped.
  unfoldable pub initialize_eviction_index :
      (String → Bool) → Dict DiskFile → ContentCache → ContentCache
  initialize_eviction_index infos [] c = record c { entries = []; heap = []; total_size = pos 0 }
  initialize_eviction_index infos ((name, f) ∷ fs) c =
      let path = lib.join c.directory name in
      let c' = initialize_eviction_index infos fs c in
      let entry : EvictEntry = record { id = name; mod_time = f.mod_time; size = disk_size f } in
      if infos name
      then record c' {
        entries = Dict.put c'.entries path entry;
        heap = path ∷ c'.heap;
        total_size = c'.total_size +ℤ pos entry.size;
      }
      else c'

  -- The cache that NewContentCache makes over the files of a directory.
  unfoldable pub start_content_cache : (String → Bool) → String → Dict DiskFile → ContentCache
  unfolding initialize_eviction_index at_paths
  start_content_cache infos directory names = initialize_eviction_index infos names (record {
    directory = directory;
    files = at_paths directory names;
    snapshots = [];
    fds = [];
    max_size = 0;
    total_size = pos 0;
    evicting = false;
    heap = [];
    entries = [];
    closed = false;
  })

  -- NewContentCache: do MkdirAll and ReadDir succeed, and for which names does Info?
  unfoldable pub new_content_cache :
      Bool → Bool → (String → Bool) → String → Dict DiskFile → Option ContentCache
  unfolding start_content_cache
  new_content_cache made listed infos directory names =
      if made && listed then some (start_content_cache infos directory names) else none
