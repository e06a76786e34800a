-- ===== src/Examples/Files.antt =====
-- A small content cache: internal/fs/content_cache.go, content_eviction.go.
use Prim.Native.String.{◌++◌}
use onecloudriver.Prelude.{
  not, ℕ, ◌-◌, if◌then◌else◌, length, ◌≤◌, String, ◌≡◌, refl, true, false, ◌==◌, ◌⊎◌, none, some,
  List, [], ◌∷◌, take,
}
use onecloudriver.Prelude.Int.{pos, ◌+ℤ◌, ◌-ℤ◌}
use onecloudriver.Prelude.Dict
use onecloudriver.Prelude.Dict.{get}
use onecloudriver.Contents.Cache.{
  content_path, Naming, Io, DiskFile, EvictEntry, ContentCache, any_path,
}
use onecloudriver.Contents.Evict.{evict_by_size, is_over}
use onecloudriver.Contents.Files.{
  insert, insert_stream, write_at, delete, read_all, open_cached, bytes_of, close_all,
}
use onecloudriver.Contents.Operations.{
  Operation, start_content_cache, run_all, at_paths, opens, writes, resizes, forces_eviction,
}
use onecloudriver.Contents.Bytes.{byte_at, covers}
use onecloudriver.Contents.Index.{IsConsistent, IsConsistent-IsAccounted}
use onecloudriver.Contents.Runs.{IsReliable, run_all-IsConsistent}
use onecloudriver.Contents.Start.{start_content_cache-IsConsistent}
use onecloudriver.Contents.Victims.{IsSpared}
use onecloudriver.Contents.Sweep.{evict_by_size-IsSpared}
use onecloudriver.Contents.Ages.{evict_by_size-any_path, evict_by_size-mod_time}
use onecloudriver.Contents.RoundTrip.{IsWorking}
use onecloudriver.Contents.ReadBack.{write_at-read_all, insert-read_all}
use onecloudriver.Contents.Shutdown.{run_all-close_all}
use onecloudriver.Contents.Drift.{insert-delete_total}

abbrev pub naming : Naming
naming = record {
  without_nulls = λ s. s;
  is_local = λ s. true;
  encode_hex = λ s. s;
  join = λ d s. d ++ "/" ++ s;
}

abbrev pub working : Io
working = record {
  opens = true;
  stats = true;
  seeks = true;
  truncates = true;
  reads = true;
  writes = true;
  written = 0;
  removes = λ p. true;
  now = 9;
}

abbrev full_disk : Io
full_disk = record working { writes = false; written = 1 }

abbrev names : Dict.Dict DiskFile
names =
    ("a", record { bytes = 1 ∷ 2 ∷ []; mod_time = 5 })
    ∷ ("b", record { bytes = 3 ∷ 4 ∷ []; mod_time = 7 })
    ∷ []

abbrev pub started : ContentCache
started = start_content_cache naming (λ name. true) "c" names

names-IsMap : Dict.IsMap (at_paths naming "c" names)
unfolding at_paths get
names-IsMap = (refl, (refl, tt))

started-IsConsistent : IsConsistent started
started-IsConsistent =
    start_content_cache-IsConsistent naming (λ name. true) "c" names names-IsMap λ name. refl

-- The Info of "a" fails.
abbrev partial : ContentCache
partial = start_content_cache naming (λ name. not (name == "a")) "c" names

working-IsReliable : IsReliable working
working-IsReliable = record { stats = refl; writes = refl }

pub working-IsWorking : IsWorking working
working-IsWorking = record {
  opens = refl;
  stats = refl;
  seeks = refl;
  truncates = refl;
  reads = refl;
  writes = refl;
}

run_all-IsConsistent_example : IsConsistent (
    run_all naming
      ((working, resizes 3) ∷ (working, writes "a" (7 ∷ []) 4) ∷ (working, forces_eviction) ∷ [])
      started)
run_all-IsConsistent_example =
    run_all-IsConsistent naming
      ((working, resizes 3) ∷ (working, writes "a" (7 ∷ []) 4) ∷ (working, forces_eviction) ∷ [])
      started (working-IsReliable, (working-IsReliable, (working-IsReliable, tt)))
      started-IsConsistent

abbrev limited : ContentCache
limited = record started { max_size = 3 }

limited-IsConsistent : IsConsistent limited
limited-IsConsistent = started-IsConsistent

evict_by_size-IsSpared_example :
    let c' = evict_by_size naming working limited in
    (is_over c' ≡ false)
    ⊎ ((p : String) (e : EvictEntry) → get c'.entries p ≡ some e → IsSpared naming working p e c')
evict_by_size-IsSpared_example =
    evict_by_size-IsSpared naming working limited refl
      (IsConsistent-IsAccounted {c = limited} limited-IsConsistent)

evict_by_size-any_path_example :
    let c = (open_cached naming working "a" limited).1 in
    get (evict_by_size naming working c).files "c/a" ≡ get c.files "c/a"
unfolding any_path open_cached get start_content_cache Dict.put
evict_by_size-any_path_example =
    evict_by_size-any_path naming working (open_cached naming working "a" limited).1 "c/a" refl

evict_by_size-mod_time_example : 5 ≤ 7
unfolding get start_content_cache Dict.put evict_by_size ◌+ℤ◌ Dict.remove ◌-ℤ◌
evict_by_size-mod_time_example =
    evict_by_size-mod_time naming working limited "c/a" "c/b"
      (record { id = "a"; mod_time = 5; size = 2 }) (record { id = "b"; mod_time = 7; size = 2 })
      (IsConsistent-IsAccounted {c = limited} limited-IsConsistent) refl refl refl refl refl

write_at-read_all_example :
    let r = write_at naming working "a" (7 ∷ []) 4 started in
    (r.0 ≡ (1, none))
    × ((content : List ℕ) × ((read_all naming working "a" r.1).0 ≡ some content)
        × (length content ≡ 5)
        × ((k : ℕ)
            → byte_at content k
              ≡ (if covers 4 1 k then byte_at (7 ∷ []) (k - 4) else byte_at (1 ∷ 2 ∷ []) k)))
    × ((p : String) → ("c/a" == p) ≡ false → get r.1.files p ≡ get started.files p)
unfolding start_content_cache content_path get
write_at-read_all_example =
    write_at-read_all naming working working-IsWorking "a" (7 ∷ []) 4 started refl

insert-read_all_example :
    ((read_all naming working "a" (insert naming working "a" (8 ∷ []) started).1).0 ≡ some (8 ∷ []))
    × ((read_all naming working "a" (insert_stream naming working "a" (8 ∷ []) started).1).0
        ≡ some (8 ∷ []))
unfolding start_content_cache
insert-read_all_example = insert-read_all naming working working-IsWorking "a" (8 ∷ []) started refl

run_all-close_all_example :
    let calls : List (Io × Operation) = (working, opens "z") ∷ (working, forces_eviction) ∷ [] in
    let c' = run_all naming calls (close_all limited) in
    (c'.closed ≡ true)
    × ((p : String) → (get c'.files p ≡ get limited.files p) ⊎ (bytes_of (get c'.files p) ≡ []))
run_all-close_all_example =
    run_all-close_all naming ((working, opens "z") ∷ (working, forces_eviction) ∷ []) limited

insert-delete_total_example :
    let c' = (delete naming working "z" (insert naming full_disk "z" (6 ∷ 6 ∷ []) started).1).1 in
    (c'.total_size ≡ pos 4 -ℤ pos 1) × (c'.entries ≡ started.entries)
unfolding start_content_cache get Dict.put content_path Dict.remove ◌+ℤ◌ take
insert-delete_total_example =
    insert-delete_total naming full_disk working "z" (6 ∷ 6 ∷ []) started refl refl refl refl refl
      refl refl
