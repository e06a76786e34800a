-- ===== src/Contents/Start.antt =====
-- The start of a `ContentCache` (internal/fs/content_eviction.go: initializeEvictionIndex;
-- content_cache.go: NewContentCache) over the files of a directory.
use onecloudriver.Prelude.{
  String, ◌≡◌, refl, sym, ap, ◌∙◌, Bool, true, false, none, [], ◌∷◌, is_some, arith, if◌then◌else◌,
  by_test,
}
use onecloudriver.Prelude.Int.{pos}
use onecloudriver.Prelude.Dict
use onecloudriver.Prelude.Dict.{Dict, get, get-put}
use onecloudriver.Inodes.Cache.{contains_id}
use onecloudriver.Contents.Cache.{Naming, DiskFile, EvictEntry, ContentCache, disk_size}
use onecloudriver.Contents.Accounting.{IsAccounted, track_new-IsAccounted, sum_sizes}
use onecloudriver.Contents.Index.{IsConsistent}
use onecloudriver.Contents.Operations.{at_paths, initialize_eviction_index, start_content_cache}

-- The files whose Info succeeds.
unfoldable pub readable : (String → Bool) → Dict DiskFile → Dict DiskFile
readable infos [] = []
readable infos ((name, f) ∷ names) =
    if infos name then (name, f) ∷ readable infos names else readable infos names

readable-all :
    (infos : String → Bool) (names : Dict DiskFile)
    → ((name : String) → infos name ≡ true)
    → readable infos names ≡ names
unfolding readable
readable-all infos [] h = refl
readable-all infos ((name, f) ∷ names) h =
    rw (h name) (ap (λ l. (name, f) ∷ l) (readable-all infos names h))

module _ (lib : Naming) (infos : String → Bool) where
  initialize-entries :
      (names : Dict DiskFile) (c : ContentCache) (p : String)
      → is_some (get (initialize_eviction_index lib infos names c).entries p)
        ≡ is_some (get (at_paths lib c.directory (readable infos names)) p)
  unfolding initialize_eviction_index at_paths get readable
  initialize-entries [] c p = refl
  initialize-entries ((name, f) ∷ names) c p =
      let e : EvictEntry = record { id = name; mod_time = f.mod_time; size = disk_size f } in
      let path = lib.join c.directory name in
      let k = get-put (initialize_eviction_index lib infos names c).entries path p e in
      ground (arith, k, initialize-entries names c p)

  -- A path that none of the files has.
  absent-readable :
      (names : Dict DiskFile) (directory p : String)
      → get (at_paths lib directory names) p ≡ none
      → get (at_paths lib directory (readable infos names)) p ≡ none
  unfolding readable at_paths get
  absent-readable [] directory p g = refl
  absent-readable ((name, f) ∷ names) directory p g =
      ground (arith, g, absent-readable names directory p)

  absent-entry :
      (names : Dict DiskFile) (c : ContentCache) (p : String)
      → get (at_paths lib c.directory names) p ≡ none
      → get (initialize_eviction_index lib infos names c).entries p ≡ none
  absent-entry names c p g =
      let k = initialize-entries names c p in
      ground (arith, k, absent-readable names c.directory p g)

  initialize-IsAccounted :
      (names : Dict DiskFile) (c : ContentCache)
      → Dict.IsMap (at_paths lib c.directory names)
      → IsAccounted (initialize_eviction_index lib infos names c)
  unfolding initialize_eviction_index at_paths contains_id get sum_sizes
  initialize-IsAccounted [] c h = record { is_map = tt; accounted = refl; in_heap = λ p. refl }
  initialize-IsAccounted ((name, f) ∷ names) c (g, h) =
      let rest = initialize-IsAccounted names c h in
      by_test IsAccounted (infos name)
        (λ _.
          track_new-IsAccounted (lib.join c.directory name)
            (record { id = name; mod_time = f.mod_time; size = disk_size f })
            (initialize_eviction_index lib infos names c)
            (absent-entry names c (lib.join c.directory name) g) rest)
        λ _. rest

  initialize-files :
      (names : Dict DiskFile) (c : ContentCache)
      → (initialize_eviction_index lib infos names c).files ≡ c.files
  unfolding initialize_eviction_index
  initialize-files [] c = refl
  initialize-files ((name, f) ∷ names) c =
      by_test (λ (d : ContentCache). d.files ≡ c.files) (infos name) (λ _. initialize-files names c)
        λ _. initialize-files names c

  -- What a start leaves: the files of the directory, and an exact index of the readable ones.
  pub record IsIndexed (directory : String) (names : Dict DiskFile) (c : ContentCache)
      : Type 0 where
    pub files : c.files ≡ at_paths lib directory names
    pub accounted : IsAccounted c
    pub entries :
        (p : String)
        → is_some (get c.entries p)
          ≡ is_some (get (at_paths lib directory (readable infos names)) p)

  start_content_cache-IsIndexed :
      (directory : String) (names : Dict DiskFile)
      → Dict.IsMap (at_paths lib directory names)
      → IsIndexed directory names (start_content_cache lib infos directory names)
  unfolding start_content_cache
  start_content_cache-IsIndexed directory names h =
      let start : ContentCache = record {
        directory = directory;
        files = at_paths lib directory names;
        snapshots = [];
        fds = [];
        max_size = 0;
        total_size = pos 0;
        evicting = false;
        heap = [];
        entries = [];
        closed = false;
      } in
      record {
        files = initialize-files names start;
        accounted = initialize-IsAccounted names start h;
        entries = initialize-entries names start;
      }

  -- A cache that starts over a directory is consistent, where the Info of every file succeeds.
  pub start_content_cache-IsConsistent :
      (directory : String) (names : Dict DiskFile)
      → Dict.IsMap (at_paths lib directory names)
      → ((name : String) → infos name ≡ true)
      → IsConsistent (start_content_cache lib infos directory names)
  start_content_cache-IsConsistent directory names h all =
      let s = start_content_cache-IsIndexed directory names h in
      let r = readable-all infos names all in
      record {
        is_map = s.accounted.is_map;
        accounted = s.accounted.accounted;
        in_heap = s.accounted.in_heap;
        indexed = λ p g.
            s.entries p
            ∙ ap (λ d. is_some (get (at_paths lib directory d) p)) r
            ∙ ap (λ (d : Dict DiskFile). is_some (get d p)) (sym s.files)
            ∙ g;
      }
