-- ===== src/Contents/Index.antt =====
-- The index of `ContentCache` under the operations of internal/fs/content_cache.go: the accounting,
-- and an entry for every file of the directory. `initialize_eviction_index` is how it
-- starts, where the Info of each file succeeds.
use onecloudriver.Prelude.{
  ℕ, String, ◌≡◌, refl, sym, ap, ◌∙◌, true, ◌||◌, not, none, List, eqb, is_some, ◌==◌, eq_iff,
  arith, Option-cases, inl, inr, by_test,
}
use onecloudriver.Prelude.Int.{ℤ, pos}
use onecloudriver.Prelude.Dict
use onecloudriver.Prelude.Dict.{Dict, get, remove, get-put, get-remove}
use onecloudriver.Inodes.Cache.{has, contains_id}
use onecloudriver.Contents.Cache.{
  Naming, Io, DiskFile, EvictEntry, ContentCache, disk_size, path_of, track_file, track_open_file,
  track_file_info,
}
use onecloudriver.Contents.Evict.{maybe_evict}
use onecloudriver.Contents.Files.{open_file, open_cached, file_or_new, set_file}
use onecloudriver.Contents.Accounting.{IsAccounted, sum_sizes, track_file_info-IsAccounted}

-- Every file of the directory has an entry, apart from one path.
abbrev pub IndexedBut : String → ContentCache → Type 0
IndexedBut path c =
    (p : String) → is_some (get c.files p) ≡ true → (path == p || is_some (get c.entries p)) ≡ true

-- The parts of a cache that its index is about: the index is a map, the total is the sum of its
-- sizes, its paths are those of the heap, and every file has an entry.
pub record IsIndex (files : Dict DiskFile) (entries : Dict EvictEntry) (heap : List String)
    (total : ℤ) : Type 0 where
  pub is_map : Dict.IsMap entries
  pub accounted : total ≡ pos (sum_sizes entries)
  pub in_heap : (p : String) → contains_id heap p ≡ is_some (get entries p)
  pub indexed : (p : String) → is_some (get files p) ≡ true → is_some (get entries p) ≡ true

abbrev pub IsConsistent : ContentCache → Type 0
IsConsistent c = IsIndex c.files c.entries c.heap c.total_size

pub IsConsistent-IsAccounted : {c : ContentCache} → IsConsistent c → IsAccounted c
IsConsistent-IsAccounted h = record {
  is_map = h.is_map;
  accounted = h.accounted;
  in_heap = h.in_heap;
}

track_file_info-entries :
    (id path : String) (f : DiskFile) (c : ContentCache) (p : String)
    → is_some (get (track_file_info id path f c).entries p)
      ≡ (path == p || is_some (get c.entries p))
unfolding track_file_info
track_file_info-entries id path f c p =
    let e : EvictEntry = record { id = id; mod_time = f.mod_time; size = disk_size f } in
    let k = get-put c.entries path p e in
    elim (Option-cases (get c.entries path)) [
      | inl g ↦ rw (track_file_info, g) (ground (arith, k))
      | inr (old, g) ↦ rw (track_file_info, g) (ground (arith, k))
    ]

track_file_info-files :
    (id path : String) (f : DiskFile) (c : ContentCache)
    → (track_file_info id path f c).files ≡ c.files
unfolding track_file_info
track_file_info-files id path f c = elim (Option-cases (get c.entries path)) [
  | inl g ↦ rw (track_file_info, g) refl
  | inr (old, g) ↦ rw (track_file_info, g) refl
]

pub track_file_info-IsConsistent :
    (id path : String) (f : DiskFile) (c : ContentCache)
    → IsAccounted c
    → IndexedBut path c
    → IsConsistent (track_file_info id path f c)
track_file_info-IsConsistent id path f c h i =
    let a = track_file_info-IsAccounted id path f c h in
    record {
      is_map = a.is_map;
      accounted = a.accounted;
      in_heap = a.in_heap;
      indexed = λ p g.
          track_file_info-entries id path f c p
          ∙ i p (
              ap (λ (d : Dict DiskFile). is_some (get d p))
                (sym (track_file_info-files id path f c))
              ∙ g);
    }

put-IndexedBut :
    (path : String) (f : DiskFile) (c : ContentCache)
    → IsConsistent c
    → IndexedBut path (record c { files = Dict.put c.files path f })
put-IndexedBut path f c h p g =
    let i = h.indexed p in ground (arith, get-put c.files path p f, g, i)

-- A file written at a path, and tracked.
put-IsConsistent :
    (path : String) (f : DiskFile) (c : ContentCache)
    → IsConsistent c
    → is_some (get c.entries path) ≡ true
    → IsConsistent (record c { files = Dict.put c.files path f })
put-IsConsistent path f c h g = record {
  is_map = h.is_map;
  accounted = h.accounted;
  in_heap = h.in_heap;
  indexed = λ p k.
      let i = h.indexed p in ground (arith, get-put c.files path p f, g, i, k, eq_iff path p);
}

abbrev pub Consistent₁ {ℓ} : {A : Type ℓ} → A × ContentCache → Type 0
Consistent₁ r = IsConsistent r.1

pub IsConsistent-untracked :
    (path : String) (c : ContentCache)
    → IsAccounted c
    → IndexedBut path c
    → get c.files path ≡ none
    → IsConsistent c
IsConsistent-untracked path c a i g = record {
  is_map = a.is_map;
  accounted = a.accounted;
  in_heap = a.in_heap;
  indexed = λ p k. let j = i p k in ground (arith, g, j, k, eq_iff path p);
}

pub maybe_evict-IsConsistent : (c : ContentCache) → IsConsistent c → IsConsistent (maybe_evict c)
unfolding maybe_evict
maybe_evict-IsConsistent c h = by_test IsConsistent (eqb c.max_size 0) (λ _. h) (λ _. h)

module _ (lib : Naming) (io : Io) (stats : io.stats ≡ true) where
  track_file-IsConsistent :
      (id : String) (c : ContentCache)
      → IsAccounted c
      → IndexedBut (path_of lib c id) c
      → Consistent₁ (track_file lib io id c)
  unfolding track_file
  track_file-IsConsistent id c a i =
      let path = path_of lib c id in
      elim (Option-cases (get c.files path)) [
        | inl g ↦ rw (track_file, g) (IsConsistent-untracked path c a i g)
        | inr (f, g) ↦ rw (track_file, g, stats) (track_file_info-IsConsistent id path f c a i)
      ]

  track_open_file-IsConsistent :
      (id : String) (f : DiskFile) (c : ContentCache)
      → IsAccounted c
      → IndexedBut (path_of lib c id) c
      → Consistent₁ (track_open_file lib io id f c)
  unfolding track_open_file
  track_open_file-IsConsistent id f c a i =
      let path = path_of lib c id in
      by_test Consistent₁ (is_some (get c.entries path))
        (λ g. record {
          is_map = a.is_map;
          accounted = a.accounted;
          in_heap = a.in_heap;
          indexed = λ p k. let j = i p k in ground (arith, g, j, eq_iff path p);
        })
        λ _.
          by_test Consistent₁ io.stats (λ _. track_file_info-IsConsistent id path f c a i) λ e. cc

  pub set_file-track_file :
      (id : String) (bytes : List ℕ) (c : ContentCache)
      → IsConsistent c
      → Consistent₁ (track_file lib io id (set_file (path_of lib c id) bytes io c))
  set_file-track_file id bytes c h =
      let path = path_of lib c id in
      let f : DiskFile = record { bytes = bytes; mod_time = io.now } in
      track_file-IsConsistent id (set_file path bytes io c)
        (record { is_map = h.is_map; accounted = h.accounted; in_heap = h.in_heap })
        (put-IndexedBut path f c h)

  pub open_cached-IsConsistent :
      (id : String) (c : ContentCache) → IsConsistent c → Consistent₁ (open_cached lib io id c)
  unfolding open_cached open_file
  open_cached-IsConsistent id c h =
      let path = path_of lib c id in
      let f = file_or_new io (get c.files path) in
      let t =
        track_open_file-IsConsistent id f (open_file lib io id c)
          (record { is_map = h.is_map; accounted = h.accounted; in_heap = h.in_heap })
          (put-IndexedBut path f c h) in
      by_test Consistent₁ (has c.fds id) (λ _. h)
        λ _.
          by_test Consistent₁ (not io.opens) (λ _. h)
            λ _.
              by_test Consistent₁ (track_open_file lib io id f (open_file lib io id c)).0 (λ _. t)
                λ _. t
