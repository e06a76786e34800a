-- ===== src/Contents/Writes.antt =====
-- The operations of `ContentCache` (internal/fs/content_cache.go) that change files keep its index
-- consistent.
use onecloudriver.Prelude.{
  ℕ, ◌+◌, String, ◌≡◌, sym, ap, ◌∙◌, true, false, not, none, some, List, length, ltb, is_some,
  eq_iff, arith, Option-cases, inl, inr, by_test,
}
use onecloudriver.Prelude.Int.{pos, ◌-ℤ◌}
use onecloudriver.Prelude.Dict.{Dict, get, remove, get-remove}
use onecloudriver.Inodes.Cache.{has, without_id}
use onecloudriver.Contents.Cache.{
  Naming, Io, DiskFile, EvictEntry, ContentCache, path_of, track_file, forget_eviction_entry,
}
use onecloudriver.Contents.Files.{
  open_cached, file_or_new, set_file, close_fd, close_locked, close, insert, insert_stream,
  write_at, delete_file, forget_removed, size, splice, bytes_of,
}
use onecloudriver.Contents.Accounting.{drop-IsAccounted}
use onecloudriver.Contents.Index.{
  IsIndex, IsConsistent, IsConsistent-IsAccounted, Consistent₁, track_file_info-IsConsistent,
  maybe_evict-IsConsistent, set_file-track_file, open_cached-IsConsistent,
}

-- An entry taken out of the index, its heap and the total; the files may lose that path.
drop-IsConsistent :
    (path : String) (e : EvictEntry) (files : Dict DiskFile) (c : ContentCache)
    → get c.entries path ≡ some e
    → get files path ≡ none
    → ((p : String) → is_some (get files p) ≡ true → is_some (get c.files p) ≡ true)
    → IsConsistent c
    → IsIndex files (remove c.entries path) (without_id c.heap path) (c.total_size -ℤ pos e.size)
drop-IsConsistent path e files c g f s h =
    let a = drop-IsAccounted path e c g (IsConsistent-IsAccounted {c = c} h) in
    record {
      is_map = a.is_map;
      accounted = a.accounted;
      in_heap = a.in_heap;
      indexed = λ p k.
          let j = h.indexed p (s p k) in
          ground (arith, get-remove c.entries path p, f, k, j, eq_iff path p);
    }

forget_removed-IsConsistent :
    (prev : ℕ) (path : String) (files : Dict DiskFile) (c : ContentCache)
    → is_some (get c.entries path) ≡ true
    → get files path ≡ none
    → ((p : String) → is_some (get files p) ≡ true → is_some (get c.files p) ≡ true)
    → IsConsistent c
    → IsConsistent (forget_removed prev path (record c { files = files }))
unfolding forget_eviction_entry
forget_removed-IsConsistent prev path files c g f s h = elim (Option-cases (get c.entries path)) [
  | inl e ↦ let k : false ≡ true = ap is_some (sym e) ∙ g in cc
  | inr (i, e) ↦ rw (forget_eviction_entry, e) (drop-IsConsistent path i files c e f s h)
]

module _ (lib : Naming) (io : Io) (stats : io.stats ≡ true) where
  pub insert-IsConsistent :
      (id : String) (content : List ℕ) (c : ContentCache)
      → io.writes ≡ true
      → IsConsistent c
      → Consistent₁ (insert lib io id content c)
  unfolding insert
  insert-IsConsistent id content c w h =
      let t = set_file-track_file lib io stats id content c h in
      by_test Consistent₁ c.closed (λ _. h)
        λ _.
          by_test Consistent₁ (not io.opens) (λ _. h)
            λ _.
              by_test Consistent₁ (not io.writes) (λ e. cc)
                λ _.
                  by_test Consistent₁
                    (track_file lib io id (set_file (path_of lib c id) content io c)).0
                    (λ _. maybe_evict-IsConsistent _ t) λ _. t

  pub insert_stream-IsConsistent :
      (id : String) (stream : List ℕ) (c : ContentCache)
      → io.writes ≡ true
      → IsConsistent c
      → Consistent₁ (insert_stream lib io id stream c)
  unfolding insert_stream
  insert_stream-IsConsistent id stream c w h =
      let o = open_cached lib io id c in
      let k = open_cached-IsConsistent lib io stats id c h in
      let t = set_file-track_file lib io stats id stream o.1 k in
      by_test Consistent₁ c.closed (λ _. h)
        λ _.
          by_test Consistent₁ (not o.0) (λ _. k)
            λ _.
              by_test Consistent₁ (not io.seeks) (λ _. k)
                λ _.
                  by_test Consistent₁ (not io.truncates) (λ _. k)
                    λ _.
                      by_test Consistent₁ (not io.writes) (λ e. cc)
                        λ _.
                          by_test Consistent₁
                            (track_file lib io id (set_file (path_of lib o.1 id) stream io o.1)).0
                            (λ _. maybe_evict-IsConsistent _ t) λ _. t

  pub write_at-IsConsistent :
      (id : String) (bytes : List ℕ) (off : ℕ) (c : ContentCache)
      → io.writes ≡ true
      → IsConsistent c
      → Consistent₁ (write_at lib io id bytes off c)
  unfolding write_at
  write_at-IsConsistent id bytes off c w h =
      let o = open_cached lib io id c in
      let k = open_cached-IsConsistent lib io stats id c h in
      let path = path_of lib o.1 id in
      let new = splice bytes off (bytes_of (get o.1.files path)) in
      let t = set_file-track_file lib io stats id new o.1 k in
      by_test Consistent₁ c.closed (λ _. h)
        λ _.
          by_test Consistent₁ (not o.0) (λ _. k)
            λ _.
              by_test Consistent₁ (not io.writes) (λ e. cc)
                λ _.
                  by_test Consistent₁ (not (track_file lib io id (set_file path new io o.1)).0)
                    (λ _. t)
                    λ _.
                      by_test IsConsistent (ltb (size lib io id c) (off + length bytes))
                        (λ _.
                          maybe_evict-IsConsistent
                            (track_file lib io id (set_file path new io o.1)).1 t)
                        λ _. t

  pub close_locked-IsConsistent :
      (id : String) (c : ContentCache) → IsConsistent c → Consistent₁ (close_locked lib io id c)
  unfolding close_locked
  close_locked-IsConsistent id c h =
      let path = path_of lib c id in
      let f = file_or_new io (get c.files path) in
      let a = IsConsistent-IsAccounted {c = close_fd id c} h in
      let t =
        track_file_info-IsConsistent id path f (close_fd id c) a
          (λ p g. ground (arith, h.indexed p g)) in
      by_test Consistent₁ (has c.fds id) (λ _. by_test IsConsistent io.stats (λ _. t) λ _. h) λ _. h

  pub close-IsConsistent :
      (id : String) (c : ContentCache) → IsConsistent c → IsConsistent (close lib io id c)
  unfolding close
  close-IsConsistent id c h =
      let k = close_locked-IsConsistent id c h in
      by_test IsConsistent (close_locked lib io id c).0 (λ _. maybe_evict-IsConsistent _ k) λ _. k

  pub delete_file-IsConsistent :
      (prev : ℕ) (path : String) (c : ContentCache)
      → IsConsistent c
      → Consistent₁ (delete_file io prev path c)
  unfolding delete_file
  delete_file-IsConsistent prev path c h = elim (Option-cases (get c.files path)) [
    | inl g ↦
        rw (delete_file, g)
          (by_test Consistent₁ (is_some (get c.entries path))
            (λ k. forget_removed-IsConsistent prev path c.files c k g (λ p m. m) h) λ _. h)
    | inr (f, g) ↦
        rw (delete_file, g)
          (by_test Consistent₁ (io.removes path)
            (λ _.
              forget_removed-IsConsistent prev path (remove c.files path) c
                (h.indexed path (ap is_some g))
                (ground (arith, get-remove c.files path path, eq_iff path path))
                (λ p m. ground (arith, get-remove c.files path p, m)) h)
            λ _. h)
  ]
