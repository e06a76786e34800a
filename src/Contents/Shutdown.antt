-- ===== src/Contents/Shutdown.antt =====
-- A `ContentCache` after CloseAll (internal/fs/content_cache.go): what writes is refused, and no
-- call puts a byte into a file.
use mathlib.Core.Path.{subst}
use onecloudriver.Prelude.{
  ℕ, String, ◌≡◌, refl, sym, ap, ◌∙◌, Bool, true, ◌&&◌, not, ◌⊎◌, Option, none, some, List, [], ◌∷◌,
  length, ltb, eqb, is_some, ◌==◌, eq_iff, arith, Bool-cases, inl, inr, by_test,
}
use onecloudriver.Prelude.Dict
use onecloudriver.Prelude.Dict.{Dict, get, get-put, get-remove}
use onecloudriver.Inodes.Cache.{has}
use onecloudriver.Contents.Cache.{Naming, Io, DiskFile, ContentCache, path_of, track_open_file}
use onecloudriver.Contents.Evict.{evict_by_size, finish_eviction}
use onecloudriver.Contents.Files.{
  Error, cache_closed, open_cached, open_file, insert, insert_stream, write_at, delete, close,
  close_locked, close_fd, read_all, snapshot, sum_quick_xor_hash, set_max_size, close_all,
  has_content, bytes_of, file_or_new,
}
use onecloudriver.Contents.Victims.{Popped, stale, spared, gone, evicted, evict_loop-keeps}
use onecloudriver.Contents.RoundTrip.{SameFiles, SameFiles-track_file_info, SameFiles-maybe_evict}
use onecloudriver.Contents.Operations.{
  Operation, opens, inserts, streams, writes, closes, deletes, reads, snapshots, hashes, resizes,
  finishes_eviction, forces_eviction, shuts, run, run_all,
}

-- Closed before and after, and each file holds what it held or nothing.
record IsFrozen (c c' : ContentCache) : Type 0 where
  closed : c'.closed ≡ c.closed
  files : (p : String) → (get c'.files p ≡ get c.files p) ⊎ (bytes_of (get c'.files p) ≡ [])

IsFrozen-refl : (c : ContentCache) → IsFrozen c c
IsFrozen-refl c = record { closed = refl; files = λ p. inl refl }

IsFrozen-trans : {c d e : ContentCache} → IsFrozen c d → IsFrozen d e → IsFrozen c e
IsFrozen-trans h k = record {
  closed = k.closed ∙ h.closed;
  files = λ p. elim (k.files p) [
    | inl x ↦ elim (h.files p) [ inl y ↦ inl (x ∙ y) | inr y ↦ inr (ap bytes_of x ∙ y) ]
    | inr x ↦ inr x
  ];
}

SameFiles-IsFrozen : {c d : ContentCache} → SameFiles c d → IsFrozen c d
SameFiles-IsFrozen s = record { closed = s.closed; files = λ p. inl (ap (λ f. get f p) s.files) }

module _ (lib : Naming) (io : Io) where
  new_file :
      (o : Option DiskFile)
      → (some (file_or_new io o) ≡ o) ⊎ (bytes_of (some (file_or_new io o)) ≡ [])
  new_file none = inr refl
  new_file (some f) = inl refl

  open_file-IsFrozen : (id : String) (c : ContentCache) → IsFrozen c (open_file lib io id c)
  unfolding open_file
  open_file-IsFrozen id c =
      let path = path_of lib c id in
      let f = file_or_new io (get c.files path) in
      record {
        closed = refl;
        files = λ p. elim (Bool-cases (path == p)) [
          | inl e ↦
              let q : path ≡ p = ground (arith, eq_iff path p, e) in
              let k : get (Dict.put c.files path f) p ≡ some f =
                ground (arith, get-put c.files path p f, e) in
              elim (new_file (get c.files path)) [
                | inl x ↦ inl (k ∙ (x ∙ ap (get c.files) q))
                | inr x ↦ inr (ap bytes_of k ∙ x)
              ]
          | inr e ↦ inl (ground (arith, get-put c.files path p f, e))
        ];
      }

  track_open_file-IsFrozen :
      (id : String) (f : DiskFile) (c : ContentCache) → IsFrozen c (track_open_file lib io id f c).1
  unfolding track_open_file
  track_open_file-IsFrozen id f c =
      let P : Bool × ContentCache → Type 0 = λ r. IsFrozen c r.1 in
      by_test P (is_some (get c.entries (path_of lib c id))) (λ _. IsFrozen-refl c)
        λ _.
          by_test P io.stats
            (λ _. SameFiles-IsFrozen (SameFiles-track_file_info id (path_of lib c id) f c))
            λ _. IsFrozen-refl c

  open_cached-IsFrozen : (id : String) (c : ContentCache) → IsFrozen c (open_cached lib io id c).1
  unfolding open_cached
  open_cached-IsFrozen id c =
      let P : Bool × ContentCache → Type 0 = λ r. IsFrozen c r.1 in
      let f = file_or_new io (get c.files (path_of lib c id)) in
      let t = track_open_file lib io id f (open_file lib io id c) in
      let k =
        IsFrozen-trans (open_file-IsFrozen id c)
          (track_open_file-IsFrozen id f (open_file lib io id c)) in
      by_test P (has c.fds id) (λ _. IsFrozen-refl c)
        λ _.
          by_test P (not io.opens) (λ _. IsFrozen-refl c)
            λ _. by_test P t.0 (λ _. k) λ _. record { closed = k.closed; files = k.files }

  close_locked-IsFrozen : (id : String) (c : ContentCache) → IsFrozen c (close_locked lib io id c).1
  unfolding close_locked
  close_locked-IsFrozen id c =
      let path = path_of lib c id in
      let f = file_or_new io (get c.files path) in
      let P : Bool × ContentCache → Type 0 = λ r. IsFrozen c r.1 in
      let s = SameFiles-IsFrozen (SameFiles-track_file_info id path f (close_fd id c)) in
      by_test P (has c.fds id)
        (λ _.
          by_test (IsFrozen c) io.stats (λ _. record { closed = s.closed; files = s.files })
            λ _. record { closed = refl; files = λ p. inl refl })
        λ _. IsFrozen-refl c

  Popped-IsFrozen :
      (c₀ : ContentCache) (path : String) (c : ContentCache) (r : Bool × ContentCache)
      → Popped lib io path c r
      → IsFrozen c₀ c
      → IsFrozen c₀ r.1
  Popped-IsFrozen c₀ path c _ (stale g) h = record { closed = h.closed; files = h.files }
  Popped-IsFrozen c₀ path c _ (spared e g s) h = record { closed = h.closed; files = h.files }
  Popped-IsFrozen c₀ path c _ (gone e g o k) h = record { closed = h.closed; files = h.files }
  Popped-IsFrozen c₀ path c _ (evicted e f g o k s) h = record {
    closed = h.closed;
    files = λ p. elim (Bool-cases (path == p)) [
      | inl x ↦
          let n : get (Dict.remove c.files path) p ≡ none =
            ground (arith, get-remove c.files path p, x) in
          inr (ap bytes_of n)
      | inr x ↦
          let n : get (Dict.remove c.files path) p ≡ get c.files p =
            ground (arith, get-remove c.files path p, x) in
          elim (h.files p) [ inl y ↦ inl (n ∙ y) | inr y ↦ inr (ap bytes_of n ∙ y) ]
    ];
  }

  evict_by_size-IsFrozen : (c : ContentCache) → IsFrozen c (evict_by_size lib io c)
  unfolding evict_by_size
  evict_by_size-IsFrozen c =
      let r =
        evict_loop-keeps lib io (λ d c'. IsFrozen c c')
          (λ d path c' r n s k. Popped-IsFrozen c path c' r s k) (length c.heap) [] c
          (IsFrozen-refl c) in
      by_test (IsFrozen c) (eqb c.max_size 0) (λ _. IsFrozen-refl c)
        λ _. record { closed = r.closed; files = r.files }

  -- On a closed cache, Insert, InsertStream, WriteAt and Delete fail with ErrCacheClosed and leave
  -- the cache as it is.
  pub closed-cache_closed :
      (id : String) (bytes : List ℕ) (off : ℕ) (c : ContentCache)
      → c.closed ≡ true
      → (insert lib io id bytes c ≡ (some cache_closed, c))
        × (insert_stream lib io id bytes c ≡ ((0, some cache_closed), c))
        × (write_at lib io id bytes off c ≡ ((0, some cache_closed), c))
        × (delete lib io id c ≡ (some cache_closed, c))
  unfolding insert insert_stream write_at delete
  closed-cache_closed id bytes off c h = (rw h refl, rw h refl, rw h refl, rw h refl)

  refused-IsFrozen :
      {A : Type 0} {x : A} (c : ContentCache) (r : A × ContentCache) → r ≡ (x, c) → IsFrozen c r.1
  refused-IsFrozen c r e = subst (λ s. IsFrozen c s.1) (sym e) (IsFrozen-refl c)

  run-IsFrozen : (o : Operation) (c : ContentCache) → c.closed ≡ true → IsFrozen c (run lib io o c)
  unfolding run read_all snapshot sum_quick_xor_hash set_max_size finish_eviction close_all close
  run-IsFrozen (opens id) c h = open_cached-IsFrozen id c
  run-IsFrozen (inserts id b) c h =
      refused-IsFrozen c (insert lib io id b c) (closed-cache_closed id b 0 c h).0
  run-IsFrozen (streams id b) c h =
      refused-IsFrozen c (insert_stream lib io id b c) (closed-cache_closed id b 0 c h).1
  run-IsFrozen (writes id b off) c h =
      refused-IsFrozen c (write_at lib io id b off c) (closed-cache_closed id b off c h).2
  run-IsFrozen (closes id) c h =
      let k = close_locked-IsFrozen id c in
      by_test (IsFrozen c) (close_locked lib io id c).0
        (λ _.
          IsFrozen-trans k
            (SameFiles-IsFrozen (SameFiles-maybe_evict (close_locked lib io id c).1)))
        λ _. k
  run-IsFrozen (deletes id) c h =
      refused-IsFrozen c (delete lib io id c) (closed-cache_closed id [] 0 c h).3
  run-IsFrozen (reads id) c h =
      by_test (λ (r : Option (List ℕ) × ContentCache). IsFrozen c r.1)
        ((open_cached lib io id c).0 && io.seeks && io.reads) (λ _. open_cached-IsFrozen id c)
        λ _. open_cached-IsFrozen id c
  run-IsFrozen (snapshots name id) c h =
      let o = open_cached lib io id c in
      let k = open_cached-IsFrozen id c in
      let P : (String × ℕ × Option Error) × ContentCache → Type 0 = λ r. IsFrozen c r.1 in
      by_test P (not (has_content lib io id c)) (λ _. IsFrozen-refl c)
        λ _.
          by_test P (not (o.0 && io.seeks && io.reads && io.writes)) (λ _. k)
            λ _.
              by_test P (ltb 0 (length (bytes_of (get o.1.files (path_of lib o.1 id)))))
                (λ _. record { closed = k.closed; files = k.files }) λ _. k
  run-IsFrozen (hashes hash id) c h =
      let k = open_cached-IsFrozen id c in
      let P : Option String × ContentCache → Type 0 = λ r. IsFrozen c r.1 in
      by_test P (not (has_content lib io id c)) (λ _. IsFrozen-refl c)
        λ _. by_test P ((open_cached lib io id c).0 && io.seeks && io.reads) (λ _. k) λ _. k
  run-IsFrozen (resizes n) c h = record { closed = refl; files = λ p. inl refl }
  run-IsFrozen finishes_eviction c h =
      let k = evict_by_size-IsFrozen c in
      by_test (IsFrozen c) c.evicting (λ _. record { closed = k.closed; files = k.files })
        λ _. IsFrozen-refl c
  run-IsFrozen forces_eviction c h = evict_by_size-IsFrozen c
  run-IsFrozen shuts c h = record { closed = sym h; files = λ p. inl refl }

module _ (lib : Naming) where
  run_all-IsFrozen :
      (calls : List (Io × Operation)) (c : ContentCache)
      → c.closed ≡ true
      → IsFrozen c (run_all lib calls c)
  unfolding run_all
  run_all-IsFrozen [] c h = IsFrozen-refl c
  run_all-IsFrozen ((io, o) ∷ calls) c h =
      let k = run-IsFrozen lib io o c h in
      IsFrozen-trans k (run_all-IsFrozen calls (run lib io o c) (k.closed ∙ h))

  -- After CloseAll, whatever calls and evictions follow and whichever of their system calls fail,
  -- the cache stays closed, and the file at each path either is what it was or is gone or empty.
  pub run_all-close_all :
      (calls : List (Io × Operation)) (c : ContentCache)
      → let c' = run_all lib calls (close_all c) in
        (c'.closed ≡ true)
        × ((p : String) → (get c'.files p ≡ get c.files p) ⊎ (bytes_of (get c'.files p) ≡ []))
  unfolding close_all
  run_all-close_all calls c =
      let k = run_all-IsFrozen calls (close_all c) refl in (k.closed, k.files)
