-- ===== src/Contents/Runs.antt =====
-- Every run of a `ContentCache` (internal/fs/content_cache.go, content_eviction.go) keeps its index
-- consistent, from the start over any directory.
use onecloudriver.Prelude.{
  ℕ, String, ◌≡◌, Bool, true, ◌&&◌, not, Option, List, [], ◌∷◌, length, ltb, eqb, is_some, eq_iff,
  arith, Bool-cases, inl, inr, All, by_test,
}
use onecloudriver.Prelude.Dict.{get, get-remove}
use onecloudriver.Contents.Cache.{Naming, Io, ContentCache, path_of}
use onecloudriver.Contents.Evict.{evict_by_size, finish_eviction}
use onecloudriver.Contents.Files.{
  Error, open_cached, close_locked, delete, read_all, snapshot, sum_quick_xor_hash, set_max_size,
  close_all, has_content, size, bytes_of,
}
use onecloudriver.Contents.Victims.{Popped, stale, spared, gone, evicted, evict_loop-keeps}
use onecloudriver.Contents.Eviction.{evict_by_size-IsAccounted}
use onecloudriver.Contents.Index.{
  IsConsistent, IsConsistent-IsAccounted, Consistent₁, open_cached-IsConsistent,
}
use onecloudriver.Contents.Writes.{
  insert-IsConsistent, insert_stream-IsConsistent, write_at-IsConsistent, close-IsConsistent,
  close_locked-IsConsistent, delete_file-IsConsistent,
}
use onecloudriver.Contents.Operations.{
  Operation, opens, inserts, streams, writes, closes, deletes, reads, snapshots, hashes, resizes,
  finishes_eviction, forces_eviction, shuts, run, run_all,
}

-- Every file has an entry.
abbrev IsIndexed : ContentCache → Type 0
IsIndexed c = (p : String) → is_some (get c.files p) ≡ true → is_some (get c.entries p) ≡ true

Popped-IsIndexed :
    {lib : Naming} {io : Io} (path : String) (c : ContentCache) (r : Bool × ContentCache)
    → Popped lib io path c r
    → IsIndexed c
    → IsIndexed r.1
Popped-IsIndexed path c _ (stale g) h = h
Popped-IsIndexed path c _ (spared e g s) h = h
Popped-IsIndexed path c _ (gone e g o k) h =
    λ p m. let j = h p m in ground (arith, get-remove c.entries path p, k, j, m, eq_iff path p)
Popped-IsIndexed path c _ (evicted e f g o k s) h = λ p m.
    let j = h p in
    ground (arith, get-remove c.entries path p, get-remove c.files path p, j, m, eq_iff path p)

-- The status of calls that a run needs: `os.Stat` finds a file that is there, and what a write
-- begins it completes. Any other call may fail.
pub record IsReliable (io : Io) : Type 0 where
  pub stats : io.stats ≡ true
  pub writes : io.writes ≡ true

module _ (lib : Naming) (io : Io) where
  evict_by_size-IsConsistent :
      (c : ContentCache) → IsConsistent c → IsConsistent (evict_by_size lib io c)
  unfolding evict_by_size
  evict_by_size-IsConsistent c h =
      let a = evict_by_size-IsAccounted lib io c (IsConsistent-IsAccounted {c = c} h) in
      let r =
        evict_loop-keeps lib io (λ d c'. IsIndexed c')
          (λ d path c' r n s k. Popped-IsIndexed path c' r s k) (length c.heap) [] c h.indexed in
      record {
        is_map = a.is_map;
        accounted = a.accounted;
        in_heap = a.in_heap;
        indexed = elim (Bool-cases (eqb c.max_size 0)) [
          | inl e ↦ rw (evict_by_size, e) h.indexed
          | inr e ↦ rw (evict_by_size, e) r
        ];
      }

  module _ (ok : IsReliable io) where
    delete-IsConsistent :
        (id : String) (c : ContentCache) → IsConsistent c → Consistent₁ (delete lib io id c)
    unfolding delete
    delete-IsConsistent id c h =
        by_test Consistent₁ c.closed (λ _. h)
          λ _.
            delete_file-IsConsistent lib io ok.stats (size lib io id c)
              (path_of lib (close_locked lib io id c).1 id) (close_locked lib io id c).1
              (close_locked-IsConsistent lib io ok.stats id c h)

    run-IsConsistent :
        (o : Operation) (c : ContentCache) → IsConsistent c → IsConsistent (run lib io o c)
    unfolding run read_all snapshot sum_quick_xor_hash set_max_size finish_eviction close_all
    run-IsConsistent (opens id) c h = open_cached-IsConsistent lib io ok.stats id c h
    run-IsConsistent (inserts id b) c h = insert-IsConsistent lib io ok.stats id b c ok.writes h
    run-IsConsistent (streams id b) c h =
        insert_stream-IsConsistent lib io ok.stats id b c ok.writes h
    run-IsConsistent (writes id b off) c h =
        write_at-IsConsistent lib io ok.stats id b off c ok.writes h
    run-IsConsistent (closes id) c h = close-IsConsistent lib io ok.stats id c h
    run-IsConsistent (deletes id) c h = delete-IsConsistent id c h
    run-IsConsistent (reads id) c h =
        let k = open_cached-IsConsistent lib io ok.stats id c h in
        by_test Consistent₁ ((open_cached lib io id c).0 && io.seeks && io.reads) (λ _. k) λ _. k
    run-IsConsistent (snapshots name id) c h =
        let o = open_cached lib io id c in
        let k = open_cached-IsConsistent lib io ok.stats id c h in
        let P = λ (r : (String × ℕ × Option Error) × ContentCache). IsConsistent r.1 in
        by_test P (not (has_content lib io id c)) (λ _. h)
          λ _.
            by_test P (not (o.0 && io.seeks && io.reads && io.writes)) (λ _. k)
              λ _.
                by_test P (ltb 0 (length (bytes_of (get o.1.files (path_of lib o.1 id))))) (λ _. k)
                  λ _. k
    run-IsConsistent (hashes hash id) c h =
        let k = open_cached-IsConsistent lib io ok.stats id c h in
        by_test Consistent₁ (not (has_content lib io id c)) (λ _. h)
          λ _.
            by_test Consistent₁ ((open_cached lib io id c).0 && io.seeks && io.reads) (λ _. k)
              λ _. k
    run-IsConsistent (resizes n) c h = h
    run-IsConsistent finishes_eviction c h =
        by_test IsConsistent c.evicting (λ _. evict_by_size-IsConsistent c h) λ _. h
    run-IsConsistent forces_eviction c h = evict_by_size-IsConsistent c h
    run-IsConsistent shuts c h = h

abbrev ReliableCall : Io × Operation → Type 0
ReliableCall (io, o) = IsReliable io

module _ (lib : Naming) where
  -- Any run of calls and of background evictions keeps the cache consistent: the tracked total is
  -- the sum of the sizes in the index, the index is a map whose paths are those of the heap, and
  -- every file of the directory has an entry. Opening, seeking, truncating, reading and removing may
  -- fail; stat of a file that is there and the completion of a write that began may not.
  pub run_all-IsConsistent :
      (calls : List (Io × Operation)) (c : ContentCache)
      → All ReliableCall calls
      → IsConsistent c
      → IsConsistent (run_all lib calls c)
  unfolding run_all
  run_all-IsConsistent [] c _ h = h
  run_all-IsConsistent ((io, o) ∷ calls) c (r, rs) h =
      run_all-IsConsistent calls (run lib io o c) rs (run-IsConsistent lib io r o c h)
