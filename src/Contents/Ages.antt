-- ===== src/Contents/Ages.antt =====
-- Which files `evictBySize` (internal/fs/content_eviction.go) takes: none that is open, and the
-- oldest ones first.
use onecloudriver.Prelude.{
  ℕ, ◌≤◌, String, ◌≡◌, refl, sym, ap, ◌∙◌, Bool, true, false, ◌&&◌, not, none, some, List, [],
  length, eqb, or_false, ◌==◌, eq_iff, arith, Bool-cases, inl, inr,
}
use onecloudriver.Prelude.Dict.{get, get-remove}
use onecloudriver.Inodes.Cache.{has, contains_id}
use onecloudriver.Contents.Cache.{
  Naming, Io, EvictEntry, ContentCache, any_path, evict_entry_is_open,
}
use onecloudriver.Contents.Evict.{
  drop_entry, remove_file, pop, next_victim, evict_loop, push_back, evict_by_size,
}
use onecloudriver.Contents.Accounting.{IsAccounted, contains_id-without_id}
use onecloudriver.Contents.Oldest.{oldest-IsOldest}
use onecloudriver.Contents.Victims.{
  next_victim-oldest, Popped, stale, spared, gone, evicted, evict_loop-keeps,
}
use onecloudriver.Contents.Eviction.{
  contains_id-append, IsAccounted-IsAccountedFor, evict_loop-IsAccounted,
}
use onecloudriver.Contents.Sweep.{AreSpared, evict_loop-AreSpared}

module _ (lib : Naming) (io : Io) where
  -- The descriptors stay, and so do the files that they are for.
  record KeepsOpen (c c' : ContentCache) : Type 0 where
    directory : c'.directory ≡ c.directory
    fds : c'.fds ≡ c.fds
    files : (p : String) → any_path lib c.directory c.fds p ≡ true → get c'.files p ≡ get c.files p

  not_open-any_path :
      (p : String) (e : EvictEntry) (c : ContentCache)
      → evict_entry_is_open lib p e c ≡ false
      → any_path lib c.directory c.fds p ≡ false
  unfolding evict_entry_is_open
  not_open-any_path p e c h =
      (or_false (not (e.id == "") && has c.fds e.id) (any_path lib c.directory c.fds p) h).1

  evicted-KeepsOpen :
      (path : String) (e : EvictEntry) (c₀ c : ContentCache)
      → evict_entry_is_open lib path e c ≡ false
      → KeepsOpen c₀ c
      → KeepsOpen c₀ (drop_entry path e (remove_file path (pop path c)))
  evicted-KeepsOpen path e c₀ c o h = record {
    directory = h.directory;
    fds = h.fds;
    files = λ p q.
        let k : any_path lib c₀.directory c₀.fds path ≡ false =
          ap (λ d. any_path lib d c₀.fds path) (sym h.directory)
          ∙ (ap (λ s. any_path lib c.directory s path) (sym h.fds)
              ∙ not_open-any_path path e c o) in
        let s = h.files p q in ground (arith, get-remove c.files path p, s, k, q, eq_iff path p);
  }

  Popped-KeepsOpen :
      (c₀ : ContentCache) (path : String) (c : ContentCache) (r : Bool × ContentCache)
      → Popped lib io path c r
      → KeepsOpen c₀ c
      → KeepsOpen c₀ r.1
  Popped-KeepsOpen c₀ path c _ (stale g) h = record {
    directory = h.directory;
    fds = h.fds;
    files = h.files;
  }
  Popped-KeepsOpen c₀ path c _ (spared e g s) h = record {
    directory = h.directory;
    fds = h.fds;
    files = h.files;
  }
  Popped-KeepsOpen c₀ path c _ (gone e g o k) h = record {
    directory = h.directory;
    fds = h.fds;
    files = h.files;
  }
  Popped-KeepsOpen c₀ path c _ (evicted e f g o k s) h = evicted-KeepsOpen path e c₀ c o h

  -- An eviction keeps every file that a descriptor is open for, whatever ID it was opened by.
  pub evict_by_size-any_path :
      (c : ContentCache) (p : String)
      → any_path lib c.directory c.fds p ≡ true
      → get (evict_by_size lib io c).files p ≡ get c.files p
  unfolding evict_by_size
  evict_by_size-any_path c p h =
      let r =
        evict_loop-keeps lib io (λ d c'. KeepsOpen c c')
          (λ d path c' r n s k. Popped-KeepsOpen c path c' r s k) (length c.heap) [] c
          (record { directory = refl; fds = refl; files = λ q m. refl }) in
      elim (Bool-cases (eqb c.max_size 0)) [ inl e ↦ rw e refl | inr e ↦ rw e (r.files p h) ]

  -- What left the index is no younger than what is still in the heap.
  record TakesOldest (c₀ c : ContentCache) : Type 0 where
    entries : (p : String) (e : EvictEntry) → get c.entries p ≡ some e → get c₀.entries p ≡ some e
    ordered :
        (p q : String) (a b : EvictEntry)
        → get c₀.entries p ≡ some a
        → get c.entries p ≡ none
        → contains_id c.heap q ≡ true
        → get c.entries q ≡ some b
        → a.mod_time ≤ b.mod_time

  popped-TakesOldest :
      (c₀ c : ContentCache) (path : String) → TakesOldest c₀ c → TakesOldest c₀ (pop path c)
  popped-TakesOldest c₀ c path h = record {
    entries = h.entries;
    ordered = λ p q a b g n m k.
        let s : contains_id c.heap q ≡ true =
          ground (arith, contains_id-without_id c.heap path q, m) in
        h.ordered p q a b g n s k;
  }

  dropped-TakesOldest :
      (c₀ c : ContentCache) (path : String) (e : EvictEntry)
      → next_victim c ≡ some path
      → get c.entries path ≡ some e
      → TakesOldest c₀ c
      → TakesOldest c₀ (drop_entry path e (pop path c))
  dropped-TakesOldest c₀ c path e v t h = record {
    entries = λ p i g. h.entries p i (ground (arith, get-remove c.entries path p, g));
    ordered = λ p q a b g n m k.
        let s : contains_id c.heap q ≡ true =
          ground (arith, contains_id-without_id c.heap path q, m) in
        let j : get c.entries q ≡ some b = ground (arith, get-remove c.entries path q, k) in
        let (_, o) = next_victim-oldest c path v in
        elim (Bool-cases (path == p)) [
          | inl x ↦
              let y : get c.entries path ≡ some a =
                let i = h.entries path e t in ground (arith, eq_iff path p, x, i, g, t) in
              oldest-IsOldest c.entries c.heap path o a b q y s j
          | inr x ↦
              let y : get c.entries p ≡ none = ground (arith, get-remove c.entries path p, n, x) in
              h.ordered p q a b g y s j
        ];
  }

  Popped-TakesOldest :
      (c₀ : ContentCache) (path : String) (c : ContentCache) (r : Bool × ContentCache)
      → next_victim c ≡ some path
      → Popped lib io path c r
      → TakesOldest c₀ c
      → TakesOldest c₀ r.1
  Popped-TakesOldest c₀ path c _ v (stale g) h = popped-TakesOldest c₀ c path h
  Popped-TakesOldest c₀ path c _ v (spared e g s) h = popped-TakesOldest c₀ c path h
  Popped-TakesOldest c₀ path c _ v (gone e g o k) h = dropped-TakesOldest c₀ c path e v g h
  Popped-TakesOldest c₀ path c _ v (evicted e f g o k s) h =
      let r = dropped-TakesOldest c₀ c path e v g h in
      record { entries = r.entries; ordered = r.ordered }

  loop-TakesOldest : (n : ℕ) (c : ContentCache) → TakesOldest c (evict_loop lib io n [] c).1
  loop-TakesOldest n c =
      evict_loop-keeps lib io (λ d c'. TakesOldest c c')
        (λ d path c' r v s k. Popped-TakesOldest c path c' r v s k) n [] c
        (record { entries = λ p e g. g; ordered = λ p q a b g n m k. cc })

  -- A file that could go and is still in the index is one of the heap.
  waits-in_heap :
      (deferred : List String) (c : ContentCache) (q : String) (b : EvictEntry)
      → IsAccounted (push_back (deferred, c))
      → AreSpared lib io deferred c
      → get c.entries q ≡ some b
      → evict_entry_is_open lib q b c ≡ false
      → io.removes q ≡ true
      → contains_id c.heap q ≡ true
  waits-in_heap deferred c q b a s g o r =
      let i = a.in_heap q in
      let k = contains_id-append deferred c.heap q in
      elim (Bool-cases (contains_id deferred q)) [
        | inl m ↦ elim (s.spared q b m g) [ inl x ↦ cc | inr (_, x) ↦ cc ]
        | inr m ↦ ground (arith, i, k, m, g)
      ]

  -- An eviction takes the oldest files first: a file that left the index was not modified later than
  -- one that is still in it, is not open and could have been removed.
  pub evict_by_size-mod_time :
      (c : ContentCache) (p q : String) (a b : EvictEntry)
      → IsAccounted c
      → get c.entries p ≡ some a
      → get (evict_by_size lib io c).entries p ≡ none
      → get (evict_by_size lib io c).entries q ≡ some b
      → evict_entry_is_open lib q b (evict_by_size lib io c) ≡ false
      → io.removes q ≡ true
      → a.mod_time ≤ b.mod_time
  unfolding evict_by_size evict_entry_is_open
  evict_by_size-mod_time c p q a b h g =
      let n = length c.heap in
      let l = evict_loop lib io n [] c in
      let accounts = evict_loop-IsAccounted lib io n [] c (IsAccounted-IsAccountedFor c h) in
      elim (Bool-cases (eqb c.max_size 0)) [
        | inl e ↦ rw e (λ m k o r. cc)
        | inr e ↦ rw e λ m k o r.
            (loop-TakesOldest n c).ordered p q a b g m
              (waits-in_heap l.0 l.1 q b accounts.accounts (evict_loop-AreSpared lib io n c) k o r)
              k
      ]
