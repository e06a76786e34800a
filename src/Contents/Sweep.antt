-- ===== src/Contents/Sweep.antt =====
-- What `evictBySize` (internal/fs/content_eviction.go) achieves: it ends under the limit or with no
-- file that it may remove, and it takes the oldest files first.
use mathlib.Core.Path.{subst}
use onecloudriver.Prelude.{
  ℕ, zero, suc, ◌≤◌, String, ◌≡◌, refl, ap, ◌∙◌, Bool, true, false, ◌⊎◌, none, some, List, [], ◌∷◌,
  ◌++◌, length, eqb, is_some, ◌==◌, eq_iff, arith, Bool-cases, Option-cases, inl, inr,
}
use onecloudriver.Prelude.Dict
use onecloudriver.Prelude.Dict.{get, remove, get-remove}
use onecloudriver.Inodes.Cache.{contains_id, without_id}
use onecloudriver.Contents.Cache.{
  Naming, Io, DiskFile, EvictEntry, ContentCache, evict_entry_is_open,
}
use onecloudriver.Contents.Evict.{
  is_over, next_victim, evict_popped, evict_loop, push_back, evict_by_size,
}
use onecloudriver.Contents.Accounting.{IsAccounted}
use onecloudriver.Contents.Oldest.{oldest-in_heap, oldest-none, length-without_id_lt}
use onecloudriver.Contents.Victims.{
  next_victim-oldest, next_victim-none, Popped, stale, spared, gone, evicted, IsSpared, defer,
  evict_popped-Popped, evict_loop-keeps,
}
use onecloudriver.Contents.Eviction.{
  IsAccounted-IsAccountedFor, evict_loop-IsAccounted, Apart, Popped-Apart, contains_id-append,
}

-- One path off the heap, in every case.
Popped-heap :
    {lib : Naming} {io : Io} (path : String) (c : ContentCache) (r : Bool × ContentCache)
    → Popped lib io path c r
    → r.1.heap ≡ without_id c.heap path
Popped-heap path c _ (stale g) = refl
Popped-heap path c _ (spared e g s) = refl
Popped-heap path c _ (gone e g o k) = refl
Popped-heap path c _ (evicted e f g o k s) = refl

le_pred : (a b n : ℕ) → suc a ≤ b → b ≤ suc n → a ≤ n
le_pred a b n h g = omega arith

get_after_remove :
    {V : Type 0} (d : Dict.Dict V) (k p : String) (v : V)
    → get (remove d k) p ≡ some v
    → ((k == p) ≡ false) × (get d p ≡ some v)
get_after_remove d k p v h = ground (arith, get-remove d k p, h)

module _ (lib : Naming) (io : Io) where
  -- As much fuel as the heap is long is enough: the loop ends by its own test.
  evict_loop_lem :
      (n : ℕ) (deferred : List String) (c : ContentCache)
      → length c.heap ≤ n
      → next_victim (evict_loop lib io n deferred c).1 ≡ none
  unfolding evict_loop
  evict_loop_lem zero deferred c h = elim (Option-cases (next_victim c)) [
    | inl e ↦ e
    | inr (path, e) ↦
        let (_, o) = next_victim-oldest c path e in
        let m = length-without_id_lt c.heap path (oldest-in_heap c.entries c.heap path o) in
        ground (arith, m, h)
  ]
  evict_loop_lem (suc n) deferred c h = elim (Option-cases (next_victim c)) [
    | inl e ↦ rw (evict_loop, e) e
    | inr (path, e) ↦
        let (_, o) = next_victim-oldest c path e in
        let m = length-without_id_lt c.heap path (oldest-in_heap c.entries c.heap path o) in
        let r = evict_popped lib io path c in
        let s = ap length (Popped-heap path c r (evict_popped-Popped lib io path c)) in
        let k : length r.1.heap ≤ n = ground (arith, m, h, s) in
        rw (evict_loop, e) (evict_loop_lem n (defer r.0 path deferred) r.1 k)
  ]

  -- An entry that waits is one that eviction spares.
  pub record AreSpared (deferred : List String) (c : ContentCache) : Type 0 where
    pub apart : Apart deferred c.heap
    pub spared :
        (p : String) (e : EvictEntry)
        → contains_id deferred p ≡ true
        → get c.entries p ≡ some e
        → IsSpared lib io p e c

  drop-IsSpared :
      (deferred : List String) (path : String) (files : Dict.Dict DiskFile) (c : ContentCache)
      → AreSpared deferred c
      → ((p : String) → (path == p) ≡ false → get files p ≡ get c.files p)
      → (p : String) (e : EvictEntry) → contains_id deferred p ≡ true
      → get (remove c.entries path) p ≡ some e
      → IsSpared lib io p e (record c { files = files })
  unfolding evict_entry_is_open
  drop-IsSpared deferred path files c h same p e m g =
      let (q, k) = get_after_remove c.entries path p e g in
      elim (h.spared p e m k) [ inl o ↦ inl o | inr (f, r) ↦ inr (ap is_some (same p q) ∙ f, r) ]

  spare-IsSpared :
      (deferred : List String) (path : String) (e : EvictEntry) (c : ContentCache)
      → get c.entries path ≡ some e
      → IsSpared lib io path e c
      → AreSpared deferred c
      → (p : String) (i : EvictEntry) → contains_id (deferred ++ path ∷ []) p ≡ true
      → get c.entries p ≡ some i
      → IsSpared lib io p i c
  unfolding contains_id
  spare-IsSpared deferred path e c g s h p i m k = elim (Bool-cases (contains_id deferred p)) [
    | inl o ↦ h.spared p i o k
    | inr o ↦
        let q : path ≡ p =
          ground (arith, contains_id-append deferred (path ∷ []) p, m, o, eq_iff path p) in
        let j : e ≡ i = ground (arith, q, g, k) in
        subst (λ x. IsSpared lib io x i c) q (subst (λ x. IsSpared lib io path x c) j s)
  ]

  Popped-AreSpared :
      (deferred : List String) (path : String) (c : ContentCache) (r : Bool × ContentCache)
      → Popped lib io path c r
      → AreSpared deferred c
      → AreSpared (defer r.0 path deferred) r.1
  unfolding evict_entry_is_open
  Popped-AreSpared deferred path c _ (stale g) h = record {
    apart = Popped-Apart {lib = lib} {io = io} deferred path c _ (stale g) h.apart;
    spared = h.spared;
  }
  Popped-AreSpared deferred path c _ (spared e g s) h = record {
    apart = Popped-Apart {lib = lib} {io = io} deferred path c _ (spared e g s) h.apart;
    spared = spare-IsSpared deferred path e c g s h;
  }
  Popped-AreSpared deferred path c _ (gone e g o k) h = record {
    apart = Popped-Apart {lib = lib} {io = io} deferred path c _ (gone e g o k) h.apart;
    spared = drop-IsSpared deferred path c.files c h (λ p q. refl);
  }
  Popped-AreSpared deferred path c _ (evicted e f g o k s) h = record {
    apart = Popped-Apart {lib = lib} {io = io} deferred path c _ (evicted e f g o k s) h.apart;
    spared =
        drop-IsSpared deferred path (remove c.files path) c h
          λ p q. ground (arith, get-remove c.files path p, q);
  }

  pub evict_loop-AreSpared :
      (n : ℕ) (c : ContentCache)
      → AreSpared (evict_loop lib io n [] c).0 (evict_loop lib io n [] c).1
  unfolding contains_id
  evict_loop-AreSpared n c =
      evict_loop-keeps lib io AreSpared
        (λ deferred path c' r n s k. Popped-AreSpared deferred path c' r s k) n [] c
        (record { apart = λ p m. cc; spared = λ p e m. cc })

  -- At the end of the loop, under the limit or with an empty heap.
  over_or_empty :
      (deferred : List String) (c : ContentCache)
      → next_victim c ≡ none
      → IsAccounted (push_back (deferred, c))
      → AreSpared deferred c
      → (is_over c ≡ false)
        ⊎ ((p : String) (e : EvictEntry) → get c.entries p ≡ some e → IsSpared lib io p e c)
  unfolding contains_id
  over_or_empty deferred c n a h = elim (next_victim-none c n) [
    | inl e ↦ inl e
    | inr e ↦ inr λ p i g.
        let q = a.in_heap p in
        let k = contains_id-append deferred c.heap p in
        let m = ap (λ xs. contains_id xs p) (oldest-none c.entries c.heap e) in
        h.spared p i (ground (arith, q, g, k, m)) g
  ]

  -- With a limit and an index whose heap holds its paths, an eviction ends in one of two ways: the
  -- total is at most the limit, or every file still in the index is open or could not be removed.
  pub evict_by_size-IsSpared :
      (c : ContentCache)
      → eqb c.max_size 0 ≡ false
      → IsAccounted c
      → let c' = evict_by_size lib io c in
        (is_over c' ≡ false)
        ⊎ ((p : String) (e : EvictEntry) → get c'.entries p ≡ some e → IsSpared lib io p e c')
  unfolding evict_by_size is_over evict_entry_is_open
  evict_by_size-IsSpared c l h =
      let n = length c.heap in
      let a = evict_loop-IsAccounted lib io n [] c (IsAccounted-IsAccountedFor c h) in
      rw l (
        over_or_empty (evict_loop lib io n [] c).0 (evict_loop lib io n [] c).1
          (evict_loop_lem n [] c (omega arith)) a.accounts (evict_loop-AreSpared n c))
