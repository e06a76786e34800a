-- ===== src/Contents/Eviction.antt =====
-- `evictBySize` (internal/fs/content_eviction.go) and the accounting of the cache: the entries that
-- wait to be pushed back count as entries of the heap.
use mathlib.Core.Path.{subst}
use onecloudriver.Prelude.{
  ℕ, String, ◌≡◌, refl, Bool, true, false, ◌||◌, none, some, List, [], ◌∷◌, ◌++◌, length, eqb,
  eq_iff, arith, Bool-cases, inl, inr,
}
use onecloudriver.Prelude.Dict.{get}
use onecloudriver.Inodes.Cache.{contains_id, without_id}
use onecloudriver.Contents.Cache.{Naming, Io, EvictEntry, ContentCache}
use onecloudriver.Contents.Evict.{
  drop_entry, pop, next_victim, evict_loop, push_back, evict_by_size,
}
use onecloudriver.Contents.Accounting.{IsAccounted, drop-IsAccounted, contains_id-without_id}
use onecloudriver.Contents.Oldest.{oldest-in_heap}
use onecloudriver.Contents.Victims.{
  next_victim-oldest, Popped, stale, spared, gone, evicted, defer, evict_loop-keeps,
}

pub contains_id-append :
    (xs ys : List String) (p : String)
    → contains_id (xs ++ ys) p ≡ (contains_id xs p || contains_id ys p)
unfolding contains_id
contains_id-append [] ys p = refl
contains_id-append (x ∷ xs) ys p = ground (arith, contains_id-append xs ys p)

without_id-append :
    (xs ys : List String) (p : String)
    → contains_id xs p ≡ false
    → without_id (xs ++ ys) p ≡ xs ++ without_id ys p
unfolding contains_id without_id
without_id-append [] ys p h = refl
without_id-append (x ∷ xs) ys p h = ground (arith, without_id-append xs ys p)

-- A path that waits is not in the heap.
abbrev pub Apart : List String → List String → Type 0
Apart deferred heap = (p : String) → contains_id deferred p ≡ true → contains_id heap p ≡ false

Apart-pop :
    (deferred heap : List String) (path : String)
    → Apart deferred heap
    → Apart deferred (without_id heap path)
Apart-pop deferred heap path h p m =
    let g = h p m in ground (arith, contains_id-without_id heap path p, g)

Apart-defer :
    (deferred heap : List String) (path : String)
    → Apart deferred heap
    → Apart (deferred ++ path ∷ []) (without_id heap path)
unfolding contains_id
Apart-defer deferred heap path h p m =
    let g = h p in
    ground (arith, contains_id-without_id heap path p, contains_id-append deferred (path ∷ []) p, g)

pub Popped-Apart :
    {lib : Naming} {io : Io} (deferred : List String) (path : String) (c : ContentCache)
    (r : Bool × ContentCache)
    → Popped lib io path c r
    → Apart deferred c.heap
    → Apart (defer r.0 path deferred) r.1.heap
Popped-Apart deferred path c _ (stale g) h = Apart-pop deferred c.heap path h
Popped-Apart deferred path c _ (spared e g s) h = Apart-defer deferred c.heap path h
Popped-Apart deferred path c _ (gone e g o k) h = Apart-pop deferred c.heap path h
Popped-Apart deferred path c _ (evicted e f g o k s) h = Apart-pop deferred c.heap path h

-- The accounting during the loop.
pub record IsAccountedFor (deferred : List String) (c : ContentCache) : Type 0 where
  pub accounts : IsAccounted (push_back (deferred, c))
  pub apart : Apart deferred c.heap

in_heap-absent :
    (deferred : List String) (c : ContentCache) (path : String)
    → next_victim c ≡ some path
    → Apart deferred c.heap
    → contains_id deferred path ≡ false
in_heap-absent deferred c path e h =
    let (_, o) = next_victim-oldest c path e in
    let m = oldest-in_heap c.entries c.heap path o in let g = h path in ground (arith, m, g)

drop-accounts :
    (deferred : List String) (path : String) (e : EvictEntry) (c : ContentCache)
    → next_victim c ≡ some path
    → get c.entries path ≡ some e
    → IsAccountedFor deferred c
    → IsAccounted (push_back (deferred, drop_entry path e (pop path c)))
drop-accounts deferred path e c n g h =
    let k = in_heap-absent deferred c path n h.apart in
    let a = drop-IsAccounted path e (push_back (deferred, c)) g h.accounts in
    subst (λ (heap : List String). IsAccounted (record (drop_entry path e c) { heap = heap }))
      (without_id-append deferred c.heap path k) a

spare-accounts :
    (deferred : List String) (path : String) (e : EvictEntry) (c : ContentCache)
    → get c.entries path ≡ some e
    → IsAccounted (push_back (deferred, c))
    → IsAccounted (push_back (deferred ++ path ∷ [], pop path c))
unfolding contains_id
spare-accounts deferred path e c g h = record {
  is_map = h.is_map;
  accounted = h.accounted;
  in_heap = λ p.
      let q = h.in_heap p in
      let s = h.in_heap path in
      ground (
        arith,
        contains_id-without_id c.heap path p,
        eq_iff path p,
        q,
        s,
        g,
        contains_id-append (deferred ++ path ∷ []) (without_id c.heap path) p,
        contains_id-append deferred (path ∷ []) p,
        contains_id-append deferred c.heap p,
      );
}

stale-accounts :
    (deferred : List String) (path : String) (c : ContentCache)
    → get c.entries path ≡ none
    → IsAccounted (push_back (deferred, c))
    → IsAccounted (push_back (deferred, pop path c))
stale-accounts deferred path c g h = record {
  is_map = h.is_map;
  accounted = h.accounted;
  in_heap = λ p.
      let q = h.in_heap p in
      let s = h.in_heap path in
      ground (
        arith,
        contains_id-without_id c.heap path p,
        eq_iff path p,
        q,
        s,
        g,
        contains_id-append deferred (without_id c.heap path) p,
        contains_id-append deferred c.heap p,
      );
}

pub Popped-IsAccounted :
    {lib : Naming} {io : Io} (deferred : List String) (path : String) (c : ContentCache)
    (r : Bool × ContentCache)
    → next_victim c ≡ some path
    → Popped lib io path c r
    → IsAccountedFor deferred c
    → IsAccounted (push_back (defer r.0 path deferred, r.1))
Popped-IsAccounted deferred path c _ n (stale g) h = stale-accounts deferred path c g h.accounts
Popped-IsAccounted deferred path c _ n (spared e g s) h =
    spare-accounts deferred path e c g h.accounts
Popped-IsAccounted deferred path c _ n (gone e g o k) h = drop-accounts deferred path e c n g h
Popped-IsAccounted deferred path c _ n (evicted e f g o k s) h =
    let a = drop-accounts deferred path e c n g h in
    record { is_map = a.is_map; accounted = a.accounted; in_heap = a.in_heap }

pub IsAccounted-IsAccountedFor : (c : ContentCache) → IsAccounted c → IsAccountedFor [] c
unfolding contains_id
IsAccounted-IsAccountedFor c h = record {
  accounts = record { is_map = h.is_map; accounted = h.accounted; in_heap = h.in_heap };
  apart = λ p m. cc;
}

module _ (lib : Naming) (io : Io) where
  pub evict_loop-IsAccounted :
      (n : ℕ) (deferred : List String) (c : ContentCache)
      → IsAccountedFor deferred c
      → IsAccountedFor (evict_loop lib io n deferred c).0 (evict_loop lib io n deferred c).1
  evict_loop-IsAccounted = evict_loop-keeps lib io IsAccountedFor λ deferred path c' r n s k.
      record {
        accounts = Popped-IsAccounted deferred path c' r n s k;
        apart = Popped-Apart deferred path c' r s k.apart;
      }

  -- An eviction keeps the index a map, the total the sum of its sizes, and its paths in the heap.
  pub evict_by_size-IsAccounted :
      (c : ContentCache) → IsAccounted c → IsAccounted (evict_by_size lib io c)
  unfolding evict_by_size
  evict_by_size-IsAccounted c h =
      let r = evict_loop-IsAccounted (length c.heap) [] c (IsAccounted-IsAccountedFor c h) in
      elim (Bool-cases (eqb c.max_size 0)) [ inl e ↦ rw e h | inr e ↦ rw e r.accounts ]
