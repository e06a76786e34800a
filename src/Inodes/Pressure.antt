-- ===== src/Inodes/Pressure.antt =====
-- Eviction by size (internal/fs/cache.go: evictChildrenBySizeLimit): which folders it spares, and
-- the counter of listed folders.
use onecloudriver.Prelude.{
  ℕ, zero, suc, ◌-◌, ◌<◌, String, ◌≡◌, refl, ap, ◌∙◌, Bool, true, false, Option, none, some, List,
  ◌∷◌, length, eqb, ◌==◌, eq_iff, if◌then◌else◌, arith, Bool-cases, inl, inr,
}
use onecloudriver.Prelude.Int.{pos, ◌-ℤ◌, pos_part}
use onecloudriver.Prelude.Dict
use onecloudriver.Prelude.Dict.{get-put, put-IsMap}
use onecloudriver.Inodes.Inode.{Inode, evict_children}
use onecloudriver.Inodes.Cache.{InodeCache, EvictionEntry, find}
use onecloudriver.Inodes.Ttl.{evict_folder}
use onecloudriver.Inodes.SizeLimit.{
  size_evict_idle_grace, size_evictable, pop_evictable, pop_evictable_candidate, evict_candidates,
  evict_found, evict_children_by_size_limit, heap_pop, is_current, set_heap,
}
use onecloudriver.Inodes.Tree.Counting.{IsCounted, flag, fetched_count-put, minus_one}

-- What a search for a candidate gives: the heap alone changes, and a candidate may be evicted.
record IsPop (now : ℕ) (c : InodeCache) (r : Option String × InodeCache) : Type 0 where
  inodes : r.1.inodes ≡ c.inodes
  folders : r.1.cached_folders ≡ c.cached_folders
  evictable : (k : String) → r.0 ≡ some k → size_evictable (find c k) now ≡ true

if-IsPop :
    (q : Bool) (now : ℕ) (c : InodeCache) (x y : Option String × InodeCache)
    → (q ≡ true → IsPop now c x)
    → IsPop now c y
    → IsPop now c (if q then x else y)
if-IsPop true now c x y s t = s refl
if-IsPop false now c x y s t = t

pop_evictable-IsPop : (n now : ℕ) (c : InodeCache) → IsPop now c (pop_evictable n now c)
unfolding pop_evictable
pop_evictable-IsPop zero now c = record { inodes = refl; folders = refl; evictable = λ k h. cc }
pop_evictable-IsPop (suc n) now c =
    at_heap (λ d. pop_evictable-IsPop n now d) (heap_pop c.eviction_heap)
  where
    found : EvictionEntry → List EvictionEntry → Option String × InodeCache
    found e rest =
        if size_evictable (find c e.id) now
        then (some e.id, set_heap rest c)
        else (none, set_heap (e ∷ rest) c)

    found-IsPop : (e : EvictionEntry) (rest : List EvictionEntry) → IsPop now c (found e rest)
    found-IsPop e rest =
        if-IsPop (size_evictable (find c e.id) now) now c _ _
          (λ q. record { inodes = refl; folders = refl; evictable = λ k h. cc })
          (record { inodes = refl; folders = refl; evictable = λ k h. cc })

    at_heap :
        ((d : InodeCache) → IsPop now d (pop_evictable n now d))
        → (o : Option (EvictionEntry × List EvictionEntry))
        → let r : Option String × InodeCache = elim o [
          | none ↦ (none, c)
          | some (e, rest) ↦
              let c' = set_heap rest c in
              let next = pop_evictable n now c' in if is_current c' e then found e rest else next
        ] in
          IsPop now c r
    at_heap next none = record { inodes = refl; folders = refl; evictable = λ k h. cc }
    at_heap next (some (e, rest)) =
        let s = next (set_heap rest c) in
        if-IsPop (is_current (set_heap rest c) e) now c _ _ (λ _. found-IsPop e rest)
          (record { inodes = s.inodes; folders = s.folders; evictable = s.evictable })

pop_evictable_candidate-IsPop :
    (now : ℕ) (c : InodeCache) → IsPop now c (pop_evictable_candidate now c)
unfolding pop_evictable_candidate
pop_evictable_candidate-IsPop now c = pop_evictable-IsPop (length c.eviction_heap) now c

-- A folder that was active within the grace period is no candidate.
spared :
    (now : ℕ) (i : Inode)
    → now - i.last_access < size_evict_idle_grace
    → size_evictable (some i) now ≡ false
unfolding size_evictable
spared now i h = ground arith

module _ (id : String) (i : Inode) (now : ℕ)
    (active : now - i.last_access < size_evict_idle_grace) where
  find-evict_found :
      (k : String) (c : InodeCache)
      → find c id ≡ some i
      → size_evictable (find c k) now ≡ true
      → find (evict_found k c) id ≡ some i
  unfolding evict_folder
  find-evict_found k c h e = at_found (find c k) refl
    where
      other : (k == id) ≡ false
      other = elim (Bool-cases (k == id)) [
        | inl q ↦
            let same : find c k ≡ some i = ap (find c) ((eq_iff k id).0 q) ∙ h in
            let no = ap (λ o. size_evictable o now) same ∙ spared now i active in cc
        | inr q ↦ q
      ]

      at_found :
          (o : Option Inode)
          → find c k ≡ o
          → let d : InodeCache = elim o [ none ↦ c | some j ↦ evict_folder k j c ] in
            find d id ≡ some i
      at_found none q = h
      at_found (some j) q = rw (get-put c.inodes k id (evict_children j), other) h

  find-evict_candidates :
      (n : ℕ) (c : InodeCache) → find c id ≡ some i → find (evict_candidates n now c) id ≡ some i
  unfolding evict_candidates
  find-evict_candidates zero c h = h
  find-evict_candidates (suc n) c h =
      let (o, c') = pop_evictable_candidate now c in
      let s = pop_evictable_candidate-IsPop now c in
      let h' : find c' id ≡ some i = ap (λ d. Dict.get d id) s.inodes ∙ h in
      go (λ d. find-evict_candidates n d) o c' h'
        λ k q. ap (λ d. size_evictable (Dict.get d k) now) s.inodes ∙ s.evictable k q
    where
      go :
          ((d : InodeCache) → find d id ≡ some i → find (evict_candidates n now d) id ≡ some i)
          → (o : Option String) (c' : InodeCache) → find c' id ≡ some i
          → ((k : String) → o ≡ some k → size_evictable (find c' k) now ≡ true)
          → let d : InodeCache = elim o [
            | none ↦ c'
            | some k ↦ evict_candidates n now (evict_found k c')
          ] in
            find d id ≡ some i
      go next none c' g e = g
      go next (some k) c' g e = next (evict_found k c') (find-evict_found k c' g (e k refl))

  -- Eviction by size leaves every inode as it is, with its children, whose last access is less
  -- than five seconds ago, however small the limit is.
  pub find-evict_children_by_size_limit :
      (c : InodeCache) → find c id ≡ some i → find (evict_children_by_size_limit now c) id ≡ some i
  unfolding evict_children_by_size_limit
  find-evict_children_by_size_limit c h =
      either (eqb c.max_entries 0)
        (find-evict_candidates (pos_part (c.cached_folders -ℤ pos c.max_entries)) c h)
    where
      either :
          (q : Bool)
          → find (evict_candidates (pos_part (c.cached_folders -ℤ pos c.max_entries)) now c) id
            ≡ some i
          → find
              (if q
                then c
                else evict_candidates (pos_part (c.cached_folders -ℤ pos c.max_entries)) now c)
              id
            ≡ some i
      either true k = h
      either false k = k

IsCounted-same :
    {c d : InodeCache}
    → d.inodes ≡ c.inodes
    → d.cached_folders ≡ c.cached_folders
    → IsCounted c
    → IsCounted d
IsCounted-same {c} {d} h k s = record { keyed = rw h s.keyed; counted = rw (h, k) s.counted }

evictable_flag : (o : Option Inode) (now : ℕ) → size_evictable o now ≡ true → flag o ≡ 1
unfolding size_evictable
evictable_flag none now h = cc
evictable_flag (some i) now h = ground arith

-- An eviction takes one listed folder out of both counts.
evict_folder-IsCounted :
    (k : String) (j : Inode) (c : InodeCache)
    → IsCounted c
    → flag (find c k) ≡ 1
    → IsCounted (evict_folder k j c)
unfolding evict_folder evict_children
evict_folder-IsCounted k j c s h = record {
  keyed = put-IsMap c.inodes k (evict_children j) s.keyed;
  counted =
      let n = fetched_count-put c.inodes k (evict_children j) s.keyed in
      minus_one c.cached_folders _ _ s.counted (omega arith);
}

evict_found-IsCounted :
    (k : String) (c : InodeCache) → IsCounted c → flag (find c k) ≡ 1 → IsCounted (evict_found k c)
evict_found-IsCounted k c s h = at_found (find c k)
  where
    at_found :
        (o : Option Inode)
        → let d : InodeCache = elim o [ none ↦ c | some j ↦ evict_folder k j c ] in IsCounted d
    at_found none = s
    at_found (some j) = evict_folder-IsCounted k j c s h

evict_candidates-IsCounted :
    (n now : ℕ) (c : InodeCache) → IsCounted c → IsCounted (evict_candidates n now c)
unfolding evict_candidates
evict_candidates-IsCounted zero now c s = s
evict_candidates-IsCounted (suc n) now c s =
    let (o, c') = pop_evictable_candidate now c in
    let p = pop_evictable_candidate-IsPop now c in
    go (λ d. evict_candidates-IsCounted n now d) o c' (IsCounted-same p.inodes p.folders s)
      λ k q.
        ap (λ d. flag (Dict.get d k)) p.inodes ∙ evictable_flag (find c k) now (p.evictable k q)
  where
    go :
        ((d : InodeCache) → IsCounted d → IsCounted (evict_candidates n now d))
        → (o : Option String) (c' : InodeCache) → IsCounted c'
        → ((k : String) → o ≡ some k → flag (find c' k) ≡ 1)
        → let d : InodeCache = elim o [
          | none ↦ c'
          | some k ↦ evict_candidates n now (evict_found k c')
        ] in
          IsCounted d
    go next none c' t e = t
    go next (some k) c' t e = next (evict_found k c') (evict_found-IsCounted k c' t (e k refl))

-- Where the counter of listed folders is exact, it is exact after the eviction by size.
pub evict_children_by_size_limit-IsCounted :
    (now : ℕ) (c : InodeCache) → IsCounted c → IsCounted (evict_children_by_size_limit now c)
unfolding evict_children_by_size_limit
evict_children_by_size_limit-IsCounted now c s =
    let n = pos_part (c.cached_folders -ℤ pos c.max_entries) in
    either (eqb c.max_entries 0) (evict_candidates n now c) (evict_candidates-IsCounted n now c s)
  where
    either : (q : Bool) (d : InodeCache) → IsCounted d → IsCounted (if q then c else d)
    either true d t = s
    either false d t = t
