-- ===== src/Inodes/SizeLimit.antt =====
-- The size eviction of internal/fs/cache.go: the scored heap and the sweep down to `max_entries`.
-- `heap.Pop` of container/heap is modelled by what it promises, the removal of a least entry.
use onecloudriver.Prelude.{
  ℕ, zero, suc, ◌+◌, ◌-◌, ◌*◌, String, Bool, false, ◌&&◌, Option, none, some, List, [], ◌∷◌, length,
  ltb, leb, eqb, if◌then◌else◌,
}
use onecloudriver.Prelude.Int.{pos, pos_part, ◌-ℤ◌}
use onecloudriver.Prelude.Dict
use onecloudriver.Inodes.Inode.{Inode, u64, is_children_fetched}
use onecloudriver.Inodes.Cache.{InodeCache, EvictionEntry, Score, find}
use onecloudriver.Inodes.Ttl.{second, evict_folder, sweep_expired_buckets}

abbrev minute : ℕ
minute = 60 * second

-- hits / (idle / minute + 1), compared by cross multiplication
abbrev pub score_lt : Score → Score → Bool
score_lt a b = ltb (a.hits * (b.idle + minute)) (b.hits * (a.idle + minute))

abbrev pub score_eq : Score → Score → Bool
score_eq a b = eqb (a.hits * (b.idle + minute)) (b.hits * (a.idle + minute))

-- Lowest score first; on a tie the oldest.
unfoldable pub less : EvictionEntry → EvictionEntry → Bool
less a b = if score_eq a.score b.score then ltb a.age b.age else score_lt a.score b.score

unfoldable pub size_score : Inode → ℕ → Score
size_score i now = record { hits = i.access_count; idle = now - i.last_access }

abbrev pub generation : InodeCache → String → ℕ
generation c id = elim (Dict.get c.eviction_generation id) [ none ↦ 0 | some g ↦ g ]

unfoldable pub update_eviction_entry : Inode → ℕ → InodeCache → InodeCache
update_eviction_entry i now c =
    let id = i.item.id in
    let g = u64 (generation c id + 1) in
    let entry : EvictionEntry = record {
      id = id;
      score = size_score i now;
      age = i.cached_at;
      generation = g;
    } in
    let c' = record c {
      eviction_generation = Dict.put c.eviction_generation id g;
      eviction_heap = entry ∷ c.eviction_heap;
    } in
    if is_children_fetched i then c' else c

unfoldable pub heap_pop : List EvictionEntry → Option (EvictionEntry × List EvictionEntry)
unfolding less
heap_pop [] = none
heap_pop (e ∷ es) = elim (heap_pop es) [
  | none ↦ some (e, [])
  | some (m, rest) ↦ if less m e then some (m, e ∷ rest) else some (e, es)
]

abbrev holds_children : Option Inode → Bool
holds_children none = false
holds_children (some i) = is_children_fetched i

-- Does the entry still describe a listed folder?
unfoldable pub is_current : InodeCache → EvictionEntry → Bool
is_current c e = eqb e.generation (generation c e.id) && holds_children (find c e.id)

abbrev pub size_evict_idle_grace : ℕ
size_evict_idle_grace = 5 * second

unfoldable pub size_evictable : Option Inode → ℕ → Bool
size_evictable none now = false
size_evictable (some i) now =
    is_children_fetched i && leb size_evict_idle_grace (now - i.last_access)

abbrev pub set_heap : List EvictionEntry → InodeCache → InodeCache
set_heap h c = record c { eviction_heap = h }

-- The loop pops at most as many entries as the heap holds, which is the fuel given.
unfoldable pub pop_candidate : ℕ → InodeCache → Option String × InodeCache
pop_candidate zero c = (none, c)
pop_candidate (suc n) c = elim (heap_pop c.eviction_heap) [
  | none ↦ (none, c)
  | some (e, rest) ↦
      let c' = set_heap rest c in
      let next = pop_candidate n c' in if is_current c' e then (some e.id, c') else next
]

unfoldable pub pop_eviction_candidate : InodeCache → Option String × InodeCache
unfolding pop_candidate is_current heap_pop
pop_eviction_candidate c = pop_candidate (length c.eviction_heap) c

-- A least folder that is still in use goes back, and ends the search.
unfoldable pub pop_evictable : ℕ → ℕ → InodeCache → Option String × InodeCache
pop_evictable zero now c = (none, c)
pop_evictable (suc n) now c = elim (heap_pop c.eviction_heap) [
  | none ↦ (none, c)
  | some (e, rest) ↦
      let c' = set_heap rest c in
      let next = pop_evictable n now c' in
      let found : Option String × InodeCache =
        if size_evictable (find c' e.id) now
        then (some e.id, c')
        else (none, set_heap (e ∷ rest) c) in
      if is_current c' e then found else next
]

unfoldable pub pop_evictable_candidate : ℕ → InodeCache → Option String × InodeCache
unfolding pop_evictable is_current heap_pop size_evictable
pop_evictable_candidate now c = pop_evictable (length c.eviction_heap) now c

abbrev pub evict_found : String → InodeCache → InodeCache
evict_found id c = elim (find c id) [ none ↦ c | some i ↦ evict_folder id i c ]

-- for i := 0; i < toRemove; i++, left when no candidate is found
unfoldable pub evict_candidates : ℕ → ℕ → InodeCache → InodeCache
evict_candidates zero now c = c
evict_candidates (suc n) now c =
    let (found, c') = pop_evictable_candidate now c in
    elim found [ none ↦ c' | some id ↦ evict_candidates n now (evict_found id c') ]

unfoldable pub evict_children_by_size_limit : ℕ → InodeCache → InodeCache
evict_children_by_size_limit now c =
    let excess = c.cached_folders -ℤ pos c.max_entries in
    if eqb c.max_entries 0 then c else evict_candidates (pos_part excess) now c

-- sweep, ForceSweep
unfoldable pub sweep : ℕ → InodeCache → InodeCache
unfolding sweep_expired_buckets evict_children_by_size_limit
sweep now c = evict_children_by_size_limit now (sweep_expired_buckets now c)
