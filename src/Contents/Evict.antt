-- ===== src/Contents/Evict.antt =====
-- Eviction by size of `ContentCache` (internal/fs/content_eviction.go: evictBySize), and its
-- background run (content_cache.go: maybeEvict). The flag `evicting` stands from the launch of the
-- goroutine to its end.
use onecloudriver.Prelude.{
  ℕ, zero, suc, String, Bool, true, false, Option, none, some, List, [], ◌∷◌, ◌++◌, length, eqb,
  if◌then◌else◌,
}
use onecloudriver.Prelude.Int.{pos, ◌-ℤ◌, ltb_ℤ}
use onecloudriver.Prelude.Dict
use onecloudriver.Inodes.Cache.{without_id}
use onecloudriver.Contents.Cache.{Naming, Io, EvictEntry, ContentCache, oldest, evict_entry_is_open}

-- delete(c.evictEntries, path) and the size off the total.
abbrev pub drop_entry : String → EvictEntry → ContentCache → ContentCache
drop_entry path e c = record c {
  entries = Dict.remove c.entries path;
  total_size = c.total_size -ℤ pos e.size;
}

abbrev pub remove_file : String → ContentCache → ContentCache
remove_file path c = record c { files = Dict.remove c.files path }

abbrev pub pop : String → ContentCache → ContentCache
pop path c = record c { heap = without_id c.heap path }

unfoldable pub is_over : ContentCache → Bool
is_over c = ltb_ℤ (pos c.max_size) c.total_size

-- The test of the loop, and heap.Pop.
unfoldable pub next_victim : ContentCache → Option String
unfolding is_over oldest
next_victim c = if is_over c then oldest c.entries c.heap else none

-- The deferred entries go back to the heap.
abbrev pub push_back : List String × ContentCache → ContentCache
push_back (deferred, c) = record c { heap = deferred ++ c.heap }

module _ (lib : Naming) where
  -- The body of the loop: is the entry deferred?
  unfoldable pub evict_entry : Io → String → EvictEntry → ContentCache → Bool × ContentCache
  unfolding evict_entry_is_open
  evict_entry io path e c =
      if evict_entry_is_open lib path e c then (true, c) else elim (Dict.get c.files path) [
        | none ↦ (false, drop_entry path e c)
        | some _ ↦
            if io.removes path then (false, drop_entry path e (remove_file path c)) else (true, c)
      ]

  unfoldable pub evict_popped : Io → String → ContentCache → Bool × ContentCache
  unfolding evict_entry without_id
  evict_popped io path c = elim (Dict.get c.entries path) [
    | none ↦ (false, pop path c)
    | some e ↦ evict_entry io path e (pop path c)
  ]

  -- Every round takes an entry off the heap, whose length is the fuel given.
  unfoldable pub evict_loop : Io → ℕ → List String → ContentCache → List String × ContentCache
  unfolding next_victim evict_popped
  evict_loop io zero deferred c = (deferred, c)
  evict_loop io (suc n) deferred c = elim (next_victim c) [
    | none ↦ (deferred, c)
    | some path ↦
        let (defers, c') = evict_popped io path c in
        evict_loop io n (if defers then deferred ++ path ∷ [] else deferred) c'
  ]

  -- evictBySize, which is also ForceEvict
  unfoldable pub evict_by_size : Io → ContentCache → ContentCache
  unfolding evict_loop
  evict_by_size io c =
      if eqb c.max_size 0 then c else push_back (evict_loop io (length c.heap) [] c)

  -- The goroutine that maybeEvict launched.
  unfoldable pub finish_eviction : Io → ContentCache → ContentCache
  unfolding evict_by_size
  finish_eviction io c = if c.evicting then record (evict_by_size io c) { evicting = false } else c

unfoldable pub maybe_evict : ContentCache → ContentCache
maybe_evict c = if eqb c.max_size 0 then c else record c { evicting = true }
