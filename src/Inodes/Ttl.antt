-- ===== src/Inodes/Ttl.antt =====
-- The TTL eviction of internal/fs/cache.go: the effective TTL and the ring of expiry buckets.
-- Times are nanoseconds since Go's zero time; the zero time is a whole number of minutes before
-- 1970, so a bucket's index is the same from either origin.
use Prim.Native.Nat.{min}
use onecloudriver.Prelude.{
  ℕ, zero, suc, ◌+◌, ◌-◌, ◌*◌, ◌/◌, ◌%◌, String, Bool, none, some, List, [], ◌∷◌, ◌++◌, ltb, eqb,
  if◌then◌else◌,
}
use onecloudriver.Prelude.Int.{pos, ◌-ℤ◌}
use onecloudriver.Prelude.Dict
use onecloudriver.Inodes.Inode.{
  Inode, u64, is_children_fetched, decay_children_access, evict_children,
}
use onecloudriver.Inodes.Cache.{InodeCache, TtlEntry, StringSet, find, store, has}

-- base × min(1 + count / 2, 20). The multiplier is a whole number of halves, so the source's
-- float64 product is exact below 2 ^ 53 nanoseconds.
unfoldable pub effective_ttl : ℕ → ℕ → ℕ
effective_ttl base_ttl access_count = base_ttl * min (2 + access_count) 40 / 2

abbrev pub second : ℕ
second = 1_000_000_000

abbrev pub ttl_bucket_count : ℕ
ttl_bucket_count = 60

unfoldable pub ttl_bucket_index : ℕ → ℕ
ttl_bucket_index expiry = expiry / second % ttl_bucket_count

-- The deadline that a folder has at its present access count.
abbrev pub expiry_of : ℕ → Inode → ℕ
expiry_of base_ttl i = i.last_access + effective_ttl base_ttl i.access_count

unfoldable pub is_children_fresh : ℕ → InodeCache → Inode → Bool
is_children_fresh now c i = ltb (now - i.cached_at) (effective_ttl c.base_ttl i.access_count)

abbrev set_bucket : ℕ → List TtlEntry → InodeCache → InodeCache
set_bucket index entries c = record c {
  ttl_buckets = λ j. if eqb index j then entries else c.ttl_buckets j;
}

unfoldable pub register_ttl : Inode → InodeCache → InodeCache
register_ttl i c =
    let expiry = expiry_of c.base_ttl i in
    let bucket = ttl_bucket_index expiry in
    let entry : TtlEntry = record { inode_id = i.item.id; expiry = expiry } in
    if is_children_fetched i then set_bucket bucket (c.ttl_buckets bucket ++ entry ∷ []) c else c

-- The folder's children go, its inode stays.
unfoldable pub evict_folder : String → Inode → InodeCache → InodeCache
evict_folder id i c =
    let c' = store id (evict_children i) c in
    record c' { evictions = u64 (c.evictions + 1); cached_folders = c.cached_folders -ℤ pos 1 }

-- One folder of a bucket: decay, then eviction or a new registration.
unfoldable pub expire_folder : ℕ → String → Inode → InodeCache → InodeCache
unfolding evict_folder register_ttl decay_children_access
expire_folder now id i c =
    let j = decay_children_access i in
    let c' = store id j c in
    if ltb (expiry_of c.base_ttl j) now then evict_folder id j c' else register_ttl j c'

-- The set holds the folders that this sweep has met already.
unfoldable pub process_ttl_entry : ℕ → TtlEntry → StringSet × InodeCache → StringSet × InodeCache
unfolding expire_folder
process_ttl_entry now e (processed, c) = elim (find c e.inode_id) [
  | none ↦ (processed, c)
  | some i ↦
      if is_children_fetched i
      then (if has processed e.inode_id
          then (processed, c)
          else (Dict.put processed e.inode_id tt, expire_folder now e.inode_id i c))
      else (processed, c)
]

unfoldable pub process_ttl_entries :
    ℕ → List TtlEntry → StringSet × InodeCache → StringSet × InodeCache
process_ttl_entries now [] s = s
process_ttl_entries now (e ∷ es) s = process_ttl_entries now es (process_ttl_entry now e s)

unfoldable pub sweep_bucket : ℕ → ℕ → StringSet × InodeCache → StringSet × InodeCache
sweep_bucket index now (processed, c) =
    process_ttl_entries now (c.ttl_buckets index) (processed, set_bucket index [] c)

-- for i := 0; i < n; i++ over the indices from `index`
unfoldable pub sweep_all : ℕ → ℕ → ℕ → StringSet × InodeCache → StringSet × InodeCache
sweep_all zero index now s = s
sweep_all (suc n) index now s = sweep_all n (index + 1) now (sweep_bucket index now s)

-- for t := start + 1s; !t.After(now); t += 1s, with the rounds counted
unfoldable pub sweep_from : ℕ → ℕ → ℕ → StringSet × InodeCache → StringSet × InodeCache
sweep_from zero t now s = s
sweep_from (suc n) t now s = sweep_from n (t + second) now (sweep_bucket (ttl_bucket_index t) now s)

unfoldable pub sweep_expired_buckets : ℕ → InodeCache → InodeCache
unfolding sweep_all sweep_from
sweep_expired_buckets now c =
    let start = if eqb c.last_sweep 0 then now - second else c.last_sweep in
    let (_, c') =
      if ltb (ttl_bucket_count * second) (now - start)
      then sweep_all ttl_bucket_count 0 now ([], c)
      else sweep_from ((now - start) / second) (start + second) now ([], c) in
    record c' { last_sweep = now }

-- evictExpiredChildrenFullScan: the reference that looks at every inode.
unfoldable pub scan_inode : ℕ → String → InodeCache → InodeCache
scan_inode now id c = elim (find c id) [
  | none ↦ c
  | some i ↦
      let j = decay_children_access i in
      let c' = store id j c in
      if is_children_fetched i
      then (if ltb (expiry_of c.base_ttl j) now then evict_folder id j c' else c')
      else c
]

unfoldable pub scan_inodes : ℕ → List String → InodeCache → InodeCache
scan_inodes now [] c = c
scan_inodes now (id ∷ ids) c = scan_inodes now ids (scan_inode now id c)

unfoldable pub evict_expired_children_full_scan : ℕ → InodeCache → InodeCache
evict_expired_children_full_scan now c = scan_inodes now (Dict.keys c.inodes) c
