-- ===== src/Inodes/Hits.antt =====
-- Listings that the cache serves (internal/fs/cache.go: getChildren after a fetch).
use onecloudriver.Prelude.{
  ℕ, ◌+◌, ◌-◌, ◌*◌, ◌/◌, ◌<◌, ◌≤◌, String, ◌≡◌, refl, ap, ◌∙◌, Bool, true, false, Option, none,
  some, List, [], ◌∷◌, eq_refl, if◌then◌else◌, arith,
}
use Prim.Native.Nat.{min}
use onecloudriver.Prelude.Dict
use onecloudriver.Prelude.Dict.{Dict, get-put}
use onecloudriver.Graph.Models.{DriveItem}
use onecloudriver.Inodes.Inode.{Inode, u32, u64, bump_children_access, set_children}
use onecloudriver.Inodes.Cache.{InodeCache, find, mark_dirty, contains_id}
use onecloudriver.Inodes.Ttl.{effective_ttl, is_children_fresh, register_ttl}
use onecloudriver.Inodes.SizeLimit.{update_eviction_entry}
use onecloudriver.Inodes.Stored.{
  IsDistinct, AreStored, store_children-AreStored, AreStored-put, build_child_map-child_map,
}
use onecloudriver.Inodes.Fetch.{
  Listing, listed, populate, get_children, get_children_marking, serve_hit, serve_miss,
  touch_folder, store_children, child_ids, child_map, count_dirs, or_minimal, count_hit,
}

-- The effective TTL is at least the base TTL.
pub base-le-effective_ttl : (base_ttl n : ℕ) → base_ttl ≤ effective_ttl base_ttl n
unfolding effective_ttl
base-le-effective_ttl base_ttl n = at_least (min (2 + n) 40) (omega arith)
  where
    at_least : (k : ℕ) → 2 ≤ k → base_ttl ≤ base_ttl * k / 2
    at_least k h = let m : base_ttl * 2 ≤ base_ttl * k = grind arith in omega arith

-- What a call leaves of the cache besides the bookkeeping of evictions.
record IsTouch (pid : String) (q : Inode) (c d : InodeCache) : Type 0 where
  inodes : d.inodes ≡ Dict.put c.inodes pid q
  base_ttl : d.base_ttl ≡ c.base_ttl
  hits : d.hits ≡ c.hits
  misses : d.misses ≡ c.misses

touch_folder-IsTouch :
    (now : ℕ) (pid : String) (p : Inode) (c : InodeCache)
    → IsTouch pid (bump_children_access now p) c (touch_folder now pid p c)
unfolding touch_folder register_ttl update_eviction_entry
touch_folder-IsTouch now pid p c = record {
  inodes = ground arith;
  base_ttl = ground arith;
  hits = ground arith;
  misses = ground arith;
}

store_children-base_ttl :
    (pid : String) (mark : Bool) (items : List DriveItem) (c : InodeCache)
    → (store_children pid mark items c).base_ttl ≡ c.base_ttl
unfolding store_children mark_dirty
store_children-base_ttl pid mark [] c = refl
store_children-base_ttl pid true (x ∷ xs) c = store_children-base_ttl pid true xs _
store_children-base_ttl pid false (x ∷ xs) c = store_children-base_ttl pid false xs _

-- The folder as a fetch leaves it.
filled : ℕ → String → List DriveItem → Inode → Inode
filled now pid items parent =
    let p = set_children now (some (child_ids items)) parent in
    bump_children_access now (record p { subdir = u32 (count_dirs (child_map pid items)) })

module _ (now : ℕ) (pid : String) (mark : Bool) (items : List DriveItem) (c : InodeCache) where
  parent_of : Inode
  parent_of = or_minimal pid (find (store_children pid mark items c) pid)

  folder : Inode
  folder = filled now pid items parent_of

  if-IsTouch :
      (q : Bool) (d e f : InodeCache)
      → IsTouch pid folder d e
      → IsTouch pid folder d f
      → IsTouch pid folder d (if q then e else f)
  if-IsTouch true d e f s t = s
  if-IsTouch false d e f s t = t

  marked-IsTouch :
      (d e : InodeCache) → IsTouch pid folder d e → IsTouch pid folder d (mark_dirty pid e)
  unfolding mark_dirty
  marked-IsTouch d e s = record {
    inodes = s.inodes;
    base_ttl = s.base_ttl;
    hits = s.hits;
    misses = s.misses;
  }

  populate-IsTouch :
      IsTouch pid folder (store_children pid mark items c) (populate now pid mark items c)
  unfolding populate folder parent_of filled
  populate-IsTouch =
      let c1 = store_children pid mark items c in
      let p = set_children now (some (child_ids items)) parent_of in
      let s =
        touch_folder-IsTouch now pid (record p { subdir = u32 (count_dirs (child_map pid items)) })
          c1 in
      let t =
        if-IsTouch _ c1 _ _ s
          (record { inodes = s.inodes; base_ttl = s.base_ttl; hits = s.hits; misses = s.misses }) in
      if-IsTouch mark c1 _ _ (marked-IsTouch c1 _ t) t

  found_folder : find (populate now pid mark items c) pid ≡ some folder
  found_folder =
      let c1 = store_children pid mark items c in
      ap (λ d. Dict.get d pid) populate-IsTouch.inodes
      ∙ get-put c1.inodes pid pid folder
      ∙ rw (eq_refl pid)

  is_fresh :
      (later : ℕ)
      → later - now < c.base_ttl
      → is_children_fresh later (populate now pid mark items c) folder ≡ true
  unfolding is_children_fresh folder filled set_children bump_children_access
  is_fresh later h =
      let t = populate-IsTouch.base_ttl ∙ store_children-base_ttl pid mark items c in
      let b = base-le-effective_ttl c.base_ttl folder.access_count in rw t (ground arith)

  hit_lem :
      (later : ℕ)
      → later - now < c.base_ttl
      → get_children later pid none (populate now pid mark items c)
        ≡ serve_hit later pid folder (child_ids items) (populate now pid mark items c)
  unfolding get_children get_children_marking folder filled set_children bump_children_access
  hit_lem later h =
      let c' = populate now pid mark items c in
      ap
        (λ (o : Option Inode).
          let r : Listing (Dict Inode) × InodeCache = elim o [
            | none ↦ serve_miss later pid none true c'
            | some parent ↦ elim parent.children [
              | none ↦ serve_miss later pid none true c'
              | some ids ↦
                  if is_children_fresh later c' parent
                  then serve_hit later pid parent ids c'
                  else serve_miss later pid none true c'
            ]
          ] in
          r)
        found_folder
      ∙ rw (is_fresh later h)

  -- The items are in the cache that a hit leaves.
  hit-AreStored :
      (later : ℕ)
      → IsDistinct (child_ids items)
      → contains_id (child_ids items) pid ≡ false
      → AreStored pid items
          (touch_folder later pid folder (count_hit (populate now pid mark items c)))
  hit-AreStored later distinct apart =
      let c1 = store_children pid mark items c in
      let c' = populate now pid mark items c in
      let s = store_children-AreStored pid mark items c distinct in
      let t = AreStored-put pid pid folder items c1 c' populate-IsTouch.inodes apart s in
      AreStored-put pid pid (bump_children_access later folder) items c'
        (touch_folder later pid folder (count_hit c'))
        (touch_folder-IsTouch later pid folder (count_hit c')).inodes apart t

  -- A listing that a fetch of a folder put into the cache, of items that have distinct IDs other than
  -- the folder's, is served from the cache, without a fetcher, for the base TTL at least: the answer
  -- is the very map from names to inodes that the fetch answered, the hit counter goes up and the
  -- miss counter stays.
  pub get_children-populate :
      (later : ℕ)
      → later - now < c.base_ttl
      → IsDistinct (child_ids items)
      → contains_id (child_ids items) pid ≡ false
      → let c' = populate now pid mark items c in
        let r = get_children later pid none c' in
        (r.0 ≡ listed (child_map pid items))
        × (r.1.hits ≡ u64 (c'.hits + 1))
        × (r.1.misses ≡ c'.misses)
  unfolding serve_hit
  get_children-populate later h distinct apart =
      let c' = populate now pid mark items c in
      let e = hit_lem later h in
      let t = touch_folder-IsTouch later pid folder (count_hit c') in
      (
        ap (λ (r : Listing (Dict Inode) × InodeCache). r.0) e
            ∙ ap listed (
                build_child_map-child_map pid items
                  (touch_folder later pid folder (count_hit (populate now pid mark items c)))
                  (hit-AreStored later distinct apart)),
        ap (λ (r : Listing (Dict Inode) × InodeCache). r.1.hits) e ∙ t.hits,
        ap (λ (r : Listing (Dict Inode) × InodeCache). r.1.misses) e ∙ t.misses,
      )
