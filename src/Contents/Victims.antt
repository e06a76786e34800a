-- ===== src/Contents/Victims.antt =====
-- The rounds of `evictBySize` (internal/fs/content_eviction.go), case by case, and what every
-- round keeps.
use onecloudriver.Prelude.{
  ℕ, zero, suc, String, ◌≡◌, refl, sym, ap, ◌∙◌, Bool, true, false, ◌⊎◌, Option, none, some, List,
  [], ◌∷◌, ◌++◌, is_some, if◌then◌else◌, Bool-cases, Option-cases, inl, inr,
}
use onecloudriver.Prelude.Dict.{get}
use onecloudriver.Contents.Cache.{
  Naming, Io, DiskFile, EvictEntry, ContentCache, evict_entry_is_open, oldest,
}
use onecloudriver.Contents.Evict.{
  drop_entry, remove_file, pop, next_victim, evict_entry, evict_popped, evict_loop, is_over,
}

-- The entries that wait to be pushed back.
abbrev pub defer : Bool → String → List String → List String
defer defers path deferred = if defers then deferred ++ path ∷ [] else deferred

pub next_victim-oldest :
    (c : ContentCache) (path : String)
    → next_victim c ≡ some path
    → (is_over c ≡ true) × (oldest c.entries c.heap ≡ some path)
unfolding next_victim
next_victim-oldest c path h = elim (Bool-cases (is_over c)) [
  | inl e ↦ (e, ap (λ q. if q then oldest c.entries c.heap else none) (sym e) ∙ h)
  | inr e ↦
      let k : none ≡ some path =
        ap (λ q. if q then oldest c.entries c.heap else none) (sym e) ∙ h in
      cc
]

pub next_victim-none :
    (c : ContentCache)
    → next_victim c ≡ none
    → (is_over c ≡ false) ⊎ (oldest c.entries c.heap ≡ none)
unfolding next_victim
next_victim-none c h = elim (Bool-cases (is_over c)) [
  | inl e ↦ inr (ap (λ q. if q then oldest c.entries c.heap else none) (sym e) ∙ h)
  | inr e ↦ inl e
]

module _ (lib : Naming) (io : Io) where
  -- An entry that eviction leaves alone: its file is open, or it is there and its removal fails.
  abbrev pub IsSpared : String → EvictEntry → ContentCache → Type 0
  IsSpared path e c =
      (evict_entry_is_open lib path e c ≡ true)
      ⊎ ((is_some (get c.files path) ≡ true) × (io.removes path ≡ false))

  pub data Popped (path : String) (c : ContentCache) : Bool × ContentCache → Type 0 where
    stale : get c.entries path ≡ none → Popped path c (false, pop path c)
    spared :
        (e : EvictEntry)
        → get c.entries path ≡ some e
        → IsSpared path e c
        → Popped path c (true, pop path c)
    gone :
        (e : EvictEntry)
        → get c.entries path ≡ some e
        → evict_entry_is_open lib path e c ≡ false
        → get c.files path ≡ none
        → Popped path c (false, drop_entry path e (pop path c))
    evicted :
        (e : EvictEntry) (f : DiskFile)
        → get c.entries path ≡ some e
        → evict_entry_is_open lib path e c ≡ false
        → get c.files path ≡ some f
        → io.removes path ≡ true
        → Popped path c (false, drop_entry path e (remove_file path (pop path c)))

  evict_file-Popped :
      (path : String) (e : EvictEntry) (c : ContentCache)
      → get c.entries path ≡ some e
      → evict_entry_is_open lib path e c ≡ false
      → (o : Option DiskFile) → get c.files path ≡ o
      → (q : Bool) → io.removes path ≡ q
      → Popped path c (elim o [
        | none ↦ (false, drop_entry path e (pop path c))
        | some _ ↦
            if q
            then (false, drop_entry path e (remove_file path (pop path c)))
            else (true, pop path c)
      ])
  evict_file-Popped path e c g h none k q r = gone e g h k
  evict_file-Popped path e c g h (some f) k true r = evicted e f g h k r
  evict_file-Popped path e c g h (some f) k false r = spared e g (inr (ap is_some k, r))

  evict_entry-Popped :
      (path : String) (e : EvictEntry) (c : ContentCache)
      → get c.entries path ≡ some e
      → Popped path c (evict_entry lib io path e (pop path c))
  unfolding evict_entry
  evict_entry-Popped path e c g = elim (Bool-cases (evict_entry_is_open lib path e c)) [
    | inl h ↦ rw h (spared e g (inl h))
    | inr h ↦ rw h (evict_file-Popped path e c g h (get c.files path) refl (io.removes path) refl)
  ]

  pub evict_popped-Popped :
      (path : String) (c : ContentCache) → Popped path c (evict_popped lib io path c)
  unfolding evict_popped
  evict_popped-Popped path c = elim (Option-cases (get c.entries path)) [
    | inl g ↦ rw (evict_popped, g) (stale g)
    | inr (e, g) ↦ rw (evict_popped, g) (evict_entry-Popped path e c g)
  ]

  -- What every round keeps holds after the loop.
  module _ (P : List String → ContentCache → Type 0)
      (keeps : (deferred : List String) (path : String) (c : ContentCache) (r : Bool × ContentCache)
        → next_victim c ≡ some path
        → Popped path c r
        → P deferred c
        → P (defer r.0 path deferred) r.1) where
    pub evict_loop-keeps :
        (n : ℕ) (deferred : List String) (c : ContentCache)
        → P deferred c
        → P (evict_loop lib io n deferred c).0 (evict_loop lib io n deferred c).1
    unfolding evict_loop
    evict_loop-keeps zero deferred c h = h
    evict_loop-keeps (suc n) deferred c h = elim (Option-cases (next_victim c)) [
      | inl e ↦ rw (evict_loop, e) h
      | inr (path, e) ↦
          let r = evict_popped lib io path c in
          rw (evict_loop, e)
            (evict_loop-keeps n (defer r.0 path deferred) r.1
              (keeps deferred path c r e (evict_popped-Popped path c) h))
    ]
