-- ===== src/Contents/Accounting.antt =====
-- The accounting of `ContentCache` (internal/fs/content_cache.go, content_eviction.go): the total
-- of the sizes, and one heap entry for each indexed file.
use onecloudriver.Prelude.{
  ℕ, ◌+◌, String, ◌≡◌, refl, sym, ap, ◌∙◌, true, false, Option, none, some, List, [], ◌∷◌, is_some,
  ◌==◌, eq_iff, if◌then◌else◌, arith, Option-cases, inl, inr,
}
use onecloudriver.Prelude.Int.{pos, ◌+ℤ◌, ◌-ℤ◌}
use onecloudriver.Prelude.Dict
use onecloudriver.Prelude.Dict.{Dict, get, remove, get-put, get-remove, put-IsMap, remove-IsMap}
use onecloudriver.Inodes.Cache.{contains_id, without_id}
use onecloudriver.Contents.Cache.{
  DiskFile, EvictEntry, ContentCache, track_file_info, disk_size, push,
}

unfoldable pub sum_sizes : Dict EvictEntry → ℕ
sum_sizes [] = 0
sum_sizes ((_, e) ∷ es) = e.size + sum_sizes es

-- The sum without a key, for a dictionary in which it has the entry o.
abbrev entry_size : Option EvictEntry → ℕ
entry_size none = 0
entry_size (some e) = e.size

pub sum_sizes-remove :
    (d : Dict EvictEntry) (k : String)
    → Dict.IsMap d
    → sum_sizes (remove d k) + entry_size (get d k) ≡ sum_sizes d
unfolding sum_sizes remove get
sum_sizes-remove [] k h = refl
sum_sizes-remove ((j, e) ∷ d) k (h, hs) = ground (arith, sum_sizes-remove d k hs, eq_iff j k)

pub contains_id-without_id :
    (xs : List String) (x y : String)
    → contains_id (without_id xs x) y ≡ (if x == y then false else contains_id xs y)
unfolding contains_id without_id
contains_id-without_id [] x y = ground arith
contains_id-without_id (z ∷ xs) x y =
    ground (arith, contains_id-without_id xs x y, eq_iff z x, eq_iff z y, eq_iff x y)

-- The index is a map, the total is the sum of its sizes, and the heap holds its paths.
pub record IsAccounted (c : ContentCache) : Type 0 where
  pub is_map : Dict.IsMap c.entries
  pub accounted : c.total_size ≡ pos (sum_sizes c.entries)
  pub in_heap : (p : String) → contains_id c.heap p ≡ is_some (get c.entries p)

pub add_new : (s n : ℕ) → pos s +ℤ pos n ≡ pos (n + s)
unfolding ◌+ℤ◌
add_new s n = ground arith

add_change : (r o n : ℕ) → pos (r + o) +ℤ (pos n -ℤ pos o) ≡ pos (n + r)
unfolding ◌+ℤ◌ ◌-ℤ◌
add_change r o n = ground arith

take_away : (r o : ℕ) → pos (r + o) -ℤ pos o ≡ pos r
unfolding ◌-ℤ◌
take_away r o = ground arith

pub sum_sizes-put :
    (d : Dict EvictEntry) (k : String) (e : EvictEntry)
    → sum_sizes (Dict.put d k e) ≡ e.size + sum_sizes (remove d k)
unfolding Dict.put sum_sizes
sum_sizes-put d k e = refl

pub in_heap-put :
    (d : Dict EvictEntry) (k : String) (e : EvictEntry) (heap : List String) (p : String)
    → contains_id heap p ≡ is_some (get d p)
    → contains_id (k ∷ heap) p ≡ is_some (get (Dict.put d k e) p)
unfolding contains_id
in_heap-put d k e heap p h = ground (arith, get-put d k p e, eq_iff k p)

in_heap-update :
    (d : Dict EvictEntry) (k : String) (e : EvictEntry) (heap : List String) (p : String)
    → contains_id heap k ≡ true
    → contains_id heap p ≡ is_some (get d p)
    → contains_id heap p ≡ is_some (get (Dict.put d k e) p)
in_heap-update d k e heap p g h = ground (arith, get-put d k p e, eq_iff k p)

pub track_new-IsAccounted :
    (path : String) (e : EvictEntry) (c : ContentCache)
    → get c.entries path ≡ none
    → IsAccounted c
    → IsAccounted (record c {
      entries = Dict.put c.entries path e;
      heap = path ∷ c.heap;
      total_size = c.total_size +ℤ pos e.size;
    })
track_new-IsAccounted path e c g h = record {
  is_map = put-IsMap c.entries path e h.is_map;
  accounted =
      let r : sum_sizes (remove c.entries path) ≡ sum_sizes c.entries =
        let s = sum_sizes-remove c.entries path h.is_map in ground (arith, s, g) in
      rw (h.accounted, sum_sizes-put c.entries path e, r) (add_new (sum_sizes c.entries) e.size);
  in_heap = λ p. in_heap-put c.entries path e c.heap p (h.in_heap p);
}

track_old-IsAccounted :
    (path : String) (e old : EvictEntry) (c : ContentCache)
    → get c.entries path ≡ some old
    → IsAccounted c
    → IsAccounted (record c {
      entries = Dict.put c.entries path e;
      heap = push path c.heap;
      total_size = c.total_size +ℤ (pos e.size -ℤ pos old.size);
    })
track_old-IsAccounted path e old c g h =
    let m : contains_id c.heap path ≡ true = h.in_heap path ∙ ap is_some g in
    record {
      is_map = put-IsMap c.entries path e h.is_map;
      accounted =
          let s : sum_sizes (remove c.entries path) + old.size ≡ sum_sizes c.entries =
            ap (λ o. sum_sizes (remove c.entries path) + entry_size o) (sym g)
            ∙ sum_sizes-remove c.entries path h.is_map in
          rw (h.accounted, sum_sizes-put c.entries path e, sym s)
            (add_change (sum_sizes (remove c.entries path)) old.size e.size);
      in_heap = λ p. rw m (in_heap-update c.entries path e c.heap p m (h.in_heap p));
    }

pub track_file_info-IsAccounted :
    (id path : String) (f : DiskFile) (c : ContentCache)
    → IsAccounted c
    → IsAccounted (track_file_info id path f c)
unfolding track_file_info
track_file_info-IsAccounted id path f c h =
    let e : EvictEntry = record { id = id; mod_time = f.mod_time; size = disk_size f } in
    elim (Option-cases (get c.entries path)) [
      | inl g ↦ rw (track_file_info, g) (track_new-IsAccounted path e c g h)
      | inr (old, g) ↦ rw (track_file_info, g) (track_old-IsAccounted path e old c g h)
    ]

-- An entry taken out of the index and of the heap, with its size.
pub drop-IsAccounted :
    (path : String) (e : EvictEntry) (c : ContentCache)
    → get c.entries path ≡ some e
    → IsAccounted c
    → IsAccounted (record c {
      entries = remove c.entries path;
      heap = without_id c.heap path;
      total_size = c.total_size -ℤ pos e.size;
    })
drop-IsAccounted path e c g h = record {
  is_map = remove-IsMap c.entries path h.is_map;
  accounted =
      let s : sum_sizes (remove c.entries path) + e.size ≡ sum_sizes c.entries =
        ap (λ o. sum_sizes (remove c.entries path) + entry_size o) (sym g)
        ∙ sum_sizes-remove c.entries path h.is_map in
      rw (h.accounted, sym s) (take_away (sum_sizes (remove c.entries path)) e.size);
  in_heap = λ p.
      let q = h.in_heap p in
      ground (arith, contains_id-without_id c.heap path p, get-remove c.entries path p, q);
}
