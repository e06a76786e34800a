-- ===== src/Inodes/Tree/Counting.antt =====
-- The counter of listed folders that the size eviction of internal/fs/cache.go decides by.
use onecloudriver.Prelude.{
  ℕ, ◌+◌, String, ◌≡◌, refl, sym, ap, ◌∙◌, Bool, true, not, ◌&&◌, Option, none, some, [], ◌∷◌,
  arith, ◌==◌, eq_iff, Bool-cases, inl, inr, if◌then◌else◌,
}
use onecloudriver.Prelude.Int.{ℤ, pos, ◌+ℤ◌, ◌-ℤ◌}
use native.Mathlib.Nat.{zero-add}
use onecloudriver.Prelude.Dict
use onecloudriver.Prelude.Dict.{Dict, IsMap, get-remove, get-put, remove-IsMap, put-IsMap}
use onecloudriver.Inodes.Inode.{Inode, is_dir, parent_id, is_children_fetched}
use onecloudriver.Inodes.Cache.{
  InodeCache, find, store, drop_inode, mark_dirty, mark_deleted, attach_child, detach_child,
}
use onecloudriver.Inodes.Ttl.{register_ttl}
use onecloudriver.Inodes.SizeLimit.{update_eviction_entry}
use onecloudriver.Inodes.Tree.{
  when_found, count_folder, uncount_folder, attach_to, attach_seeded, detach_from, delete,
  delete_found, remove_child, remove_found, move_child, move_found,
}

abbrev pub flag : Option Inode → ℕ
flag none = 0
flag (some i) = if is_children_fetched i then 1 else 0

-- How many inodes hold a children list.
unfoldable pub fetched_count : Dict Inode → ℕ
fetched_count [] = 0
fetched_count ((_, i) ∷ d) = flag (some i) + fetched_count d

-- The counter exceeds the number of listed folders by `extra`.
pub record CountedBy (extra : ℕ) (c : InodeCache) : Type 0 where
  pub keyed : IsMap c.inodes
  pub counted : c.cached_folders ≡ pos (fetched_count c.inodes + extra)

abbrev pub IsCounted : InodeCache → Type 0
IsCounted = CountedBy 0

fetched_count-remove :
    (d : Dict Inode) (k : String)
    → IsMap d
    → fetched_count d ≡ fetched_count (Dict.remove d k) + flag (Dict.get d k)
unfolding fetched_count Dict.remove Dict.get
fetched_count-remove [] k h = refl
fetched_count-remove ((j, i) ∷ d) k h = ground (arith, fetched_count-remove d k h.1, eq_iff j k)

pub fetched_count-put :
    (d : Dict Inode) (k : String) (i : Inode)
    → IsMap d
    → fetched_count (Dict.put d k i) + flag (Dict.get d k) ≡ fetched_count d + flag (some i)
unfolding fetched_count Dict.put
fetched_count-put d k i h = omega (arith, fetched_count-remove d k h)

plus_one : (x : ℤ) (n m : ℕ) → x ≡ pos n → m ≡ n + 1 → x +ℤ pos 1 ≡ pos m
unfolding ◌+ℤ◌
plus_one x n m p q = ground arith

pub minus_one : (x : ℤ) (n m : ℕ) → x ≡ pos n → n ≡ m + 1 → x -ℤ pos 1 ≡ pos m
unfolding ◌-ℤ◌
minus_one x n m p q = ground arith

flag-attach_child :
    (p : Inode) (child_id : String) (dir : Bool)
    → (not (is_children_fetched p) && is_children_fetched (attach_child p child_id dir true))
      ≡ not (is_children_fetched p)
unfolding attach_child
flag-attach_child p child_id dir = ground arith

fetched-attach_child :
    (p : Inode) (child_id : String) (dir : Bool)
    → is_children_fetched (attach_child p child_id dir true) ≡ true
unfolding attach_child
fetched-attach_child p child_id dir = ground arith

flag-detach_child :
    (p : Inode) (child_id : String) (dir : Bool)
    → is_children_fetched (detach_child p child_id dir) ≡ is_children_fetched p
unfolding detach_child
flag-detach_child p child_id dir = ground arith

seeded_fields :
    (p : Inode) (now : ℕ) (c : InodeCache)
    → let c' = count_folder (update_eviction_entry p now (register_ttl p c)) in
      (c'.inodes ≡ c.inodes) × (c'.cached_folders ≡ c.cached_folders +ℤ pos 1)
unfolding register_ttl update_eviction_entry
seeded_fields p now c = ground arith

mark_dirty-CountedBy :
    {extra : ℕ} {c : InodeCache} (id : String)
    → CountedBy extra c
    → CountedBy extra (mark_dirty id c)
unfolding mark_dirty
mark_dirty-CountedBy id s = record { keyed = s.keyed; counted = s.counted }

when_found-CountedBy :
    {extra : ℕ} (o : Option Inode) (c : InodeCache) (f : Inode → InodeCache)
    → CountedBy extra c
    → ((i : Inode) → o ≡ some i → CountedBy extra (f i))
    → CountedBy extra (when_found o c f)
when_found-CountedBy none c f s k = s
when_found-CountedBy (some i) c f s k = k i refl

-- Removing an inode leaves the counter one too high if the inode was listed.
drop_inode-CountedBy :
    {extra : ℕ} {c : InodeCache} (id : String)
    → CountedBy extra c
    → CountedBy (extra + flag (find c id)) (mark_deleted id (drop_inode id c))
unfolding mark_deleted
drop_inode-CountedBy {extra} {c} id s = record {
  keyed = remove-IsMap c.inodes id s.keyed;
  counted = let n = fetched_count-remove c.inodes id s.keyed in s.counted ∙ ap pos (omega arith);
}

uncount-CountedBy :
    {extra : ℕ} (c : InodeCache) → CountedBy (extra + 1) c → CountedBy extra (uncount_folder c)
uncount-CountedBy c s = record {
  keyed = s.keyed;
  counted = minus_one c.cached_folders _ _ s.counted (omega arith);
}

module _ (extra : ℕ) (c : InodeCache) (s : CountedBy extra c) where
  -- A store that does not change whether the inode is listed.
  store-CountedBy :
      (id : String) (i : Inode) → flag (find c id) ≡ flag (some i) → CountedBy extra (store id i c)
  store-CountedBy id i e = record {
    keyed = put-IsMap c.inodes id i s.keyed;
    counted =
        let n = fetched_count-put c.inodes id i s.keyed in
        s.counted ∙ ap (λ k. pos (k + extra)) (omega arith);
  }

  detach_from-CountedBy :
      (pid child_id : String) (dir : Bool) → CountedBy extra (detach_from pid child_id dir c)
  unfolding detach_from
  detach_from-CountedBy pid child_id dir =
      when_found-CountedBy (find c pid) c (λ p. store pid (detach_child p child_id dir) c) s
        λ p e.
          store-CountedBy pid (detach_child p child_id dir)
            (ap flag e ∙ ap (λ q. if q then 1 else 0) (sym (flag-detach_child p child_id dir)))

  attach_to-CountedBy :
      (now : ℕ) (pid child_id : String) (dir : Bool) (parent : Inode)
      → find c pid ≡ some parent
      → CountedBy extra (attach_to now pid child_id dir parent c)
  unfolding attach_to
  attach_to-CountedBy now pid child_id dir parent e =
      let p = attach_child parent child_id dir true in
      let listed = fetched-attach_child parent child_id dir in
      mark_dirty-CountedBy pid (
        rw (flag-attach_child parent child_id dir) (elim (Bool-cases (is_children_fetched parent)) [
          | inl f ↦ rw f (store-CountedBy pid p (rw (e, f, listed)))
          | inr f ↦
              let k = seeded_fields p now (store pid p c) in
              let n = fetched_count-put c.inodes pid p s.keyed in
              let before : flag (find c pid) ≡ 0 = rw (e, f) in
              let after : flag (some p) ≡ 1 = rw listed in
              let m : fetched_count (Dict.put c.inodes pid p) ≡ fetched_count c.inodes + 1 =
                omega (arith, n, before, after) in
              rw f (record {
                keyed = rw k.0 (put-IsMap c.inodes pid p s.keyed);
                counted =
                    rw (k.0, k.1) (plus_one c.cached_folders _ _ s.counted (omega (arith, m)));
              })
        ]))

  attach_seeded-CountedBy :
      (now : ℕ) (pid child_id : String) (dir : Bool)
      → CountedBy extra (attach_seeded now pid child_id dir c)
  unfolding attach_seeded
  attach_seeded-CountedBy now pid child_id dir =
      when_found-CountedBy (find c pid) c (λ p. attach_to now pid child_id dir p c) s
        (attach_to-CountedBy now pid child_id dir)

-- Delete's uncounting comes before the removal.
bury-IsCounted :
    (id : String) (i : Inode) (c : InodeCache)
    → IsCounted c
    → flag (find c id) ≡ flag (some i)
    → IsCounted
        (mark_deleted id (drop_inode id (if is_children_fetched i then uncount_folder c else c)))
unfolding mark_deleted
bury-IsCounted id i c s e = elim (Bool-cases (is_children_fetched i)) [
  | inl f ↦
      let one : flag (find c id) ≡ 1 = e ∙ rw f in
      rw f (uncount-CountedBy _ (rw one at (drop_inode-CountedBy id s)))
  | inr f ↦
      let zero : flag (find c id) ≡ 0 = e ∙ rw f in rw f (rw zero at (drop_inode-CountedBy id s))
]

flag-detach_from :
    (pid child_id : String) (dir : Bool) (c : InodeCache) (id : String)
    → flag (find (detach_from pid child_id dir c) id) ≡ flag (find c id)
unfolding detach_from
flag-detach_from pid child_id dir c id = go (find c pid) refl
  where
    go :
        (o : Option Inode)
        → find c pid ≡ o
        → flag (find (when_found o c (λ p. store pid (detach_child p child_id dir) c)) id)
          ≡ flag (find c id)
    go none e = refl
    go (some p) e = ground (
      arith,
      get-put c.inodes pid id (detach_child p child_id dir),
      eq_iff pid id,
      flag-detach_child p child_id dir,
    )

module _ (c : InodeCache) (s : IsCounted c) where
  delete_found-IsCounted :
      (id : String) (i : Inode) → find c id ≡ some i → IsCounted (delete_found id i c)
  unfolding delete_found
  delete_found-IsCounted id i e =
      let pid = parent_id i in
      let held : flag (find c id) ≡ flag (some i) = ap flag e in
      elim (Bool-cases (pid == "")) [
        | inl r ↦ rw r (bury-IsCounted id i c s held)
        | inr r ↦ rw r (
            mark_dirty-CountedBy pid (
              bury-IsCounted id i _ (detach_from-CountedBy 0 c s pid id (is_dir i))
                (flag-detach_from pid id (is_dir i) c id ∙ held)))
      ]

  -- Where the counter of listed folders is exact, it is exact after Delete.
  pub delete-IsCounted : (id : String) → IsCounted (delete id c)
  unfolding delete
  delete-IsCounted id =
      when_found-CountedBy (find c id) c (λ i. delete_found id i c) s (delete_found-IsCounted id)

  -- Where the counter of listed folders is exact, it is exact after MoveChild, whether or not that
  -- lists the new parent.
  pub move_child-IsCounted :
      (now : ℕ) (old_parent new_parent child_id : String)
      → IsCounted (move_child now old_parent new_parent child_id c)
  unfolding move_child move_found
  move_child-IsCounted now old_parent new_parent child_id =
      when_found-CountedBy (find c child_id) c
        (λ i. move_found now old_parent new_parent child_id i c) s
        (λ i e. mark_dirty-CountedBy child_id (
          attach_seeded-CountedBy 0 _ (detach_from-CountedBy 0 c s old_parent child_id (is_dir i))
            now new_parent child_id (is_dir i)))

  remove_found-CountedBy :
      (pid child_id : String) (i : Inode)
      → CountedBy (flag (find c child_id)) (remove_found pid child_id i c)
  unfolding remove_found
  remove_found-CountedBy pid child_id i =
      let c1 = detach_from pid child_id (is_dir i) c in
      let dropped =
        rw (zero-add, flag-detach_from pid child_id (is_dir i) c child_id) at
          (drop_inode-CountedBy child_id (detach_from-CountedBy 0 c s pid child_id (is_dir i))) in
      elim (Bool-cases (pid == "")) [
        | inl r ↦ rw r dropped
        | inr r ↦ rw r (mark_dirty-CountedBy pid dropped)
      ]

  -- RemoveChild does not count the removed folder out: where the counter was exact and the removed
  -- inode was a listed folder, the counter is one too high afterwards; otherwise it is exact.
  pub remove_child-CountedBy :
      (pid child_id : String) → CountedBy (flag (find c child_id)) (remove_child pid child_id c)
  unfolding remove_child
  remove_child-CountedBy pid child_id = go (find c child_id) refl
    where
      go :
          (o : Option Inode)
          → find c child_id ≡ o
          → CountedBy (flag o) (when_found o c (λ i. remove_found pid child_id i c))
      go none e = s
      go (some i) e = rw (ap flag e) at (remove_found-CountedBy pid child_id i)
