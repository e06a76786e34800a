-- ===== src/Inodes/Tree/Joining.antt =====
-- Which folders list a child after MoveChild (internal/fs/cache.go).
use mathlib.Core.Path.{subst}
use onecloudriver.Prelude.{
  ℕ, String, ◌≡◌, refl, sym, ap, ◌∙◌, Bool, true, false, Option, none, some, List, [], ◌∷◌, ◌++◌,
  is_some, ◌==◌, eq_refl, eq_iff, arith, Bool-cases, inl, inr,
}
use onecloudriver.Prelude.Dict
use onecloudriver.Prelude.Dict.{get-put}
use onecloudriver.Inodes.Inode.{Inode, is_dir}
use onecloudriver.Inodes.Cache.{
  InodeCache, find, store, mark_dirty, attach_child, detach_child, contains_id, without_id, add_id,
}
use onecloudriver.Inodes.Tree.{
  when_found, attach_seeded, attach_to, detach_from, move_child, move_found,
}
use onecloudriver.Inodes.Tree.Marking.{SameTree-attach_to}
use onecloudriver.Inodes.Tree.Moves.{children_of, SameAt-attach_seeded}

-- Is an ID in a list of children, where there is one?
abbrev pub in_list : Option (List String) → String → Bool
in_list none id = false
in_list (some ids) id = contains_id ids id

-- Does a folder, if it is there, list a child?
abbrev pub lists : Option Inode → String → Bool
lists o id = in_list (children_of o) id

contains-append : (ids : List String) (id : String) → contains_id (ids ++ id ∷ []) id ≡ true
unfolding contains_id
contains-append [] id = rw (eq_refl id)
contains-append (x ∷ xs) id = let k = contains-append xs id in ground (arith, k)

contains-add_id : (ids : List String) (id : String) → contains_id (add_id ids id) id ≡ true
contains-add_id ids id = elim (Bool-cases (contains_id ids id)) [
  | inl e ↦ rw e e
  | inr e ↦ rw e (contains-append ids id)
]

contains-without_id : (ids : List String) (id : String) → contains_id (without_id ids id) id ≡ false
unfolding contains_id without_id
contains-without_id [] id = refl
contains-without_id (x ∷ xs) id =
    let k = contains-without_id xs id in
    elim (Bool-cases (x == id)) [ inl e ↦ rw e k | inr e ↦ rw (e, contains_id, e) k ]

in_list-attach_child :
    (p : Inode) (id : String) (dir : Bool) → in_list (attach_child p id dir true).children id ≡ true
unfolding attach_child
in_list-attach_child p id dir = go p.children
  where
    go :
        (o : Option (List String))
        → in_list (elim o [ some ids ↦ some (add_id ids id) | none ↦ some (add_id [] id) ]) id
          ≡ true
    go none = contains-add_id [] id
    go (some ids) = contains-add_id ids id

in_list-detach_child :
    (p : Inode) (id : String) (dir : Bool) → in_list (detach_child p id dir).children id ≡ false
unfolding detach_child
in_list-detach_child p id dir = go p.children
  where
    go :
        (o : Option (List String))
        → in_list (elim o [ some ids ↦ some (without_id ids id) | none ↦ none ]) id ≡ false
    go none = refl
    go (some ids) = contains-without_id ids id

-- A write over an inode that is there.
is_some-store :
    (pid k : String) (p q : Inode) (c : InodeCache)
    → find c pid ≡ some p
    → is_some (find (store pid q c) k) ≡ is_some (find c k)
is_some-store pid k p q c h = elim (Bool-cases (pid == k)) [
  | inl e ↦
      let f : find c k ≡ some p = ap (find c) (sym ((eq_iff pid k).0 e)) ∙ h in
      rw (get-put c.inodes pid k q, e, f) refl
  | inr e ↦ rw (get-put c.inodes pid k q, e) refl
]

module _ (pid id : String) (dir : Bool) (c : InodeCache) where
  detach_from-lists : lists (find (detach_from pid id dir c) pid) id ≡ false
  unfolding detach_from
  detach_from-lists = go (find c pid) refl
    where
      go :
          (o : Option Inode)
          → find c pid ≡ o
          → lists (find (when_found o c (λ p. store pid (detach_child p id dir) c)) pid) id ≡ false
      go none h = rw h refl
      go (some p) h =
          rw (get-put c.inodes pid pid (detach_child p id dir), eq_refl pid)
            (in_list-detach_child p id dir)

  detach_from-is_some :
      (k : String) → is_some (find (detach_from pid id dir c) k) ≡ is_some (find c k)
  unfolding detach_from
  detach_from-is_some k = go (find c pid) refl
    where
      go :
          (o : Option Inode)
          → find c pid ≡ o
          → is_some (find (when_found o c (λ p. store pid (detach_child p id dir) c)) k)
            ≡ is_some (find c k)
      go none h = refl
      go (some p) h = is_some-store pid k p (detach_child p id dir) c h

  module _ (now : ℕ) where
    attached : (k : String) (o : Option Inode) → Option Inode
    attached k o = find (when_found o c (λ p. attach_to now pid id dir p c)) k

    find-attach_to :
        (k : String) (p : Inode)
        → find (attach_to now pid id dir p c) k ≡ find (store pid (attach_child p id dir true) c) k
    unfolding mark_dirty
    find-attach_to k p = sym (ap (λ d. Dict.get d k) (SameTree-attach_to now pid id dir p c).inodes)

    attach_seeded-lists :
        lists (find (attach_seeded now pid id dir c) pid) id ≡ is_some (find c pid)
    unfolding attach_seeded attached
    attach_seeded-lists = go (find c pid) refl
      where
        go : (o : Option Inode) → find c pid ≡ o → lists (attached pid o) id ≡ is_some o
        go none h = rw h refl
        go (some p) h =
            rw
              (
                find-attach_to pid p,
                get-put c.inodes pid pid (attach_child p id dir true),
                eq_refl pid,
              )
              (in_list-attach_child p id dir)

    attach_seeded-is_some :
        (k : String) → is_some (find (attach_seeded now pid id dir c) k) ≡ is_some (find c k)
    unfolding attach_seeded attached
    attach_seeded-is_some k = go (find c pid) refl
      where
        go : (o : Option Inode) → find c pid ≡ o → is_some (attached k o) ≡ is_some (find c k)
        go none h = refl
        go (some p) h =
            rw (find-attach_to k p) (is_some-store pid k p (attach_child p id dir true) c h)

-- After a move of a child that is in the cache: the new folder lists it if the cache has that folder,
-- another old folder does not, and no inode came or went.
pub record IsMoved (old new id : String) (c d : InodeCache) : Type 0 where
  pub joined : lists (find d new) id ≡ is_some (find c new)
  pub left : (new == old) ≡ false → lists (find d old) id ≡ false
  pub kept : (k : String) → is_some (find d k) ≡ is_some (find c k)

pub move_child-IsMoved :
    (now : ℕ) (old new id : String) (c : InodeCache) (i : Inode)
    → find c id ≡ some i
    → IsMoved old new id c (move_child now old new id c)
unfolding move_child move_found mark_dirty
move_child-IsMoved now old new id c i h =
    let d = detach_from old id (is_dir i) c in
    let e : move_child now old new id c ≡ move_found now old new id i c =
      ap (λ o. when_found o c (λ j. move_found now old new id j c)) h in
    subst (IsMoved old new id c) (sym e) (record {
      joined =
          attach_seeded-lists new id (is_dir i) d now ∙ detach_from-is_some old id (is_dir i) c new;
      left = λ n.
          ap (λ o. lists o id) (SameAt-attach_seeded now new id (is_dir i) d old n).inode
          ∙ detach_from-lists old id (is_dir i) c;
      kept = λ k.
          attach_seeded-is_some new id (is_dir i) d now k
          ∙ detach_from-is_some old id (is_dir i) c k;
    })
