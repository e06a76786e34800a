-- ===== src/Inodes/Stored.antt =====
-- What a fetch leaves in the cache (internal/fs/cache.go: getChildren after its fetch).
use onecloudriver.Prelude.{
  String, ◌≡◌, refl, ap, ◌∙◌, Bool, true, false, ◌||◌, Option, none, some, List, [], ◌∷◌, is_some,
  ◌==◌, eq_refl, eq_iff, if◌then◌else◌, arith, Bool-cases, inl, inr, All,
}
use onecloudriver.Prelude.Dict
use onecloudriver.Prelude.Dict.{Dict, get-put}
use onecloudriver.Graph.Models.{DriveItem}
use onecloudriver.Inodes.Inode.{Inode, new_inode_drive_item, parent_id}
use onecloudriver.Inodes.Cache.{InodeCache, find, store, mark_dirty, contains_id}
use onecloudriver.Inodes.Fetch.{
  inode_of_item, store_children, child_ids, child_map, build_child_map,
}

-- No ID comes twice.
abbrev pub IsDistinct : List String → Type 0
IsDistinct [] = Unit
IsDistinct (id ∷ ids) = (contains_id ids id ≡ false) × IsDistinct ids

-- Each item is in the cache, under its ID.
abbrev pub AreStored : String → List DriveItem → InodeCache → Type 0
AreStored pid items c = All (λ item. find c item.id ≡ some (inode_of_item pid item)) items

inode_of_item-id : (pid : String) (item : DriveItem) → (inode_of_item pid item).item.id ≡ item.id
unfolding inode_of_item new_inode_drive_item
inode_of_item-id pid item = elim (Bool-cases (parent_id (new_inode_drive_item item) == "")) [
  | inl e ↦ rw e refl
  | inr e ↦ rw e refl
]

-- The cache after the first item is stored.
stored_first : String → Bool → DriveItem → InodeCache → InodeCache
stored_first pid mark item c =
    let i = inode_of_item pid item in
    let c1 = store i.item.id i c in if mark then mark_dirty i.item.id c1 else c1

find-stored_first :
    (pid : String) (mark : Bool) (item : DriveItem) (c : InodeCache) (k : String)
    → find (stored_first pid mark item c) k
      ≡ (if item.id == k then some (inode_of_item pid item) else find c k)
unfolding stored_first mark_dirty
find-stored_first pid mark item c k =
    of_mark mark
    ∙ get-put c.inodes i.item.id k i
    ∙ ap (λ x. if x == k then some i else find c k) (inode_of_item-id pid item)
  where
    i : Inode
    i = inode_of_item pid item

    of_mark :
        (m : Bool)
        → find (if m then mark_dirty i.item.id (store i.item.id i c) else store i.item.id i c) k
          ≡ find (store i.item.id i c) k
    of_mark true = refl
    of_mark false = refl

find-store_children :
    (pid : String) (mark : Bool) (items : List DriveItem) (c : InodeCache) (k : String)
    → contains_id (child_ids items) k ≡ false
    → find (store_children pid mark items c) k ≡ find c k
unfolding store_children child_ids contains_id stored_first
find-store_children pid mark [] c k h = refl
find-store_children pid mark (item ∷ items) c k h =
    let f = find-stored_first pid mark item c k in
    let (a, b) = neither (item.id == k) (contains_id (child_ids items) k) h in
    find-store_children pid mark items (stored_first pid mark item c) k b
    ∙ f
    ∙ ap (λ q. if q then some (inode_of_item pid item) else find c k) a
  where
    neither : (a b : Bool) → (a || b) ≡ false → (a ≡ false) × (b ≡ false)
    neither true b e = cc
    neither false b e = (refl, e)

pub store_children-AreStored :
    (pid : String) (mark : Bool) (items : List DriveItem) (c : InodeCache)
    → IsDistinct (child_ids items)
    → AreStored pid items (store_children pid mark items c)
unfolding store_children child_ids stored_first
store_children-AreStored pid mark [] c h = tt
store_children-AreStored pid mark (item ∷ items) c (h, hs) = (
  find-store_children pid mark items (stored_first pid mark item c) item.id h
      ∙ find-stored_first pid mark item c item.id
      ∙ rw (eq_refl item.id) refl,
  store_children-AreStored pid mark items (stored_first pid mark item c) hs,
)

-- Stored items stay where another ID is written.
pub AreStored-put :
    (pid k : String) (i : Inode) (items : List DriveItem) (c d : InodeCache)
    → d.inodes ≡ Dict.put c.inodes k i
    → contains_id (child_ids items) k ≡ false
    → AreStored pid items c
    → AreStored pid items d
unfolding child_ids contains_id
AreStored-put pid k i [] c d e h s = tt
AreStored-put pid k i (item ∷ items) c d e h (s, ss) =
    let other : (k == item.id) ≡ false = ground (arith, h, eq_iff k item.id, eq_iff item.id k) in
    (
      ap (λ x. Dict.get x item.id) e
          ∙ get-put c.inodes k item.id i
          ∙ ap (λ q. if q then some i else find c item.id) other
          ∙ s,
      AreStored-put pid k i items c d e (ground (arith, h)) ss,
    )

-- Stored items are served as the fetch returned them.
pub build_child_map-child_map :
    (pid : String) (items : List DriveItem) (c : InodeCache)
    → AreStored pid items c
    → build_child_map c (child_ids items) ≡ child_map pid items
unfolding build_child_map child_map child_ids
build_child_map-child_map pid [] c s = refl
build_child_map-child_map pid (item ∷ items) c (s, ss) =
    let rest = build_child_map-child_map pid items c ss in
    let i = inode_of_item pid item in
    let add : Dict Inode → Dict Inode =
      λ m. if is_some (Dict.get m i.item.name) then m else Dict.put m i.item.name i in
    ap
      (λ (o : Option Inode).
        let m : Dict Inode = elim o [
          | none ↦ build_child_map c (child_ids items)
          | some j ↦
              if is_some (Dict.get (build_child_map c (child_ids items)) j.item.name)
              then build_child_map c (child_ids items)
              else Dict.put (build_child_map c (child_ids items)) j.item.name j
        ] in
        m)
      s
    ∙ ap add rest
