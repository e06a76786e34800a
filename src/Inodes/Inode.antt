-- ===== src/Inodes/Inode.antt =====
-- internal/fs/inode.go: one node of the metadata tree.
-- A time is a number of nanoseconds since Go's zero time, so 0 is the zero `time.Time`.
use Prim.Native.String.{len}
use text.Mathlib.Text.{starts_with}
use onecloudriver.Prelude.{
  ℕ, ◌+◌, ◌/◌, ◌%◌, ◌^◌, String, Bool, true, false, not, ◌&&◌, Option, none, some, List, [], ◌∷◌,
  is_some, ltb, eqb, if◌then◌else◌,
}
use onecloudriver.Graph.Models.{
  DriveItem, DriveItemParent, Folder, blank_item, parent_with_id, is_folder, mod_time_unix,
}

-- Go's unsigned counters wrap.
abbrev pub u32 : ℕ → ℕ
u32 n = n % 2 ^ 32

abbrev pub u64 : ℕ → ℕ
u64 n = n % 2 ^ 64

-- `children` is `none` until the folder is listed; `subdir` and `mode` are uint32, the access count
-- is a uint64.
pub record Inode : Type 0 where
  pub item : DriveItem
  pub children : Option (List String)
  pub subdir : ℕ
  pub mode : ℕ
  pub has_changes : Bool
  pub access_count : ℕ
  pub last_access : ℕ
  pub cached_at : ℕ

unfoldable pub is_local_id : String → Bool
is_local_id id = ltb 6 (len id) && starts_with id "local-"

unfoldable pub new_inode_drive_item : DriveItem → Inode
new_inode_drive_item item = record {
  item = item;
  children = none;
  subdir = 0;
  mode = 0;
  has_changes = false;
  access_count = 0;
  last_access = 0;
  cached_at = 0;
}

-- `mode & S_IFDIR != 0`; S_IFDIR is bit 14.
abbrev wants_dir : ℕ → Bool
wants_dir mode = eqb (mode / 2 ^ 14 % 2) 1

-- `fresh` is the ID that `newLocalID` draws.
unfoldable pub new_inode_local : String → String → ℕ → Option Inode → Inode
new_inode_local fresh name mode parent =
    let base = blank_item fresh name in
    let folder : Option Folder =
      if wants_dir mode then some (record { child_count = 0 }) else none in
    let up : Option DriveItemParent = elim parent [
      | none ↦ none
      | some p ↦ some (parent_with_id p.item.id)
    ] in
    let item = record base { folder = folder; parent = up } in
    let i = new_inode_drive_item item in record i { has_changes = not (is_folder item) }

abbrev pub is_dir : Inode → Bool
is_dir i = is_folder i.item

unfoldable pub parent_id : Inode → String
parent_id i = elim i.item.parent [ none ↦ "" | some p ↦ p.id ]

-- S_IFDIR | 0755 and S_IFREG | 0644
unfoldable pub mode_of : Inode → ℕ
mode_of i = if eqb i.mode 0 then (if is_dir i then 0o40755 else 0o100644) else i.mode

unfoldable pub size_of : Inode → ℕ
size_of i = if is_dir i then 4096 else i.item.size

unfoldable pub n_link : Inode → ℕ
n_link i = if is_dir i then u32 (2 + i.subdir) else 1

unfoldable pub inode_mod_time : Inode → ℕ
unfolding mod_time_unix
inode_mod_time i = mod_time_unix i.item

abbrev pub is_children_fetched : Inode → Bool
is_children_fetched i = is_some i.children

abbrev is_nonempty : List String → Bool
is_nonempty [] = false
is_nonempty (_ ∷ _) = true

-- Once the children are listed, the list decides; before, the count that the API reported.
unfoldable pub has_children : Inode → Bool
has_children i = elim i.children [
  | some ids ↦ is_nonempty ids
  | none ↦ elim i.item.folder [ none ↦ false | some f ↦ ltb 0 f.child_count ]
]

-- `ids` is `none` for a nil slice; `now` is `time.Now()`.
unfoldable pub set_children : ℕ → Option (List String) → Inode → Inode
set_children now ids i = record i { children = ids; cached_at = now; last_access = now }

unfoldable pub bump_children_access : ℕ → Inode → Inode
bump_children_access now i = record i { access_count = u64 (i.access_count + 1); last_access = now }

unfoldable pub decay_children_access : Inode → Inode
decay_children_access i = record i { access_count = i.access_count / 2 }

unfoldable pub evict_children : Inode → Inode
evict_children i = record i { children = none }
