-- ===== src/Examples/Changes.antt =====
-- Remote changes of the small tree: internal/fs/delta.go. The content cache is a list of the IDs
-- that it holds, and the root is never asked for.
use onecloudriver.Prelude.{String, ◌≡◌, refl, Bool, true, false, none, some, List, [], ◌∷◌, ◌==◌}
use onecloudriver.Prelude.Int.{ℤ}
use onecloudriver.Prelude.Dict
use onecloudriver.Graph.Models.{DeltaItem}
use onecloudriver.Inodes.Inode.{parent_id}
use onecloudriver.Inodes.Cache.{find, has, without_id}
use onecloudriver.Inodes.Bolt.{in_tree}
use onecloudriver.Delta.Apply.{
  Wiring, DeltaSync, apply_delta, apply_page, resolve_parent_id, remote_wins, has_pending,
}
use onecloudriver.Delta.Deletion.{IsDeleted, apply_delta-IsDeleted}
use onecloudriver.Inodes.Bolt.{get_delta_link}
use onecloudriver.Delta.Poll.{Answers, poll_error, page, poll_and_apply, loop_round}
use onecloudriver.Delta.Links.{last_link}
use onecloudriver.Delta.Progress.{HasProgress, poll_and_apply-HasProgress, loop_round-last_link}
use onecloudriver.Delta.Local.{IsKept, apply_delta-IsKept}
use onecloudriver.Delta.Retry.{apply_page-IsFolderDeletion}
use onecloudriver.Delta.Deletion.{IsFolderDeletion}
use onecloudriver.Delta.Stale.{etag_of, apply_delta-stale}
use onecloudriver.Prelude.{All}
use onecloudriver.Examples.Trees.{saved, disk, saved-IsSynced, note, file_item}

abbrev wired : (String → Bool) → Wiring (List String)
wired uploading = record {
  drop = λ id k. (true, without_id k id);
  sum_quick_xor_hash = λ _ _. none;
  equal_fold = λ s t. s == t;
  uploads = some uploading;
  root_item = none;
  now = 9;
}

abbrev synced : DeltaSync (List String)
synced = record {
  cache = saved;
  content = "f1" ∷ [];
  root_real_id = "R!1";
  root_id_once = false;
  sync_count = 0;
  error_count = 0;
}

-- The file moved into "docs" with a new name, and changed.
abbrev moved : DeltaItem
moved =
    let item = file_item "f1" "memo" "d1" in
    record {
      item = record item { etag = "v2"; mod_time = some (ℤ.pos 50); size = 3 };
      deleted = none;
    }

-- The file changed in place; its parent is the drive's root by its real ID.
abbrev changed : DeltaItem
changed =
    let item = file_item "f1" "note" "root" in
    record {
      item = record item { etag = "v2"; mod_time = some (ℤ.pos 50); size = 3 };
      deleted = none;
    }

abbrev removed : DeltaItem
removed = record { item = file_item "f1" "note" "R!1"; deleted = some "deleted" }

apply_delta-IsKept_example :
    IsKept "f1" note ("f1" ∷ []) (apply_delta (wired (λ id. id == "f1")) moved synced).1
unfolding Dict.get resolve_parent_id has_pending parent_id
apply_delta-IsKept_example =
    apply_delta-IsKept (wired (λ id. id == "f1")) moved note synced refl refl refl refl refl refl

apply_delta-IsDeleted_example :
    IsDeleted
      (wired (λ _. false))
      removed
      saved
      ("f1" ∷ [])
      (apply_delta (wired (λ _. false)) removed synced)
unfolding Dict.get resolve_parent_id
apply_delta-IsDeleted_example =
    apply_delta-IsDeleted (wired (λ _. false)) removed synced refl refl refl

apply_page-IsFolderDeletion_example :
    All IsFolderDeletion (apply_page (wired (λ _. false)) (moved ∷ removed ∷ []) [] synced).0
apply_page-IsFolderDeletion_example =
    apply_page-IsFolderDeletion (wired (λ _. false)) (moved ∷ removed ∷ []) [] synced

apply_delta-stale_example :
    let c = (apply_delta (wired (λ _. false)) changed synced).1.cache in
    (etag_of (find c "f1") ≡ some "v2")
    × (c.db ≡ some disk)
    × (etag_of (Dict.get disk.metadata "f1") ≡ some "v1")
    × (("v2" == "v1") ≡ false)
    × (has c.dirty "f1" ≡ false)
    × (has c.deleted "f1" ≡ false)
unfolding Dict.get resolve_parent_id remote_wins parent_id in_tree
apply_delta-stale_example =
    apply_delta-stale (wired (λ _. false)) changed note disk synced saved-IsSynced refl refl refl
      refl refl refl refl refl refl refl

-- A page arrives, and the next request fails.
abbrev broken : Answers
broken = page (moved ∷ []) "L1" (poll_error true)

loop_round-last_link_example :
    let r = loop_round (wired (λ _. false)) (λ _. true) (λ _. true) broken "" synced in
    (r.0 ≡ last_link broken "") × (get_delta_link r.1.cache ≡ last_link broken "")
unfolding get_delta_link last_link
loop_round-last_link_example =
    loop_round-last_link (wired (λ _. false)) (λ _. true) (λ _. true) broken "" synced disk refl
      refl refl refl

poll_and_apply-HasProgress_example :
    HasProgress [] broken ""
      (get_delta_link synced.cache)
      0
      (poll_and_apply (wired (λ _. false)) broken "" [] 0 synced)
poll_and_apply-HasProgress_example =
    poll_and_apply-HasProgress (wired (λ _. false)) broken "" [] 0 synced disk refl
