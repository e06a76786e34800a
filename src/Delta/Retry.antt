-- ===== src/Delta/Retry.antt =====
-- Which changes applyPage (internal/fs/delta.go) hands on to the next page.
use onecloudriver.Prelude.{
  ◌≡◌, refl, Bool, true, false, ◌&&◌, Option, List, [], ◌∷◌, ◌++◌, is_some, ◌==◌, if◌then◌else◌,
  All, arith,
}
use onecloudriver.Graph.Models.{DeltaItem, is_folder}
use onecloudriver.Inodes.Cache.{find}
use onecloudriver.Delta.Apply.{
  Wiring, DeltaSync, DeltaError, is_root_item, holds_children, retryable, apply_deletion,
  apply_known, apply_delta, apply_pass, apply_page, delta_parent, resolve_parent_id,
}
use onecloudriver.Delta.Deletion.{IsFolderDeletion}

module _ {K : Type 0} (env : Wiring K) where
  -- An error of a branch is an error of the branch that is taken.
  from_branch :
      {P : Type 0} (q : Bool) (x y : Option DeltaError × DeltaSync K)
      → (q ≡ true → retryable x.0 ≡ true → P)
      → (q ≡ false → retryable y.0 ≡ true → P)
      → retryable (if q then x else y).0 ≡ true
      → P
  from_branch true x y f g = f refl
  from_branch false x y f g = g refl

  error-IsFolderDeletion :
      (x : DeltaItem) (d : DeltaSync K)
      → retryable (apply_delta env x d).0 ≡ true
      → IsFolderDeletion x
  unfolding apply_delta apply_known apply_deletion
  error-IsFolderDeletion x d =
      let (pid, e) = resolve_parent_id env (delta_parent x) x d in
      from_branch (pid == "" && is_root_item x) _ _ (λ _ h. cc)
        (λ _.
          from_branch (is_some (find e.cache pid)) _ _
            (λ _.
              from_branch (is_some x.deleted) _ _
                (λ deleted.
                  from_branch (is_folder x.item && holds_children (find e.cache x.item.id)) _ _
                    (λ q _. (ground arith, deleted)) (λ _ h. cc))
                (λ _ h. cc))
            (λ _ h. cc))

  pass-IsFolderDeletion :
      (xs : List DeltaItem) (d : DeltaSync K) → All IsFolderDeletion (apply_pass env xs d).0
  unfolding apply_pass
  pass-IsFolderDeletion [] d = tt
  pass-IsFolderDeletion (x ∷ xs) d =
      let (e, d') = apply_delta env x d in
      kept (retryable e) x (apply_pass env xs d').0 (error-IsFolderDeletion x d)
        (pass-IsFolderDeletion xs d')
    where
      kept :
          (q : Bool) (y : DeltaItem) (ys : List DeltaItem)
          → (q ≡ true → IsFolderDeletion y)
          → All IsFolderDeletion ys
          → All IsFolderDeletion (if q then y ∷ ys else ys)
      kept true y ys f s = (f refl, s)
      kept false y ys f s = s

  All-append :
      (xs ys : List DeltaItem)
      → All IsFolderDeletion xs
      → All IsFolderDeletion ys
      → All IsFolderDeletion (xs ++ ys)
  All-append [] ys s t = t
  All-append (x ∷ xs) ys (a, s) t = (a, All-append xs ys s t)

  -- Whatever a page holds and whatever waits, only deletions of folders are handed on to the next
  -- page.
  pub apply_page-IsFolderDeletion :
      (items pending : List DeltaItem) (d : DeltaSync K)
      → All IsFolderDeletion (apply_page env items pending d).0
  unfolding apply_page
  apply_page-IsFolderDeletion items pending d =
      let (blocked, d1) = apply_pass env items d in
      let (still_blocked, d2) = apply_pass env blocked d1 in
      All-append (apply_pass env pending d2).0 still_blocked (pass-IsFolderDeletion pending d2)
        (pass-IsFolderDeletion blocked d1)
