-- ===== src/Delta/Resolve.antt =====
-- resolveParentID of internal/fs/delta.go, and the branches of applyDelta.
use onecloudriver.Prelude.{
  String, ◌≡◌, refl, Bool, true, false, ◌&&◌, ◌||◌, not, none, is_some, ◌==◌, if◌then◌else◌,
}
use onecloudriver.Graph.Models.{DeltaItem}
use onecloudriver.Inodes.Cache.{find}
use onecloudriver.Delta.Apply.{
  Wiring, DeltaSync, learn_root, resolve_parent_id, is_root_item, delta_parent, apply_delta,
  apply_known,
}

-- Resolving a parent changes neither cache.
pub record SameStore {K : Type 0} (d e : DeltaSync K) : Type 0 where
  pub cache : e.cache ≡ d.cache
  pub content : e.content ≡ d.content

module _ {K : Type 0} (env : Wiring K) where
  if-SameStore :
      (q : Bool) (c d e : DeltaSync K)
      → SameStore c d
      → SameStore c e
      → SameStore c (if q then d else e)
  if-SameStore true c d e s t = s
  if-SameStore false c d e s t = t

  SameStore-learn_root : (pid : String) (d : DeltaSync K) → SameStore d (learn_root env pid d)
  unfolding learn_root
  SameStore-learn_root pid d =
      if-SameStore (is_some (find d.cache pid) || not (is_some env.root_item) || d.root_id_once) d d
        _ (record { cache = refl; content = refl })
        (if-SameStore _ d _ _ (record { cache = refl; content = refl })
          (record { cache = refl; content = refl }))

  if-second :
      (q : Bool) (c : DeltaSync K) (x y : String × DeltaSync K)
      → SameStore c x.1
      → SameStore c y.1
      → SameStore c (if q then x else y).1
  if-second true c x y s t = s
  if-second false c x y s t = t

  pub SameStore-resolve_parent_id :
      (pid : String) (delta : DeltaItem) (d : DeltaSync K)
      → SameStore d (resolve_parent_id env pid delta d).1
  unfolding resolve_parent_id
  SameStore-resolve_parent_id pid delta d =
      let same : SameStore d d = record { cache = refl; content = refl } in
      if-second (pid == "" && is_root_item delta) d _ _ (record { cache = refl; content = refl })
        (if-second (pid == "" || pid == "root") d _ _ same
          (if-second (pid == d.root_real_id) d _ _ same (SameStore-learn_root pid d)))

  -- The parent that a change names, as a key of the cache.
  abbrev pub parent_key : DeltaItem → DeltaSync K → String
  parent_key delta d = (resolve_parent_id env (delta_parent delta) delta d).0

  abbrev pub resolved : DeltaItem → DeltaSync K → DeltaSync K
  resolved delta d = (resolve_parent_id env (delta_parent delta) delta d).1

  pub apply_delta_lem :
      (delta : DeltaItem) (d : DeltaSync K)
      → (parent_key delta d == "" && is_root_item delta) ≡ false
      → apply_delta env delta d ≡ (
          if is_some (find d.cache (parent_key delta d))
          then apply_known env delta (parent_key delta d) (resolved delta d)
          else (none, resolved delta d))
  unfolding apply_delta
  apply_delta_lem delta d plain =
      rw (plain, (SameStore-resolve_parent_id (delta_parent delta) delta d).cache)
