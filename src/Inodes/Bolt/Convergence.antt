-- ===== src/Inodes/Bolt/Convergence.antt =====
-- SerializeDirty (internal/fs/cache.go) brings the database up to date with memory, whichever of
-- its transactions fail.
use onecloudriver.Prelude.{
  String, ◌≡◌, refl, ap, ◌∙◌, inl, inr, Bool, true, false, ◌||◌, none, some, List, [], ◌∷◌, arith,
  Bool-cases, or_false, length,
}
use onecloudriver.Prelude.Dict
use onecloudriver.Prelude.Dict.{Dict}
use onecloudriver.Inodes.Inode.{Inode}
use onecloudriver.Inodes.Cache.{InodeCache, Bolt, find, has, contains_id}
use onecloudriver.Inodes.Bolt.{
  write_dirty_batch, remove_batch, mark_all_dirty, mark_all_deleted, Outcome, persist_batch,
  bury_batch, persist_batches, bury_batches, batches, sorted_keys, serialize_marked,
  serialize_dirty,
}
use onecloudriver.Inodes.Bolt.Batches.{in_batches, in_batches-batches, contains_id-sorted_keys}
use onecloudriver.Inodes.Bolt.Sync.{
  Agrees, get-write_dirty_batch, get-remove_batch, Agrees-written, find-mark_all_dirty,
  find-mark_all_deleted, marks-mark_all_dirty, marks-mark_all_deleted,
}

-- Apart from the IDs in `todo`, an entry that may differ from memory is marked; and what is marked
-- as deleted is not in memory.
record Settled (todo : String → Bool) (m : Dict Inode) (c : InodeCache) : Type 0 where
  settled :
      (id : String)
      → todo id ≡ false
      → has c.dirty id ≡ false
      → has c.deleted id ≡ false
      → Agrees (find c id) (Dict.get m id)
  buried : (id : String) → has c.deleted id ≡ true → find c id ≡ none

abbrev or_rest : (List String) → (String → Bool) → String → Bool
or_rest b rest id = contains_id b id || rest id

module _ (b : List String) (rest : String → Bool) (m : Dict Inode) (c : InodeCache) where
  write-Settled : Settled (or_rest b rest) m c → Settled rest (write_dirty_batch c b m) c
  write-Settled s = record {
    settled = λ id t d x. elim (Bool-cases (contains_id b id)) [
      | inl e ↦ rw (get-write_dirty_batch c m b id, e) (Agrees-written (find c id) (Dict.get m id))
      | inr e ↦ rw (get-write_dirty_batch c m b id, e) (s.settled id (rw e t) d x)
    ];
    buried = s.buried;
  }

  redo-Settled : Settled (or_rest b rest) m c → Settled rest m (mark_all_dirty b c)
  redo-Settled s = record {
    settled = λ id t d x.
        let k = marks-mark_all_dirty b c id in
        rw (find-mark_all_dirty b c id) (s.settled id (ground arith) (ground arith) (ground arith));
    buried = λ id x.
        let k = marks-mark_all_dirty b c id in
        rw (find-mark_all_dirty b c id) (s.buried id (ground arith));
  }

  bury-Settled :
      ((id : String) → contains_id b id ≡ true → find c id ≡ none)
      → Settled (or_rest b rest) m c
      → Settled rest (remove_batch b m) c
  bury-Settled gone s = record {
    settled = λ id t d x. elim (Bool-cases (contains_id b id)) [
      | inl e ↦ rw (get-remove_batch m b id, e, gone id e)
      | inr e ↦ rw (get-remove_batch m b id, e) (s.settled id (rw e t) d x)
    ];
    buried = s.buried;
  }

  rebury-Settled :
      ((id : String) → contains_id b id ≡ true → find c id ≡ none)
      → Settled (or_rest b rest) m c
      → Settled rest m (mark_all_deleted b c)
  rebury-Settled gone s = record {
    settled = λ id t d x.
        let k = marks-mark_all_deleted b c id in
        rw (find-mark_all_deleted b c id)
          (s.settled id (ground arith) (ground arith) (ground arith));
    buried = λ id x.
        let k = marks-mark_all_deleted b c id in
        rw (find-mark_all_deleted b c id) (elim (Bool-cases (contains_id b id)) [
          | inl e ↦ gone id e
          | inr e ↦ s.buried id (ground arith)
        ]);
  }

abbrev in_any : List (List String) → (String → Bool) → String → Bool
in_any bs rest id = in_batches bs id || rest id

-- ((a || b) || c) read as (a || (b || c)) under a pointwise predicate.
regroup :
    (b : List String) (bs : List (List String)) (rest : String → Bool) (m : Dict Inode)
    (c : InodeCache)
    → Settled (in_any (b ∷ bs) rest) m c
    → Settled (or_rest b (in_any bs rest)) m c
regroup b bs rest m c s = record {
  settled = λ id t d x. s.settled id (ground arith) d x;
  buried = s.buried;
}

-- `Settled` of the two parts of an outcome.
abbrev SettledAt : (String → Bool) → Outcome → Type 0
SettledAt todo o = Settled todo o.1 o.2

module _ (commits : List String → Bool) (b : List String) (rest : String → Bool) (o : Outcome) where
  find-persist_batch : (id : String) → find (persist_batch commits b o).2 id ≡ find o.2 id
  unfolding persist_batch
  find-persist_batch id = elim (Bool-cases (commits b)) [
    | inl e ↦ rw e
    | inr e ↦ rw e (find-mark_all_dirty b o.2 id)
  ]

  find-bury_batch : (id : String) → find (bury_batch commits b o).2 id ≡ find o.2 id
  unfolding bury_batch
  find-bury_batch id = elim (Bool-cases (commits b)) [
    | inl e ↦ rw e
    | inr e ↦ rw e (find-mark_all_deleted b o.2 id)
  ]

  persist_batch-Settled : SettledAt (or_rest b rest) o → SettledAt rest (persist_batch commits b o)
  unfolding persist_batch
  persist_batch-Settled s = elim (Bool-cases (commits b)) [
    | inl e ↦ rw e (write-Settled b rest o.1 o.2 s)
    | inr e ↦ rw e (redo-Settled b rest o.1 o.2 s)
  ]

  bury_batch-Settled :
      ((id : String) → contains_id b id ≡ true → find o.2 id ≡ none)
      → SettledAt (or_rest b rest) o
      → SettledAt rest (bury_batch commits b o)
  unfolding bury_batch
  bury_batch-Settled gone s = elim (Bool-cases (commits b)) [
    | inl e ↦ rw e (bury-Settled b rest o.1 o.2 gone s)
    | inr e ↦ rw e (rebury-Settled b rest o.1 o.2 gone s)
  ]

module _ (commits : List String → Bool) where
  find-persist_batches :
      (bs : List (List String)) (o : Outcome) (id : String)
      → find (persist_batches commits bs o).2 id ≡ find o.2 id
  unfolding persist_batches
  find-persist_batches [] o id = refl
  find-persist_batches (b ∷ bs) o id =
      find-persist_batches bs (persist_batch commits b o) id
      ∙ find-persist_batch commits b (λ _. false) o id

  persist_batches-Settled :
      (bs : List (List String)) (rest : String → Bool) (o : Outcome)
      → SettledAt (in_any bs rest) o
      → SettledAt rest (persist_batches commits bs o)
  unfolding persist_batches
  persist_batches-Settled [] rest o s = s
  persist_batches-Settled (b ∷ bs) rest o s =
      persist_batches-Settled bs rest (persist_batch commits b o)
        (persist_batch-Settled commits b (in_any bs rest) o (regroup b bs rest o.1 o.2 s))

  -- `gone` says that memory holds none of the IDs in the batches.
  bury_batches-Settled :
      (bs : List (List String)) (rest : String → Bool) (o : Outcome)
      → ((id : String) → in_batches bs id ≡ true → find o.2 id ≡ none)
      → SettledAt (in_any bs rest) o
      → SettledAt rest (bury_batches commits bs o)
  unfolding bury_batches
  bury_batches-Settled [] rest o gone s = s
  bury_batches-Settled (b ∷ bs) rest o gone s =
      bury_batches-Settled bs rest (bury_batch commits b o)
        (λ id e. find-bury_batch commits b (λ _. false) o id ∙ gone id (ground arith))
        (bury_batch-Settled commits b (in_any bs rest) o (λ id e. gone id (ground arith))
          (regroup b bs rest o.1 o.2 s))

-- The database of the cache mirrors memory except at marked IDs, and what is marked as deleted is
-- gone from memory.
pub record IsSynced (b : Bolt) (c : InodeCache) : Type 0 where
  pub opened : c.db ≡ some b
  pub unmarked :
      (id : String)
      → has c.dirty id ≡ false
      → has c.deleted id ≡ false
      → Agrees (find c id) (Dict.get b.metadata id)
  pub absent : (id : String) → has c.deleted id ≡ true → find c id ≡ none

module _ (commits buries : List String → Bool) (b : Bolt) (c : InodeCache) where
  -- The cache with its sets swapped out, and the batches of one pass.
  abbrev swapped : InodeCache
  swapped = record c { dirty = []; deleted = [] }

  abbrev dirty_batches : List (List String)
  dirty_batches = let ids = sorted_keys c.dirty in batches 499 (length ids) ids

  abbrev deleted_batches : List (List String)
  deleted_batches = let ids = sorted_keys c.deleted in batches 499 (length ids) ids

  abbrev persisted : Outcome
  persisted = persist_batches commits dirty_batches (true, b.metadata, swapped)

  abbrev pub finished : Outcome
  finished = bury_batches buries deleted_batches persisted

  pub serialize_dirty_lem :
      c.db ≡ some b
      → serialize_dirty commits buries c
        ≡ (finished.0, record finished.2 { db = some (record b { metadata = finished.1 }) })
  unfolding serialize_dirty
  serialize_dirty_lem h =
      ap (λ d. elim d [ none ↦ (true, c) | some b' ↦ serialize_marked commits buries b' c ]) h

  in_dirty : (id : String) → in_batches dirty_batches id ≡ has c.dirty id
  in_dirty id =
      let ids = sorted_keys c.dirty in
      in_batches-batches 499 ids id ∙ contains_id-sorted_keys c.dirty id

  in_deleted : (id : String) → in_batches deleted_batches id ≡ has c.deleted id
  in_deleted id =
      let ids = sorted_keys c.deleted in
      in_batches-batches 499 ids id ∙ contains_id-sorted_keys c.deleted id

  -- The pass from the swapped state on.
  finished-Settled : IsSynced b c → SettledAt (λ _. false) finished
  unfolding Dict.get
  finished-Settled s =
      bury_batches-Settled buries deleted_batches (λ _. false) persisted
        (λ id e.
          find-persist_batches commits dirty_batches (true, b.metadata, swapped) id
          ∙ s.absent id (rw (← in_deleted id) e))
        (persist_batches-Settled commits dirty_batches (in_any deleted_batches (λ _. false))
          (true, b.metadata, swapped)
          (record {
            settled = λ id t d x.
                s.unmarked id (rw (← in_dirty id) (or_false _ _ t).0)
                  (rw (← in_deleted id) (or_false _ _ (or_false _ _ t).1).0);
            buried = λ id e. cc;
          }))

abbrev pub always : List String → Bool
always _ = true

persist_batches-always :
    (bs : List (List String)) (o : Outcome)
    → ((persist_batches always bs o).0 ≡ o.0) × ((persist_batches always bs o).2 ≡ o.2)
unfolding persist_batches persist_batch
persist_batches-always [] o = (refl, refl)
persist_batches-always (b ∷ bs) o = persist_batches-always bs (persist_batch always b o)

bury_batches-always :
    (bs : List (List String)) (o : Outcome)
    → ((bury_batches always bs o).0 ≡ o.0) × ((bury_batches always bs o).2 ≡ o.2)
unfolding bury_batches bury_batch
bury_batches-always [] o = (refl, refl)
bury_batches-always (b ∷ bs) o = bury_batches-always bs (bury_batch always b o)

-- Where the open database mirrors memory except at marked IDs, it still does after SerializeDirty,
-- whichever transactions fail.
pub serialize_dirty-IsSynced :
    (commits buries : List String → Bool) (b : Bolt) (c : InodeCache)
    → IsSynced b c
    → (b' : Bolt) × IsSynced b' (serialize_dirty commits buries c).1
serialize_dirty-IsSynced commits buries b c s =
    let f = finished commits buries b c in
    let t = finished-Settled commits buries b c s in
    (
      record b { metadata = f.1 },
      rw (serialize_dirty_lem commits buries b c s.opened)
          (record { opened = refl; unmarked = λ id d x. t.settled id refl d x; absent = t.buried }),
    )

-- If no transaction fails, SerializeDirty succeeds, no mark is left, and the database agrees with
-- memory at every ID.
pub serialize_dirty_converges :
    (b : Bolt) (c : InodeCache)
    → IsSynced b c
    → let r = serialize_dirty always always c in
      (b' : Bolt) × (r.0 ≡ true)
      × (r.1.db ≡ some b')
      × ((id : String) → Agrees (find c id) (Dict.get b'.metadata id))
      × (r.1.dirty ≡ [])
      × (r.1.deleted ≡ [])
unfolding Dict.get
serialize_dirty_converges b c s =
    let f = finished always always b c in
    let t = finished-Settled always always b c s in
    let later =
      bury_batches-always (deleted_batches always always b c) (persisted always always b c) in
    let first =
      persist_batches-always (dirty_batches always always b c)
        (true, b.metadata, swapped always always b c) in
    let same : f.2 ≡ swapped always always b c = later.1 ∙ first.1 in
    rw (serialize_dirty_lem always always b c s.opened) (
      record b { metadata = f.1 },
      later.0 ∙ first.0,
      refl,
      λ id. rw same at (t.settled id refl (rw same refl) (rw same refl)),
      ap (λ (x : InodeCache). x.dirty) same,
      ap (λ (x : InodeCache). x.deleted) same,
    )
