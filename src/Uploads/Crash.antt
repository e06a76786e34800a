-- ===== src/Uploads/Crash.antt =====
-- The sessions that a crash at any moment leaves (internal/fs/upload_manager.go): every step keeps
-- the stored sessions in line with those in memory.
use onecloudriver.Prelude.{
  ℕ, ◌<◌, String, ◌≡◌, refl, sym, ap, ◌∙◌, Bool, true, false, Option, none, some, List, [], ◌++◌,
  eqb, ◌==◌, eq_iff, if◌then◌else◌, arith, Bool-cases, inl, inr,
}
use onecloudriver.Prelude.Dict
use onecloudriver.Prelude.Dict.{Dict, get-put, get-remove}
use onecloudriver.Graph.Models.{DriveItem}
use onecloudriver.Inodes.Inode.{is_children_fetched}
use onecloudriver.Inodes.Cache.{InodeCache, find, store, mark_dirty}
use onecloudriver.Inodes.Tree.{when_found, move_id, invalidate, invalidate_found, uncount_folder}
use onecloudriver.Delta.Database.{db, found-db, if-db, move_id-db}
use onecloudriver.Uploads.Session.{
  uploading, complete, errored, UploadSession, as_json, set_state, set_transient, open_content,
}
use onecloudriver.Uploads.Remote.{Remote, Answer, failed, answered}
use onecloudriver.Uploads.Manager.{
  UploadManager, persist_session, supersede, discard_at, enqueue_session, process_sessions,
  release_in_flight,
}
use onecloudriver.Uploads.Execute.{
  Launch, start_upload, conclude, finish_upload, settle_cache, fail_upload, complete_upload, absorb,
  absorb_id, upload,
}
use onecloudriver.Uploads.Slots.{
  System, Step, enqueued, cancelled, renamed, ticked, started, finished, Reachable, here, after,
}
use onecloudriver.Uploads.Stored.{
  IsDurable, IsQuiet, IsQuiet-set_object, live_goal, live_goal-same, stored_goal, goal,
  other_address, db-save_upload_session, goal-here,
}
use onecloudriver.Uploads.Durable.{
  IsKept, IsKept-IsQuiet, finish_session-IsKept, retarget_at-IsKept, process_each-IsKept,
}

-- A superseded session loses its snapshot; the objects of the others stay.
supersede-other :
    (m : UploadManager) (s : IsDurable m) (id j : String) (b : ℕ) (o : Option ℕ)
    → Dict.get m.sessions id ≡ o
    → Dict.get m.sessions j ≡ some b
    → (id == j) ≡ false
    → (supersede o m).objects b ≡ m.objects b
unfolding supersede discard_at
supersede-other m s id j b none h k other = refl
supersede-other m s id j b (some a) h k other = rw (other_address m s id j a b h k other)

supersede-fields :
    (m : UploadManager) (o : Option ℕ)
    → ((supersede o m).sessions ≡ m.sessions)
      × ((supersede o m).next ≡ m.next)
      × ((supersede o m).cache ≡ m.cache)
unfolding supersede discard_at
supersede-fields m none = (refl, refl, refl)
supersede-fields m (some a) = (refl, refl, refl)

pub below : (a b : ℕ) → b < a → eqb a b ≡ false
below a b h = ground arith

module _ (m : UploadManager) (s : IsDurable m) (every : s.bolt.commits ≡ [])
    (t : UploadSession) where
  m1 : UploadManager
  m1 = supersede (Dict.get m.sessions t.id) m

  objects3 : ℕ → UploadSession
  objects3 b = if eqb m1.next b then t else m1.objects b

  object-other :
      (j : String) (b : ℕ)
      → Dict.get m.sessions j ≡ some b
      → (t.id == j) ≡ false
      → objects3 b ≡ m.objects b
  unfolding m1 objects3
  object-other j b k other =
      let f = supersede-fields m (Dict.get m.sessions t.id) in
      rw (f.1, below m.next b (s.fresh j b k))
        (supersede-other m s t.id j b (Dict.get m.sessions t.id) refl k other)

  sessions3 :
      (j : String)
      → Dict.get (Dict.put m1.sessions t.id m1.next) j
        ≡ (if t.id == j then some m1.next else Dict.get m.sessions j)
  unfolding m1
  sessions3 j =
      get-put m1.sessions t.id j m1.next
      ∙ ap (λ d. if t.id == j then some m1.next else Dict.get d j)
          (supersede-fields m (Dict.get m.sessions t.id)).0

  stored3 :
      (j : String)
      → stored_goal (Dict.get (Dict.put s.bolt.uploads t.id (as_json t)) j)
        ≡ live_goal objects3 (if t.id == j then some m1.next else Dict.get m.sessions j)
  unfolding objects3 as_json
  stored3 j = elim (Bool-cases (t.id == j)) [
    | inl e ↦
        rw (get-put s.bolt.uploads t.id j (as_json t), e) (sym (goal-here m1.next t m1.objects))
    | inr e ↦
        rw (get-put s.bolt.uploads t.id j (as_json t), e)
          (s.stored j
            ∙ sym (
                live_goal-same m.objects objects3 (Dict.get m.sessions j)
                  λ b k. ap goal (object-other j b k e)))
  ]

  here_or_there :
      {P : Type 0} (j : String) (b : ℕ)
      → Dict.get (Dict.put m1.sessions t.id m1.next) j ≡ some b
      → ((t.id == j) ≡ true → m1.next ≡ b → P)
      → ((t.id == j) ≡ false → Dict.get m.sessions j ≡ some b → P)
      → P
  here_or_there j b k f g = elim (Bool-cases (t.id == j)) [
    | inl e ↦ let h : some m1.next ≡ some b = sym (rw e at (sessions3 j)) ∙ k in f e cc
    | inr e ↦ g e (sym (rw e at (sessions3 j)) ∙ k)
  ]

  id-next : (b : ℕ) → m1.next ≡ b → (objects3 b).id ≡ t.id
  unfolding objects3
  id-next b h = let same : eqb m1.next b ≡ true = ground arith in rw same

  enqueue_session-IsKept : IsKept (enqueue_session t m)
  unfolding enqueue_session persist_session m1 objects3
  enqueue_session-IsKept =
      let f = supersede-fields m (Dict.get m.sessions t.id) in
      record {
        durable = record {
          bolt = record s.bolt { uploads = Dict.put s.bolt.uploads t.id (as_json t) };
          opened =
              db-save_upload_session t.id (as_json t) m1.cache s.bolt (ap db f.2 ∙ s.opened) every;
          stored = λ j. stored3 j ∙ ap (live_goal objects3) (sym (sessions3 j));
          keyed = λ j b k.
              here_or_there j b k (λ e h. id-next b h ∙ (eq_iff t.id j).0 e)
                (λ e h. ap (λ (x : UploadSession). x.id) (object-other j b h e) ∙ s.keyed j b h);
          fresh = λ j b k.
              let n = f.1 in
              here_or_there j b k (λ e h. omega arith)
                (λ e h. let l = s.fresh j b h in omega arith);
        };
        commits = every;
      }

IsQuiet-start_upload :
    (a : ℕ) (xs : List ℕ) (m : UploadManager)
    → IsQuiet m (record (start_upload a m).1 { running = xs })
unfolding start_upload
IsQuiet-start_upload a xs m =
    let q = IsQuiet-set_object a (set_state uploading none (m.objects a)) m refl in
    record { sessions = q.sessions; next = q.next; db = q.db; objects = q.objects }

invalidate-db : (now : ℕ) (pid : String) (c : InodeCache) → db (invalidate now pid c) ≡ db c
unfolding invalidate invalidate_found mark_dirty
invalidate-db now pid c =
    found-db (find c pid) c (λ p. invalidate_found now pid p c)
      λ p. if-db (is_children_fetched p) (db c) (uncount_folder c) c refl refl

settle_cache-db :
    (now : ℕ) (l : Launch) (item : DriveItem) (created_new : Bool) (c : InodeCache)
    → db (settle_cache now l item created_new c) ≡ db c
unfolding settle_cache
settle_cache-db now l item created_new c =
    let c1 = when_found (find c l.id) c (λ i. store l.id (absorb_id item i) c) in
    let c2 = when_found (find c l.id) c (λ i. store l.id (absorb item i) c) in
    invalidate-db now l.parent_id (if created_new then move_id l.id item.id c1 else c2)
    ∙ if-db created_new (db c) (move_id l.id item.id c1) c2
        (move_id-db l.id item.id c1
          ∙ found-db (find c l.id) c (λ i. store l.id (absorb_id item i) c) λ i. refl)
        (found-db (find c l.id) c (λ i. store l.id (absorb item i) c) λ i. refl)

IsQuiet-conclude :
    {W : Type 0} (remote : Remote W) (now : ℕ) (l : Launch) (m : UploadManager)
    (r : Answer (DriveItem × Bool)) (w : W)
    → IsQuiet m (conclude remote now l m r w).0
unfolding conclude release_in_flight fail_upload complete_upload
IsQuiet-conclude remote now l m (failed e) w =
    let t = set_transient e.network (set_state errored (some e.message) (m.objects l.session)) in
    let q = IsQuiet-set_object l.session t m refl in
    record { sessions = q.sessions; next = q.next; db = q.db; objects = q.objects }
IsQuiet-conclude remote now l m (answered (item, created_new)) w =
    let q = IsQuiet-set_object l.session (set_state complete none (m.objects l.session)) m refl in
    record {
      sessions = q.sessions;
      next = q.next;
      db = settle_cache-db now l item created_new m.cache;
      objects = q.objects;
    }

-- A rename finds its session still in the queue when it changes it.
abbrev pub IsCurrent : {W : Type 0} {remote : Remote W} {s t : System W} → Step remote s t → Type 0
IsCurrent (enqueued t m ls w) = Unit
IsCurrent (cancelled id m ls w) = Unit
IsCurrent (renamed id a p n m ls w x y) = Dict.get m.sessions id ≡ some a
IsCurrent (ticked now m ls w) = Unit
IsCurrent (started xs a ys m ls w e) = Unit
IsCurrent (finished now conflicted opening xs l ys m w) = Unit

abbrev pub AllCurrent :
    {W : Type 0} {remote : Remote W} {s t : System W} → Reachable remote s t → Type 0
AllCurrent (here s) = Unit
AllCurrent (after r x) = AllCurrent r × IsCurrent x

Step-IsKept :
    {W : Type 0} {remote : Remote W} {s t : System W} (x : Step remote s t)
    → IsCurrent x
    → IsKept s.manager
    → IsKept t.manager
unfolding process_sessions finish_upload
Step-IsKept (enqueued t m ls w) c s = enqueue_session-IsKept m s.durable s.commits t
Step-IsKept (cancelled id m ls w) c s = finish_session-IsKept id m s
Step-IsKept (renamed id a p n m ls w x y) c s = retarget_at-IsKept id a p n m c s
Step-IsKept (ticked now m ls w) c s = process_each-IsKept now m.sessions m s
Step-IsKept (started xs a ys m ls w e) c s = IsKept-IsQuiet (IsQuiet-start_upload a (xs ++ ys) m) s
Step-IsKept {remote = remote} (finished now conflicted opening xs l ys m w) c s =
    let content = open_content m.files (m.objects l.session) in
    let (r, w') = upload remote content opening conflicted l w in
    IsKept-IsQuiet (IsQuiet-conclude remote now l m r w') s

Reachable-IsKept :
    {W : Type 0} {remote : Remote W} {s t : System W} (r : Reachable remote s t)
    → AllCurrent r
    → IsKept s.manager
    → IsKept t.manager
Reachable-IsKept (here s) c k = k
Reachable-IsKept (after r x) (c, d) k = Step-IsKept x d (Reachable-IsKept r c k)

-- From a state with an open database in which the stored sessions are those of the queue (the same
-- IDs, each with the same parent, name, content, snapshot and size, and the queue holds each
-- session under its own ID) a sequence of steps leads to such a state: an enqueued, cancelled or
-- renamed session, a tick, and a goroutine that starts or ends, in any order and whatever the
-- server answers. The conditions are that every transaction on a session commits, and that each
-- rename changes a session that is still the one in the queue under its ID.
pub Reachable-IsDurable :
    {W : Type 0} (remote : Remote W) {s t : System W} (r : Reachable remote s t)
    → AllCurrent r
    → (d : IsDurable s.manager) → d.bolt.commits ≡ []
    → IsDurable t.manager
Reachable-IsDurable remote r c d e =
    (Reachable-IsKept r c (record { durable = d; commits = e })).durable
