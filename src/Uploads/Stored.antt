-- ===== src/Uploads/Stored.antt =====
-- The upload sessions in the database and those in memory (internal/fs/upload_manager.go, cache.go:
-- SaveUploadSession, DeleteUploadSession).
use onecloudriver.Prelude.{
  ℕ, ◌+◌, ◌<◌, String, ◌≡◌, refl, sym, ap, ◌∙◌, Bool, true, false, Option, none, some, [], ◌∷◌,
  ◌++◌, leb, eqb, ◌==◌, eq_iff, if◌then◌else◌, arith, Bool-cases, inl, inr,
}
use onecloudriver.Prelude.Dict
use onecloudriver.Prelude.Dict.{Dict, get-put, get-remove}
use onecloudriver.Inodes.Cache.{InodeCache, Bolt}
use onecloudriver.Inodes.Bolt.{save_upload_session, delete_upload_session}
use onecloudriver.Inodes.Bolt.Transactions.{update_db-db}
use onecloudriver.Uploads.Session.{pending, UploadSession, StoredSession, set_state}
use onecloudriver.Uploads.Manager.{
  UploadManager, set_object, launch_if_capacity, relaunch, in_flight_cap,
}

-- What a stored session says of the upload: all but its retries.
abbrev pub target : StoredSession → StoredSession
target r = record r { retries = 0; last_err = ""; transient = false }

abbrev pub goal : UploadSession → StoredSession
goal s = record {
  id = s.id;
  parent_id = s.parent_id;
  name = s.name;
  content = s.content;
  snapshot_path = s.snapshot_path;
  size = s.size;
  retries = 0;
  last_err = "";
  transient = false;
}

abbrev pub stored_goal : Option StoredSession → Option StoredSession
stored_goal none = none
stored_goal (some r) = some (target r)

abbrev pub live_goal : (ℕ → UploadSession) → Option ℕ → Option StoredSession
live_goal objects none = none
live_goal objects (some a) = some (goal (objects a))

-- The stored sessions are those in the queue, with the same target and content; the queue holds
-- sessions under their own IDs.
pub record IsDurable (m : UploadManager) : Type 0 where
  pub bolt : Bolt
  pub opened : m.cache.db ≡ some bolt
  pub stored :
      (id : String)
      → stored_goal (Dict.get bolt.uploads id) ≡ live_goal m.objects (Dict.get m.sessions id)
  pub keyed : (id : String) (a : ℕ) → Dict.get m.sessions id ≡ some a → (m.objects a).id ≡ id
  pub fresh : (id : String) (a : ℕ) → Dict.get m.sessions id ≡ some a → a < m.next

-- A change of states, retries and slots.
pub record IsQuiet (m n : UploadManager) : Type 0 where
  pub sessions : n.sessions ≡ m.sessions
  pub next : n.next ≡ m.next
  pub db : n.cache.db ≡ m.cache.db
  pub objects : (a : ℕ) → goal (n.objects a) ≡ goal (m.objects a)

pub live_goal-same :
    (f g : ℕ → UploadSession) (o : Option ℕ)
    → ((a : ℕ) → o ≡ some a → goal (g a) ≡ goal (f a))
    → live_goal g o ≡ live_goal f o
live_goal-same f g none h = refl
live_goal-same f g (some a) h = ap some (h a refl)

pub IsQuiet-refl : (m : UploadManager) → IsQuiet m m
IsQuiet-refl m = record { sessions = refl; next = refl; db = refl; objects = λ a. refl }

pub IsQuiet-trans : {m n o : UploadManager} → IsQuiet m n → IsQuiet n o → IsQuiet m o
IsQuiet-trans s t = record {
  sessions = t.sessions ∙ s.sessions;
  next = t.next ∙ s.next;
  db = t.db ∙ s.db;
  objects = λ a. t.objects a ∙ s.objects a;
}

pub IsQuiet-set_object :
    (a : ℕ) (s : UploadSession) (m : UploadManager)
    → goal s ≡ goal (m.objects a)
    → IsQuiet m (set_object a s m)
IsQuiet-set_object a s m h = record {
  sessions = refl;
  next = refl;
  db = refl;
  objects = λ b. at b (eqb a b) refl;
}
  where
    at : (b : ℕ) (q : Bool) → eqb a b ≡ q → goal (if q then s else m.objects b) ≡ goal (m.objects b)
    at b true e = let same : a ≡ b = ground arith in h ∙ ap (λ c. goal (m.objects c)) same
    at b false e = refl

pub IsQuiet-launch_if_capacity : (a : ℕ) (m : UploadManager) → IsQuiet m (launch_if_capacity a m)
unfolding launch_if_capacity
IsQuiet-launch_if_capacity a m = either (leb (in_flight_cap m) m.in_flight)
  where
    either :
        (q : Bool)
        → IsQuiet m (
            if q
            then m
            else record m { in_flight = m.in_flight + 1; running = m.running ++ a ∷ [] })
    either true = IsQuiet-refl m
    either false = record { sessions = refl; next = refl; db = refl; objects = λ b. refl }

pub IsQuiet-relaunch :
    (a : ℕ) (s : UploadSession) (m : UploadManager)
    → goal s ≡ goal (m.objects a)
    → IsQuiet m (relaunch a s m)
unfolding relaunch
IsQuiet-relaunch a s m h =
    IsQuiet-trans (IsQuiet-set_object a (set_state pending none s) m h)
      (IsQuiet-launch_if_capacity a (set_object a (set_state pending none s) m))

-- Addresses of other sessions.
pub other_address :
    (m : UploadManager) (s : IsDurable m) (id j : String) (a b : ℕ)
    → Dict.get m.sessions id ≡ some a
    → Dict.get m.sessions j ≡ some b
    → (id == j) ≡ false
    → eqb a b ≡ false
other_address m s id j a b h k other = elim (Bool-cases (eqb a b)) [
  | inl e ↦
      let same : a ≡ b = ground arith in
      let named : id ≡ j = sym (s.keyed id a h) ∙ ap (λ c. (m.objects c).id) same ∙ s.keyed j b k in
      let yes = (eq_iff id j).1 named in cc
  | inr e ↦ e
]

-- A write at one session's address does not change what the others are to upload.
module _ (m : UploadManager) (s : IsDurable m) (id : String) (a : ℕ)
    (h : Dict.get m.sessions id ≡ some a) (t : UploadSession) where
  pub elsewhere :
      (j : String)
      → (id == j) ≡ false
      → live_goal (λ b. if eqb a b then t else m.objects b) (Dict.get m.sessions j)
        ≡ live_goal m.objects (Dict.get m.sessions j)
  elsewhere j other =
      live_goal-same m.objects (λ b. if eqb a b then t else m.objects b) (Dict.get m.sessions j)
        λ b k. rw (other_address m s id j a b h k other)

  pub removed_stored :
      (j : String)
      → stored_goal (Dict.get (Dict.remove s.bolt.uploads id) j)
        ≡ live_goal
            (λ b. if eqb a b then t else m.objects b)
            (Dict.get (Dict.remove m.sessions id) j)
  removed_stored j = elim (Bool-cases (id == j)) [
    | inl e ↦ rw (get-remove s.bolt.uploads id j, get-remove m.sessions id j, e)
    | inr e ↦
        rw (get-remove s.bolt.uploads id j, get-remove m.sessions id j, e)
          (s.stored j ∙ sym (elsewhere j e))
  ]

  pub removed_keyed :
      (j : String) (b : ℕ)
      → Dict.get (Dict.remove m.sessions id) j ≡ some b
      → (if eqb a b then t else m.objects b).id ≡ j
  removed_keyed j b k = elim (Bool-cases (id == j)) [
    | inl e ↦
        let none_there : Dict.get (Dict.remove m.sessions id) j ≡ none =
          rw (get-remove m.sessions id j, e) in
        cc
    | inr e ↦
        let there : Dict.get m.sessions j ≡ some b = sym (rw (get-remove m.sessions id j, e)) ∙ k in
        rw (other_address m s id j a b h there e) (s.keyed j b there)
  ]

  pub removed_fresh :
      (j : String) (b : ℕ) → Dict.get (Dict.remove m.sessions id) j ≡ some b → b < m.next
  removed_fresh j b k = elim (Bool-cases (id == j)) [
    | inl e ↦
        let none_there : Dict.get (Dict.remove m.sessions id) j ≡ none =
          rw (get-remove m.sessions id j, e) in
        cc
    | inr e ↦ s.fresh j b (sym (rw (get-remove m.sessions id j, e)) ∙ k)
  ]

pub db-delete_upload_session :
    (id : String) (c : InodeCache) (b : Bolt)
    → c.db ≡ some b
    → b.commits ≡ []
    → (delete_upload_session id c).db ≡ some (record b { uploads = Dict.remove b.uploads id })
unfolding delete_upload_session
db-delete_upload_session id c b h q =
    update_db-db (λ (x : Bolt). record x { uploads = Dict.remove x.uploads id }) c b h q

pub db-save_upload_session :
    (id : String) (r : StoredSession) (c : InodeCache) (b : Bolt)
    → c.db ≡ some b
    → b.commits ≡ []
    → (save_upload_session id r c).db ≡ some (record b { uploads = Dict.put b.uploads id r })
unfolding save_upload_session
db-save_upload_session id r c b h q =
    update_db-db (λ (x : Bolt). record x { uploads = Dict.put x.uploads id r }) c b h q

pub goal-here :
    (a : ℕ) (t : UploadSession) (objects : ℕ → UploadSession)
    → live_goal (λ b. if eqb a b then t else objects b) (some a) ≡ some (goal t)
goal-here a t objects = let same : eqb a a ≡ true = ground arith in rw same

pub id-set_object :
    (a b : ℕ) (t : UploadSession) (m : UploadManager)
    → t.id ≡ (m.objects a).id
    → (if eqb a b then t else m.objects b).id ≡ (m.objects b).id
id-set_object a b t m h = elim (Bool-cases (eqb a b)) [
  | inl e ↦ let same : a ≡ b = ground arith in rw e (h ∙ ap (λ c. (m.objects c).id) same)
  | inr e ↦ rw e
]
