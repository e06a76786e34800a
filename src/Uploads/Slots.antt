-- ===== src/Uploads/Slots.antt =====
-- The upload slots of internal/fs/upload_manager.go: every interleaving of the queue, the ticker
-- and the upload goroutines, as steps.
use onecloudriver.Prelude.{
  ℕ, suc, ◌+◌, ◌-◌, ◌≤◌, ◌<◌, String, ◌≡◌, refl, ap, ◌∙◌, Bool, true, false, Option, none, some,
  List, [], ◌∷◌, ◌++◌, length, length-append, arith, ltb, leb, Bool-cases, inl, inr, if◌then◌else◌,
}
use onecloudriver.Prelude.Dict
use onecloudriver.Prelude.Dict.{Dict}
use onecloudriver.Graph.Models.{DriveItem}
use onecloudriver.Uploads.Session.{
  UploadState, pending, uploading, complete, errored, UploadSession, set_state, set_next_retry_at,
  open_content,
}
use onecloudriver.Uploads.Remote.{Failure, Remote, Answer, failed, answered}
use onecloudriver.Uploads.Manager.{
  UploadManager, enqueue_session, finish_session, retarget_at, process_session, process_each,
  process_sessions, in_flight_cap, set_object, backoff_for, retry_cap, supersede, discard_at,
  finish_at, launch_if_capacity, relaunch, retry_errored, release_in_flight,
}
use onecloudriver.Uploads.Execute.{
  Launch, conclude, start_upload, finish_upload, fail_upload, complete_upload, upload,
}

-- The manager, the uploads whose request is under way, and the server.
pub record System (W : Type 0) : Type 0 where
  pub manager : UploadManager
  pub launches : List Launch
  pub server : W

-- One iteration of uploadLoop, what a RenameSession does to the session that it found, or one of the
-- two parts of an executeUpload. RenameSession looks its session up at any earlier time, so that the
-- session may have left the queue since, or another one may have taken its ID; its change of the
-- session and the store after it are one step. A goroutine that was launched starts at any later time, and a request that is under way
-- ends at any later time.
pub data Step {W : Type 0} (remote : Remote W) : System W → System W → Type 0 where
  enqueued :
      (s : UploadSession) (m : UploadManager) (ls : List Launch) (w : W)
      → Step remote
          (record { manager = m; launches = ls; server = w })
          (record { manager = enqueue_session s m; launches = ls; server = w })
  cancelled :
      (id : String) (m : UploadManager) (ls : List Launch) (w : W)
      → Step remote
          (record { manager = m; launches = ls; server = w })
          (record { manager = finish_session id m; launches = ls; server = w })
  renamed :
      (id : String) (a : ℕ) (new_parent new_name : String) (m : UploadManager) (ls : List Launch)
      (w : W)
      → a < m.next
      → (m.objects a).id ≡ id
      → Step remote
          (record { manager = m; launches = ls; server = w })
          (record { manager = retarget_at id a new_parent new_name m; launches = ls; server = w })
  ticked :
      (now : ℕ) (m : UploadManager) (ls : List Launch) (w : W)
      → Step remote
          (record { manager = m; launches = ls; server = w })
          (record { manager = process_sessions now m; launches = ls; server = w })
  started :
      (xs : List ℕ) (a : ℕ) (ys : List ℕ) (m : UploadManager) (ls : List Launch) (w : W)
      → m.running ≡ xs ++ a ∷ ys
      → Step remote
          (record { manager = m; launches = ls; server = w })
          (record {
            manager = record (start_upload a m).1 { running = xs ++ ys };
            launches = (start_upload a m).0 ∷ ls;
            server = w;
          })
  finished :
      (now : ℕ) (conflicted : String) (opening : Failure) (xs : List Launch) (l : Launch)
      (ys : List Launch) (m : UploadManager) (w : W)
      → Step remote
          (record { manager = m; launches = xs ++ l ∷ ys; server = w })
          (record {
            manager = (finish_upload remote now conflicted opening l m w).0;
            launches = xs ++ ys;
            server = (finish_upload remote now conflicted opening l m w).1;
          })

pub data Reachable {W : Type 0} (remote : Remote W) : System W → System W → Type 0 where
  here : (s : System W) → Reachable remote s s
  after : {s t u : System W} → Reachable remote s t → Step remote t u → Reachable remote s u

-- The counter counts the goroutines, and stays under the limit.
pub record IsBounded {W : Type 0} (s : System W) : Type 0 where
  pub counted : s.manager.in_flight ≡ length s.manager.running + length s.launches
  pub bounded : s.manager.in_flight ≤ in_flight_cap s.manager

-- A change that leaves the slots alone.
record SameSlots (m n : UploadManager) : Type 0 where
  in_flight : n.in_flight ≡ m.in_flight
  running : n.running ≡ m.running
  cap : n.max_uploads_in_flight ≡ m.max_uploads_in_flight

-- The slots of a manager, with `k` requests under way.
record Bounded (k : ℕ) (m : UploadManager) : Type 0 where
  counted : m.in_flight ≡ length m.running + k
  bounded : m.in_flight ≤ in_flight_cap m

Bounded-SameSlots : {k : ℕ} {m n : UploadManager} → SameSlots m n → Bounded k m → Bounded k n
unfolding in_flight_cap
Bounded-SameSlots e s = record {
  counted = rw (e.in_flight, e.running) s.counted;
  bounded = rw (e.in_flight, e.cap) s.bounded;
}

SameSlots-supersede : (o : Option ℕ) (m : UploadManager) → SameSlots m (supersede o m)
unfolding supersede discard_at
SameSlots-supersede none m = record { in_flight = refl; running = refl; cap = refl }
SameSlots-supersede (some a) m = record { in_flight = refl; running = refl; cap = refl }

SameSlots-enqueue_session :
    (s : UploadSession) (m : UploadManager) → SameSlots m (enqueue_session s m)
unfolding enqueue_session
SameSlots-enqueue_session s m =
    let e = SameSlots-supersede (Dict.get m.sessions s.id) m in
    record { in_flight = e.in_flight; running = e.running; cap = e.cap }

SameSlots-refl : (m : UploadManager) → SameSlots m m
SameSlots-refl m = record { in_flight = refl; running = refl; cap = refl }

found-SameSlots :
    (o : Option ℕ) (m : UploadManager) (f : ℕ → UploadManager)
    → ((a : ℕ) → SameSlots m (f a))
    → SameSlots m (elim o [ none ↦ m | some a ↦ f a ])
found-SameSlots none m f k = SameSlots-refl m
found-SameSlots (some a) m f k = k a

SameSlots-finish_session : (id : String) (m : UploadManager) → SameSlots m (finish_session id m)
unfolding finish_session finish_at discard_at
SameSlots-finish_session id m =
    found-SameSlots (Dict.get m.sessions id) m (λ a. finish_at id a m)
      λ a. record { in_flight = refl; running = refl; cap = refl }

SameSlots-retarget_at :
    (id : String) (a : ℕ) (p n : String) (m : UploadManager) → SameSlots m (retarget_at id a p n m)
unfolding retarget_at
SameSlots-retarget_at id a p n m = record { in_flight = refl; running = refl; cap = refl }

-- A launch takes a slot if there is one.
launch_if_capacity-Bounded :
    (k a : ℕ) (m : UploadManager) → Bounded k m → Bounded k (launch_if_capacity a m)
unfolding launch_if_capacity in_flight_cap
launch_if_capacity-Bounded k a m s = elim (Bool-cases (leb (in_flight_cap m) m.in_flight)) [
  | inl e ↦ rw e s
  | inr e ↦ rw e (record {
    counted = rw (s.counted, length-append m.running (a ∷ [])) (omega arith);
    bounded = let b = s.bounded in ground arith;
  })
]

le_of_pred : (a b : ℕ) → a ≤ b → a - 1 ≤ b
le_of_pred a b h = omega arith

if-Bounded :
    {k : ℕ} (q : Bool) {m n : UploadManager}
    → Bounded k m
    → Bounded k n
    → Bounded k (if q then m else n)
if-Bounded true s t = s
if-Bounded false s t = t

by_state-Bounded :
    {k : ℕ} (st : UploadState) {m n o p : UploadManager}
    → Bounded k m
    → Bounded k n
    → Bounded k o
    → Bounded k p
    → Bounded k (elim st [ pending ↦ m | uploading ↦ n | complete ↦ o | errored ↦ p ])
by_state-Bounded pending s t u v = s
by_state-Bounded uploading s t u v = t
by_state-Bounded complete s t u v = u
by_state-Bounded errored s t u v = v

relaunch-Bounded :
    (k a : ℕ) (t : UploadSession) (m : UploadManager) → Bounded k m → Bounded k (relaunch a t m)
unfolding relaunch
relaunch-Bounded k a t m s =
    launch_if_capacity-Bounded k a (set_object a (set_state pending none t) m)
      (record { counted = s.counted; bounded = s.bounded })

retry_errored-Bounded :
    (k now a : ℕ) (t : UploadSession) (m : UploadManager)
    → Bounded k m
    → Bounded k (retry_errored now a t m)
unfolding retry_errored
retry_errored-Bounded k now a t m s =
    let r = record t { retries = t.retries + 1 } in
    if-Bounded t.transient
      (relaunch-Bounded k a (set_next_retry_at (now + backoff_for r.retries) r) m s)
      (if-Bounded (ltb (retry_cap m) r.retries)
        (Bounded-SameSlots (SameSlots-finish_session r.id (set_object a r m))
          (record { counted = s.counted; bounded = s.bounded }))
        (relaunch-Bounded k a r m s))

process_session-Bounded :
    (k now a : ℕ) (m : UploadManager) → Bounded k m → Bounded k (process_session now a m)
unfolding process_session
process_session-Bounded k now a m s =
    by_state-Bounded (m.objects a).state (launch_if_capacity-Bounded k a m s) s
      (Bounded-SameSlots (SameSlots-finish_session (m.objects a).id m) s)
      (if-Bounded (ltb now (m.objects a).next_retry) s
        (retry_errored-Bounded k now a (m.objects a) m s))

process_each-Bounded :
    (k now : ℕ) (d : Dict ℕ) (m : UploadManager) → Bounded k m → Bounded k (process_each now d m)
unfolding process_each
process_each-Bounded k now [] m s = s
process_each-Bounded k now ((_, a) ∷ d) m s =
    process_each-Bounded k now d (process_session now a m) (process_session-Bounded k now a m s)

-- A request that ends gives its slot back, whatever its outcome.
record Released (m n : UploadManager) : Type 0 where
  in_flight : n.in_flight ≡ m.in_flight - 1
  running : n.running ≡ m.running
  cap : n.max_uploads_in_flight ≡ m.max_uploads_in_flight

Released-conclude :
    {W : Type 0} (remote : Remote W) (now : ℕ) (l : Launch) (m : UploadManager)
    (r : Answer (DriveItem × Bool)) (w : W)
    → Released m (conclude remote now l m r w).0
unfolding conclude release_in_flight fail_upload complete_upload
Released-conclude remote now l m (failed e) w = record {
  in_flight = refl;
  running = refl;
  cap = refl;
}
Released-conclude remote now l m (answered (item, created_new)) w = record {
  in_flight = refl;
  running = refl;
  cap = refl;
}

Released-finish_upload :
    {W : Type 0} (remote : Remote W) (now : ℕ) (conflicted : String) (opening : Failure)
    (l : Launch) (m : UploadManager) (w : W)
    → Released m (finish_upload remote now conflicted opening l m w).0
unfolding finish_upload
Released-finish_upload remote now conflicted opening l m w =
    let content = open_content m.files (m.objects l.session) in
    let (r, w') = upload remote content opening conflicted l w in
    Released-conclude remote now l m r w'

length-middle {ℓ} :
    {A : Type ℓ} (xs : List A) (a : A) (ys : List A)
    → length (xs ++ a ∷ ys) ≡ suc (length (xs ++ ys))
length-middle xs a ys = rw (length-append xs (a ∷ ys), length-append xs ys) (omega arith)

IsBounded-Bounded :
    {W : Type 0} {m : UploadManager} {ls : List Launch} {w : W}
    → IsBounded (record { manager = m; launches = ls; server = w })
    → Bounded (length ls) m
IsBounded-Bounded s = record { counted = s.counted; bounded = s.bounded }

Bounded-IsBounded :
    {W : Type 0} {m : UploadManager} (ls : List Launch) (w : W)
    → Bounded (length ls) m
    → IsBounded (record { manager = m; launches = ls; server = w })
Bounded-IsBounded ls w s = record { counted = s.counted; bounded = s.bounded }

module _ {W : Type 0} (remote : Remote W) where
  Step-IsBounded : {s t : System W} → Step remote s t → IsBounded s → IsBounded t
  unfolding process_sessions start_upload in_flight_cap
  Step-IsBounded (enqueued s m ls w) b =
      Bounded-IsBounded ls w
        (Bounded-SameSlots (SameSlots-enqueue_session s m) (IsBounded-Bounded b))
  Step-IsBounded (cancelled id m ls w) b =
      Bounded-IsBounded ls w
        (Bounded-SameSlots (SameSlots-finish_session id m) (IsBounded-Bounded b))
  Step-IsBounded (renamed id a p n m ls w x y) b =
      Bounded-IsBounded ls w
        (Bounded-SameSlots (SameSlots-retarget_at id a p n m) (IsBounded-Bounded b))
  Step-IsBounded (ticked now m ls w) b =
      Bounded-IsBounded ls w
        (process_each-Bounded (length ls) now m.sessions m (IsBounded-Bounded b))
  Step-IsBounded (started xs a ys m ls w e) b = record {
    counted = let k = ap length e ∙ length-middle xs a ys in let c = b.counted in omega arith;
    bounded = b.bounded;
  }
  Step-IsBounded (finished now conflicted opening xs l ys m w) b =
      let r = Released-finish_upload remote now conflicted opening l m w in
      let k = length-middle xs l ys in
      let c = b.counted in
      let d = b.bounded in
      record {
        counted = rw (r.in_flight, r.running) (omega arith);
        bounded = rw (r.in_flight, r.cap) (le_of_pred _ _ d);
      }

  -- From a state in which the counter of uploads in flight equals the number of upload goroutines
  -- and is at most the limit, every sequence of steps leads to such a state: an enqueued, cancelled
  -- or renamed session, a tick, and a goroutine that starts or ends, in any order and whatever the
  -- server answers.
  pub Reachable-IsBounded : {s t : System W} → Reachable remote s t → IsBounded s → IsBounded t
  Reachable-IsBounded (here s) b = b
  Reachable-IsBounded (after r x) b = Step-IsBounded x (Reachable-IsBounded r b)
