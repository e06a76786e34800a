-- ===== src/Uploads/Durable.antt =====
-- Which uploads survive a crash (internal/fs/upload_manager.go): the sessions in the database are
-- those in memory.
use onecloudriver.Prelude.{
  ℕ, ◌+◌, String, ◌≡◌, refl, sym, ap, ◌∙◌, Bool, true, false, Option, none, some, [], ◌∷◌, ltb, eqb,
  ◌==◌, eq_iff, if◌then◌else◌, Bool-cases, inl, inr,
}
use onecloudriver.Prelude.Dict
use onecloudriver.Prelude.Dict.{Dict, get-put, get-remove}
use onecloudriver.Uploads.Session.{
  UploadState, pending, uploading, complete, errored, UploadSession, StoredSession, as_json,
  discard_snapshot, set_next_retry_at,
}
use onecloudriver.Uploads.Manager.{
  UploadManager, set_object, persist_session, discard_at, retarget_at, retarget, finish_at,
  finish_session, launch_if_capacity, retry_errored, process_session, process_each, backoff_for,
  retry_cap,
}
use onecloudriver.Uploads.Stored.{
  elsewhere, removed_stored, removed_keyed, removed_fresh, goal-here, id-set_object, live_goal,
  IsDurable, IsQuiet, live_goal-same, IsQuiet-set_object, IsQuiet-launch_if_capacity,
  IsQuiet-relaunch, db-delete_upload_session, db-save_upload_session,
}

-- A durable manager, each of whose coming transactions commits.
pub record IsKept (m : UploadManager) : Type 0 where
  pub durable : IsDurable m
  pub commits : durable.bolt.commits ≡ []

pub IsKept-IsQuiet : {m n : UploadManager} → IsQuiet m n → IsKept m → IsKept n
IsKept-IsQuiet {m} {n} q k = record {
  durable = record {
    bolt = k.durable.bolt;
    opened = q.db ∙ k.durable.opened;
    stored = λ id.
        k.durable.stored id
        ∙ sym (live_goal-same m.objects n.objects (Dict.get m.sessions id) (λ a _. q.objects a))
        ∙ ap (λ d. live_goal n.objects (Dict.get d id)) (sym q.sessions);
    keyed = λ id a h.
        ap (λ (r : StoredSession). r.id) (q.objects a)
        ∙ k.durable.keyed id a (ap (λ d. Dict.get d id) (sym q.sessions) ∙ h);
    fresh =
        λ id a h. rw q.next (k.durable.fresh id a (ap (λ d. Dict.get d id) (sym q.sessions) ∙ h));
  };
  commits = k.commits;
}

pub finish_session-IsKept :
    (id : String) (m : UploadManager) → IsKept m → IsKept (finish_session id m)
unfolding finish_session finish_at discard_at
finish_session-IsKept id m s = at_found (Dict.get m.sessions id) refl
  where
    at_found :
        (o : Option ℕ)
        → Dict.get m.sessions id ≡ o
        → let n : UploadManager = elim o [ none ↦ m | some a ↦ finish_at id a m ] in IsKept n
    at_found none h = s
    at_found (some a) h =
        let t = (discard_snapshot (m.objects a) m.files).0 in
        let d = s.durable in
        record {
          durable = record {
            bolt = record d.bolt { uploads = Dict.remove d.bolt.uploads id };
            opened = db-delete_upload_session id m.cache d.bolt d.opened s.commits;
            stored = removed_stored m d id a h t;
            keyed = removed_keyed m d id a h t;
            fresh = removed_fresh m d id a h t;
          };
          commits = s.commits;
        }

if-IsKept : (q : Bool) {m n : UploadManager} → IsKept m → IsKept n → IsKept (if q then m else n)
if-IsKept true s t = s
if-IsKept false s t = t

retry_errored-IsKept :
    (now a : ℕ) (m : UploadManager) → IsKept m → IsKept (retry_errored now a (m.objects a) m)
unfolding retry_errored
retry_errored-IsKept now a m s =
    let t0 = m.objects a in
    let t = record t0 { retries = t0.retries + 1 } in
    if-IsKept t.transient
      (IsKept-IsQuiet
        (IsQuiet-relaunch a (set_next_retry_at (now + backoff_for t.retries) t) m refl) s)
      (if-IsKept (ltb (retry_cap m) t.retries)
        (finish_session-IsKept t.id (set_object a t m)
          (IsKept-IsQuiet (IsQuiet-set_object a t m refl) s))
        (IsKept-IsQuiet (IsQuiet-relaunch a t m refl) s))

process_session-IsKept :
    (now a : ℕ) (m : UploadManager) → IsKept m → IsKept (process_session now a m)
unfolding process_session
process_session-IsKept now a m s = by_state (m.objects a).state
  where
    by_state :
        (st : UploadState)
        → let n : UploadManager = elim st [
          | pending ↦ launch_if_capacity a m
          | uploading ↦ m
          | complete ↦ finish_session (m.objects a).id m
          | errored ↦
              if ltb now (m.objects a).next_retry then m else retry_errored now a (m.objects a) m
        ] in
          IsKept n
    by_state pending = IsKept-IsQuiet (IsQuiet-launch_if_capacity a m) s
    by_state uploading = s
    by_state complete = finish_session-IsKept (m.objects a).id m s
    by_state errored =
        if-IsKept (ltb now (m.objects a).next_retry) s (retry_errored-IsKept now a m s)

pub process_each-IsKept :
    (now : ℕ) (d : Dict ℕ) (m : UploadManager) → IsKept m → IsKept (process_each now d m)
unfolding process_each
process_each-IsKept now [] m s = s
process_each-IsKept now ((_, a) ∷ d) m s =
    process_each-IsKept now d (process_session now a m) (process_session-IsKept now a m s)

-- A rename of a session that is still the one in the queue.
pub retarget_at-IsKept :
    (id : String) (a : ℕ) (p n : String) (m : UploadManager)
    → Dict.get m.sessions id ≡ some a
    → IsKept m
    → IsKept (retarget_at id a p n m)
unfolding retarget_at persist_session retarget
retarget_at-IsKept id a p n m h k =
    let s = k.durable in
    let t = retarget p n (m.objects a) in
    record {
      durable = record {
        bolt = record s.bolt { uploads = Dict.put s.bolt.uploads id (as_json t) };
        opened = db-save_upload_session id (as_json t) m.cache s.bolt s.opened k.commits;
        stored = λ j. elim (Bool-cases (id == j)) [
          | inl e ↦
              let there : Dict.get m.sessions j ≡ some a =
                ap (λ k. Dict.get m.sessions k) (sym ((eq_iff id j).0 e)) ∙ h in
              rw (get-put s.bolt.uploads id j (as_json t), e)
                (sym (
                  ap (live_goal (λ b. if eqb a b then t else m.objects b)) there
                  ∙ goal-here a t m.objects))
          | inr e ↦
              rw (get-put s.bolt.uploads id j (as_json t), e)
                (s.stored j ∙ sym (elsewhere m s id a h t j e))
        ];
        keyed = λ j b k. id-set_object a b t m (kept_id (m.objects a)) ∙ s.keyed j b k;
        fresh = s.fresh;
      };
      commits = k.commits;
    }
  where
    kept_id : (t : UploadSession) → (retarget p n t).id ≡ t.id
    kept_id t = elim (Bool-cases (p == "")) [ inl e ↦ rw e | inr e ↦ rw e ]
