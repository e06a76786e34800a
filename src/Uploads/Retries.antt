-- ===== src/Uploads/Retries.antt =====
-- The retries of internal/fs/upload_manager.go: the backoff, and which failed uploads are given up.
use Prim.Native.Nat.{min}
use onecloudriver.Prelude.{
  ℕ, zero, suc, ◌+◌, ◌-◌, ◌*◌, ◌^◌, ◌≤◌, String, ◌≡◌, refl, ap, ◌∙◌, Bool, true, false, ◌||◌,
  Option, none, some, arith, ltb, leb, Bool-cases, inl, inr, if◌then◌else◌, eq_refl, is_some,
}
use native.Mathlib.Numerals.{unary_clauses}
use onecloudriver.Prelude.Dict
use onecloudriver.Prelude.Dict.{get-remove}
use onecloudriver.Uploads.Session.{
  pending, uploading, complete, errored, UploadSession, set_state, set_next_retry_at,
}
use onecloudriver.Uploads.Manager.{
  UploadManager, process_session, retry_errored, relaunch, launch_if_capacity, finish_session,
  finish_at, discard_at, has_pending_upload, in_flight_cap, retry_cap, set_object, double_capped,
  backoff_for, upload_ticker_interval, max_retry_backoff,
}

-- Doubling with a cap is the doubling of all rounds, capped at the end.
doubled : ℕ → ℕ → ℕ
doubled zero d = d
doubled (suc n) d = doubled n (d * 2)

le_doubled : (n d : ℕ) → d ≤ doubled n d
unfolding doubled
le_doubled zero d = omega arith
le_doubled (suc n) d = let h = le_doubled n (d * 2) in omega arith

shift_two : (d x : ℕ) → d * 2 * x ≡ d * (x * 2)
shift_two d x = omega arith

doubled_pow : (n d : ℕ) → doubled n d ≡ d * 2 ^ n
unfolding doubled
doubled_pow zero d = omega arith
doubled_pow (suc n) d = simp unary_clauses (doubled_pow n (d * 2) ∙ shift_two d (2 ^ n))

both_capped : (cap x y : ℕ) → cap ≤ x → cap ≤ y → min x cap ≡ min y cap
both_capped cap x y h k = omega arith

capped_alike :
    (e cap : ℕ) (f : ℕ → ℕ)
    → e ≤ f e
    → min e cap ≤ f (min e cap)
    → min (f (min e cap)) cap ≡ min (f e) cap
capped_alike e cap f h k = elim (Bool-cases (leb e cap)) [
  | inl q ↦ let same : min e cap ≡ e = ground arith in rw same
  | inr q ↦
      let full : min e cap ≡ cap = ground arith in
      both_capped cap (f (min e cap)) (f e) (omega arith) (ground arith)
]

double_capped-doubled :
    (n d : ℕ) → d ≤ max_retry_backoff → double_capped n d ≡ min (doubled n d) max_retry_backoff
unfolding double_capped doubled
double_capped-doubled zero d h = ground arith
double_capped-doubled (suc n) d h =
    let above = le_doubled n (d * 2) in
    elim (Bool-cases (ltb d max_retry_backoff)) [
      | inl e ↦
          let d' = min (d * 2) max_retry_backoff in
          let k = double_capped-doubled n d' (omega arith) in
          let at_cap = le_doubled n d' in
          rw e (k ∙ capped_alike (d * 2) max_retry_backoff (doubled n) above at_cap)
      | inr e ↦
          let k = double_capped-doubled n d h in
          let at_cap = le_doubled n d in
          rw e (
            k
            ∙ both_capped max_retry_backoff (doubled n d) (doubled n (d * 2)) (ground arith)
                (ground arith))
    ]

pred_suc : (n : ℕ) → suc n - 1 ≡ n
pred_suc n = omega arith

-- The delay before retry number n + 1 is 2 seconds doubled n times, and at most one minute.
pub backoff_for-pow :
    (n : ℕ) → backoff_for (suc n) ≡ min (upload_ticker_interval * 2 ^ n) max_retry_backoff
unfolding backoff_for
backoff_for-pow n =
    ap (λ k. double_capped k upload_ticker_interval) (pred_suc n)
    ∙ double_capped-doubled n upload_ticker_interval (omega arith)
    ∙ ap (λ x. min x max_retry_backoff) (doubled_pow n upload_ticker_interval)

over : (cap r : ℕ) → ltb cap (r + 1) ≡ true → false ≡ leb (suc r) cap
over cap r h = ground arith

within : (cap r : ℕ) → ltb cap (r + 1) ≡ false → true ≡ leb (suc r) cap
within cap r h = ground arith

decide :
    (id : String) (q g p : Bool) (x y z : UploadManager)
    → has_pending_upload x id ≡ true
    → (g ≡ true → has_pending_upload y id ≡ p)
    → (g ≡ false → has_pending_upload z id ≡ p)
    → has_pending_upload (if q then x else if g then y else z) id ≡ q || p
decide id true g p x y z i j k = i
decide id false true p x y z i j k = j refl
decide id false false p x y z i j k = k refl

kept_sessions :
    (a : ℕ) (t : UploadSession) (m : UploadManager) → (relaunch a t m).sessions ≡ m.sessions
unfolding relaunch launch_if_capacity
kept_sessions a t m =
    elim (Bool-cases
      (leb (in_flight_cap (set_object a (set_state pending none t) m)) m.in_flight)) [
        | inl e ↦ rw e
        | inr e ↦ rw e
      ]

pending_of :
    (m : UploadManager) (id : String) (o : Option ℕ)
    → Dict.get m.sessions id ≡ o
    → has_pending_upload m id ≡ is_some o
unfolding has_pending_upload
pending_of m id o h = ap (λ (r : Option ℕ). elim r [ none ↦ false | some _ ↦ true ]) h ∙ shown o
  where
    shown : (r : Option ℕ) → (elim r [ none ↦ false | some _ ↦ true ]) ≡ is_some r
    shown none = refl
    shown (some _) = refl

gone_session :
    (a : ℕ) (id : String) (m : UploadManager) → has_pending_upload (finish_at id a m) id ≡ false
unfolding finish_at discard_at
gone_session a id m =
    pending_of (finish_at id a m) id none (rw (get-remove m.sessions id id, eq_refl id))

module _ (now a : ℕ) (m : UploadManager) (id : String) (h : Dict.get m.sessions id ≡ some a) where
  retried : (t : UploadSession) → has_pending_upload (relaunch a t m) id ≡ true
  retried t =
      pending_of (relaunch a t m) id (some a) (ap (λ d. Dict.get d id) (kept_sessions a t m) ∙ h)

  abandoned :
      (t : UploadSession) → has_pending_upload (finish_session id (set_object a t m)) id ≡ false
  unfolding finish_session
  abandoned t =
      let n = set_object a t m in
      ap (λ o. has_pending_upload (elim o [ none ↦ n | some b ↦ finish_at id b n ]) id) h
      ∙ gone_session a id n

  retry_errored-keeps :
      (s : UploadSession)
      → s.id ≡ id
      → has_pending_upload (retry_errored now a s m) id
        ≡ s.transient || leb (suc s.retries) (retry_cap m)
  unfolding retry_errored
  retry_errored-keeps s named =
      let t = record s { retries = s.retries + 1 } in
      decide id s.transient (ltb (retry_cap m) t.retries) (leb (suc s.retries) (retry_cap m))
        (relaunch a (set_next_retry_at (now + backoff_for t.retries) t) m)
        (finish_session t.id (set_object a t m)) (relaunch a t m)
        (retried (set_next_retry_at (now + backoff_for t.retries) t))
        (λ f.
          ap (λ j. has_pending_upload (finish_session j (set_object a t m)) id) named
          ∙ abandoned t
          ∙ over (retry_cap m) s.retries f)
        (λ f. retried t ∙ within (retry_cap m) s.retries f)

  -- A failed upload that is in the queue under its own ID and whose backoff is over is kept in the
  -- queue exactly if its error was one of the network, or this retry is still within the limit.
  pub process_session-keeps :
      (m.objects a).id ≡ id
      → (m.objects a).state ≡ errored
      → (m.objects a).next_retry ≤ now
      → has_pending_upload (process_session now a m) id
        ≡ (m.objects a).transient || leb (suc (m.objects a).retries) (retry_cap m)
  unfolding process_session
  process_session-keeps named failed due =
      let s = m.objects a in
      let later : ltb now s.next_retry ≡ false = ground arith in
      ap
        (λ st.
          has_pending_upload
            (elim st [
              | pending ↦ launch_if_capacity a m
              | uploading ↦ m
              | complete ↦ finish_session s.id m
              | errored ↦ if ltb now s.next_retry then m else retry_errored now a s m
            ])
            id)
        failed
      ∙ rw later (retry_errored-keeps s named)
