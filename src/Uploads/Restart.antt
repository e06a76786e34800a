-- ===== src/Uploads/Restart.antt =====
-- A restart after a crash (internal/fs/upload_manager.go: NewUploadManager and
-- restoreIncompleteSessions).
use onecloudriver.Prelude.{
  ℕ, ◌<◌, String, ◌≡◌, refl, sym, ap, ◌∙◌, true, Option, none, some, [], ◌∷◌, eqb, ◌==◌, eq_iff,
  if◌then◌else◌, arith, Bool-cases, inl, inr,
}
use onecloudriver.Prelude.Dict
use onecloudriver.Prelude.Dict.{Dict, IsMap, get-put}
use onecloudriver.Inodes.Cache.{InodeCache, Bolt}
use onecloudriver.Inodes.Bolt.{load_upload_sessions}
use onecloudriver.Uploads.Session.{
  UploadSession, StoredSession, Files, pending, set_state, new_upload_session_json,
}
use onecloudriver.Uploads.Manager.{UploadManager, restore_session, restore_each, new_upload_manager}
use onecloudriver.Uploads.Stored.{
  IsDurable, live_goal, live_goal-same, stored_goal, goal, goal-here,
}
use onecloudriver.Uploads.Crash.{below}

-- Every entry stands under the ID of its session.
abbrev pub IsKeyed : Dict StoredSession → Type 0
IsKeyed [] = Unit
IsKeyed ((k, r) ∷ d) = (r.id ≡ k) × IsKeyed d

-- The queue holds the sessions that `u` describes.
record Holds (u : Dict StoredSession) (m : UploadManager) : Type 0 where
  stored :
      (id : String) → stored_goal (Dict.get u id) ≡ live_goal m.objects (Dict.get m.sessions id)
  keyed : (id : String) (a : ℕ) → Dict.get m.sessions id ≡ some a → (m.objects a).id ≡ id
  fresh : (id : String) (a : ℕ) → Dict.get m.sessions id ≡ some a → a < m.next

module _ (k : String) (r : StoredSession) (u : Dict StoredSession) (m : UploadManager)
    (s : Holds u m) (named : r.id ≡ k) where
  restored : UploadSession
  restored = set_state pending none (new_upload_session_json r)

  objects' : ℕ → UploadSession
  objects' b = if eqb m.next b then restored else m.objects b

  object-before : (j : String) (b : ℕ) → Dict.get m.sessions j ≡ some b → objects' b ≡ m.objects b
  unfolding objects'
  object-before j b h = rw (below m.next b (s.fresh j b h))

  stored' :
      (j : String)
      → stored_goal (Dict.get (Dict.put u k r) j)
        ≡ live_goal objects' (Dict.get (Dict.put m.sessions k m.next) j)
  unfolding objects' restored set_state new_upload_session_json
  stored' j = elim (Bool-cases (k == j)) [
    | inl e ↦
        rw (get-put u k j r, get-put m.sessions k j m.next, e)
          (sym (goal-here m.next restored m.objects))
    | inr e ↦
        rw (get-put u k j r, get-put m.sessions k j m.next, e)
          (s.stored j
            ∙ sym (
                live_goal-same m.objects objects' (Dict.get m.sessions j)
                  λ b h. ap goal (object-before j b h)))
  ]

  new_or_old :
      {P : Type 0} (j : String) (b : ℕ)
      → Dict.get (Dict.put m.sessions k m.next) j ≡ some b
      → ((k == j) ≡ true → m.next ≡ b → P)
      → (Dict.get m.sessions j ≡ some b → P)
      → P
  new_or_old j b h f g = elim (Bool-cases (k == j)) [
    | inl e ↦
        let n : some m.next ≡ some b = sym (rw e at (get-put m.sessions k j m.next)) ∙ h in f e cc
    | inr e ↦ g (sym (rw e at (get-put m.sessions k j m.next)) ∙ h)
  ]

  id-next : (b : ℕ) → m.next ≡ b → (objects' b).id ≡ k
  unfolding objects' restored set_state new_upload_session_json
  id-next b h = let same : eqb m.next b ≡ true = ground arith in rw same named

  restore_session-Holds : Holds (Dict.put u k r) (restore_session k r m)
  unfolding restore_session new_upload_session_json objects' restored
  restore_session-Holds = record {
    stored = stored';
    keyed = λ j b h.
        new_or_old j b h (λ e n. id-next b n ∙ (eq_iff k j).0 e)
          (λ o. ap (λ (x : UploadSession). x.id) (object-before j b o) ∙ s.keyed j b o);
    fresh =
        λ j b h. new_or_old j b h (λ e n. omega arith) (λ o. let l = s.fresh j b o in omega arith);
  }

-- The entries, put in one by one.
put_all : Dict StoredSession → Dict StoredSession → Dict StoredSession
put_all [] u = u
put_all ((k, r) ∷ d) u = put_all d (Dict.put u k r)

get-put_all :
    (d u : Dict StoredSession) (id : String)
    → IsMap d
    → Dict.get (put_all d u) id ≡ (elim (Dict.get d id) [ none ↦ Dict.get u id | some r ↦ some r ])
unfolding put_all Dict.get
get-put_all [] u id h = refl
get-put_all ((k, r) ∷ d) u id h =
    ground (arith, get-put_all d (Dict.put u k r) id h.1, get-put u k id r, eq_iff k id)

restore_each-Holds :
    (d u : Dict StoredSession) (m : UploadManager)
    → IsKeyed d
    → Holds u m
    → Holds (put_all d u) (restore_each d m)
unfolding restore_each put_all
restore_each-Holds [] u m k s = s
restore_each-Holds ((i, r) ∷ d) u m k s =
    restore_each-Holds d (Dict.put u i r) (restore_session i r m) k.1
      (restore_session-Holds i r u m s k.0)

cache-restore_each :
    (d : Dict StoredSession) (m : UploadManager) → (restore_each d m).cache ≡ m.cache
unfolding restore_each restore_session new_upload_session_json
cache-restore_each [] m = refl
cache-restore_each ((i, r) ∷ d) m = cache-restore_each d (restore_session i r m)

get-put_all_nil :
    (d : Dict StoredSession) (id : String) → IsMap d → Dict.get (put_all d []) id ≡ Dict.get d id
unfolding Dict.get
get-put_all_nil d id h = get-put_all d [] id h ∙ same (Dict.get d id)
  where
    same :
        (o : Option StoredSession)
        → let r : Option StoredSession = elim o [ none ↦ none | some r ↦ some r ] in r ≡ o
    same none = refl
    same (some r) = refl

module _ (filler : UploadSession) (max_in_flight max_retries : ℕ) (cache : InodeCache)
    (files : Files) (b : Bolt) where
  restarted : UploadManager
  restarted = new_upload_manager filler max_in_flight max_retries cache files

  loaded : cache.db ≡ some b → load_upload_sessions cache ≡ b.uploads
  unfolding load_upload_sessions
  loaded h =
      ap
        (λ (o : Option Bolt).
          let d : Dict StoredSession = elim o [ none ↦ [] | some c ↦ c.uploads ] in d)
        h

  restarted-Holds :
      IsKeyed (load_upload_sessions cache)
      → Holds (put_all (load_upload_sessions cache) []) restarted
  unfolding restarted new_upload_manager Dict.get
  restarted-Holds k =
      restore_each-Holds (load_upload_sessions cache) [] _ k
        (record { stored = λ id. refl; keyed = λ id a h. cc; fresh = λ id a h. cc })

  cache-restarted : restarted.cache ≡ cache
  unfolding restarted new_upload_manager
  cache-restarted = cache-restore_each (load_upload_sessions cache) _

  -- A manager that starts over an open database, in which no ID stands twice and every session is
  -- under its own ID, has exactly the stored sessions in its queue, each under its own ID and with
  -- the stored parent, name, content, snapshot and size.
  pub new_upload_manager-IsDurable :
      cache.db ≡ some b
      → IsMap b.uploads
      → IsKeyed b.uploads
      → IsDurable (new_upload_manager filler max_in_flight max_retries cache files)
  unfolding restarted
  new_upload_manager-IsDurable h distinct named =
      let s = restarted-Holds (rw (loaded h) named) in
      record {
        bolt = b;
        opened = ap (λ (c : InodeCache). c.db) cache-restarted ∙ h;
        stored = λ id.
            ap stored_goal (
              sym (
                ap (λ d. Dict.get (put_all d []) id) (loaded h)
                ∙ get-put_all_nil b.uploads id distinct))
            ∙ s.stored id;
        keyed = s.keyed;
        fresh = s.fresh;
      }
