-- ===== src/Delta/Progress.antt =====
-- The progress of a poll (internal/fs/delta.go: pollAndApply and the rounds of deltaLoop).
use onecloudriver.Prelude.{
  ℕ, ◌+◌, String, ◌≡◌, refl, sym, ap, ◌∙◌, Bool, true, false, some, List, [], length, ◌==◌,
  if◌then◌else◌, arith,
}
use onecloudriver.Graph.Models.{DeltaItem}
use onecloudriver.Inodes.Cache.{InodeCache, Bolt, set_offline}
use onecloudriver.Inodes.Bolt.{get_delta_link, set_delta_link, serialize_dirty, transact}
use onecloudriver.Inodes.Bolt.Convergence.{finished, serialize_dirty_lem}
use onecloudriver.Inodes.Inode.{u64}
use onecloudriver.Delta.Apply.{Wiring, DeltaSync, on_cache, apply_page, apply_pass}
use onecloudriver.Delta.Poll.{
  Answers, poll_error, last_page, page, Poll, poll_and_apply, loop_round, persist_poll,
}
use onecloudriver.Delta.Database.{db, apply_pass-db, apply_page-db}
use onecloudriver.Delta.Links.{
  last_link, arrived, ends_well, linked, after_link, db-set_delta_link, kept_or, later, stored_link,
  get_delta_link-offline, kept_link, link_of, get_delta_link-db, commits_after, after_link-commits,
  after_link-link,
}

-- What a poll leaves behind.
pub record HasProgress {K : Type 0} (commits : List Bool) (answers : Answers)
    (given stored : String) (total : ℕ) (r : Poll × DeltaSync K) : Type 0 where
  pub applied : r.0.applied ≡ total + arrived answers
  pub link : r.0.link ≡ last_link answers given
  pub good : r.0.good ≡ ends_well answers
  pub opened : (b : Bolt) × (db r.1.cache ≡ some b) × (b.commits ≡ commits_after commits answers)
  pub persisted : get_delta_link r.1.cache ≡ stored_link commits answers stored

link_stored :
    (next : String) (c d : InodeCache) (b : Bolt)
    → db d ≡ some b
    → db c ≡ some (after_link next b)
    → get_delta_link c ≡ kept_or b.commits next (get_delta_link d)
link_stored next c d b h k =
    get_delta_link-db c (some (after_link next b)) k
    ∙ after_link-link next b
    ∙ ap (kept_or b.commits next) (sym (get_delta_link-db d (some b) h))

stored_link-last_link :
    (answers : Answers) (stored : String) → stored_link [] answers stored ≡ last_link answers stored
unfolding stored_link last_link
stored_link-last_link (poll_error network) stored = refl
stored_link-last_link (last_page items next) stored = refl
stored_link-last_link (page items next answers) stored = stored_link-last_link answers next

commits_after-nil : (answers : Answers) → commits_after [] answers ≡ []
unfolding commits_after
commits_after-nil (poll_error network) = refl
commits_after-nil (last_page items next) = refl
commits_after-nil (page items next answers) = commits_after-nil answers

module _ {K : Type 0} (env : Wiring K) where
  -- The link goes to the database with its page.
  page-db :
      (items : List DeltaItem) (next : String) (pending : List DeltaItem) (d : DeltaSync K)
      (b : Bolt)
      → db d.cache ≡ some b
      → db (set_delta_link next (apply_page env items pending d).1.cache) ≡ some (after_link next b)
  page-db items next pending d b h =
      db-set_delta_link next (apply_page env items pending d).1.cache b
        (apply_page-db env items pending d ∙ h)

  -- A poll with an open database and any answers of the server: it counts the changes of the pages
  -- that arrived, succeeds if and only if the last page arrived, and hands back the link of the last
  -- page that arrived, or the one that it was given if none did, whatever the database does. The
  -- stored link is that of the last page that arrived and whose transaction committed, or what it
  -- was if there is none. The database stays open.
  pub poll_and_apply-HasProgress :
      (answers : Answers) (link : String) (pending : List DeltaItem) (total : ℕ) (d : DeltaSync K)
      (b : Bolt)
      → db d.cache ≡ some b
      → HasProgress b.commits answers link
          (get_delta_link d.cache)
          total
          (poll_and_apply env answers link pending total d)
  unfolding poll_and_apply set_offline last_link arrived ends_well stored_link commits_after
  poll_and_apply-HasProgress (poll_error network) link pending total d b h = record {
    applied = omega arith;
    link = refl;
    good = refl;
    opened = (b, still_open network, refl);
    persisted = offline_link network;
  }
    where
      offline_link :
          (q : Bool)
          → get_delta_link (if q then on_cache (set_offline true) d else d).cache
            ≡ get_delta_link d.cache
      offline_link true = get_delta_link-offline d.cache
      offline_link false = refl

      still_open : (q : Bool) → db (if q then on_cache (set_offline true) d else d).cache ≡ some b
      still_open true = h
      still_open false = h
  poll_and_apply-HasProgress (last_page items next) link pending total d b h =
      let (waiting, d1) = apply_page env items pending d in
      let d2 = on_cache (set_delta_link next) d1 in
      let after = apply_pass-db env waiting d2 ∙ page-db items next pending d b h in
      record {
        applied = refl;
        link = refl;
        good = refl;
        opened = (after_link next b, after, after_link-commits next b);
        persisted = link_stored next (apply_pass env waiting d2).1.cache d.cache b h after;
      }
  poll_and_apply-HasProgress (page items next answers) link pending total d b h =
      let (waiting, d1) = apply_page env items pending d in
      let d2 = on_cache (set_delta_link next) d1 in
      let after = page-db items next pending d b h in
      let rest =
        poll_and_apply-HasProgress answers next waiting (total + length items) d2
          (after_link next b) after in
      let cs = after_link-commits next b in
      let (b', o, q) = rest.opened in
      record {
        applied = rest.applied ∙ omega arith;
        link = rest.link;
        good = rest.good;
        opened = (b', o, q ∙ ap (λ l. commits_after l answers) cs);
        persisted =
            rest.persisted
            ∙ ap (λ l. stored_link l answers (get_delta_link d2.cache)) cs
            ∙ ap (stored_link (later b.commits) answers)
                (link_stored next d2.cache d.cache b h after);
      }

  module _ (commits buries : List String → Bool) where
    -- The stored link after a poll that succeeded.
    persisted_link :
        (l : String) (d : DeltaSync K) (b : Bolt)
        → db d.cache ≡ some b
        → b.commits ≡ []
        → get_delta_link (persist_poll env commits buries l d).cache ≡ l
    unfolding persist_poll link_of
    persisted_link l d b h q =
        let c = set_delta_link l d.cache in
        let o = db-set_delta_link l d.cache b h ∙ ap (λ cs. some (transact (linked l) cs b)) q in
        let f = finished commits buries (linked l b) c in
        let stored = record (linked l b) { metadata = f.1 } in
        get_delta_link-db (serialize_dirty commits buries c).1 (some stored) (
          ap (λ (r : Bool × InodeCache). db r.1)
            (serialize_dirty_lem commits buries (linked l b) c o))

    -- A round of the loop with an open database, from the stored link, with any answers of the
    -- server: the next round goes on from the link of the last page that arrived, or from the old
    -- one if none did, provided that this link is not empty, and it is the stored link again,
    -- whether the poll succeeded or not. The transactions that store a link all commit; those that
    -- store inodes may fail.
    pub loop_round-last_link :
        (answers : Answers) (link : String) (d : DeltaSync K) (b : Bolt)
        → db d.cache ≡ some b
        → b.commits ≡ []
        → get_delta_link d.cache ≡ link
        → (last_link answers link == "") ≡ false
        → let r = loop_round env commits buries answers link d in
          (r.0 ≡ last_link answers link) × (get_delta_link r.1.cache ≡ last_link answers link)
    unfolding loop_round
    loop_round-last_link answers link d b h q stored given =
        let (p, d1) = poll_and_apply env answers link [] 0 d in
        let s = poll_and_apply-HasProgress answers link [] 0 d b h in
        let (b1, o, c) = s.opened in
        let all = c ∙ ap (λ l. commits_after l answers) q ∙ commits_after-nil answers in
        let kept =
          s.persisted
          ∙ ap (λ l. stored_link l answers (get_delta_link d.cache)) q
          ∙ stored_link-last_link answers (get_delta_link d.cache) in
        finish p d1 b1 p.good s.link o all (kept ∙ ap (last_link answers) stored)
      where
        finish :
            (p : Poll) (d1 : DeltaSync K) (b1 : Bolt) (q : Bool)
            → p.link ≡ last_link answers link
            → db d1.cache ≡ some b1
            → b1.commits ≡ []
            → get_delta_link d1.cache ≡ last_link answers link
            → let lost = record d1 {
              cache = set_offline true d1.cache;
              error_count = u64 (d1.error_count + 1);
            } in
              let persisted = get_delta_link lost.cache in
              let r : String × DeltaSync K =
                if q
                then (
                  p.link,
                  persist_poll env commits buries p.link (on_cache (set_offline false) d1),
                )
                else (if persisted == "" then link else persisted, lost) in
              (r.0 ≡ last_link answers link) × (get_delta_link r.1.cache ≡ last_link answers link)
        finish p d1 b1 true e o a t =
            (e, persisted_link p.link (on_cache (set_offline false) d1) b1 o a ∙ e)
        finish p d1 b1 false e o a t =
            let u = get_delta_link-offline d1.cache ∙ t in
            (
              kept_link (get_delta_link (set_offline true d1.cache)) (last_link answers link) link u
                  given,
              u,
            )
