-- ===== src/Delta/Poll.antt =====
-- The polls of internal/fs/delta.go: pollAndApply, PollOnce and a round of the loop.
use onecloudriver.Prelude.{ℕ, ◌+◌, String, Bool, true, false, List, [], length, ◌==◌, if◌then◌else◌}
use onecloudriver.Graph.Models.{DeltaItem}
use onecloudriver.Inodes.Inode.{u64}
use onecloudriver.Inodes.Cache.{set_offline}
use onecloudriver.Inodes.Bolt.{get_delta_link, set_delta_link, serialize_dirty}
use onecloudriver.Delta.Apply.{Wiring, DeltaSync, on_cache, apply_page, apply_pass}

-- One poll: the answers of the server, page by page, up to an error (is it one of the network?)
-- or the last page. A page comes with the link that follows it.
pub data Answers : Type 0 where
  poll_error : Bool → Answers
  last_page : List DeltaItem → String → Answers
  page : List DeltaItem → String → Answers → Answers

-- The number of changes, the link to go on from, and whether the poll succeeded.
pub record Poll : Type 0 where
  pub applied : ℕ
  pub link : String
  pub good : Bool

module _ {K : Type 0} (env : Wiring K) where
  -- pollAndApply, with the folder deletions that wait and the changes so far.
  unfoldable pub poll_and_apply :
      Answers → String → List DeltaItem → ℕ → DeltaSync K → Poll × DeltaSync K
  unfolding apply_page set_delta_link set_offline
  poll_and_apply (poll_error network) link pending total d = (
    record { applied = total; link = link; good = false },
    if network then on_cache (set_offline true) d else d,
  )
  poll_and_apply (last_page items next) link pending total d =
      let (waiting, d1) = apply_page env items pending d in
      let (_, d2) = apply_pass env waiting (on_cache (set_delta_link next) d1) in
      (record { applied = total + length items; link = next; good = true }, d2)
  poll_and_apply (page items next answers) link pending total d =
      let (waiting, d1) = apply_page env items pending d in
      poll_and_apply answers next waiting (total + length items) (on_cache (set_delta_link next) d1)

  -- What follows a poll that succeeded; which transactions commit is a parameter.
  unfoldable pub persist_poll :
      (List String → Bool) → (List String → Bool) → String → DeltaSync K → DeltaSync K
  unfolding set_delta_link serialize_dirty
  persist_poll commits buries link d =
      let d1 = on_cache (λ c. (serialize_dirty commits buries (set_delta_link link c)).1) d in
      record d1 { sync_count = u64 (d.sync_count + 1) }

  -- PollOnce: the number of changes, and whether it succeeded.
  unfoldable pub poll_once :
      (List String → Bool) → (List String → Bool) → Answers → DeltaSync K → (ℕ × Bool) × DeltaSync K
  unfolding poll_and_apply get_delta_link persist_poll
  poll_once commits buries answers d =
      let (p, d') = poll_and_apply answers (get_delta_link d.cache) [] 0 d in
      ((p.applied, p.good), if p.good then persist_poll commits buries p.link d' else d')

  -- One round of deltaLoop from a link: the link of the next round.
  unfoldable pub loop_round :
      (List String → Bool)
      → (List String → Bool)
      → Answers
      → String
      → DeltaSync K
      → String × DeltaSync K
  unfolding poll_and_apply persist_poll get_delta_link set_offline
  loop_round commits buries answers link d =
      let (p, d1) = poll_and_apply answers link [] 0 d in
      let lost = record d1 {
        cache = set_offline true d1.cache;
        error_count = u64 (d1.error_count + 1);
      } in
      let persisted = get_delta_link lost.cache in
      if p.good
      then (p.link, persist_poll commits buries p.link (on_cache (set_offline false) d1))
      else (if persisted == "" then link else persisted, lost)
