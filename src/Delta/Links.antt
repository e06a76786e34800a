-- ===== src/Delta/Links.antt =====
-- The link of a delta poll and where it is stored (internal/fs/delta.go: pollAndApply; cache.go:
-- SetDeltaLink, GetDeltaLink).
use onecloudriver.Prelude.{
  ℕ, ◌+◌, String, ◌≡◌, refl, ap, ◌∙◌, Bool, true, false, Option, none, some, List, [], ◌∷◌, length,
  ◌==◌, if◌then◌else◌,
}
use onecloudriver.Inodes.Cache.{InodeCache, Bolt, set_offline}
use onecloudriver.Inodes.Bolt.{get_delta_link, set_delta_link, transact}
use onecloudriver.Inodes.Bolt.Transactions.{update_db-transact}
use onecloudriver.Delta.Poll.{Answers, poll_error, last_page, page}
use onecloudriver.Delta.Database.{db}

-- The link that came with the last page, if there was a page; else the one at hand.
unfoldable pub last_link : Answers → String → String
last_link (poll_error network) link = link
last_link (last_page items next) link = next
last_link (page items next answers) link = last_link answers next

-- The changes on the pages that arrived.
unfoldable pub arrived : Answers → ℕ
arrived (poll_error network) = 0
arrived (last_page items next) = length items
arrived (page items next answers) = length items + arrived answers

unfoldable pub ends_well : Answers → Bool
ends_well (poll_error network) = false
ends_well (last_page items next) = true
ends_well (page items next answers) = ends_well answers

abbrev pub linked : String → Bolt → Bolt
linked l b = record b { link = some l }

-- The database after the transaction that stores a link.
abbrev pub after_link : String → Bolt → Bolt
after_link l b = transact (linked l) b.commits b

pub db-set_delta_link :
    (l : String) (c : InodeCache) (b : Bolt)
    → db c ≡ some b
    → db (set_delta_link l c) ≡ some (after_link l b)
unfolding set_delta_link
db-set_delta_link l c b h = update_db-transact (linked l) c b h

-- The link that is stored after a transaction for a new one, by whether it commits.
abbrev pub kept_or : List Bool → String → String → String
kept_or [] next stored = next
kept_or (true ∷ commits) next stored = next
kept_or (false ∷ commits) next stored = stored

abbrev pub later : List Bool → List Bool
later [] = []
later (commit ∷ commits) = commits

-- The link that is stored after a poll: that of the last page whose transaction committed.
unfoldable pub stored_link : List Bool → Answers → String → String
stored_link commits (poll_error network) stored = stored
stored_link commits (last_page items next) stored = kept_or commits next stored
stored_link commits (page items next answers) stored =
    stored_link (later commits) answers (kept_or commits next stored)

pub get_delta_link-offline :
    (c : InodeCache) → get_delta_link (set_offline true c) ≡ get_delta_link c
unfolding set_offline get_delta_link
get_delta_link-offline c = refl

pub kept_link : (x y l : String) → x ≡ y → (y == "") ≡ false → (if x == "" then l else x) ≡ y
kept_link x y l h k = rw (h, k)

unfoldable pub link_of : Option Bolt → String
link_of none = ""
link_of (some b) = elim b.link [ none ↦ "" | some l ↦ l ]

pub get_delta_link-db : (c : InodeCache) (o : Option Bolt) → db c ≡ o → get_delta_link c ≡ link_of o
unfolding get_delta_link link_of
get_delta_link-db c o h =
    ap
      (λ (a : Option Bolt).
        let r : String = elim a [ none ↦ "" | some b ↦ elim b.link [ none ↦ "" | some l ↦ l ] ] in
        r)
      h
    ∙ at o
  where
    at :
        (a : Option Bolt)
        → let r : String = elim a [ none ↦ "" | some b ↦ elim b.link [ none ↦ "" | some l ↦ l ] ] in
          r ≡ link_of a
    at none = refl
    at (some b) = refl

-- What is left of the answers of the database after a poll.
unfoldable pub commits_after : List Bool → Answers → List Bool
commits_after commits (poll_error network) = commits
commits_after commits (last_page items next) = later commits
commits_after commits (page items next answers) = commits_after (later commits) answers

pub after_link-commits : (l : String) (b : Bolt) → (after_link l b).commits ≡ later b.commits
after_link-commits l b = go b.commits refl
  where
    go : (cs : List Bool) → b.commits ≡ cs → (transact (linked l) cs b).commits ≡ later cs
    go [] e = e
    go (true ∷ cs) e = refl
    go (false ∷ cs) e = refl

pub after_link-link :
    (l : String) (b : Bolt)
    → link_of (some (after_link l b)) ≡ kept_or b.commits l (link_of (some b))
unfolding link_of
after_link-link l b = go b.commits
  where
    go :
        (cs : List Bool)
        → link_of (some (transact (linked l) cs b)) ≡ kept_or cs l (link_of (some b))
    go [] = refl
    go (true ∷ cs) = refl
    go (false ∷ cs) = refl
