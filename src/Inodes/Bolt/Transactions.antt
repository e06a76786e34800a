-- ===== src/Inodes/Bolt/Transactions.antt =====
-- The transactions on one link or one session (internal/fs/cache.go: SetDeltaLink,
-- SaveUploadSession, DeleteUploadSession).
use onecloudriver.Prelude.{◌≡◌, ap, ◌∙◌, Option, none, some, []}
use onecloudriver.Inodes.Cache.{InodeCache, Bolt}
use onecloudriver.Inodes.Bolt.{transact, update_db}

pub update_db-transact :
    (f : Bolt → Bolt) (c : InodeCache) (b : Bolt)
    → c.db ≡ some b
    → (update_db f c).db ≡ some (transact f b.commits b)
update_db-transact f c b h =
    ap
      (λ (o : Option Bolt).
        let r : InodeCache = elim o [
          | none ↦ c
          | some x ↦ record c { db = some (transact f x.commits x) }
        ] in
        r.db)
      h

-- One that commits.
pub update_db-db :
    (f : Bolt → Bolt) (c : InodeCache) (b : Bolt)
    → c.db ≡ some b
    → b.commits ≡ []
    → (update_db f c).db ≡ some (f b)
update_db-db f c b h q = update_db-transact f c b h ∙ ap (λ l. some (transact f l b)) q
