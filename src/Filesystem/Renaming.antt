-- ===== src/Filesystem/Renaming.antt =====
-- What a rename does, on every branch (internal/fs/fs_ops.go: doRename).
use onecloudriver.Prelude.{String, ◌≡◌, true, false, some, ◌==◌, if◌then◌else◌}
use onecloudriver.Inodes.Inode.{Inode, is_local_id, parent_id}
use onecloudriver.Inodes.Cache.{find}
use onecloudriver.Filesystem.State.{eio, Reply, done, errno, Drive, Library, FileSystem, cache}
use onecloudriver.Filesystem.Removal.{SameLocal}
use onecloudriver.Filesystem.Moved.{IsRenamed}

module _ {W : Type 0} (lib : Library) (drive : Drive W) (pid new_pid new_name id : String) where
  -- The server after a rename, and after a move.
  abbrev server₁ : FileSystem W → W
  server₁ f = (drive.rename_item id new_name f.server).1

  pub data Renamed (f : FileSystem W) : Reply (Unit {0}) × FileSystem W → Type 0 where
    locally :
        (f' : FileSystem W)
        → is_local_id id ≡ true
        → f'.server ≡ f.server
        → IsRenamed pid new_pid new_name id (cache f) (cache f')
        → ((i : Inode) × (find (cache f') id ≡ some i) × (parent_id i ≡ new_pid))
        → Renamed f (done tt, f')
    rename_refused :
        (f' : FileSystem W)
        → is_local_id id ≡ false
        → (drive.rename_item id new_name f.server).0 ≡ false
        → SameLocal f f'
        → Renamed f (errno eio, f')
    move_refused :
        (f' : FileSystem W)
        → is_local_id id ≡ false
        → (pid == new_pid) ≡ false
        → (drive.rename_item id new_name f.server).0 ≡ true
        → (drive.move_item id new_pid (server₁ f)).0 ≡ false
        → SameLocal f f'
        → Renamed f (errno eio, f')
    remotely :
        (f' : FileSystem W)
        → is_local_id id ≡ false
        → (drive.rename_item id new_name f.server).0 ≡ true
        → f'.server
          ≡ (if pid == new_pid then server₁ f else (drive.move_item id new_pid (server₁ f)).1)
        → IsRenamed pid new_pid new_name id (cache f) (cache f')
        → f'.contents ≡ f.contents
        → Renamed f (done tt, f')
