-- ===== src/Lib.antt =====
-- onecloudriver: the caches, the operations, the background uploads and the delta synchronisation of
-- a OneDrive filesystem (internal/fs), and the retries, listings, upload sessions and downloads
-- of its client of the Graph API (internal/graph), modelled as pure functions on states.
--
-- How the program is put together, and where its parts are modelled:
--
-- * internal/fs/inode.go is Inodes.Inode: a node of the metadata tree, over the drive items of
--   internal/graph/models.go (Graph.Models).
-- * internal/fs/cache.go is the tree of modules Inodes. Cache has the state of InodeCache and the
--   marks of changed and deleted inodes; Tree has the operations on the tree (Insert, Delete,
--   InsertChild, RemoveChild, MoveID, MoveChild, Invalidate, InvalidateAll); Fetch has the listings
--   (GetChildren, GetChild, GetPath); Ttl and SizeLimit have the two kinds of eviction; Bolt has the
--   database (SerializeAll, SerializeDirty, DeserializeFromDisk, the delta link, the stored upload
--   sessions). A function has the name of the method in snake case and takes the cache last; what
--   follows a successful lookup is a function of its own (delete_found after Delete's Get).
-- * internal/fs/upload_session.go is Uploads.Session, and upload_manager.go is Uploads.Manager (the
--   queue, the ticker, the retries) and Uploads.Execute (executeUpload and what it calls), which
--   asks the server through the interface Uploads.Remote. Sessions are shared objects: the manager
--   keeps them in a store by address, and the map of sessions holds addresses.
-- * internal/fs/delta.go is Delta.Apply (one change, one page) and Delta.Poll (PollOnce and the
--   rounds of the loop). The content cache is an interface in Wiring.
-- * internal/fs/content_cache.go and content_eviction.go are the modules Contents: Cache has the state
--   and the index of files, Files the operations on one file (Open, Insert, InsertStream,
--   Close, Delete, WriteAt, ReadAll, Snapshot, CloseAll), Evict the eviction by size and its background run,
--   Operations the calls as steps and the start of a cache. The disk is a dictionary of the cache's
--   directory; a record Io says which system calls of an operation succeed.
-- * internal/fs/fs_ops.go, drive_item_node.go and root.go are the modules Filesystem: State is
--   nodeDeps (FileSystem) with the client (Drive) and the libraries (Library) as parameters; Listing
--   has the listings with their offline fallback, Directory the operations on folders (doMkdir,
--   doRmdir, doUnlink, doRename, doCreate), Node those on a file (Open, Read, Write, Setattr, Fsync,
--   Flush) and the manager's QueueUpload. They work on the caches of Inodes and Contents and queue
--   the sessions of Uploads.
-- * RetryDoer of internal/graph/client.go is Graph.Retries, over an HTTP client that is a parameter,
--   uploadStream of internal/graph/upload.go is Graph.Chunks, and GetItemContentStream of
--   internal/graph/download.go is Graph.Download, over a server that is a parameter; so is
--   listDriveItems of internal/graph/children.go in Graph.Pages, with the URLs of client.go that it
--   follows. The filesystem sees downloads and listings through its interface Drive.
-- * Examples runs the model on a small tree, on a few files and on a few requests.
--
-- Conventions. A time is in nanoseconds since Go's zero time and comes as an argument; time does
-- not run backwards, so a difference of times does not go below 0. uint32 and uint64 counters wrap
-- (u32, u64); the counter of listed folders is an integer without bounds. The factors and scores
-- that Go computes as floats are exact fractions, which agree below 2 ^ 53 ns. A limit of 0 or
-- below is 0. A Go map is an association list, and an iteration goes in the order of the list; the
-- theorems are about every list and so about every order. Whether a transaction of the database
-- that writes inodes commits is an argument; whether one that writes a link or a session does is told
-- by a list that the database holds (Inodes.Cache: Bolt). Arguments are also the answers of the server,
-- the text of a conflict name, and strings.EqualFold. An error of the server is what isNetworkError asks
-- of it (Inodes.Fetch: Fault), or, for uploads and polls, the answer. A folder does not list itself.
-- Concurrency is a sequence of steps: a call on the cache is one step, and executeUpload is two,
-- between which anything else may run; RenameSession changes and stores, in one step, a session that
-- it looked up at any earlier time; the background eviction of contents is a step of its own. A
-- descriptor of the content cache stands for the file at its ID's path, no two IDs share a path, and
-- an offset is not negative.
--
-- Fuel and termination. The batches of SerializeDirty take the number of IDs as fuel, and every batch
-- takes at least one. The walk over the TTL ring takes the number of buckets. The loop of backoffFor
-- takes the number of retries. A poll goes by recursion over the answers of the server. The eviction
-- of contents takes the length of the heap, of which each round removes an entry. The chunks of an
-- upload and the ranges of a download take size / chunk_size + 1, which is enough. A
-- listing has no bound of its own, and takes the number of pages that it is watched for. The tries of a request go by recursion
-- on the retries left. Nothing else loops.
--
-- Not modelled: locks, logging and metrics, the text of JSON, bbolt and container/heap (a heap is a
-- list from which a least entry is taken), the tickers and channels themselves, the filling of FUSE
-- records (Getattr, Statfs, fuseLookup), the descriptor that a failed download closes, the
-- items of the Graph client (the callers see them through interfaces),
-- the eviction controller (internal/fs/eviction.go, a ticker around a callback), quickXorHash (a copy
-- of another project's library; the hash of a content is a parameter), the accounts, the mount, the
-- service units, the control protocol and the command line.
pub mod Prelude
pub mod Graph
pub mod Uploads
pub mod Inodes
pub mod Delta
pub mod Contents
pub mod Filesystem
pub mod Examples
