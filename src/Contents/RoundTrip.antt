-- ===== src/Contents/RoundTrip.antt =====
-- What is written to a `ContentCache` (internal/fs/content_cache.go: WriteAt, Insert, InsertStream)
-- is what ReadAll gives.
use onecloudriver.Prelude.{
  String, ◌≡◌, refl, ap, ◌∙◌, Bool, true, false, not, Option, none, some, is_some, eqb, ◌==◌,
  eq_iff, arith, Option-cases, inl, inr, by_test,
}
use onecloudriver.Prelude.Dict
use onecloudriver.Prelude.Dict.{Dict, get, get-put}
use onecloudriver.Inodes.Cache.{has}
use onecloudriver.Contents.Cache.{
  Naming, Io, DiskFile, ContentCache, path_of, track_open_file, track_file_info,
}
use onecloudriver.Contents.Evict.{maybe_evict}
use onecloudriver.Contents.Files.{open_cached, open_file, bytes_of, file_or_new}

-- Every call succeeds.
pub record IsWorking (io : Io) : Type 0 where
  pub opens : io.opens ≡ true
  pub stats : io.stats ≡ true
  pub seeks : io.seeks ≡ true
  pub truncates : io.truncates ≡ true
  pub reads : io.reads ≡ true
  pub writes : io.writes ≡ true

-- The calls that leave the files alone, and the descriptors and the directory with them.
pub record SameFiles (c c' : ContentCache) : Type 0 where
  pub directory : c'.directory ≡ c.directory
  pub files : c'.files ≡ c.files
  pub fds : c'.fds ≡ c.fds
  pub closed : c'.closed ≡ c.closed

pub SameFiles-track_file_info :
    (id path : String) (f : DiskFile) (c : ContentCache) → SameFiles c (track_file_info id path f c)
unfolding track_file_info
SameFiles-track_file_info id path f c = elim (Option-cases (get c.entries path)) [
  | inl g ↦
      rw (track_file_info, g) (record { directory = refl; files = refl; fds = refl; closed = refl })
  | inr (old, g) ↦
      rw (track_file_info, g) (record { directory = refl; files = refl; fds = refl; closed = refl })
]

pub SameFiles-maybe_evict : (c : ContentCache) → SameFiles c (maybe_evict c)
unfolding maybe_evict
SameFiles-maybe_evict c =
    let same : SameFiles c c = record {
      directory = refl;
      files = refl;
      fds = refl;
      closed = refl;
    } in
    by_test (SameFiles c) (eqb c.max_size 0) (λ _. same)
      λ _. record { directory = refl; files = refl; fds = refl; closed = refl }

-- The state after a successful Open: the ID has a descriptor, and its file, now there, has the bytes
-- that it had. The other files stay.
pub record IsOpened (id path : String) (c c' : ContentCache) : Type 0 where
  pub directory : c'.directory ≡ c.directory
  pub closed : c'.closed ≡ c.closed
  pub opened : has c'.fds id ≡ true
  pub bytes : bytes_of (get c'.files path) ≡ bytes_of (get c.files path)
  pub others : (p : String) → (path == p) ≡ false → get c'.files p ≡ get c.files p

bytes_of-file_or_new : (io : Io) (o : Option DiskFile) → (file_or_new io o).bytes ≡ bytes_of o
bytes_of-file_or_new io none = refl
bytes_of-file_or_new io (some f) = refl

pub get-put_same : {V : Type 0} (d : Dict V) (k : String) (v : V) → get (Dict.put d k v) k ≡ some v
get-put_same d k v = ground (arith, get-put d k k v, eq_iff k k)

IsOpened-SameFiles :
    {id path : String} {c d e : ContentCache}
    → IsOpened id path c d
    → SameFiles d e
    → IsOpened id path c e
IsOpened-SameFiles {path = path} h s = record {
  directory = s.directory ∙ h.directory;
  closed = s.closed ∙ h.closed;
  opened = rw s.fds h.opened;
  bytes = rw s.files h.bytes;
  others = λ p g. rw s.files (h.others p g);
}

module _ (lib : Naming) (io : Io) (ok : IsWorking io) where
  open_file-IsOpened :
      (id : String) (c : ContentCache) → IsOpened id (path_of lib c id) c (open_file lib io id c)
  unfolding open_file
  open_file-IsOpened id c =
      let path = path_of lib c id in
      let f = file_or_new io (get c.files path) in
      record {
        directory = refl;
        closed = refl;
        opened = ap is_some (get-put_same c.fds id tt);
        bytes =
            ap bytes_of (get-put_same c.files path f) ∙ bytes_of-file_or_new io (get c.files path);
        others = λ p g. ground (arith, get-put c.files path p f, g);
      }

  track_open_file-SameFiles :
      (id : String) (f : DiskFile) (c : ContentCache)
      → ((track_open_file lib io id f c).0 ≡ true) × SameFiles c (track_open_file lib io id f c).1
  unfolding track_open_file
  track_open_file-SameFiles id f c =
      let path = path_of lib c id in
      let P : Bool × ContentCache → Type 0 = λ r. (r.0 ≡ true) × SameFiles c r.1 in
      by_test P (is_some (get c.entries path))
        (λ _. (refl, record { directory = refl; files = refl; fds = refl; closed = refl }))
        λ _.
          by_test P io.stats (λ _. (refl, SameFiles-track_file_info id path f c))
            λ e. let s = ok.stats in cc

  pub open_cached-IsOpened :
      (id : String) (c : ContentCache)
      → ((open_cached lib io id c).0 ≡ true)
        × IsOpened id (path_of lib c id) c (open_cached lib io id c).1
  unfolding open_cached
  open_cached-IsOpened id c =
      let path = path_of lib c id in
      let f = file_or_new io (get c.files path) in
      let P : Bool × ContentCache → Type 0 = λ r. (r.0 ≡ true) × IsOpened id path c r.1 in
      let (t, s) = track_open_file-SameFiles id f (open_file lib io id c) in
      by_test P (has c.fds id)
        (λ e. (
          refl,
          record {
            directory = refl;
            closed = refl;
            opened = e;
            bytes = refl;
            others = λ p g. refl;
          },
        ))
        λ _.
          by_test P (not io.opens) (λ e. let q = ok.opens in ground (arith, e, q))
            λ _.
              by_test P (track_open_file lib io id f (open_file lib io id c)).0
                (λ _. (refl, IsOpened-SameFiles (open_file-IsOpened id c) s)) λ e. cc
