-- ===== src/Graph/Download.antt =====
-- The download of a content in ranges (internal/graph/download.go), over a server that is a
-- parameter. A file is smaller than 2 ^ 63 - `range_size` bytes, so that no offset overflows. The
-- texts of the errors are left out, and a resource that is not valid is an item that is not found.
use onecloudriver.Prelude.{
  ℕ, zero, suc, ◌+◌, ◌-◌, ◌/◌, ◌^◌, String, Bool, false, ◌&&◌, not, Option, none, some, List, [],
  ◌++◌, length, eqb, ltb, leb, ◌==◌, if◌then◌else◌,
}
use onecloudriver.Graph.Models.{DriveItem}

abbrev pub range_size : ℕ
range_size = 10_485_760

-- No response, or one with its status, its Content-Range, what io.Copy wrote of its body, and
-- whether io.Copy failed.
pub data RangeAnswer : Type 0 where
  lost : RangeAnswer
  answered : ℕ → String → List ℕ → Bool → RangeAnswer

pub data DownloadError : Type 0 where
  no_metadata too_large stopped no_response bad_status : DownloadError
  not_partial no_content_range broken incomplete corrupt : DownloadError

-- GetItem, the state of the context before each range, and the GET of a range.
pub record Source (W : Type 0) : Type 0 where
  pub get_item : W → Option DriveItem × W
  pub is_done : W → Bool
  pub get_range : ℕ → ℕ → W → RangeAnswer × W

-- strings.EqualFold, and the quickXorHash in base64.
pub record Hashing : Type 0 where
  pub equal_fold : String → String → Bool
  pub hash : List ℕ → String

-- What reached the output, and the error if there was one.
pub record Downloaded (W : Type 0) : Type 0 where
  pub written : List ℕ
  pub error : Option DownloadError
  pub world : W

unfoldable pub is_success : ℕ → Bool
is_success status = leb 200 status && ltb status 300

unfoldable pub download_range : ℕ → ℕ → RangeAnswer → List ℕ × Option DownloadError
unfolding is_success
download_range start end lost = ([], some no_response)
download_range start end (answered status content_range body is_cut) =
    if not (is_success status)
    then ([], some bad_status)
    else if not (eqb status 206)
    then ([], some not_partial)
    else if content_range == ""
    then ([], some no_content_range)
    else if is_cut
    then (body, some broken)
    else if not (eqb (length body) (end - start + 1))
    then (body, some incomplete)
    else (body, none)

-- The last byte of the range at `start`.
unfoldable pub range_end : ℕ → ℕ → ℕ
range_end size start =
    let end = start + range_size - 1 in if leb (size - 1) end then size - 1 else end

-- Does the item have a hash?
abbrev pub quick_xor_hash_of : DriveItem → String
quick_xor_hash_of item = elim item.file [ none ↦ "" | some f ↦ f.quick_xor_hash ]

unfoldable pub verify_checksum : Hashing → DriveItem → String → Bool
verify_checksum hashing item checksum =
    if checksum == ""
    then false
    else if quick_xor_hash_of item == ""
    then false
    else hashing.equal_fold (quick_xor_hash_of item) checksum

-- Does the check after the last range reject these bytes?
unfoldable pub is_rejected : Hashing → DriveItem → List ℕ → Bool
unfolding verify_checksum
is_rejected hashing item bytes =
    not (quick_xor_hash_of item == "") && not (verify_checksum hashing item (hashing.hash bytes))

module _ {W : Type 0} where
  abbrev pub finished : List ℕ → Option DownloadError → W → Downloaded W
  finished bytes e w = record { written = bytes; error = e; world = w }

  abbrev pub written_first : List ℕ → Downloaded W → Downloaded W
  written_first bytes d = record d { written = bytes ++ d.written }

  abbrev pub after_range : List ℕ × Option DownloadError → W → Downloaded W → Downloaded W
  after_range (bytes, some e) w d = finished bytes (some e) w
  after_range (bytes, none) w d = written_first bytes d

module _ {W : Type 0} (source : Source W) where
  -- The loop, on fuel for the number of ranges.
  unfoldable pub download_ranges : ℕ → ℕ → ℕ → W → Downloaded W
  unfolding range_end download_range
  download_ranges zero size start w = finished [] none w
  download_ranges (suc n) size start w =
      let end = range_end size start in
      let (a, w') = source.get_range start end w in
      let rest = download_ranges n size (start + range_size) w' in
      if not (ltb start size)
      then finished [] none w
      else if source.is_done w
      then finished [] (some stopped) w
      else after_range (download_range start end a) w' rest

  abbrev pub ranges_of : ℕ → ℕ
  ranges_of size = size / range_size + 1

  abbrev pub after_ranges : Hashing → DriveItem → Downloaded W → Option DownloadError → Downloaded W
  after_ranges hashing item d (some e) = d
  after_ranges hashing item d none =
      if is_rejected hashing item d.written then record d { error = some corrupt } else d

  unfoldable pub checked : Hashing → DriveItem → Downloaded W → Downloaded W
  unfolding is_rejected
  checked hashing item d = after_ranges hashing item d d.error

  unfoldable pub download_item : Hashing → DriveItem → W → Downloaded W
  unfolding download_ranges checked
  download_item hashing item w =
      let d = download_ranges (ranges_of item.size) item.size 0 w in
      if leb (2 ^ 63) item.size then finished [] (some too_large) w else checked hashing item d

  abbrev pub after_item : Hashing → Option DriveItem → W → Downloaded W
  after_item hashing none w = finished [] (some no_metadata) w
  after_item hashing (some item) w = download_item hashing item w

  unfoldable pub get_item_content_stream : Hashing → W → Downloaded W
  unfolding download_item
  get_item_content_stream hashing w =
      let (item, w') = source.get_item w in after_item hashing item w'

  -- GetItemContent, with a buffer for the output.
  unfoldable pub get_item_content : Hashing → W → Option (List ℕ)
  unfolding get_item_content_stream
  get_item_content hashing w =
      let d = get_item_content_stream hashing w in
      elim d.error [ none ↦ some d.written | some e ↦ none ]
