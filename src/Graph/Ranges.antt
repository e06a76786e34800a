-- ===== src/Graph/Ranges.antt =====
-- The ranges of a download make the file (internal/graph/download.go: GetItemContentStream).
use onecloudriver.Prelude.{
  ℕ, zero, suc, ◌+◌, ◌-◌, ◌*◌, ◌^◌, ◌≤◌, ◌<◌, ◌≡◌, refl, false, not, ◌⊎◌, Option, none, some, List,
  length, length-append, eqb, ltb, leb, ◌==◌, arith, Bool-cases, inl, inr, by_test,
}
use onecloudriver.Graph.Models.{DriveItem}
use onecloudriver.Graph.Download.{
  range_size, RangeAnswer, lost, answered, DownloadError, Source, Hashing, Downloaded, is_success,
  download_range, range_end, is_rejected, after_range, download_ranges, ranges_of, after_ranges,
  checked, after_item, download_item, get_item_content_stream,
}

pub range_end-bounds :
    (size start : ℕ)
    → start < size
    → ((range_end size start - start + 1 ≡ range_size) × (start + range_size ≤ size))
      ⊎ ((range_end size start - start + 1 ≤ range_size)
          × (start + (range_end size start - start + 1) ≡ size))
unfolding range_end
range_end-bounds size start h = elim (Bool-cases (leb (size - 1) (start + range_size - 1))) [
  | inl e ↦ rw e (inr (ground (arith, e, h), omega arith))
  | inr e ↦ rw e (inl (omega arith, ground (arith, e, h)))
]

-- A range without an error has the length that was asked for.
download_range-length :
    (start end : ℕ) (a : RangeAnswer)
    → (download_range start end a).1 ≡ none
    → length (download_range start end a).0 ≡ end - start + 1
unfolding download_range
download_range-length start end lost = λ h. cc
download_range-length start end (answered status content_range body is_cut) =
    by_test P (not (is_success status)) (λ _ h. cc)
      λ _.
        by_test P (not (eqb status 206)) (λ _ h. cc)
          λ _.
            by_test P (content_range == "") (λ _ h. cc)
              λ _.
                by_test P is_cut (λ _ h. cc)
                  λ _.
                    by_test P (not (eqb (length body) (end - start + 1))) (λ _ h. cc)
                      λ e h. ground (arith, e)
  where
    P : List ℕ × Option DownloadError → Type 0
    P r = r.1 ≡ none → length r.0 ≡ end - start + 1

-- What a download without an error wrote of an item.
abbrev pub IsWhole : Hashing → DriveItem → List ℕ → Type 0
IsWhole hashing item bytes = (length bytes ≡ item.size) × (is_rejected hashing item bytes ≡ false)

module _ {W : Type 0} (source : Source W) where
  after_range-length :
      (size start : ℕ) (r : List ℕ × Option DownloadError) (w : W) (d : Downloaded W)
      → start < size
      → (r.1 ≡ none → length r.0 ≡ range_end size start - start + 1)
      → (d.error ≡ none → length d.written ≡ size - (start + range_size))
      → (after_range r w d).error ≡ none
      → length (after_range r w d).written ≡ size - start
  after_range-length size start (bytes, some e) w d h l t k = cc
  after_range-length size start (bytes, none) w d h l t k =
      let a = l refl in
      let b = t k in
      let n = length-append bytes d.written in
      elim (range_end-bounds size start h) [
        | inl (e, f) ↦ omega (arith, a, b, n, e, f, h)
        | inr (e, f) ↦ omega (arith, a, b, n, e, f, h)
      ]

  download_ranges-length :
      (n size start : ℕ) (w : W)
      → size ≤ start + n * range_size
      → (download_ranges source n size start w).error ≡ none
      → length (download_ranges source n size start w).written ≡ size - start
  unfolding download_ranges
  download_ranges-length zero size start w h = λ _. omega (arith, h)
  download_ranges-length (suc n) size start w h =
      let a = source.get_range start (range_end size start) w in
      let P = λ (d : Downloaded W). d.error ≡ none → length d.written ≡ size - start in
      by_test P (not (ltb start size)) (λ e _. ground (arith, e))
        λ e.
          by_test P (source.is_done w) (λ _ k. cc)
            λ _.
              after_range-length size start _ a.1 _ (ground (arith, e))
                (download_range-length start (range_end size start) a.0)
                (download_ranges-length n size (start + range_size) a.1 (omega (arith, h)))

  checked-IsWhole :
      (hashing : Hashing) (item : DriveItem) (d : Downloaded W)
      → (d.error ≡ none → length d.written ≡ item.size)
      → (checked source hashing item d).error ≡ none
      → IsWhole hashing item (checked source hashing item d).written
  unfolding checked
  checked-IsWhole hashing item d l = go d.error refl
    where
      go :
          (o : Option DownloadError)
          → d.error ≡ o
          → (after_ranges source hashing item d o).error ≡ none
          → IsWhole hashing item (after_ranges source hashing item d o).written
      go (some e) k = λ h. cc
      go none k =
          by_test (λ (r : Downloaded W). r.error ≡ none → IsWhole hashing item r.written)
            (is_rejected hashing item d.written) (λ _ h. cc) λ f _. (l k, f)

  download_item-IsWhole :
      (hashing : Hashing) (item : DriveItem) (w : W)
      → (download_item source hashing item w).error ≡ none
      → IsWhole hashing item (download_item source hashing item w).written
  unfolding download_item
  download_item-IsWhole hashing item w =
      by_test (λ (r : Downloaded W). r.error ≡ none → IsWhole hashing item r.written)
        (leb (2 ^ 63) item.size) (λ _ h. cc)
        λ _. checked-IsWhole hashing item _ λ e.
          let l =
            download_ranges-length (ranges_of source item.size) item.size 0 w (omega arith) e in
          omega (arith, l)

  -- Whatever the server answers, a download that ends without an error has written as many bytes as the
  -- item has, and the check of the hash does not reject them.
  pub get_item_content_stream-IsWhole :
      (hashing : Hashing) (w : W)
      → (get_item_content_stream source hashing w).error ≡ none
      → (item : DriveItem) × ((source.get_item w).0 ≡ some item)
        × IsWhole hashing item (get_item_content_stream source hashing w).written
  unfolding get_item_content_stream
  get_item_content_stream-IsWhole hashing w h = go (source.get_item w).0 refl h
    where
      go :
          (o : Option DriveItem)
          → (source.get_item w).0 ≡ o
          → (after_item source hashing o (source.get_item w).1).error ≡ none
          → (item : DriveItem) × ((source.get_item w).0 ≡ some item)
            × IsWhole hashing item (after_item source hashing o (source.get_item w).1).written
      go none e k = cc
      go (some i) e k = (i, e, download_item-IsWhole hashing i (source.get_item w).1 k)
