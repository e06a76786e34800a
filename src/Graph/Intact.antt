-- ===== src/Graph/Intact.antt =====
-- A download from a server that keeps to the ranges (internal/graph/download.go:
-- GetItemContentStream).
use onecloudriver.Prelude.{
  ℕ, zero, suc, ◌+◌, ◌-◌, ◌*◌, ◌^◌, ◌≤◌, ◌<◌, String, ◌≡◌, refl, sym, ap, ◌∙◌, true, false, not,
  ◌⊎◌, none, some, List, [], ◌∷◌, ◌++◌, length, eqb, ltb, leb, ◌==◌, arith, Bool-cases, inl, inr,
  take, drop, by_test,
}
use onecloudriver.Graph.Models.{DriveItem}
use onecloudriver.Graph.Tiling.{length-take}
use onecloudriver.Graph.Download.{
  range_size, answered, Source, Hashing, Downloaded, is_success, download_range, range_end,
  is_rejected, download_ranges, ranges_of, after_range, checked, download_item,
  get_item_content_stream,
}
use onecloudriver.Graph.Ranges.{range_end-bounds}

-- `drop m` leaves out what `take k` takes, where the list does not go past either.
take-drop_past :
    (k m : ℕ) (xs : List ℕ) → (k ≡ m) ⊎ ((k ≤ m) × (length xs ≤ k)) → take k xs ++ drop m xs ≡ xs
unfolding take drop
take-drop_past zero zero xs h = refl
take-drop_past zero (suc m) [] h = refl
take-drop_past zero (suc m) (x ∷ xs) (inl e) = ground (arith, e)
take-drop_past zero (suc m) (x ∷ xs) (inr (a, b)) = ground (arith, b)
take-drop_past (suc k) zero xs (inl e) = ground (arith, e)
take-drop_past (suc k) zero xs (inr (a, b)) = ground (arith, a)
take-drop_past (suc k) (suc m) [] h = refl
take-drop_past (suc k) (suc m) (x ∷ xs) (inl e) =
    ap (λ l. x ∷ l) (take-drop_past k m xs (inl (omega (arith, e))))
take-drop_past (suc k) (suc m) (x ∷ xs) (inr (a, b)) =
    ap (λ l. x ∷ l) (take-drop_past k m xs (inr (omega (arith, a), omega (arith, b))))

drop-nil : (n : ℕ) → drop {A = ℕ} n [] ≡ []
unfolding drop
drop-nil zero = refl
drop-nil (suc n) = refl

drop-drop : (a b : ℕ) (xs : List ℕ) → drop (a + b) xs ≡ drop b (drop a xs)
unfolding drop
drop-drop zero b xs = ap (λ n. drop n xs) (omega arith)
drop-drop (suc a) b [] = drop-nil (suc a + b) ∙ sym (drop-nil b)
drop-drop (suc a) b (x ∷ xs) =
    let e : suc a + b ≡ suc (a + b) = omega arith in ap (λ n. drop n (x ∷ xs)) e ∙ drop-drop a b xs

length-drop : (a : ℕ) (xs : List ℕ) → length (drop a xs) ≡ length xs - a
unfolding drop
length-drop zero xs = omega arith
length-drop (suc a) [] = omega arith
length-drop (suc a) (x ∷ xs) = let i = length-drop a xs in omega (arith, i)

drop_past : (a : ℕ) (xs : List ℕ) → length xs ≤ a → drop a xs ≡ []
unfolding drop
drop_past zero [] h = refl
drop_past zero (x ∷ xs) h = ground (arith, h)
drop_past (suc a) [] h = refl
drop_past (suc a) (x ∷ xs) h = drop_past a xs (omega (arith, h))

range_end-inside :
    (size start : ℕ) → start < size → (start ≤ range_end size start) × (range_end size start < size)
unfolding range_end
range_end-inside size start h = elim (Bool-cases (leb (size - 1) (start + range_size - 1))) [
  | inl e ↦ rw e (omega arith, omega arith)
  | inr e ↦ rw e (omega arith, ground (arith, e, h))
]

-- The bytes of a range.
abbrev pub slice : List ℕ → ℕ → ℕ → List ℕ
slice content start end = take (end - start + 1) (drop start content)

module _ (content : List ℕ) (start : ℕ) (inside : start < length content) where
  abbrev last : ℕ
  last = range_end (length content) start

  length-slice : length (slice content start last) ≡ last - start + 1
  length-slice = length-take (last - start + 1) (drop start content) (
      let l = length-drop start content in
      elim (range_end-bounds (length content) start inside) [
        | inl (e, f) ↦ ground (arith, l, e, f)
        | inr (e, f) ↦ ground (arith, l, f)
      ])

  first_slice : slice content start last ++ drop (start + range_size) content ≡ drop start content
  first_slice =
      ap (λ ys. slice content start last ++ ys) (drop-drop start range_size content)
      ∙ take-drop_past (last - start + 1) range_size (drop start content) (
          let l = length-drop start content in
          elim (range_end-bounds (length content) start inside) [
            | inl (e, f) ↦ inl e
            | inr (e, f) ↦ inr (e, omega (arith, l, f))
          ])

  download_range-slice :
      (content_range : String)
      → (content_range == "") ≡ false
      → download_range start last (answered 206 content_range (slice content start last) false)
        ≡ (slice content start last, none)
  unfolding download_range is_success
  download_range-slice content_range h =
      rw h (rw (length-slice) (rw (eqb_refl (last - start + 1)) refl))
    where
      eqb_refl : (n : ℕ) → eqb n n ≡ true
      eqb_refl n = ground arith

-- The server has the item with this content: it answers every range within it by its bytes, with the
-- range's name in Content-Range; and the context does not end.
pub record IsServing {W : Type 0} (source : Source W) (hashing : Hashing) (item : DriveItem)
    (content : List ℕ) : Type 0 where
  pub name : ℕ → ℕ → String
  pub named : (start end : ℕ) → (name start end == "") ≡ false
  pub has_item : (w : W) → (source.get_item w).0 ≡ some item
  pub has_size : item.size ≡ length content
  pub is_small : length content < 2 ^ 63
  pub goes_on : (w : W) → source.is_done w ≡ false
  pub answers :
      (start end : ℕ) (w : W)
      → start ≤ end
      → end < length content
      → (source.get_range start end w).0
        ≡ answered 206 (name start end) (slice content start end) false
  pub is_accepted : is_rejected hashing item content ≡ false

module _ {W : Type 0} (source : Source W) (hashing : Hashing) (item : DriveItem) (content : List ℕ)
    (serving : IsServing source hashing item content) where
  -- What was written, without an error.
  abbrev IsWritten : List ℕ → Downloaded W → Type 0
  IsWritten bytes d = (d.error ≡ none) × (d.written ≡ bytes)

  first_range-IsWritten :
      (start : ℕ) (w : W) (rest : Downloaded W)
      → start < length content
      → IsWritten (drop (start + range_size) content) rest
      → let end = range_end (length content) start in
        let a = source.get_range start end w in
        IsWritten (drop start content) (after_range (download_range start end a.0) a.1 rest)
  first_range-IsWritten start w rest h (e, r) =
      let end = range_end (length content) start in
      let (l, b) = range_end-inside (length content) start h in
      rw (serving.answers start end w l b) (
        rw (download_range-slice content start h (serving.name start end) (serving.named start end))
          (e, ap (λ ys. slice content start end ++ ys) r ∙ first_slice content start h))

  download_ranges-IsWritten :
      (n start : ℕ) (w : W)
      → length content ≤ start + n * range_size
      → IsWritten (drop start content) (download_ranges source n (length content) start w)
  unfolding download_ranges
  download_ranges-IsWritten zero start w h =
      (refl, sym (drop_past start content (omega (arith, h))))
  download_ranges-IsWritten (suc n) start w h =
      let a = source.get_range start (range_end (length content) start) w in
      by_test (IsWritten (drop start content)) (not (ltb start (length content)))
        (λ e. (refl, sym (drop_past start content (ground (arith, e)))))
        λ e. rw (serving.goes_on w) (
          first_range-IsWritten start w _ (ground (arith, e))
            (download_ranges-IsWritten n (start + range_size) a.1 (omega (arith, h))))

  checked-IsWritten :
      (d : Downloaded W) → IsWritten content d → IsWritten content (checked source hashing item d)
  unfolding checked
  checked-IsWritten d (e, r) = rw e (rw r (rw serving.is_accepted (refl, refl)))

  -- Where the server has an item of the content's size, below 2 ^ 63, answers every range within it by
  -- 206, a Content-Range and the bytes, the context does not end, and the item has no hash or that of
  -- the content, a download ends without an error and has written exactly the content.
  pub get_item_content_stream-IsWritten :
      (w : W)
      → let d = get_item_content_stream source hashing w in (d.error ≡ none) × (d.written ≡ content)
  unfolding get_item_content_stream download_item drop
  get_item_content_stream-IsWritten w =
      let small = serving.is_small in
      let w' = (source.get_item w).1 in
      let fits : leb (2 ^ 63) (length content) ≡ false = ground (arith, small) in
      rw (serving.has_item w) (
        rw serving.has_size (
          rw fits (
            checked-IsWritten _
              (download_ranges-IsWritten (ranges_of source (length content)) 0 w' (omega arith)))))
