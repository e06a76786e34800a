-- ===== src/Contents/Bytes.antt =====
-- A write at an offset (`fd.WriteAt` in internal/fs/content_cache.go), byte by byte.
use mathlib.Core.Path.{subst}
use onecloudriver.Prelude.{
  ℕ, zero, suc, ◌+◌, ◌-◌, ◌≡◌, refl, ap, ◌∙◌, Bool, true, ◌&&◌, List, [], ◌∷◌, ◌++◌, length,
  length-append, ltb, leb, arith, if◌then◌else◌, drop,
}
use onecloudriver.Contents.Files.{take_padded, splice}

-- The byte at a position, 0 past the end.
abbrev pub byte_at : List ℕ → ℕ → ℕ
byte_at [] k = 0
byte_at (x ∷ xs) zero = x
byte_at (x ∷ xs) (suc k) = byte_at xs k

byte_at-append :
    (xs ys : List ℕ) (k : ℕ)
    → byte_at (xs ++ ys) k
      ≡ (if ltb k (length xs) then byte_at xs k else byte_at ys (k - length xs))
byte_at-append [] ys k = ground arith
byte_at-append (x ∷ xs) ys zero = ground arith
byte_at-append (x ∷ xs) ys (suc k) = ground (arith, byte_at-append xs ys k)

byte_at-take_padded :
    (n : ℕ) (xs : List ℕ) (k : ℕ) → ltb k n ≡ true → byte_at (take_padded n xs) k ≡ byte_at xs k
unfolding take_padded
byte_at-take_padded zero xs k h = ground (arith, h)
byte_at-take_padded (suc n) [] zero h = refl
byte_at-take_padded (suc n) [] (suc k) h = byte_at-take_padded n [] k (ground (arith, h))
byte_at-take_padded (suc n) (x ∷ xs) zero h = refl
byte_at-take_padded (suc n) (x ∷ xs) (suc k) h = byte_at-take_padded n xs k (ground (arith, h))

byte_at-drop : (n : ℕ) (xs : List ℕ) (k : ℕ) → byte_at (drop n xs) k ≡ byte_at xs (n + k)
unfolding drop
byte_at-drop zero xs k = ap (byte_at xs) (omega arith)
byte_at-drop (suc n) [] k = refl
byte_at-drop (suc n) (x ∷ xs) k =
    let e : suc (n + k) ≡ suc n + k = omega arith in byte_at-drop n xs k ∙ ap (byte_at (x ∷ xs)) e

-- Is a position among the `n` that a write at `off` covers?
abbrev pub covers : ℕ → ℕ → ℕ → Bool
covers off n k = leb off k && ltb k (off + n)

length-take_padded : (n : ℕ) (xs : List ℕ) → length (take_padded n xs) ≡ n
unfolding take_padded
length-take_padded zero xs = refl
length-take_padded (suc n) [] = ap suc (length-take_padded n [])
length-take_padded (suc n) (x ∷ xs) = ap suc (length-take_padded n xs)

length-drop : (n : ℕ) (xs : List ℕ) → length (drop n xs) ≡ length xs - n
unfolding drop
length-drop zero xs = omega arith
length-drop (suc n) [] = omega arith
length-drop (suc n) (x ∷ xs) = omega (arith, length-drop n xs)

ends :
    (t off n d old r : ℕ)
    → t ≡ off
    → r ≡ n + d
    → d ≡ old - (off + n)
    → t + r ≡ (if ltb old (off + n) then off + n else old)
ends t off n d old r e f g = ground arith

-- A write of at least one byte leaves the file as long as it was, or up to the end of what it
-- wrote, whichever is more.
pub length-splice :
    (x : ℕ) (xs : List ℕ) (off : ℕ) (old : List ℕ)
    → length (splice (x ∷ xs) off old)
      ≡ (if ltb (length old) (off + length (x ∷ xs)) then off + length (x ∷ xs) else length old)
unfolding splice
length-splice x xs off old =
    let d = drop (off + length (x ∷ xs)) old in
    length-append (take_padded off old) ((x ∷ xs) ++ d)
    ∙ ends (length (take_padded off old)) off (length (x ∷ xs)) (length d) (length old)
        (length ((x ∷ xs) ++ d)) (length-take_padded off old) (length-append (x ∷ xs) d)
        (length-drop (off + length (x ∷ xs)) old)

three_parts :
    (head bytes tail : List ℕ) (k : ℕ)
    → byte_at (head ++ (bytes ++ tail)) k ≡ (
        if ltb k (length head)
        then byte_at head k
        else if ltb (k - length head) (length bytes)
        then byte_at bytes (k - length head)
        else byte_at tail (k - length head - length bytes))
three_parts head bytes tail k =
    let e = byte_at-append head (bytes ++ tail) k in
    let f = byte_at-append bytes tail (k - length head) in ground (arith, e, f)

byte_at-past :
    (off n : ℕ) (old : List ℕ) (k : ℕ)
    → leb (off + n) k ≡ true
    → byte_at (drop (off + n) old) (k - off - n) ≡ byte_at old k
byte_at-past off n old k h =
    let e : off + n + (k - off - n) ≡ k = ground (arith, h) in
    byte_at-drop (off + n) old (k - off - n) ∙ ap (byte_at old) e

merge :
    (off n k v head middle tail old : ℕ)
    → v ≡ (if ltb k off then head else if ltb (k - off) n then middle else tail)
    → (ltb k off ≡ true → head ≡ old)
    → (leb (off + n) k ≡ true → tail ≡ old)
    → v ≡ (if covers off n k then middle else old)
merge off n k v head middle tail old e f g = ground (arith, e, f, g)

pub byte_at-splice :
    (bytes : List ℕ) (off : ℕ) (old : List ℕ) (k : ℕ)
    → byte_at (splice bytes off old) k
      ≡ (if covers off (length bytes) k then byte_at bytes (k - off) else byte_at old k)
unfolding splice
byte_at-splice [] off old k = ground arith
byte_at-splice (x ∷ xs) off old k =
    let n = length (x ∷ xs) in
    let tail = drop (off + n) old in
    merge off n k _ (byte_at (take_padded off old) k) (byte_at (x ∷ xs) (k - off))
      (byte_at tail (k - off - n)) (byte_at old k)
      (subst
        (λ l. byte_at (take_padded off old ++ ((x ∷ xs) ++ tail)) k ≡ (
          if ltb k l
          then byte_at (take_padded off old) k
          else if ltb (k - l) n
          then byte_at (x ∷ xs) (k - l)
          else byte_at tail (k - l - n)))
        (length-take_padded off old) (three_parts (take_padded off old) (x ∷ xs) tail k))
      (byte_at-take_padded off old k) (byte_at-past off n old k)

-- The length after a write: a write of no byte leaves the file as it was.
abbrev pub written_length : ℕ → ℕ → ℕ → ℕ
written_length n off old = if ltb 0 n && ltb old (off + n) then off + n else old

pub length-splice_all :
    (bytes : List ℕ) (off : ℕ) (old : List ℕ)
    → length (splice bytes off old) ≡ written_length (length bytes) off (length old)
unfolding splice
length-splice_all [] off old = refl
length-splice_all (x ∷ xs) off old = let e = length-splice x xs off old in ground (arith, e)
