-- ===== src/Inodes/Bolt/Batches.antt =====
-- The batches of SerializeDirty (internal/fs/cache.go) hold the marked IDs, and no others.
use onecloudriver.Prelude.{
  ℕ, zero, suc, ◌≤◌, String, ◌≡◌, refl, ◌∙◌, Bool, false, ◌||◌, List, [], ◌∷◌, arith, ◌==◌, length,
}
use onecloudriver.Prelude.Dict
use onecloudriver.Inodes.Cache.{StringSet, has, contains_id}
use onecloudriver.Inodes.Bolt.{insert_sorted, sort_strings, sorted_keys, take_batch, batches}

contains_id-insert_sorted :
    (x : String) (xs : List String) (id : String)
    → contains_id (insert_sorted x xs) id ≡ (x == id || contains_id xs id)
unfolding contains_id insert_sorted
contains_id-insert_sorted x [] id = refl
contains_id-insert_sorted x (y ∷ ys) id = ground (arith, contains_id-insert_sorted x ys id)

contains_id-sort_strings :
    (xs : List String) (id : String) → contains_id (sort_strings xs) id ≡ contains_id xs id
unfolding contains_id sort_strings
contains_id-sort_strings [] id = refl
contains_id-sort_strings (x ∷ xs) id =
    ground (arith, contains_id-insert_sorted x (sort_strings xs) id, contains_id-sort_strings xs id)

contains_id-keys : (s : StringSet) (id : String) → contains_id (Dict.keys s) id ≡ has s id
unfolding contains_id Dict.keys Dict.get
contains_id-keys [] id = refl
contains_id-keys ((k, v) ∷ s) id = ground (arith, contains_id-keys s id)

pub contains_id-sorted_keys :
    (s : StringSet) (id : String) → contains_id (sorted_keys s) id ≡ has s id
unfolding sorted_keys
contains_id-sorted_keys s id = contains_id-sort_strings (Dict.keys s) id ∙ contains_id-keys s id

-- Is the ID in one of the batches?
abbrev pub in_batches : List (List String) → String → Bool
in_batches [] id = false
in_batches (b ∷ bs) id = contains_id b id || in_batches bs id

contains_id-take_batch :
    (n : ℕ) (xs : List String) (id : String)
    → (contains_id (take_batch n xs).0 id || contains_id (take_batch n xs).1 id) ≡ contains_id xs id
unfolding contains_id take_batch
contains_id-take_batch zero xs id = refl
contains_id-take_batch (suc n) [] id = refl
contains_id-take_batch (suc n) (x ∷ xs) id = ground (arith, contains_id-take_batch n xs id)

length-take_batch : (n : ℕ) (xs : List String) → length (take_batch n xs).1 ≤ length xs
unfolding take_batch
length-take_batch zero xs = omega arith
length-take_batch (suc n) [] = omega arith
length-take_batch (suc n) (x ∷ xs) = omega (arith, length-take_batch n xs)

-- With the length as fuel every ID is in a batch.
in_batches-batches_fuel :
    (more n : ℕ) (xs : List String) (id : String)
    → length xs ≤ n
    → in_batches (batches more n xs) id ≡ contains_id xs id
unfolding batches contains_id
in_batches-batches_fuel more zero [] id h = refl
in_batches-batches_fuel more zero (x ∷ xs) id h = absurd (omega arith)
in_batches-batches_fuel more (suc n) [] id h = refl
in_batches-batches_fuel more (suc n) (x ∷ xs) id h =
    let rest = (take_batch more xs).1 in
    let fits : length rest ≤ n = omega (arith, length-take_batch more xs) in
    ground (arith, contains_id-take_batch more xs id, in_batches-batches_fuel more n rest id fits)

pub in_batches-batches :
    (more : ℕ) (xs : List String) (id : String)
    → in_batches (batches more (length xs) xs) id ≡ contains_id xs id
in_batches-batches more xs id = in_batches-batches_fuel more (length xs) xs id (omega arith)
