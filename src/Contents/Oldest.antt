-- ===== src/Contents/Oldest.antt =====
-- The top of the heap of `ContentCache` (internal/fs/content_eviction.go: evictHeap.Less): it is in
-- the heap, and no entry of the heap is older.
use mathlib.Core.Path.{subst}
use onecloudriver.Prelude.{
  ℕ, ◌≤◌, ◌<◌, String, ◌≡◌, refl, sym, ap, ◌∙◌, true, false, ◌⊎◌, Option, none, some, List, [], ◌∷◌,
  length, ◌==◌, eq_iff, eq_refl, if◌then◌else◌, arith, Bool-cases, Option-cases, inl, inr,
}
use onecloudriver.Prelude.Dict.{Dict, get}
use onecloudriver.Inodes.Cache.{contains_id, without_id}
use onecloudriver.Contents.Cache.{EvictEntry, oldest, is_older, older_of, older}

pub length-without_id : (xs : List String) (x : String) → length (without_id xs x) ≤ length xs
unfolding without_id
length-without_id [] x = ground arith
length-without_id (y ∷ ys) x = ground (arith, length-without_id ys x)

pub length-without_id_lt :
    (xs : List String) (x : String) → contains_id xs x ≡ true → length (without_id xs x) < length xs
unfolding without_id contains_id
length-without_id_lt [] x h = ground arith
length-without_id_lt (y ∷ ys) x h =
    ground (arith, length-without_id ys x, length-without_id_lt ys x)

-- The first path is the oldest where the rest is empty or has no older one.
abbrev IsFirst : Dict EvictEntry → String → Option String → Type 0
IsFirst es x o = (o ≡ none) ⊎ ((y : String) × (o ≡ some y) × (is_older es x y ≡ true))

choose-oldest {ℓ} :
    (es : Dict EvictEntry) (x : String) (o : Option String) (P : Option String → Type ℓ)
    → (IsFirst es x o → P (some x))
    → ((y : String) → o ≡ some y → is_older es x y ≡ false → P (some y))
    → P (elim o [ none ↦ some x | some y ↦ if is_older es x y then some x else some y ])
choose-oldest es x none P s t = s (inl refl)
choose-oldest es x (some y) P s t = elim (Bool-cases (is_older es x y)) [
  | inl e ↦ rw e (s (inr (y, refl, e)))
  | inr e ↦ rw e (t y refl e)
]

contains_id-head : (x : String) (xs : List String) → contains_id (x ∷ xs) x ≡ true
unfolding contains_id
contains_id-head x xs = rw (eq_refl x) refl

contains_id-tail :
    (x y : String) (xs : List String) → contains_id xs y ≡ true → contains_id (x ∷ xs) y ≡ true
unfolding contains_id
contains_id-tail x y xs h = ground arith

pub oldest-in_heap :
    (es : Dict EvictEntry) (heap : List String) (p : String)
    → oldest es heap ≡ some p
    → contains_id heap p ≡ true
unfolding oldest
oldest-in_heap es [] p h = cc
oldest-in_heap es (x ∷ xs) p h =
    choose-oldest es x (oldest es xs)
      (λ (o : Option String). (q : String) → o ≡ some q → contains_id (x ∷ xs) q ≡ true)
      (λ _ q e.
        let s : x ≡ q = cc in subst (λ k. contains_id (x ∷ xs) k ≡ true) s (contains_id-head x xs))
      (λ y k _ q e. let s : y ≡ q = cc in contains_id-tail x q xs (oldest-in_heap es xs q (k ∙ e)))
      p h

pub oldest-none : (es : Dict EvictEntry) (heap : List String) → oldest es heap ≡ none → heap ≡ []
unfolding oldest
oldest-none es [] h = refl
oldest-none es (x ∷ xs) h =
    choose-oldest es x (oldest es xs) (λ (o : Option String). o ≡ none → (x ∷ xs) ≡ []) (λ _ e. cc)
      (λ y k _ e. cc) h

-- The clauses of the test at two paths with entries.
is_older-older :
    (es : Dict EvictEntry) (x y : String) (a b : EvictEntry)
    → get es x ≡ some a
    → get es y ≡ some b
    → is_older es x y ≡ older a x b y
is_older-older es x y a b g h =
    ap (λ o. older_of o x (get es y) y) g ∙ ap (λ o. older_of (some a) x o y) h

older_le : (a b : EvictEntry) (x y : String) → older a x b y ≡ true → a.mod_time ≤ b.mod_time
unfolding older
older_le a b x y h = ground arith

older_ge : (a b : EvictEntry) (x y : String) → older a x b y ≡ false → b.mod_time ≤ a.mod_time
unfolding older
older_ge a b x y h = ground arith

-- A path before another one: that has an entry, unless the first has none.
is_older-some :
    (es : Dict EvictEntry) (x y : String) (a : EvictEntry)
    → get es x ≡ some a
    → is_older es x y ≡ true
    → (b : EvictEntry) × (get es y ≡ some b)
is_older-some es x y a g h = elim (Option-cases (get es y)) [
  | inl e ↦
      let k : false ≡ true =
        ap (λ o. older_of (some a) x o y) (sym e)
        ∙ ap (λ o. older_of o x (get es y) y) (sym g)
        ∙ h in
      cc
  | inr (b, e) ↦ (b, e)
]

abbrev IsOldest : Dict EvictEntry → List String → String → Type 0
IsOldest es heap p =
    (a b : EvictEntry) (q : String)
    → get es p ≡ some a
    → contains_id heap q ≡ true
    → get es q ≡ some b
    → a.mod_time ≤ b.mod_time

no_member {ℓ} : {A : Type ℓ} (q : String) → contains_id [] q ≡ true → A
unfolding contains_id
no_member q h = cc

contains_id-cons :
    (x q : String) (xs : List String)
    → contains_id (x ∷ xs) q ≡ true
    → (x ≡ q) ⊎ (contains_id xs q ≡ true)
unfolding contains_id
contains_id-cons x q xs h = elim (Bool-cases (x == q)) [
  | inl e ↦ inl (ground (arith, eq_iff x q, e))
  | inr e ↦ inr (ground (arith, e, h))
]

same_entry :
    (es : Dict EvictEntry) (x y : String) (a b : EvictEntry)
    → x ≡ y
    → get es x ≡ some a
    → get es y ≡ some b
    → a.mod_time ≤ b.mod_time
same_entry es x y a b e g h =
    let k : some a ≡ some b = sym g ∙ ap (get es) e ∙ h in ground (arith, k)

le_trans : (m n k : ℕ) → m ≤ n → n ≤ k → m ≤ k
le_trans m n k h g = omega arith

module _ (es : Dict EvictEntry) (x : String) (xs : List String) where
  first-IsOldest :
      IsFirst es x (oldest es xs)
      → ((y : String) → oldest es xs ≡ some y → IsOldest es xs y)
      → IsOldest es (x ∷ xs) x
  first-IsOldest (inl e) ih a b q g m h = elim (contains_id-cons x q xs m) [
    | inl k ↦ same_entry es x q a b k g h
    | inr k ↦
        let s : contains_id [] q ≡ true =
          subst (λ l. contains_id l q ≡ true) (oldest-none es xs e) k in
        no_member q s
  ]
  first-IsOldest (inr (y, e, o)) ih a b q g m h =
      let (c, k) = is_older-some es x y a g o in
      let t = older_le a c x y (sym (is_older-older es x y a c g k) ∙ o) in
      elim (contains_id-cons x q xs m) [
        | inl j ↦ same_entry es x q a b j g h
        | inr j ↦ le_trans a.mod_time c.mod_time b.mod_time t (ih y e c b q k j h)
      ]

  later-IsOldest :
      (y : String) → is_older es x y ≡ false → IsOldest es xs y → IsOldest es (x ∷ xs) y
  later-IsOldest y o ih a b q g m h = elim (contains_id-cons x q xs m) [
    | inl j ↦
        let k : get es x ≡ some b = ap (get es) j ∙ h in
        older_ge b a x y (sym (is_older-older es x y b a k g) ∙ o)
    | inr j ↦ ih a b q g j h
  ]

pub oldest-IsOldest :
    (es : Dict EvictEntry) (heap : List String) (p : String)
    → oldest es heap ≡ some p
    → IsOldest es heap p
unfolding oldest
oldest-IsOldest es [] p h = cc
oldest-IsOldest es (x ∷ xs) p h =
    choose-oldest es x (oldest es xs)
      (λ (o : Option String). (q : String) → o ≡ some q → IsOldest es (x ∷ xs) q)
      (λ f q e.
        let s : x ≡ q = cc in
        subst (λ k. IsOldest es (x ∷ xs) k) s
          (first-IsOldest es x xs f (λ y. oldest-IsOldest es xs y)))
      (λ y k o q e.
        let s : y ≡ q = cc in
        subst (λ j. IsOldest es (x ∷ xs) j) s
          (later-IsOldest es x xs y o (oldest-IsOldest es xs y k)))
      p h
