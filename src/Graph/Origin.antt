-- ===== src/Graph/Origin.antt =====
-- The account's token goes to no other server (internal/graph/children.go: listDriveItems;
-- client.go: validateFollowURL).
use onecloudriver.Prelude.{
  ℕ, zero, suc, String, Bool, true, false, ◌≡◌, refl, not, ◌&&◌, ◌⊎◌, Option, none, some, List, [],
  ◌==◌, inl, inr, by_test, All, eq_iff, arith, Bool-cases,
}
use onecloudriver.Graph.Models.{DriveItem}
use onecloudriver.Graph.Pages.{
  Location, Endpoint, Page, Pager, Listed, same_origin, validate_follow_url, after_page,
  items_after, next_after, list_pages, list_drive_items,
}

-- A URL of the client's server: one with the scheme and the host of its base URL.
pub data HasOrigin (e : Endpoint) (u : String) : Type 0 where
  has_origin :
      (base target : Location)
      → e.parse (e.trim_right e.base_url) ≡ some base
      → e.parse u ≡ some target
      → e.equal_fold target.scheme base.scheme ≡ true
      → e.equal_fold target.host base.host ≡ true
      → HasOrigin e u

validate_follow_url-HasOrigin :
    (e : Endpoint) (u : String) → validate_follow_url e u ≡ true → HasOrigin e u
unfolding validate_follow_url
validate_follow_url-HasOrigin e u h = go (e.parse (e.trim_right e.base_url)) (e.parse u) refl refl h
  where
    both : (a b : Bool) → (a && b) ≡ true → (a ≡ true) × (b ≡ true)
    both true true k = (refl, refl)
    both true false k = cc
    both false b k = cc

    go :
        (b t : Option Location)
        → e.parse (e.trim_right e.base_url) ≡ b
        → e.parse u ≡ t
        → same_origin e b t ≡ true
        → HasOrigin e u
    go none t x y k = cc
    go (some b) none x y k = cc
    go (some b) (some t) x y k = let (i, j) = both _ _ k in has_origin b t x y i j

-- May the token go to this URL, in a listing from an initial one?
abbrev pub IsAllowed : Endpoint → String → String → Type 0
IsAllowed e initial u = (u ≡ initial) ⊎ HasOrigin e u

module _ {W : Type 0} (e : Endpoint) (pager : Pager W) (initial : String) where
  AllAllowed : Listed W → Type 0
  AllAllowed l = All (IsAllowed e initial) l.requested

  after_page-AllAllowed :
      (page : Option Page) (u next : String) (w : W) (rest : Listed W)
      → IsAllowed e initial u
      → ((next ≡ "") ⊎ IsAllowed e initial next → AllAllowed rest)
      → AllAllowed (after_page e page u next w rest)
  unfolding AllAllowed
  after_page-AllAllowed none u next w rest a h = (a, tt)
  after_page-AllAllowed (some p) u next w rest a h =
      by_test AllAllowed (not (next == "") && not (validate_follow_url e next)) (λ _. (a, tt))
        λ k. (a, h (allowed k))
    where
      allowed :
          (not (next == "") && not (validate_follow_url e next)) ≡ false
          → (next ≡ "") ⊎ IsAllowed e initial next
      allowed k = elim (Bool-cases (next == "")) [
        | inl x ↦ inl (ground (arith, x, eq_iff next ""))
        | inr x ↦ elim (Bool-cases (validate_follow_url e next)) [
          | inl y ↦ inr (inr (validate_follow_url-HasOrigin e next y))
          | inr y ↦ ground (arith, k, x, y)
        ]
      ]

  list_pages-AllAllowed :
      (n : ℕ) (u : String) (items : List DriveItem) (w : W)
      → (u ≡ "") ⊎ IsAllowed e initial u
      → AllAllowed (list_pages e pager n u items w)
  unfolding AllAllowed list_pages
  list_pages-AllAllowed zero u items w a = tt
  list_pages-AllAllowed (suc n) u items w a =
      let (page, w') = pager.get_page u w in
      by_test AllAllowed (u == "") (λ _. tt)
        λ k.
          by_test AllAllowed (pager.is_done w) (λ _. tt)
            λ _.
              after_page-AllAllowed page u (next_after e pager page) w' _
                (elim a [ inl x ↦ ground (arith, k, x, eq_iff u "") | inr x ↦ x ])
                λ b.
                  list_pages-AllAllowed n (next_after e pager page) (items_after e pager items page)
                    w' b

  -- Whatever the server answers, and however long a listing goes on, every URL that it requests with
  -- the account's token is the one that it was called with, or has the scheme and the host of the
  -- client's base URL.
  pub list_drive_items-IsAllowed :
      (n : ℕ) (w : W) → All (IsAllowed e initial) (list_drive_items e pager n initial w).requested
  unfolding list_drive_items AllAllowed
  list_drive_items-IsAllowed n w = list_pages-AllAllowed n initial [] w (inr (inl refl))
