-- ===== src/Graph/Pages.antt =====
-- The pages of a listing (internal/graph/children.go: listDriveItems; client.go: the URLs that it
-- follows), over a server that is a parameter. The texts of the errors are left out.
use onecloudriver.Prelude.{
  ℕ, zero, suc, String, Bool, false, not, ◌&&◌, Option, none, some, List, [], ◌∷◌, ◌++◌, ◌==◌,
  if◌then◌else◌,
}
use Prim.Native.String.{◌++◌ as ◌<>◌}
use onecloudriver.Graph.Models.{DriveItem}

-- The parts of a parsed URL that are read.
pub record Location : Type 0 where
  pub scheme : String
  pub host : String

-- The client's BaseURL, and what the libraries do: strings.TrimRight(s, "/"), strings.HasPrefix,
-- strings.EqualFold and url.Parse.
pub record Endpoint : Type 0 where
  pub base_url : String
  pub trim_right : String → String
  pub has_prefix : String → String → Bool
  pub equal_fold : String → String → Bool
  pub parse : String → Option Location

-- A page: its items, and the link to the next one or "".
pub record Page : Type 0 where
  pub items : List DriveItem
  pub next_link : String

pub data ListError : Type 0 where
  ended_early no_page bad_link : ListError

-- The state of the context before each page, and the GET of a page with the account's token.
pub record Pager (W : Type 0) : Type 0 where
  pub is_done : W → Bool
  pub get_page : String → W → Option Page × W

-- How a listing ends; `running` is a loop that has more pages to ask for.
pub data Listing : Type 0 where
  listed : List DriveItem → Listing
  not_listed : ListError → Listing
  running : Listing

-- The outcome, and the URLs that were requested, in order.
pub record Listed (W : Type 0) : Type 0 where
  pub outcome : Listing
  pub requested : List String
  pub world : W

module _ (e : Endpoint) where
  -- URL without a query.
  unfoldable pub url : String → String
  url path = e.trim_right e.base_url <> (if e.has_prefix path "/" then path else "/" <> path)

  unfoldable pub is_absolute_url : String → Bool
  is_absolute_url link = e.has_prefix link "http"

  unfoldable pub absolute_url : String → String
  unfolding url is_absolute_url
  absolute_url link = if is_absolute_url link then link else url link

  abbrev pub same_origin : Option Location → Option Location → Bool
  same_origin none target = false
  same_origin (some base) none = false
  same_origin (some base) (some target) =
      e.equal_fold target.scheme base.scheme && e.equal_fold target.host base.host

  -- Does validateFollowURL accept a URL?
  unfoldable pub validate_follow_url : String → Bool
  validate_follow_url u = same_origin (e.parse (e.trim_right e.base_url)) (e.parse u)

  -- The URL of the next page.
  unfoldable pub next_url : String → String
  unfolding absolute_url
  next_url link = if link == "" then "" else absolute_url link

module _ {W : Type 0} where
  abbrev pub stops_with : Listing → List String → W → Listed W
  stops_with o urls w = record { outcome = o; requested = urls; world = w }

  abbrev pub requested_first : String → Listed W → Listed W
  requested_first u l = record l { requested = u ∷ l.requested }

  -- What follows the answer for a page: an error, a link that is refused, or the rest.
  abbrev pub after_page : Endpoint → Option Page → String → String → W → Listed W → Listed W
  after_page e none u next w rest = stops_with (not_listed no_page) (u ∷ []) w
  after_page e (some p) u next w rest =
      if not (next == "") && not (validate_follow_url e next)
      then stops_with (not_listed bad_link) (u ∷ []) w
      else requested_first u rest

module _ {W : Type 0} (e : Endpoint) (pager : Pager W) where
  abbrev pub items_after : List DriveItem → Option Page → List DriveItem
  items_after items none = items
  items_after items (some p) = items ++ p.items

  abbrev pub next_after : Option Page → String
  next_after none = ""
  next_after (some p) = next_url e p.next_link

  -- The loop, from a URL and the items so far, for at most so many pages.
  unfoldable pub list_pages : ℕ → String → List DriveItem → W → Listed W
  unfolding next_url validate_follow_url
  list_pages zero u items w = stops_with running [] w
  list_pages (suc n) u items w =
      let (page, w') = pager.get_page u w in
      let rest = list_pages n (next_after page) (items_after items page) w' in
      if u == ""
      then stops_with (listed items) [] w
      else if pager.is_done w
      then stops_with (not_listed ended_early) [] w
      else after_page e page u (next_after page) w' rest

  unfoldable pub list_drive_items : ℕ → String → W → Listed W
  unfolding list_pages
  list_drive_items n initial w = list_pages n initial [] w
