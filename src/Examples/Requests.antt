-- ===== src/Examples/Requests.antt =====
-- Requests to a small server: internal/graph/client.go, upload.go, download.go and children.go.
use onecloudriver.Prelude.{
  ℕ, ◌+◌, ◌*◌, ◌^◌, ◌≤◌, ◌≡◌, ◌≢◌, ◌⊎◌, refl, true, false, suc, zero, some, none, List, [], ◌∷◌,
  ◌++◌, length, All, ◌==◌, arith, String, Option, not, if◌then◌else◌,
}
use onecloudriver.Graph.Models.{DriveItem, blank_item}
use onecloudriver.Graph.Retries.{Answer, response, Request, Body, whole, base_delay, do_request}
use onecloudriver.Graph.Backoff.{
  sum, retry_after, is_network_failure, do_request-delays, do_request-whole,
}
use onecloudriver.Graph.Chunks.{Server, created, failed as upload_failed, no_item, upload_stream}
use onecloudriver.Graph.Tiling.{IsTiling, bytes_sent, upload_stream-IsTiling}
use onecloudriver.Graph.Download.{
  answered, Source, Hashing, verify_checksum, is_rejected, get_item_content_stream,
}
use onecloudriver.Graph.Pages.{Location, Endpoint, Page, Pager, list_drive_items}
use onecloudriver.Graph.Origin.{IsAllowed, list_drive_items-IsAllowed}
use onecloudriver.Graph.Ranges.{IsWhole, get_item_content_stream-IsWhole}
use onecloudriver.Graph.Intact.{slice, IsServing, get_item_content_stream-IsWritten}

-- Busy twice.
abbrev busy : Body → ℕ → Answer × ℕ
busy body zero = (response 200 none, 0)
busy body (suc n) = (response 503 none, n)

abbrev request : Request
request = record { has_body = true; resettable = true; resets = true }

busy-retry_after : (b : Body) (w : ℕ) → retry_after (busy b w).0 ≡ none
busy-retry_after b zero = refl
busy-retry_after b (suc n) = refl

busy-is_network_failure : (b : Body) (w : ℕ) → is_network_failure busy request (busy b w).0 ≡ false
busy-is_network_failure b zero = refl
busy-is_network_failure b (suc n) = refl

do_request-delays_example :
    let run = do_request busy request 3 2 in
    (length run.bodies ≡ suc (length run.delays))
    × (length run.delays ≤ 3)
    × (sum run.delays + base_delay ≡ base_delay * 2 ^ length run.delays)
do_request-delays_example = do_request-delays busy request busy-retry_after 3 2

do_request-whole_example : All (λ b. b ≡ whole) (do_request busy request 3 2).bodies
do_request-whole_example = do_request-whole busy request busy-is_network_failure 3 2

-- Takes one chunk, and has the item.
abbrev server : Server ℕ
server = record {
  create_session = λ w. (some "url", w);
  is_done = λ w. false;
  put = λ c w. (created (some (blank_item "f1" "note")), suc w);
}

upload_stream-IsTiling_example :
    let s = upload_stream server 2 (1 ∷ 2 ∷ []) 0 in
    IsTiling 2 0 s.chunks
    × ((rest : List ℕ) × (bytes_sent s.chunks ++ rest ≡ 1 ∷ 2 ∷ []))
    × ((2 ≤ length (bytes_sent s.chunks)) ⊎ (s.outcome ≢ upload_failed no_item))
upload_stream-IsTiling_example = upload_stream-IsTiling server 2 (1 ∷ 2 ∷ []) 0

-- An item of three bytes, with a hash, and a server for it.
abbrev item : DriveItem
item = record (blank_item "f1" "note") {
  size = 3;
  file = some (record { sha1_hash = ""; quick_xor_hash = "h" });
}

abbrev three : List ℕ
three = 1 ∷ 2 ∷ 3 ∷ []

abbrev source : Source ℕ
source = record {
  get_item = λ w. (some item, w);
  is_done = λ w. false;
  get_range = λ s e w. (answered 206 "bytes" (slice three s e) false, suc w);
}

abbrev hashing : Hashing
hashing = record { equal_fold = λ a b. a == b; hash = λ bytes. "h" }

three-IsServing : IsServing source hashing item three
unfolding is_rejected verify_checksum
three-IsServing = record {
  name = λ s e. "bytes";
  named = λ s e. refl;
  has_item = λ w. refl;
  has_size = refl;
  is_small = omega arith;
  goes_on = λ w. refl;
  answers = λ s e w a b. refl;
  is_accepted = refl;
}

get_item_content_stream-IsWritten_example :
    let d = get_item_content_stream source hashing 0 in (d.error ≡ none) × (d.written ≡ three)
get_item_content_stream-IsWritten_example =
    get_item_content_stream-IsWritten source hashing item three three-IsServing 0

get_item_content_stream-IsWhole_example :
    (i : DriveItem) × ((source.get_item 0).0 ≡ some i)
    × IsWhole hashing i (get_item_content_stream source hashing 0).written
get_item_content_stream-IsWhole_example =
    get_item_content_stream-IsWhole source hashing 0
      (get_item_content_stream-IsWritten source hashing item three three-IsServing 0).0

abbrev location : String → Option Location
location u =
    some (record { scheme = "https"; host = if u == "https://other/3" then "other" else "graph" })

abbrev endpoint : Endpoint
endpoint = record {
  base_url = "https://graph";
  trim_right = λ s. s;
  has_prefix = λ s prefix. if prefix == "/" then s == "/2" else not (s == "/2");
  equal_fold = λ a b. a == b;
  parse = location;
}

-- Links to its second page by a path, and from there to another host.
abbrev page : ℕ → Page
page zero = record { items = item ∷ []; next_link = "/2" }
page (suc n) = record { items = []; next_link = "https://other/3" }

abbrev pager : Pager ℕ
pager = record { is_done = λ w. false; get_page = λ u w. (some (page w), suc w) }

list_drive_items-IsAllowed_example :
    All
      (IsAllowed endpoint "https://graph/1")
      (list_drive_items endpoint pager 5 "https://graph/1" 0).requested
list_drive_items-IsAllowed_example = list_drive_items-IsAllowed endpoint pager "https://graph/1" 5 0
