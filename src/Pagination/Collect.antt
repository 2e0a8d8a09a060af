-- ===== src/Pagination/Collect.antt =====
-- concord_core/src/request.rs: `collect` and its loop.
use concord_api.Base.{
  ℕ, ◌-◌, Bool, false, ◌||◌, Option, none, some, List, ◌==◌, ltb, leb, if◌then◌else◌, is_some_and,
  Result, ok, err, ok_or, ◌>>=◌, checked_add, u64_max, insert,
}
use concord_api.Error.{
  ErrorContext, ApiClientError, pagination, overflow, invalid_size, non_progress,
}
use concord_api.Plan.{RequestPlan}
use concord_api.Pagination.{
  PaginationTermination, hard_page_cap, hard_item_cap, take_pages, take_items, ProgressKey,
  ProgressKey-discrete,
}
use concord_api.Pagination.Identity.{PaginationRequestIdentity, PaginationRequestIdentity-discrete}

unfoldable pub validate_collect_termination :
    PaginationTermination → ErrorContext → Result ApiClientError (Unit {0})
validate_collect_termination (hard_page_cap n) ctx =
    if n == 0 then err (pagination ctx invalid_size) else ok tt
validate_collect_termination (hard_item_cap n) ctx =
    if n == 0 then err (pagination ctx invalid_size) else ok tt
validate_collect_termination (take_pages n) ctx = ok tt
validate_collect_termination (take_items n) ctx = ok tt

pub record PreAdvanceDecision : Type 0 where
  pub common_stop : Bool
  pub take_items_done : Bool
  pub hard_item_cap_exceeded : Option ℕ

unfoldable pub common_content_stop : ℕ → Option ℕ → Bool
common_content_stop item_count expected_items =
    item_count == 0 || is_some_and expected_items (λ expected. ltb item_count expected)

abbrev exceeded : PaginationTermination → ℕ → Option ℕ
exceeded (hard_item_cap n) total = if ltb n total then some total else none
exceeded (hard_page_cap n) total = none
exceeded (take_pages n) total = none
exceeded (take_items n) total = none

-- `n - items_count` is the source's `saturating_sub`.
abbrev items_done : PaginationTermination → ℕ → ℕ → Bool
items_done (take_items n) items_count item_count = leb (n - items_count) item_count
items_done (hard_page_cap n) items_count item_count = false
items_done (hard_item_cap n) items_count item_count = false
items_done (take_pages n) items_count item_count = false

unfoldable pub pre_advance_decision :
    PaginationTermination
    → ℕ
    → ℕ
    → Option ℕ
    → ErrorContext
    → Result ApiClientError PreAdvanceDecision
unfolding common_content_stop
pre_advance_decision termination items_count item_count expected_items ctx = do
  hinted_total ← ok_or (checked_add u64_max items_count item_count) (pagination ctx overflow)
  ok (record {
    common_stop = common_content_stop item_count expected_items;
    take_items_done = items_done termination items_count item_count;
    hard_item_cap_exceeded = exceeded termination hinted_total;
  })

-- `PaginationRunState::ensure_progress`.
unfoldable pub ensure_progress :
    List PaginationRequestIdentity
    → PaginationRequestIdentity
    → ErrorContext
    → Result ApiClientError (List PaginationRequestIdentity)
ensure_progress sent identity ctx =
    let (fresh, sent') = insert PaginationRequestIdentity-discrete sent identity in
    if fresh then ok sent' else err (pagination ctx non_progress)

-- The check of the progress key, where loops are to be detected.
unfoldable pub note_progress :
    Option (List ProgressKey)
    → Option ProgressKey
    → ErrorContext
    → Result ApiClientError (Option (List ProgressKey))
note_progress none key ctx = ok none
note_progress (some seen) none ctx = ok (some seen)
note_progress (some seen) (some k) ctx =
    let (fresh, seen') = insert ProgressKey-discrete seen k in
    if fresh then ok (some seen') else err (pagination ctx non_progress)

-- What the loop calls and does not implement: the plan that the generated endpoint makes, and the
-- execution of a plan, which moves the world on.
pub record PageClient (E : Type 0) (Page : Type 0) (W : Type 0) : Type 0 where
  pub plan : E → Result ApiClientError RequestPlan
  pub execute : W → RequestPlan → Result ApiClientError Page × W

-- The variables of the loop, with the endpoint, the controller and the world.
pub record Run (E P Item W : Type 0) : Type 0 where
  pub endpoint : E
  pub runtime : Option P
  pub seen : Option (List ProgressKey)
  pub sent : List PaginationRequestIdentity
  pub items_count : ℕ
  pub page_index : ℕ
  pub out : List Item
  pub world : W
