-- ===== src/Pagination/Tests.antt =====
-- concord_core/src/request.rs: collections from a small server, and the theorems at them.
use concord_api.Base.{
  IsNodup, arith, u64_max, ℕ, ◌+◌, ◌==◌, if◌then◌else◌, Option, String, ◌≡◌, refl, true, none, some,
  List, [], ◌∷◌, length, Result, ok, err, String-discrete, ℕ_discrete,
}
use concord_api.Error.{
  ErrorContext, ApiClientError, pagination, overflow, pagination_limit, page_limit_exceeded,
}
use concord_api.Plan.{RequestPlan, default_options, apply_to}
use concord_api.Pagination.{
  hard_page_cap, take_items, take_pages, PaginationTermination, new_caps, PaginateBinding,
  PageItems, ProgressKey-discrete,
}
use concord_api.Pagination.Validate.{validate_page_size, advance_ctx}
use concord_api.Pagination.Offset
use concord_api.Pagination.Offset.{OffsetLimitPagination, offset_limit}
use concord_api.Pagination.Paged
use concord_api.Pagination.Paged.{PagedPagination}
use concord_api.Pagination.Progress.{advance_pages, advance_pages-offset, advance_pages-page}
use concord_api.Pagination.Adapter
use concord_api.Pagination.Identity.{
  PaginationRequestIdentity, PaginationRequestIdentity-discrete, pagination_request_identity,
}
use concord_api.Pagination.Collect.{
  PageClient, Run, validate_collect_termination, pre_advance_decision, common_content_stop,
  ensure_progress, note_progress,
}
use concord_api.Pagination.Loop.{
  take_page, next_page, prepare, decide, take_over, absorb, round, first_run, rounds,
  collect_with_runtime, collect,
}
use concord_api.Pagination.Loop.Outcome.{
  SentWithin, recording, collect_sends_within_cap, collect_total,
}
use concord_api.Pagination.Loop.Items.{Collected, collect_returns_pages}

opened : Unit {0}
unfolding validate_page_size Offset.apply Offset.advance Adapter.init Adapter.apply Adapter.advance
    validate_collect_termination pre_advance_decision common_content_stop ensure_progress
    note_progress take_page next_page prepare decide take_over absorb round rounds
    collect_with_runtime collect apply_to pagination_request_identity
    PaginationRequestIdentity-discrete ProgressKey-discrete String-discrete ℕ_discrete
opened = tt

-- The endpoint is its controller; the world counts the pages served.
abbrev binding : PaginateBinding OffsetLimitPagination OffsetLimitPagination
binding = record { load_pagination = λ e. e; store_pagination = λ _ p. p }

abbrev items : PageItems (List ℕ) ℕ
items = record { item_count = λ page. length page; into_items = λ page. page }

abbrev context : ErrorContext
context = record { endpoint = "List"; method = "GET" }

abbrev offset_text : ℕ → String
offset_text offset = if offset == 0 then "0" else if offset == 2 then "2" else "4"

abbrev plan_of : OffsetLimitPagination → RequestPlan
plan_of e = record {
  endpoint = record {
    meta = record { name = "List"; method = "GET"; idempotent = true };
    route = record { scheme = "https"; host = "example.com"; path = "/items" };
    policy = record { headers = []; query = ("offset", offset_text e.offset) ∷ [] };
    pagination = true;
  };
  overrides = record { debug_level = none; timeout = none; page_index = 0 };
}

-- Two full pages, then one with a single item.
abbrev serve : ℕ → List ℕ
serve w = if w == 0 then 10 ∷ 11 ∷ [] else if w == 1 then 12 ∷ 13 ∷ [] else 14 ∷ []

abbrev client : PageClient OffsetLimitPagination (List ℕ) ℕ
client = record { plan = λ e. ok (plan_of e); execute = λ w plan. (ok (serve w), w + 1) }

abbrev by_two : OffsetLimitPagination
by_two = record { offset = 0; limit = 2 }

abbrev run :
    PaginationTermination
    → Option (Result ApiClientError (List ℕ) × Run OffsetLimitPagination OffsetLimitPagination ℕ ℕ)
run t = collect binding offset_limit items client default_options (new_caps t) context true by_two 0

abbrev last_of :
    Option (Result ApiClientError (List ℕ) × Run OffsetLimitPagination OffsetLimitPagination ℕ ℕ)
    → Run OffsetLimitPagination OffsetLimitPagination ℕ ℕ
last_of none =
    first_run binding offset_limit items client default_options (new_caps (take_pages 0)) context
      by_two none 0
last_of (some (r, t)) = t

all_five :
    run (hard_page_cap 9) ≡ some (ok (10 ∷ 11 ∷ 12 ∷ 13 ∷ 14 ∷ []), last_of (run (hard_page_cap 9)))
unfolding opened
all_five = refl

-- Two pages do not do: the cap stops the collection before a third request.
capped :
    run (hard_page_cap 2)
    ≡ some (err (pagination_limit context page_limit_exceeded), last_of (run (hard_page_cap 2)))
unfolding opened
capped = refl

abbrev recorded_run : Option (
    Result ApiClientError (List ℕ)
    × Run OffsetLimitPagination OffsetLimitPagination ℕ (ℕ × List PaginationRequestIdentity))
recorded_run =
    collect binding offset_limit items (recording client) default_options
      (new_caps (hard_page_cap 2)) context true by_two (0, [])

abbrev requests_of :
    Option (
      Result ApiClientError (List ℕ)
      × Run OffsetLimitPagination OffsetLimitPagination ℕ (ℕ × List PaginationRequestIdentity))
    → List PaginationRequestIdentity
requests_of none = []
requests_of (some (r, t)) = t.world.1

collect_sends_within_cap_example :
    IsNodup PaginationRequestIdentity-discrete (requests_of recorded_run)
    × SentWithin (hard_page_cap 2) 2
unfolding opened
collect_sends_within_cap_example =
    collect_sends_within_cap binding offset_limit items client default_options
      (new_caps (hard_page_cap 2)) context true by_two 0 _ _ refl

collect_total_example :
    (x : Result ApiClientError (List ℕ) × Run OffsetLimitPagination OffsetLimitPagination ℕ ℕ)
    × (run (take_items 3) ≡ some x)
collect_total_example =
    collect_total binding offset_limit items client default_options (new_caps (take_items 3))
      context true by_two 0

collect_returns_pages_example :
    Collected binding offset_limit items client default_options
      (new_caps (take_items 3))
      context
      0
      (10 ∷ 11 ∷ 12 ∷ [])
      (last_of (run (take_items 3)))
unfolding opened
collect_returns_pages_example =
    collect_returns_pages binding offset_limit items client default_options
      (new_caps (take_items 3)) context (λ page. refl) true by_two 0 (10 ∷ 11 ∷ 12 ∷ []) _ refl

advance_pages-offset_example :
    advance_pages Offset.advance 2 by_two ≡ ok (record { offset = 4; limit = 2 })
unfolding opened
advance_pages-offset_example =
    advance_pages-offset 2 by_two (omega arith) (omega arith) (omega arith)

abbrev last_page : PagedPagination
last_page = record { page = u64_max; per_page = 20 }

last_page_is_counted :
    advance_pages Paged.advance 1 last_page ≡ err (pagination advance_ctx overflow)
unfolding opened
last_page_is_counted = advance_pages-page 1 last_page (omega arith) (omega arith) (omega arith)
