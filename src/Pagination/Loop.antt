-- ===== src/Pagination/Loop.antt =====
-- concord_core/src/request.rs: `collect_with_pagination_runtime` and `PaginatedRequest::collect`.
pub mod Rounds
pub mod Views
pub mod Induction
pub mod Starts
pub mod Outcome
pub mod Items
use concord_api.Base.{
  ℕ, zero, suc, ◌+◌, ◌-◌, Bool, true, false, ◌||◌, Option, none, some, List, [], ◌∷◌, ◌++◌, take,
  ◌==◌, ltb, leb, if◌then◌else◌, is_some, Result, ok, err, ok_or, ◌>>=◌, ◌>>◌, checked_add, u32_max,
  u64_max,
}
use concord_api.Error.{
  ErrorContext, ApiClientError, pagination, pagination_limit, overflow, page_limit_exceeded,
  item_limit_exceeded, unsupported_pagination,
}
use concord_api.Plan.{RequestPlan, RequestOptions, apply_to}
use concord_api.Pagination.{
  PaginationTermination, hard_page_cap, hard_item_cap, take_pages, take_items, PaginationCaps,
  Control, to_control, ProgressKey, PageApply, PageAdvance, EndpointPagination, PaginateBinding,
  PageItems,
}
use concord_api.Pagination.Adapter
use concord_api.Pagination.Identity.{PaginationRequestIdentity, pagination_request_identity}
use concord_api.Pagination.Collect.{
  validate_collect_termination, PreAdvanceDecision, common_content_stop, pre_advance_decision,
  ensure_progress, note_progress, PageClient, Run,
}

-- A round of the loop returns the items, or goes on.
pub data Next (R : Type 0) (Item : Type 0) : Type 0 where
  finish : List Item → Next R Item
  more : R → Next R Item

-- How a whole round ends: the loop returns, in a state, or goes on from one.
pub data Round (R : Type 0) (Item : Type 0) : Type 0 where
  done : Result ApiClientError (List Item) → R → Round R Item
  again : R → Round R Item

-- `usize::checked_sub`.
abbrev pub checked_sub : ℕ → ℕ → Option ℕ
checked_sub a b = if leb b a then some (a - b) else none

module _ {E P Item W : Type 0} (ctx : ErrorContext) where
  add_items : Run E P Item W → ℕ → List Item → Result ApiClientError (Run E P Item W)
  add_items s page_len items = do
    total ← ok_or (checked_add u64_max s.items_count page_len) (pagination ctx overflow)
    ok (record s { items_count = total; out = s.out ++ items })

  -- The `match` on the termination after a page; `true` is its early return.
  unfoldable pub take_page :
      PaginationTermination
      → Run E P Item W
      → ℕ
      → List Item
      → Result ApiClientError (Bool × Run E P Item W)
  unfolding add_items
  take_page (hard_item_cap n) s page_len items = do
    total ← ok_or (checked_add u64_max s.items_count page_len) (pagination ctx overflow)
    if ltb n total
        then err (pagination_limit ctx item_limit_exceeded)
        else ok (false, record s { items_count = total; out = s.out ++ items })
  take_page (take_items n) s page_len items = do
    remaining ← ok_or (checked_sub n s.items_count) (pagination ctx overflow)
    if leb remaining page_len
        then ok (true, record s { out = s.out ++ take remaining items })
        else (do s' ← add_items s page_len items; ok (false, s'))
  take_page (hard_page_cap n) s page_len items = do s' ← add_items s page_len items; ok (false, s')
  take_page (take_pages n) s page_len items = do s' ← add_items s page_len items; ok (false, s')

  next_index : Run E P Item W → Result ApiClientError (Next (Run E P Item W) Item)
  next_index s = do
    page_index ← ok_or (checked_add u32_max s.page_index 1) (pagination ctx overflow)
    ok (more (record s { page_index = page_index }))

  -- The `match` on the controller's decision at the end of a round.
  unfoldable pub next_page :
      PaginationTermination
      → Control
      → Run E P Item W
      → Result ApiClientError (Next (Run E P Item W) Item)
  unfolding next_index
  next_page termination Control.stop s = ok (finish s.out)
  next_page (hard_page_cap n) Control.continue s =
      if leb n (s.page_index + 1)
      then err (pagination_limit ctx page_limit_exceeded)
      else next_index s
  next_page (take_pages n) Control.continue s =
      if leb n (s.page_index + 1) then ok (finish s.out) else next_index s
  next_page (hard_item_cap n) Control.continue s = next_index s
  next_page (take_items n) Control.continue s = next_index s

module _ {E P Page Item W : Type 0} (binding : PaginateBinding E P)
    (control : EndpointPagination P Page) (items : PageItems Page Item)
    (client : PageClient E Page W) (opts : RequestOptions) (caps : PaginationCaps)
    (ctx : ErrorContext) where
  -- Up to the call of `execute`: the request's identity is recorded, and its plan returned with the
  -- number of items that the controller expects on a page.
  unfoldable pub prepare :
      Run E P Item W → Result ApiClientError (Run E P Item W × RequestPlan × Option ℕ)
  prepare s = do
    seen ← note_progress s.seen (Adapter.progress_key binding control s.runtime) ctx
    applied ←
        Adapter.apply binding control s.runtime s.endpoint
          (record { endpoint = ctx.endpoint; page_index = s.page_index; ctx = ctx })
    plan ← client.plan applied.1
    let plan' = apply_to opts plan s.page_index
    sent ← ensure_progress s.sent (pagination_request_identity plan') ctx
    ok (
      record s { endpoint = applied.1; runtime = applied.0; seen = seen; sent = sent },
      plan',
      Adapter.expected_items_per_page binding control applied.0,
    )

  -- The controller is asked only where the page does not end the collection.
  unfoldable pub decide :
      Run E P Item W
      → Page
      → ℕ
      → PreAdvanceDecision
      → Result ApiClientError (Control × Run E P Item W)
  decide s page page_len pre =
      if pre.common_stop || pre.take_items_done then ok (Control.stop, s) else do
        advanced ←
            Adapter.advance binding control s.runtime s.endpoint ctx page
              (record { endpoint = ctx.endpoint; page_index = s.page_index; item_count = page_len })
        ok (to_control advanced.0, record s { endpoint = advanced.2; runtime = advanced.1 })

  -- After the decision: the items are taken over, and the loop ends or goes on.
  unfoldable pub take_over :
      Control
      → Run E P Item W
      → Page
      → ℕ
      → Option ℕ
      → Result ApiClientError (Next (Run E P Item W) Item)
  take_over decision s page page_len expected = if page_len == 0 then ok (finish s.out) else do
    taken ← take_page ctx caps.termination s page_len (items.into_items page)
    if taken.0 || common_content_stop page_len expected
        then ok (finish taken.1.out)
        else next_page ctx caps.termination decision taken.1

  unfoldable pub absorb :
      Run E P Item W → Page → Option ℕ → Result ApiClientError (Next (Run E P Item W) Item)
  absorb s page expected = do
    let page_len = items.item_count page
    pre ← pre_advance_decision caps.termination s.items_count page_len expected ctx
    if is_some pre.hard_item_cap_exceeded
        then err (pagination_limit ctx item_limit_exceeded)
        else do
          decided ← decide s page page_len pre
          take_over decided.0 decided.1 page page_len expected

  abbrev settle :
      Run E P Item W
      → Result ApiClientError (Next (Run E P Item W) Item)
      → Round (Run E P Item W) Item
  settle s (err e) = done (err e) s
  settle s (ok (finish out)) = done (ok out) s
  settle s (ok (more s')) = again s'

  abbrev receive :
      Run E P Item W → Option ℕ → Result ApiClientError Page → Round (Run E P Item W) Item
  receive s expected (err e) = done (err e) s
  receive s expected (ok page) = settle s (absorb s page expected)

  abbrev send :
      Run E P Item W
      → Result ApiClientError (Run E P Item W × RequestPlan × Option ℕ)
      → Round (Run E P Item W) Item
  send s (err e) = done (err e) s
  send s (ok (s', plan, expected)) =
      let (page, world) = client.execute s'.world plan in
      receive (record s' { world = world }) expected page

  -- One round of the loop.
  unfoldable pub round : Run E P Item W → Round (Run E P Item W) Item
  round s = send s (prepare s)

  -- The loop, with fuel; `none` means that the fuel ran out.
  unfoldable pub rounds :
      ℕ → Run E P Item W → Option (Result ApiClientError (List Item) × Run E P Item W)
  rounds zero s = none
  rounds (suc fuel) s = elim (round s) [ done r s' ↦ some (r, s') | again s' ↦ rounds fuel s' ]

  abbrev pub first_run : E → Option P → W → Run E P Item W
  first_run endpoint runtime world = record {
    endpoint = endpoint;
    runtime = runtime;
    seen = if caps.detect_loops then some [] else none;
    sent = [];
    items_count = 0;
    page_index = 0;
    out = [];
    world = world;
  }

  -- A page index is a `u32`, so no run has more rounds than this.
  abbrev pub round_limit : ℕ
  round_limit = suc u32_max

  abbrev pub start_rounds :
      E
      → W
      → Result ApiClientError (Option P)
      → Option (Result ApiClientError (List Item) × Run E P Item W)
  start_rounds endpoint world (err e) = some (err e, first_run endpoint none world)
  start_rounds endpoint world (ok runtime) = rounds round_limit (first_run endpoint runtime world)

  -- `collect_with_pagination_runtime`.
  unfoldable pub collect_with_runtime :
      E → W → Option (Result ApiClientError (List Item) × Run E P Item W)
  collect_with_runtime endpoint world = start_rounds endpoint world (
      Adapter.init binding control none endpoint
        (record { endpoint = ctx.endpoint; page_index = 0; ctx = ctx }))

  abbrev pub takes_nothing : PaginationTermination → Bool
  takes_nothing (take_pages n) = n == 0
  takes_nothing (take_items n) = n == 0
  takes_nothing (hard_page_cap n) = false
  takes_nothing (hard_item_cap n) = false

  abbrev pub collect_valid :
      Bool
      → E
      → W
      → Result ApiClientError (Unit {0})
      → Option (Result ApiClientError (List Item) × Run E P Item W)
  collect_valid has_runtime endpoint world (err e) = some (err e, first_run endpoint none world)
  collect_valid has_runtime endpoint world (ok _) =
      if takes_nothing caps.termination
      then some (ok [], first_run endpoint none world)
      else if has_runtime
      then collect_with_runtime endpoint world
      else some (err (pagination ctx unsupported_pagination), first_run endpoint none world)

  -- `collect`, after the first plan has given the error context; `has_runtime` says whether the
  -- endpoint has a pagination runtime. Both errors of an endpoint without one are of one kind.
  unfoldable pub collect :
      Bool → E → W → Option (Result ApiClientError (List Item) × Run E P Item W)
  collect has_runtime endpoint world =
      collect_valid has_runtime endpoint world (validate_collect_termination caps.termination ctx)
