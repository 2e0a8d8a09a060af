-- ===== src/Pagination/Adapter.antt =====
-- concord_core/src/pagination.rs: `PaginationRuntimeAdapter`, which keeps a controller's state and
-- copies it to the endpoint after each step.
use concord_api.Base.{ℕ, Option, none, some, Result, ok, err, ok_or, ◌>>=◌}
use concord_api.Error.{
  ErrorContext, ApiClientError, pagination, runtime_already_initialized, runtime_not_initialized,
}
use concord_api.Pagination.{
  ProgressKey, PageDecision, PageApply, PageAdvance, EndpointPagination, PaginateBinding,
}

module _ {E P Page : Type 0} (binding : PaginateBinding E P)
    (control : EndpointPagination P Page) where
  unfoldable pub init : Option P → E → PageApply → Result ApiClientError (Option P)
  init (some p) endpoint ctx = err (pagination ctx.ctx runtime_already_initialized)
  init none endpoint ctx = ok (some (binding.load_pagination endpoint))

  unfoldable pub apply : Option P → E → PageApply → Result ApiClientError (Option P × E)
  apply runtime endpoint ctx = do
    p ← ok_or runtime (pagination ctx.ctx runtime_not_initialized)
    p' ← control.apply p ctx
    ok (some p', binding.store_pagination endpoint p')

  unfoldable pub advance :
      Option P
      → E
      → ErrorContext
      → Page
      → PageAdvance
      → Result ApiClientError (PageDecision × Option P × E)
  advance runtime endpoint err_ctx page page_ctx = do
    p ← ok_or runtime (pagination err_ctx runtime_not_initialized)
    decided ← control.advance p page page_ctx
    ok (decided.0, some decided.1, binding.store_pagination endpoint decided.1)

  abbrev pub progress_key : Option P → Option ProgressKey
  progress_key none = none
  progress_key (some p) = control.progress_key p

  abbrev pub expected_items_per_page : Option P → Option ℕ
  expected_items_per_page none = none
  expected_items_per_page (some p) = control.expected_items_per_page p
