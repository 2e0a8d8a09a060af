-- ===== src/Pagination/Paged.antt =====
-- concord_core/src/pagination/paged.rs.
use concord_api.Base.{
  ℕ, some, ◌==◌, if◌then◌else◌, Result, ok, err, ok_or, ◌>>=◌, ◌>>◌, checked_add, u64_max,
}
use concord_api.Error.{ErrorContext, ApiClientError, pagination, overflow, invalid_size}
use concord_api.Pagination.{ProgressKey, PageDecision, PageApply, EndpointPagination}
use concord_api.Pagination.Validate.{validate_page_size, advance_ctx, expected_of}

pub record PagedPagination : Type 0 where
  pub page : ℕ
  pub per_page : ℕ

abbrev pub default_paged : PagedPagination
default_paged = record { page = 1; per_page = 20 }

unfoldable pub validate_paged_page : ℕ → ErrorContext → Result ApiClientError (Unit {0})
validate_paged_page value ctx = if value == 0 then err (pagination ctx invalid_size) else ok tt

unfoldable pub apply : PagedPagination → PageApply → Result ApiClientError PagedPagination
unfolding validate_page_size validate_paged_page
apply p ctx = do validate_paged_page p.page ctx.ctx; validate_page_size p.per_page ctx.ctx; ok p

unfoldable pub advance : PagedPagination → Result ApiClientError (PageDecision × PagedPagination)
unfolding validate_page_size
advance p = do
  validate_page_size p.per_page advance_ctx
  page ← ok_or (checked_add u64_max p.page 1) (pagination advance_ctx overflow)
  ok (PageDecision.continue, record p { page = page })

abbrev pub paged : {Page : Type 0} → EndpointPagination PagedPagination Page
paged = record {
  apply = apply;
  expected_items_per_page = λ p. expected_of p.per_page;
  advance = λ p _ _. advance p;
  progress_key = λ p. some (ProgressKey.number p.page);
}
