-- ===== src/Pagination/Offset.antt =====
-- concord_core/src/pagination/offset_limit.rs.
use concord_api.Base.{ℕ, some, Result, ok, ok_or, ◌>>=◌, ◌>>◌, checked_add, u64_max}
use concord_api.Error.{ApiClientError, pagination, overflow}
use concord_api.Pagination.{ProgressKey, PageDecision, PageApply, EndpointPagination}
use concord_api.Pagination.Validate.{validate_page_size, advance_ctx, expected_of}

pub record OffsetLimitPagination : Type 0 where
  pub offset : ℕ
  pub limit : ℕ

abbrev pub default_offset_limit : OffsetLimitPagination
default_offset_limit = record { offset = 0; limit = 20 }

unfoldable pub apply :
    OffsetLimitPagination → PageApply → Result ApiClientError OffsetLimitPagination
unfolding validate_page_size
apply p ctx = do validate_page_size p.limit ctx.ctx; ok p

unfoldable pub advance :
    OffsetLimitPagination → Result ApiClientError (PageDecision × OffsetLimitPagination)
unfolding validate_page_size
advance p = do
  validate_page_size p.limit advance_ctx
  offset ← ok_or (checked_add u64_max p.offset p.limit) (pagination advance_ctx overflow)
  ok (PageDecision.continue, record p { offset = offset })

abbrev pub offset_limit : {Page : Type 0} → EndpointPagination OffsetLimitPagination Page
offset_limit = record {
  apply = apply;
  expected_items_per_page = λ p. expected_of p.limit;
  advance = λ p _ _. advance p;
  progress_key = λ p. some (ProgressKey.number p.offset);
}
