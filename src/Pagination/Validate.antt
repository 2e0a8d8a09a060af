-- ===== src/Pagination/Validate.antt =====
-- concord_core/src/pagination: the checks of page sizes that the three controllers share.
use concord_api.Base.{ℕ, Option, none, some, Result, ok_or, ◌>>=◌}
use concord_api.Error.{ErrorContext, ApiClientError, pagination, overflow, invalid_size}
use concord_api.Pagination.{to_usize, non_zero}

-- `validate_page_size`. The cursor controller's `validate_per_page` and the page-number controller's
-- `validate_paged_page_size` differ from it in the text of their messages alone.
unfoldable pub validate_page_size : ℕ → ErrorContext → Result ApiClientError ℕ
validate_page_size value ctx = do
  size ← ok_or (to_usize value) (pagination ctx overflow)
  ok_or (non_zero size) (pagination ctx invalid_size)

-- The context that the controllers make up in `advance`.
abbrev pub advance_ctx : ErrorContext
advance_ctx = record { endpoint = "pagination"; method = "GET" }

-- `expected_items_per_page`: the page size, where it fits and is not zero.
abbrev pub expected_of : ℕ → Option ℕ
expected_of size = elim (to_usize size) [ none ↦ none | some value ↦ non_zero value ]
