-- ===== src/Pagination/Cursor.antt =====
-- concord_core/src/pagination/cursor.rs, for cursors that are texts: the only ones with a controller.
use mathlib.Core.Option
use concord_api.Base.{
  ℕ, Bool, true, false, not, ◌&&◌, String, Option, none, ◌==◌, if◌then◌else◌, is_some, Result, ok,
  ◌>>◌,
}
use concord_api.Error.{ApiClientError}
use concord_api.Pagination.{ProgressKey, PageDecision, PageApply, EndpointPagination}
use concord_api.Pagination.Validate.{validate_page_size, advance_ctx, expected_of}

pub record CursorPagination : Type 0 where
  pub cursor : Option String
  pub per_page : ℕ
  pub send_cursor_on_first : Bool
  pub stop_when_cursor_missing : Bool

abbrev pub default_cursor : CursorPagination
default_cursor = record {
  cursor = none;
  per_page = 20;
  send_cursor_on_first = false;
  stop_when_cursor_missing = true;
}

unfoldable pub apply : CursorPagination → PageApply → Result ApiClientError CursorPagination
unfolding validate_page_size
apply p ctx = do
  validate_page_size p.per_page ctx.ctx
  ok (if ctx.page_index == 0 && not p.send_cursor_on_first then record p { cursor = none } else p)

-- `next_cursor` is what `HasNextCursor` says of the page.
unfoldable pub advance :
    CursorPagination → Option String → Result ApiClientError (PageDecision × CursorPagination)
unfolding validate_page_size
advance p next_cursor = do
  validate_page_size p.per_page advance_ctx
  let p' = record p { cursor = next_cursor }
  ok (
    if not (is_some p'.cursor) && p'.stop_when_cursor_missing
        then PageDecision.stop
        else PageDecision.continue,
    p',
  )

abbrev pub cursor_pagination :
    {Page : Type 0} → (Page → Option String) → EndpointPagination CursorPagination Page
cursor_pagination next_cursor = record {
  apply = apply;
  expected_items_per_page = λ p. expected_of p.per_page;
  advance = λ p page _. advance p (next_cursor page);
  progress_key = λ p. Option.map ProgressKey.text p.cursor;
}
