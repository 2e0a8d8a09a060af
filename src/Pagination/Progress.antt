-- ===== src/Pagination/Progress.antt =====
-- concord_core/src/pagination/offset_limit.rs and paged.rs: where a controller stands after a number of
-- pages.
use native.Mathlib.Nat.{suc-mul}
use concord_api.Base.{
  ℕ, zero, suc, ◌+◌, ◌*◌, ◌≤◌, ◌≡◌, leb, if◌then◌else◌, Result, ok, err, ◌>>=◌, u64_max, arith,
  Bool-cases, inl, inr,
}
use concord_api.Error.{ApiClientError, pagination, overflow}
use concord_api.Pagination.{PageDecision}
use concord_api.Pagination.Validate.{validate_page_size, advance_ctx}
use concord_api.Pagination.Offset
use concord_api.Pagination.Offset.{OffsetLimitPagination}
use concord_api.Pagination.Paged
use concord_api.Pagination.Paged.{PagedPagination}

-- A controller that is advanced over a number of pages.
abbrev pub advance_pages :
    {P : Type 0} → (P → Result ApiClientError (PageDecision × P)) → ℕ → P → Result ApiClientError P
advance_pages advance zero p = ok p
advance_pages advance (suc n) p = advance p >>= (λ r. advance_pages advance n r.1)

-- After `n` pages of a valid size the offset has grown by `n` times the size, where that fits 64 bits;
-- else some page has failed with an overflow, and no offset has wrapped around.
pub advance_pages-offset :
    (n : ℕ) (p : OffsetLimitPagination)
    → 1 ≤ p.limit
    → p.limit ≤ u64_max
    → p.offset ≤ u64_max
    → advance_pages Offset.advance n p ≡ (
        if leb (p.offset + n * p.limit) u64_max
        then ok (record p { offset = p.offset + n * p.limit })
        else err (pagination advance_ctx overflow))
unfolding Offset.advance validate_page_size
advance_pages-offset zero p pos fits inside = ground arith
advance_pages-offset (suc n) p pos fits inside =
    elim (Bool-cases (leb (p.offset + p.limit) u64_max)) [
      | inl e ↦
          let rest =
            advance_pages-offset n (record p { offset = p.offset + p.limit }) pos fits
              (ground arith) in
          ground (arith, suc-mul n p.limit)
      | inr e ↦ ground (arith, suc-mul n p.limit)
    ]

-- After `n` pages of a valid size the page number has grown by `n`, where that fits 64 bits; else some
-- page has failed with an overflow.
pub advance_pages-page :
    (n : ℕ) (p : PagedPagination)
    → 1 ≤ p.per_page
    → p.per_page ≤ u64_max
    → p.page ≤ u64_max
    → advance_pages Paged.advance n p ≡ (
        if leb (p.page + n) u64_max
        then ok (record p { page = p.page + n })
        else err (pagination advance_ctx overflow))
unfolding Paged.advance validate_page_size
advance_pages-page zero p pos fits inside = ground arith
advance_pages-page (suc n) p pos fits inside = elim (Bool-cases (leb (p.page + 1) u64_max)) [
  | inl e ↦
      let rest = advance_pages-page n (record p { page = p.page + 1 }) pos fits (ground arith) in
      ground arith
  | inr e ↦ ground arith
]
