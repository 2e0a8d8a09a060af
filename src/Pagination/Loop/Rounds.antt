-- ===== src/Pagination/Loop/Rounds.antt =====
-- concord_core/src/request.rs: what one round of the collection loop changes.
use mathlib.Core.List.{append-nil}
use concord_api.Base.{
  zero, ap, ℕ, suc, ◌+◌, ◌-◌, ◌≤◌, ◌<◌, ◌≡◌, refl, false, Option, List, [], ◌∷◌, ◌++◌, take, length,
  ok, u32_max, contains, arith,
}
use concord_api.Error.{ErrorContext}
use concord_api.Plan.{RequestPlan, RequestOptions}
use concord_api.Pagination.{
  PaginationTermination, hard_page_cap, hard_item_cap, take_pages, take_items, PaginationCaps,
  EndpointPagination, PaginateBinding, PageItems,
}
use concord_api.Pagination.Identity.{
  PaginationRequestIdentity-discrete, pagination_request_identity,
}
use concord_api.Pagination.Collect.{pre_advance_decision, ensure_progress, PageClient, Run}
use concord_api.Pagination.Loop.{
  finish, more, take_page, next_page, prepare, decide, take_over, absorb,
}

take_all : {A : Type 0} (xs : List A) (n : ℕ) → length xs ≤ n → take n xs ≡ xs
take_all [] zero h = refl
take_all [] (suc n) h = refl
take_all (x ∷ xs) zero h = elim h [ ]
take_all (x ∷ xs) (suc n) h = ap (◌∷◌ x) (take_all xs n (omega arith))

nil_of_length : {A : Type 0} (xs : List A) → length xs ≡ 0 → xs ≡ []
nil_of_length [] h = refl
nil_of_length (x ∷ xs) h = absurd (omega arith)

-- There is room for `more` items beyond `count`.
abbrev pub Room : PaginationTermination → ℕ → ℕ → Type 0
Room (take_items n) count extra = extra ≤ n - count
Room (hard_page_cap n) count extra = Unit
Room (take_pages n) count extra = Unit
Room (hard_item_cap n) count extra = Unit

-- What is kept of the items that come after the first `items_count`.
abbrev pub kept : {Item : Type 0} → PaginationTermination → ℕ → List Item → List Item
kept (take_items n) items_count xs = take (n - items_count) xs
kept (hard_page_cap n) items_count xs = xs
kept (take_pages n) items_count xs = xs
kept (hard_item_cap n) items_count xs = xs

pub kept_all :
    {Item : Type 0} (t : PaginationTermination) (count : ℕ) (xs : List Item)
    → Room t count (length xs)
    → kept t count xs ≡ xs
kept_all (take_items n) count xs h = take_all xs (n - count) h
kept_all (hard_page_cap n) count xs h = refl
kept_all (take_pages n) count xs h = refl
kept_all (hard_item_cap n) count xs h = refl

-- The cap whose excess is an error.
abbrev pub UnderCap : PaginationTermination → ℕ → Type 0
UnderCap (hard_item_cap n) total = total ≤ n
UnderCap (take_items n) total = Unit
UnderCap (hard_page_cap n) total = Unit
UnderCap (take_pages n) total = Unit

-- The caps that hold at the head of each round.
abbrev pub Within : PaginationTermination → ℕ → ℕ → Type 0
Within (hard_page_cap n) page_index items_count = page_index < n
Within (take_pages n) page_index items_count = page_index < n
Within (hard_item_cap n) page_index items_count = items_count ≤ n
Within (take_items n) page_index items_count = items_count < n

module _ {E P Page Item W : Type 0} (binding : PaginateBinding E P)
    (control : EndpointPagination P Page) (items : PageItems Page Item)
    (client : PageClient E Page W) (opts : RequestOptions) (caps : PaginationCaps)
    (ctx : ErrorContext) where
  pub record Prepared (s s' : Run E P Item W) (plan : RequestPlan) : Type 0 where
    pub index : s'.page_index ≡ s.page_index
    pub count : s'.items_count ≡ s.items_count
    pub out : s'.out ≡ s.out
    pub world : s'.world ≡ s.world
    pub fresh :
        contains PaginationRequestIdentity-discrete s.sent (pagination_request_identity plan)
        ≡ false
    pub sent : s'.sent ≡ pagination_request_identity plan ∷ s.sent

  pub prepare-Prepared :
      (s : Run E P Item W) {s' : Run E P Item W} {plan : RequestPlan} {expected : Option ℕ}
      → prepare binding control items client opts caps ctx s ≡ ok (s', plan, expected)
      → Prepared s s' plan
  unfolding prepare ensure_progress
  prepare-Prepared s h = ground arith

  -- What the loop's variables are after a page that does not end the collection.
  pub record Continued (s s' : Run E P Item W) (page : Page) : Type 0 where
    pub index : s'.page_index ≡ s.page_index + 1
    pub index_fits : s'.page_index ≤ u32_max
    pub sent : s'.sent ≡ s.sent
    pub world : s'.world ≡ s.world
    pub count : s'.items_count ≡ s.items_count + items.item_count page
    pub out : s'.out ≡ s.out ++ items.into_items page
    pub pages : Within caps.termination s'.page_index s'.items_count

  pub absorb-Continued :
      (s : Run E P Item W) (page : Page) (expected : Option ℕ) {s' : Run E P Item W}
      → absorb binding control items client opts caps ctx s page expected ≡ ok (more s')
      → Continued s s' page
  unfolding absorb decide take_over take_page next_page pre_advance_decision
  absorb-Continued s page expected h = ground arith

  -- A page that ends the collection, where its `item_count` is exact.
  pub absorb-finish :
      (s : Run E P Item W) (page : Page) (expected : Option ℕ) {out : List Item}
      → items.item_count page ≡ length (items.into_items page)
      → absorb binding control items client opts caps ctx s page expected ≡ ok (finish out)
      → out ≡ s.out ++ kept caps.termination s.items_count (items.into_items page)
  unfolding absorb decide take_over take_page next_page pre_advance_decision
  absorb-finish s page expected exact h = ground (
    arith,
    kept_all caps.termination s.items_count (items.into_items page),
    append-nil s.out,
    nil_of_length (items.into_items page),
  )

  pub absorb-UnderCap :
      (s : Run E P Item W) (page : Page) (expected : Option ℕ) {out : List Item}
      → absorb binding control items client opts caps ctx s page expected ≡ ok (finish out)
      → UnderCap caps.termination (s.items_count + items.item_count page)
  unfolding absorb decide take_over take_page next_page pre_advance_decision
  absorb-UnderCap s page expected h = ground arith
