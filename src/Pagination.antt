-- ===== src/Pagination.antt =====
-- concord_core/src/pagination.rs: the contracts between a paginated endpoint, its controller and the
-- loop that collects pages. `usize` has 64 bits.
pub mod Validate
pub mod Offset
pub mod Paged
pub mod Cursor
pub mod Adapter
pub mod Identity
pub mod Collect
pub mod Loop
pub mod Progress
mod Tests
use concord_api.Base.{
  ℕ, Bool, true, String, Option, none, some, List, ◌==◌, leb, if◌then◌else◌, Result, u64_max, arith,
  String-discrete, ℕ_discrete,
}
use concord_api.Error.{ErrorContext, ApiClientError}

pub data PaginationTermination : Type 0 where
  hard_page_cap hard_item_cap take_pages take_items : ℕ → PaginationTermination

pub record PaginationCaps : Type 0 where
  pub termination : PaginationTermination
  pub detect_loops : Bool

-- `PaginationCaps::new`.
abbrev pub new_caps : PaginationTermination → PaginationCaps
new_caps termination = record { termination = termination; detect_loops = true }

pub data Control : Type 0 where
  continue stop : Control

pub data ProgressKey : Type 0 where
  number : ℕ → ProgressKey
  text : String → ProgressKey
  bytes : List ℕ → ProgressKey

unfoldable pub ProgressKey-discrete : Discrete ProgressKey
unfolding String-discrete ℕ_discrete
ProgressKey-discrete = hlevel (String-discrete, ℕ_discrete)

pub data PageDecision : Type 0 where
  continue stop : PageDecision

-- `From<PageDecision> for Control`.
abbrev pub to_control : PageDecision → Control
to_control PageDecision.continue = Control.continue
to_control PageDecision.stop = Control.stop

pub record PageApply : Type 0 where
  pub endpoint : String
  pub page_index : ℕ
  pub ctx : ErrorContext

pub record PageAdvance : Type 0 where
  pub endpoint : String
  pub page_index : ℕ
  pub item_count : ℕ

-- `EndpointPagination`: a controller changes its state only where it succeeds.
pub record EndpointPagination (P : Type 0) (Page : Type 0) : Type 0 where
  pub apply : P → PageApply → Result ApiClientError P
  pub expected_items_per_page : P → Option ℕ
  pub advance : P → Page → PageAdvance → Result ApiClientError (PageDecision × P)
  pub progress_key : P → Option ProgressKey

pub record PaginateBinding (E : Type 0) (P : Type 0) : Type 0 where
  pub load_pagination : E → P
  pub store_pagination : E → P → E

pub record PageItems (Page : Type 0) (Item : Type 0) : Type 0 where
  pub item_count : Page → ℕ
  pub into_items : Page → List Item

-- `usize::try_from` of a `u64`.
abbrev pub to_usize : ℕ → Option ℕ
to_usize value = if leb value u64_max then some value else none

-- `NonZeroUsize::new`.
abbrev pub non_zero : ℕ → Option ℕ
non_zero value = if value == 0 then none else some value
