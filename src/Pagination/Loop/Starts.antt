-- ===== src/Pagination/Loop/Starts.antt =====
-- concord_core/src/request.rs: the ways in which a collection starts.
use concord_api.Base.{
  ◌≡◌, refl, Bool, true, false, Option, none, some, List, [], Result, ok, err, if◌then◌else◌,
}
use concord_api.Error.{ErrorContext, ApiClientError, pagination, unsupported_pagination}
use concord_api.Plan.{RequestOptions}
use concord_api.Pagination.{PaginationCaps, EndpointPagination, PaginateBinding, PageItems}
use concord_api.Pagination.Adapter
use concord_api.Pagination.Collect.{PageClient, Run, validate_collect_termination}
use concord_api.Pagination.Loop.{
  rounds, round_limit, first_run, takes_nothing, collect_with_runtime, collect_valid, collect,
}

module _ {E P Page Item W : Type 0} (binding : PaginateBinding E P)
    (control : EndpointPagination P Page) (items : PageItems Page Item)
    (client : PageClient E Page W) (opts : RequestOptions) (caps : PaginationCaps)
    (ctx : ErrorContext) where
  abbrev pub Ending : Type 0
  Ending = Option (Result ApiClientError (List Item) × Run E P Item W)

  abbrev IsValid : Type 0
  IsValid = validate_collect_termination caps.termination ctx ≡ ok tt

  abbrev none_to_take : Bool
  none_to_take = takes_nothing binding control items client opts caps ctx caps.termination

  -- A collection is refused, has nothing to take, or runs the loop.
  pub data Start (endpoint : E) (world : W) : Ending → Type 0 where
    refused :
        (e : ApiClientError)
        → Start endpoint world
            (some (err e, first_run binding control items client opts caps ctx endpoint none world))
    nothing :
        none_to_take ≡ true
        → Start endpoint world
            (some (ok [], first_run binding control items client opts caps ctx endpoint none world))
    running :
        (runtime : P)
        → IsValid
        → none_to_take ≡ false
        → Start endpoint world (
            rounds binding control items client opts caps ctx
              (round_limit binding control items client opts caps ctx)
              (first_run binding control items client opts caps ctx endpoint (some runtime) world))

  collect_with_runtime-Start :
      (endpoint : E) (world : W)
      → IsValid
      → none_to_take ≡ false
      → Start endpoint world
          (collect_with_runtime binding control items client opts caps ctx endpoint world)
  unfolding collect_with_runtime Adapter.init
  collect_with_runtime-Start endpoint world v p = running (binding.load_pagination endpoint) v p

  taking-Start :
      (has_runtime : Bool) (endpoint : E) (world : W) (b : Bool)
      → IsValid
      → none_to_take ≡ b
      → Start endpoint world (
          if b
          then some
              (ok [], first_run binding control items client opts caps ctx endpoint none world)
          else if has_runtime
          then collect_with_runtime binding control items client opts caps ctx endpoint world
          else some (
            err (pagination ctx unsupported_pagination),
            first_run binding control items client opts caps ctx endpoint none world,
          ))
  taking-Start has_runtime endpoint world true v p = nothing p
  taking-Start true endpoint world false v p = collect_with_runtime-Start endpoint world v p
  taking-Start false endpoint world false v p = refused (pagination ctx unsupported_pagination)

  IsValid-Start :
      (has_runtime : Bool) (endpoint : E) (world : W) (r : Result ApiClientError (Unit {0}))
      → validate_collect_termination caps.termination ctx ≡ r
      → Start endpoint world
          (collect_valid binding control items client opts caps ctx has_runtime endpoint world r)
  IsValid-Start has_runtime endpoint world (err e) h = refused e
  IsValid-Start has_runtime endpoint world (ok _) h =
      taking-Start has_runtime endpoint world none_to_take h refl

  pub collect-Start :
      (has_runtime : Bool) (endpoint : E) (world : W)
      → Start endpoint world
          (collect binding control items client opts caps ctx has_runtime endpoint world)
  unfolding collect
  collect-Start has_runtime endpoint world = IsValid-Start has_runtime endpoint world _ refl
