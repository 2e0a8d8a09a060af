-- ===== src/Pagination/Loop/Views.antt =====
-- concord_core/src/request.rs: the ways in which a round of the collection loop can end.
use concord_api.Base.{ℕ, ◌≡◌, refl, ap, Option, List, Result, ok, err}
use concord_api.Error.{ErrorContext, ApiClientError}
use concord_api.Plan.{RequestPlan, RequestOptions}
use concord_api.Pagination.{PaginationCaps, EndpointPagination, PaginateBinding, PageItems}
use concord_api.Pagination.Collect.{PageClient, Run}
use concord_api.Pagination.Loop.{
  Next, finish, more, Round, done, again, prepare, absorb, settle, receive, send, round,
}
use concord_api.Pagination.Loop.Rounds.{Prepared, prepare-Prepared}

module _ {E P Page Item W : Type 0} (binding : PaginateBinding E P)
    (control : EndpointPagination P Page) (items : PageItems Page Item)
    (client : PageClient E Page W) (opts : RequestOptions) (caps : PaginationCaps)
    (ctx : ErrorContext) where
  abbrev R : Type 0
  R = Run E P Item W

  abbrev Readied : R → R → RequestPlan → Type 0
  Readied = Prepared binding control items client opts caps ctx

  -- A round sends no request, or one that fails, or one whose page is not accepted, ends the loop or
  -- lets it go on.
  pub data View (s : R) : Round R Item → Type 0 where
    unsent : (e : ApiClientError) → View s (done (err e) s)
    failed :
        (s' : R) (plan : RequestPlan) (w : W) (e : ApiClientError)
        → Readied s s' plan
        → (client.execute s'.world plan).1 ≡ w
        → View s (done (err e) (record s' { world = w }))
    finished :
        (s' : R) (plan : RequestPlan) (w : W) (page : Page) (expected : Option ℕ) (out : List Item)
        → Readied s s' plan
        → client.execute s'.world plan ≡ (ok page, w)
        → absorb binding control items client opts caps ctx (record s' { world = w }) page expected
          ≡ ok (finish out)
        → View s (done (ok out) (record s' { world = w }))
    continued :
        (s' : R) (plan : RequestPlan) (w : W) (page : Page) (expected : Option ℕ) (s'' : R)
        → Readied s s' plan
        → client.execute s'.world plan ≡ (ok page, w)
        → absorb binding control items client opts caps ctx (record s' { world = w }) page expected
          ≡ ok (more s'')
        → View s (again s'')

  settle-View :
      (s s' : R) (plan : RequestPlan) (w : W) (page : Page) (expected : Option ℕ)
      (r : Result ApiClientError (Next R Item))
      → Readied s s' plan
      → client.execute s'.world plan ≡ (ok page, w)
      → absorb binding control items client opts caps ctx (record s' { world = w }) page expected
        ≡ r
      → View s (settle binding control items client opts caps ctx (record s' { world = w }) r)
  settle-View s s' plan w page expected (err e) p x a = failed s' plan w e p (ap (λ y. y.1) x)
  settle-View s s' plan w page expected (ok (finish out)) p x a =
      finished s' plan w page expected out p x a
  settle-View s s' plan w page expected (ok (more s'')) p x a =
      continued s' plan w page expected s'' p x a

  receive-View :
      (s s' : R) (plan : RequestPlan) (w : W) (expected : Option ℕ) (r : Result ApiClientError Page)
      → Readied s s' plan
      → client.execute s'.world plan ≡ (r, w)
      → View s
          (receive binding control items client opts caps ctx (record s' { world = w }) expected r)
  receive-View s s' plan w expected (err e) p x = failed s' plan w e p (ap (λ y. y.1) x)
  receive-View s s' plan w expected (ok page) p x = settle-View s s' plan w page expected _ p x refl

  send-View :
      (s : R) (r : Result ApiClientError (R × RequestPlan × Option ℕ))
      → prepare binding control items client opts caps ctx s ≡ r
      → View s (send binding control items client opts caps ctx s r)
  send-View s (err e) h = unsent e
  send-View s (ok (s', plan, expected)) h =
      let (page, w) = client.execute s'.world plan in
      receive-View s s' plan w expected page
        (prepare-Prepared binding control items client opts caps ctx s h) refl

  pub round-View : (s : R) → View s (round binding control items client opts caps ctx s)
  unfolding round
  round-View s = send-View s _ refl
