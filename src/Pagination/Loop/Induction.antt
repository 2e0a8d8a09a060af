-- ===== src/Pagination/Loop/Induction.antt =====
-- concord_core/src/request.rs: induction over the rounds of the collection loop, and its end.
use mathlib.Core.Option.{some-injective}
use concord_api.Base.{
  ℕ, zero, suc, ◌+◌, ◌<◌, ◌≤◌, ◌≡◌, refl, sym, subst, ◌∙◌, Option, some, List, Result, ok, err,
  u32_max, arith,
}
use concord_api.Error.{ErrorContext, ApiClientError}
use concord_api.Plan.{RequestPlan, RequestOptions}
use concord_api.Pagination.{PaginationCaps, EndpointPagination, PaginateBinding, PageItems}
use concord_api.Pagination.Collect.{PageClient, Run}
use concord_api.Pagination.Loop.{Next, finish, more, Round, done, again, absorb, round, rounds}
use concord_api.Pagination.Loop.Rounds.{Prepared, absorb-Continued}
use concord_api.Pagination.Loop.Views.{View, unsent, failed, finished, continued, round-View}

module _ {E P Page Item W : Type 0} (binding : PaginateBinding E P)
    (control : EndpointPagination P Page) (items : PageItems Page Item)
    (client : PageClient E Page W) (opts : RequestOptions) (caps : PaginationCaps)
    (ctx : ErrorContext) where
  abbrev pub Runs : Type 0
  Runs = Run E P Item W

  abbrev pub Ready : Runs → Runs → RequestPlan → Type 0
  Ready = Prepared binding control items client opts caps ctx

  abbrev pub absorbed : Runs → Page → Option ℕ → Result ApiClientError (Next Runs Item)
  absorbed = absorb binding control items client opts caps ctx

  abbrev after : ℕ → Round Runs Item → Option (Result ApiClientError (List Item) × Runs)
  after fuel (done r t) = some (r, t)
  after fuel (again t) = rounds binding control items client opts caps ctx fuel t

  rounds-after :
      (fuel : ℕ) (s : Runs)
      → rounds binding control items client opts caps ctx (suc fuel) s
        ≡ after fuel (round binding control items client opts caps ctx s)
  unfolding rounds
  rounds-after fuel s = ground arith

  -- Each round advances the page index, and the index fits 32 bits: the loop ends.
  after-total :
      (fuel : ℕ) (s : Runs) (r : Round Runs Item)
      → View binding control items client opts caps ctx s r
      → u32_max < fuel + suc s.page_index
      → ((t : Runs)
          → u32_max < fuel + t.page_index
          → t.page_index ≤ u32_max
          → (x : Result ApiClientError (List Item) × Runs) × (rounds binding control items client
                opts caps ctx fuel t
              ≡ some x))
      → (x : Result ApiClientError (List Item) × Runs) × (after fuel r ≡ some x)
  after-total fuel s _ (unsent e) h rec = (_, refl)
  after-total fuel s _ (failed s' plan w e p x) h rec = (_, refl)
  after-total fuel s _ (finished s' plan w page expected out p x a) h rec = (_, refl)
  after-total fuel s _ (continued s' plan w page expected s'' p x a) h rec =
      let c = absorb-Continued binding control items client opts caps ctx _ page expected a in
      rec s'' (omega (arith, p.index, c.index)) c.index_fits

  pub rounds-total :
      (fuel : ℕ) (s : Runs)
      → u32_max < fuel + s.page_index
      → s.page_index ≤ u32_max
      → (x : Result ApiClientError (List Item) × Runs) × (rounds binding control items client opts
            caps ctx fuel s
          ≡ some x)
  rounds-total zero s h fits = absurd (omega arith)
  rounds-total (suc fuel) s h fits =
      let (x, e) =
        after-total fuel s _ (round-View binding control items client opts caps ctx s) (omega arith)
          (rounds-total fuel) in
      (x, rounds-after fuel s ∙ e)

  -- What holds of each way to end, and is carried back over a round that goes on, holds of the loop.
  module _ (Q : Runs → Result ApiClientError (List Item) → Runs → Type 0)
      (stops : (s : Runs) (e : ApiClientError) → Q s (err e) s)
      (fails : (s s' : Runs) (plan : RequestPlan) (w : W) (e : ApiClientError)
        → Ready s s' plan
        → (client.execute s'.world plan).1 ≡ w
        → Q s (err e) (record s' { world = w }))
      (finishes : (s s' : Runs) (plan : RequestPlan) (w : W) (page : Page) (expected : Option ℕ)
          (out : List Item)
        → Ready s s' plan
        → client.execute s'.world plan ≡ (ok page, w)
        → absorbed (record s' { world = w }) page expected ≡ ok (finish out)
        → Q s (ok out) (record s' { world = w }))
      (goes_on : (s s' : Runs) (plan : RequestPlan) (w : W) (page : Page) (expected : Option ℕ)
          (s'' : Runs) (r : Result ApiClientError (List Item)) (t : Runs)
        → Ready s s' plan
        → client.execute s'.world plan ≡ (ok page, w)
        → absorbed (record s' { world = w }) page expected ≡ ok (more s'')
        → Q s'' r t
        → Q s r t) where
    after-ind :
        (fuel : ℕ) (s : Runs) (o : Round Runs Item) (r : Result ApiClientError (List Item))
        (t : Runs)
        → View binding control items client opts caps ctx s o
        → ((s'' : Runs)
            → rounds binding control items client opts caps ctx fuel s'' ≡ some (r, t)
            → Q s'' r t)
        → after fuel o ≡ some (r, t)
        → Q s r t
    after-ind fuel s _ r t (unsent e) rec h =
        subst (λ x. Q s x.0 x.1) (some-injective _ _ h) (stops s e)
    after-ind fuel s _ r t (failed s' plan w e p x) rec h =
        subst (λ x. Q s x.0 x.1) (some-injective _ _ h) (fails s s' plan w e p x)
    after-ind fuel s _ r t (finished s' plan w page expected out p x a) rec h =
        subst (λ x. Q s x.0 x.1) (some-injective _ _ h)
          (finishes s s' plan w page expected out p x a)
    after-ind fuel s _ r t (continued s' plan w page expected s'' p x a) rec h =
        goes_on s s' plan w page expected s'' r t p x a (rec s'' h)

    pub rounds-ind :
        (fuel : ℕ) (s : Runs) (r : Result ApiClientError (List Item)) (t : Runs)
        → rounds binding control items client opts caps ctx fuel s ≡ some (r, t)
        → Q s r t
    unfolding rounds
    rounds-ind zero s r t h = cc
    rounds-ind (suc fuel) s r t h =
        after-ind fuel s _ r t (round-View binding control items client opts caps ctx s)
          (λ s'' e. rounds-ind fuel s'' r t e) (sym (rounds-after fuel s) ∙ h)
