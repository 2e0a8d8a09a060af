-- ===== src/Pagination/Loop/Outcome.antt =====
-- concord_core/src/request.rs: what a paginated collection has sent and returns.
use mathlib.Core.Option.{some-injective}
use concord_api.Base.{
  ℕ, suc, ◌≤◌, ◌≡◌, refl, sym, ap, subst, ◌∙◌, Bool, false, Option, some, List, [], ◌∷◌, length,
  Result, ok, IsNodup, arith,
}
use concord_api.Error.{ErrorContext, ApiClientError}
use concord_api.Plan.{RequestPlan, RequestOptions}
use concord_api.Pagination.{
  PaginationTermination, hard_page_cap, hard_item_cap, take_pages, take_items, PaginationCaps,
  EndpointPagination, PaginateBinding, PageItems,
}
use concord_api.Pagination.Identity.{
  PaginationRequestIdentity, PaginationRequestIdentity-discrete, pagination_request_identity,
}
use concord_api.Pagination.Collect.{PageClient, Run, validate_collect_termination}
use concord_api.Pagination.Loop.{rounds, first_run, takes_nothing, collect}
use concord_api.Pagination.Loop.Rounds.{Within, absorb-Continued}
use concord_api.Pagination.Loop.Starts.{Start, refused, nothing, running, collect-Start}
use concord_api.Pagination.Loop.Induction.{Ready, rounds-total, rounds-ind}

-- What a cap on pages says of the number of requests.
abbrev pub SentWithin : PaginationTermination → ℕ → Type 0
SentWithin (hard_page_cap n) sent = sent ≤ n
SentWithin (take_pages n) sent = sent ≤ n
SentWithin (hard_item_cap n) sent = Unit
SentWithin (take_items n) sent = Unit

SentWithin-of_Within :
    (t : PaginationTermination) (page_index items_count sent : ℕ)
    → Within t page_index items_count
    → sent ≤ suc page_index
    → SentWithin t sent
SentWithin-of_Within (hard_page_cap n) page_index items_count sent h le = omega arith
SentWithin-of_Within (take_pages n) page_index items_count sent h le = omega arith
SentWithin-of_Within (hard_item_cap n) page_index items_count sent h le = tt
SentWithin-of_Within (take_items n) page_index items_count sent h le = tt

SentWithin-zero : (t : PaginationTermination) → SentWithin t 0
SentWithin-zero (hard_page_cap n) = omega arith
SentWithin-zero (take_pages n) = omega arith
SentWithin-zero (hard_item_cap n) = tt
SentWithin-zero (take_items n) = tt

module _ {E P Page Item W : Type 0} (binding : PaginateBinding E P)
    (control : EndpointPagination P Page) (items : PageItems Page Item)
    (client : PageClient E Page W) (opts : RequestOptions) (caps : PaginationCaps)
    (ctx : ErrorContext) where
  -- What holds of the requests that a world has recorded.
  abbrev pub SentOnce : List PaginationRequestIdentity → Type 0
  SentOnce log =
      IsNodup PaginationRequestIdentity-discrete log × SentWithin caps.termination (length log)

  -- A world that keeps the identities of the requests that were executed, the last one first.
  module _ (recorded : W → List PaginationRequestIdentity)
      (records : (w : W) (plan : RequestPlan)
        → recorded (client.execute w plan).1 ≡ pagination_request_identity plan ∷ recorded w) where
    -- What holds at the head of the loop.
    record Head (s : Run E P Item W) : Type 0 where
      logged : recorded s.world ≡ s.sent
      distinct : IsNodup PaginationRequestIdentity-discrete s.sent
      counted : length s.sent ≡ s.page_index
      within : Within caps.termination s.page_index s.items_count

    abbrev Sends : Run E P Item W → Type 0
    Sends t = SentOnce (recorded t.world)

    Head-Sends : (s : Run E P Item W) → Head s → Sends s
    Head-Sends s h = subst SentOnce (sym h.logged) (
      h.distinct,
      SentWithin-of_Within caps.termination s.page_index s.items_count (length s.sent) h.within
          (omega (arith, h.counted)),
    )

    -- An executed request is the one that was checked, and no other.
    executed_logs :
        (s s' : Run E P Item W) (plan : RequestPlan) (w : W)
        → Head s
        → Ready binding control items client opts caps ctx s s' plan
        → (client.execute s'.world plan).1 ≡ w
        → recorded w ≡ pagination_request_identity plan ∷ s.sent
    executed_logs s s' plan w h p x =
        ap recorded (sym x)
        ∙ (records s'.world plan
            ∙ ap (◌∷◌ (pagination_request_identity plan)) (ap recorded p.world ∙ h.logged))

    Ready-Sends :
        (s s' : Run E P Item W) (plan : RequestPlan) (w : W)
        → Head s
        → Ready binding control items client opts caps ctx s s' plan
        → (client.execute s'.world plan).1 ≡ w
        → Sends (record s' { world = w })
    Ready-Sends s s' plan w h p x = subst SentOnce (sym (executed_logs s s' plan w h p x)) (
      (p.fresh, h.distinct),
      SentWithin-of_Within caps.termination s.page_index s.items_count _ h.within
          (omega (arith, h.counted)),
    )

    rounds-Sends :
        (fuel : ℕ) (s : Run E P Item W) (r : Result ApiClientError (List Item)) (t : Run E P Item W)
        → rounds binding control items client opts caps ctx fuel s ≡ some (r, t)
        → Head s
        → Sends t
    rounds-Sends fuel s r t e =
        rounds-ind binding control items client opts caps ctx (λ s r t. Head s → Sends t)
          (λ s e h. Head-Sends s h) (λ s s' plan w e p x h. Ready-Sends s s' plan w h p x)
          (λ s s' plan w page expected out p x a h. Ready-Sends s s' plan w h p (ap (λ y. y.1) x))
          (λ s s' plan w page expected s'' r t p x a rec h.
            let c = absorb-Continued binding control items client opts caps ctx _ page expected a in
            let sent = c.sent ∙ p.sent in
            rec (record {
              logged =
                  ap recorded c.world
                  ∙ (executed_logs s s' plan w h p (ap (λ y. y.1) x) ∙ sym sent);
              distinct =
                  subst (IsNodup PaginationRequestIdentity-discrete) (sym sent)
                    (p.fresh, h.distinct);
              counted = omega (arith, ap length sent, h.counted, c.index, p.index);
              within = c.pages;
            }))
          fuel s r t e

    first-Head :
        (endpoint : E) (runtime : Option P) (world : W)
        → recorded world ≡ []
        → validate_collect_termination caps.termination ctx ≡ ok tt
        → takes_nothing binding control items client opts caps ctx caps.termination ≡ false
        → Head (first_run binding control items client opts caps ctx endpoint runtime world)
    unfolding validate_collect_termination
    first-Head endpoint runtime world none_yet valid positive = record {
      logged = none_yet;
      distinct = tt;
      counted = refl;
      within = ground arith;
    }

    unsent-Sends : (world : W) → recorded world ≡ [] → SentOnce (recorded world)
    unsent-Sends world none_yet =
        subst SentOnce (sym none_yet) (tt, SentWithin-zero caps.termination)

    pub Start-Sends :
        (endpoint : E) (world : W) (o : Option (Result ApiClientError (List Item) × Run E P Item W))
        (r : Result ApiClientError (List Item)) (t : Run E P Item W)
        → recorded world ≡ []
        → Start binding control items client opts caps ctx endpoint world o
        → o ≡ some (r, t)
        → Sends t
    Start-Sends endpoint world _ r t none_yet (refused e) h =
        subst (λ x. Sends x.1) (some-injective _ _ h) (unsent-Sends world none_yet)
    Start-Sends endpoint world _ r t none_yet (nothing z) h =
        subst (λ x. Sends x.1) (some-injective _ _ h) (unsent-Sends world none_yet)
    Start-Sends endpoint world _ r t none_yet (running runtime valid positive) h =
        rounds-Sends _ _ r t h (first-Head endpoint (some runtime) world none_yet valid positive)

  Start-total :
      (endpoint : E) (world : W) (o : Option (Result ApiClientError (List Item) × Run E P Item W))
      → Start binding control items client opts caps ctx endpoint world o
      → (x : Result ApiClientError (List Item) × Run E P Item W) × (o ≡ some x)
  Start-total endpoint world _ (refused e) = (_, refl)
  Start-total endpoint world _ (nothing z) = (_, refl)
  Start-total endpoint world _ (running runtime valid positive) =
      rounds-total binding control items client opts caps ctx _ _ (omega arith) (omega arith)

  -- A collection ends, with its items or an error, whatever the endpoint, the controller and the
  -- server do: the fuel of the model's loop never runs out.
  pub collect_total :
      (has_runtime : Bool) (endpoint : E) (world : W)
      → (x : Result ApiClientError (List Item) × Run E P Item W) × (collect binding control items
            client opts caps ctx has_runtime endpoint world
          ≡ some x)
  collect_total has_runtime endpoint world =
      Start-total endpoint world _
        (collect-Start binding control items client opts caps ctx has_runtime endpoint world)

-- A client over a world with a log: every call of `execute` adds the identity of its request.
abbrev pub recording :
    {E Page W : Type 0}
    → PageClient E Page W
    → PageClient E Page (W × List PaginationRequestIdentity)
recording client = record {
  plan = client.plan;
  execute = λ w plan.
      let (page, after) = client.execute w.0 plan in
      (page, (after, pagination_request_identity plan ∷ w.1));
}

module _ {E P Page Item W : Type 0} (binding : PaginateBinding E P)
    (control : EndpointPagination P Page) (items : PageItems Page Item)
    (client : PageClient E Page W) (opts : RequestOptions) (caps : PaginationCaps)
    (ctx : ErrorContext) where
  -- Whatever the endpoint, the controller and the server do, and however a collection ends: the log that
  -- every call of `execute` writes has no request twice, and under a cap of `n` pages it has at most `n`
  -- requests.
  pub collect_sends_within_cap :
      (has_runtime : Bool) (endpoint : E) (world : W) (r : Result ApiClientError (List Item))
      (t : Run E P Item (W × List PaginationRequestIdentity))
      → collect binding control items
          (recording client)
          opts
          caps
          ctx
          has_runtime
          endpoint
          (world, [])
        ≡ some (r, t)
      → IsNodup PaginationRequestIdentity-discrete t.world.1
        × SentWithin caps.termination (length t.world.1)
  collect_sends_within_cap has_runtime endpoint world r t h =
      Start-Sends binding control items (recording client) opts caps ctx (λ w. w.1) (λ w plan. refl)
        endpoint (world, []) _ r t refl
        (collect-Start binding control items (recording client) opts caps ctx has_runtime endpoint
          (world, []))
        h
