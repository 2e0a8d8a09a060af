-- ===== src/Pagination/Loop/Items.antt =====
-- concord_core/src/request.rs: the items that a collection returns.
use mathlib.Core.List.{append_assoc, append-nil}
use mathlib.Core.Option.{some-injective}
use concord_api.Base.{
  ℕ, zero, suc, ◌+◌, ◌-◌, ◌≤◌, ◌≡◌, refl, sym, ap, subst, ◌∙◌, Bool, Option, none, some, List, [],
  ◌∷◌, ◌++◌, take, length, length-append, Result, ok, err, arith,
}
use concord_api.Error.{ErrorContext, ApiClientError}
use concord_api.Plan.{RequestPlan, RequestOptions}
use concord_api.Pagination.{
  PaginationTermination, hard_page_cap, hard_item_cap, take_pages, take_items, PaginationCaps,
  EndpointPagination, PaginateBinding, PageItems,
}
use concord_api.Pagination.Collect.{PageClient, Run}
use concord_api.Pagination.Loop.{finish, rounds, first_run, collect}
use concord_api.Pagination.Loop.Rounds.{
  Within, UnderCap, Room, kept, kept_all, Continued, absorb-Continued, absorb-finish,
  absorb-UnderCap,
}
use concord_api.Pagination.Loop.Induction.{Runs, Ready, absorbed, rounds-ind}
use concord_api.Pagination.Loop.Starts.{Start, refused, nothing, running, collect-Start}

take-append :
    {A : Type 0} (xs ys : List A) (n : ℕ)
    → length xs ≤ n
    → take n (xs ++ ys) ≡ xs ++ take (n - length xs) ys
take-append [] ys n h = ap (λ k. take k ys) (omega arith)
take-append (x ∷ xs) ys zero h = absurd (omega arith)
take-append (x ∷ xs) ys (suc n) h =
    ap (◌∷◌ x) (take-append xs ys n (omega arith) ∙ ap (λ k. xs ++ take k ys) (omega arith))

Room-zero : (t : PaginationTermination) (count : ℕ) → Room t count 0
Room-zero (take_items n) count = omega arith
Room-zero (hard_page_cap n) count = tt
Room-zero (take_pages n) count = tt
Room-zero (hard_item_cap n) count = tt

kept-append :
    {A : Type 0} (t : PaginationTermination) (page_index count : ℕ) (xs ys : List A)
    → Within t page_index (count + length xs)
    → kept t count (xs ++ ys) ≡ xs ++ kept t (count + length xs) ys
kept-append (take_items n) page_index count xs ys h =
    take-append xs ys (n - count) (omega arith) ∙ ap (λ k. xs ++ take k ys) (omega arith)
kept-append (hard_page_cap n) page_index count xs ys h = refl
kept-append (take_pages n) page_index count xs ys h = refl
kept-append (hard_item_cap n) page_index count xs ys h = refl

UnderCap-zero : (t : PaginationTermination) → UnderCap t 0
UnderCap-zero (hard_item_cap n) = omega arith
UnderCap-zero (take_items n) = tt
UnderCap-zero (hard_page_cap n) = tt
UnderCap-zero (take_pages n) = tt

module _ {E P Page Item W : Type 0} (binding : PaginateBinding E P)
    (control : EndpointPagination P Page) (items : PageItems Page Item)
    (client : PageClient E Page W) (opts : RequestOptions) (caps : PaginationCaps)
    (ctx : ErrorContext) where
  -- The pages that a chain of successful requests returned, first one first.
  pub data Fetched : W → List Page → W → Type 0 where
    fetched_none : (w : W) → Fetched w [] w
    fetched_page :
        (w w' w'' : W) (plan : RequestPlan) (page : Page) (pages : List Page)
        → client.execute w plan ≡ (ok page, w')
        → Fetched w' pages w''
        → Fetched w (page ∷ pages) w''

  abbrev pub all_items : List Page → List Item
  all_items [] = []
  all_items (page ∷ pages) = items.into_items page ++ all_items pages

  -- `out` adds to the items of `s` those of the pages fetched from `s` to `t`.
  pub record Gathered (s : Run E P Item W) (out : List Item) (t : Run E P Item W) : Type 0 where
    pub pages : List Page
    pub fetched : Fetched s.world pages t.world
    pub content : out ≡ s.out ++ kept caps.termination s.items_count (all_items pages)
    pub requests : length t.sent ≡ length s.sent + length pages
    pub under : UnderCap caps.termination (s.items_count + length (all_items pages))

  abbrev Gathers :
      Runs binding control items client opts caps ctx
      → Result ApiClientError (List Item)
      → Run E P Item W
      → Type 0
  Gathers s (ok out) t = Gathered s out t
  Gathers s (err e) t = Unit

  joined :
      {out out' : List Item} {count count' : ℕ} {xs xs' : List Item}
      → out ≡ out'
      → count ≡ count'
      → xs ≡ xs'
      → out ++ kept caps.termination count xs ≡ out' ++ kept caps.termination count' xs'
  joined o c x = λ i. o i ++ kept caps.termination (c i) (x i)

  pub record Collected (world : W) (out : List Item) (t : Run E P Item W) : Type 0 where
    pub pages : List Page
    pub fetched : Fetched world pages t.world
    pub content : out ≡ kept caps.termination 0 (all_items pages)
    pub requests : length t.sent ≡ length pages
    pub under : UnderCap caps.termination (length (all_items pages))

  collected :
      (s : Run E P Item W) (out : List Item) (t : Run E P Item W)
      → s.out ≡ []
      → s.items_count ≡ 0
      → s.sent ≡ []
      → Gathered s out t
      → Collected s.world out t
  collected s out t o c n g = record {
    pages = g.pages;
    fetched = g.fetched;
    content = g.content ∙ joined o c refl;
    requests = omega (arith, g.requests, ap length n);
    under = subst (UnderCap caps.termination) (omega (arith, c)) g.under;
  }

  gathers_nothing : (s : Run E P Item W) → s.out ≡ [] → s.items_count ≡ 0 → Gathered s [] s
  gathers_nothing s o c = record {
    pages = [];
    fetched = fetched_none s.world;
    content = sym (joined o c refl ∙ kept_all caps.termination 0 [] (Room-zero caps.termination 0));
    requests = omega arith;
    under = subst (UnderCap caps.termination) (omega (arith, c)) (UnderCap-zero caps.termination);
  }

  module _ (exact : (page : Page) → items.item_count page ≡ length (items.into_items page)) where
    one_page :
        (s s' : Run E P Item W) (plan : RequestPlan) (w : W) (page : Page) (expected : Option ℕ)
        (out : List Item)
        → Ready binding control items client opts caps ctx s s' plan
        → client.execute s'.world plan ≡ (ok page, w)
        → absorbed binding control items client opts caps ctx
            (record s' { world = w })
            page
            expected
          ≡ ok (finish out)
        → Gathered s out (record s' { world = w })
    one_page s s' plan w page expected out p x a = record {
      pages = page ∷ [];
      fetched =
          fetched_page s.world w w plan page []
            (subst (λ v. client.execute v plan ≡ (ok page, w)) p.world x) (fetched_none w);
      content =
          absorb-finish binding control items client opts caps ctx _ page expected (exact page) a
          ∙ joined p.out p.count (sym (append-nil (items.into_items page)));
      requests = omega (arith, ap length p.sent);
      under =
          subst (UnderCap caps.termination)
            (omega (arith, p.count, exact page, ap length (append-nil (items.into_items page))))
            (absorb-UnderCap binding control items client opts caps ctx _ page expected a);
    }

    before_page :
        (s s' : Run E P Item W) (plan : RequestPlan) (w : W) (page : Page) (s'' : Run E P Item W)
        (out : List Item) (t : Run E P Item W)
        → Ready binding control items client opts caps ctx s s' plan
        → client.execute s'.world plan ≡ (ok page, w)
        → Continued binding control items client opts caps ctx (record s' { world = w }) s'' page
        → Gathered s'' out t
        → Gathered s out t
    before_page s s' plan w page s'' out t p x c g =
        let count : (s''.items_count ≡ s.items_count + length (items.into_items page)) =
          omega (arith, c.count, p.count, exact page) in
        record {
          pages = page ∷ g.pages;
          fetched =
              fetched_page s.world w t.world plan page g.pages
                (subst (λ v. client.execute v plan ≡ (ok page, w)) p.world x)
                (subst (λ v. Fetched v g.pages t.world) c.world g.fetched);
          content =
              g.content
              ∙ joined (c.out ∙ ap (λ o. o ++ items.into_items page) p.out) count refl
              ∙ append_assoc s.out (items.into_items page) _
              ∙ ap (λ k. s.out ++ k)
                  (sym (
                    kept-append caps.termination s''.page_index s.items_count
                      (items.into_items page) (all_items g.pages)
                      (subst (Within caps.termination s''.page_index) count c.pages)));
          requests = omega (arith, g.requests, ap length c.sent, ap length p.sent);
          under =
              subst (UnderCap caps.termination)
                (omega (arith, count, length-append (items.into_items page) (all_items g.pages)))
                g.under;
        }

    carried :
        (s s' : Run E P Item W) (plan : RequestPlan) (w : W) (page : Page) (s'' : Run E P Item W)
        (r : Result ApiClientError (List Item)) (t : Run E P Item W)
        → Ready binding control items client opts caps ctx s s' plan
        → client.execute s'.world plan ≡ (ok page, w)
        → Continued binding control items client opts caps ctx (record s' { world = w }) s'' page
        → Gathers s'' r t
        → Gathers s r t
    carried s s' plan w page s'' (ok out) t p x c g = before_page s s' plan w page s'' out t p x c g
    carried s s' plan w page s'' (err e) t p x c g = tt

    rounds-Gathers :
        (fuel : ℕ) (s : Run E P Item W) (r : Result ApiClientError (List Item)) (t : Run E P Item W)
        → rounds binding control items client opts caps ctx fuel s ≡ some (r, t)
        → Gathers s r t
    rounds-Gathers fuel s r t e =
        rounds-ind binding control items client opts caps ctx Gathers (λ s e. tt)
          (λ s s' plan w e p x. tt) one_page
          (λ s s' plan w page expected s'' r t p x a.
            carried s s' plan w page s'' r t p x
              (absorb-Continued binding control items client opts caps ctx _ page expected a))
          fuel s r t e

    start-Collected :
        (endpoint : E) (world : W) (o : Option (Result ApiClientError (List Item) × Run E P Item W))
        (out : List Item) (t : Run E P Item W)
        → Start binding control items client opts caps ctx endpoint world o
        → o ≡ some (ok out, t)
        → Collected world out t
    start-Collected endpoint world _ out t (refused e) h = cc
    start-Collected endpoint world _ out t (nothing z) h =
        let e = some-injective _ _ h in
        let none_yet = first_run binding control items client opts caps ctx endpoint none world in
        collected none_yet out t refl refl refl
          (subst (λ x. Gathers none_yet x.0 x.1) e (gathers_nothing none_yet refl refl))
    start-Collected endpoint world _ out t (running runtime valid positive) h =
        collected
          (first_run binding control items client opts caps ctx endpoint (some runtime) world) out t
          refl refl refl (rounds-Gathers _ _ (ok out) t h)

    -- What a collection returns, where `item_count` counts the items of a page: the items of the
    -- pages that successive requests returned, in order and cut off at the limit on the items to
    -- take. There was one request for each page, and their items are within a hard cap.
    pub collect_returns_pages :
        (has_runtime : Bool) (endpoint : E) (world : W) (out : List Item) (t : Run E P Item W)
        → collect binding control items client opts caps ctx has_runtime endpoint world
          ≡ some (ok out, t)
        → Collected world out t
    collect_returns_pages has_runtime endpoint world out t h =
        start-Collected endpoint world _ out t
          (collect-Start binding control items client opts caps ctx has_runtime endpoint world) h
