-- ===== src/Body/Tests.antt =====
-- concord_core/src/body.rs: bodies that follow a script.
use concord_api.Base.{
  ◌≡◌, refl, ◌⊎◌, arith, ℕ, ◌≤◌, ◌<◌, false, none, some, List, [], ◌∷◌, length, ℕ_discrete, ok, err,
}
use concord_api.Body.{BodyErrorKind, BodyError, limit_error, Frame, Polled, exact_hint, Body}
use concord_api.Body.Limited.{limited, new_limited, poll_limited}
use concord_api.Body.Exact.{exact_length, new_exact, poll_exact}
use concord_api.Body.Hinted.{hinted, with_size_hint, poll_hinted}
use concord_api.Body.Response.{response, new_response, collect_bytes}
use concord_api.Body.Runs.{polls, received, until_stop}
use concord_api.Body.Cut.{IsCut, IsLimitError, limited_polls-IsCut}
use concord_api.Body.Collected.{collected_response}
use concord_api.Body.Honest.{completed_body-exact_length}
use concord_api.Body.Hints.{IsTrueOf, later_bytes, size_hint-IsTrueOf}

abbrev next_item : List (Polled BodyError) → Polled BodyError × List (Polled BodyError)
next_item [] = (Polled.ended, [])
next_item (p ∷ ps) = (p, ps)

abbrev script : Body (List (Polled BodyError)) BodyError
script = record {
  poll_frame = next_item;
  is_end_stream = λ ps. false;
  size_hint = λ ps. record { lower = 0; upper = none };
}

abbrev chunk : List ℕ → Polled BodyError
chunk bytes = Polled.frame (Frame.chunk bytes)

abbrev five_bytes : List (Polled BodyError)
five_bytes = chunk (1 ∷ 2 ∷ []) ∷ Polled.pending ∷ chunk (3 ∷ 4 ∷ 5 ∷ []) ∷ []

abbrev same_error : BodyError → BodyError
same_error e = e

-- A limit of five passes the five bytes, one of four does not.
test_passed :
    (polls (limited script same_error) 4 (new_limited five_bytes 5)).0
    ≡ (polls script 4 five_bytes).0
unfolding polls poll_limited
test_passed = refl

test_cut :
    (polls (limited script same_error) 4 (new_limited five_bytes 4)).0
    ≡ chunk (1 ∷ 2 ∷ [])
      ∷ Polled.pending
      ∷ Polled.failed (limit_error BodyErrorKind.limit_exceeded 4 5)
      ∷ Polled.ended
      ∷ []
unfolding polls poll_limited
test_cut = refl

-- A declared length that the body falls short of.
test_underflow :
    (polls (exact_length script same_error) 4 (new_exact five_bytes 6)).0
    ≡ chunk (1 ∷ 2 ∷ [])
      ∷ Polled.pending
      ∷ chunk (3 ∷ 4 ∷ 5 ∷ [])
      ∷ Polled.failed (limit_error BodyErrorKind.exact_length_underflow 6 5)
      ∷ []
unfolding polls poll_exact ℕ_discrete
test_underflow = refl

limited_polls-IsCut_example :
    IsCut script same_error 4 0
      (until_stop (polls script 4 five_bytes).0)
      (polls (limited script same_error) 4 (new_limited five_bytes 4)).0
limited_polls-IsCut_example = limited_polls-IsCut script same_error 4 five_bytes 4 (omega arith)

collected_response_example :
    ((5 ≤ 5)
      × (collect_bytes (response script same_error) 4 (new_response five_bytes (some 5)) []
          ≡ some (ok (1 ∷ 2 ∷ 3 ∷ 4 ∷ 5 ∷ []))))
    ⊎ ((5 < 5)
        × ((e : BodyError) × (collect_bytes
                (response script same_error)
                4
                (new_response five_bytes (some 5))
                []
              ≡ some (err e))
            × IsLimitError 5 (some e)))
unfolding polls
collected_response_example = collected_response script same_error 4 five_bytes 5 (omega arith) refl

completed_body-exact_length_example :
    length (received (polls (exact_length script same_error) 4 (new_exact five_bytes 5)).0) ≡ 5
unfolding polls poll_exact ℕ_discrete
completed_body-exact_length_example =
    completed_body-exact_length script same_error 4 five_bytes 5 (omega arith) refl

size_hint-IsTrueOf_example :
    IsTrueOf
      ((hinted script).size_hint
        (polls (hinted script) 1 (with_size_hint five_bytes (exact_hint 5))).1)
      (length (later_bytes script 1 3 (with_size_hint five_bytes (exact_hint 5))))
unfolding polls poll_hinted
size_hint-IsTrueOf_example =
    size_hint-IsTrueOf script 1 3 five_bytes (exact_hint 5) (omega arith) (omega arith, omega arith)
