-- ===== src/Body/Hints.antt =====
-- concord_core/src/body.rs: whether the size hint of `HintedBody` stays true, and what
-- `ObservedRequestBody` notes.
use concord_api.Base.{
  ◌≡◌, refl, subst, ◌∙◌, ap, inl, inr, arith, ℕ, zero, suc, ◌+◌, ◌≤◌, true, Bool-cases, if_holds,
  leb, Option, none, some, List, length, length-append, u64_max,
}
use native.Mathlib.Nat.{zero-add}
use concord_api.Body.{BodyError, Frame, Polled, SizeHint, Body}
use concord_api.Body.Hinted.{
  HintedBody, with_size_hint, hinted, hint_polled, poll_hinted, upper_after,
}
use concord_api.Body.Runs.{polls, bytes_of, received, received-stopped}

-- No more than an upper bound, where there is one.
abbrev pub AtMost : Option ℕ → ℕ → Type 0
AtMost none n = Unit
AtMost (some upper) n = n ≤ upper

-- The hint is true of a number of bytes.
abbrev pub IsTrueOf : SizeHint → ℕ → Type 0
IsTrueOf hint n = (hint.lower ≤ n) × AtMost hint.upper n

module _ {B : Type 0} (body : Body B BodyError) where
  abbrev declared : HintedBody B → SizeHint
  declared t = record { lower = t.lower; upper = t.upper }

  AtMost-after :
      (upper : Option ℕ) (n rest : ℕ) → AtMost upper (n + rest) → AtMost (upper_after n upper) rest
  AtMost-after none n rest h = tt
  AtMost-after (some upper) n rest h = elim (Bool-cases (leb n upper)) [
    | inl e ↦ ground (arith, e, h)
    | inr e ↦ ground (arith, e, h)
  ]

  hint_polled-IsTrueOf :
      (t : HintedBody B) (p : Polled BodyError) (rest : ℕ)
      → length (bytes_of (hint_polled body t p).0) ≤ u64_max
      → IsTrueOf (declared t) (length (bytes_of (hint_polled body t p).0) + rest)
      → ((hint_polled body t p).1.terminal ≡ true → rest ≡ 0)
      → IsTrueOf (declared (hint_polled body t p).1) rest
  unfolding hint_polled
  hint_polled-IsTrueOf t Polled.pending rest small h over =
      subst (λ n. IsTrueOf (declared t) n) (zero-add rest) h
  hint_polled-IsTrueOf t Polled.ended rest small h over = (omega arith, omega (arith, over refl))
  hint_polled-IsTrueOf t (Polled.failed e) rest small h over =
      subst (λ n. IsTrueOf (declared t) n) (zero-add rest) h
  hint_polled-IsTrueOf t (Polled.frame (Frame.trailers x)) rest small h over =
      subst (λ n. IsTrueOf (declared t) n) (zero-add rest) h
  hint_polled-IsTrueOf t (Polled.frame (Frame.chunk bytes)) rest small (low, high) over =
      let fits : (leb (length bytes) u64_max ≡ true) = ground (arith, small) in
      ground (arith, fits, low, AtMost-after t.upper (length bytes) rest high)

  stays_ended : (t : HintedBody B) → t.terminal ≡ true → poll_hinted body t ≡ (Polled.ended, t)
  unfolding poll_hinted
  stays_ended t stopped =
      if_holds (λ (r : Polled BodyError × HintedBody B). r ≡ (Polled.ended, t)) t.terminal _ _
        (λ _. refl) (λ running. absurd cc (stopped, running))

  poll_hinted-IsTrueOf :
      (t : HintedBody B) (rest : ℕ)
      → length (bytes_of (poll_hinted body t).0) ≤ u64_max
      → IsTrueOf (declared t) (length (bytes_of (poll_hinted body t).0) + rest)
      → ((poll_hinted body t).1.terminal ≡ true → rest ≡ 0)
      → IsTrueOf (declared (poll_hinted body t).1) rest
  unfolding poll_hinted
  poll_hinted-IsTrueOf t rest =
      let (p, inner) = body.poll_frame t.inner in
      if_holds
        (λ (r : Polled BodyError × HintedBody B).
          length (bytes_of r.0) ≤ u64_max
          → IsTrueOf (declared t) (length (bytes_of r.0) + rest)
          → (r.1.terminal ≡ true → rest ≡ 0)
          → IsTrueOf (declared r.1) rest)
        t.terminal _ _ (λ _ small h over. subst (λ n. IsTrueOf (declared t) n) (zero-add rest) h)
        (λ _ small h over. hint_polled-IsTrueOf (record t { inner = inner }) p rest small h over)

  -- What m polls bring, and what n polls after them bring.
  abbrev pub first_bytes : ℕ → HintedBody B → List ℕ
  first_bytes m t = received (polls (hinted body) m t).0

  abbrev pub later_bytes : ℕ → ℕ → HintedBody B → List ℕ
  later_bytes m n t = received (polls (hinted body) n (polls (hinted body) m t).1).0

  stopped_brings_nothing :
      (m n : ℕ) (t : HintedBody B)
      → t.terminal ≡ true
      → (length (first_bytes m t) ≡ 0) × (length (later_bytes m n t) ≡ 0)
  stopped_brings_nothing m n t stopped =
      let (same, none_first) = received-stopped (hinted body) t (stays_ended t stopped) m in
      let (_, none_later) = received-stopped (hinted body) t (stays_ended t stopped) n in
      (
        ap length none_first,
        ap (λ s. length (received (polls (hinted body) n s).0)) same ∙ ap length none_later,
      )

  hint_after :
      (m n : ℕ) (t : HintedBody B)
      → length (first_bytes m t) ≤ u64_max
      → IsTrueOf (declared t) (length (first_bytes m t) + length (later_bytes m n t))
      → IsTrueOf ((hinted body).size_hint (polls (hinted body) m t).1) (length (later_bytes m n t))
  unfolding polls poll_hinted
  hint_after zero n t small h = elim (Bool-cases t.terminal) [
    | inl stopped ↦
        let (_, nothing) = stopped_brings_nothing 0 n t stopped in ground (arith, stopped, nothing)
    | inr runs ↦ ground (
      arith,
      runs,
      subst (λ k. IsTrueOf (declared t) k) (zero-add (length (later_bytes 0 n t))) h,
    )
  ]
  hint_after (suc m) n t small h =
      let after = (poll_hinted body t).1 in
      let bytes = bytes_of (poll_hinted body t).0 in
      let first = first_bytes m after in
      let later = later_bytes m n after in
      let grows = length-append bytes first in
      hint_after m n after (omega (arith, small, grows)) (
        poll_hinted-IsTrueOf t (length first + length later) (omega (arith, small, grows))
          (subst (λ k. IsTrueOf (declared t) k) (omega (arith, grows)) h)
          (λ stopped. let (a, b) = stopped_brings_nothing m n after stopped in omega (arith, a, b)))

-- Where the declared size hint is true of the bytes that m + n polls bring, and those of the first m
-- are counted by a u64, the hint that the body has after m polls is true of the bytes that the next n
-- bring.
pub size_hint-IsTrueOf :
    {B : Type 0} (body : Body B BodyError) (m n : ℕ) (b : B) (hint : SizeHint)
    → length (first_bytes body m (with_size_hint b hint)) ≤ u64_max
    → IsTrueOf hint (
        length (first_bytes body m (with_size_hint b hint))
        + length (later_bytes body m n (with_size_hint b hint)))
    → IsTrueOf
        ((hinted body).size_hint (polls (hinted body) m (with_size_hint b hint)).1)
        (length (later_bytes body m n (with_size_hint b hint)))
size_hint-IsTrueOf body m n b hint small h = hint_after body m n (with_size_hint b hint) small h
