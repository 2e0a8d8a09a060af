-- ===== src/Body/Honest.antt =====
-- concord_core/src/body.rs: what `ExactLengthBody` lets through, and whether its size hint is true.
use concord_api.Base.{
  ◌≡◌, refl, subst, ap, inl, inr, arith, ℕ, zero, suc, ◌-◌, ◌≤◌, ◌<◌, true, false, Bool-cases,
  if_holds, ltb, beq, beq-eq-true, ℕ_discrete, List, ◌∷◌, length, length-append, u64_max,
  if◌then◌else◌,
}
use concord_api.Body.{BodyError, Frame, Polled, exact_hint, Body}
use concord_api.Body.Exact.{
  ExactLengthBody, new_exact, exact_length, exact_polled, poll_exact, exact_length_hint, saturated,
}
use concord_api.Body.Runs.{polls, received, completes, received-stopped}

module _ {B E : Type 0} (body : Body B E) (from_producer : E → BodyError) (expected : ℕ) where
  -- What is still to come before the declared length: nothing once the body has stopped.
  abbrev remaining : ExactLengthBody B → ℕ
  remaining t = if t.terminal then 0 else t.expected - t.seen

  abbrev IsSound : ExactLengthBody B → Type 0
  IsSound t = (t.expected ≡ expected) × (t.seen ≤ expected)

  abbrev running : B → ℕ → ExactLengthBody B
  running b seen = record { inner = b; expected = expected; seen = seen; terminal = false }

  stays_ended :
      (t : ExactLengthBody B)
      → t.terminal ≡ true
      → poll_exact body from_producer t ≡ (Polled.ended, t)
  unfolding poll_exact
  stays_ended t stopped =
      if_holds (λ (r : Polled BodyError × ExactLengthBody B). r ≡ (Polled.ended, t)) t.terminal _ _
        (λ _. refl) (λ running. absurd cc (stopped, running))

  -- The result of a poll that completes later brings what the count says.
  abbrev IsExact : ℕ → ExactLengthBody B → Type 0
  IsExact n t =
      completes (polls (exact_length body from_producer) n t).0 ≡ true
      → length (received (polls (exact_length body from_producer) n t).0) ≡ remaining t

  after-IsExact :
      (n seen : ℕ) (b : B) (p : Polled E)
      → seen ≤ expected
      → expected < u64_max
      → ((seen' : ℕ) → seen' ≤ expected → IsExact n (running b seen'))
      → let (q, after) = exact_polled body from_producer (running b seen) p in
        let later = (polls (exact_length body from_producer) n after).0 in
        completes (q ∷ later) ≡ true → length (received (q ∷ later)) ≡ expected - seen
  unfolding exact_polled
  after-IsExact n seen b Polled.pending within small ih h = ih seen within h
  after-IsExact n seen b Polled.ended within small ih h =
      let stopped : ExactLengthBody B = record {
        inner = b;
        expected = expected;
        seen = seen;
        terminal = true;
      } in
      let (_, none_more) =
        received-stopped (exact_length body from_producer) stopped (stays_ended stopped refl) n in
      elim (Bool-cases (beq ℕ_discrete seen expected)) [
        | inr e ↦ ground (arith, e, h)
        | inl e ↦ ground (arith, e, beq-eq-true ℕ_discrete seen expected e, ap length none_more)
      ]
  after-IsExact n seen b (Polled.failed e) within small ih h = absurd cc
  after-IsExact n seen b (Polled.frame (Frame.trailers x)) within small ih h = ih seen within h
  after-IsExact n seen b (Polled.frame (Frame.chunk bytes)) within small ih h =
      elim (Bool-cases (ltb expected (saturated seen (length bytes)))) [
        | inl r ↦ ground (arith, r, h)
        | inr r ↦
            let next = saturated seen (length bytes) in
            ground (
              arith,
              r,
              h,
              within,
              small,
              ih next (ground (arith, r)),
              length-append bytes
                  (received (polls (exact_length body from_producer) n (running b next)).0),
            )
      ]

  running-IsExact :
      (n seen : ℕ) (b : B) → seen ≤ expected → expected < u64_max → IsExact n (running b seen)
  unfolding polls poll_exact
  running-IsExact zero seen b within small h = absurd cc
  running-IsExact (suc n) seen b within small h =
      let (p, inner) = body.poll_frame b in
      after-IsExact n seen inner p within small (λ s w. running-IsExact n s inner w small) h

  as_running :
      (t : ExactLengthBody B)
      → t.expected ≡ expected
      → t.terminal ≡ false
      → running t.inner t.seen ≡ t
  as_running t same runs = cc (same, runs)

  sound-IsExact : (n : ℕ) (t : ExactLengthBody B) → IsSound t → expected < u64_max → IsExact n t
  sound-IsExact n t (same, within) small h = elim (Bool-cases t.terminal) [
    | inl stopped ↦
        let (_, none_more) =
          received-stopped (exact_length body from_producer) t (stays_ended t stopped) n in
        ground (arith, stopped, ap length none_more)
    | inr runs ↦
        subst (IsExact n) (as_running t same runs) (running-IsExact n t.seen t.inner within small) h
  ]

  exact_polled-IsSound :
      (t : ExactLengthBody B) (p : Polled E)
      → IsSound t
      → IsSound (exact_polled body from_producer t p).1
  unfolding exact_polled
  exact_polled-IsSound t Polled.pending sound = sound
  exact_polled-IsSound t Polled.ended sound = sound
  exact_polled-IsSound t (Polled.failed e) sound = sound
  exact_polled-IsSound t (Polled.frame (Frame.trailers x)) sound = sound
  exact_polled-IsSound t (Polled.frame (Frame.chunk bytes)) (same, within) =
      elim (Bool-cases (ltb t.expected (saturated t.seen (length bytes)))) [
        | inl r ↦ ground (arith, r, same, within)
        | inr r ↦ ground (arith, r, same, within)
      ]

  polls-IsSound :
      (m : ℕ) (t : ExactLengthBody B)
      → IsSound t
      → IsSound (polls (exact_length body from_producer) m t).1
  unfolding polls poll_exact
  polls-IsSound zero t sound = sound
  polls-IsSound (suc m) t sound =
      let (p, inner) = body.poll_frame t.inner in
      polls-IsSound m (poll_exact body from_producer t).1 (
        if_holds (λ (r : Polled BodyError × ExactLengthBody B). IsSound r.1) t.terminal _ _
          (λ _. sound) (λ _. exact_polled-IsSound (record t { inner = inner }) p sound))

-- A body of a declared length below the largest u64 that ends before any error has brought exactly the
-- declared number of bytes.
pub completed_body-exact_length :
    {B E : Type 0} (body : Body B E) (from_producer : E → BodyError) (n : ℕ) (b : B) (expected : ℕ)
    → expected < u64_max
    → completes (polls (exact_length body from_producer) n (new_exact b expected)).0 ≡ true
    → length (received (polls (exact_length body from_producer) n (new_exact b expected)).0)
      ≡ expected
completed_body-exact_length body from_producer n b expected small h =
    omega (arith, running-IsExact body from_producer expected n 0 b (omega arith) small h)

-- What n polls give after m polls.
abbrev pub later_polls :
    {B E : Type 0} → Body B E → (E → BodyError) → ℕ → ℕ → B → ℕ → List (Polled BodyError)
later_polls body from_producer m n b expected =
    (polls (exact_length body from_producer) n
      (polls (exact_length body from_producer) m (new_exact b expected)).1).0

-- After any polls, the size hint of a body with a declared length is the number of bytes that further
-- polls bring if they end before any error.
pub exact_length_hint-received :
    {B E : Type 0} (body : Body B E) (from_producer : E → BodyError) (m n : ℕ) (b : B)
    (expected : ℕ)
    → expected < u64_max
    → completes (later_polls body from_producer m n b expected) ≡ true
    → exact_length_hint body from_producer
        (polls (exact_length body from_producer) m (new_exact b expected)).1
      ≡ exact_hint (length (received (later_polls body from_producer m n b expected)))
exact_length_hint-received body from_producer m n b expected small h =
    let t = (polls (exact_length body from_producer) m (new_exact b expected)).1 in
    let sound =
      polls-IsSound body from_producer expected m (new_exact b expected) (refl, omega arith) in
    let counted = sound-IsExact body from_producer expected n t sound small h in
    elim (Bool-cases t.terminal) [
      | inl stopped ↦ ground (arith, stopped, counted)
      | inr runs ↦ ground (arith, runs, counted)
    ]
