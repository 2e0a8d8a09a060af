-- ===== src/Body/Runs.antt =====
-- concord_core/src/body.rs: a body that is polled a number of times, and what the polls bring.
use concord_api.Base.{
  ◌≡◌, refl, sym, ◌∙◌, ap, inl, inr, ◌⊎◌, arith, String, ℕ, zero, suc, ◌+◌, Bool, true, false,
  Option, none, some, List, [], ◌∷◌, ◌++◌, map, length, length-append,
}
use concord_api.Body.{Frame, Polled, Body}

unfoldable pub polls : {B E : Type 0} → Body B E → ℕ → B → List (Polled E) × B
polls body zero b = ([], b)
polls body (suc n) b =
    let (polled, after) = body.poll_frame b in
    let (later, end) = polls body n after in (polled ∷ later, end)

module _ {E : Type 0} where
  abbrev pub bytes_of : Polled E → List ℕ
  bytes_of Polled.pending = []
  bytes_of Polled.ended = []
  bytes_of (Polled.failed e) = []
  bytes_of (Polled.frame (Frame.chunk bytes)) = bytes
  bytes_of (Polled.frame (Frame.trailers t)) = []

  pub Polled-cases :
      (p : Polled E)
      → ((p ≡ Polled.pending) ⊎ (p ≡ Polled.ended))
        ⊎ (((e : E) × (p ≡ Polled.failed e))
            ⊎ (((bytes : List ℕ) × (p ≡ Polled.frame (Frame.chunk bytes)))
                ⊎ ((t : List (String × String)) × (p ≡ Polled.frame (Frame.trailers t)))))
  Polled-cases Polled.pending = inl (inl refl)
  Polled-cases Polled.ended = inl (inr refl)
  Polled-cases (Polled.failed e) = inr (inl (e, refl))
  Polled-cases (Polled.frame (Frame.chunk bytes)) = inr (inr (inl (bytes, refl)))
  Polled-cases (Polled.frame (Frame.trailers t)) = inr (inr (inr (t, refl)))

  -- The bytes that the polls brought, in order.
  abbrev pub received : List (Polled E) → List ℕ
  received [] = []
  received (p ∷ ps) = bytes_of p ++ received ps

  -- Whether the first end or error is an end.
  abbrev pub completes : List (Polled E) → Bool
  completes [] = false
  completes (Polled.pending ∷ ps) = completes ps
  completes (Polled.ended ∷ ps) = true
  completes (Polled.failed e ∷ ps) = false
  completes (Polled.frame f ∷ ps) = completes ps

  -- The first error, if it comes before an end.
  abbrev pub first_failure : List (Polled E) → Option E
  first_failure [] = none
  first_failure (Polled.failed e ∷ ps) = some e
  first_failure (Polled.pending ∷ ps) = first_failure ps
  first_failure (Polled.ended ∷ ps) = none
  first_failure (Polled.frame f ∷ ps) = first_failure ps

  abbrev pub all_ended : List (Polled E) → List (Polled E)
  all_ended ps = map (λ _. Polled.ended) ps

  -- The polls up to the first end or error, and ends after it.
  abbrev pub until_stop : List (Polled E) → List (Polled E)
  until_stop [] = []
  until_stop (Polled.pending ∷ ps) = Polled.pending ∷ until_stop ps
  until_stop (Polled.ended ∷ ps) = Polled.ended ∷ all_ended ps
  until_stop (Polled.failed e ∷ ps) = Polled.failed e ∷ all_ended ps
  until_stop (Polled.frame f ∷ ps) = Polled.frame f ∷ until_stop ps

  pub received-all_ended : (ps : List (Polled E)) → received (all_ended ps) ≡ []
  received-all_ended [] = refl
  received-all_ended (p ∷ ps) = received-all_ended ps

abbrev pub map_error : {E F : Type 0} → (E → F) → Polled E → Polled F
map_error f Polled.pending = Polled.pending
map_error f Polled.ended = Polled.ended
map_error f (Polled.failed e) = Polled.failed (f e)
map_error f (Polled.frame x) = Polled.frame x

-- A count that each poll raises by the bytes that it brings counts the bytes of all polls.
pub polls-count :
    {B E : Type 0} (body : Body B E) (Good : B → Type 0) (count : B → ℕ)
    → ((b : B)
        → Good b
        → let (p, after) = body.poll_frame b in
          Good after × (count after ≡ count b + length (bytes_of p)))
    → (n : ℕ) (b : B) → Good b
    → let (ps, end) = polls body n b in Good end × (count end ≡ count b + length (received ps))
unfolding polls
polls-count body Good count step zero b good = (good, omega arith)
polls-count body Good count step (suc n) b good =
    let (p, after) = body.poll_frame b in
    let (good_after, counted) = step b good in
    let (good_end, total) = polls-count body Good count step n after good_after in
    (
      good_end,
      omega (arith, counted, total, length-append (bytes_of p) (received (polls body n after).0)),
    )

-- Polls of a body that stays at its end.
pub polls-stopped :
    {B E C F : Type 0} (body : Body B E) (other : Body C F) (b : B)
    → body.poll_frame b ≡ (Polled.ended, b)
    → (f : F → E) (n : ℕ) (c : C)
    → (polls body n b).0 ≡ map (map_error f) (all_ended (polls other n c).0)
unfolding polls
polls-stopped body other b stays f zero c = refl
polls-stopped body other b stays f (suc n) c =
    let ih = polls-stopped body other b stays f n (other.poll_frame c).1 in
    rw (stays) (ap (λ ps. Polled.ended ∷ ps) ih)

-- A body that stays at its end brings nothing more.
pub received-stopped :
    {B E : Type 0} (body : Body B E) (b : B)
    → body.poll_frame b ≡ (Polled.ended, b)
    → (n : ℕ) → ((polls body n b).1 ≡ b) × (received (polls body n b).0 ≡ [])
unfolding polls
received-stopped body b stays zero = (refl, refl)
received-stopped body b stays (suc n) =
    let (same, none_more) = received-stopped body b stays n in rw (stays) (same, none_more)

module _ {E F : Type 0} (f : E → F) where
  pub completes-until_stop :
      (ps : List (Polled E)) → completes ps ≡ completes (map (map_error f) (until_stop ps))
  completes-until_stop [] = refl
  completes-until_stop (Polled.pending ∷ ps) = completes-until_stop ps
  completes-until_stop (Polled.ended ∷ ps) = refl
  completes-until_stop (Polled.failed e ∷ ps) = refl
  completes-until_stop (Polled.frame x ∷ ps) = completes-until_stop ps

  pub received-until_stop :
      (ps : List (Polled E))
      → received (until_stop (map (map_error f) (until_stop ps))) ≡ received (until_stop ps)
  received-until_stop [] = refl
  received-until_stop (Polled.pending ∷ ps) = received-until_stop ps
  received-until_stop (Polled.ended ∷ ps) =
      received-all_ended (map (map_error f) (all_ended ps)) ∙ sym (received-all_ended ps)
  received-until_stop (Polled.failed e ∷ ps) =
      received-all_ended (map (map_error f) (all_ended ps)) ∙ sym (received-all_ended ps)
  received-until_stop (Polled.frame (Frame.chunk bytes) ∷ ps) =
      ap (λ rest. bytes ++ rest) (received-until_stop ps)
  received-until_stop (Polled.frame (Frame.trailers t) ∷ ps) = received-until_stop ps
