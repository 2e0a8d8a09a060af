-- ===== src/Client/Send/Oversize.antt =====
-- concord_core/src/client/send_flow.rs: what is known of the size of a body, by its size hint.
use concord_api.Base.{
  ◌≡◌, inl, inr, arith, ℕ, ◌≤◌, ◌<◌, Bool-cases, Option-cases, ltb, ℕ_discrete, none, some, beq,
  beq-eq-true,
}
use concord_api.Body.{SizeHint}
use concord_api.Client.Send.{known_oversize}

-- What is known to be beyond a limit is so by the hint's lower bound.
pub known_oversize_beyond :
    (limit : ℕ) (hint : SizeHint) (actual : ℕ)
    → known_oversize limit hint ≡ some actual
    → limit < hint.lower
known_oversize_beyond limit hint actual h = elim (Bool-cases (ltb limit hint.lower)) [
  | inl e ↦ ground (arith, e)
  | inr e ↦ elim (Option-cases hint.upper) [
    | inl u ↦ absurd (ground (arith, e, u, h))
    | inr (upper, u) ↦ elim (Bool-cases (beq ℕ_discrete upper hint.lower)) [
      | inr b ↦ absurd (ground (arith, e, u, b, h))
      | inl b ↦
          let same = beq-eq-true ℕ_discrete upper hint.lower b in
          absurd (ground (arith, e, u, b, same, h))
    ]
  ]
]

pub known_oversize_within :
    (limit : ℕ) (hint : SizeHint) → known_oversize limit hint ≡ none → hint.lower ≤ limit
known_oversize_within limit hint h = elim (Bool-cases (ltb limit hint.lower)) [
  | inr e ↦ ground (arith, e)
  | inl e ↦ elim (Option-cases hint.upper) [
    | inl u ↦ absurd (ground (arith, e, u, h))
    | inr (upper, u) ↦ elim (Bool-cases (beq ℕ_discrete upper hint.lower)) [
      | inr b ↦ absurd (ground (arith, e, u, b, h))
      | inl b ↦
          let same = beq-eq-true ℕ_discrete upper hint.lower b in
          absurd (ground (arith, e, u, b, same, h))
    ]
  ]
]
