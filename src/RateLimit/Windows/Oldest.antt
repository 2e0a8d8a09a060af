-- ===== src/RateLimit/Windows/Oldest.antt =====
-- concord_core/src/rate_limit/governor_runtime.rs: an eviction removes the windows that were used last
-- the longest time ago.
use concord_api.Base.{
  ℕ, zero, suc, ◌≤◌, ◌≡◌, refl, ap, ◌∙◌, Bool, true, false, not, ◌&&◌, inl, inr, Bool-cases, Option,
  none, some, [], ◌∷◌, take, leb, leb_iff, if◌then◌else◌, beq, beq-eq-true, beq-sym, beq-sym-false,
  All, arith,
}
use concord_api.RateLimit.Windows.{
  GovernorWindowSpec, GovernorWindowSpec-discrete, GovernorWindowEntry, Windows, find, remove,
  remove_all, ages, insert_age, sort_by_age, evict_oldest_windows,
}
use concord_api.RateLimit.Windows.Sorting.{Ages, has, IsMap, IsSorted, has-sort_by_age}
use concord_api.RateLimit.Windows.Eviction.{has-remove}

abbrev same : GovernorWindowSpec → GovernorWindowSpec → Bool
same = beq GovernorWindowSpec-discrete

-- The time at which a window was last used.
abbrev age : Ages → GovernorWindowSpec → Option ℕ
age [] s = none
age ((a, t) ∷ xs) s = let rest = age xs s in if same a s then some t else rest

age-none : (xs : Ages) (s : GovernorWindowSpec) → has xs s ≡ false → age xs s ≡ none
age-none [] s h = refl
age-none ((a, t) ∷ xs) s h = let rest = age-none xs s (ground arith) in ground arith

age-insert_age :
    (a : GovernorWindowSpec) (t : ℕ) (xs : Ages) (s : GovernorWindowSpec)
    → has xs a ≡ false
    → age (insert_age (a, t) xs) s ≡ (if same a s then some t else age xs s)
age-insert_age a t [] s h = refl
age-insert_age a t ((b, u) ∷ ys) s h =
    let rest = age-insert_age a t ys s (ground arith) in
    elim (Bool-cases (leb t u)) [
      | inl e ↦ ground arith
      | inr e ↦ elim (Bool-cases (same b s)) [
        | inl f ↦
            let z : (same b a ≡ same s a) =
              ap (λ x. same x a) (beq-eq-true GovernorWindowSpec-discrete b s f) in
            let far = beq-sym-false GovernorWindowSpec-discrete s a (ground arith) in ground arith
        | inr f ↦ ground arith
      ]
    ]

age-sort_by_age :
    (xs : Ages) (s : GovernorWindowSpec) → IsMap xs → age (sort_by_age xs) s ≡ age xs s
age-sort_by_age [] s h = refl
age-sort_by_age ((a, t) ∷ xs) s (h, hs) = ground (
  arith,
  age-insert_age a t (sort_by_age xs) s (has-sort_by_age xs a ∙ h),
  age-sort_by_age xs s hs,
)

insert_age-All :
    (k : ℕ) (x : GovernorWindowSpec × ℕ) (xs : Ages)
    → k ≤ x.1
    → All (λ y. k ≤ y.1) xs
    → All (λ y. k ≤ y.1) (insert_age x xs)
insert_age-All k x [] le h = (le, tt)
insert_age-All k x (y ∷ ys) le (h, hs) =
    let rest = insert_age-All k x ys le hs in
    elim (Bool-cases (leb x.1 y.1)) [ inl e ↦ ground arith | inr e ↦ ground arith ]

All-later : (k l : ℕ) (xs : Ages) → k ≤ l → All (λ y. l ≤ y.1) xs → All (λ y. k ≤ y.1) xs
All-later k l [] le h = tt
All-later k l (x ∷ xs) le (h, hs) = (omega arith, All-later k l xs le hs)

insert_age-IsSorted :
    (x : GovernorWindowSpec × ℕ) (xs : Ages) → IsSorted xs → IsSorted (insert_age x xs)
insert_age-IsSorted x [] h = (tt, tt)
insert_age-IsSorted x (y ∷ ys) (h, hs) =
    let rest = insert_age-IsSorted x ys hs in
    elim (Bool-cases (leb x.1 y.1)) [
      | inl e ↦
          let le = (leb_iff x.1 y.1).0 e in let all = All-later x.1 y.1 ys le h in ground arith
      | inr e ↦ let all = insert_age-All y.1 x ys (ground arith) h in ground arith
    ]

sort_by_age-IsSorted : (xs : Ages) → IsSorted (sort_by_age xs)
sort_by_age-IsSorted [] = tt
sort_by_age-IsSorted (x ∷ xs) = insert_age-IsSorted x (sort_by_age xs) (sort_by_age-IsSorted xs)

All-age :
    (k : ℕ) (xs : Ages) (s : GovernorWindowSpec) (t : ℕ)
    → All (λ y. k ≤ y.1) xs
    → age xs s ≡ some t
    → k ≤ t
All-age k [] s t h e = cc
All-age k ((a, u) ∷ xs) s t (h, hs) e = elim (Bool-cases (same a s)) [
  | inl f ↦ ground arith
  | inr f ↦ All-age k xs s t hs (ground arith)
]

-- Of a sorted list, what is taken is no younger than what is left.
taken-age :
    (n : ℕ) (xs : Ages) (r s : GovernorWindowSpec) (t u : ℕ)
    → IsSorted xs
    → has (take n xs) r ≡ true
    → has (take n xs) s ≡ false
    → age xs r ≡ some t
    → age xs s ≡ some u
    → t ≤ u
taken-age zero xs r s t u h p q e f = cc
taken-age (suc n) [] r s t u h p q e f = cc
taken-age (suc n) ((a, v) ∷ xs) r s t u (h, hs) p q e f = elim (Bool-cases (same a r)) [
  | inl g ↦ let le = All-age v xs s u h (ground arith) in ground arith
  | inr g ↦ taken-age n xs r s t u hs (ground arith) (ground arith) (ground arith) (ground arith)
]

module _ {L : Type 0} where
  has-remove_all :
      (m : Windows L) (xs : Ages) (r : GovernorWindowSpec)
      → has (ages (remove_all m xs)) r ≡ (has (ages m) r && not (has xs r))
  has-remove_all m [] r = ground arith
  has-remove_all m ((s, t) ∷ xs) r = ground (
    arith,
    has-remove_all (remove m s) xs r,
    has-remove m s r,
    beq-sym GovernorWindowSpec-discrete r s,
  )

  age-ages :
      (m : Windows L) (s : GovernorWindowSpec) (entry : GovernorWindowEntry L)
      → find m s ≡ some entry
      → (age (ages m) s ≡ some entry.last_used) × (has (ages m) s ≡ true)
  age-ages [] s entry h = cc
  age-ages ((a, e) ∷ m) s entry h = elim (Bool-cases (same a s)) [
    | inl f ↦ (ground arith, ground arith)
    | inr f ↦ let (p, q) = age-ages m s entry (ground arith) in (ground arith, ground arith)
  ]

  -- A window that an eviction removes was last used no later than any window that it keeps.
  pub evict_oldest_windows-age :
      (m : Windows L) (count : ℕ) (removed kept : GovernorWindowSpec)
      (old new : GovernorWindowEntry L)
      → IsMap (ages m)
      → find m removed ≡ some old
      → find m kept ≡ some new
      → has (ages (evict_oldest_windows m count)) removed ≡ false
      → has (ages (evict_oldest_windows m count)) kept ≡ true
      → old.last_used ≤ new.last_used
  unfolding evict_oldest_windows
  evict_oldest_windows-age m count removed kept old new map p q gone stays =
      let sorted = sort_by_age (ages m) in
      let (pa, ph) = age-ages m removed old p in
      let (qa, qh) = age-ages m kept new q in
      taken-age count sorted removed kept old.last_used new.last_used
        (sort_by_age-IsSorted (ages m))
        (ground (arith, has-remove_all m (take count sorted) removed))
        (ground (arith, has-remove_all m (take count sorted) kept))
        (age-sort_by_age (ages m) removed map ∙ pa) (age-sort_by_age (ages m) kept map ∙ qa)
