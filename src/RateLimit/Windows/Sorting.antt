-- ===== src/RateLimit/Windows/Sorting.antt =====
-- concord_core/src/rate_limit/governor_runtime.rs: windows in the order of their last use.
use concord_api.Base.{
  ℕ, suc, zero, ◌≤◌, ◌≡◌, refl, Bool, true, false, ◌||◌, inl, inr, Bool-cases, List, [], ◌∷◌,
  length, take, leb, beq, beq-sym-false, contains, IsNodup, All, arith,
}
use concord_api.RateLimit.Windows.{
  GovernorWindowSpec, GovernorWindowSpec-discrete, insert_age, sort_by_age,
}

abbrev pub Ages : Type 0
Ages = List (GovernorWindowSpec × ℕ)

abbrev pub specs : Ages → List GovernorWindowSpec
specs [] = []
specs ((s, t) ∷ xs) = s ∷ specs xs

abbrev pub has : Ages → GovernorWindowSpec → Bool
has xs = contains GovernorWindowSpec-discrete (specs xs)

abbrev pub IsMap : Ages → Type 0
IsMap xs = IsNodup GovernorWindowSpec-discrete (specs xs)

abbrev same : GovernorWindowSpec → GovernorWindowSpec → Bool
same = beq GovernorWindowSpec-discrete

-- Each is at most as old as those before it.
abbrev pub IsSorted : Ages → Type 0
IsSorted [] = Unit
IsSorted (x ∷ xs) = All (λ y. x.1 ≤ y.1) xs × IsSorted xs

insert_age-length :
    (x : GovernorWindowSpec × ℕ) (xs : Ages) → length (insert_age x xs) ≡ suc (length xs)
insert_age-length x [] = refl
insert_age-length x (y ∷ ys) = ground (arith, insert_age-length x ys)

pub sort_by_age-length : (xs : Ages) → length (sort_by_age xs) ≡ length xs
sort_by_age-length [] = refl
sort_by_age-length (x ∷ xs) =
    omega (arith, insert_age-length x (sort_by_age xs), sort_by_age-length xs)

has-insert_age :
    (x : GovernorWindowSpec × ℕ) (xs : Ages) (s : GovernorWindowSpec)
    → has (insert_age x xs) s ≡ (same x.0 s || has xs s)
has-insert_age (a, t) [] s = refl
has-insert_age (a, t) ((b, u) ∷ ys) s = ground (arith, has-insert_age (a, t) ys s)

pub has-sort_by_age : (xs : Ages) (s : GovernorWindowSpec) → has (sort_by_age xs) s ≡ has xs s
has-sort_by_age [] s = refl
has-sort_by_age ((a, t) ∷ xs) s =
    ground (arith, has-insert_age (a, t) (sort_by_age xs) s, has-sort_by_age xs s)

insert_age-IsMap :
    (x : GovernorWindowSpec × ℕ) (xs : Ages)
    → has xs x.0 ≡ false
    → IsMap xs
    → IsMap (insert_age x xs)
insert_age-IsMap (a, t) [] n h = (n, tt)
insert_age-IsMap (a, t) ((b, u) ∷ ys) n (h, hs) = elim (Bool-cases (leb t u)) [
  | inl e ↦ ground arith
  | inr e ↦
      let rest = insert_age-IsMap (a, t) ys (ground arith) hs in
      let far = beq-sym-false GovernorWindowSpec-discrete b a (ground arith) in
      ground (arith, has-insert_age (a, t) ys b)
]

pub sort_by_age-IsMap : (xs : Ages) → IsMap xs → IsMap (sort_by_age xs)
sort_by_age-IsMap [] h = tt
sort_by_age-IsMap ((a, t) ∷ xs) (h, hs) =
    insert_age-IsMap (a, t) (sort_by_age xs) (ground (arith, has-sort_by_age xs a))
      (sort_by_age-IsMap xs hs)

pub has-take :
    (n : ℕ) (xs : Ages) (s : GovernorWindowSpec) → has (take n xs) s ≡ true → has xs s ≡ true
has-take zero xs s h = cc
has-take (suc n) [] s h = h
has-take (suc n) ((a, t) ∷ xs) s h = ground (arith, has-take n xs s)

pub take-IsMap : (n : ℕ) (xs : Ages) → IsMap xs → IsMap (take n xs)
take-IsMap zero xs h = tt
take-IsMap (suc n) [] h = tt
take-IsMap (suc n) ((a, t) ∷ xs) (h, hs) =
    let rest = take-IsMap n xs hs in
    let absent = has-take n xs a in
    (
      elim (Bool-cases (has (take n xs) a)) [
        | inl e ↦ absurd (ground (arith, absent e))
        | inr e ↦ e
      ],
      rest,
    )
