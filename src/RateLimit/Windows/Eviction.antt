-- ===== src/RateLimit/Windows/Eviction.antt =====
-- concord_core/src/rate_limit/governor_runtime.rs: what the eviction of windows keeps.
use concord_api.Base.{
  ℕ, suc, ◌+◌, ◌-◌, ◌≡◌, refl, ap, subst, Bool, true, false, not, ◌&&◌, inl, inr, Bool-cases, [],
  ◌∷◌, length, take, length-take, beq, beq_refl, beq-eq-true, arith,
}
use concord_api.RateLimit.Windows.{
  GovernorWindowSpec, GovernorWindowSpec-discrete, Windows, remove, remove_all, ages, sort_by_age,
  evict_oldest_windows,
}
use concord_api.RateLimit.Windows.Sorting.{
  Ages, has, IsMap, sort_by_age-length, sort_by_age-IsMap, has-take, take-IsMap, has-sort_by_age,
}

abbrev same : GovernorWindowSpec → GovernorWindowSpec → Bool
same = beq GovernorWindowSpec-discrete

module _ {L : Type 0} where
  ages-length : (m : Windows L) → length (ages m) ≡ length m
  ages-length [] = refl
  ages-length ((s, e) ∷ m) = omega (arith, ages-length m)

  pub has-remove :
      (m : Windows L) (s r : GovernorWindowSpec)
      → has (ages (remove m s)) r ≡ (has (ages m) r && not (same r s))
  has-remove [] s r = refl
  has-remove ((a, e) ∷ m) s r = elim (Bool-cases (same a r)) [
    | inl f ↦
        let z : (same a s ≡ same r s) =
          ap (λ x. same x s) (beq-eq-true GovernorWindowSpec-discrete a r f) in
        ground (arith, has-remove m s r)
    | inr f ↦ ground (arith, has-remove m s r)
  ]

  remove-IsMap :
      (m : Windows L) (s : GovernorWindowSpec) → IsMap (ages m) → IsMap (ages (remove m s))
  remove-IsMap [] s h = tt
  remove-IsMap ((a, e) ∷ m) s (h, hs) =
      let rest = remove-IsMap m s hs in
      let absent = has-remove m s a in
      elim (Bool-cases (same a s)) [ inl f ↦ ground arith | inr f ↦ ground arith ]

  remove-absent :
      (m : Windows L) (s : GovernorWindowSpec)
      → has (ages m) s ≡ false
      → length (remove m s) ≡ length m
  remove-absent [] s h = refl
  remove-absent ((a, e) ∷ m) s h = let rest = remove-absent m s (ground arith) in ground arith

  remove-length :
      (m : Windows L) (s : GovernorWindowSpec)
      → IsMap (ages m)
      → has (ages m) s ≡ true
      → suc (length (remove m s)) ≡ length m
  remove-length [] s h p = cc
  remove-length ((a, e) ∷ m) s (h, hs) p = elim (Bool-cases (same a s)) [
    | inl f ↦
        let absent =
          subst (λ x. has (ages m) x ≡ false) (beq-eq-true GovernorWindowSpec-discrete a s f) h in
        ground (arith, remove-absent m s absent)
    | inr f ↦ let rest = remove-length m s hs (ground arith) in ground arith
  ]

  remove_all-IsMap : (m : Windows L) (xs : Ages) → IsMap (ages m) → IsMap (ages (remove_all m xs))
  remove_all-IsMap m [] h = h
  remove_all-IsMap m ((s, t) ∷ xs) h = remove_all-IsMap (remove m s) xs (remove-IsMap m s h)

  Inside : Windows L → Ages → Type 0
  Inside m xs = (s : GovernorWindowSpec) → has xs s ≡ true → has (ages m) s ≡ true

  remove-Inside :
      (m : Windows L) (s : GovernorWindowSpec) (t : ℕ) (xs : Ages)
      → IsMap ((s, t) ∷ xs)
      → Inside m ((s, t) ∷ xs)
      → Inside (remove m s) xs
  unfolding Inside
  remove-Inside m s t xs (h, hs) inside r p = elim (Bool-cases (same r s)) [
    | inl f ↦
        let z : (has xs r ≡ has xs s) =
          ap (has xs) (beq-eq-true GovernorWindowSpec-discrete r s f) in
        absurd (ground arith)
    | inr f ↦ ground (arith, has-remove m s r, inside r)
  ]

  remove_all-length :
      (m : Windows L) (xs : Ages)
      → IsMap (ages m)
      → IsMap xs
      → Inside m xs
      → length (remove_all m xs) + length xs ≡ length m
  unfolding Inside
  remove_all-length m [] map n inside = omega arith
  remove_all-length m ((s, t) ∷ xs) map n inside =
      let one =
        remove-length m s map (inside s (ground (arith, beq_refl GovernorWindowSpec-discrete s))) in
      let rest =
        remove_all-length (remove m s) xs (remove-IsMap m s map) n.1
          (remove-Inside m s t xs n inside) in
      omega arith

  pub evict-IsMap :
      (m : Windows L) (n : ℕ) → IsMap (ages m) → IsMap (ages (evict_oldest_windows m n))
  unfolding evict_oldest_windows
  evict-IsMap m n h = remove_all-IsMap m (take n (sort_by_age (ages m))) h

  -- Of a map with enough entries, an eviction of `n` removes exactly `n`.
  pub evict-length :
      (m : Windows L) (n : ℕ) → IsMap (ages m) → length (evict_oldest_windows m n) ≡ length m - n
  unfolding evict_oldest_windows Inside
  evict-length m n h =
      let sorted = sort_by_age (ages m) in
      let removed =
        remove_all-length m (take n sorted) h (take-IsMap n sorted (sort_by_age-IsMap (ages m) h))
          (λ s p. subst (λ b. b ≡ true) (has-sort_by_age (ages m) s) (has-take n sorted s p)) in
      omega (arith, length-take n sorted, sort_by_age-length (ages m), ages-length m)

  remove-old :
      (m : Windows L) (s r : GovernorWindowSpec)
      → has (ages m) r ≡ false
      → has (ages (remove m s)) r ≡ false
  remove-old m s r h = ground (arith, has-remove m s r)

  remove_all-absent :
      (m : Windows L) (xs : Ages) (r : GovernorWindowSpec)
      → has (ages m) r ≡ false
      → has (ages (remove_all m xs)) r ≡ false
  remove_all-absent m [] r h = h
  remove_all-absent m ((s, t) ∷ xs) r h = remove_all-absent (remove m s) xs r (remove-old m s r h)

  pub evict-absent :
      (m : Windows L) (n : ℕ) (r : GovernorWindowSpec)
      → has (ages m) r ≡ false
      → has (ages (evict_oldest_windows m n)) r ≡ false
  unfolding evict_oldest_windows
  evict-absent m n r h = remove_all-absent m (take n (sort_by_age (ages m))) r h
