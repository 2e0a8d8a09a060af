-- ===== src/Headers/Case.antt =====
-- concord_core/src/redaction.rs: the comparisons read no more of a text than its lower-cased letters.
use concord_api.Base.{
  ℕ, ◌-◌, ◌≡◌, refl, sym, ap, ◌∙◌, Bool, ◌&&◌, String, List, [], ◌∷◌, map, length, ◌==◌,
}
use concord_api.Headers.Text.{
  Bytes, to_lower, same_letter, zip_all, drop, as_bytes, eq_ignore_ascii_case,
  contains_ignore_ascii_case, ends_with_ignore_ascii_case, matches_ignore_ascii_case,
}
use concord_api.Headers.Search.{contains-is_infix, length-lower, is_infix}

-- The texts differ at most in the case of ASCII letters.
abbrev pub SameLetters : Bytes → Bytes → Type 0
SameLetters s t = map to_lower s ≡ map to_lower t

-- The comparison of lower-cased texts.
abbrev zip_lower : Bytes → Bytes → Bool
zip_lower s t = zip_all (λ a b. a == b) s t

zip_all-lower :
    (s t : Bytes) → zip_all same_letter s t ≡ zip_lower (map to_lower s) (map to_lower t)
zip_all-lower [] t = refl
zip_all-lower (x ∷ s) [] = refl
zip_all-lower (x ∷ s) (y ∷ t) = ap (λ b. same_letter x y && b) (zip_all-lower s t)

drop-lower : (n : ℕ) (s : Bytes) → map to_lower (drop n s) ≡ drop n (map to_lower s)
drop-lower ℕ.zero s = refl
drop-lower (ℕ.suc n) [] = refl
drop-lower (ℕ.suc n) (x ∷ s) = drop-lower n s

SameLetters-length : (s t : Bytes) → SameLetters s t → length s ≡ length t
SameLetters-length s t h = sym (length-lower s) ∙ (ap length h ∙ length-lower t)

pub eq-SameLetters :
    (s t c : Bytes) → SameLetters s t → eq_ignore_ascii_case s c ≡ eq_ignore_ascii_case t c
unfolding eq_ignore_ascii_case
eq-SameLetters s t c h =
    let l = SameLetters-length s t h in
    let z : (zip_all same_letter s c ≡ zip_all same_letter t c) =
      zip_all-lower s c ∙ (ap (λ u. zip_lower u (map to_lower c)) h ∙ sym (zip_all-lower t c)) in
    rw (l, z) refl

pub contains-SameLetters :
    (s t c : Bytes)
    → SameLetters s t
    → contains_ignore_ascii_case s c ≡ contains_ignore_ascii_case t c
contains-SameLetters s t c h =
    contains-is_infix s c ∙ (ap (is_infix (map to_lower c)) h ∙ sym (contains-is_infix t c))

zip_all-drop :
    (n : ℕ) (s t c : Bytes)
    → SameLetters s t
    → zip_all same_letter (drop n s) c ≡ zip_all same_letter (drop n t) c
zip_all-drop n s t c h =
    let e : (map to_lower (drop n s) ≡ map to_lower (drop n t)) =
      drop-lower n s ∙ (ap (drop n) h ∙ sym (drop-lower n t)) in
    zip_all-lower (drop n s) c
    ∙ (ap (λ u. zip_lower u (map to_lower c)) e ∙ sym (zip_all-lower (drop n t) c))

pub ends-SameLetters :
    (s t c : Bytes)
    → SameLetters s t
    → ends_with_ignore_ascii_case s c ≡ ends_with_ignore_ascii_case t c
unfolding ends_with_ignore_ascii_case
ends-SameLetters s t c h =
    rw (SameLetters-length s t h, zip_all-drop (length t - length c) s t c h) refl

pub matches-SameLetters :
    (s t : Bytes) (candidates : List String)
    → SameLetters s t
    → matches_ignore_ascii_case s candidates ≡ matches_ignore_ascii_case t candidates
matches-SameLetters s t [] h = refl
matches-SameLetters s t (c ∷ candidates) h =
    cc (eq-SameLetters s t (as_bytes c) h, matches-SameLetters s t candidates h)
