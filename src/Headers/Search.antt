-- ===== src/Headers/Search.antt =====
-- concord_core/src/redaction.rs: what the searches without regard to case find.
use concord_api.Base.{
  ℕ, ◌≤◌, ◌<◌, ◌≡◌, refl, sym, ap, ◌∙◌, ◌↔◌, inl, inr, Bool, true, false, ◌&&◌, ◌||◌, [], ◌∷◌, ◌++◌,
  map, length, take, leb, ltb, ◌==◌, arith, Bool-cases,
}
use concord_api.Headers.Text.{
  Bytes, to_lower, same_letter, zip_all, any, windows, contains_ignore_ascii_case,
}

abbrev pub lower : Bytes → Bytes
lower = map to_lower

-- The text begins with the other, and stands somewhere in it.
abbrev is_prefix : Bytes → Bytes → Bool
is_prefix [] h = true
is_prefix (a ∷ n) [] = false
is_prefix (a ∷ n) (b ∷ h) = b == a && is_prefix n h

abbrev pub is_infix : Bytes → Bytes → Bool
is_infix n [] = is_prefix n []
is_infix n (b ∷ h) = is_prefix n (b ∷ h) || is_infix n h

pub length-lower : (xs : Bytes) → length (lower xs) ≡ length xs
length-lower [] = refl
length-lower (x ∷ xs) = omega (arith, length-lower xs)

window-is_prefix :
    (n h : Bytes)
    → length n ≤ length h
    → zip_all same_letter (take (length n) h) n ≡ is_prefix (lower n) (lower h)
window-is_prefix [] h e = refl
window-is_prefix (a ∷ n) [] e = absurd (omega arith)
window-is_prefix (a ∷ n) (b ∷ h) e =
    ap (λ t. same_letter b a && t) (window-is_prefix n h (omega arith))

short-is_prefix : (n h : Bytes) → length h < length n → is_prefix (lower n) (lower h) ≡ false
short-is_prefix [] h e = absurd (omega arith)
short-is_prefix (a ∷ n) [] e = refl
short-is_prefix (a ∷ n) (b ∷ h) e = ground (arith, short-is_prefix n h (omega arith))

windows-is_infix :
    (a : ℕ) (n h : Bytes)
    → any (λ w. zip_all same_letter w (a ∷ n)) (windows (length (a ∷ n)) h)
      ≡ is_infix (lower (a ∷ n)) (lower h)
windows-is_infix a n [] = refl
windows-is_infix a n (b ∷ h) =
    let ih = windows-is_infix a n h in
    elim (Bool-cases (leb (length (a ∷ n)) (length (b ∷ h)))) [
      | inl e ↦ ground (arith, window-is_prefix (a ∷ n) (b ∷ h) (ground arith))
      | inr e ↦ ground (arith, short-is_prefix (a ∷ n) (b ∷ h) (ground arith))
    ]

short-is_infix : (n h : Bytes) → length h < length n → is_infix (lower n) (lower h) ≡ false
short-is_infix n [] e = short-is_prefix n [] e
short-is_infix n (b ∷ h) e =
    ground (arith, short-is_prefix n (b ∷ h) e, short-is_infix n h (omega arith))

is_infix-empty : (h : Bytes) → is_infix [] h ≡ true
is_infix-empty [] = refl
is_infix-empty (b ∷ h) = refl

pub contains-is_infix :
    (h n : Bytes) → contains_ignore_ascii_case h n ≡ is_infix (lower n) (lower h)
unfolding contains_ignore_ascii_case
contains-is_infix h [] = sym (is_infix-empty (lower h))
contains-is_infix h (a ∷ n) = elim (Bool-cases (ltb (length h) (length (a ∷ n)))) [
  | inl e ↦ ground (arith, short-is_infix (a ∷ n) h (ground arith))
  | inr e ↦ ground (arith, windows-is_infix a n h)
]

is_prefix-rest : (n h : Bytes) → is_prefix n h ≡ true → (after : Bytes) × (h ≡ n ++ after)
is_prefix-rest [] h e = (h, refl)
is_prefix-rest (a ∷ n) [] e = absurd cc
is_prefix-rest (a ∷ n) (b ∷ h) e =
    let (after, q) = is_prefix-rest n h (ground arith) in
    let head : (b ≡ a) = ground arith in (after, cc (head, q))

is_prefix-append : (n after : Bytes) → is_prefix n (n ++ after) ≡ true
is_prefix-append [] after = refl
is_prefix-append (a ∷ n) after = ground (arith, is_prefix-append n after)

is_infix-split :
    (n h : Bytes)
    → is_infix n h ≡ true
    → (before : Bytes) × (after : Bytes) × (h ≡ before ++ (n ++ after))
is_infix-split n [] e = let (after, q) = is_prefix-rest n [] e in ([], after, q)
is_infix-split n (b ∷ h) e = elim (Bool-cases (is_prefix n (b ∷ h))) [
  | inl p ↦ let (after, q) = is_prefix-rest n (b ∷ h) p in ([], after, q)
  | inr p ↦
      let (before, after, q) = is_infix-split n h (ground arith) in
      (b ∷ before, after, ap (λ t. b ∷ t) q)
]

is_infix-prefix : (n h : Bytes) → is_prefix n h ≡ true → is_infix n h ≡ true
is_infix-prefix n [] e = e
is_infix-prefix n (b ∷ h) e = ground (arith, e)

is_infix-append : (n before after : Bytes) → is_infix n (before ++ (n ++ after)) ≡ true
is_infix-append n [] after = is_infix-prefix n (n ++ after) (is_prefix-append n after)
is_infix-append n (b ∷ before) after = ground (arith, is_infix-append n before after)

-- contains_ignore_ascii_case holds exactly where the lower-cased needle is a slice of the lower-cased
-- haystack.
pub contains_iff_slice :
    (haystack needle : Bytes)
    → (contains_ignore_ascii_case haystack needle ≡ true) ↔ (
        (before : Bytes) × (after : Bytes) × (map to_lower haystack
          ≡ before ++ (map to_lower needle ++ after)))
contains_iff_slice h n = (
  λ e. is_infix-split (lower n) (lower h) (sym (contains-is_infix h n) ∙ e),
  λ p.
      let (before, after, q) = p in
      contains-is_infix h n ∙ (ap (is_infix (lower n)) q ∙ is_infix-append (lower n) before after),
)
