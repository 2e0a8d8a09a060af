-- ===== src/Base/Equality.antt =====
-- Decided equality, and finite sets as lists.
use Prim.Native.String.{String}
use mathlib.Core.Path.{◌≡◌, refl, sym, ◌∙◌}
use mathlib.Core.Bool.{Bool, true, false, ◌||◌}
use mathlib.Core.Logic.{ite, if_pos}
use mathlib.Core.List.{List, [], ◌∷◌}
use text.Mathlib.Text.{◌==◌ as str_eq}
use text.Mathlib.TextEquality.{eq_iff}

abbrev decide_text : (s t : String) (b : Bool) → str_eq s t ≡ b → Dec (s ≡ t)
decide_text s t true h = yes ((eq_iff s t).0 h)
decide_text s t false h = no (λ e. cc (h, (eq_iff s t).1 e))

unfoldable pub String-discrete : Discrete String
String-discrete s t = decide_text s t (str_eq s t) refl

module _ {ℓ} {A : Type ℓ} (dec : Discrete A) where
  -- `==` of a type with decided equality.
  abbrev pub beq : A → A → Bool
  beq a b = ite (dec a b) true false

  -- `contains` of a slice or a set.
  abbrev pub contains : List A → A → Bool
  contains [] a = false
  contains (x ∷ xs) a = beq x a || contains xs a

  -- `HashSet::insert`: whether the element is new, and the set with it.
  abbrev pub insert : List A → A → Bool × List A
  insert xs a = elim (contains xs a) [ true ↦ (false, xs) | false ↦ (true, a ∷ xs) ]

  -- No element stands twice.
  abbrev pub IsNodup : List A → Type 0
  IsNodup [] = Unit
  IsNodup (x ∷ xs) = (contains xs x ≡ false) × IsNodup xs

  pub beq_refl : (a : A) → beq a a ≡ true
  beq_refl a = if_pos (dec a a) refl true false

  of_test : {a b : A} (d : Dec (a ≡ b)) → ite d true false ≡ true → a ≡ b
  of_test (yes e) h = e
  of_test (no n) h = cc

  pub beq-eq-true : (a b : A) → beq a b ≡ true → a ≡ b
  beq-eq-true a b h = of_test (dec a b) h

  same_test : {a b : A} (d : Dec (a ≡ b)) (d' : Dec (b ≡ a)) → ite d true false ≡ ite d' true false
  same_test (yes e) (yes e') = refl
  same_test (yes e) (no n) = absurd (n (sym e))
  same_test (no n) (yes e) = absurd (n (sym e))
  same_test (no n) (no n') = refl

  pub beq-sym : (a b : A) → beq a b ≡ beq b a
  beq-sym a b = same_test (dec a b) (dec b a)

  pub beq-sym-false : (a b : A) → beq a b ≡ false → beq b a ≡ false
  beq-sym-false a b h = sym (beq-sym a b) ∙ h
