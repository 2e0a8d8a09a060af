-- ===== src/Headers/Text.antt =====
-- concord_core/src/redaction.rs: comparing texts without regard to the case of ASCII letters. A text is
-- walked by its code points; the texts that are searched for are ASCII, so that bytes give the same.
use Prim.Native.Char.{code}
use concord_api.Base.{
  ℕ, ◌+◌, ◌-◌, Bool, true, false, ◌&&◌, ◌||◌, String, List, [], ◌∷◌, length, take, leb, ltb, ◌==◌,
  if◌then◌else◌,
}

abbrev pub Bytes : Type 0
Bytes = List ℕ

-- `str::as_bytes`.
abbrev pub as_bytes : String → Bytes
as_bytes String.[] = []
as_bytes (String.◌∷◌ c s) = code c ∷ as_bytes s

-- `u8::to_ascii_lowercase`.
unfoldable pub to_lower : ℕ → ℕ
to_lower c = if leb b'A' c && leb c b'Z' then c + 32 else c

-- `u8::eq_ignore_ascii_case`.
abbrev pub same_letter : ℕ → ℕ → Bool
same_letter a b = to_lower a == to_lower b

-- `zip` of two sequences, with `all`.
abbrev pub zip_all : (ℕ → ℕ → Bool) → Bytes → Bytes → Bool
zip_all p [] ys = true
zip_all p (x ∷ xs) [] = true
zip_all p (x ∷ xs) (y ∷ ys) = p x y && zip_all p xs ys

abbrev pub any {ℓ} : {A : Type ℓ} → (A → Bool) → List A → Bool
any p [] = false
any p (x ∷ xs) = p x || any p xs

-- `slice::windows`, of a positive size.
abbrev pub windows : ℕ → Bytes → List Bytes
windows n [] = []
windows n (x ∷ xs) =
    let rest = windows n xs in if leb n (length (x ∷ xs)) then take n (x ∷ xs) ∷ rest else rest

abbrev pub is_empty : Bytes → Bool
is_empty [] = true
is_empty (x ∷ xs) = false

-- The slice from an index on.
abbrev pub drop : ℕ → Bytes → Bytes
drop ℕ.zero xs = xs
drop (ℕ.suc n) [] = []
drop (ℕ.suc n) (x ∷ xs) = drop n xs

-- `str::eq_ignore_ascii_case`.
unfoldable pub eq_ignore_ascii_case : Bytes → Bytes → Bool
unfolding to_lower
eq_ignore_ascii_case a b = length a == length b && zip_all same_letter a b

unfoldable pub contains_ignore_ascii_case : Bytes → Bytes → Bool
unfolding to_lower
contains_ignore_ascii_case haystack needle =
    if is_empty needle
    then true
    else if ltb (length haystack) (length needle)
    then false
    else any (λ window. zip_all same_letter window needle) (windows (length needle) haystack)

unfoldable pub ends_with_ignore_ascii_case : Bytes → Bytes → Bool
unfolding to_lower
ends_with_ignore_ascii_case haystack needle =
    leb (length needle) (length haystack)
    && zip_all same_letter (drop (length haystack - length needle) haystack) needle

abbrev pub matches_ignore_ascii_case : Bytes → List String → Bool
matches_ignore_ascii_case name candidates =
    any (λ candidate. eq_ignore_ascii_case name (as_bytes candidate)) candidates
