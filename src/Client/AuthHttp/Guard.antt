-- ===== src/Client/AuthHttp/Guard.antt =====
-- concord_core/src/client/auth_http.rs: the guards of the keys on the stack, dropped in any order.
use mathlib.Core.List.{append_assoc, append-nil}
use concord_api.Base.{
  ◌≡◌, refl, sym, ◌∙◌, ap, inl, inr, arith, Bool, true, false, ◌||◌, Bool-cases, beq, beq_refl,
  beq-eq-true, beq-sym-false, contains, String, String-discrete, some, Option-cases, List, [], ◌∷◌,
  ◌++◌, All, if◌then◌else◌,
}
use concord_api.Client.AuthHttp.{push, last, pop, remove_last, drop_stack_guard}

-- Another call of a provider in the same task: it enters with its key, unless that is on the stack, or
-- drops its guard.
pub data StackEvent : Type 0 where
  entered left : String → StackEvent

abbrev pub key_of : StackEvent → String
key_of (StackEvent.entered k) = k
key_of (StackEvent.left k) = k

abbrev pub after_event : List String → StackEvent → List String
after_event stack (StackEvent.entered k) =
    if contains String-discrete stack k then stack else push stack k
after_event stack (StackEvent.left k) = drop_stack_guard stack k

abbrev pub after_events : List String → List StackEvent → List String
after_events stack [] = stack
after_events stack (e ∷ es) = after_events (after_event stack e) es

abbrev has : List String → String → Bool
has = contains String-discrete

last-has : (s : List String) (k : String) → last s ≡ some k → has s k ≡ true
last-has [] k h = absurd cc
last-has (x ∷ xs) k h = elim (Option-cases (last xs)) [
  | inl e ↦ ground (arith, e, h, beq_refl String-discrete k)
  | inr (y, e) ↦ ground (arith, e, h, last-has xs k)
]

pop_lem : (s : List String) (k : String) → last s ≡ some k → pop s ≡ remove_last s k
pop_lem [] k h = refl
pop_lem (x ∷ []) k h = ground (arith, h, beq_refl String-discrete k)
pop_lem (x ∷ y ∷ ys) k h =
    let later : (last (y ∷ ys) ≡ some k) = elim (Option-cases (last ys)) [
      | inl e ↦ ground (arith, e, h)
      | inr (z, e) ↦ ground (arith, e, h)
    ] in
    ground (arith, last-has (y ∷ ys) k later, pop_lem (y ∷ ys) k later)

-- Popping is a shortcut for the removal of the last occurrence.
drop_lem : (s : List String) (k : String) → drop_stack_guard s k ≡ remove_last s k
drop_lem s k = elim (Option-cases (last s)) [
  | inl e ↦ ground (arith, e)
  | inr (item, e) ↦ elim (Bool-cases (beq String-discrete item k)) [
    | inl same ↦
        ground (arith, e, same, pop_lem s k (e ∙ ap some (beq-eq-true String-discrete item k same)))
    | inr other ↦ ground (arith, e, other)
  ]
]

module _ (key k : String) (other : beq String-discrete key k ≡ false) where
  has_other : (a b : List String) → has (a ++ key ∷ b) k ≡ has (a ++ b) k
  has_other [] b = ground (arith, other)
  has_other (x ∷ a) b = ap (λ c. beq String-discrete x k || c) (has_other a b)

remove_absent : (s : List String) (k : String) → has s k ≡ false → remove_last s k ≡ s
remove_absent [] k h = refl
remove_absent (x ∷ xs) k h = elim (Bool-cases (has xs k)) [
  | inl e ↦ ground (arith, e, h)
  | inr e ↦ ground (arith, e, h)
]

has_self : (a b : List String) (key : String) → has (a ++ key ∷ b) key ≡ true
has_self [] b key = ground (arith, beq_refl String-discrete key)
has_self (x ∷ a) b key = ground (arith, has_self a b key)

remove_self :
    (a b : List String) (key : String)
    → has (a ++ b) key ≡ false
    → remove_last (a ++ key ∷ b) key ≡ a ++ b
remove_self [] b key h = ground (arith, h, beq_refl String-discrete key)
remove_self (x ∷ a) b key h = ground (arith, h, has_self a b key, remove_self a b key)

-- The second stack is the first with the key put in somewhere, and the first has it nowhere.
abbrev IsWith : String → List String → List String → Type 0
IsWith key s t =
    (has s key ≡ false) × (a : List String) × (b : List String) × (s ≡ a ++ b) × (t ≡ a ++ key ∷ b)

has_append : (a b : List String) (k : String) → has (a ++ b) k ≡ (has a k || has b k)
has_append [] b k = refl
has_append (x ∷ a) b k = ground (arith, has_append a b k)

has_remove :
    (s : List String) (k key : String) → has s key ≡ false → has (remove_last s k) key ≡ false
has_remove [] k key h = refl
has_remove (x ∷ xs) k key h = elim (Bool-cases (has xs k)) [
  | inl e ↦ ground (arith, e, h, has_remove xs k key)
  | inr e ↦ elim (Bool-cases (beq String-discrete x k)) [
    | inl f ↦ ground (arith, e, f, h)
    | inr f ↦ ground (arith, e, f, h)
  ]
]

module _ (key k : String) (other : beq String-discrete key k ≡ false) where
  -- The removal of another key is the same on both stacks.
  remove_other :
      (a b : List String)
      → (a' : List String) × (b' : List String) × (remove_last (a ++ b) k ≡ a' ++ b')
        × (remove_last (a ++ key ∷ b) k ≡ a' ++ key ∷ b')
  remove_other [] b = elim (Bool-cases (has b k)) [
    | inl e ↦ ([], remove_last b k, refl, ground (arith, e))
    | inr e ↦ ([], b, remove_absent b k e, ground (arith, e, other))
  ]
  remove_other (x ∷ a) b =
      let same = has_other key k other a b in
      elim (Bool-cases (has (a ++ b) k)) [
        | inl e ↦
            let (a', b', p, q) = remove_other a b in
            (x ∷ a', b', ground (arith, e, p), ground (arith, e, same, q))
        | inr e ↦ elim (Bool-cases (beq String-discrete x k)) [
          | inl f ↦ (a, b, ground (arith, e, f), ground (arith, e, same, f))
          | inr f ↦ (x ∷ a, b, ground (arith, e, f), ground (arith, e, same, f))
        ]
      ]

-- Another call's event keeps the key where it is.
event-IsWith :
    (key : String) (e : StackEvent) (s t : List String)
    → beq String-discrete key (key_of e) ≡ false
    → IsWith key s t
    → IsWith key (after_event s e) (after_event t e)
event-IsWith key (StackEvent.left k) s t other (absent, a, b, p, q) =
    let (a', b', p', q') = remove_other key k other a b in
    (
      ap (λ z. has z key) (drop_lem s k) ∙ has_remove s k key absent,
      a',
      b',
      drop_lem s k ∙ (ap (λ z. remove_last z k) p ∙ p'),
      drop_lem t k ∙ (ap (λ z. remove_last z k) q ∙ q'),
    )
event-IsWith key (StackEvent.entered k) s t other (absent, a, b, p, q) =
    let same : (has t k ≡ has s k) =
      ap (λ z. has z k) q ∙ (has_other key k other a b ∙ sym (ap (λ z. has z k) p)) in
    elim (Bool-cases (has s k)) [
      | inl e ↦ (ground (arith, e, absent), a, b, ground (arith, e, p), ground (arith, e, same, q))
      | inr e ↦
          let grown : (has (push s k) key ≡ false) =
            ground (
              arith,
              absent,
              has_append s (k ∷ []) key,
              beq-sym-false String-discrete key k other,
            ) in
          let pushed : (push s k ≡ a ++ (b ++ k ∷ [])) =
            ap (λ z. push z k) p ∙ append_assoc a b (k ∷ []) in
          let both : (push t k ≡ a ++ key ∷ (b ++ k ∷ [])) =
            ap (λ z. push z k) q ∙ append_assoc a (key ∷ b) (k ∷ []) in
          (
            ground (arith, e, grown),
            a,
            b ++ k ∷ [],
            ground (arith, e, pushed),
            ground (arith, e, same, both),
          )
    ]

events-IsWith :
    (key : String) (events : List StackEvent) (s t : List String)
    → All (λ e. beq String-discrete key (key_of e) ≡ false) events
    → IsWith key s t
    → IsWith key (after_events s events) (after_events t events)
events-IsWith key [] s t others h = h
events-IsWith key (e ∷ events) s t (other, others) h =
    events-IsWith key events (after_event s e) (after_event t e) others
      (event-IsWith key e s t other h)

-- The guard of a key that was not on the stack, dropped after any other calls in the task have entered or
-- dropped guards of other keys, leaves the stack as if its call had never been.
pub drop_stack_guard-push :
    (stack : List String) (key : String) (events : List StackEvent)
    → contains String-discrete stack key ≡ false
    → All (λ e. beq String-discrete key (key_of e) ≡ false) events
    → drop_stack_guard (after_events (push stack key) events) key ≡ after_events stack events
drop_stack_guard-push stack key events absent others =
    let start : IsWith key stack (push stack key) =
      (absent, stack, [], sym (append-nil stack), refl) in
    let (gone, a, b, p, q) = events-IsWith key events stack (push stack key) others start in
    drop_lem (after_events (push stack key) events) key
    ∙ (ap (λ t. remove_last t key) q
        ∙ (remove_self a b key (ap (λ s. has s key) (sym p) ∙ gone) ∙ sym p))
