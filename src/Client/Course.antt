-- ===== src/Client/Course.antt =====
-- concord_core/src/client/execute.rs: what the actions of an execution leave in its log.
mod Before
mod After
mod Rounds
pub mod Driven
use concord_api.Base.{
  ◌≡◌, refl, sym, ap, subst, ◌∙◌, inl, inr, Bool, true, false, Bool-cases, Option, none, some, List,
  [], ◌∷◌, Result, ok, err, if◌then◌else◌,
}
use concord_api.Error.{ApiClientError}
use concord_api.Client.Run.{Event, State, Action, continue}

module _ {W : Type 0} where
  -- The log after a result, and the log after an error.
  abbrev pub Ends :
      {A : Type 0}
      → (A → List Event → Type 0)
      → (List Event → Type 0)
      → Result ApiClientError A × State W
      → Type 0
  Ends Q E (ok a, s) = Q a s.log
  Ends Q E (err e, s) = E s.log

  -- The action leaves the log alone.
  abbrev pub Quiet : {A : Type 0} → Action W A → Type 0
  Quiet m = (s : State W) → (m s).1.log ≡ s.log

  pub quiet_then :
      {A B : Type 0} (R : B → List Event → Type 0) (E : List Event → Type 0) (log : List Event)
      (k : A → Action W B) (r : Result ApiClientError A × State W)
      → r.1.log ≡ log
      → E log
      → ((a : A) (s : State W) → s.log ≡ log → Ends R E (k a s))
      → Ends R E (continue k r)
  quiet_then R E log k (ok a, s) same failed next = next a s same
  quiet_then R E log k (err e, s) same failed next = subst E (sym same) failed

  pub Ends-then :
      {A B : Type 0} (Q : A → List Event → Type 0) (R : B → List Event → Type 0)
      (E : List Event → Type 0) (k : A → Action W B) (r : Result ApiClientError A × State W)
      → Ends Q E r
      → ((a : A) (s : State W) → Q a s.log → Ends R E (k a s))
      → Ends R E (continue k r)
  Ends-then Q R E k (ok a, s) ended next = next a s ended
  Ends-then Q R E k (err e, s) ended next = ended

  pub settled :
      {A : Type 0} (Q : A → List Event → Type 0) (E : List Event → Type 0) (log : List Event)
      (r : Result ApiClientError A × State W)
      → r.1.log ≡ log
      → ((a : A) → Q a log)
      → E log
      → Ends Q E r
  settled Q E log (ok a, s) same ended failed = subst (Q a) (sym same) (ended a)
  settled Q E log (err e, s) same ended failed = subst E (sym same) failed

  -- Both branches of a test, each with what the test says.
  pub if_Ends :
      {A : Type 0} (Q : A → List Event → Type 0) (E : List Event → Type 0) (b : Bool)
      (m n : Action W A) (s : State W)
      → (b ≡ true → Ends Q E (m s))
      → (b ≡ false → Ends Q E (n s))
      → Ends Q E ((if b then m else n) s)
  if_Ends Q E true m n s then_branch else_branch = then_branch refl
  if_Ends Q E false m n s then_branch else_branch = else_branch refl

  pub if_quiet :
      {A : Type 0} (b : Bool) (m n : Action W A) (s : State W)
      → (m s).1.log ≡ s.log
      → (n s).1.log ≡ s.log
      → ((if b then m else n) s).1.log ≡ s.log
  if_quiet true m n s hm hn = hm
  if_quiet false m n s hm hn = hn

  pub weaken :
      {A : Type 0} (Q Q' : A → List Event → Type 0) (E E' : List Event → Type 0)
      (r : Result ApiClientError A × State W)
      → ((a : A) (log : List Event) → Q a log → Q' a log)
      → ((log : List Event) → E log → E' log)
      → Ends Q E r
      → Ends Q' E' r
  weaken Q Q' E E' (ok a, s) ended failed h = ended a s.log h
  weaken Q Q' E E' (err e, s) ended failed h = failed s.log h

  pub Quiet-continue :
      {A B : Type 0} (k : A → Action W B) (r : Result ApiClientError A × State W)
      → ((a : A) → Quiet (k a))
      → (continue k r).1.log ≡ r.1.log
  Quiet-continue k (ok a, s) quiet = quiet a s
  Quiet-continue k (err e, s) quiet = refl
