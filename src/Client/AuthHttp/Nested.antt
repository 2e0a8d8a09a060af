-- ===== src/Client/AuthHttp/Nested.antt =====
-- concord_core/src/client/auth_http.rs: `send`, whose credential is prepared by calls that may nest.
use concord_api.Base.{
  ◌≡◌, refl, sym, subst, ◌∙◌, ap, inl, inr, ℕ, Bool, true, false, Bool-cases, contains, String,
  String-discrete, List, [], ok, err, ◌>>=◌, ◌>>◌, result_holds, if_holds,
}
use concord_api.Auth.Uses.{AuthRequirement}
use concord_api.Auth.Placement.{AuthPlacementPlan, PlannedAuthSlot}
use concord_api.Auth.Material.{AuthTransportMaterial}
use concord_api.Auth.Orchestrator.{prepare}
use concord_api.Transport.{materialize_authentication}
use concord_api.Client.AuthHttp.{
  AuthRequirementId, AuthMode, safe_fragment, Internal, AuthHttpCall, Step, push, drop_stack_guard,
  plan_of, checks, first_slot, prepare_guarded, is_recursive, auth_materials, execute_with, submit,
  send,
}
use concord_api.Client.AuthHttp.Guard.{drop_stack_guard-push}

module _ {W M V : Type 0} (call : AuthHttpCall W M V) where
  -- The providers leave the stack as they found it.
  abbrev pub StackKept : Type 0
  StackKept =
      (requirement : AuthRequirement) (slot : PlannedAuthSlot) (s : Internal W)
      → (prepare call.binding_of requirement slot s).1.stack ≡ s.stack

  abbrev Keeps : {A : Type 0} → List String → Step call A → Type 0
  Keeps stack r = r.1.stack ≡ stack

  prepare_guarded-stack :
      StackKept
      → (key : String) (requirement : AuthRequirement) (slot : PlannedAuthSlot) (s : Internal W)
      → contains String-discrete s.stack key ≡ false
      → (prepare_guarded call key requirement slot s).1.stack ≡ s.stack
  unfolding prepare_guarded
  prepare_guarded-stack kept key requirement slot s fresh =
      ap (λ t. drop_stack_guard t key)
        (kept requirement slot (record s { stack = push s.stack key }))
      ∙ drop_stack_guard-push s.stack key [] fresh tt

  auth_materials-stack :
      StackKept
      → (mode : AuthMode) (plan : AuthPlacementPlan) (s : Internal W)
      → (auth_materials call mode plan s).1.stack ≡ s.stack
  unfolding auth_materials
  auth_materials-stack kept AuthMode.skip_auth plan s = refl
  auth_materials-stack kept (AuthMode.use_auth id requirement) plan s =
      if_holds (Keeps s.stack) (is_recursive s.stack (safe_fragment id)) _ _ (λ recursive. refl)
        (λ fresh.
          result_holds (Keeps s.stack) (call.auth_state s.world >> first_slot call plan) _ _
            (λ e p. refl)
            (λ slot p. prepare_guarded-stack kept (safe_fragment id) requirement slot s fresh))

  executed-stack :
      (m : M) (plan : AuthPlacementPlan) (materials : List AuthTransportMaterial) (s : Internal W)
      → (execute_with call m plan materials s).1.stack ≡ s.stack
  unfolding execute_with
  executed-stack m plan materials s =
      result_holds (Keeps s.stack) (materialize_authentication call.native m plan.slots materials) _
        _ (λ e p. refl) (λ message p. refl)

  submit-stack :
      (plan : AuthPlacementPlan) (materials : List AuthTransportMaterial) (s : Internal W)
      → (submit call plan materials s).1.stack ≡ s.stack
  unfolding submit
  submit-stack plan materials s =
      result_holds (Keeps s.stack) (call.produce_body s.world).0 _ _ (λ e p. refl)
        (λ m p.
          executed-stack m plan materials (record s { world = (call.produce_body s.world).1 }))

  -- What a call that is on the stack already gives: an error, and a world as it was.
  abbrev pub IsRefused : Internal W → Step call (List ℕ) → Type 0
  IsRefused s (ok body, after) = ⊥
  IsRefused s (err e, after) = after.world ≡ s.world

  abbrev RefusedIf : Bool → Internal W → Step call (List ℕ) → Type 0
  RefusedIf true s r = IsRefused s r
  RefusedIf false s r = Unit

  abbrev pub RecursionRefused : AuthMode → Internal W → Step call (List ℕ) → Type 0
  RecursionRefused AuthMode.skip_auth s r = Unit
  RecursionRefused (AuthMode.use_auth id requirement) s r =
      RefusedIf (is_recursive s.stack (safe_fragment id)) s r

  plan_of-frame :
      (mode : AuthMode) (s : Internal W)
      → ((plan_of call mode s).1.stack ≡ s.stack) × ((plan_of call mode s).1.world ≡ s.world)
  plan_of-frame AuthMode.skip_auth s = (refl, refl)
  plan_of-frame (AuthMode.use_auth id requirement) s = (refl, refl)

  after_materials-stack :
      (plan : AuthPlacementPlan) (r : Step call (List AuthTransportMaterial)) (stack : List String)
      → r.1.stack ≡ stack
      → Keeps stack (elim r.0 [ err e ↦ (err e, r.1) | ok ms ↦ submit call plan ms r.1 ])
  after_materials-stack plan (err e, after) stack same = same
  after_materials-stack plan (ok ms, after) stack same = submit-stack plan ms after ∙ same

  materials-IsRefused :
      (id : AuthRequirementId) (requirement : AuthRequirement) (plan : AuthPlacementPlan)
      (s : Internal W)
      → is_recursive s.stack (safe_fragment id) ≡ true
      → let r = auth_materials call (AuthMode.use_auth id requirement) plan s in
        IsRefused s (elim r.0 [ err e ↦ (err e, r.1) | ok ms ↦ submit call plan ms r.1 ])
  unfolding auth_materials
  materials-IsRefused id requirement plan s recursive =
      if_holds
        (λ (r : Step call (List AuthTransportMaterial)).
          IsRefused s (elim r.0 [ err e ↦ (err e, r.1) | ok ms ↦ submit call plan ms r.1 ]))
        (is_recursive s.stack (safe_fragment id)) _ _ (λ _. refl)
        (λ fresh. absurd cc (recursive, fresh))

  -- `send` in any mode.
  abbrev send_as : AuthMode → Internal W → Step call (List ℕ)
  send_as mode s =
      let (planned, s') = plan_of call mode s in
      elim (planned >>= λ plan. checks call plan >> ok plan) [
        | err e ↦ (err e, s')
        | ok plan ↦
            let (materials, after) = auth_materials call mode plan s' in
            elim materials [ err e ↦ (err e, after) | ok ms ↦ submit call plan ms after ]
      ]

  send_as-stack : StackKept → (mode : AuthMode) (s : Internal W) → Keeps s.stack (send_as mode s)
  send_as-stack kept mode s =
      let (stack, world) = plan_of-frame mode s in
      let (planned, s') = plan_of call mode s in
      result_holds (Keeps s.stack) (planned >>= λ plan. checks call plan >> ok plan) _ _
        (λ e p. stack)
        (λ plan p.
          after_materials-stack plan (auth_materials call mode plan s') s.stack
            (auth_materials-stack kept mode plan s' ∙ stack))

  send_as-RecursionRefused :
      (mode : AuthMode) (s : Internal W) → RecursionRefused mode s (send_as mode s)
  send_as-RecursionRefused AuthMode.skip_auth s = tt
  send_as-RecursionRefused (AuthMode.use_auth id requirement) s =
      elim (Bool-cases (is_recursive s.stack (safe_fragment id))) [
        | inr fresh ↦
            subst (λ b. RefusedIf b s (send_as (AuthMode.use_auth id requirement) s)) (sym fresh) tt
        | inl recursive ↦
            let (planned, s') = plan_of call (AuthMode.use_auth id requirement) s in
            subst (λ b. RefusedIf b s (send_as (AuthMode.use_auth id requirement) s))
              (sym recursive)
              (result_holds (IsRefused s) (planned >>= λ plan. checks call plan >> ok plan) _ _
                (λ e p. refl) (λ plan p. materials-IsRefused id requirement plan s' recursive))
      ]

  -- Where the providers leave the stack as they found it, so does a call of a provider, whatever it gives;
  -- and a call whose key is on the stack already gives an error, and no provider and no server is called.
  pub send-StackKept :
      StackKept
      → (s : Internal W)
      → ((send call s).1.stack ≡ s.stack) × RecursionRefused call.mode s (send call s)
  unfolding send
  send-StackKept kept s = (send_as-stack kept call.mode s, send_as-RecursionRefused call.mode s)
