-- ===== src/Risk/Engine/Verdict.antt =====
-- The verdict of the rule loop, for any list of rules.
use execution_engine_multi.Prelude.{
  ◌≡◌, ◌≢◌, refl, ◌∙◌, ◌↔◌, inl, inr, none, some, Option-cases, List, [], ◌∷◌,
}
use execution_engine_multi.Prelude.Python.{Python}
use execution_engine_multi.Risk.Rules.Context.{
  RiskReason, RuleData, RuleContext, Trackers, RiskRule, no_data,
}
use execution_engine_multi.Risk.Engine.{
  RiskDecision, rejected, approved, run_rules, evaluate, merge, compose,
}

module _ {F : Type 0} where
  -- Every rule approves, each with the trackers that those before it left.
  abbrev pub Passes : List (RiskRule F) → RuleContext F → Trackers F → Type 0
  Passes [] ctx ts = Unit
  Passes (rule ∷ rules) ctx ts = ((rule ctx ts).1.reason ≡ none) × Passes rules ctx (rule ctx ts).0

  -- A rule rejects for the reason, and all those before it approve.
  pub data FirstRejection (ctx : RuleContext F)
      : List (RiskRule F) → Trackers F → RiskReason → Type 0 where
    here :
        {rule : RiskRule F} {rules : List (RiskRule F)} {ts : Trackers F} {why : RiskReason}
        → (rule ctx ts).1.reason ≡ some why
        → FirstRejection ctx (rule ∷ rules) ts why
    later :
        {rule : RiskRule F} {rules : List (RiskRule F)} {ts : Trackers F} {why : RiskReason}
        → (rule ctx ts).1.reason ≡ none
        → FirstRejection ctx rules (rule ctx ts).0 why
        → FirstRejection ctx (rule ∷ rules) ts why

module _ {F : Type 0} ⦃py : Python F⦄ (ctx : RuleContext F) where
  -- One round of the loop, by the result of its rule.
  pub run_rules_pass :
      (rule : RiskRule F) (rules : List (RiskRule F)) (ts : Trackers F) (found : RuleData F)
      → (rule ctx ts).1.reason ≡ none
      → run_rules (rule ∷ rules) ctx ts found
        ≡ run_rules rules ctx (rule ctx ts).0 (merge found (rule ctx ts).1.entries)
  unfolding run_rules
  run_rules_pass rule rules ts found e = rw (e, run_rules)

  run_rules_reject :
      (rule : RiskRule F) (rules : List (RiskRule F)) (ts : Trackers F) (found : RuleData F)
      {why : RiskReason}
      → (rule ctx ts).1.reason ≡ some why
      → run_rules (rule ∷ rules) ctx ts found ≡ ((rule ctx ts).0, rejected why)
  unfolding run_rules
  run_rules_reject rule rules ts found e = rw (e, run_rules)

  pub run_rules_reject-ne :
      (rule : RiskRule F) (rules : List (RiskRule F)) (ts : Trackers F) (found : RuleData F)
      {why : RiskReason} {d : RuleData F}
      → (rule ctx ts).1.reason ≡ some why
      → (run_rules (rule ∷ rules) ctx ts found).1 ≢ approved d
  run_rules_reject-ne rule rules ts found e h =
      never (rw (run_rules_reject rule rules ts found e) at h)
    where
      never : {why : RiskReason} {d : RuleData F} → ¬ (rejected why ≡ approved d)
      never e = cc

  run_rules-Passes :
      (rules : List (RiskRule F)) (ts : Trackers F) (found : RuleData F) {d : RuleData F}
      → (run_rules rules ctx ts found).1 ≡ approved d
      → Passes rules ctx ts
  run_rules-Passes [] ts found h = tt
  run_rules-Passes (rule ∷ rules) ts found h = elim (Option-cases (rule ctx ts).1.reason) [
    | inl ok ↦ (
      ok,
      run_rules-Passes rules (rule ctx ts).0 (merge found (rule ctx ts).1.entries)
          (rw (run_rules_pass rule rules ts found ok) at h),
    )
    | inr (why, e) ↦ absurd (run_rules_reject-ne rule rules ts found e h)
  ]

  run_rules_approves :
      (rules : List (RiskRule F)) (ts : Trackers F) (found : RuleData F)
      → Passes rules ctx ts
      → (d : RuleData F) × ((run_rules rules ctx ts found).1 ≡ approved d)
  unfolding run_rules
  run_rules_approves [] ts found h = (compose found, refl)
  run_rules_approves (rule ∷ rules) ts found (ok, rest) =
      rw (run_rules_pass rule rules ts found ok)
        (run_rules_approves rules (rule ctx ts).0 (merge found (rule ctx ts).1.entries) rest)

  run_rules-FirstRejection :
      (rules : List (RiskRule F)) (ts : Trackers F) (found : RuleData F) {why : RiskReason}
      → (run_rules rules ctx ts found).1 ≡ rejected why
      → FirstRejection ctx rules ts why
  unfolding run_rules
  run_rules-FirstRejection [] ts found h = cc
  run_rules-FirstRejection (rule ∷ rules) ts found {why} h =
      elim (Option-cases (rule ctx ts).1.reason) [
        | inl ok ↦ later ok (
            run_rules-FirstRejection rules (rule ctx ts).0 (merge found (rule ctx ts).1.entries)
              (rw (run_rules_pass rule rules ts found ok) at h))
        | inr (other, e) ↦ here (e ∙ same (rw (run_rules_reject rule rules ts found e) at h))
      ]
    where
      same :
          {a b : RiskReason} → ◌≡◌ {A = RiskDecision F} (rejected a) (rejected b) → some a ≡ some b
      same e = cc

  run_rules_rejects :
      (rules : List (RiskRule F)) (ts : Trackers F) (found : RuleData F) {why : RiskReason}
      → FirstRejection ctx rules ts why
      → (run_rules rules ctx ts found).1 ≡ rejected why
  run_rules_rejects [] ts found h = elim h [ ]
  run_rules_rejects (rule ∷ rules) ts found (here e) = rw (run_rules_reject rule rules ts found e)
  run_rules_rejects (rule ∷ rules) ts found (later ok rest) =
      rw (run_rules_pass rule rules ts found ok)
        (run_rules_rejects rules (rule ctx ts).0 (merge found (rule ctx ts).1.entries) rest)

  -- A list of rules that is not empty approves exactly if every rule does, in its turn, and it
  -- rejects exactly for the reason of the first rule that rejects.
  pub evaluate_verdict :
      (rule : RiskRule F) (rules : List (RiskRule F)) (ts : Trackers F)
      → (((d : RuleData F) × ((evaluate (rule ∷ rules) ctx ts).1 ≡ approved d))
          ↔ Passes (rule ∷ rules) ctx ts)
        × ((why : RiskReason)
            → ((evaluate (rule ∷ rules) ctx ts).1 ≡ rejected why)
              ↔ FirstRejection ctx (rule ∷ rules) ts why)
  unfolding evaluate
  evaluate_verdict rule rules ts = (
    (
      λ (d, h). run_rules-Passes (rule ∷ rules) ts no_data h,
      λ h. run_rules_approves (rule ∷ rules) ts no_data h,
    ),
    λ why. (
      λ h. run_rules-FirstRejection (rule ∷ rules) ts no_data h,
      λ h. run_rules_rejects (rule ∷ rules) ts no_data h,
    ),
  )
