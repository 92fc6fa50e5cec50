-- ===== src/Manager/SignalRouter/Routing/Matching.antt =====
-- The test whether a text occurs in another, and the Boolean tests of the routing.
use Prim.Native.String.{◌++◌}
use text.Mathlib.Text.{starts_with}
use text.Mathlib.TextEquality.{starts_with_iff}
use text.Mathlib.TextLemmas.{nil-append, cons-append}
use text.Mathlib.TextPositions.{starts_with-append}
use execution_engine_multi.Prelude.{
  ◌≡◌, ◌≢◌, ◌↔◌, ◌⊎◌, inl, inr, refl, ap, ◌∙◌, eq_iff, String, ◌==◌, Bool, true, false, not, ◌&&◌,
  ◌||◌, arith, Bool-cases,
}
use execution_engine_multi.Manager.SignalRouter.Routing.{occurs_in}

-- The text is the part with something before it and something behind it.
abbrev pub IsPart : (part text : String) → Type 0
IsPart part text = (before : String) × (behind : String) × ((before ++ (part ++ behind)) ≡ text)

occurs_in-start : (part text : String) → starts_with text part ≡ true → occurs_in part text ≡ true
unfolding occurs_in
occurs_in-start part String.[] h = h
occurs_in-start part (String.◌∷◌ c text) h = rw h refl

pub IsPart-occurs :
    (part before behind : String) → occurs_in part (before ++ (part ++ behind)) ≡ true
unfolding occurs_in
IsPart-occurs part String.[] behind =
    rw (nil-append (part ++ behind))
      (occurs_in-start part (part ++ behind) (starts_with-append part behind))
IsPart-occurs part (String.◌∷◌ c before) behind =
    rw (cons-append c before (part ++ behind))
      (later (starts_with _ part) (occurs_in part _) (IsPart-occurs part before behind))
  where
    later : (a b : Bool) → b ≡ true → (a || b) ≡ true
    later true b e = refl
    later false b e = e

starts-IsPart : (part text : String) → starts_with text part ≡ true → IsPart part text
starts-IsPart part text h =
    let (behind, e) = (starts_with_iff text part).0 h in
    (String.[], behind, nil-append (part ++ behind) ∙ e)

pub occurs-IsPart : (part text : String) → occurs_in part text ≡ true → IsPart part text
unfolding occurs_in
occurs-IsPart part String.[] h = starts-IsPart part String.[] h
occurs-IsPart part (String.◌∷◌ c text) h =
    elim (Bool-cases (starts_with (String.◌∷◌ c text) part)) [
      | inl here ↦ starts-IsPart part (String.◌∷◌ c text) here
      | inr miss ↦
          let (before, behind, e) = occurs-IsPart part text (ground (arith, h, miss)) in
          (
            String.◌∷◌ c before,
            behind,
            cons-append c before (part ++ behind) ∙ ap (λ (x : String). String.◌∷◌ c x) e,
          )
    ]

pub or_cases : (a b : Bool) → (a || b) ≡ true → (a ≡ true) ⊎ (b ≡ true)
or_cases true b e = inl refl
or_cases false b e = inr e

pub or_true : (a b : Bool) → (a ≡ true) ⊎ (b ≡ true) → (a || b) ≡ true
or_true true b e = refl
or_true false b (inl e) = cc
or_true false b (inr e) = e

pub and_cases : (a b : Bool) → (a && b) ≡ true → (a ≡ true) × (b ≡ true)
and_cases true b e = (refl, e)
and_cases false b e = cc

pub and_true : (a b : Bool) → a ≡ true → b ≡ true → (a && b) ≡ true
and_true true b e h = h
and_true false b e h = cc

pub is_empty_lem : (x : String) → (not (x == "") ≡ true) ↔ (x ≢ "")
is_empty_lem x = (
  λ h e. let same = (eq_iff x "").1 e in cc,
  λ h. elim (Bool-cases (x == "")) [
    | inl same ↦ absurd (h ((eq_iff x "").0 same))
    | inr apart ↦ rw apart refl
  ],
)
