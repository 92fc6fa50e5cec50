-- ===== src/Risk/Throttle/Drawdown.antt =====
-- The drawdown against its description by prefixes.
use execution_engine_multi.Prelude.{
  ℕ, ◌≡◌, refl, ◌∙◌, ◌⊎◌, true, false, [], ◌∷◌, if◌then◌else◌, Bool-cases, inl, inr,
}
use execution_engine_multi.Prelude.Python.{Python, FloatOrder, zero_f, max_f}
use execution_engine_multi.Risk.Throttle.{Window, drawdown_from, compute_drawdown_r}

module _ {F : Type 0} ⦃py : Python F⦄ where
  -- The running sum of the contributions, from the left.
  abbrev pub sum_from : F → Window F → F
  sum_from total [] = total
  sum_from total ((_, c) ∷ w) = sum_from (py.add total c) w

  -- The running sum is at some time `s`.
  pub data Attains (s : F) : F → Window F → Type 0 where
    now : {total : F} {w : Window F} → s ≡ total → Attains s total w
    later :
        {total c : F} {at : ℕ} {w : Window F}
        → Attains s (py.add total c) w
        → Attains s total ((at, c) ∷ w)

  -- Some running sum, or the baseline, is the peak, and none is above it.
  pub record IsPeak (peak baseline total : F) (w : Window F) : Type 0 where
    pub attained : (peak ≡ baseline) ⊎ Attains peak total w
    pub highest : (s : F) → Attains s total w → py.ltb peak s ≡ false
    pub above_baseline : py.ltb peak baseline ≡ false

module _ {F : Type 0} ⦃py : Python F⦄ (laws : FloatOrder py) where
  -- The new peak of one round is at least the old one and the new total.
  raise : F → F → F
  raise peak total = if py.ltb peak total then total else peak

  raise_ge :
      (peak total : F)
      → (py.ltb (raise peak total) total ≡ false) × (py.ltb (raise peak total) peak ≡ false)
  unfolding raise
  raise_ge peak total = elim (Bool-cases (py.ltb peak total)) [
    | inl up ↦ rw up (laws.lt_irrefl total, not_back up)
    | inr same ↦ rw same (same, laws.lt_irrefl peak)
  ]
    where
      not_back : py.ltb peak total ≡ true → py.ltb total peak ≡ false
      not_back up = elim (Bool-cases (py.ltb total peak)) [
        | inl back ↦ cc (laws.lt_trans peak total peak up back, laws.lt_irrefl peak)
        | inr no_back ↦ no_back
      ]

  -- `<=` is transitive.
  ge_trans : (a b c : F) → py.ltb b a ≡ false → py.ltb c b ≡ false → py.ltb c a ≡ false
  ge_trans a b c h k = elim (Bool-cases (py.ltb c a)) [
    | inl lt ↦ cc (laws.lt_cotrans c b a lt h)
    | inr ge ↦ ge
  ]

  raise_cases : (peak total : F) → (raise peak total ≡ peak) ⊎ (raise peak total ≡ total)
  unfolding raise
  raise_cases peak total = elim (Bool-cases (py.ltb peak total)) [
    | inl up ↦ inr (rw up)
    | inr same ↦ inl (rw same)
  ]

  highest_nil :
      (peak total s : F) → py.ltb peak total ≡ false → Attains s total [] → py.ltb peak s ≡ false
  highest_nil peak total s h (now e) = rw e h

  highest_cons :
      {total c : F} {at : ℕ} {w : Window F} (p s : F)
      → py.ltb p total ≡ false
      → ((s : F) → Attains s (py.add total c) w → py.ltb p s ≡ false)
      → Attains s total ((at, c) ∷ w)
      → py.ltb p s ≡ false
  highest_cons p s h rest (now e) = rw e h
  highest_cons p s h rest (later r) = rest s r

  attained_cons :
      (p peak total c : F) (at : ℕ) (w : Window F)
      → (p ≡ raise peak (py.add total c)) ⊎ Attains p (py.add total c) w
      → (p ≡ peak) ⊎ Attains p total ((at, c) ∷ w)
  attained_cons p peak total c at w (inr r) = inr (later r)
  attained_cons p peak total c at w (inl e) = elim (raise_cases peak (py.add total c)) [
    | inl old ↦ inl (e ∙ old)
    | inr new ↦ inr (later (now (e ∙ new)))
  ]

  drawdown_from-IsPeak :
      (w : Window F) (total peak : F)
      → py.ltb peak total ≡ false
      → (p : F) × (drawdown_from total peak w ≡ max_f zero_f (py.sub p (sum_from total w)))
        × IsPeak p peak total w
  unfolding drawdown_from raise
  drawdown_from-IsPeak [] total peak h = (
    peak,
    refl,
    record {
      attained = inl refl;
      highest = λ s. highest_nil peak total s h;
      above_baseline = laws.lt_irrefl peak;
    },
  )
  drawdown_from-IsPeak ((at, c) ∷ w) total peak h =
      let total' = py.add total c in
      let (p, e, spec) =
        drawdown_from-IsPeak w total' (raise peak total') (raise_ge peak total').0 in
      let above =
        ge_trans peak (raise peak total') p (raise_ge peak total').1 spec.above_baseline in
      (
        p,
        e,
        record {
          attained = attained_cons p peak total c at w spec.attained;
          highest = λ s. highest_cons p s (ge_trans total peak p h above) spec.highest;
          above_baseline = above;
        },
      )

  max_zero_nonneg : (x : F) → py.ltb (max_f zero_f x) zero_f ≡ false
  max_zero_nonneg x = elim (Bool-cases (py.ltb zero_f x)) [
    | inl up ↦ rw up (not_back up)
    | inr flat ↦ rw flat (laws.lt_irrefl zero_f)
  ]
    where
      not_back : py.ltb zero_f x ≡ true → py.ltb x zero_f ≡ false
      not_back up = elim (Bool-cases (py.ltb x zero_f)) [
        | inl back ↦ cc (laws.lt_trans zero_f x zero_f up back, laws.lt_irrefl zero_f)
        | inr no_back ↦ no_back
      ]

  -- The drawdown of a window is the distance from the highest running sum, with the baseline zero
  -- counted, down to the last one, and it is never negative.
  pub compute_drawdown_r_lem :
      (w : Window F)
      → ((p : F) × (compute_drawdown_r w ≡ max_f zero_f (py.sub p (sum_from zero_f w)))
          × IsPeak p zero_f zero_f w)
        × (py.ltb (compute_drawdown_r w) zero_f ≡ false)
  unfolding compute_drawdown_r
  compute_drawdown_r_lem w =
      let (p, e, spec) = drawdown_from-IsPeak w zero_f zero_f (laws.lt_irrefl zero_f) in
      ((p, e, spec), rw e (max_zero_nonneg (py.sub p (sum_from zero_f w))))
