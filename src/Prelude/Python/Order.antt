-- ===== src/Prelude/Python/Order.antt =====
-- The order of floats, and `min` and `max` in it.
use execution_engine_multi.Prelude.{◌≡◌, inl, inr, true, false, Bool-cases}
use execution_engine_multi.Prelude.Python.{Python, FloatOrder, min_f, max_f}

module _ {F : Type 0} ⦃py : Python F⦄ (laws : FloatOrder py) where
  -- If `b` is at most `a`, then what is above `a` is above `b`.
  pub not_above : (a b c : F) → py.ltb a b ≡ false → py.ltb b c ≡ false → py.ltb a c ≡ false
  not_above a b c h k = elim (Bool-cases (py.ltb a c)) [
    | inl above ↦ cc (laws.lt_cotrans a b c above k, h)
    | inr fine ↦ fine
  ]

  pub not_back : (a b : F) → py.ltb a b ≡ true → py.ltb b a ≡ false
  not_back a b up = elim (Bool-cases (py.ltb b a)) [
    | inl back ↦ cc (laws.lt_trans a b a up back, laws.lt_irrefl a)
    | inr fine ↦ fine
  ]

  pub min_f_le : (a b : F) → (py.ltb a (min_f a b) ≡ false) × (py.ltb b (min_f a b) ≡ false)
  min_f_le a b = elim (Bool-cases (py.ltb b a)) [
    | inl less ↦ rw less (not_back b a less, laws.lt_irrefl b)
    | inr not_less ↦ rw not_less (laws.lt_irrefl a, not_less)
  ]

  pub max_f_ge : (a b : F) → (py.ltb (max_f a b) a ≡ false) × (py.ltb (max_f a b) b ≡ false)
  max_f_ge a b = elim (Bool-cases (py.ltb a b)) [
    | inl less ↦ rw less (not_back a b less, laws.lt_irrefl b)
    | inr not_less ↦ rw not_less (laws.lt_irrefl a, not_less)
  ]
