-- ===== src/Checks/Floats.antt =====
-- Fixed-point numbers with eight decimals, which satisfy what the theorems ask of floats.
use execution_engine_multi.Prelude.{
  ℕ, ◌+◌, ◌*◌, ◌/◌, ◌^◌, ◌≡◌, refl, Bool, true, false, not, List, [], ◌∷◌, arith, eqb,
}
use execution_engine_multi.Prelude.Int.{
  ℤ, pos, negsuc, pos_part, neg_part, sub_ℕ, ◌+ℤ◌, ◌-ℤ◌, ltb_ℤ, leb_ℤ, abs_ℤ,
}
use execution_engine_multi.Prelude.Python.{Python, FloatOrder}

abbrev scale : ℕ
scale = 100000000

abbrev magnitude : ℤ → ℕ
magnitude a = pos_part a + neg_part a

abbrev signed : Bool → ℕ → ℤ
signed true n = pos n
signed false n = sub_ℕ 0 n

abbrev is_same_sign : ℤ → ℤ → Bool
is_same_sign (pos _) (pos _) = true
is_same_sign (negsuc _) (negsuc _) = true
is_same_sign _ _ = false

abbrev sum_ℤ : List ℤ → ℤ
sum_ℤ [] = pos 0
sum_ℤ (a ∷ rest) = a +ℤ sum_ℤ rest

instance abbrev pub Python-ℤ : Python ℤ
Python-ℤ = record {
  add = ◌+ℤ◌;
  sub = ◌-ℤ◌;
  mul = λ a b. signed (is_same_sign a b) (magnitude a * magnitude b / scale);
  div = λ a b. signed (is_same_sign a b) (magnitude a * scale / magnitude b);
  ltb = ltb_ℤ;
  leb = leb_ℤ;
  eqb = λ a b. eqb (pos_part a + neg_part b) (pos_part b + neg_part a);
  lit = λ m e. pos (m * scale / 10 ^ e);
  floor = λ a. signed (is_same_sign a (pos 0)) (magnitude a / scale * scale);
  round = λ a n. a;
  abs = abs_ℤ;
  sum = sum_ℤ;
  upper = λ t. t;
  is_space = λ c. false;
  show_int = λ n. "n";
}

sub_ℤ-nonneg : (a b : ℤ) → ltb_ℤ a b ≡ false → ltb_ℤ (a -ℤ b) (pos 0) ≡ false
unfolding ◌-ℤ◌
sub_ℤ-nonneg (pos a) (pos b) h = ground arith
sub_ℤ-nonneg (pos a) (negsuc b) h = ground arith
sub_ℤ-nonneg (negsuc a) (pos b) h = ground arith
sub_ℤ-nonneg (negsuc a) (negsuc b) h = ground arith

ltb_ℤ-irrefl : (a : ℤ) → ltb_ℤ a a ≡ false
ltb_ℤ-irrefl a = ground arith

ltb_ℤ-trans : (a b c : ℤ) → ltb_ℤ a b ≡ true → ltb_ℤ b c ≡ true → ltb_ℤ a c ≡ true
ltb_ℤ-trans a b c h k = ground arith

ltb_ℤ-cotrans : (a b c : ℤ) → ltb_ℤ a c ≡ true → ltb_ℤ b c ≡ false → ltb_ℤ a b ≡ true
ltb_ℤ-cotrans a b c h k = ground arith

leb_ℤ_lem : (a b : ℤ) → leb_ℤ a b ≡ not (ltb_ℤ b a)
leb_ℤ_lem a b = ground arith

pub FloatOrder-ℤ : FloatOrder Python-ℤ
FloatOrder-ℤ = record {
  lt_irrefl = ltb_ℤ-irrefl;
  lt_trans = ltb_ℤ-trans;
  lt_cotrans = ltb_ℤ-cotrans;
  le_not_lt = leb_ℤ_lem;
  one_pos = refl;
  sub_nonneg = sub_ℤ-nonneg;
}
