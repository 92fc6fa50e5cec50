-- ===== src/Positions/Manager/Counts.antt =====
-- The close orders in a trace of the position manager, counted by how the broker answered.
use execution_engine_multi.Prelude.{ℕ, ◌+◌, ◌≡◌, refl, List, [], ◌∷◌, ◌++◌, arith}
use execution_engine_multi.Brokers.{executed, executed_unconfirmed, failed}
use execution_engine_multi.Positions.Manager.State.{
  Effect, close_sent, levels_sent, save_called, trade_tp1_hit, trade_tp2_hit, trade_sl_hit,
  trade_closed,
}

module _ {F : Type 0} where
  -- 1 for a close order that is done and confirmed.
  abbrev pub weight : Effect F → ℕ
  weight (close_sent _ executed) = 1
  weight _ = 0

  -- 1 for a close order that is done, confirmed or not.
  abbrev executed_weight : Effect F → ℕ
  executed_weight (close_sent _ executed) = 1
  executed_weight (close_sent _ executed_unconfirmed) = 1
  executed_weight _ = 0

  abbrev unconfirmed_weight : Effect F → ℕ
  unconfirmed_weight (close_sent _ executed_unconfirmed) = 1
  unconfirmed_weight _ = 0

  -- The close orders that the broker executed, and those of them whose confirmation failed.
  abbrev pub closes_executed : List (Effect F) → ℕ
  closes_executed [] = 0
  closes_executed (e ∷ es) = executed_weight e + closes_executed es

  abbrev pub closes_unconfirmed : List (Effect F) → ℕ
  closes_unconfirmed [] = 0
  closes_unconfirmed (e ∷ es) = unconfirmed_weight e + closes_unconfirmed es

  abbrev pub closes_done : List (Effect F) → ℕ
  closes_done [] = 0
  closes_done (e ∷ es) = weight e + closes_done es

  weight_lem : (e : Effect F) → executed_weight e ≡ weight e + unconfirmed_weight e
  weight_lem (close_sent _ executed) = refl
  weight_lem (close_sent _ executed_unconfirmed) = refl
  weight_lem (close_sent _ failed) = refl
  weight_lem (levels_sent _ _) = refl
  weight_lem (save_called _) = refl
  weight_lem (trade_tp1_hit _) = refl
  weight_lem (trade_tp2_hit _) = refl
  weight_lem (trade_sl_hit _) = refl
  weight_lem (trade_closed _) = refl

  pub closes_executed_lem :
      (es : List (Effect F)) → closes_executed es ≡ closes_done es + closes_unconfirmed es
  closes_executed_lem [] = refl
  closes_executed_lem (e ∷ es) = omega (arith, weight_lem e, closes_executed_lem es)

  pub closes_done-append :
      (es fs : List (Effect F)) → closes_done (es ++ fs) ≡ closes_done es + closes_done fs
  closes_done-append [] fs = omega arith
  closes_done-append (e ∷ es) fs = omega (arith, closes_done-append es fs)
