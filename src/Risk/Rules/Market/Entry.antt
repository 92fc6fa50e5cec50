-- ===== src/Risk/Rules/Market/Entry.antt =====
-- What the two rules on the live quote let through.
use execution_engine_multi.Prelude.{◌≡◌, refl, false, none, arith}
use execution_engine_multi.Prelude.Python.{Python, zero_f}
use execution_engine_multi.Domain.Signal.{SignalDirection, long, short}
use execution_engine_multi.Risk.Rules.Context.{RuleContext, Trackers, no_data}
use execution_engine_multi.Risk.Rules.Market.{
  Quote, quoted, bad_quote, fill_price, read_quote, actual_reward_risk, rr_of_levels, rr_of_quote,
  min_rr_rule, spread_threshold, spread_of_quote, spread_quality_rule,
}

module _ {F : Type 0} ⦃py : Python F⦄ where
  -- The stop and TP2 lie on their sides of the fill.
  abbrev pub IsBetween : SignalDirection → (fill stop tp2 : F) → Type 0
  IsBetween long fill stop tp2 = (py.leb fill stop ≡ false) × (py.leb tp2 fill ≡ false)
  IsBetween short fill stop tp2 = (py.leb stop fill ≡ false) × (py.leb fill tp2 ≡ false)

  -- The reward and the risk at a fill, in price units.
  abbrev pub reward_at : SignalDirection → (fill tp2 : F) → F
  reward_at long fill tp2 = py.sub tp2 fill
  reward_at short fill tp2 = py.sub fill tp2

  abbrev pub risk_at : SignalDirection → (fill stop : F) → F
  risk_at long fill stop = py.sub fill stop
  risk_at short fill stop = py.sub stop fill

module _ {F : Type 0} ⦃py : Python F⦄ (ctx : RuleContext F) where
  -- At the live fill the levels are in order, the reward is worth the risk, and the spread is
  -- small against the distance to the stop.
  pub record IsTradable (ask bid pip : F) : Type 0 where
    pub levels :
        IsBetween ctx.signal.direction
          (fill_price ctx.signal.direction ask bid)
          ctx.signal.stop_loss
          ctx.signal.tp2
    pub worth :
        py.ltb
          (py.div
            (py.div
              (reward_at ctx.signal.direction
                (fill_price ctx.signal.direction ask bid)
                ctx.signal.tp2)
              pip)
            (py.div
              (risk_at ctx.signal.direction
                (fill_price ctx.signal.direction ask bid)
                ctx.signal.stop_loss)
              pip))
          ctx.config.min_rr_ratio
        ≡ false
    pub spread_up : py.ltb (py.div (py.sub ask bid) pip) zero_f ≡ false
    pub spread_small :
        py.ltb (spread_threshold ctx) (
          py.div (py.div (py.sub ask bid) pip) (
            py.div
              (py.abs (py.sub (fill_price ctx.signal.direction ask bid) ctx.signal.stop_loss))
              pip))
        ≡ false

  at_fill :
      (d : SignalDirection) (min_rr fill stop tp2 pip : F)
      → (rr_of_levels min_rr (actual_reward_risk d fill stop tp2 pip)).reason ≡ none
      → IsBetween d fill stop tp2
        × (py.ltb
              (py.div (py.div (reward_at d fill tp2) pip) (py.div (risk_at d fill stop) pip))
              min_rr
            ≡ false)
  unfolding rr_of_levels actual_reward_risk
  at_fill long min_rr fill stop tp2 pip h = ground arith
  at_fill short min_rr fill stop tp2 pip h = ground arith

  spread_lem :
      (ask bid pip : F)
      → (spread_of_quote ctx (quoted ask bid pip)).reason ≡ none
      → (py.ltb (py.div (py.sub ask bid) pip) zero_f ≡ false)
        × (py.ltb (spread_threshold ctx) (
              py.div (py.div (py.sub ask bid) pip) (
                py.div
                  (py.abs (py.sub (fill_price ctx.signal.direction ask bid) ctx.signal.stop_loss))
                  pip))
            ≡ false)
  unfolding spread_of_quote
  spread_lem ask bid pip h = ground arith

  of_quote :
      (q : Quote F)
      → (rr_of_quote ctx q).reason ≡ none
      → (spread_of_quote ctx q).reason ≡ none
      → (ask bid pip : F) × (q ≡ quoted ask bid pip) × IsTradable ask bid pip
  unfolding rr_of_quote
  of_quote (bad_quote why) h k = cc
  of_quote (quoted ask bid pip) h k =
      let fill = fill_price ctx.signal.direction ask bid in
      let at =
        at_fill ctx.signal.direction ctx.config.min_rr_ratio fill ctx.signal.stop_loss
          ctx.signal.tp2 pip h in
      let spread = spread_lem ask bid pip k in
      (
        ask,
        bid,
        pip,
        refl,
        record { levels = at.0; worth = at.1; spread_up = spread.0; spread_small = spread.1 },
      )

  -- If both rules approve, there is a live quote at which the signal is tradable.
  pub market_rules_lem :
      (ts ts' : Trackers F)
      → (min_rr_rule ctx ts).1.reason ≡ none
      → (spread_quality_rule ctx ts').1.reason ≡ none
      → (ask bid pip : F) × (read_quote ctx.symbol_info ≡ quoted ask bid pip)
        × IsTradable ask bid pip
  unfolding min_rr_rule spread_quality_rule
  market_rules_lem ts ts' h k = of_quote (read_quote ctx.symbol_info) h k

module _ {F : Type 0} ⦃py : Python F⦄ where
  levels-is_silent :
      (ctx : RuleContext F) (d : SignalDirection) (min_rr fill stop tp2 pip : F)
      → (rr_of_levels min_rr (actual_reward_risk d fill stop tp2 pip)).entries ≡ no_data
  unfolding rr_of_levels actual_reward_risk
  levels-is_silent ctx long min_rr fill stop tp2 pip = ground arith
  levels-is_silent ctx short min_rr fill stop tp2 pip = ground arith

  rr_of_quote-is_silent :
      (ctx : RuleContext F) (q : Quote F) → (rr_of_quote ctx q).entries ≡ no_data
  unfolding rr_of_quote
  rr_of_quote-is_silent ctx (bad_quote why) = refl
  rr_of_quote-is_silent ctx (quoted ask bid pip) =
      levels-is_silent ctx ctx.signal.direction _ _ _ _ _

  spread_of_quote-is_silent :
      (ctx : RuleContext F) (q : Quote F) → (spread_of_quote ctx q).entries ≡ no_data
  unfolding spread_of_quote
  spread_of_quote-is_silent ctx (bad_quote why) = refl
  spread_of_quote-is_silent ctx (quoted ask bid pip) = ground arith

  pub min_rr-is_silent :
      (ctx : RuleContext F) (ts : Trackers F) → (min_rr_rule ctx ts).1.entries ≡ no_data
  unfolding min_rr_rule
  min_rr-is_silent ctx ts = rr_of_quote-is_silent ctx (read_quote ctx.symbol_info)

  pub spread-is_silent :
      (ctx : RuleContext F) (ts : Trackers F) → (spread_quality_rule ctx ts).1.entries ≡ no_data
  unfolding spread_quality_rule
  spread-is_silent ctx ts = spread_of_quote-is_silent ctx (read_quote ctx.symbol_info)
