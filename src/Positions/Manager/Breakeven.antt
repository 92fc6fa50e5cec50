-- ===== src/Positions/Manager/Breakeven.antt =====
-- Where the break-even stop goes.
use execution_engine_multi.Prelude.{
  ◌≡◌, refl, ◌⊎◌, inl, inr, true, false, none, some, Bool-cases, if◌then◌else◌, some-injective,
  none-ne-some, sym,
}
use execution_engine_multi.Prelude.Python.{Python, FloatOrder, zero_f, min_f, max_f}
use execution_engine_multi.Prelude.Python.Order.{not_above, max_f_ge}
use execution_engine_multi.Domain.Position.{SymbolInfo}
use execution_engine_multi.Domain.Trade.{OrderSide, buy, sell, Trade}
use execution_engine_multi.Brokers.{Tick}
use execution_engine_multi.Positions.Manager.{
  valid_breakeven_sl, breakeven_anchor, breakeven_buffer, protected_sl, is_allowed, min_distance,
  digits_or_five,
}

module _ {F : Type 0} ⦃py : Python F⦄ where
  -- The level before rounding keeps the broker's distance from the quote, on the right side of it.
  pub IsKeptOff : OrderSide → Tick F → SymbolInfo F → F → Type 0
  IsKeptOff buy tick si level =
      (py.leb tick.bid zero_f ≡ false) × (py.leb level (py.sub tick.bid (min_distance si)) ≡ true)
  IsKeptOff sell tick si level =
      (py.leb tick.ask zero_f ≡ false) × (py.leb (py.add tick.ask (min_distance si)) level ≡ true)

  -- The stop is the rounding of a level past the entry by a buffer that is not negative, and not
  -- less than the spread where buffers are on.
  pub record IsBreakeven (t : Trade F) (si : SymbolInfo F) (tick : Tick F) (mult fill sl : F)
      : Type 0 where
    pub buffer : F
    pub rounded :
        sl ≡ py.round (protected_sl t.side (breakeven_anchor t fill) buffer) (digits_or_five si)
    pub kept_off : IsKeptOff t.side tick si (protected_sl t.side (breakeven_anchor t fill) buffer)
    pub not_negative : py.ltb buffer zero_f ≡ false
    pub covers_spread :
        (py.eqb (max_f mult zero_f) zero_f ≡ true)
        ⊎ (py.ltb buffer (py.sub tick.ask tick.bid) ≡ false)

  module _ (laws : FloatOrder py) where
    breakeven_buffer_lem :
        (entry original_stop bid ask mult pct : F)
        → let buffer = breakeven_buffer entry original_stop bid ask mult pct in
          (py.ltb buffer zero_f ≡ false)
          × ((py.eqb (max_f mult zero_f) zero_f ≡ true) ⊎ (py.ltb buffer (py.sub ask bid) ≡ false))
    unfolding breakeven_buffer
    breakeven_buffer_lem entry original_stop bid ask mult pct =
        let spread = max_f (py.sub ask bid) zero_f in
        let over = max_f_ge laws (py.sub ask bid) zero_f in
        let capped = min_f (py.mul spread (max_f mult zero_f)) (
          py.div (py.mul (py.abs (py.sub entry original_stop)) (max_f pct zero_f))
            (py.lit 100 0)) in
        let wide = (max_f_ge laws spread capped).0 in
        elim (Bool-cases (py.eqb (max_f mult zero_f) zero_f)) [
          | inl off ↦ rw (off, breakeven_buffer) (laws.lt_irrefl zero_f, inl refl)
          | inr on ↦
              rw (on, breakeven_buffer)
                (
                  not_above laws (max_f spread capped) spread zero_f wide over.1,
                  inr (not_above laws (max_f spread capped) spread (py.sub ask bid) wide over.0),
                )
        ]

    is_allowed-IsKeptOff :
        (side : OrderSide) (tick : Tick F) (si : SymbolInfo F) (level : F)
        → is_allowed side tick (min_distance si) level ≡ true
        → IsKeptOff side tick si level
    unfolding is_allowed IsKeptOff
    is_allowed-IsKeptOff buy tick si level e = elim (Bool-cases (py.leb tick.bid zero_f)) [
      | inl none_there ↦ cc
      | inr quoted ↦ (quoted, rw quoted at e)
    ]
    is_allowed-IsKeptOff sell tick si level e = elim (Bool-cases (py.leb tick.ask zero_f)) [
      | inl none_there ↦ cc
      | inr quoted ↦ (quoted, rw quoted at e)
    ]

    -- The stop of an accepted break-even move goes past the entry of the signal by a buffer that is
    -- not negative, covers the spread where the buffer is configured, and before rounding it keeps the
    -- broker's stop and freeze distance and one more point from a positive quote.
    pub valid_breakeven_sl-IsBreakeven :
        (t : Trade F) (si : SymbolInfo F) (tick : Tick F) (mult pct fill sl : F)
        → t.entry_price ≡ some fill
        → valid_breakeven_sl t si tick mult pct ≡ some sl
        → IsBreakeven t si tick mult fill sl
    unfolding valid_breakeven_sl
    valid_breakeven_sl-IsBreakeven t si tick mult pct fill sl filled e =
        let entry = breakeven_anchor t fill in
        let buffer = breakeven_buffer entry t.plan.stop_loss tick.bid tick.ask mult pct in
        let level = protected_sl t.side entry buffer in
        let found = breakeven_buffer_lem entry t.plan.stop_loss tick.bid tick.ask mult pct in
        let result : (if is_allowed t.side tick (min_distance si) level
              then some (py.round level (digits_or_five si))
              else none)
            ≡ some sl =
          rw (filled, valid_breakeven_sl) at e in
        elim (Bool-cases (is_allowed t.side tick (min_distance si) level)) [
          | inl ok ↦ record {
            buffer = buffer;
            rounded = sym (some-injective _ _ (rw ok at result));
            kept_off = is_allowed-IsKeptOff t.side tick si level ok;
            not_negative = found.0;
            covers_spread = found.1;
          }
          | inr near ↦ elim (none-ne-some sl (rw near at result)) [ ]
        ]
