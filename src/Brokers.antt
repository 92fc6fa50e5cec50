-- ===== src/Brokers.antt =====
-- What the callers of src/brokers/mt5 send and get. The adapters themselves call the MetaTrader5
-- package: their answers are arguments of the model. The comment of an order is left out.
use execution_engine_multi.Prelude.{ℕ, String, Option, Bool, true, false}
use execution_engine_multi.Domain.Trade.{OrderSide}

-- The part of MetaTrader's tick that is read.
pub record Tick (F : Type 0) : Type 0 where
  pub bid : F
  pub ask : F

-- `Mt5Orders.open_market_order`
pub record OrderRequest (F : Type 0) : Type 0 where
  pub symbol : String
  pub side : OrderSide
  pub volume : F
  pub price : F
  pub sl : F
  pub tp : F
  pub slippage : ℕ
  pub magic : ℕ
  pub filling_mode : ℕ

pub record OrderResult (F : Type 0) : Type 0 where
  pub ticket : ℕ
  pub executed_price : F
  pub volume : F

-- What became of an order: it is done and its position is confirmed; it is done, but `_confirm_open`
-- raises, with a text that names no return code; a `RuntimeError` without a report that it is done,
-- with the return code that its text names; or any other exception before that report.
pub data Reply (F : Type 0) : Type 0 where
  done unconfirmed : OrderResult F → Reply F
  refused : Option ℕ → Reply F
  broken : Reply F

-- `Mt5Orders.close_position`
pub record CloseRequest (F : Type 0) : Type 0 where
  pub ticket : ℕ
  pub symbol : String
  pub side : OrderSide
  pub volume : F
  pub price : F
  pub slippage : ℕ
  pub magic : ℕ
  pub filling_mode : ℕ

-- What became of a close order: it is done; it is done, but `_confirm_close` raises; or an exception
-- without a report that it is done.
pub data CloseReply : Type 0 where
  executed executed_unconfirmed failed : CloseReply

-- `close_position` returns.
abbrev pub is_executed : CloseReply → Bool
is_executed executed = true
is_executed executed_unconfirmed = false
is_executed failed = false

-- `Mt5Orders.modify_position`
pub record ModifyRequest (F : Type 0) : Type 0 where
  pub ticket : ℕ
  pub sl : F
  pub tp : F
