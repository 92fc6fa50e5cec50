-- ===== src/Domain/Trade.antt =====
-- src/domain/trade.py: the plan of a trade and the trade that the engine tracks.
use execution_engine_multi.Prelude.{ℕ, String, Bool, true, false, Option}
use execution_engine_multi.Domain.Signal.{InboundSignal}

pub data OrderSide : Type 0 where
  buy sell : OrderSide

pub data TradeStatus : Type 0 where
  planned opened partially_closed closed cancelled error : TradeStatus

pub data CloseReason : Type 0 where
  tp1_hit tp2_hit sl_hit manual invalidated expired error closed_while_down : CloseReason

-- `a == b` on sides.
abbrev pub side_eq : OrderSide → OrderSide → Bool
side_eq buy buy = true
side_eq buy sell = false
side_eq sell buy = false
side_eq sell sell = true

-- `status in (OPEN, PARTIALLY_CLOSED)`
abbrev pub is_open : TradeStatus → Bool
is_open opened = true
is_open partially_closed = true
is_open _ = false

pub record TradePlan (F : Type 0) : Type 0 where
  pub signal_id : String
  pub symbol : String
  pub side : OrderSide
  pub entry_price : F
  pub stop_loss : F
  pub tp1 : F
  pub tp2 : F
  pub lot_size : F
  pub risk_amount : F
  pub risk_percent : F
  pub risk_reward_ratio : F
  pub planned_at : ℕ
  -- `None` in the plan of a stub.
  pub signal : Option (InboundSignal F)
  pub tp1_lots : F
  pub risk_multiplier : F

pub record Trade (F : Type 0) : Type 0 where
  pub id : String
  pub signal_id : String
  pub symbol : String
  pub side : OrderSide
  pub status : TradeStatus
  pub plan : TradePlan F
  pub entry_ticket : Option ℕ
  pub entry_price : Option F
  pub entry_lots : F
  pub current_lots : F
  pub tp1_lots : F
  pub stop_loss : F
  pub tp1 : F
  pub tp2 : F
  pub was_tp1_hit : Bool
  pub tp1_hit_at : Option ℕ
  pub tp1_close_price : Option F
  pub was_tp2_hit : Bool
  pub tp2_hit_at : Option ℕ
  pub was_sl_hit : Bool
  pub sl_hit_at : Option ℕ
  pub opened_at : Option ℕ
  pub closed_at : Option ℕ
  pub close_reason : Option CloseReason
  pub close_price : Option F
  pub realized_pnl : Option F
  pub realized_rr : Option F
  pub created_at : ℕ
  pub updated_at : ℕ
