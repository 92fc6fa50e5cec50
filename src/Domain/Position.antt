-- ===== src/Domain/Position.antt =====
-- src/domain/position.py: the account and the symbol as the broker reports them. `ask` and `bid`
-- are optional, since the risk rules test them for `None`.
use execution_engine_multi.Prelude.{ℕ, ◌/◌, ◌%◌, String, Option, eqb, if◌then◌else◌}

pub data PositionSide : Type 0 where
  buy sell : PositionSide

pub record Position (F : Type 0) : Type 0 where
  pub ticket : ℕ
  pub symbol : String
  pub side : PositionSide
  pub lots : F
  pub open_price : F
  pub current_price : F
  pub stop_loss : F
  pub take_profit : F
  pub swap : F
  pub profit : F
  pub open_time : ℕ
  pub magic : ℕ

pub record AccountInfo (F : Type 0) : Type 0 where
  pub login : ℕ
  pub server : String
  pub currency : String
  pub balance : F
  pub equity : F
  pub margin : F
  pub free_margin : F
  pub margin_level : F
  pub leverage : ℕ

pub record SymbolInfo (F : Type 0) : Type 0 where
  pub symbol : String
  pub digits : ℕ
  pub point : F
  pub tick_size : F
  pub tick_value : F
  pub contract_size : F
  pub lot_min : F
  pub lot_max : F
  pub lot_step : F
  pub ask : Option F
  pub bid : Option F
  pub filling_mode : ℕ
  pub stops_level : ℕ
  pub freeze_level : ℕ
  pub volume_min : F
  pub volume_max : F
  pub volume_step : F

-- The bit mask names fill-or-kill (0) before immediate-or-cancel (1) before return (2).
abbrev pub order_filling_mode : {F : Type 0} → SymbolInfo F → ℕ
order_filling_mode si =
    if eqb (si.filling_mode % 2) 1 then 0 else if eqb (si.filling_mode / 2 % 2) 1 then 1 else 2
