-- ===== src/Entities/Order.antt =====
-- Order.h and Order.cpp: an order, the user's or one that the exchange reports.
use simple_cgate.Base.{ℕ}
use simple_cgate.Entities.Platform.{Platform}
use simple_cgate.Entities.DateTime.{DateTime, no_time}

pub data OrderState : Type 0 where
  none active done failed : OrderState

pub data OrderType : Type 0 where
  put_in_queue fill_or_kill cancel_balance : OrderType

pub data TradeDirection : Type 0 where
  buy sell : TradeDirection

-- The values of the enumerators, which are sent to the exchange and to the GUI.
abbrev pub order_state_code : OrderState → ℕ
order_state_code none = 0
order_state_code active = 1
order_state_code done = 2
order_state_code failed = 3

abbrev pub order_type_code : OrderType → ℕ
order_type_code put_in_queue = 1
order_type_code fill_or_kill = 3
order_type_code cancel_balance = 2

abbrev pub direction_code : TradeDirection → ℕ
direction_code buy = 1
direction_code sell = 2

pub record Order (D : Type 0) : Type 0 where
  pub global_id : ℕ  -- of the base class Entity
  pub user_id : ℕ
  pub id : ℕ
  pub security : ℕ
  pub direction : TradeDirection
  pub price : D
  pub volume : ℕ
  pub balance : ℕ
  pub time : DateTime
  pub code : ℕ
  pub state : OrderState
  pub type : OrderType

module _ {D : Type 0} where
  abbrev pub set_global_id : ℕ → Order D → Order D
  set_global_id id o = record o { global_id = id }

  abbrev pub set_id : ℕ → Order D → Order D
  set_id id o = record o { id = id }

  abbrev pub set_direction : TradeDirection → Order D → Order D
  set_direction d o = record o { direction = d }

  abbrev pub set_price : D → Order D → Order D
  set_price price o = record o { price = price }

  abbrev pub set_volume : ℕ → Order D → Order D
  set_volume volume o = record o { volume = volume }

  abbrev pub set_balance : ℕ → Order D → Order D
  set_balance balance o = record o { balance = balance }

  abbrev pub set_type : OrderType → Order D → Order D
  set_type t o = record o { type = t }

  abbrev pub set_time : DateTime → Order D → Order D
  set_time t o = record o { time = t }

  abbrev pub set_state : OrderState → Order D → Order D
  set_state state o = record o { state = state }

  abbrev pub set_code : ℕ → Order D → Order D
  set_code code o = record o { code = code }

  -- `Fill`: what is copied from another order. The security, the user's id, the code and the global
  -- id stay.
  abbrev pub fill : Order D → Order D → Order D
  fill src o = record o {
    id = src.id;
    direction = src.direction;
    price = src.price;
    volume = src.volume;
    balance = src.balance;
    type = src.type;
    time = src.time;
    state = none;
  }

module _ {D : Type 0} ⦃num : Platform D⦄ where
  -- The constructor from a security and a user's id, with the default member initialisers.
  abbrev pub new_order : ℕ → ℕ → Order D
  new_order sec user_id = record {
    global_id = 0;
    user_id = user_id;
    id = 0;
    security = sec;
    direction = buy;
    price = num.zero_double;
    volume = 0;
    balance = 0;
    time = no_time;
    code = 0;
    state = none;
    type = put_in_queue;
  }

  -- The constructor from another order.
  abbrev pub copy_order : Order D → ℕ → Order D
  copy_order src user_id = set_id 0 (record filled { user_id = user_id })
    where
      filled : Order D
      filled = fill src (new_order src.security 0)
