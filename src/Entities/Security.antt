-- ===== src/Entities/Security.antt =====
-- Security.h and Security.cpp: an instrument, with its last quotes.
use simple_cgate.Base.{ℕ, Bool, false, Text}
use simple_cgate.Entities.Platform.{Platform}

pub data SecurityType : Type 0 where
  futures option spread equity currency : SecurityType

pub record Security (D : Type 0) : Type 0 where
  pub global_id : ℕ  -- of the base class Entity
  pub decimals : ℕ
  pub isin_id : ℕ
  pub base_isin_id : ℕ
  pub isin : Text
  pub max_price : D
  pub min_price : D
  pub last_price : D
  pub sess_id : ℕ
  pub step_size : D
  pub step_price : D
  pub is_trading_state : Bool
  pub type : SecurityType
  pub margin_buy : D
  pub margin_sell : D
  pub ask : D
  pub ask_vol : ℕ
  pub bid : D
  pub bid_vol : ℕ

module _ {D : Type 0} where
  abbrev pub set_global_id : ℕ → Security D → Security D
  set_global_id id s = record s { global_id = id }

  abbrev pub set_ask : D → ℕ → Security D → Security D
  set_ask price volume s = record s { ask = price; ask_vol = volume }

  abbrev pub set_bid : D → ℕ → Security D → Security D
  set_bid price volume s = record s { bid = price; bid_vol = volume }

  abbrev pub set_decimals : ℕ → Security D → Security D
  set_decimals d s = record s { decimals = d }

  abbrev pub set_isin_id : ℕ → Security D → Security D
  set_isin_id id s = record s { isin_id = id }

  abbrev pub set_sess_id : ℕ → Security D → Security D
  set_sess_id id s = record s { sess_id = id }

  abbrev pub set_base_isin_id : ℕ → Security D → Security D
  set_base_isin_id id s = record s { base_isin_id = id }

  abbrev pub set_max_price : D → Security D → Security D
  set_max_price price s = record s { max_price = price }

  abbrev pub set_min_price : D → Security D → Security D
  set_min_price price s = record s { min_price = price }

  abbrev pub set_last_price : D → Security D → Security D
  set_last_price price s = record s { last_price = price }

  abbrev pub set_session_id : ℕ → Security D → Security D
  set_session_id id s = record s { sess_id = id }

  abbrev pub set_step_size : D → Security D → Security D
  set_step_size size s = record s { step_size = size }

  abbrev pub set_step_price : D → Security D → Security D
  set_step_price price s = record s { step_price = price }

  abbrev pub set_trading_state : Bool → Security D → Security D
  set_trading_state state s = record s { is_trading_state = state }

  abbrev pub set_type : SecurityType → Security D → Security D
  set_type t s = record s { type = t }

  abbrev pub set_margin_buy : D → Security D → Security D
  set_margin_buy margin s = record s { margin_buy = margin }

  abbrev pub set_margin_sell : D → Security D → Security D
  set_margin_sell margin s = record s { margin_sell = margin }

module _ {D : Type 0} ⦃num : Platform D⦄ where
  -- `Init`, which both constructors call; `global_id_` is 0 by its initialiser.
  abbrev pub new_security : Text → Security D
  new_security isin = record {
    global_id = 0;
    decimals = 0;
    isin_id = 0;
    base_isin_id = 0;
    isin = isin;
    max_price = num.zero_double;
    min_price = num.zero_double;
    last_price = num.zero_double;
    sess_id = 0;
    step_size = num.zero_double;
    step_price = num.zero_double;
    is_trading_state = false;
    type = futures;
    margin_buy = num.zero_double;
    margin_sell = num.zero_double;
    ask = num.zero_double;
    ask_vol = 0;
    bid = num.zero_double;
    bid_vol = 0;
  }

  abbrev pub convert_to_rub_price : D → Security D → D
  convert_to_rub_price price s = num.div_double (num.mul_double price s.step_price) s.step_size

  abbrev pub get_bid_rub : Security D → D
  get_bid_rub s = num.div_double (num.mul_double s.bid s.step_price) s.step_size

  abbrev pub get_ask_rub : Security D → D
  get_ask_rub s = num.div_double (num.mul_double s.ask s.step_price) s.step_size
