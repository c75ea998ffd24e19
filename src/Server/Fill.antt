-- ===== src/Server/Fill.antt =====
-- DataServer.cpp: the structures that the cases of `EventProcess` fill, from the objects that they look
-- up. `none` is a fault: a null pointer, or a text that `memcpy_s` refuses.
use simple_cgate.Base.{ℕ, Option, some, take, bind_some}
use simple_cgate.Entities.Platform.{Platform}
use simple_cgate.Entities.DateTime.{get_date_struct, get_time_struct}
use simple_cgate.Entities.Security.{Security}
use simple_cgate.Entities.Order.{Order, order_state_code, direction_code}
use simple_cgate.Entities.Trade.{Trade}
use simple_cgate.Entities.Position.{Position}
use simple_cgate.Entities.Money.{Money}
use simple_cgate.Entities.Strategy.{Strategy, algo_state_code, current_price, current_volume}
use simple_cgate.Database.{
  Database, get_security_by_global_id, get_strategy_by_global_id, get_trade_by_global_id,
  get_position_by_global_id, get_order_by_global_id,
}
use simple_cgate.Server.Messages.{
  DataType, data_type_code, Message, security_message, position_message, trade_message,
  order_message, money_message, strategy_message, copy_text,
}

module _ {D : Type 0} ⦃num : Platform D⦄ where
  -- The structures that the cases of `EventProcess` fill.
  abbrev pub security_data : Security D → Option (Message D)
  security_data sec = bind_some (copy_text 26 sec.isin) λ symbol. some (
      security_message (record {
        type = data_type_code DataType.security;
        id = sec.global_id;
        bid = sec.bid;
        bid_vol = sec.bid_vol;
        ask = sec.ask;
        ask_vol = sec.ask_vol;
        last_price = sec.last_price;
        symbol = symbol;
      }))

  abbrev pub strategy_data : Strategy → Option (Message D)
  strategy_data str = bind_some (copy_text 10 (take 10 str.name)) λ name. some (
      strategy_message (record {
        type = data_type_code DataType.strategy;
        id = str.global_id;
        price = current_price ⦃num = num⦄ str;
        volume = current_volume str;
        state = algo_state_code str.state;
        enabled = str.enabled;
        name = name;
      }))

  abbrev pub trade_data : ℕ → Trade D → Message D
  trade_data symbol_id deal = trade_message (record {
    type = data_type_code DataType.trade;
    symbol_id = symbol_id;
    volume = deal.volume;
    price = deal.price;
    direction = direction_code deal.direction;
    id = deal.global_id;
    date = get_date_struct deal.time;
    time = get_time_struct deal.time;
  })

  abbrev pub money_data : Money D → Message D
  money_data money = money_message (record {
    type = data_type_code DataType.money;
    coeff_go = money.coeff_go;
    all = money.all_amount;
    free = money.free_amount;
    blocked = money.blocked_amount;
    fee = money.fee;
  })

  abbrev pub position_data : ℕ → Position D → Message D
  position_data symbol_id pos = position_message (record {
    type = data_type_code DataType.position;
    symbol_id = symbol_id;
    open_amount = pos.open_amount;
    buy = pos.buys_amount;
    sell = pos.sells_amount;
    current = pos.current_amount;
    price = pos.price;
    vm = pos.variation_margin;
  })

  abbrev pub order_data : ℕ → Order D → Message D
  order_data symbol_id ord = order_message (record {
    type = data_type_code DataType.order;
    symbol_id = symbol_id;
    volume = ord.volume;
    price = ord.price;
    direction = direction_code ord.direction;
    id = ord.global_id;
    state = order_state_code ord.state;
    balance = ord.balance;
    date = get_date_struct ord.time;
    time = get_time_struct ord.time;
  })

  -- What a case reads from the database: the object that the event names, and its security's id.
  abbrev pub security_by_id : ℕ → Database D → Option (Message D)
  security_by_id g db =
      bind_some (get_security_by_global_id g db) λ p. bind_some (db.heap.securities p) security_data

  abbrev pub strategy_by_id : ℕ → Database D → Option (Message D)
  strategy_by_id g db =
      bind_some (get_strategy_by_global_id g db) λ p. bind_some (db.heap.strategies p) strategy_data

  abbrev pub symbol_id_of : ℕ → Database D → Option ℕ
  symbol_id_of p db = bind_some (db.heap.securities p) λ sec. some sec.global_id

  abbrev pub trade_by_id : ℕ → Database D → Option (Message D)
  trade_by_id g db = bind_some (get_trade_by_global_id g db) λ p.
      bind_some (db.heap.trades p) λ deal.
        bind_some (symbol_id_of deal.security db) λ symbol_id. some (trade_data symbol_id deal)

  abbrev pub position_by_id : ℕ → Database D → Option (Message D)
  position_by_id g db = bind_some (get_position_by_global_id g db) λ p.
      bind_some (db.heap.positions p) λ pos.
        bind_some (symbol_id_of pos.security db) λ symbol_id. some (position_data symbol_id pos)

  abbrev pub order_by_id : ℕ → Database D → Option (Message D)
  order_by_id g db = bind_some (get_order_by_global_id g db) λ p.
      bind_some (db.heap.orders p)
        λ ord. bind_some (symbol_id_of ord.security db) λ symbol_id. some (order_data symbol_id ord)
