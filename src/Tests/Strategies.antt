-- ===== src/Tests/Strategies.antt =====
-- The theorems on the strategies.
use simple_cgate.Base.{ℕ, refl, arith, some, [], ◌∷◌, codes, put, Holds, nat_eq, text_eq}
use simple_cgate.Entities.Strategy.{new_strategy}
use simple_cgate.Database.{create_security, create_order, label_security, label_order}
use simple_cgate.Connector.{order_for}
use simple_cgate.Connector.Callbacks.{deliver, deliver_all}
use simple_cgate.Connector.Market.{
  listener_fut_info_stream, session_row, security_for, link_security,
}
use simple_cgate.Connector.Trading.{
  listener_fut_trade_stream, trade_row, orders_log_row, order_action,
}
use simple_cgate.Events.{new_manager}
use simple_cgate.Strategies.{World, new_strategy_manager, add_strategy}
use simple_cgate.Strategies.Subscribers.{Registered, add_strategy-Subscribed}
use simple_cgate.Strategies.Sample.{Trading, new_sample_strategy}
use simple_cgate.Strategies.Balance.{IsTrading, Keeps}
use simple_cgate.Strategies.Balance.Calls.{
  quotes_change, order_change, handle_all, handle_all-Keeps,
}
use simple_cgate.Program.{set_up}
use simple_cgate.Program.Start.{IsSetUp, set_up-IsSetUp}
use simple_cgate.Tests.{millionths, loaded, loaded-IsGate}

-- The signal's volume is -1, so that the empty order book is a signal.
abbrev trader : Trading ℕ
trader = record {
  strategy = record (new_sample_strategy 4294967295 1) { security = some 0 };
  connector = loaded;
}

trader-IsTrading : IsTrading trader
unfolding loaded deliver_all deliver listener_fut_info_stream session_row security_for link_security
    create_security listener_fut_trade_stream trade_row orders_log_row order_for create_order
    order_action label_security label_order
trader-IsTrading = record {
  gate = loaded-IsGate;
  configured = refl;
  security_live = λ p e. ground arith;
  order_live = λ p e. absurd (ground arith);
}

handle_all-Keeps_example : Keeps trader (handle_all (quotes_change ∷ order_change 30 3 ∷ []) trader)
handle_all-Keeps_example =
    handle_all-Keeps (quotes_change ∷ order_change 30 3 ∷ []) trader
      (tt, λ t' e. (tt, λ t'' e'. tt)) trader-IsTrading

abbrev world : World (Unit {0}) ℕ
world = record {
  own = tt;
  connector = record loaded {
    database = record loaded.database {
      heap = record loaded.database.heap {
        strategies = put 5 (new_strategy (codes "Sample")) loaded.database.heap.strategies;
      };
    };
  };
}

add_strategy-Subscribed_example :
    Holds
      (Registered 5 (1 ∷ []) (new_strategy_manager new_manager).0 world)
      (add_strategy 5 (0 ∷ []) (new_strategy_manager new_manager).0 world)
unfolding loaded deliver_all deliver listener_fut_info_stream session_row security_for link_security
    create_security listener_fut_trade_stream trade_row orders_log_row order_for create_order
    order_action label_security label_order
add_strategy-Subscribed_example =
    add_strategy-Subscribed 5 (0 ∷ []) (1 ∷ []) (new_strategy_manager new_manager).0 world
      (refl, tt) refl

set_up-IsSetUp_example :
    Holds
      (IsSetUp
        (new_strategy_manager new_manager).0
        (record { own = new_sample_strategy 7 7; connector = loaded }))
      (set_up
        (new_strategy_manager new_manager).0
        (record { own = new_sample_strategy 7 7; connector = loaded }))
set_up-IsSetUp_example =
    set_up-IsSetUp (new_strategy_manager new_manager).0
      (record { own = new_sample_strategy 7 7; connector = loaded }) loaded-IsGate
