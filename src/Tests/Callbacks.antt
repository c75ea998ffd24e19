-- ===== src/Tests/Callbacks.antt =====
-- The theorems on the connector.
use simple_cgate.Base.{
  ℕ, ◌≡◌, refl, arith, true, false, Option, none, some, [], ◌∷◌, ◌++◌, codes, nat_eq, text_eq,
  text_beq_iff, Holds, map_some,
}
use simple_cgate.Entities.Order.{OrderState, sell}
use simple_cgate.Entities.Trade.{Trade, new_trade}
use simple_cgate.Connector.Deals.{terms, trade_of, user_deal_row-trade_of, user_deal_row-twice}
use simple_cgate.Connector.Runs.{
  deliver_all-get_order, deliver_all-get_trade, deliver_all-get_security, deliver_all-last_sess_id,
  deliver_all-states,
}
use simple_cgate.Connector.Unset.{is_unset, deliver_all-is_unset}
use simple_cgate.Connector.Safety.Trading.{user_deal_row-Gate}
use simple_cgate.Connector.Replies.{publisher_callback}
use simple_cgate.Streams.Kept.{states}
use simple_cgate.Entities.Security.{Security, new_security}
use simple_cgate.Events.{EventType, event, add_new_consumer}
use simple_cgate.Events.Delivery.{queue}
use simple_cgate.Transactions.Kinds.{TransactionType}
use simple_cgate.Base.Words.{lt_i32}
use simple_cgate.Events.{new_manager}
use simple_cgate.Connector.{Connector, order_for}
use simple_cgate.Connector.Rows.{Reply, message_data}
use simple_cgate.Connector.Market.{
  listener_fut_info_stream, session_row, security_for, link_security,
}
use simple_cgate.Connector.Trading.{
  user_deal_row, store_trade, listener_fut_trade_stream, trade_row, orders_log_row, order_action,
}
use simple_cgate.Connector.Orders.{
  order_of, open_part, matches, replied, deliver_all-matches, publisher_callback-order_of,
}
use simple_cgate.Connector.Safety.{IsGate, Gate}
use simple_cgate.Connector.Callbacks.{deliver, deliver_all, deliver_all-Gate}
use simple_cgate.Database.{
  get_order, get_trade, get_security, create_trade, label_trade, create_security, create_order,
  label_security, label_order,
}
use simple_cgate.Connector.Rows.{PositionRow}
use simple_cgate.Connector.Market.{position_row}
use simple_cgate.Connector.Posting.{delete_order, delete_order-transactions}
use simple_cgate.Connector.Instruments.{
  IsListed, amounts, position_of, session_row-listing, position_row-amounts,
}
use simple_cgate.Events.{new_consumer, add_event}
use simple_cgate.Tests.{
  blank_manager, millionths, config, first, instrument, added, opening, left_by, left_by-IsGate,
  loaded, loaded-IsGate, order_or_new, any_messages, deal,
}

deliver_all-Gate_example : Holds Gate (deliver_all any_messages loaded)
deliver_all-Gate_example = deliver_all-Gate any_messages loaded loaded-IsGate

deliver_all-matches_example :
    Holds
      (λ _ c'. map_some open_part (order_of 3 c') ≡ some (0, (10, OrderState.done)))
      (deliver_all (matches 2 0 added (4 ∷ 0 ∷ [])) loaded)
unfolding loaded deliver_all deliver listener_fut_info_stream session_row security_for link_security
    create_security listener_fut_trade_stream trade_row orders_log_row order_for create_order
    order_action label_security label_order order_or_new
deliver_all-matches_example =
    deliver_all-matches 2 0 added (4 ∷ 0 ∷ []) loaded (order_or_new (order_of 3 loaded)) refl refl

abbrev refused : Reply
refused = record { user_id = 3; msg_id = 101; code = 14; order_id = 0 }

publisher_callback-order_of_example :
    Holds
      (λ _ c'. order_of 3 c' ≡ map_some (replied refused) (order_of 3 loaded))
      (publisher_callback (message_data refused) loaded)
publisher_callback-order_of_example = publisher_callback-order_of refused loaded 3 loaded-IsGate

user_deal_row-trade_of_example :
    Holds
      (λ _ c'.
        (map_some terms (trade_of 900 c') ≡ some (900, (0, (4, sell))))
        × (map_some (λ (t : Trade ℕ). some t.order) (trade_of 900 c')
            ≡ some (get_order 3 c'.database)))
      (user_deal_row deal loaded)
unfolding loaded deliver_all deliver listener_fut_info_stream session_row security_for link_security
    create_security listener_fut_trade_stream trade_row orders_log_row order_for create_order
    order_action label_security label_order
user_deal_row-trade_of_example =
    user_deal_row-trade_of deal loaded 0 loaded-IsGate (λ e. ground arith) refl refl

user_deal_row-twice_example :
    Holds (λ _ c'. user_deal_row deal c' ≡ some (tt, c')) (user_deal_row deal loaded)
user_deal_row-twice_example = user_deal_row-twice deal loaded loaded-IsGate

deliver_all-get_order_example :
    Holds (λ _ c'. get_order 3 c'.database ≡ some 1) (deliver_all any_messages loaded)
unfolding loaded deliver_all deliver listener_fut_info_stream session_row security_for link_security
    create_security listener_fut_trade_stream trade_row orders_log_row order_for create_order
    order_action label_security label_order
deliver_all-get_order_example = deliver_all-get_order any_messages loaded 3 1 loaded-IsGate refl

deliver_all-get_security_example :
    Holds
      (λ _ c'. (get_security (codes "SiZ6") c'.database ≡ some 0) × (c'.securities_id 70 ≡ some 0))
      (deliver_all any_messages loaded)
unfolding loaded deliver_all deliver listener_fut_info_stream session_row security_for link_security
    create_security listener_fut_trade_stream trade_row orders_log_row order_for create_order
    order_action label_security label_order
deliver_all-get_security_example =
    deliver_all-get_security any_messages loaded (codes "SiZ6") 70 0 loaded-IsGate
      (ground (arith, text_beq_iff (codes "SiZ6") (codes "SiZ6"))) refl

deliver_all-last_sess_id_example :
    Holds
      (λ _ c'. lt_i32 c'.last_sess_id loaded.last_sess_id ≡ false)
      (deliver_all any_messages loaded)
deliver_all-last_sess_id_example = deliver_all-last_sess_id any_messages loaded loaded-IsGate

deliver_all-states_example :
    Holds
      (λ _ c'.
        (states c'.service_stream.plaza_streams ≡ states loaded.service_stream.plaza_streams)
        × ((states c'.order_stream.plaza_streams ≡ states loaded.order_stream.plaza_streams)
            × (states c'.common_stream.plaza_streams ≡ states loaded.common_stream.plaza_streams)))
      (deliver_all any_messages loaded)
deliver_all-states_example = deliver_all-states any_messages loaded loaded-IsGate

-- The connector after the deal, and the trade that it has then.
sold : Connector ℕ
unfolding user_deal_row
sold = left_by (user_deal_row deal loaded)

sold-IsGate : IsGate sold
unfolding sold
sold-IsGate =
    left_by-IsGate (user_deal_row deal loaded) (user_deal_row-Gate deal loaded loaded-IsGate)

trade_or_new : Option (Trade ℕ) → Trade ℕ
trade_or_new none = new_trade 0 0 0
trade_or_new (some t) = t

deliver_all-get_trade_example :
    Holds
      (λ _ c'.
        (get_trade 900 c'.database ≡ some 2)
        × (c'.database.heap.trades 2 ≡ some (trade_or_new (trade_of 900 sold))))
      (deliver_all any_messages sold)
unfolding loaded deliver_all deliver listener_fut_info_stream session_row security_for link_security
    create_security listener_fut_trade_stream trade_row orders_log_row order_for create_order
    order_action label_security label_order sold trade_or_new user_deal_row store_trade create_trade
    label_trade
deliver_all-get_trade_example =
    deliver_all-get_trade any_messages sold 900 2 (trade_or_new (trade_of 900 sold)) sold-IsGate
      refl refl

deliver_all-is_unset_example :
    Holds (λ _ (c' : Connector ℕ). is_unset 0 c' ≡ true) (deliver_all opening first)
deliver_all-is_unset_example =
    deliver_all-is_unset ℕ config 7 (codes "p2tcp://") blank_manager new_manager opening 0

session_row-listing_example :
    Holds
      (λ _ c'. IsListed (record instrument { sess_id = 6 }) loaded c')
      (session_row (record instrument { sess_id = 6 }) loaded)
unfolding loaded deliver_all deliver listener_fut_info_stream session_row security_for link_security
    create_security listener_fut_trade_stream trade_row orders_log_row order_for create_order
    order_action label_security label_order
session_row-listing_example =
    session_row-listing (record instrument { sess_id = 6 }) loaded loaded-IsGate refl

abbrev held : PositionRow
held = record { isin_id = 70; open_qty = 1; buys_qty = 5; sells_qty = 2; pos = 4; waprice = [] }

security_or_new : Option (Security ℕ) → Security ℕ
security_or_new none = new_security []
security_or_new (some s) = s

position_row-amounts_example :
    Holds
      (λ _ c'.
        map_some amounts (position_of (security_or_new (loaded.database.heap.securities 0)).isin c')
        ≡ some (1, (5, (2, 4))))
      (position_row held loaded)
unfolding loaded deliver_all deliver listener_fut_info_stream session_row security_for link_security
    create_security listener_fut_trade_stream trade_row orders_log_row order_for create_order
    order_action label_security label_order security_or_new
position_row-amounts_example =
    position_row-amounts held loaded 0 (security_or_new (loaded.database.heap.securities 0))
      loaded-IsGate refl refl

delete_order-transactions_example :
    Holds
      (λ _ c'.
        (c'.transaction_mgr.transactions
          ≡ record { type = TransactionType.cancel; order_main = some 1; order_second = none } ∷ [])
        × ((queue 0 c'.event_manager
              ≡ queue 0 loaded.event_manager
                ++ event EventType.order_change (order_or_new (order_of 3 loaded)).global_id ∷ [])
            × (c'.database ≡ loaded.database)))
      (delete_order (some 1) loaded)
unfolding loaded deliver_all deliver listener_fut_info_stream session_row security_for link_security
    create_security listener_fut_trade_stream trade_row orders_log_row order_for create_order
    order_action label_security label_order order_or_new new_consumer add_new_consumer add_event
delete_order-transactions_example =
    delete_order-transactions 1 0 loaded (order_or_new (order_of 3 loaded)) refl refl
