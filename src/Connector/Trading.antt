-- ===== src/Connector/Trading.antt =====
-- PlazaCallbacks.cpp: the callback of the listener of the user's orders and deals.
use simple_cgate.Base.{
  ℕ, Bool, true, false, Action, update, done, ◌>>=◌, ◌>>◌, ◌==◌, nat_eq, if◌then◌else◌,
}
use simple_cgate.Entities.Platform.{Platform}
use simple_cgate.Entities.Security.{SecurityType, spread}
use simple_cgate.Entities.Order
use simple_cgate.Entities.Order.{Order, OrderState, TradeDirection, buy, sell}
use simple_cgate.Entities.Trade
use simple_cgate.Entities.Trade.{Trade}
use simple_cgate.Streams.{Message}
use simple_cgate.Database.{create_trade, is_trade_exist, write_order, write_trade}
use simple_cgate.Connector.Rows.{
  TradeRow, orders_log, multileg_orders_log, multileg_deal, user_deal, other_table, MyOrdersLog,
  MyMultilegOrdersLog, MultilegDeal, UserDeal, convert_to_time,
}
use simple_cgate.Connector.{
  Connector, is_security_id, get_security_by_id, security_at, on_database, call_database,
  add_order_event, add_my_trade_event, convert_to_double, order_for, listener_state_process,
}

abbrev pub direction_of_dir : ℕ → TradeDirection
direction_of_dir dir = if dir == 1 then buy else sell

-- `ext_id_buy == 0 ? ext_id_sell : ext_id_buy`.
abbrev pub deal_user_id : ℕ → ℕ → ℕ
deal_user_id ext_id_buy ext_id_sell = if ext_id_buy == 0 then ext_id_sell else ext_id_buy

abbrev pub is_spread : SecurityType → Bool
is_spread spread = true
is_spread _ = false

module _ {D : Type 0} ⦃num : Platform D⦄ where
  -- The `switch` on a row's action: the order was deleted, was added, or was matched.
  unfoldable pub order_action : MyOrdersLog → Order D → Order D
  order_action row o =
      if row.action == 0
      then Order.set_state OrderState.done o
      else if row.action == 1
      then added
      else if row.action == 2
      then (if row.amount_rest == 0
          then Order.set_state OrderState.done (Order.set_balance row.amount_rest o)
          else Order.set_balance row.amount_rest o)
      else o
    where
      added : Order D
      added = Order.set_time (convert_to_time row.moment) (
          Order.set_state OrderState.active (
            Order.set_volume row.amount (
              Order.set_balance row.amount (
                Order.set_price (convert_to_double row.price)
                  (Order.set_direction (direction_of_dir row.dir) o)))))

  unfoldable pub multileg_order_action : MyMultilegOrdersLog → Order D → Order D
  multileg_order_action row o =
      if row.action == 0
      then Order.set_state OrderState.done o
      else if row.action == 1
      then added
      else if row.action == 2
      then (if row.amount_rest == 0
          then Order.set_state OrderState.done (Order.set_balance row.amount_rest o)
          else Order.set_balance row.amount_rest o)
      else o
    where
      added : Order D
      added = Order.set_time (convert_to_time row.moment) (
          Order.set_state OrderState.active (
            Order.set_volume row.amount (
              Order.set_balance row.amount (
                Order.set_price (convert_to_double row.swap_price)
                  (Order.set_direction (direction_of_dir row.dir) o)))))

  unfoldable pub orders_log_row : MyOrdersLog → Action (Connector D) (Unit {0})
  unfolding order_action
  orders_log_row row c =
      if is_security_id row.isin_id c
      then (do
        sec ← get_security_by_id row.isin_id
        p ← order_for row.ext_id sec
        on_database (write_order p (order_action row))
        add_order_event p)
          c
      else done c

  unfoldable pub multileg_orders_log_row : MyMultilegOrdersLog → Action (Connector D) (Unit {0})
  unfolding multileg_order_action
  multileg_orders_log_row row c =
      if is_security_id row.isin_id c
      then (do
        sec ← get_security_by_id row.isin_id
        p ← order_for row.ext_id sec
        on_database (write_order p (multileg_order_action row))
        add_order_event p)
          c
      else done c

  -- The two tests on the sides, one after the other: the second may overrule the first.
  abbrev pub set_sides : ℕ → ℕ → Trade D → Trade D
  set_sides ext_id_buy ext_id_sell t =
      let t1 : Trade D = if ext_id_buy == 0 then t else Trade.set_direction buy t in
      if ext_id_sell == 0 then t1 else Trade.set_direction sell t1

  abbrev pub fill_deal : UserDeal → Trade D → Trade D
  fill_deal row t = Trade.set_time (convert_to_time row.moment) (
      Trade.set_volume row.amount (
        Trade.set_price (convert_to_double row.price) (set_sides row.ext_id_buy row.ext_id_sell t)))

  abbrev pub fill_multileg_deal : MultilegDeal → Trade D → Trade D
  fill_multileg_deal row t = Trade.set_time (convert_to_time row.moment) (
      Trade.set_volume row.amount (
        Trade.set_price (convert_to_double row.swap_price)
          (set_sides row.ext_id_buy row.ext_id_sell t)))

  -- From the order of the deal on. (The source tests the two ids for equality once more here; the
  -- test before has made that impossible.)
  unfoldable pub store_trade : ℕ → ℕ → ℕ → (Trade D → Trade D) → Action (Connector D) (Unit {0})
  store_trade user_id id_deal sec fill = do
    ord ← order_for user_id sec
    p ← call_database (create_trade id_deal sec ord)
    on_database (write_trade p fill)
    add_my_trade_event p

  unfoldable pub user_deal_row : UserDeal → Action (Connector D) (Unit {0})
  unfolding store_trade
  user_deal_row row c =
      if row.ext_id_sell == row.ext_id_buy
      then done c
      else if is_trade_exist row.id_deal c.database
      then done c
      else if is_security_id row.isin_id c
      then (do
        sec ← get_security_by_id row.isin_id
        store_trade (deal_user_id row.ext_id_buy row.ext_id_sell) row.id_deal sec (fill_deal row))
          c
      else done c

  unfoldable pub multileg_deal_row : MultilegDeal → Action (Connector D) (Unit {0})
  unfolding store_trade
  multileg_deal_row row c =
      if row.ext_id_sell == row.ext_id_buy
      then done c
      else if is_trade_exist row.id_deal c.database
      then done c
      else if is_security_id row.isin_id c
      then (do
        sec ← get_security_by_id row.isin_id
        s ← security_at sec
        if is_spread s.type
            then store_trade (deal_user_id row.ext_id_buy row.ext_id_sell) row.id_deal sec
                (fill_multileg_deal row)
            else done)
          c
      else done c

  unfoldable pub trade_row : TradeRow → Action (Connector D) (Unit {0})
  unfolding orders_log_row multileg_orders_log_row multileg_deal_row user_deal_row
  trade_row (orders_log row) = orders_log_row row
  trade_row (multileg_orders_log row) = multileg_orders_log_row row
  trade_row (multileg_deal row) = multileg_deal_row row
  trade_row (user_deal row) = user_deal_row row
  trade_row other_table = done

  abbrev pub order_stream_state : {A : Type 0} → ℕ → Message A → Action (Connector D) (Unit {0})
  order_stream_state l msg =
      update (λ c. record c { order_stream = listener_state_process l msg c.order_stream })

  -- The row's constructor says which table the message's index names.
  unfoldable pub listener_fut_trade_stream : ℕ → Message TradeRow → Action (Connector D) (Unit {0})
  unfolding trade_row
  listener_fut_trade_stream l (Message.stream_data index row) = trade_row row
  listener_fut_trade_stream l Message.clear_deleted = done
  listener_fut_trade_stream l Message.tn_begin = done
  listener_fut_trade_stream l Message.tn_commit = done
  listener_fut_trade_stream l msg = order_stream_state l msg
