-- ===== src/Connector/Unset.antt =====
-- PlazaCallbacks.cpp: the session and the number of an instrument.
use simple_cgate.Base.{
  ℕ, zero, ◌≡◌, refl, arith, Bool, true, ◌&&◌, none, some, List, nat_eq, text_eq, ◌==◌, Text, Holds,
  Holds-map,
}
use simple_cgate.Entities.Platform.{Platform}
use simple_cgate.Events.{EventManager}
use simple_cgate.Streams.{Message}
use simple_cgate.Database.{create_order, create_trade, create_position, create_security}
use simple_cgate.Connector.{Connector, GateConfig, order_for, position_for}
use simple_cgate.Connector.Rows.{
  MyOrdersLog, UserDeal, FutSessContents, MultilegDeal, MyMultilegOrdersLog, PositionRow, FutVm,
  FutCommon, Part, TradeRow, orders_log, multileg_orders_log, multileg_deal, user_deal, other_table,
  PublisherMessage,
}
use simple_cgate.Connector.Market.{
  session_row, security_for, link_security, position_row, vm_row, quote_row, money_row,
  listener_part_stream, listener_fut_info_stream, listener_fut_common_stream, listener_vm_stream,
  listener_position_stream,
}
use simple_cgate.Connector.Trading.{
  orders_log_row, user_deal_row, multileg_orders_log_row, multileg_deal_row, trade_row, store_trade,
  listener_fut_trade_stream,
}
use simple_cgate.Connector.Replies.{
  publisher_callback, add_reply, delete_reply, move_reply, flood_reply,
}
use simple_cgate.Connector.Callbacks.{
  Callback, part, fut_info, vm, position, fut_common, fut_trade, reply, deliver, deliver_all,
  new_connector, new_connector-IsGate,
}
use simple_cgate.Transactions.{TransactionManager}
use simple_cgate.Connector.Safety.{IsGate}
use simple_cgate.Connector.Runs.{deliver_all-Holds}

module _ {D : Type 0} where
  -- The object at an address, if it is an instrument, has no session and no number.
  abbrev pub is_unset : ℕ → Connector D → Bool
  is_unset p c = elim (c.database.heap.securities p) [
    | none ↦ true
    | some s ↦ s.sess_id == 0 && s.isin_id == 0
  ]

  abbrev Unset : Connector D → Type 0
  Unset c = (p : ℕ) → is_unset p c ≡ true

module _ {D : Type 0} ⦃num : Platform D⦄ where
  orders_log_row-Unset :
      (row : MyOrdersLog) (c c' : Connector D)
      → Unset c
      → orders_log_row row c ≡ some (tt, c')
      → Unset c'
  unfolding orders_log_row order_for create_order
  orders_log_row-Unset row c c' h e p = ground (arith, h p)

  multileg_orders_log_row-Unset :
      (row : MyMultilegOrdersLog) (c c' : Connector D)
      → Unset c
      → multileg_orders_log_row row c ≡ some (tt, c')
      → Unset c'
  unfolding multileg_orders_log_row order_for create_order
  multileg_orders_log_row-Unset row c c' h e p = ground (arith, h p)

  user_deal_row-Unset :
      (row : UserDeal) (c c' : Connector D)
      → Unset c
      → user_deal_row row c ≡ some (tt, c')
      → Unset c'
  unfolding user_deal_row store_trade order_for create_order create_trade
  user_deal_row-Unset row c c' h e p = ground (arith, h p)

  multileg_deal_row-Unset :
      (row : MultilegDeal) (c c' : Connector D)
      → Unset c
      → multileg_deal_row row c ≡ some (tt, c')
      → Unset c'
  unfolding multileg_deal_row store_trade order_for create_order create_trade
  multileg_deal_row-Unset row c c' h e p = ground (arith, h p)

  position_row-Unset :
      (row : PositionRow) (c c' : Connector D)
      → Unset c
      → position_row row c ≡ some (tt, c')
      → Unset c'
  unfolding position_row create_position position_for
  position_row-Unset row c c' h e p = ground (arith, h p)

  vm_row-Unset :
      (row : FutVm) (c c' : Connector D) → Unset c → vm_row row c ≡ some (tt, c') → Unset c'
  unfolding vm_row create_position position_for
  vm_row-Unset row c c' h e p = ground (arith, h p)

  quote_row-Unset :
      (row : FutCommon) (c c' : Connector D) → Unset c → quote_row row c ≡ some (tt, c') → Unset c'
  unfolding quote_row
  quote_row-Unset row c c' h e p = ground (arith, h p)

  money_row-Unset :
      (row : Part) (c c' : Connector D) → Unset c → money_row row c ≡ some (tt, c') → Unset c'
  unfolding money_row
  money_row-Unset row c c' h e p = ground (arith, h p)

  session_row-Unset :
      (row : FutSessContents) (c c' : Connector D)
      → Unset c
      → session_row row c ≡ some (tt, c')
      → Unset c'
  unfolding session_row create_security security_for link_security
  session_row-Unset row c c' h e p = ground (arith, h p)

  publisher_callback-Unset :
      (msg : PublisherMessage) (c c' : Connector D)
      → Unset c
      → publisher_callback msg c ≡ some (tt, c')
      → Unset c'
  unfolding publisher_callback add_reply delete_reply move_reply flood_reply
  publisher_callback-Unset msg c c' h e p = ground (arith, h p)

  trade_row-Unset :
      (row : TradeRow) (c c' : Connector D) → Unset c → trade_row row c ≡ some (tt, c') → Unset c'
  unfolding trade_row
  trade_row-Unset (orders_log row) c c' h e = orders_log_row-Unset row c c' h e
  trade_row-Unset (multileg_orders_log row) c c' h e = multileg_orders_log_row-Unset row c c' h e
  trade_row-Unset (multileg_deal row) c c' h e = multileg_deal_row-Unset row c c' h e
  trade_row-Unset (user_deal row) c c' h e = user_deal_row-Unset row c c' h e
  trade_row-Unset other_table c c' h e = λ p. ground (arith, h p)

  deliver-Unset :
      (cb : Callback) (c c' : Connector D) → Unset c → deliver cb c ≡ some (tt, c') → Unset c'
  unfolding deliver listener_part_stream listener_fut_info_stream listener_fut_common_stream
      listener_vm_stream listener_position_stream listener_fut_trade_stream
  deliver-Unset (reply msg) c c' h e = publisher_callback-Unset msg c c' h e
  deliver-Unset (part l (Message.stream_data zero row)) c c' h e = money_row-Unset row c c' h e
  deliver-Unset (part l _) c c' h e = λ p. ground (arith, h p)
  deliver-Unset (fut_info l (Message.stream_data zero row)) c c' h e =
      session_row-Unset row c c' h e
  deliver-Unset (fut_info l _) c c' h e = λ p. ground (arith, h p)
  deliver-Unset (vm l (Message.stream_data zero row)) c c' h e = vm_row-Unset row c c' h e
  deliver-Unset (vm l _) c c' h e = λ p. ground (arith, h p)
  deliver-Unset (position l (Message.stream_data zero row)) c c' h e =
      position_row-Unset row c c' h e
  deliver-Unset (position l _) c c' h e = λ p. ground (arith, h p)
  deliver-Unset (fut_common l (Message.stream_data zero row)) c c' h e =
      quote_row-Unset row c c' h e
  deliver-Unset (fut_common l _) c c' h e = λ p. ground (arith, h p)
  deliver-Unset (fut_trade l (Message.stream_data _ row)) c c' h e = trade_row-Unset row c c' h e
  deliver-Unset (fut_trade l _) c c' h e = λ p. ground (arith, h p)

-- From the fresh connector on, every sequence of callbacks ends, and no instrument has then a
-- session or a number: both fields keep the 0 that they were made with.
pub deliver_all-is_unset :
    (D : Type 0) ⦃num : Platform D⦄ (config : GateConfig) (app_id : ℕ) (conn : Text)
    (memory : TransactionManager) (events : EventManager) (cbs : List Callback) (p : ℕ)
    → Holds
        (λ _ (c' : Connector D). is_unset p c' ≡ true)
        (deliver_all cbs (new_connector config app_id conn memory events))
deliver_all-is_unset D ⦃num⦄ config app_id conn memory events cbs p =
    Holds-map (λ c'. IsGate c' × Unset c') _ (deliver_all cbs fresh)
      (deliver_all-Holds Unset (λ cb c c' v h e. deliver-Unset cb c c' h e) cbs fresh
        (new_connector-IsGate config app_id conn memory events) (λ q. refl))
      (λ c' e w. w.1 p)
  where
    fresh : Connector D
    fresh = new_connector config app_id conn memory events
