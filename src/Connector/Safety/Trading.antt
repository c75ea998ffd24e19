-- ===== src/Connector/Safety/Trading.antt =====
-- PlazaCallbacks.cpp: the callback for orders and deals, on a well-formed connector.
use simple_cgate.Base.{
  ℕ, inl, inr, ◌≡◌, Bool, true, false, arith, nat_eq, ◌==◌, Action, done, Holds, >>=-Holds,
  deref-Holds, Bool-cases, ◌>>=◌, ◌>>◌, if◌then◌else◌,
}
use simple_cgate.Entities.Platform.{Platform}
use simple_cgate.Entities.Order.{Order}
use simple_cgate.Entities.Security.{Security}
use simple_cgate.Entities.Trade.{Trade}
use simple_cgate.Streams.{Message}
use simple_cgate.Database.{is_trade_exist, write_order, write_trade, create_trade}
use simple_cgate.Connector.Rows.{
  TradeRow, orders_log, multileg_orders_log, multileg_deal, user_deal, other_table, MyOrdersLog,
  MyMultilegOrdersLog, MultilegDeal, UserDeal,
}
use simple_cgate.Connector.{
  Connector, is_security_id, get_security_by_id, security_at, on_database, call_database, order_for,
  add_order_event, add_my_trade_event,
}
use simple_cgate.Connector.Trading.{
  order_action, multileg_order_action, orders_log_row, multileg_orders_log_row, deal_user_id,
  fill_deal, fill_multileg_deal, store_trade, user_deal_row, is_spread, multileg_deal_row,
  trade_row, listener_fut_trade_stream,
}
use simple_cgate.Connector.Safety.{
  IsGate, Gate, SecurityLive, OrderAndSecurity, write_order-Live, write_trade-Live,
  add_order_event-Gate, add_my_trade_event-Gate, get_security_by_id-Live, order_for-Live,
  create_trade-Live,
}

module _ {D : Type 0} ⦃num : Platform D⦄ where
  order_action-same :
      (row : MyOrdersLog) (o : Order D)
      → ((order_action row o).user_id ≡ o.user_id) × ((order_action row o).security ≡ o.security)
  unfolding order_action
  order_action-same row o = ground arith

  multileg_order_action-same :
      (row : MyMultilegOrdersLog) (o : Order D)
      → ((multileg_order_action row o).user_id ≡ o.user_id)
        × ((multileg_order_action row o).security ≡ o.security)
  unfolding multileg_order_action
  multileg_order_action-same row o = ground arith

  -- Both order tables: the order is found or made, written, and announced.
  write_found_order :
      (isin_id user_id : ℕ) (f : Order D → Order D) (c : Connector D)
      → ((o : Order D) → ((f o).user_id ≡ o.user_id) × ((f o).security ≡ o.security))
      → is_security_id isin_id c ≡ true
      → IsGate c
      → Holds Gate (
          (get_security_by_id isin_id >>= λ sec.
          order_for user_id sec >>= λ p. on_database (write_order p f) >> add_order_event p)
            c)
  write_found_order isin_id user_id f c same e v =
      >>=-Holds SecurityLive Gate (get_security_by_id isin_id)
        (λ sec. order_for user_id sec >>= λ p. on_database (write_order p f) >> add_order_event p) c
        (get_security_by_id-Live isin_id c e v)
        λ sec d l.
          >>=-Holds (OrderAndSecurity sec) Gate (order_for user_id sec)
            (λ p. on_database (write_order p f) >> add_order_event p) d
            (order_for-Live user_id sec d l)
            λ p d' m. add_order_event-Gate p _ (write_order-Live p f d' same m.0)

  orders_log_row-Gate :
      (row : MyOrdersLog) (c : Connector D) → IsGate c → Holds Gate (orders_log_row row c)
  unfolding orders_log_row
  orders_log_row-Gate row c v = elim (Bool-cases (is_security_id row.isin_id c)) [
    | inl e ↦
        rw (e, orders_log_row)
          (write_found_order row.isin_id row.ext_id (order_action row) c (order_action-same row) e
            v)
    | inr e ↦ rw (e, orders_log_row) v
  ]

  multileg_orders_log_row-Gate :
      (row : MyMultilegOrdersLog) (c : Connector D)
      → IsGate c
      → Holds Gate (multileg_orders_log_row row c)
  unfolding multileg_orders_log_row
  multileg_orders_log_row-Gate row c v = elim (Bool-cases (is_security_id row.isin_id c)) [
    | inl e ↦
        rw (e, multileg_orders_log_row)
          (write_found_order row.isin_id row.ext_id (multileg_order_action row) c
            (multileg_order_action-same row) e v)
    | inr e ↦ rw (e, multileg_orders_log_row) v
  ]

  store_trade-Gate :
      (user_id id sec : ℕ) (f : Trade D → Trade D) (c : Connector D)
      → ((t : Trade D)
          → ((f t).id ≡ t.id) × ((f t).security ≡ t.security) × ((f t).order ≡ t.order))
      → SecurityLive sec c
      → Holds Gate (store_trade user_id id sec f c)
  unfolding store_trade
  store_trade-Gate user_id id sec f c same l =
      >>=-Holds (OrderAndSecurity sec) Gate (order_for user_id sec)
        (λ ord. call_database (create_trade id sec ord) >>= λ p.
          on_database (write_trade p f) >> add_my_trade_event p)
        c (order_for-Live user_id sec c l)
        λ ord d m.
          add_my_trade_event-Gate (create_trade id sec ord d.database).0 _
            (write_trade-Live _ f _ same (create_trade-Live id sec ord d (m.0.0, m.1) m.0))

  pub user_deal_row-Gate :
      (row : UserDeal) (c : Connector D) → IsGate c → Holds Gate (user_deal_row row c)
  unfolding user_deal_row
  user_deal_row-Gate row c v = elim (Bool-cases (row.ext_id_sell == row.ext_id_buy)) [
    | inl e ↦ rw (e, user_deal_row) v
    | inr e ↦ elim (Bool-cases (is_trade_exist row.id_deal c.database)) [
      | inl e₁ ↦ rw (e, e₁, user_deal_row) v
      | inr e₁ ↦ elim (Bool-cases (is_security_id row.isin_id c)) [
        | inr e₂ ↦ rw (e, e₁, e₂, user_deal_row) v
        | inl e₂ ↦
            rw (e, e₁, e₂, user_deal_row)
              (>>=-Holds SecurityLive Gate (get_security_by_id row.isin_id)
                (λ sec.
                  store_trade (deal_user_id row.ext_id_buy row.ext_id_sell) row.id_deal sec
                    (fill_deal row))
                c (get_security_by_id-Live row.isin_id c e₂ v)
                λ sec d l.
                  store_trade-Gate _ row.id_deal sec (fill_deal row) d (λ t. ground arith) l)
      ]
    ]
  ]

  spread_deal :
      (row : MultilegDeal) (b : Bool) (sec : ℕ) (c : Connector D)
      → SecurityLive sec c
      → Holds Gate (
          (if b
              then store_trade
                  (deal_user_id row.ext_id_buy row.ext_id_sell)
                  row.id_deal
                  sec
                  (fill_multileg_deal row)
              else done)
            c)
  spread_deal row true sec c l =
      store_trade-Gate _ row.id_deal sec (fill_multileg_deal row) c (λ t. ground arith) l
  spread_deal row false sec c l = l.0

  pub multileg_deal_row-Gate :
      (row : MultilegDeal) (c : Connector D) → IsGate c → Holds Gate (multileg_deal_row row c)
  unfolding multileg_deal_row
  multileg_deal_row-Gate row c v = elim (Bool-cases (row.ext_id_sell == row.ext_id_buy)) [
    | inl e ↦ rw (e, multileg_deal_row) v
    | inr e ↦ elim (Bool-cases (is_trade_exist row.id_deal c.database)) [
      | inl e₁ ↦ rw (e, e₁, multileg_deal_row) v
      | inr e₁ ↦ elim (Bool-cases (is_security_id row.isin_id c)) [
        | inr e₂ ↦ rw (e, e₁, e₂, multileg_deal_row) v
        | inl e₂ ↦
            rw (e, e₁, e₂, multileg_deal_row)
              (>>=-Holds SecurityLive Gate (get_security_by_id row.isin_id) (λ sec. stored sec) c
                (get_security_by_id-Live row.isin_id c e₂ v) from_security)
      ]
    ]
  ]
    where
      of_type : ℕ → Security D → Action (Connector D) (Unit {0})
      of_type sec s =
          if is_spread s.type
          then store_trade (deal_user_id row.ext_id_buy row.ext_id_sell) row.id_deal sec
              (fill_multileg_deal row)
          else done

      stored : ℕ → Action (Connector D) (Unit {0})
      stored sec = security_at sec >>= of_type sec

      from_security : (sec : ℕ) (d : Connector D) → SecurityLive sec d → Holds Gate (stored sec d)
      from_security sec d l =
          >>=-Holds (λ _ d'. SecurityLive sec d') Gate (security_at sec) (of_type sec) d
            (deref-Holds (λ _ d'. SecurityLive sec d')
              (λ (x : Connector D). x.database.heap.securities sec) d l.1 (λ _ _. l))
            (λ s d' m. spread_deal row (is_spread s.type) sec d' m)

  trade_row-Gate : (row : TradeRow) (c : Connector D) → IsGate c → Holds Gate (trade_row row c)
  unfolding trade_row
  trade_row-Gate (orders_log row) c v = orders_log_row-Gate row c v
  trade_row-Gate (multileg_orders_log row) c v = multileg_orders_log_row-Gate row c v
  trade_row-Gate (multileg_deal row) c v = multileg_deal_row-Gate row c v
  trade_row-Gate (user_deal row) c v = user_deal_row-Gate row c v
  trade_row-Gate other_table c v = v

  -- A message of the listener of orders and deals never fails and keeps the connector well formed.
  pub listener_fut_trade_stream-Gate :
      (l : ℕ) (msg : Message TradeRow) (c : Connector D)
      → IsGate c
      → Holds Gate (listener_fut_trade_stream l msg c)
  unfolding listener_fut_trade_stream
  listener_fut_trade_stream-Gate l (Message.stream_data _ row) c v = trade_row-Gate row c v
  listener_fut_trade_stream-Gate l _ c v = record { database_ok = v.database_ok; linked = v.linked }
