-- ===== src/Connector/Keeps/Rows.antt =====
-- PlazaCallbacks.cpp: the relation for the rows of the tables and for the replies.
use simple_cgate.Base.{◌≡◌, arith, some, nat_eq, text_eq, text_beq_iff}
use simple_cgate.Entities.Platform.{Platform}
use simple_cgate.Database.{create_order, create_trade, create_position, create_security}
use simple_cgate.Connector.{Connector, order_for, position_for}
use simple_cgate.Connector.Rows.{
  MyOrdersLog, UserDeal, FutSessContents, MultilegDeal, MyMultilegOrdersLog, PositionRow, FutVm,
  FutCommon, Part, Reply,
}
use simple_cgate.Connector.Market.{
  session_row, security_for, link_security, position_row, vm_row, quote_row, money_row,
}
use simple_cgate.Connector.Trading.{
  orders_log_row, user_deal_row, multileg_orders_log_row, multileg_deal_row, store_trade,
}
use simple_cgate.Connector.Replies.{add_reply, delete_reply, move_reply, flood_reply}
use simple_cgate.Connector.Safety.{IsGate}
use simple_cgate.Connector.Keeps.{Keeps, irreflexive}

module _ {D : Type 0} ⦃num : Platform D⦄ where
  pub orders_log_row-Keeps :
      (row : MyOrdersLog) (c c' : Connector D)
      → IsGate c
      → orders_log_row row c ≡ some (tt, c')
      → Keeps c c'
  unfolding orders_log_row order_for create_order
  orders_log_row-Keeps row c c' v e = record {
    session = ground (arith, irreflexive c.last_sess_id);
    orders = λ k p h. ground arith;
    trades = λ k p h. ground arith;
    securities = λ k p h. ground (arith);
    links = λ k p h. ground arith;
    deals = λ p t h. ground (arith);
    service_states = ground arith;
    order_states = ground arith;
    common_states = ground arith;
  }

  pub multileg_orders_log_row-Keeps :
      (row : MyMultilegOrdersLog) (c c' : Connector D)
      → IsGate c
      → multileg_orders_log_row row c ≡ some (tt, c')
      → Keeps c c'
  unfolding multileg_orders_log_row order_for create_order
  multileg_orders_log_row-Keeps row c c' v e = record {
    session = ground (arith, irreflexive c.last_sess_id);
    orders = λ k p h. ground arith;
    trades = λ k p h. ground arith;
    securities = λ k p h. ground (arith);
    links = λ k p h. ground arith;
    deals = λ p t h. ground (arith);
    service_states = ground arith;
    order_states = ground arith;
    common_states = ground arith;
  }

  pub user_deal_row-Keeps :
      (row : UserDeal) (c c' : Connector D)
      → IsGate c
      → user_deal_row row c ≡ some (tt, c')
      → Keeps c c'
  unfolding user_deal_row store_trade order_for create_order create_trade
  user_deal_row-Keeps row c c' v e = record {
    session = ground (arith, irreflexive c.last_sess_id);
    orders = λ k p h. ground arith;
    trades = λ k p h. ground arith;
    securities = λ k p h. ground (arith);
    links = λ k p h. ground arith;
    deals = λ p t h. ground (arith, v.database_ok.heap_ok.fresh_trades p);
    service_states = ground arith;
    order_states = ground arith;
    common_states = ground arith;
  }

  pub multileg_deal_row-Keeps :
      (row : MultilegDeal) (c c' : Connector D)
      → IsGate c
      → multileg_deal_row row c ≡ some (tt, c')
      → Keeps c c'
  unfolding multileg_deal_row store_trade order_for create_order create_trade
  multileg_deal_row-Keeps row c c' v e = record {
    session = ground (arith, irreflexive c.last_sess_id);
    orders = λ k p h. ground arith;
    trades = λ k p h. ground arith;
    securities = λ k p h. ground (arith);
    links = λ k p h. ground arith;
    deals = λ p t h. ground (arith, v.database_ok.heap_ok.fresh_trades p);
    service_states = ground arith;
    order_states = ground arith;
    common_states = ground arith;
  }

  pub position_row-Keeps :
      (row : PositionRow) (c c' : Connector D)
      → IsGate c
      → position_row row c ≡ some (tt, c')
      → Keeps c c'
  unfolding position_row create_position position_for
  position_row-Keeps row c c' v e = record {
    session = ground (arith, irreflexive c.last_sess_id);
    orders = λ k p h. ground arith;
    trades = λ k p h. ground arith;
    securities = λ k p h. ground (arith);
    links = λ k p h. ground arith;
    deals = λ p t h. ground (arith);
    service_states = ground arith;
    order_states = ground arith;
    common_states = ground arith;
  }

  pub vm_row-Keeps :
      (row : FutVm) (c c' : Connector D) → IsGate c → vm_row row c ≡ some (tt, c') → Keeps c c'
  unfolding vm_row create_position position_for
  vm_row-Keeps row c c' v e = record {
    session = ground (arith, irreflexive c.last_sess_id);
    orders = λ k p h. ground arith;
    trades = λ k p h. ground arith;
    securities = λ k p h. ground (arith);
    links = λ k p h. ground arith;
    deals = λ p t h. ground (arith);
    service_states = ground arith;
    order_states = ground arith;
    common_states = ground arith;
  }

  pub quote_row-Keeps :
      (row : FutCommon) (c c' : Connector D)
      → IsGate c
      → quote_row row c ≡ some (tt, c')
      → Keeps c c'
  unfolding quote_row
  quote_row-Keeps row c c' v e = record {
    session = ground (arith, irreflexive c.last_sess_id);
    orders = λ k p h. ground arith;
    trades = λ k p h. ground arith;
    securities = λ k p h. ground (arith);
    links = λ k p h. ground arith;
    deals = λ p t h. ground (arith);
    service_states = ground arith;
    order_states = ground arith;
    common_states = ground arith;
  }

  pub money_row-Keeps :
      (row : Part) (c c' : Connector D) → IsGate c → money_row row c ≡ some (tt, c') → Keeps c c'
  unfolding money_row
  money_row-Keeps row c c' v e = record {
    session = ground (arith, irreflexive c.last_sess_id);
    orders = λ k p h. ground arith;
    trades = λ k p h. ground arith;
    securities = λ k p h. ground (arith);
    links = λ k p h. ground arith;
    deals = λ p t h. ground (arith);
    service_states = ground arith;
    order_states = ground arith;
    common_states = ground arith;
  }

  pub session_row-Keeps :
      (row : FutSessContents) (c c' : Connector D)
      → IsGate c
      → session_row row c ≡ some (tt, c')
      → Keeps c c'
  unfolding session_row create_security security_for link_security
  session_row-Keeps row c c' v e = record {
    session = ground (arith, irreflexive c.last_sess_id, irreflexive row.sess_id);
    orders = λ k p h. ground arith;
    trades = λ k p h. ground arith;
    securities = λ k p h. ground (arith, text_beq_iff row.isin k);
    links = λ k p h. ground arith;
    deals = λ p t h. ground (arith);
    service_states = ground arith;
    order_states = ground arith;
    common_states = ground arith;
  }

  pub add_reply-Keeps :
      (r : Reply) (c c' : Connector D) → IsGate c → add_reply r c ≡ some (tt, c') → Keeps c c'
  unfolding add_reply
  add_reply-Keeps r c c' v e = record {
    session = ground (arith, irreflexive c.last_sess_id);
    orders = λ k p h. ground arith;
    trades = λ k p h. ground arith;
    securities = λ k p h. ground (arith);
    links = λ k p h. ground arith;
    deals = λ p t h. ground (arith);
    service_states = ground arith;
    order_states = ground arith;
    common_states = ground arith;
  }

  pub delete_reply-Keeps :
      (r : Reply) (c c' : Connector D) → IsGate c → delete_reply r c ≡ some (tt, c') → Keeps c c'
  unfolding delete_reply
  delete_reply-Keeps r c c' v e = record {
    session = ground (arith, irreflexive c.last_sess_id);
    orders = λ k p h. ground arith;
    trades = λ k p h. ground arith;
    securities = λ k p h. ground (arith);
    links = λ k p h. ground arith;
    deals = λ p t h. ground (arith);
    service_states = ground arith;
    order_states = ground arith;
    common_states = ground arith;
  }

  pub move_reply-Keeps :
      (r : Reply) (c c' : Connector D) → IsGate c → move_reply r c ≡ some (tt, c') → Keeps c c'
  unfolding move_reply
  move_reply-Keeps r c c' v e = record {
    session = ground (arith, irreflexive c.last_sess_id);
    orders = λ k p h. ground arith;
    trades = λ k p h. ground arith;
    securities = λ k p h. ground (arith);
    links = λ k p h. ground arith;
    deals = λ p t h. ground (arith);
    service_states = ground arith;
    order_states = ground arith;
    common_states = ground arith;
  }

  pub flood_reply-Keeps :
      (r : Reply) (c c' : Connector D) → IsGate c → flood_reply r c ≡ some (tt, c') → Keeps c c'
  unfolding flood_reply
  flood_reply-Keeps r c c' v e = record {
    session = ground (arith, irreflexive c.last_sess_id);
    orders = λ k p h. ground arith;
    trades = λ k p h. ground arith;
    securities = λ k p h. ground (arith);
    links = λ k p h. ground arith;
    deals = λ p t h. ground (arith);
    service_states = ground arith;
    order_states = ground arith;
    common_states = ground arith;
  }
