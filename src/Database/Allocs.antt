-- ===== src/Database/Allocs.antt =====
-- Database.cpp: allocation and labelling in the `Create…` operations, and well-formedness.
use simple_cgate.Base.{
  ℕ, ◌+◌, ◌≡◌, refl, true, some, Text, arith, Map, put, is_some, bind_some, nat_eq, text_eq, Fresh,
  Fresh-suc, Fresh-put, Grows-put, Grows-refl, Keyed-put, Keyed-key, Refers-Grows, Refers-put,
}
use simple_cgate.Base.Words.{u32}
use simple_cgate.Entities.Platform.{Platform}
use simple_cgate.Entities.Security
use simple_cgate.Entities.Security.{Security}
use simple_cgate.Entities.Order
use simple_cgate.Entities.Order.{Order}
use simple_cgate.Entities.Trade
use simple_cgate.Entities.Trade.{Trade}
use simple_cgate.Entities.Position
use simple_cgate.Entities.Position.{Position}
use simple_cgate.Database.{
  Database, security, order, trade, position, label_security, label_order, label_trade,
  label_position, alloc_security, alloc_order, alloc_trade, alloc_position,
}
use simple_cgate.Database.Valid.{
  IsHeap, IsValid, HeapGrows, is_entity_live-HeapGrows, put-entity-IsValid, isin_of, user_id_of,
  trade_id_of, position_key,
}
use simple_cgate.Database.Writes.{
  write_security-IsValid, write_order-IsValid, write_trade-IsValid, write_position-IsValid,
}

module _ {D : Type 0} ⦃num : Platform D⦄ where
  position_key-put :
      (n : ℕ) (s : Security D) (h : Map ℕ (Security D)) (p : Position D) (k : Text)
      → Fresh n h
      → position_key h p ≡ some k
      → position_key (put n s h) p ≡ some k
  position_key-put n s h p k f e = ground (arith, f n)

  pub alloc_security-IsValid :
      (name : Text) (db : Database D) → IsValid db → IsValid (alloc_security name db).1
  alloc_security-IsValid name db v = record {
    heap_ok = kept;
    securities_ok =
        Keyed-put isin_of db.securities name db.heap.next (Security.new_security ⦃num = num⦄ name)
          db.heap.securities v.heap_ok.fresh_securities refl v.securities_ok;
    orders_ok = v.orders_ok;
    trades_ok = v.trades_ok;
    positions_ok =
        Keyed-key _ _ db.positions db.heap.positions
          (λ p k.
            position_key-put db.heap.next (Security.new_security ⦃num = num⦄ name)
              db.heap.securities p k v.heap_ok.fresh_securities)
          v.positions_ok;
    entities_ok = λ g e u. is_entity_live-HeapGrows db.heap _ e grown (v.entities_ok g e u);
  }
    where
      kept : IsHeap (alloc_security name db).1.heap
      kept = record {
        fresh_securities =
            Fresh-put db.heap.next (Security.new_security ⦃num = num⦄ name) db.heap.securities
              v.heap_ok.fresh_securities;
        fresh_orders = Fresh-suc db.heap.next db.heap.orders v.heap_ok.fresh_orders;
        fresh_trades = Fresh-suc db.heap.next db.heap.trades v.heap_ok.fresh_trades;
        fresh_positions = Fresh-suc db.heap.next db.heap.positions v.heap_ok.fresh_positions;
        order_security =
            Refers-Grows _ db.heap.orders _ _
              (Grows-put db.heap.next (Security.new_security ⦃num = num⦄ name) db.heap.securities)
              v.heap_ok.order_security;
        trade_security =
            Refers-Grows _ db.heap.trades _ _
              (Grows-put db.heap.next (Security.new_security ⦃num = num⦄ name) db.heap.securities)
              v.heap_ok.trade_security;
        trade_order = v.heap_ok.trade_order;
        position_security =
            Refers-Grows _ db.heap.positions _ _
              (Grows-put db.heap.next (Security.new_security ⦃num = num⦄ name) db.heap.securities)
              v.heap_ok.position_security;
      }

      grown : HeapGrows db.heap (alloc_security name db).1.heap
      grown = record {
        securities_grow =
            Grows-put db.heap.next (Security.new_security ⦃num = num⦄ name) db.heap.securities;
        orders_grow = Grows-refl db.heap.orders;
        trades_grow = Grows-refl db.heap.trades;
        positions_grow = Grows-refl db.heap.positions;
        strategies_grow = Grows-refl db.heap.strategies;
      }

  pub label_security-IsValid :
      (p : ℕ) (db : Database D)
      → is_some (db.heap.securities p) ≡ true
      → IsValid db
      → IsValid (label_security p db)
  unfolding label_security
  label_security-IsValid p db live v =
      put-entity-IsValid _ db.global_id (u32 (db.global_id + 1)) (security p) (ground arith)
        (write_security-IsValid p (Security.set_global_id db.global_id) (λ x. refl) db v)

  pub alloc_order-IsValid :
      (user_id sec : ℕ) (db : Database D)
      → is_some (db.heap.securities sec) ≡ true
      → IsValid db
      → IsValid (alloc_order user_id sec db).1
  alloc_order-IsValid user_id sec db live v = record {
    heap_ok = kept;
    securities_ok = v.securities_ok;
    orders_ok =
        Keyed-put user_id_of db.orders user_id db.heap.next
          (Order.new_order ⦃num = num⦄ sec user_id) db.heap.orders v.heap_ok.fresh_orders refl
          v.orders_ok;
    trades_ok = v.trades_ok;
    positions_ok = v.positions_ok;
    entities_ok = λ g e u. is_entity_live-HeapGrows db.heap _ e grown (v.entities_ok g e u);
  }
    where
      kept : IsHeap (alloc_order user_id sec db).1.heap
      kept = record {
        fresh_securities = Fresh-suc db.heap.next db.heap.securities v.heap_ok.fresh_securities;
        fresh_orders =
            Fresh-put db.heap.next (Order.new_order ⦃num = num⦄ sec user_id) db.heap.orders
              v.heap_ok.fresh_orders;
        fresh_trades = Fresh-suc db.heap.next db.heap.trades v.heap_ok.fresh_trades;
        fresh_positions = Fresh-suc db.heap.next db.heap.positions v.heap_ok.fresh_positions;
        order_security =
            Refers-put _ db.heap.next (Order.new_order ⦃num = num⦄ sec user_id) db.heap.orders
              db.heap.securities live v.heap_ok.order_security;
        trade_security = v.heap_ok.trade_security;
        trade_order =
            Refers-Grows _ db.heap.trades _ _
              (Grows-put db.heap.next (Order.new_order ⦃num = num⦄ sec user_id) db.heap.orders)
              v.heap_ok.trade_order;
        position_security = v.heap_ok.position_security;
      }

      grown : HeapGrows db.heap (alloc_order user_id sec db).1.heap
      grown = record {
        securities_grow = Grows-refl db.heap.securities;
        orders_grow =
            Grows-put db.heap.next (Order.new_order ⦃num = num⦄ sec user_id) db.heap.orders;
        trades_grow = Grows-refl db.heap.trades;
        positions_grow = Grows-refl db.heap.positions;
        strategies_grow = Grows-refl db.heap.strategies;
      }

  pub label_order-IsValid :
      (p : ℕ) (db : Database D)
      → is_some (db.heap.orders p) ≡ true
      → IsValid db
      → IsValid (label_order p db)
  unfolding label_order
  label_order-IsValid p db live v =
      put-entity-IsValid _ db.global_id (u32 (db.global_id + 1)) (order p) (ground arith)
        (write_order-IsValid p (Order.set_global_id db.global_id) (λ x. (refl, refl)) db v)

  pub alloc_trade-IsValid :
      (id sec ord : ℕ) (db : Database D)
      → is_some (db.heap.securities sec) ≡ true
      → is_some (db.heap.orders ord) ≡ true
      → IsValid db
      → IsValid (alloc_trade id sec ord db).1
  alloc_trade-IsValid id sec ord db live live_order v = record {
    heap_ok = kept;
    securities_ok = v.securities_ok;
    orders_ok = v.orders_ok;
    trades_ok =
        Keyed-put trade_id_of db.my_trades id db.heap.next (Trade.new_trade ⦃num = num⦄ id sec ord)
          db.heap.trades v.heap_ok.fresh_trades refl v.trades_ok;
    positions_ok = v.positions_ok;
    entities_ok = λ g e u. is_entity_live-HeapGrows db.heap _ e grown (v.entities_ok g e u);
  }
    where
      kept : IsHeap (alloc_trade id sec ord db).1.heap
      kept = record {
        fresh_securities = Fresh-suc db.heap.next db.heap.securities v.heap_ok.fresh_securities;
        fresh_orders = Fresh-suc db.heap.next db.heap.orders v.heap_ok.fresh_orders;
        fresh_trades =
            Fresh-put db.heap.next (Trade.new_trade ⦃num = num⦄ id sec ord) db.heap.trades
              v.heap_ok.fresh_trades;
        fresh_positions = Fresh-suc db.heap.next db.heap.positions v.heap_ok.fresh_positions;
        order_security = v.heap_ok.order_security;
        trade_security =
            Refers-put _ db.heap.next (Trade.new_trade ⦃num = num⦄ id sec ord) db.heap.trades
              db.heap.securities live v.heap_ok.trade_security;
        trade_order =
            Refers-put _ db.heap.next (Trade.new_trade ⦃num = num⦄ id sec ord) db.heap.trades
              db.heap.orders live_order v.heap_ok.trade_order;
        position_security = v.heap_ok.position_security;
      }

      grown : HeapGrows db.heap (alloc_trade id sec ord db).1.heap
      grown = record {
        securities_grow = Grows-refl db.heap.securities;
        orders_grow = Grows-refl db.heap.orders;
        trades_grow =
            Grows-put db.heap.next (Trade.new_trade ⦃num = num⦄ id sec ord) db.heap.trades;
        positions_grow = Grows-refl db.heap.positions;
        strategies_grow = Grows-refl db.heap.strategies;
      }

  pub label_trade-IsValid :
      (p : ℕ) (db : Database D)
      → is_some (db.heap.trades p) ≡ true
      → IsValid db
      → IsValid (label_trade p db)
  unfolding label_trade
  label_trade-IsValid p db live v =
      put-entity-IsValid _ db.global_id (u32 (db.global_id + 1)) (trade p) (ground arith)
        (write_trade-IsValid p (Trade.set_global_id db.global_id) (λ x. (refl, refl, refl)) db v)

  pub alloc_position-IsValid :
      (isin : Text) (sec : ℕ) (db : Database D)
      → is_some (db.heap.securities sec) ≡ true
      → bind_some (db.heap.securities sec) isin_of ≡ some isin
      → IsValid db
      → IsValid (alloc_position isin sec db).1
  alloc_position-IsValid isin sec db live named v = record {
    heap_ok = kept;
    securities_ok = v.securities_ok;
    orders_ok = v.orders_ok;
    trades_ok = v.trades_ok;
    positions_ok =
        Keyed-put (position_key db.heap.securities) db.positions isin db.heap.next
          (Position.new_position ⦃num = num⦄ sec) db.heap.positions v.heap_ok.fresh_positions named
          v.positions_ok;
    entities_ok = λ g e u. is_entity_live-HeapGrows db.heap _ e grown (v.entities_ok g e u);
  }
    where
      kept : IsHeap (alloc_position isin sec db).1.heap
      kept = record {
        fresh_securities = Fresh-suc db.heap.next db.heap.securities v.heap_ok.fresh_securities;
        fresh_orders = Fresh-suc db.heap.next db.heap.orders v.heap_ok.fresh_orders;
        fresh_trades = Fresh-suc db.heap.next db.heap.trades v.heap_ok.fresh_trades;
        fresh_positions =
            Fresh-put db.heap.next (Position.new_position ⦃num = num⦄ sec) db.heap.positions
              v.heap_ok.fresh_positions;
        order_security = v.heap_ok.order_security;
        trade_security = v.heap_ok.trade_security;
        trade_order = v.heap_ok.trade_order;
        position_security =
            Refers-put _ db.heap.next (Position.new_position ⦃num = num⦄ sec) db.heap.positions
              db.heap.securities live v.heap_ok.position_security;
      }

      grown : HeapGrows db.heap (alloc_position isin sec db).1.heap
      grown = record {
        securities_grow = Grows-refl db.heap.securities;
        orders_grow = Grows-refl db.heap.orders;
        trades_grow = Grows-refl db.heap.trades;
        positions_grow =
            Grows-put db.heap.next (Position.new_position ⦃num = num⦄ sec) db.heap.positions;
        strategies_grow = Grows-refl db.heap.strategies;
      }

  pub label_position-IsValid :
      (p : ℕ) (db : Database D)
      → is_some (db.heap.positions p) ≡ true
      → IsValid db
      → IsValid (label_position p db)
  unfolding label_position
  label_position-IsValid p db live v =
      put-entity-IsValid _ db.global_id (u32 (db.global_id + 1)) (position p) (ground arith)
        (write_position-IsValid p (Position.set_global_id db.global_id) (λ x. refl) db v)
