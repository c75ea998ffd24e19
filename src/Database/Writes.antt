-- ===== src/Database/Writes.antt =====
-- Database.cpp: writes through the pointers that the database gives out, and well-formedness.
use simple_cgate.Base.{
  ℕ, ◌≡◌, refl, ap, Option, none, some, Text, arith, Map, modify, bind_some, nat_eq, Grows-modify,
  Grows-refl, Fresh-modify, Keyed-modify, Keyed-key, Refers-Grows, Refers-modify,
}
use simple_cgate.Entities.Security.{Security}
use simple_cgate.Entities.Order.{Order}
use simple_cgate.Entities.Trade.{Trade}
use simple_cgate.Entities.Position.{Position}
use simple_cgate.Entities.Strategy.{Strategy}
use simple_cgate.Entities.Money.{Money}
use simple_cgate.Database.{
  Database, Heap, write_security, write_order, write_trade, write_position, write_strategy,
  clear_position,
}
use simple_cgate.Database.Valid.{
  IsHeap, IsValid, HeapGrows, is_entity_live-HeapGrows, isin_of, user_id_of, trade_id_of,
  position_key,
}

module _ {D : Type 0} where
  -- A write through a pointer that keeps an object's key and references keeps the heap and the
  -- database well formed.
  module _ (q : ℕ) (f : Security D → Security D)
      (same : (s : Security D) → (f s).isin ≡ s.isin) where
    security-key :
        (h : Map ℕ (Security D)) (p : Position D) (k : Text)
        → position_key h p ≡ some k
        → position_key (modify q f h) p ≡ some k
    security-key h p k e = go (h p.security) refl
      where
        go : (o : Option (Security D)) → h p.security ≡ o → position_key (modify q f h) p ≡ some k
        go none u = ground arith
        go (some s) u = ground (arith, same s)

    pub security-IsHeap :
        (h : Heap D) → IsHeap h → IsHeap (record h { securities = modify q f h.securities })
    security-IsHeap h v = record {
      fresh_securities = Fresh-modify h.next q f h.securities v.fresh_securities;
      fresh_orders = v.fresh_orders;
      fresh_trades = v.fresh_trades;
      fresh_positions = v.fresh_positions;
      order_security = Refers-Grows _ h.orders _ _ (Grows-modify q f h.securities) v.order_security;
      trade_security = Refers-Grows _ h.trades _ _ (Grows-modify q f h.securities) v.trade_security;
      trade_order = v.trade_order;
      position_security =
          Refers-Grows _ h.positions _ _ (Grows-modify q f h.securities) v.position_security;
    }

    pub write_security-IsValid : (db : Database D) → IsValid db → IsValid (write_security q f db)
    write_security-IsValid db v = record {
      heap_ok = security-IsHeap db.heap v.heap_ok;
      securities_ok =
          Keyed-modify isin_of db.securities q f db.heap.securities (λ s. ap some (same s))
            v.securities_ok;
      orders_ok = v.orders_ok;
      trades_ok = v.trades_ok;
      positions_ok =
          Keyed-key _ _ db.positions db.heap.positions (security-key db.heap.securities)
            v.positions_ok;
      entities_ok = λ g e u. is_entity_live-HeapGrows db.heap _ e grown (v.entities_ok g e u);
    }
      where
        grown : HeapGrows db.heap (write_security q f db).heap
        grown = record {
          securities_grow = Grows-modify q f db.heap.securities;
          orders_grow = Grows-refl db.heap.orders;
          trades_grow = Grows-refl db.heap.trades;
          positions_grow = Grows-refl db.heap.positions;
          strategies_grow = Grows-refl db.heap.strategies;
        }

  module _ (q : ℕ) (f : Order D → Order D)
      (same : (o : Order D) → ((f o).user_id ≡ o.user_id) × ((f o).security ≡ o.security)) where
    pub order-IsHeap : (h : Heap D) → IsHeap h → IsHeap (record h { orders = modify q f h.orders })
    order-IsHeap h v = record {
      fresh_securities = v.fresh_securities;
      fresh_orders = Fresh-modify h.next q f h.orders v.fresh_orders;
      fresh_trades = v.fresh_trades;
      fresh_positions = v.fresh_positions;
      order_security = Refers-modify _ q f h.orders h.securities (λ o. (same o).1) v.order_security;
      trade_security = v.trade_security;
      trade_order = Refers-Grows _ h.trades _ _ (Grows-modify q f h.orders) v.trade_order;
      position_security = v.position_security;
    }

    pub write_order-IsValid : (db : Database D) → IsValid db → IsValid (write_order q f db)
    write_order-IsValid db v = record {
      heap_ok = order-IsHeap db.heap v.heap_ok;
      securities_ok = v.securities_ok;
      orders_ok =
          Keyed-modify user_id_of db.orders q f db.heap.orders (λ o. ap some (same o).0)
            v.orders_ok;
      trades_ok = v.trades_ok;
      positions_ok = v.positions_ok;
      entities_ok = λ g e u. is_entity_live-HeapGrows db.heap _ e grown (v.entities_ok g e u);
    }
      where
        grown : HeapGrows db.heap (write_order q f db).heap
        grown = record {
          securities_grow = Grows-refl db.heap.securities;
          orders_grow = Grows-modify q f db.heap.orders;
          trades_grow = Grows-refl db.heap.trades;
          positions_grow = Grows-refl db.heap.positions;
          strategies_grow = Grows-refl db.heap.strategies;
        }

  module _ (q : ℕ) (f : Trade D → Trade D)
      (same : (t : Trade D)
        → ((f t).id ≡ t.id) × ((f t).security ≡ t.security) × ((f t).order ≡ t.order)) where
    pub trade-IsHeap : (h : Heap D) → IsHeap h → IsHeap (record h { trades = modify q f h.trades })
    trade-IsHeap h v = record {
      fresh_securities = v.fresh_securities;
      fresh_orders = v.fresh_orders;
      fresh_trades = Fresh-modify h.next q f h.trades v.fresh_trades;
      fresh_positions = v.fresh_positions;
      order_security = v.order_security;
      trade_security = Refers-modify _ q f h.trades h.securities (λ t. (same t).1) v.trade_security;
      trade_order = Refers-modify _ q f h.trades h.orders (λ t. (same t).2) v.trade_order;
      position_security = v.position_security;
    }

    pub write_trade-IsValid : (db : Database D) → IsValid db → IsValid (write_trade q f db)
    write_trade-IsValid db v = record {
      heap_ok = trade-IsHeap db.heap v.heap_ok;
      securities_ok = v.securities_ok;
      orders_ok = v.orders_ok;
      trades_ok =
          Keyed-modify trade_id_of db.my_trades q f db.heap.trades (λ t. ap some (same t).0)
            v.trades_ok;
      positions_ok = v.positions_ok;
      entities_ok = λ g e u. is_entity_live-HeapGrows db.heap _ e grown (v.entities_ok g e u);
    }
      where
        grown : HeapGrows db.heap (write_trade q f db).heap
        grown = record {
          securities_grow = Grows-refl db.heap.securities;
          orders_grow = Grows-refl db.heap.orders;
          trades_grow = Grows-modify q f db.heap.trades;
          positions_grow = Grows-refl db.heap.positions;
          strategies_grow = Grows-refl db.heap.strategies;
        }

  module _ (q : ℕ) (f : Position D → Position D)
      (same : (p : Position D) → (f p).security ≡ p.security) where
    pub position-IsHeap :
        (h : Heap D) → IsHeap h → IsHeap (record h { positions = modify q f h.positions })
    position-IsHeap h v = record {
      fresh_securities = v.fresh_securities;
      fresh_orders = v.fresh_orders;
      fresh_trades = v.fresh_trades;
      fresh_positions = Fresh-modify h.next q f h.positions v.fresh_positions;
      order_security = v.order_security;
      trade_security = v.trade_security;
      trade_order = v.trade_order;
      position_security = Refers-modify _ q f h.positions h.securities same v.position_security;
    }

    pub write_position-IsValid : (db : Database D) → IsValid db → IsValid (write_position q f db)
    write_position-IsValid db v = record {
      heap_ok = position-IsHeap db.heap v.heap_ok;
      securities_ok = v.securities_ok;
      orders_ok = v.orders_ok;
      trades_ok = v.trades_ok;
      positions_ok =
          Keyed-modify (position_key db.heap.securities) db.positions q f db.heap.positions
            (λ p. ap (λ (a : ℕ). bind_some (db.heap.securities a) isin_of) (same p)) v.positions_ok;
      entities_ok = λ g e u. is_entity_live-HeapGrows db.heap _ e grown (v.entities_ok g e u);
    }
      where
        grown : HeapGrows db.heap (write_position q f db).heap
        grown = record {
          securities_grow = Grows-refl db.heap.securities;
          orders_grow = Grows-refl db.heap.orders;
          trades_grow = Grows-refl db.heap.trades;
          positions_grow = Grows-modify q f db.heap.positions;
          strategies_grow = Grows-refl db.heap.strategies;
        }

  pub write_strategy-IsValid :
      (q : ℕ) (f : Strategy → Strategy) (db : Database D)
      → IsValid db
      → IsValid (write_strategy q f db)
  write_strategy-IsValid q f db v = record {
    heap_ok = strategy-IsHeap;
    securities_ok = v.securities_ok;
    orders_ok = v.orders_ok;
    trades_ok = v.trades_ok;
    positions_ok = v.positions_ok;
    entities_ok = λ g e u. is_entity_live-HeapGrows db.heap _ e grown (v.entities_ok g e u);
  }
    where
      strategy-IsHeap : IsHeap (write_strategy q f db).heap
      strategy-IsHeap = record {
        fresh_securities = v.heap_ok.fresh_securities;
        fresh_orders = v.heap_ok.fresh_orders;
        fresh_trades = v.heap_ok.fresh_trades;
        fresh_positions = v.heap_ok.fresh_positions;
        order_security = v.heap_ok.order_security;
        trade_security = v.heap_ok.trade_security;
        trade_order = v.heap_ok.trade_order;
        position_security = v.heap_ok.position_security;
      }

      grown : HeapGrows db.heap (write_strategy q f db).heap
      grown = record {
        securities_grow = Grows-refl db.heap.securities;
        orders_grow = Grows-refl db.heap.orders;
        trades_grow = Grows-refl db.heap.trades;
        positions_grow = Grows-refl db.heap.positions;
        strategies_grow = Grows-modify q f db.heap.strategies;
      }

  pub money_info-IsValid :
      (m : Money D) (db : Database D) → IsValid db → IsValid (record db { money_info = m })
  money_info-IsValid m db v = record {
    heap_ok = v.heap_ok;
    securities_ok = v.securities_ok;
    orders_ok = v.orders_ok;
    trades_ok = v.trades_ok;
    positions_ok = v.positions_ok;
    entities_ok = v.entities_ok;
  }

  pub clear_position-IsValid : (db : Database D) → IsValid db → IsValid (clear_position db)
  clear_position-IsValid db v = record {
    heap_ok = v.heap_ok;
    securities_ok = v.securities_ok;
    orders_ok = v.orders_ok;
    trades_ok = v.trades_ok;
    positions_ok = λ k p e. cc;
    entities_ok = v.entities_ok;
  }
