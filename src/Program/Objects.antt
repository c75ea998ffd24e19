-- ===== src/Program/Objects.antt =====
-- SimpleCGate.cpp, `main`: the database with the object of the strategy in it.
use simple_cgate.Base.{
  ℕ, ◌+◌, ◌≡◌, arith, true, codes, is_some, nat_eq, text_eq, Fresh-suc, Grows-put, Grows-refl,
}
use simple_cgate.Base.Words.{u32}
use simple_cgate.Entities.Strategy.{new_strategy, set_global_id}
use simple_cgate.Database
use simple_cgate.Database.{Database, strategy, create_security, get_security}
use simple_cgate.Database.Valid.{IsValid, HeapGrows, is_entity_live-HeapGrows, put-entity-IsValid}
use simple_cgate.Database.Writes.{write_strategy-IsValid}
use simple_cgate.Program.{alloc_strategy}

module _ {D : Type 0} where
  alloc_strategy-HeapGrows : (db : Database D) → HeapGrows db.heap (alloc_strategy db).heap
  alloc_strategy-HeapGrows db = record {
    securities_grow = Grows-refl db.heap.securities;
    orders_grow = Grows-refl db.heap.orders;
    trades_grow = Grows-refl db.heap.trades;
    positions_grow = Grows-refl db.heap.positions;
    strategies_grow =
        Grows-put db.heap.next (new_strategy (codes "BidAskVolume")) db.heap.strategies;
  }

  pub alloc_strategy-IsValid : (db : Database D) → IsValid db → IsValid (alloc_strategy db)
  alloc_strategy-IsValid db v = record {
    heap_ok = record {
      fresh_securities = Fresh-suc db.heap.next db.heap.securities v.heap_ok.fresh_securities;
      fresh_orders = Fresh-suc db.heap.next db.heap.orders v.heap_ok.fresh_orders;
      fresh_trades = Fresh-suc db.heap.next db.heap.trades v.heap_ok.fresh_trades;
      fresh_positions = Fresh-suc db.heap.next db.heap.positions v.heap_ok.fresh_positions;
      order_security = v.heap_ok.order_security;
      trade_security = v.heap_ok.trade_security;
      trade_order = v.heap_ok.trade_order;
      position_security = v.heap_ok.position_security;
    };
    securities_ok = v.securities_ok;
    orders_ok = v.orders_ok;
    trades_ok = v.trades_ok;
    positions_ok = v.positions_ok;
    entities_ok = λ g e u.
        is_entity_live-HeapGrows db.heap _ e (alloc_strategy-HeapGrows db) (v.entities_ok g e u);
  }

  pub add_strategy-IsValid :
      (str : ℕ) (db : Database D)
      → is_some (db.heap.strategies str) ≡ true
      → IsValid db
      → IsValid (Database.add_strategy str db)
  unfolding Database.add_strategy
  add_strategy-IsValid str db live v =
      put-entity-IsValid _ db.global_id (u32 (db.global_id + 1)) (strategy str) (ground arith)
        (write_strategy-IsValid str (set_global_id db.global_id) db v)
