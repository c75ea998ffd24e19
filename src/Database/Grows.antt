-- ===== src/Database/Grows.antt =====
-- Database.cpp: the objects on the heap before and after a `Create…` operation.
use simple_cgate.Base.{ℕ, ◌+◌, ◌≡◌, some, Text, arith, nat_eq, text_eq}
use simple_cgate.Entities.Platform.{Platform}
use simple_cgate.Base.Words.{u32}
use simple_cgate.Database.{
  Database, create_security, create_order, create_new_order, create_trade, create_position,
}
use simple_cgate.Database.Valid.{HeapGrows}

module _ {D : Type 0} ⦃num : Platform D⦄ where
  pub create_security-HeapGrows :
      (name : Text) (db : Database D) → HeapGrows db.heap (create_security name db).1.heap
  unfolding create_security
  create_security-HeapGrows name db = record {
    securities_grow = λ p e. ground arith;
    orders_grow = λ p e. ground arith;
    trades_grow = λ p e. ground arith;
    positions_grow = λ p e. ground arith;
    strategies_grow = λ p e. ground arith;
  }

  pub create_order-HeapGrows :
      (user_id sec : ℕ) (db : Database D) → HeapGrows db.heap (create_order user_id sec db).1.heap
  unfolding create_order
  create_order-HeapGrows user_id sec db = record {
    securities_grow = λ p e. ground arith;
    orders_grow = λ p e. ground arith;
    trades_grow = λ p e. ground arith;
    positions_grow = λ p e. ground arith;
    strategies_grow = λ p e. ground arith;
  }

  pub create_new_order-HeapGrows :
      (sec : ℕ) (db : Database D) → HeapGrows db.heap (create_new_order sec db).1.heap
  unfolding create_new_order
  create_new_order-HeapGrows sec db =
      create_order-HeapGrows (u32 (db.transaction_id + 1)) sec
        (record db { transaction_id = u32 (db.transaction_id + 1) })

  pub create_trade-HeapGrows :
      (id sec ord : ℕ) (db : Database D) → HeapGrows db.heap (create_trade id sec ord db).1.heap
  unfolding create_trade
  create_trade-HeapGrows id sec ord db = record {
    securities_grow = λ p e. ground arith;
    orders_grow = λ p e. ground arith;
    trades_grow = λ p e. ground arith;
    positions_grow = λ p e. ground arith;
    strategies_grow = λ p e. ground arith;
  }

  pub create_position-HeapGrows :
      (sec p : ℕ) (db db' : Database D)
      → create_position sec db ≡ some (p, db')
      → HeapGrows db.heap db'.heap
  unfolding create_position
  create_position-HeapGrows sec p db db' e = record {
    securities_grow = λ q u. ground arith;
    orders_grow = λ q u. ground arith;
    trades_grow = λ q u. ground arith;
    positions_grow = λ q u. ground arith;
    strategies_grow = λ q u. ground arith;
  }
