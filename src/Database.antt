-- ===== src/Database.antt =====
-- Database.h and Database.cpp: the GateDatabase. Objects live on a heap, one map of cells for each
-- class, and a `shared_ptr` is an address; the maps of the database hold addresses, so that two
-- entries may name one object. An object is never freed: no operation can tell.
-- The `assert` of a getter is `none`, and so is a `static_pointer_cast` to a wrong class.
-- An object that `insert` does not take over is not put on the heap: it is destroyed at once.
pub mod Valid
pub mod Writes
pub mod Allocs
pub mod Creates
pub mod Grows
pub mod Lookups
use simple_cgate.Base.{
  ℕ, ◌+◌, Bool, Option, none, some, Map, Text, put, modify, empty_map, is_some, ◌==◌, nat_eq,
  text_eq,
}
use simple_cgate.Base.Words.{u32}
use simple_cgate.Entities.Platform.{Platform}
use simple_cgate.Entities.Security
use simple_cgate.Entities.Security.{Security}
use simple_cgate.Entities.Order
use simple_cgate.Entities.Order.{Order}
use simple_cgate.Entities.Trade
use simple_cgate.Entities.Trade.{Trade}
use simple_cgate.Entities.Position
use simple_cgate.Entities.Position.{Position}
use simple_cgate.Entities.Strategy
use simple_cgate.Entities.Strategy.{Strategy}
use simple_cgate.Entities.Money.{Money}

-- A `shared_ptr<Entity>`: the class of the object, and its address.
pub data Entity : Type 0 where
  security order trade position strategy : ℕ → Entity

pub record Heap (D : Type 0) : Type 0 where
  pub next : ℕ
  pub securities : Map ℕ (Security D)
  pub orders : Map ℕ (Order D)
  pub trades : Map ℕ (Trade D)
  pub positions : Map ℕ (Position D)
  pub strategies : Map ℕ Strategy

pub record Database (D : Type 0) : Type 0 where
  pub heap : Heap D
  pub transaction_id : ℕ
  pub global_id : ℕ
  pub entities : Map ℕ Entity
  pub securities : Map Text ℕ
  pub orders : Map ℕ ℕ
  pub my_trades : Map ℕ ℕ
  pub positions : Map Text ℕ
  pub money_info : Money D

-- `GetGlobalId`: `fetch_add(1)` on an atomic `int`.
module _ {D : Type 0} where
  abbrev pub get_global_id : Database D → ℕ × Database D
  get_global_id db = (db.global_id, record db { global_id = u32 (db.global_id + 1) })

  -- Writes through a pointer.
  abbrev pub write_security : ℕ → (Security D → Security D) → Database D → Database D
  write_security p f db = record db {
    heap = record db.heap { securities = modify p f db.heap.securities };
  }

  abbrev pub write_order : ℕ → (Order D → Order D) → Database D → Database D
  write_order p f db = record db { heap = record db.heap { orders = modify p f db.heap.orders } }

  abbrev pub write_trade : ℕ → (Trade D → Trade D) → Database D → Database D
  write_trade p f db = record db { heap = record db.heap { trades = modify p f db.heap.trades } }

  abbrev pub write_position : ℕ → (Position D → Position D) → Database D → Database D
  write_position p f db = record db {
    heap = record db.heap { positions = modify p f db.heap.positions };
  }

  abbrev pub write_strategy : ℕ → (Strategy → Strategy) → Database D → Database D
  write_strategy p f db = record db {
    heap = record db.heap { strategies = modify p f db.heap.strategies };
  }

  abbrev pub write_money : (Money D → Money D) → Database D → Database D
  write_money f db = record db { money_info = f db.money_info }

  -- `SetGlobalId(GetGlobalId())` and `entities_[global_id()] = ptr`, for each class.
  unfoldable pub label_security : ℕ → Database D → Database D
  label_security p db =
      let (g, db1) = get_global_id db in
      let db2 : Database D = write_security p (Security.set_global_id g) db1 in
      record db2 { entities = put g (security p) db2.entities }

  unfoldable pub label_order : ℕ → Database D → Database D
  label_order p db =
      let (g, db1) = get_global_id db in
      let db2 : Database D = write_order p (Order.set_global_id g) db1 in
      record db2 { entities = put g (order p) db2.entities }

  unfoldable pub label_trade : ℕ → Database D → Database D
  label_trade p db =
      let (g, db1) = get_global_id db in
      let db2 : Database D = write_trade p (Trade.set_global_id g) db1 in
      record db2 { entities = put g (trade p) db2.entities }

  unfoldable pub label_position : ℕ → Database D → Database D
  label_position p db =
      let (g, db1) = get_global_id db in
      let db2 : Database D = write_position p (Position.set_global_id g) db1 in
      record db2 { entities = put g (position p) db2.entities }

  -- `AddStrategy`: the pointer is the caller's.
  unfoldable pub add_strategy : ℕ → Database D → Database D
  add_strategy p db =
      let (g, db1) = get_global_id db in
      let db2 : Database D = write_strategy p (Strategy.set_global_id g) db1 in
      record db2 { entities = put g (strategy p) db2.entities }

  abbrev pub get_security : Text → Database D → Option ℕ
  get_security name db = db.securities name

  abbrev pub is_security_exist : Text → Database D → Bool
  is_security_exist name db = is_some (db.securities name)

  abbrev pub get_order : ℕ → Database D → Option ℕ
  get_order user_id db = db.orders user_id

  abbrev pub is_order_exist : ℕ → Database D → Bool
  is_order_exist user_id db = is_some (db.orders user_id)

  abbrev pub get_trade : ℕ → Database D → Option ℕ
  get_trade id db = db.my_trades id

  abbrev pub is_trade_exist : ℕ → Database D → Bool
  is_trade_exist id db = is_some (db.my_trades id)

  abbrev pub get_position : Text → Database D → Option ℕ
  get_position name db = db.positions name

  abbrev pub is_position_exist : Text → Database D → Bool
  is_position_exist name db = is_some (db.positions name)

  abbrev pub clear_position : Database D → Database D
  clear_position db = record db { positions = empty_map }

  abbrev pub get_entity_by_global_id : ℕ → Database D → Option Entity
  get_entity_by_global_id id db = db.entities id

  abbrev pub get_security_by_global_id : ℕ → Database D → Option ℕ
  get_security_by_global_id id db = elim (get_entity_by_global_id id db) [
    | some (security p) ↦ some p
    | _ ↦ none
  ]

  abbrev pub get_order_by_global_id : ℕ → Database D → Option ℕ
  get_order_by_global_id id db = elim (get_entity_by_global_id id db) [
    | some (order p) ↦ some p
    | _ ↦ none
  ]

  abbrev pub get_trade_by_global_id : ℕ → Database D → Option ℕ
  get_trade_by_global_id id db = elim (get_entity_by_global_id id db) [
    | some (trade p) ↦ some p
    | _ ↦ none
  ]

  abbrev pub get_position_by_global_id : ℕ → Database D → Option ℕ
  get_position_by_global_id id db = elim (get_entity_by_global_id id db) [
    | some (position p) ↦ some p
    | _ ↦ none
  ]

  abbrev pub get_strategy_by_global_id : ℕ → Database D → Option ℕ
  get_strategy_by_global_id id db = elim (get_entity_by_global_id id db) [
    | some (strategy p) ↦ some p
    | _ ↦ none
  ]

module _ {D : Type 0} ⦃num : Platform D⦄ where
  -- The members' initial values; `money_info_` is value-initialised.
  abbrev pub new_database : Database D
  new_database = record {
    heap = record {
      next = 0;
      securities = empty_map;
      orders = empty_map;
      trades = empty_map;
      positions = empty_map;
      strategies = empty_map;
    };
    transaction_id = 1;
    global_id = 1;
    entities = empty_map;
    securities = empty_map;
    orders = empty_map;
    my_trades = empty_map;
    positions = empty_map;
    money_info = record {
      coeff_go = num.zero_double;
      all_amount = num.zero_double;
      free_amount = num.zero_double;
      blocked_amount = num.zero_double;
      fee = num.zero_double;
    };
  }

  -- `insert(make_pair(key, make_shared<…>(…))).first->second`: the address under the key, which is
  -- that of a new object if the key was not there.
  abbrev alloc_security : Text → Database D → ℕ × Database D
  alloc_security name db = (
    db.heap.next,
    record db {
      heap = record db.heap {
        next = db.heap.next + 1;
        securities = put db.heap.next (Security.new_security ⦃num = num⦄ name) db.heap.securities;
      };
      securities = put name db.heap.next db.securities;
    },
  )

  abbrev insert_security : Text → Database D → ℕ × Database D
  insert_security name db = elim (db.securities name) [
    | some p ↦ (p, db)
    | none ↦ alloc_security name db
  ]

  abbrev alloc_order : ℕ → ℕ → Database D → ℕ × Database D
  alloc_order user_id sec db = (
    db.heap.next,
    record db {
      heap = record db.heap {
        next = db.heap.next + 1;
        orders = put db.heap.next (Order.new_order ⦃num = num⦄ sec user_id) db.heap.orders;
      };
      orders = put user_id db.heap.next db.orders;
    },
  )

  abbrev insert_order : ℕ → ℕ → Database D → ℕ × Database D
  insert_order user_id sec db = elim (db.orders user_id) [
    | some p ↦ (p, db)
    | none ↦ alloc_order user_id sec db
  ]

  abbrev alloc_trade : ℕ → ℕ → ℕ → Database D → ℕ × Database D
  alloc_trade id sec ord db = (
    db.heap.next,
    record db {
      heap = record db.heap {
        next = db.heap.next + 1;
        trades = put db.heap.next (Trade.new_trade ⦃num = num⦄ id sec ord) db.heap.trades;
      };
      my_trades = put id db.heap.next db.my_trades;
    },
  )

  abbrev insert_trade : ℕ → ℕ → ℕ → Database D → ℕ × Database D
  insert_trade id sec ord db = elim (db.my_trades id) [
    | some p ↦ (p, db)
    | none ↦ alloc_trade id sec ord db
  ]

  abbrev alloc_position : Text → ℕ → Database D → ℕ × Database D
  alloc_position isin sec db = (
    db.heap.next,
    record db {
      heap = record db.heap {
        next = db.heap.next + 1;
        positions = put db.heap.next (Position.new_position ⦃num = num⦄ sec) db.heap.positions;
      };
      positions = put isin db.heap.next db.positions;
    },
  )

  abbrev insert_position : Text → ℕ → Database D → ℕ × Database D
  insert_position isin sec db = elim (db.positions isin) [
    | some p ↦ (p, db)
    | none ↦ alloc_position isin sec db
  ]

  unfoldable pub create_security : Text → Database D → ℕ × Database D
  unfolding label_security
  create_security name db = let (p, db1) = insert_security name db in (p, label_security p db1)

  unfoldable pub create_order : ℕ → ℕ → Database D → ℕ × Database D
  unfolding label_order
  create_order user_id sec db = let (p, db1) = insert_order user_id sec db in (p, label_order p db1)

  -- `++transaction_id` on an `unsigned int`, which is then the user's id.
  unfoldable pub create_new_order : ℕ → Database D → ℕ × Database D
  unfolding create_order
  create_new_order sec db =
      let t = u32 (db.transaction_id + 1) in create_order t sec (record db { transaction_id = t })

  unfoldable pub create_trade : ℕ → ℕ → ℕ → Database D → ℕ × Database D
  unfolding label_trade
  create_trade id sec ord db = let (p, db1) = insert_trade id sec ord db in (p, label_trade p db1)

  -- `sec->isin()` is a read through the pointer: a fault where it is null.
  unfoldable pub create_position : ℕ → Database D → Option (ℕ × Database D)
  unfolding label_position
  create_position sec db = elim (db.heap.securities sec) [
    | none ↦ none
    | some s ↦ let (p, db1) = insert_position s.isin sec db in some (p, label_position p db1)
  ]
