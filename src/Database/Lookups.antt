-- ===== src/Database/Lookups.antt =====
-- Database.cpp: look-ups after a creation.
use simple_cgate.Base.{
  ℕ, ◌+◌, ◌≡◌, refl, Option, none, some, Text, arith, map_some, nat_eq, text_eq, false,
  text_beq_iff, if◌then◌else◌, ◌==◌,
}
use simple_cgate.Base.Words.{u32}
use simple_cgate.Entities.Platform.{Platform}
use simple_cgate.Entities.Order
use simple_cgate.Entities.Order.{Order}
use simple_cgate.Entities.Trade.{Trade}
use simple_cgate.Entities.Security.{Security}
use simple_cgate.Database.{
  Database, create_security, create_order, create_new_order, create_trade, get_order,
  get_order_by_global_id, get_trade, get_trade_by_global_id, get_security,
  get_security_by_global_id, is_order_exist,
}
use simple_cgate.Database.Valid.{IsValid}

module _ {D : Type 0} where
  -- The object made in `db` is found by its key and by the global id that was next; it has this
  -- global id and the key; and no other key leads elsewhere than before.
  pub record OrderMade (user_id : ℕ) (db : Database D) (p : ℕ) (db' : Database D) : Type 0 where
    pub by_global_id : get_order_by_global_id db.global_id db' ≡ some p
    pub has_global_id :
        map_some (λ (o : Order D). o.global_id) (db'.heap.orders p) ≡ some db.global_id
    pub has_key : map_some (λ (o : Order D). o.user_id) (db'.heap.orders p) ≡ some user_id
    pub by_key : (k : ℕ) → get_order k db' ≡ (if user_id == k then some p else get_order k db)

  pub record TradeMade (id : ℕ) (db : Database D) (p : ℕ) (db' : Database D) : Type 0 where
    pub by_global_id : get_trade_by_global_id db.global_id db' ≡ some p
    pub has_global_id :
        map_some (λ (t : Trade D). t.global_id) (db'.heap.trades p) ≡ some db.global_id
    pub has_key : map_some (λ (t : Trade D). t.id) (db'.heap.trades p) ≡ some id
    pub by_key : (k : ℕ) → get_trade k db' ≡ (if id == k then some p else get_trade k db)

  pub record SecurityMade (name : Text) (db : Database D) (p : ℕ) (db' : Database D) : Type 0 where
    pub by_global_id : get_security_by_global_id db.global_id db' ≡ some p
    pub has_global_id :
        map_some (λ (s : Security D). s.global_id) (db'.heap.securities p) ≡ some db.global_id
    pub has_key : map_some (λ (s : Security D). s.isin) (db'.heap.securities p) ≡ some name
    pub by_key : (k : Text) → get_security k db' ≡ (if name == k then some p else get_security k db)

module _ {D : Type 0} ⦃num : Platform D⦄ where
  -- On a well-formed database the creation under a user's id gives an order that is found under it and under
  -- the global id that was next, with this global id and this key; under every other key the same is
  -- found as before. It does not matter whether the key was in use.
  pub create_order-OrderMade :
      (user_id sec : ℕ) (db : Database D)
      → IsValid db
      → OrderMade user_id db (create_order user_id sec db).0 (create_order user_id sec db).1
  unfolding create_order
  create_order-OrderMade user_id sec db v = go (db.orders user_id) refl
    where
      go :
          (o : Option ℕ)
          → db.orders user_id ≡ o
          → OrderMade user_id db (create_order user_id sec db).0 (create_order user_id sec db).1
      go none e = record {
        by_global_id = ground arith;
        has_global_id = ground arith;
        has_key = ground arith;
        by_key = λ k. ground arith;
      }
      go (some p) e = record {
        by_global_id = ground arith;
        has_global_id = ground (arith, v.orders_ok user_id p);
        has_key = ground (arith, v.orders_ok user_id p);
        by_key = λ k. ground arith;
      }

  -- On a well-formed database the creation under a number gives a trade that is found under it and under
  -- the global id that was next, with this global id and this key; under every other key the same is
  -- found as before. It does not matter whether the key was in use.
  pub create_trade-TradeMade :
      (id sec ord : ℕ) (db : Database D)
      → IsValid db
      → TradeMade id db (create_trade id sec ord db).0 (create_trade id sec ord db).1
  unfolding create_trade
  create_trade-TradeMade id sec ord db v = go (db.my_trades id) refl
    where
      go :
          (o : Option ℕ)
          → db.my_trades id ≡ o
          → TradeMade id db (create_trade id sec ord db).0 (create_trade id sec ord db).1
      go none e = record {
        by_global_id = ground arith;
        has_global_id = ground arith;
        has_key = ground arith;
        by_key = λ k. ground arith;
      }
      go (some p) e = record {
        by_global_id = ground arith;
        has_global_id = ground (arith, v.trades_ok id p);
        has_key = ground (arith, v.trades_ok id p);
        by_key = λ k. ground arith;
      }

  -- On a well-formed database the creation under a name gives a security that is found under it and under
  -- the global id that was next, with this global id and this key; under every other key the same is
  -- found as before. It does not matter whether the key was in use.
  pub create_security-SecurityMade :
      (name : Text) (db : Database D)
      → IsValid db
      → SecurityMade name db (create_security name db).0 (create_security name db).1
  unfolding create_security
  create_security-SecurityMade name db v = go (db.securities name) refl
    where
      go :
          (o : Option ℕ)
          → db.securities name ≡ o
          → SecurityMade name db (create_security name db).0 (create_security name db).1
      go none e = record {
        by_global_id = ground arith;
        has_global_id = ground arith;
        has_key = ground arith;
        by_key = λ k. ground arith;
      }
      go (some p) e = record {
        by_global_id = ground arith;
        has_global_id = ground (arith, v.securities_ok name p);
        has_key = ground (arith, v.securities_ok name p);
        by_key = λ k. ground (arith, text_beq_iff name k);
      }

  -- `CreateNewOrder` counts the user's ids up by one. Where no order has the next id, the order is
  -- new: it has that id, the default fields and the next global id.
  pub create_new_order-fresh :
      (sec : ℕ) (db : Database D)
      → is_order_exist (u32 (db.transaction_id + 1)) db ≡ false
      → ((create_new_order sec db).1.transaction_id ≡ u32 (db.transaction_id + 1))
        × (get_order (u32 (db.transaction_id + 1)) (create_new_order sec db).1
            ≡ some (create_new_order sec db).0)
        × ((create_new_order sec db).1.heap.orders (create_new_order sec db).0
            ≡ some (
                Order.set_global_id db.global_id
                  (Order.new_order ⦃num = num⦄ sec (u32 (db.transaction_id + 1)))))
  unfolding create_new_order
  create_new_order-fresh sec db e = (ground arith, ground arith, ground arith)

  -- Where some order has the next id already, as when the exchange reported an order of that number
  -- first, `CreateNewOrder` returns this order, with a new global id and all else as it was.
  pub create_new_order-alias :
      (sec q : ℕ) (db : Database D)
      → get_order (u32 (db.transaction_id + 1)) db ≡ some q
      → ((create_new_order sec db).0 ≡ q)
        × ((create_new_order sec db).1.heap.orders (create_new_order sec db).0
            ≡ map_some (Order.set_global_id db.global_id) (db.heap.orders q))
  unfolding create_new_order
  create_new_order-alias sec q db e = (ground arith, ground arith)
