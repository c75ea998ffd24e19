-- ===== src/Database/Creates.antt =====
-- Database.cpp: the `Create…` operations, and well-formedness of what they leave.
use simple_cgate.Base.{
  ℕ, ◌≡◌, refl, true, Option, none, some, Text, arith, is_some, bind_some, Holds, ◌+◌,
}
use simple_cgate.Base.Words.{u32}
use simple_cgate.Entities.Platform.{Platform}
use simple_cgate.Entities.Security.{Security}
use simple_cgate.Database.{
  Database, create_security, create_order, create_new_order, create_trade, create_position,
  insert_security, insert_order, insert_trade, insert_position,
}
use simple_cgate.Database.Valid.{IsValid, isin_of}
use simple_cgate.Database.Allocs.{
  alloc_security-IsValid, alloc_order-IsValid, alloc_trade-IsValid, alloc_position-IsValid,
  label_security-IsValid, label_order-IsValid, label_trade-IsValid, label_position-IsValid,
}

module _ {D : Type 0} ⦃num : Platform D⦄ where
  -- What a creation gives: a well-formed database, in which the address leads to an object.
  abbrev pub MakesSecurity : ℕ × Database D → Type 0
  MakesSecurity (p, db) = IsValid db × (is_some (db.heap.securities p) ≡ true)

  abbrev pub MakesOrder : ℕ × Database D → Type 0
  MakesOrder (p, db) = IsValid db × (is_some (db.heap.orders p) ≡ true)

  abbrev pub MakesTrade : ℕ × Database D → Type 0
  MakesTrade (p, db) = IsValid db × (is_some (db.heap.trades p) ≡ true)

  abbrev pub MakesPosition : ℕ × Database D → Type 0
  MakesPosition (p, db) = IsValid db × (is_some (db.heap.positions p) ≡ true)

  insert_security-Makes :
      (name : Text) (db : Database D) → IsValid db → MakesSecurity (insert_security name db)
  insert_security-Makes name db v = go (db.securities name) refl
    where
      go : (o : Option ℕ) → db.securities name ≡ o → MakesSecurity (insert_security name db)
      go none e = rw (e, insert_security) (alloc_security-IsValid name db v, ground arith)
      go (some p) e = rw (e, insert_security) (v, ground (arith, v.securities_ok name p))

  insert_order-Makes :
      (user_id sec : ℕ) (db : Database D)
      → is_some (db.heap.securities sec) ≡ true
      → IsValid db
      → MakesOrder (insert_order user_id sec db)
  insert_order-Makes user_id sec db live v = go (db.orders user_id) refl
    where
      go : (o : Option ℕ) → db.orders user_id ≡ o → MakesOrder (insert_order user_id sec db)
      go none e = rw (e, insert_order) (alloc_order-IsValid user_id sec db live v, ground arith)
      go (some p) e = rw (e, insert_order) (v, ground (arith, v.orders_ok user_id p))

  insert_trade-Makes :
      (id sec ord : ℕ) (db : Database D)
      → is_some (db.heap.securities sec) ≡ true
      → is_some (db.heap.orders ord) ≡ true
      → IsValid db
      → MakesTrade (insert_trade id sec ord db)
  insert_trade-Makes id sec ord db live live_order v = go (db.my_trades id) refl
    where
      go : (o : Option ℕ) → db.my_trades id ≡ o → MakesTrade (insert_trade id sec ord db)
      go none e =
          rw (e, insert_trade) (alloc_trade-IsValid id sec ord db live live_order v, ground arith)
      go (some p) e = rw (e, insert_trade) (v, ground (arith, v.trades_ok id p))

  insert_position-Makes :
      (isin : Text) (sec : ℕ) (db : Database D)
      → is_some (db.heap.securities sec) ≡ true
      → bind_some (db.heap.securities sec) isin_of ≡ some isin
      → IsValid db
      → MakesPosition (insert_position isin sec db)
  insert_position-Makes isin sec db live named v = go (db.positions isin) refl
    where
      go : (o : Option ℕ) → db.positions isin ≡ o → MakesPosition (insert_position isin sec db)
      go none e =
          rw (e, insert_position) (alloc_position-IsValid isin sec db live named v, ground arith)
      go (some p) e = rw (e, insert_position) (v, ground (arith, v.positions_ok isin p))

  pub create_security-Makes :
      (name : Text) (db : Database D) → IsValid db → MakesSecurity (create_security name db)
  unfolding create_security
  create_security-Makes name db v =
      let (p, db1) = insert_security name db in
      let m = insert_security-Makes name db v in
      (label_security-IsValid p db1 m.1 m.0, ground arith)

  pub create_order-Makes :
      (user_id sec : ℕ) (db : Database D)
      → is_some (db.heap.securities sec) ≡ true
      → IsValid db
      → MakesOrder (create_order user_id sec db)
  unfolding create_order
  create_order-Makes user_id sec db live v =
      let (p, db1) = insert_order user_id sec db in
      let m = insert_order-Makes user_id sec db live v in
      (label_order-IsValid p db1 m.1 m.0, ground arith)

  pub create_trade-Makes :
      (id sec ord : ℕ) (db : Database D)
      → is_some (db.heap.securities sec) ≡ true
      → is_some (db.heap.orders ord) ≡ true
      → IsValid db
      → MakesTrade (create_trade id sec ord db)
  unfolding create_trade
  create_trade-Makes id sec ord db live live_order v =
      let (p, db1) = insert_trade id sec ord db in
      let m = insert_trade-Makes id sec ord db live live_order v in
      (label_trade-IsValid p db1 m.1 m.0, ground arith)

  pub create_position-Makes :
      (sec : ℕ) (db : Database D)
      → is_some (db.heap.securities sec) ≡ true
      → IsValid db
      → Holds (λ p db'. MakesPosition (p, db')) (create_position sec db)
  unfolding create_position
  create_position-Makes sec db live v = go (db.heap.securities sec) refl
    where
      go :
          (o : Option (Security D))
          → db.heap.securities sec ≡ o
          → Holds (λ p db'. MakesPosition (p, db')) (create_position sec db)
      go none e = absurd (ground arith)
      go (some s) e =
          let (p, db1) = insert_position s.isin sec db in
          let m = insert_position-Makes s.isin sec db live (ground arith) v in
          rw (e, create_position) (label_position-IsValid p db1 m.1 m.0, ground arith)

  transaction_id-IsValid :
      (t : ℕ) (db : Database D) → IsValid db → IsValid (record db { transaction_id = t })
  transaction_id-IsValid t db v = record {
    heap_ok = v.heap_ok;
    securities_ok = v.securities_ok;
    orders_ok = v.orders_ok;
    trades_ok = v.trades_ok;
    positions_ok = v.positions_ok;
    entities_ok = v.entities_ok;
  }

  pub create_new_order-Makes :
      (sec : ℕ) (db : Database D)
      → is_some (db.heap.securities sec) ≡ true
      → IsValid db
      → MakesOrder (create_new_order sec db)
  unfolding create_new_order
  create_new_order-Makes sec db live v =
      create_order-Makes (u32 (db.transaction_id + 1)) sec _ live (transaction_id-IsValid _ db v)
