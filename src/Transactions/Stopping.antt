-- ===== src/Transactions/Stopping.antt =====
-- TransactionManager.cpp: `Stop`, while no order is queued.
use simple_cgate.Base.{
  ℕ, ◌≡◌, refl, arith, Bool, true, false, ◌&&◌, ◌||◌, Option, none, some, List, [], ◌∷◌, ◌++◌,
  length, is_some, not, if◌then◌else◌, nat_eq,
}
use simple_cgate.Entities.Platform.{Platform}
use simple_cgate.Database.{Database}
use simple_cgate.Streams.{CGate}
use simple_cgate.Transactions.{Transaction, TransactionManager}
use simple_cgate.Transactions.Publisher.{
  Joined, no_transaction, is_active, perform, take_first, publisher_round, publisher_rounds,
  join_publisher, stop,
}
use simple_cgate.Transactions.Kinds.{TransactionType}

-- No entry of a queue names an order.
abbrev pub is_idle : List Transaction → Bool
is_idle [] = true
is_idle (t ∷ ts) = not (is_some t.order_main) && is_idle ts

-- `Stop` is not held up: the publisher's thread sees the flag, or finds the connection active.
abbrev pub lets_go : Joined → Bool
lets_go j = j.saw_exit || is_active j.found

pub is_idle-append :
    (ts : List Transaction) → is_idle ts ≡ true → is_idle (ts ++ no_transaction ∷ []) ≡ true
is_idle-append [] h = refl
is_idle-append (t ∷ ts) h = ground (arith, is_idle-append ts)

-- The manager after `Stop`: the last entry stays in the queue where the thread saw the flag.
abbrev pub stopped : Joined → TransactionManager → TransactionManager
stopped j m = record m {
  exit = true;
  state = j.left;
  transactions = if j.saw_exit then m.transactions ++ no_transaction ∷ [] else [];
  listener = none;
  publisher = none;
  connection = none;
}

module _ {D : Type 0} ⦃num : Platform D⦄ where
  no_order :
      (cg : CGate) (type : TransactionType) (p q : Option ℕ) (m : TransactionManager)
      (db : Database D)
      → is_some p ≡ false
      → perform cg type p q m db ≡ some (m, db)
  unfolding perform
  no_order cg type none q m db h = refl
  no_order cg type (some p) q m db h = absurd (ground arith)

  idle_round :
      (cg : CGate) (t : Transaction) (ts : List Transaction) (m : TransactionManager)
      (db : Database D)
      → is_some t.order_main ≡ false
      → is_active m.state ≡ true
      → publisher_round cg (record m { transactions = t ∷ ts }) db
        ≡ some (record m { transactions = ts }, db)
  unfolding publisher_round take_first
  idle_round cg t ts m db h a =
      rw a (no_order cg t.type t.order_main t.order_second (record m { transactions = ts }) db h)

  pub publisher_rounds-idle :
      (ts : List Transaction) (cg : CGate) (m : TransactionManager) (db : Database D)
      → is_idle ts ≡ true
      → is_active m.state ≡ true
      → publisher_rounds (length ts) cg (record m { transactions = ts }) db
        ≡ some (record m { transactions = [] }, db)
  unfolding publisher_rounds
  publisher_rounds-idle [] cg m db h a = refl
  publisher_rounds-idle (t ∷ ts) cg m db h a =
      rw (idle_round cg t ts m db (ground arith) a)
        (publisher_rounds-idle ts cg m db (ground arith) a)

  pub stop-idle :
      (cg : CGate) (j : Joined) (m : TransactionManager) (db : Database D)
      → is_idle m.transactions ≡ true
      → stop cg j m db ≡ (if lets_go j then some (stopped j m, db) else none)
  unfolding stop join_publisher
  stop-idle cg j m db h = go j.saw_exit (is_active j.found) refl refl
    where
      queue : List Transaction
      queue = m.transactions ++ no_transaction ∷ []

      asked : TransactionManager
      asked = record m { exit = true; transactions = queue }

      go :
          (b a : Bool)
          → j.saw_exit ≡ b
          → is_active j.found ≡ a
          → stop cg j m db ≡ (if lets_go j then some (stopped j m, db) else none)
      go true a e u = ground arith
      go false false e u = ground arith
      go false true e u =
          rw
            (
              e,
              u,
              publisher_rounds-idle queue cg (record asked { state = j.found }) db
                  (is_idle-append m.transactions h) u,
            )
            refl
