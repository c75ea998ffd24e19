-- ===== src/Transactions/Queue.antt =====
-- TransactionManager.cpp: the queue of the publisher, what is put in and what its thread makes of it.
use simple_cgate.Base.{
  ℕ, zero, suc, ◌≡◌, refl, arith, Bool, true, not, ◌&&◌, ◌||◌, Option, none, some, List, [], ◌∷◌,
  ◌++◌, if◌then◌else◌, bind_some, nat_eq, ◌==◌, Bool-cases, inl, inr,
}
use mathlib.Core.List.{append_assoc}
use simple_cgate.Base.Words.{is_negative}
use simple_cgate.Entities.Platform.{Platform}
use simple_cgate.Entities.Order.{Order}
use simple_cgate.Database.{Database}
use simple_cgate.Streams.{CGate}
use simple_cgate.Transactions.{
  Transaction, TransactionManager, Posted, fut_add, multileg_add, delete, move, add_order,
  cancel_order, move_order, same_direction,
}
use simple_cgate.Transactions.Posting.{
  prepare_fut_add_order, prepare_multileg_order, post_new_order, post_cancel_order, post_move_order,
}
use simple_cgate.Transactions.Publisher.{
  is_active, perform, take_first, publisher_round, publisher_rounds,
}
use simple_cgate.Transactions.Kinds.{TransactionType}

-- An order that is added to the exchange asks for something.
abbrev pub is_positive : Posted → Bool
is_positive (fut_add x) = not (is_negative x.amount || x.amount == 0)
is_positive (multileg_add x) = not (is_negative x.amount || x.amount == 0)
is_positive (delete x) = true
is_positive (move x) = true

abbrev pub all_positive : List Posted → Bool
all_positive [] = true
all_positive (x ∷ xs) = is_positive x && all_positive xs

-- The entries of a move to an order of the same side, and of the other side.
abbrev pub moved : ℕ → ℕ → List Transaction
moved old_order new_order =
    record {
      type = TransactionType.move;
      order_main = some old_order;
      order_second = some new_order;
    }
    ∷ []

abbrev pub replaced : ℕ → ℕ → List Transaction
replaced old_order new_order =
    record { type = TransactionType.cancel; order_main = some old_order; order_second = none }
    ∷ record { type = TransactionType.add; order_main = some new_order; order_second = none }
    ∷ []

all_positive-append :
    (xs : List Posted) (x : Posted)
    → all_positive (xs ++ x ∷ []) ≡ (all_positive xs && is_positive x)
all_positive-append [] x = ground arith
all_positive-append (y ∷ xs) x = ground (arith, all_positive-append xs x)

module _ {D : Type 0} ⦃num : Platform D⦄ where
  post_new_order-positive :
      (cg : CGate) (p : ℕ) (m : TransactionManager) (db : Database D)
      (r : TransactionManager × Database D)
      → post_new_order cg p m db ≡ some r
      → all_positive m.posted ≡ true
      → all_positive r.0.posted ≡ true
  unfolding post_new_order prepare_fut_add_order prepare_multileg_order
  post_new_order-positive cg p m db r e h = grind (arith, all_positive-append)

  post_cancel_order-positive :
      (cg : CGate) (p : ℕ) (m : TransactionManager) (db : Database D)
      (r : TransactionManager × Database D)
      → post_cancel_order cg p m db ≡ some r
      → all_positive m.posted ≡ true
      → all_positive r.0.posted ≡ true
  unfolding post_cancel_order
  post_cancel_order-positive cg p m db r e h = grind (arith, all_positive-append)

  post_move_order-positive :
      (cg : CGate) (p q : ℕ) (m : TransactionManager) (db : Database D)
      (r : TransactionManager × Database D)
      → post_move_order cg p q m db ≡ some r
      → all_positive m.posted ≡ true
      → all_positive r.0.posted ≡ true
  unfolding post_move_order
  post_move_order-positive cg p q m db r e h = grind (arith, all_positive-append)

  perform-positive :
      (cg : CGate) (type : TransactionType) (p q : Option ℕ) (m : TransactionManager)
      (db : Database D) (r : TransactionManager × Database D)
      → perform cg type p q m db ≡ some r
      → all_positive m.posted ≡ true
      → all_positive r.0.posted ≡ true
  unfolding perform
  perform-positive cg type none q m db r e h = ground arith
  perform-positive cg TransactionType.none (some p) q m db r e h = ground arith
  perform-positive cg TransactionType.add (some p) q m db r e h =
      post_new_order-positive cg p m db r e h
  perform-positive cg TransactionType.cancel (some p) q m db r e h =
      post_cancel_order-positive cg p m db r e h
  perform-positive cg TransactionType.move (some p) none m db r e h = ground arith
  perform-positive cg TransactionType.move (some p) (some q) m db r e h =
      post_move_order-positive cg p q m db r e h

  take_first-positive :
      (cg : CGate) (ts : List Transaction) (m : TransactionManager) (db : Database D)
      (r : TransactionManager × Database D)
      → take_first cg ts m db ≡ some r
      → all_positive m.posted ≡ true
      → all_positive r.0.posted ≡ true
  unfolding take_first
  take_first-positive cg [] m db r e h = ground arith
  take_first-positive cg (t ∷ ts) m db r e h =
      perform-positive cg t.type t.order_main t.order_second (record m { transactions = ts }) db r e
        h

  publisher_round-positive :
      (cg : CGate) (m : TransactionManager) (db : Database D) (r : TransactionManager × Database D)
      → publisher_round cg m db ≡ some r
      → all_positive m.posted ≡ true
      → all_positive r.0.posted ≡ true
  unfolding publisher_round
  publisher_round-positive cg m db r e h = elim (Bool-cases (is_active m.state)) [
    | inl a ↦ take_first-positive cg m.transactions m db r (ground arith) h
    | inr a ↦ ground arith
  ]

  -- However many rounds the publisher's thread makes without a fault, and whatever is in the queue:
  -- if every new order that was posted before asked for a positive amount, so does every new order
  -- that is posted now.
  pub publisher_rounds-positive :
      (cg : CGate) (n : ℕ) (m : TransactionManager) (db : Database D)
      (r : TransactionManager × Database D)
      → publisher_rounds n cg m db ≡ some r
      → all_positive m.posted ≡ true
      → all_positive r.0.posted ≡ true
  unfolding publisher_rounds
  publisher_rounds-positive cg zero m db r e h = ground arith
  publisher_rounds-positive cg (suc n) m db r e h =
      go (publisher_round cg m db) refl e (λ s. publisher_rounds-positive cg n s.0 s.1 r)
    where
      go :
          (o : Option (TransactionManager × Database D))
          → publisher_round cg m db ≡ o
          → bind_some o (λ s. publisher_rounds n cg s.0 s.1) ≡ some r
          → ((s : TransactionManager × Database D)
              → publisher_rounds n cg s.0 s.1 ≡ some r
              → all_positive s.0.posted ≡ true
              → all_positive r.0.posted ≡ true)
          → all_positive r.0.posted ≡ true
      go none u e k = absurd (ground arith)
      go (some s) u e k = k s e (publisher_round-positive cg m db s u h)

module _ {D : Type 0} where
  -- A move of an order that exists to one that exists always succeeds. It puts at the end of the
  -- queue one move, if both orders are on the same side, and else a cancellation of the old order and
  -- then an addition of the new one; nothing is posted yet.
  pub move_order-transactions :
      (db : Database D) (old_order new_order : ℕ) (m : TransactionManager) (old new : Order D)
      → db.heap.orders old_order ≡ some old
      → db.heap.orders new_order ≡ some new
      → move_order db old_order new_order m
        ≡ some (record m {
          transactions =
              m.transactions
              ++ (if same_direction new.direction old.direction
                  then moved old_order new_order
                  else replaced old_order new_order);
        })
  unfolding move_order add_order cancel_order
  move_order-transactions db old_order new_order m old new e e' =
      elim (Bool-cases (same_direction new.direction old.direction)) [
        | inl b ↦ rw (e, e', move_order, b) refl
        | inr b ↦ rw (e, e', move_order, b, append_assoc m.transactions (cancellation ∷ []) _) refl
      ]
    where
      cancellation : Transaction
      cancellation = record {
        type = TransactionType.cancel;
        order_main = some old_order;
        order_second = none;
      }
