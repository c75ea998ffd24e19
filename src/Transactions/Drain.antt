-- ===== src/Transactions/Drain.antt =====
-- TransactionManager.cpp: cancellations, from the queue to the exchange.
use simple_cgate.Base.{
  ℕ, ◌≡◌, refl, ap, sym, ◌∙◌, arith, Bool, true, false, Option, none, some, List, [], ◌∷◌, ◌++◌,
  length, is_some, codes, Text, if◌then◌else◌, bind_some, nat_eq,
}
use mathlib.Core.List.{append_assoc, append-nil}
use simple_cgate.Entities.Platform.{Platform}
use simple_cgate.Entities.Order.{Order}
use simple_cgate.Entities.Security.{Security}
use simple_cgate.Database.{Database}
use simple_cgate.Database.Valid.{IsValid}
use simple_cgate.Streams.{CGate}
use simple_cgate.Streams.States.{DataStreamState}
use simple_cgate.Transactions.{Transaction, TransactionManager, Posted, delete}
use simple_cgate.Transactions.Posting.{post_cancel_order, is_option, strcpy_s}
use simple_cgate.Transactions.Publisher.{perform, take_first, publisher_round, publisher_rounds}
use simple_cgate.Transactions.Kinds.{TransactionType}

-- The queue of cancellations of some orders.
abbrev pub cancellations : List ℕ → List Transaction
cancellations [] = []
cancellations (p ∷ ps) =
    record { type = TransactionType.cancel; order_main = some p; order_second = none }
    ∷ cancellations ps

module _ {D : Type 0} where
  -- What the exchange is asked for: the removal of the order with this number, from options or from
  -- futures.
  abbrev pub removal : Text → Order D → Option (Security D) → Posted
  removal broker o s = delete (record {
    scheme = if maybe_option s then codes "OptDelOrder" else codes "FutDelOrder";
    user_id = o.user_id;
    broker_code = broker;
    order_id = o.id;
  })
    where
      maybe_option : Option (Security D) → Bool
      maybe_option none = false
      maybe_option (some x) = is_option x.type

  abbrev pub removals : Text → Database D → List ℕ → List Posted
  removals broker db [] = []
  removals broker db (p ∷ ps) = elim (db.heap.orders p) [
    | none ↦ removals broker db ps
    | some o ↦ removal broker o (db.heap.securities o.security) ∷ removals broker db ps
  ]

  abbrev pub all_live : Database D → List ℕ → Bool
  all_live db [] = true
  all_live db (p ∷ ps) = if is_some (db.heap.orders p) then all_live db ps else false

module _ {D : Type 0} ⦃num : Platform D⦄ where
  one_cancelled :
      (p : ℕ) (rest : List Transaction) (m : TransactionManager) (db : Database D) (o : Order D)
      (cg : CGate) (broker code : Text) (h : ℕ)
      → IsValid db
      → db.heap.orders p ≡ some o
      → m.state ≡ DataStreamState.active
      → m.publisher ≡ some h
      → ((name : Text) → cg.msg_new h name ≡ true)
      → m.broker_code ≡ some broker
      → strcpy_s 5 broker ≡ some code
      → publisher_round cg
          (record m {
            transactions =
                record { type = TransactionType.cancel; order_main = some p; order_second = none }
                ∷ rest;
          })
          db
        ≡ some (
          record m {
            transactions = rest;
            posted = m.posted ++ removal code o (db.heap.securities o.security) ∷ [];
          },
          db,
        )
  unfolding publisher_round take_first perform post_cancel_order
  one_cancelled p rest m db o cg broker code h v e a u n b f =
      ground
        (arith, v.heap_ok.order_security p o e, n (codes "OptDelOrder"), n (codes "FutDelOrder"))

  -- A queue of cancellations of orders that exist, with an active connection, a publisher that makes
  -- messages and a broker code that fits into their field, on a well-formed database: as many rounds as there are entries end without a fault,
  -- empty the queue, and post for each order its removal, in the order of the queue and behind what
  -- was posted before; the database stays as it is.
  pub publisher_rounds-cancellations :
      (ps : List ℕ) (m : TransactionManager) (db : Database D) (cg : CGate) (broker code : Text)
      (h : ℕ)
      → IsValid db
      → all_live db ps ≡ true
      → m.state ≡ DataStreamState.active
      → m.publisher ≡ some h
      → ((name : Text) → cg.msg_new h name ≡ true)
      → m.broker_code ≡ some broker
      → strcpy_s 5 broker ≡ some code
      → publisher_rounds (length ps) cg (record m { transactions = cancellations ps }) db
        ≡ some (record m { transactions = []; posted = m.posted ++ removals code db ps }, db)
  unfolding publisher_rounds
  publisher_rounds-cancellations [] m db cg broker code h v l a u n b f =
      ap (λ (x : List Posted). some (record m { transactions = []; posted = x }, db))
        (sym (append-nil m.posted))
  publisher_rounds-cancellations (p ∷ ps) m db cg broker code h v l a u n b f =
      go (db.heap.orders p) refl (λ x.
        publisher_rounds-cancellations ps (record m { posted = x }) db cg broker code h v
          (ground arith) a u n b f)
    where
      next :
          (o : Order D)
          → db.heap.orders p ≡ some o
          → m.posted ++ removal code o (db.heap.securities o.security) ∷ [] ++ removals code db ps
            ≡ m.posted ++ removals code db (p ∷ ps)
      next o e =
          append_assoc m.posted (removal code o (db.heap.securities o.security) ∷ [])
            (removals code db ps)
          ∙ ap (λ (x : List Posted). m.posted ++ x) (rw (e, removals) refl)

      go :
          (o : Option (Order D))
          → db.heap.orders p ≡ o
          → ((x : List Posted)
              → publisher_rounds
                  (length ps)
                  cg
                  (record m { transactions = cancellations ps; posted = x })
                  db
                ≡ some (record m { transactions = []; posted = x ++ removals code db ps }, db))
          → publisher_rounds
              (length (p ∷ ps))
              cg
              (record m { transactions = cancellations (p ∷ ps) })
              db
            ≡ some
                (record m { transactions = []; posted = m.posted ++ removals code db (p ∷ ps) }, db)
      go none e k = absurd (ground arith)
      go (some o) e k =
          ap (λ r. bind_some r (λ s. publisher_rounds (length ps) cg s.0 s.1))
            (one_cancelled p (cancellations ps) m db o cg broker code h v e a u n b f)
          ∙ k _
          ∙ ap (λ (x : List Posted). some (record m { transactions = []; posted = x }, db))
              (next o e)
