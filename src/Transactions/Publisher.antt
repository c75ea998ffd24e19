-- ===== src/Transactions/Publisher.antt =====
-- TransactionManager.cpp: `PublisherProcess`, the thread that posts what is queued, and `Stop`.
use simple_cgate.Base.{
  ℕ, zero, suc, Bool, true, false, Option, none, some, List, [], ◌∷◌, length, nat_eq, if◌then◌else◌,
  bind_some, map_some,
}
use simple_cgate.Entities.Platform.{Platform}
use simple_cgate.Database.{Database}
use simple_cgate.Streams.{CGate}
use simple_cgate.Streams.States.{DataStreamState}
use simple_cgate.Transactions.Kinds.{TransactionType}
use simple_cgate.Transactions.{Transaction, TransactionManager, push}
use simple_cgate.Transactions.Posting.{post_new_order, post_cancel_order, post_move_order}

abbrev pub is_active : DataStreamState → Bool
is_active DataStreamState.active = true
is_active _ = false

module _ {D : Type 0} ⦃num : Platform D⦄ (cg : CGate) where
  -- The `switch` on the kind of a transaction, behind the test for a null order.
  unfoldable pub perform :
      TransactionType
      → Option ℕ
      → Option ℕ
      → TransactionManager
      → Database D
      → Option (TransactionManager × Database D)
  unfolding post_new_order post_cancel_order post_move_order
  perform type none second m db = some (m, db)
  perform TransactionType.none (some order) second m db = some (m, db)
  perform TransactionType.add (some order) second m db = post_new_order cg order m db
  perform TransactionType.cancel (some order) second m db = post_cancel_order cg order m db
  perform TransactionType.move (some order) none m db = none
  perform TransactionType.move (some order) (some new_order) m db =
      post_move_order cg order new_order m db

module _ {D : Type 0} ⦃num : Platform D⦄ where
  -- One round of the inner loop of `PublisherProcess`, which runs while the queue is not empty.
  unfoldable pub take_first :
      CGate
      → List Transaction
      → TransactionManager
      → Database D
      → Option (TransactionManager × Database D)
  unfolding perform
  take_first cg [] m db = some (m, db)
  take_first cg (t ∷ ts) m db =
      perform cg t.type t.order_main t.order_second (record m { transactions = ts }) db

  unfoldable pub publisher_round :
      CGate → TransactionManager → Database D → Option (TransactionManager × Database D)
  unfolding take_first
  publisher_round cg m db =
      if is_active m.state then take_first cg m.transactions m db else some (m, db)

  -- The rounds until the queue is empty; a state other than active stays what it is, and every round
  -- is then the same.
  unfoldable pub publisher_rounds :
      ℕ → CGate → TransactionManager → Database D → Option (TransactionManager × Database D)
  publisher_rounds zero cg m db = some (m, db)
  publisher_rounds (suc n) cg m db =
      bind_some (publisher_round cg m db) λ r. publisher_rounds n cg r.0 r.1

-- What `Stop` meets while it waits for the threads: whether the publisher's thread sees the flag before
-- it takes the lock; if not, the state of the connection that its loop over the queue finds, active if
-- it ever is; and the state that the connection's thread leaves.
pub record Joined : Type 0 where
  pub saw_exit : Bool
  pub found : DataStreamState
  pub left : DataStreamState

abbrev pub no_transaction : Transaction
no_transaction = record { type = TransactionType.none; order_main = none; order_second = none }

module _ {D : Type 0} ⦃num : Platform D⦄ where
  -- The publisher's thread is left, at once or with the queue empty; in a state other than active its loop
  -- never ends, nor does `Stop`, which is `none` too.
  unfoldable pub join_publisher :
      CGate → Joined → TransactionManager → Database D → Option (TransactionManager × Database D)
  unfolding publisher_rounds
  join_publisher cg j m db =
      let drained = publisher_rounds (length m.transactions) cg (record m { state = j.found }) db in
      if j.saw_exit then some (m, db) else if is_active j.found then drained else none

  unfoldable pub stop :
      CGate → Joined → TransactionManager → Database D → Option (TransactionManager × Database D)
  unfolding join_publisher
  stop cg j m db =
      map_some
        (λ (m', db').
          (record m' { state = j.left; listener = none; publisher = none; connection = none }, db'))
        (join_publisher cg j (push no_transaction (record m { exit = true })) db)

  -- The destructor; the copies of the codes are freed, though their pointers stay.
  unfoldable destroy_transaction_manager :
      CGate → Joined → TransactionManager → Database D → Option (TransactionManager × Database D)
  unfolding stop
  destroy_transaction_manager cg j m db = if m.exit then some (m, db) else stop cg j m db
