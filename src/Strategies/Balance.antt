-- ===== src/Strategies/Balance.antt =====
-- SampleBidAskStrategy.h: the orders that the strategy places and those that it cancels.
pub mod Placing
pub mod Changes
pub mod Calls
use simple_cgate.Database.{trade}
use simple_cgate.Base.{
  ap, sym, done, ◌>>◌, >>=-Holds, Holds-map, ℕ, ◌+◌, ◌≡◌, refl, arith, Bool, true, false, not, ◌&&◌,
  ◌||◌, Option, none, some, List, [], ◌∷◌, ◌++◌, put, is_some, Action, Holds, if◌then◌else◌,
  map_some, ◌==◌, nat_eq, text_eq, Bool-cases, inl, inr, Option-cases,
}
use simple_cgate.Entities.Platform.{Platform}
use simple_cgate.Entities.Security.{Security}
use simple_cgate.Entities.Order.{Order, TradeDirection}
use simple_cgate.Entities.Trade.{Trade}
use simple_cgate.Events
use simple_cgate.Events.{EventType}
use simple_cgate.Transactions
use simple_cgate.Transactions.{Transaction}
use simple_cgate.Transactions.Kinds.{TransactionType}
use simple_cgate.Database.{Database, create_new_order, write_order, get_trade_by_global_id}
use simple_cgate.Database.Creates.{MakesOrder, create_new_order-Makes}
use simple_cgate.Database.Valid.{IsValid, HeapGrows}
use simple_cgate.Database.Grows.{create_new_order-HeapGrows}
use simple_cgate.Connector.{Connector}
use simple_cgate.Connector.Posting.{add_order, delete_order}
use simple_cgate.Connector.Safety.{IsGate, IsGate-same, OrderLive, write_order-Live}
use simple_cgate.Strategies.Sample.{
  SampleBidAskStrategy, Trading, on_order_change, on_new_trade, on_quotes_change, trade_on_quotes,
  place, filled, is_active, count_trade,
}

-- Whether a pointer leads to the order at an address.
abbrev pub names : ℕ → Option ℕ → ℕ
names p none = 0
names p (some q) = if p == q then 1 else 0

-- How often a queue of transactions adds the order at an address, and how often it cancels it.
abbrev pub adds : ℕ → List Transaction → ℕ
adds p [] = 0
adds p (t ∷ ts) = (elim t.type [ TransactionType.add ↦ names p t.order_main | _ ↦ 0 ]) + adds p ts

abbrev pub cancels : ℕ → List Transaction → ℕ
cancels p [] = 0
cancels p (t ∷ ts) =
    (elim t.type [ TransactionType.cancel ↦ names p t.order_main | _ ↦ 0 ]) + cancels p ts

pub adds-append : (p : ℕ) (ts us : List Transaction) → adds p (ts ++ us) ≡ adds p ts + adds p us
adds-append p [] us = omega arith
adds-append p (t ∷ ts) us = omega (arith, adds-append p ts us)

pub cancels-append :
    (p : ℕ) (ts us : List Transaction) → cancels p (ts ++ us) ≡ cancels p ts + cancels p us
cancels-append p [] us = omega arith
cancels-append p (t ∷ ts) us = omega (arith, cancels-append p ts us)

pub names-same : (q : ℕ) (o o' : Option ℕ) → o ≡ o' → names q o ≡ names q o'
names-same q o o' e = ap (names q) e

-- What `AddOrder` and `CancelOrder` queue.
abbrev pub placement : ℕ → Transaction
placement p = record { type = TransactionType.add; order_main = some p; order_second = none }

abbrev pub cancellation : ℕ → Transaction
cancellation p = record { type = TransactionType.cancel; order_main = some p; order_second = none }

module _ {D : Type 0} where
  abbrev pub queued : Trading D → List Transaction
  queued t = t.connector.transaction_mgr.transactions

  -- Between two states each order was cancelled as often as it was placed, but for the one that is held,
  -- and the one that was held before.
  abbrev pub Balanced : Trading D → Trading D → Type 0
  Balanced t t' =
      (p : ℕ)
      → adds p (queued t') + (cancels p (queued t) + names p t.strategy.current_order)
        ≡ adds p (queued t) + (cancels p (queued t') + names p t'.strategy.current_order)

  -- The strategy's pointers lead to objects of a well-formed gate.
  pub record IsTrading (t : Trading D) : Type 0 where
    pub gate : IsGate t.connector
    pub configured : is_some t.strategy.security ≡ true
    pub security_live :
        (p : ℕ)
        → t.strategy.security ≡ some p
        → is_some (t.connector.database.heap.securities p) ≡ true
    pub order_live :
        (p : ℕ)
        → t.strategy.current_order ≡ some p
        → is_some (t.connector.database.heap.orders p) ≡ true

  -- What a handler leaves behind.
  abbrev pub Keeps : Trading D → Option (Unit {0} × Trading D) → Type 0
  Keeps t = Holds (λ _ t'. IsTrading t' × Balanced t t')
