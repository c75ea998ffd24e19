-- ===== src/Strategies/Balance/Placing.antt =====
-- SampleBidAskStrategy.h: `OnQuotesChange`, and the orders that it places.
use simple_cgate.Base.{
  ℕ, ◌≡◌, refl, arith, Bool, true, false, Option, none, some, [], ◌∷◌, put, is_some, Action,
  if◌then◌else◌, nat_eq, text_eq,
}
use simple_cgate.Entities.Platform.{Platform}
use simple_cgate.Entities.Security.{Security}
use simple_cgate.Entities.Order.{Order, TradeDirection}
use simple_cgate.Events
use simple_cgate.Events.{EventType}
use simple_cgate.Transactions
use simple_cgate.Transactions.{Transaction}
use simple_cgate.Database.{Database, create_new_order, write_order}
use simple_cgate.Database.Creates.{MakesOrder, create_new_order-Makes}
use simple_cgate.Database.Valid.{IsValid, HeapGrows}
use simple_cgate.Database.Grows.{create_new_order-HeapGrows}
use simple_cgate.Connector.{Connector}
use simple_cgate.Connector.Safety.{IsGate-same, OrderLive, write_order-Live}
use simple_cgate.Strategies.Sample.{Trading, on_quotes_change, trade_on_quotes, place, filled}
use simple_cgate.Strategies.Balance.{
  adds-append, cancels-append, names-same, placement, Balanced, IsTrading, Keeps,
}

module _ {D : Type 0} ⦃num : Platform D⦄ where
  abbrev placed : ℕ → TradeDirection → D → ℕ → ℕ × Database D → Order D → Trading D → Trading D
  placed sec direction price vol (p, db) o t = record {
    strategy = record t.strategy {
      current_order = some p;
      orders = put o.user_id p t.strategy.orders;
    };
    connector = record t.connector {
      database = write_order p (filled direction vol price) db;
      transaction_mgr = Transactions.add_order p t.connector.transaction_mgr;
      event_manager = Events.add_event EventType.order_change o.global_id t.connector.event_manager;
    };
  }

  place_lem :
      (sec : ℕ) (direction : TradeDirection) (price : D) (vol : ℕ) (t : Trading D) (o : Order D)
      (r : ℕ × Database D)
      → create_new_order sec t.connector.database ≡ r
      → r.1.heap.orders r.0 ≡ some o
      → place sec direction price vol t ≡ some (tt, placed sec direction price vol r o t)
  unfolding place
  place_lem sec direction price vol t o (p, db) made e = ground arith

  -- A new order, where none was held.
  placed-Keeps :
      (sec : ℕ) (direction : TradeDirection) (price : D) (vol : ℕ) (t : Trading D) (o : Order D)
      (r : ℕ × Database D)
      → HeapGrows t.connector.database.heap r.1.heap
      → is_some (r.1.heap.orders r.0) ≡ true
      → IsValid r.1
      → t.strategy.current_order ≡ none
      → IsTrading t
      → IsTrading (placed sec direction price vol r o t)
        × Balanced t (placed sec direction price vol r o t)
  unfolding Transactions.add_order
  placed-Keeps sec direction price vol t o (p, db) grown live valid free v = (
    record {
      gate =
          IsGate-same
            (record made_gate { database = write_order p (filled direction vol price) db }) _ refl
            refl written.0;
      configured = v.configured;
      security_live = λ q e. grown.securities_grow q (v.security_live q e);
      order_live = λ q e. ground (arith, written.1);
    },
    λ q. omega (
      arith,
      adds-append q t.connector.transaction_mgr.transactions (placement p ∷ []),
      cancels-append q t.connector.transaction_mgr.transactions (placement p ∷ []),
      names-same q t.strategy.current_order none free,
    ),
  )
    where
      made_gate : Connector D
      made_gate = record t.connector { database = db }

      written :
          OrderLive p
            (record made_gate { database = write_order p (filled direction vol price) db })
      written =
          write_order-Live p (filled direction vol price) made_gate (λ o. (refl, refl))
            (
              record {
                database_ok = valid;
                linked = λ id q e. grown.securities_grow q (v.gate.linked id q e);
              },
              live,
            )

  place-Keeps :
      (sec : ℕ) (direction : TradeDirection) (price : D) (vol : ℕ) (t : Trading D)
      → t.strategy.security ≡ some sec
      → t.strategy.current_order ≡ none
      → IsTrading t
      → Keeps t (place sec direction price vol t)
  place-Keeps sec direction price vol t used free v = go (r.1.heap.orders r.0) refl
    where
      r : ℕ × Database D
      r = create_new_order sec t.connector.database

      m : MakesOrder r
      m =
          create_new_order-Makes sec t.connector.database (v.security_live sec used)
            v.gate.database_ok

      go :
          (o : Option (Order D))
          → r.1.heap.orders r.0 ≡ o
          → Keeps t (place sec direction price vol t)
      go none e = absurd (ground (arith, m.1))
      go (some o) e = rw (place_lem sec direction price vol t o r refl e) (
          placed-Keeps sec direction price vol t o r
            (create_new_order-HeapGrows sec t.connector.database) m.1 m.0 free v)

  same-Keeps : (t : Trading D) → IsTrading t → Keeps t (some (tt, t))
  same-Keeps t v = (v, λ q. refl)

  if-Keeps :
      (b : Bool) (f g : Action (Trading D) (Unit {0})) (t : Trading D)
      → Keeps t (f t)
      → Keeps t (g t)
      → Keeps t ((if b then f else g) t)
  if-Keeps true f g t h k = h
  if-Keeps false f g t h k = k

  trade_on_quotes-Keeps :
      (sec : ℕ) (q : Security D) (t : Trading D)
      → t.strategy.security ≡ some sec
      → t.strategy.current_order ≡ none
      → IsTrading t
      → Keeps t (trade_on_quotes sec q t.strategy t)
  unfolding trade_on_quotes
  trade_on_quotes-Keeps sec q t used free v = search (if-Keeps, place-Keeps, same-Keeps)

  held_lem :
      (t : Trading D) (p : ℕ)
      → t.strategy.current_order ≡ some p
      → on_quotes_change t ≡ some (tt, t)
  unfolding on_quotes_change
  held_lem t p e = ground arith

  quoted_lem :
      (t : Trading D) (sec : ℕ) (q : Security D)
      → t.strategy.current_order ≡ none
      → t.strategy.security ≡ some sec
      → t.connector.database.heap.securities sec ≡ some q
      → on_quotes_change t ≡ trade_on_quotes sec q t.strategy t
  unfolding on_quotes_change
  quoted_lem t sec q e e' u = ground arith

  pub on_quotes_change-Keeps : (t : Trading D) → IsTrading t → Keeps t (on_quotes_change t)
  on_quotes_change-Keeps t v = go t.strategy.current_order t.strategy.security refl refl
    where
      go :
          (o : Option ℕ) (sec : Option ℕ)
          → t.strategy.current_order ≡ o
          → t.strategy.security ≡ sec
          → Keeps t (on_quotes_change t)
      go (some p) sec e e' = rw (held_lem t p e) (v, λ q. refl)
      go none none e e' = absurd (ground (arith, v.configured))
      go none (some sec) e e' = quoted (t.connector.database.heap.securities sec) refl
        where
          quoted :
              (q : Option (Security D))
              → t.connector.database.heap.securities sec ≡ q
              → Keeps t (on_quotes_change t)
          quoted none u = absurd (ground (arith, v.security_live sec e'))
          quoted (some q) u = rw (quoted_lem t sec q e e' u) (trade_on_quotes-Keeps sec q t e' e v)
