-- ===== src/Strategies/Balance/Changes.antt =====
-- SampleBidAskStrategy.h: `OnOrderChange` and `OnNewTrade`.
use simple_cgate.Database.{trade}
use simple_cgate.Base.{
  ap, sym, ℕ, ◌+◌, ◌≡◌, refl, arith, Bool, true, false, not, ◌&&◌, Option, none, some, [], ◌∷◌,
  is_some, if◌then◌else◌, ◌==◌, nat_eq, text_eq,
}
use simple_cgate.Entities.Platform.{Platform}
use simple_cgate.Entities.Order.{Order}
use simple_cgate.Entities.Trade.{Trade}
use simple_cgate.Events
use simple_cgate.Events.{EventType}
use simple_cgate.Transactions
use simple_cgate.Transactions.{Transaction}
use simple_cgate.Database.{get_trade_by_global_id}
use simple_cgate.Connector.Posting.{delete_order}
use simple_cgate.Connector.Safety.{IsGate-same}
use simple_cgate.Strategies.Sample.{
  SampleBidAskStrategy, Trading, on_order_change, on_new_trade, is_active, count_trade,
}
use simple_cgate.Strategies.Balance.{
  adds, cancels, names, adds-append, cancels-append, names-same, cancellation, queued, Balanced,
  IsTrading, Keeps,
}

module _ {D : Type 0} ⦃num : Platform D⦄ where
  abbrev cancelled : ℕ → Order D → Trading D → Trading D
  cancelled p o t = record {
    strategy = record t.strategy { current_order = none };
    connector = record t.connector {
      transaction_mgr = Transactions.cancel_order p t.connector.transaction_mgr;
      event_manager = Events.add_event EventType.order_change o.global_id t.connector.event_manager;
    };
  }

  order_change_lem :
      (now_minute id p : ℕ) (o : Order D) (t : Trading D)
      → t.strategy.current_order ≡ some p
      → t.connector.database.heap.orders p ≡ some o
      → on_order_change now_minute id t
        ≡ some (
          tt,
          if o.global_id == id && (is_active o.state && not (o.time.minute == now_minute))
              then cancelled p o t
              else t,
        )
  unfolding on_order_change delete_order
  order_change_lem now_minute id p o t e u = ground arith

  no_order_lem :
      (now_minute id : ℕ) (t : Trading D)
      → t.strategy.current_order ≡ none
      → on_order_change now_minute id t ≡ some (tt, t)
  unfolding on_order_change
  no_order_lem now_minute id t e = ground arith

  cancelled-Keeps :
      (p : ℕ) (o : Order D) (t : Trading D)
      → t.strategy.current_order ≡ some p
      → IsTrading t
      → IsTrading (cancelled p o t) × Balanced t (cancelled p o t)
  unfolding Transactions.cancel_order
  cancelled-Keeps p o t e v = (
    record {
      gate = IsGate-same t.connector _ refl refl v.gate;
      configured = v.configured;
      security_live = v.security_live;
      order_live = λ q u. ground arith;
    },
    λ q. omega (
      arith,
      adds-append q t.connector.transaction_mgr.transactions (cancellation p ∷ []),
      cancels-append q t.connector.transaction_mgr.transactions (cancellation p ∷ []),
      names-same q t.strategy.current_order (some p) e,
    ),
  )

  pub order_change-Keeps :
      (now_minute id : ℕ) (t : Trading D) → IsTrading t → Keeps t (on_order_change now_minute id t)
  order_change-Keeps now_minute id t v = go t.strategy.current_order refl
    where
      go : (o : Option ℕ) → t.strategy.current_order ≡ o → Keeps t (on_order_change now_minute id t)
      go none e = rw (no_order_lem now_minute id t e) (v, λ q. refl)
      go (some p) e = found (t.connector.database.heap.orders p) refl
        where
          pick : (b : Bool) (o : Order D) → Keeps t (some (tt, if b then cancelled p o t else t))
          pick true o = cancelled-Keeps p o t e v
          pick false o = (v, λ q. refl)

          found :
              (q : Option (Order D))
              → t.connector.database.heap.orders p ≡ q
              → Keeps t (on_order_change now_minute id t)
          found none u = absurd (ground (arith, v.order_live p e))
          found (some o) u = rw (order_change_lem now_minute id p o t e u) (pick _ o)

  new_trade_lem :
      (id p : ℕ) (x : Trade D) (o : Order D) (t : Trading D)
      → get_trade_by_global_id id t.connector.database ≡ some p
      → t.connector.database.heap.trades p ≡ some x
      → t.connector.database.heap.orders x.order ≡ some o
      → on_new_trade id t ≡ some (tt, record t { strategy = count_trade o.id x t.strategy })
  unfolding on_new_trade
  new_trade_lem id p x o t e u w = ground arith

  count_trade_lem :
      (id : ℕ) (x : Trade D) (s : SampleBidAskStrategy)
      → ((count_trade id x s).security ≡ s.security)
        × ((count_trade id x s).current_order ≡ s.current_order)
  count_trade_lem id x s = ground arith

  -- The event's id is that of a deal.
  abbrev pub NamesTrade : ℕ → Trading D → Type 0
  NamesTrade id t = is_some (get_trade_by_global_id id t.connector.database) ≡ true

  trade_live :
      (id p : ℕ) (t : Trading D)
      → IsTrading t
      → get_trade_by_global_id id t.connector.database ≡ some p
      → is_some (t.connector.database.heap.trades p) ≡ true
  trade_live id p t v e = ground (arith, v.gate.database_ok.entities_ok id (trade p))

  counted-Keeps :
      (id : ℕ) (x : Trade D) (t : Trading D)
      → IsTrading t
      → Keeps t (some (tt, record t { strategy = count_trade id x t.strategy }))
  counted-Keeps id x t v =
      let same = count_trade_lem id x t.strategy in
      (
        record {
          gate = v.gate;
          configured = rw same.0 v.configured;
          security_live = rw same.0 v.security_live;
          order_live = rw same.1 v.order_live;
        },
        λ q.
            ap (λ (o : Option ℕ). adds q (queued t) + (cancels q (queued t) + names q o))
              (sym same.1),
      )

  pub new_trade-Keeps :
      (id : ℕ) (t : Trading D) → NamesTrade id t → IsTrading t → Keeps t (on_new_trade id t)
  new_trade-Keeps id t named v = named_by (get_trade_by_global_id id t.connector.database) refl
    where
      named_by :
          (o : Option ℕ)
          → get_trade_by_global_id id t.connector.database ≡ o
          → Keeps t (on_new_trade id t)
      named_by none e = absurd (ground arith)
      named_by (some p) e = found (t.connector.database.heap.trades p) refl
        where
          found :
              (o : Option (Trade D))
              → t.connector.database.heap.trades p ≡ o
              → Keeps t (on_new_trade id t)
          found none u = absurd (ground (arith, trade_live id p t v e))
          found (some x) u = owned (t.connector.database.heap.orders x.order) refl
            where
              owned :
                  (o : Option (Order D))
                  → t.connector.database.heap.orders x.order ≡ o
                  → Keeps t (on_new_trade id t)
              owned none w = absurd (ground (arith, v.gate.database_ok.heap_ok.trade_order p x u))
              owned (some o) w = rw (new_trade_lem id p x o t e u w) (counted-Keeps o.id x t v)
