-- ===== src/Connector/Posting.antt =====
-- PlazaConnector.cpp: what a strategy calls to place, move and delete an order. A null pointer is
-- `none`, and is passed over.
use simple_cgate.Base.{
  ℕ, ◌≡◌, refl, arith, Bool, true, false, Option, none, some, [], ◌∷◌, ◌++◌, Action, deref, update,
  done, ◌>>=◌, ◌>>◌, if◌then◌else◌, map_some, Holds, Bool-cases, inl, inr, nat_eq, replicate, ◌∙◌,
  ap, sym,
}
use mathlib.Core.List.{append-nil}
use simple_cgate.Entities.Order.{Order, OrderState}
use simple_cgate.Events
use simple_cgate.Events.{EventType, event}
use simple_cgate.Events.Delivery.{queue, times, queue-add_event}
use simple_cgate.Transactions
use simple_cgate.Transactions.{TransactionManager}
use simple_cgate.Transactions.Drain.{cancellations}
use simple_cgate.Connector.{Connector, add_order_event}

abbrev is_active : OrderState → Bool
is_active OrderState.active = true
is_active _ = false

module _ {D : Type 0} where
  unfoldable pub add_order : Option ℕ → Action (Connector D) (Unit {0})
  unfolding Transactions.add_order
  add_order none = done
  add_order (some p) = do
    update (λ (c : Connector D). record c {
      transaction_mgr = Transactions.add_order p c.transaction_mgr;
    })
    add_order_event p

  -- `MoveOrder` of the manager reads both orders.
  unfoldable pub move_order : Option ℕ → Option ℕ → Action (Connector D) (Unit {0})
  unfolding Transactions.move_order
  move_order none new_order = done
  move_order (some p) none = done
  move_order (some p) (some q) = do
    (λ c.
        map_some (λ (m : TransactionManager). (tt, record c { transaction_mgr = m }))
          (Transactions.move_order c.database p q c.transaction_mgr))
    add_order_event p
    add_order_event q

  -- Only an active order is deleted.
  unfoldable pub delete_order : Option ℕ → Action (Connector D) (Unit {0})
  unfolding Transactions.cancel_order
  delete_order none = done
  delete_order (some p) = do
    o ← deref (λ (c : Connector D). c.database.heap.orders p)
    if is_active o.state
        then (do
          update (λ (c : Connector D). record c {
            transaction_mgr = Transactions.cancel_order p c.transaction_mgr;
          })
          add_order_event p)
        else done

  deleted :
      (p : ℕ) (c : Connector D) (o : Order D)
      → c.database.heap.orders p ≡ some o
      → is_active o.state ≡ true
      → delete_order (some p) c
        ≡ some (
          tt,
          record c {
            transaction_mgr = Transactions.cancel_order p c.transaction_mgr;
            event_manager = Events.add_event EventType.order_change o.global_id c.event_manager;
          },
        )
  unfolding delete_order
  deleted p c o e a = ground arith

  not_deleted :
      (p : ℕ) (c : Connector D) (o : Order D)
      → c.database.heap.orders p ≡ some o
      → is_active o.state ≡ false
      → delete_order (some p) c ≡ some (tt, c)
  unfolding delete_order
  not_deleted p c o e a = ground arith

  -- To delete an order that exists is no fault. If the order is active, its cancellation goes to the
  -- end of the publisher's queue, and a consumer that is registered once is told of the order; else
  -- nothing is queued and nobody is told. The database stays as it is.
  pub delete_order-transactions :
      (p j : ℕ) (c : Connector D) (o : Order D)
      → c.database.heap.orders p ≡ some o
      → times j c.event_manager.consumers ≡ 1
      → Holds
          (λ _ c'.
            (c'.transaction_mgr.transactions
              ≡ c.transaction_mgr.transactions
                ++ (if is_active o.state then cancellations (p ∷ []) else []))
            × ((queue j c'.event_manager
                  ≡ queue j c.event_manager
                    ++ (if is_active o.state
                        then event EventType.order_change o.global_id ∷ []
                        else []))
                × (c'.database ≡ c.database)))
          (delete_order (some p) c)
  unfolding Transactions.cancel_order
  delete_order-transactions p j c o e t = elim (Bool-cases (is_active o.state)) [
    | inl a ↦ rw (deleted p c o e a, a) (refl, (told, refl))
    | inr a ↦ rw (not_deleted p c o e a, a) (sym (append-nil _), (sym (append-nil _), refl))
  ]
    where
      told :
          queue j (Events.add_event EventType.order_change o.global_id c.event_manager)
          ≡ queue j c.event_manager ++ event EventType.order_change o.global_id ∷ []
      told =
          queue-add_event EventType.order_change o.global_id j c.event_manager
          ∙ ap
              (λ (n : ℕ).
                queue j c.event_manager ++ replicate n (event EventType.order_change o.global_id))
              t
