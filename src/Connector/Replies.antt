-- ===== src/Connector/Replies.antt =====
-- PlazaCallbacks.cpp: the callback for replies to the posted messages.
use simple_cgate.Base.{ℕ, Bool, ◌||◌, Action, deref, done, ◌>>=◌, ◌>>◌, ◌==◌, nat_eq, if◌then◌else◌}
use simple_cgate.Entities.Order
use simple_cgate.Entities.Order.{Order, OrderState}
use simple_cgate.Database.{get_order, is_order_exist, write_order}
use simple_cgate.Connector.Rows.{Reply, PublisherMessage, message_data, timeout, other}
use simple_cgate.Connector.{Connector, on_database, add_order_event}

abbrev pub is_add : ℕ → Bool
is_add id = id == 101 || (id == 129 || id == 109)

abbrev pub is_delete : ℕ → Bool
is_delete id = id == 102 || id == 110

abbrev pub is_move : ℕ → Bool
is_move id = id == 105 || id == 113

module _ {D : Type 0} where
  -- `if (IsOrderExist(user_id)) { auto order = GetOrder(user_id); … }`.
  abbrev pub with_order :
      ℕ → (ℕ → Action (Connector D) (Unit {0})) → Action (Connector D) (Unit {0})
  with_order user_id f c =
      if is_order_exist user_id c.database
      then (do p ← deref (λ (d : Connector D). get_order user_id d.database); f p) c
      else done c

  abbrev pub fail_order : ℕ → Action (Connector D) (Unit {0})
  fail_order p = do
    on_database (write_order p (Order.set_state OrderState.failed))
    add_order_event p

  -- Messages 101, 129 and 109: an order was added, or was not.
  unfoldable pub add_reply : Reply → Action (Connector D) (Unit {0})
  add_reply r = with_order r.user_id λ p.
      if r.code == 0 then on_database (write_order p (Order.set_id r.order_id)) else fail_order p

  -- Messages 102 and 110: an order was deleted, or was not.
  unfoldable pub delete_reply : Reply → Action (Connector D) (Unit {0})
  delete_reply r = with_order r.user_id λ p.
      if r.code == 0 then on_database (write_order p (Order.set_state OrderState.done)) else done

  -- Messages 105 and 113: an order was moved, or was not.
  unfoldable pub move_reply : Reply → Action (Connector D) (Unit {0})
  move_reply r = with_order r.user_id λ p.
      if r.code == 0
      then (do
        on_database (write_order p (Order.set_id r.order_id))
        o ← deref (λ (c : Connector D). c.database.heap.orders p)
        if o.id == 0
            then (do
              on_database (write_order p (Order.set_state OrderState.none))
              add_order_event p)
            else done)
      else fail_order p

  -- Message 99: too many messages were sent.
  unfoldable pub flood_reply : Reply → Action (Connector D) (Unit {0})
  flood_reply r = with_order r.user_id fail_order

  unfoldable pub publisher_callback : PublisherMessage → Action (Connector D) (Unit {0})
  unfolding add_reply delete_reply move_reply flood_reply
  publisher_callback (message_data r) =
      if is_add r.msg_id
      then add_reply r
      else if is_delete r.msg_id
      then delete_reply r
      else if is_move r.msg_id
      then move_reply r
      else if r.msg_id == 99
      then flood_reply r
      else done
  publisher_callback timeout = done
  publisher_callback other = done
