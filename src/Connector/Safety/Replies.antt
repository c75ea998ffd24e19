-- ===== src/Connector/Safety/Replies.antt =====
-- PlazaCallbacks.cpp: the callback for replies, on a well-formed connector.
use simple_cgate.Base.{
  ℕ, inl, inr, refl, Bool, true, false, arith, nat_eq, ◌==◌, Action, deref, done, Holds, >>=-Holds,
  deref-Holds, Bool-cases, ◌>>=◌, ◌>>◌, if◌then◌else◌,
}
use simple_cgate.Entities.Order
use simple_cgate.Entities.Order.{Order, OrderState}
use simple_cgate.Database.{get_order, is_order_exist, write_order}
use simple_cgate.Connector.Rows.{Reply, PublisherMessage, message_data, timeout, other}
use simple_cgate.Connector.{Connector, on_database, add_order_event}
use simple_cgate.Connector.Replies.{
  with_order, fail_order, add_reply, delete_reply, move_reply, flood_reply, is_add, is_delete,
  is_move, publisher_callback,
}
use simple_cgate.Connector.Safety.{IsGate, Gate, OrderLive, write_order-Live, add_order_event-Gate}

module _ {D : Type 0} where
  with_order-Gate :
      (user_id : ℕ) (f : ℕ → Action (Connector D) (Unit {0})) (c : Connector D)
      → ((p : ℕ) (d : Connector D) → OrderLive p d → Holds Gate (f p d))
      → IsGate c
      → Holds Gate (with_order user_id f c)
  with_order-Gate user_id f c k v = elim (Bool-cases (is_order_exist user_id c.database)) [
    | inl e ↦
        rw (e, with_order)
          (>>=-Holds OrderLive Gate (deref (λ (d : Connector D). get_order user_id d.database)) f c
            (deref-Holds OrderLive (λ (d : Connector D). get_order user_id d.database) c e
              (λ p u. (v, ground (arith, v.database_ok.orders_ok user_id p))))
            k)
    | inr e ↦ rw (e, with_order) v
  ]

  fail_order-Gate : (p : ℕ) (c : Connector D) → OrderLive p c → Holds Gate (fail_order p c)
  fail_order-Gate p c l =
      add_order_event-Gate p _
        (write_order-Live p (Order.set_state OrderState.failed) c (λ _. (refl, refl)) l)

  add_reply-Gate : (r : Reply) (c : Connector D) → IsGate c → Holds Gate (add_reply r c)
  unfolding add_reply
  add_reply-Gate r c v = with_order-Gate r.user_id _ c (λ p d l. go (r.code == 0) p d l) v
    where
      go :
          (b : Bool) (p : ℕ) (d : Connector D)
          → OrderLive p d
          → Holds Gate (
              (if b then on_database (write_order p (Order.set_id r.order_id)) else fail_order p) d)
      go true p d l = (write_order-Live p (Order.set_id r.order_id) d (λ _. (refl, refl)) l).0
      go false p d l = fail_order-Gate p d l

  delete_reply-Gate : (r : Reply) (c : Connector D) → IsGate c → Holds Gate (delete_reply r c)
  unfolding delete_reply
  delete_reply-Gate r c v = with_order-Gate r.user_id _ c (λ p d l. go (r.code == 0) p d l) v
    where
      go :
          (b : Bool) (p : ℕ) (d : Connector D)
          → OrderLive p d
          → Holds Gate (
              (if b then on_database (write_order p (Order.set_state OrderState.done)) else done) d)
      go true p d l =
          (write_order-Live p (Order.set_state OrderState.done) d (λ _. (refl, refl)) l).0
      go false p d l = l.0

  -- An accepted move, from the new id on.
  reset_moved : ℕ → Order D → Action (Connector D) (Unit {0})
  reset_moved p o =
      if o.id == 0
      then on_database (write_order p (Order.set_state OrderState.none)) >> add_order_event p
      else done

  reset_moved-Gate :
      (p : ℕ) (o : Order D) (c : Connector D) → OrderLive p c → Holds Gate (reset_moved p o c)
  unfolding reset_moved
  reset_moved-Gate p o c l = elim (Bool-cases (o.id == 0)) [
    | inl e ↦
        rw (e, reset_moved)
          (add_order_event-Gate p _
            (write_order-Live p (Order.set_state OrderState.none) c (λ _. (refl, refl)) l))
    | inr e ↦ rw (e, reset_moved) l.0
  ]

  move_reply-Gate : (r : Reply) (c : Connector D) → IsGate c → Holds Gate (move_reply r c)
  unfolding move_reply reset_moved
  move_reply-Gate r c v = with_order-Gate r.user_id _ c (λ p d l. go (r.code == 0) p d l) v
    where
      moved :
          (p : ℕ) (d : Connector D)
          → OrderLive p d
          → Holds Gate
              ((deref (λ (c : Connector D). c.database.heap.orders p) >>= λ o. reset_moved p o) d)
      moved p d l =
          >>=-Holds (λ _ d'. OrderLive p d') Gate
            (deref (λ (c : Connector D). c.database.heap.orders p)) (λ o. reset_moved p o) d
            (deref-Holds (λ _ d'. OrderLive p d') (λ (c : Connector D). c.database.heap.orders p) d
              l.1 (λ _ _. l))
            (λ o d' m. reset_moved-Gate p o d' m)

      go :
          (b : Bool) (p : ℕ) (d : Connector D)
          → OrderLive p d
          → Holds Gate (
              (if b
                  then on_database (write_order p (Order.set_id r.order_id))
                    >> (deref (λ (c : Connector D). c.database.heap.orders p) >>= λ o.
                        reset_moved p o)
                  else fail_order p)
                d)
      go true p d l =
          moved p _ (write_order-Live p (Order.set_id r.order_id) d (λ _. (refl, refl)) l)
      go false p d l = fail_order-Gate p d l

  flood_reply-Gate : (r : Reply) (c : Connector D) → IsGate c → Holds Gate (flood_reply r c)
  unfolding flood_reply
  flood_reply-Gate r c v = with_order-Gate r.user_id fail_order c fail_order-Gate v

  -- A reply never fails and keeps the connector well formed.
  pub publisher_callback-Gate :
      (msg : PublisherMessage) (c : Connector D) → IsGate c → Holds Gate (publisher_callback msg c)
  unfolding publisher_callback
  publisher_callback-Gate (message_data r) c v =
      go (is_add r.msg_id) (is_delete r.msg_id) (is_move r.msg_id) (r.msg_id == 99)
    where
      go :
          (a b m f : Bool)
          → Holds Gate (
              (if a
                  then add_reply r
                  else if b
                  then delete_reply r
                  else if m
                  then move_reply r
                  else if f
                  then flood_reply r
                  else done)
                c)
      go true b m f = add_reply-Gate r c v
      go false true m f = delete_reply-Gate r c v
      go false false true f = move_reply-Gate r c v
      go false false false true = flood_reply-Gate r c v
      go false false false false = v
  publisher_callback-Gate timeout c v = v
  publisher_callback-Gate other c v = v
