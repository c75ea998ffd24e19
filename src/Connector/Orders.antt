-- ===== src/Connector/Orders.antt =====
-- PlazaCallbacks.cpp: what the rows of the orders' log and the replies make of the user's orders.
use simple_cgate.Base.{
  ℕ, ◌≡◌, refl, arith, Bool, true, false, Option, none, some, List, [], ◌∷◌, nat_eq, map_some, ◌==◌,
  if◌then◌else◌, Holds, Holds-map, ◌||◌, >>=-Holds, is_some,
}
use simple_cgate.Entities.Platform.{Platform}
use simple_cgate.Entities.Order.{Order, OrderState}
use simple_cgate.Database.{get_order}
use simple_cgate.Streams.{Message}
use simple_cgate.Connector.{Connector, order_for}
use simple_cgate.Connector.Rows.{MyOrdersLog, Reply, message_data, orders_log}
use simple_cgate.Connector.Trading.{
  orders_log_row, order_action, trade_row, listener_fut_trade_stream,
}
use simple_cgate.Connector.Replies.{
  publisher_callback, add_reply, delete_reply, move_reply, flood_reply, is_add, is_delete, is_move,
}
use simple_cgate.Connector.Callbacks.{Callback, fut_trade, deliver, deliver_all}
use simple_cgate.Connector.Safety.{IsGate}
use simple_cgate.Connector.Safety.Replies.{publisher_callback-Gate}

module _ {D : Type 0} where
  -- The order that the database has under a user's id.
  abbrev pub order_of : ℕ → Connector D → Option (Order D)
  order_of user_id c = elim (get_order user_id c.database) [
    | none ↦ none
    | some p ↦ c.database.heap.orders p
  ]

  -- What the rows say of an order: how much is open, how much was asked for, and its state.
  abbrev pub open_part : Order D → ℕ × (ℕ × OrderState)
  open_part o = (o.balance, (o.volume, o.state))

  -- What a reply means for the order that it is about.
  unfoldable pub replied : Reply → Order D → Order D
  replied r o =
      if is_add r.msg_id
      then (if r.code == 0 then record o { id = r.order_id } else failed)
      else if is_delete r.msg_id
      then (if r.code == 0 then record o { state = OrderState.done } else o)
      else if is_move r.msg_id
      then (if r.code == 0
          then record o {
            id = r.order_id;
            state = if r.order_id == 0 then OrderState.none else o.state;
          }
          else failed)
      else if r.msg_id == 99
      then failed
      else o
    where
      failed : Order D
      failed = record o { state = OrderState.failed }

-- The rest after a series of matches, and whether one of them took all of the order.
abbrev pub last_rest : ℕ → List ℕ → ℕ
last_rest balance [] = balance
last_rest balance (r ∷ rests) = last_rest r rests

abbrev pub is_filled : List ℕ → Bool
is_filled [] = false
is_filled (r ∷ rests) = r == 0 || is_filled rests

-- The rows of a series of matches of one order, as the listener gets them.
abbrev pub matches : ℕ → ℕ → MyOrdersLog → List ℕ → List Callback
matches l index row [] = []
matches l index row (r ∷ rests) =
    fut_trade l
      (Message.stream_data index (orders_log (record row { action = 2; amount_rest = r })))
    ∷ matches l index row rests

done_or :
    (a b : Bool) (s : OrderState)
    → (if (a || b) then OrderState.done else s)
      ≡ (if b then OrderState.done else if a then OrderState.done else s)
done_or a b s = ground arith

module _ {D : Type 0} ⦃num : Platform D⦄ where
  -- One match: of the order, and of what a row looks at.
  matched :
      (l index r : ℕ) (row : MyOrdersLog) (c : Connector D) (o : Order D)
      → is_some (c.securities_id row.isin_id) ≡ true
      → order_of row.ext_id c ≡ some o
      → Holds
          (λ _ c'.
            (is_some (c'.securities_id row.isin_id) ≡ true)
            × (order_of row.ext_id c'
                ≡ some (record o {
                  balance = r;
                  state = if r == 0 then OrderState.done else o.state;
                })))
          (deliver
            (fut_trade l
              (Message.stream_data index (orders_log (record row { action = 2; amount_rest = r }))))
            c)
  unfolding deliver listener_fut_trade_stream trade_row orders_log_row order_for order_action
  matched l index r row c o s h = ground arith

  -- Rows that report the matches of a known order of a known instrument, in any number, are handled
  -- without a fault; afterwards the order's balance is the rest of the last match, its volume is what
  -- it was, and it is done if one of the matches left no rest.
  pub deliver_all-matches :
      (l index : ℕ) (row : MyOrdersLog) (rests : List ℕ) (c : Connector D) (o : Order D)
      → is_some (c.securities_id row.isin_id) ≡ true
      → order_of row.ext_id c ≡ some o
      → Holds
          (λ _ c'.
            map_some open_part (order_of row.ext_id c')
            ≡ some (
              last_rest o.balance rests,
              (o.volume, if is_filled rests then OrderState.done else o.state),
            ))
          (deliver_all (matches l index row rests) c)
  unfolding deliver_all
  deliver_all-matches l index row [] c o s h = ground arith
  deliver_all-matches l index row (r ∷ rests) c o s h =
      >>=-Holds
        (λ _ c'.
          (is_some (c'.securities_id row.isin_id) ≡ true)
          × (order_of row.ext_id c'
              ≡ some
                  (record o { balance = r; state = if r == 0 then OrderState.done else o.state })))
        (λ _ c'.
          map_some open_part (order_of row.ext_id c')
          ≡ some (
            last_rest r rests,
            (o.volume, if (r == 0 || is_filled rests) then OrderState.done else o.state),
          ))
        (deliver (
          fut_trade l
            (Message.stream_data index (orders_log (record row { action = 2; amount_rest = r })))))
        (λ _. deliver_all (matches l index row rests)) c (matched l index r row c o s h)
        (λ _ d m. rw (done_or (r == 0) (is_filled rests) o.state) (
          deliver_all-matches l index row rests d
            (record o { balance = r; state = if r == 0 then OrderState.done else o.state }) m.0
            m.1))

  replied-order_of :
      (r : Reply) (c c' : Connector D) (k : ℕ)
      → IsGate c
      → publisher_callback (message_data r) c ≡ some (tt, c')
      → order_of k c'
        ≡ (if k == r.user_id then map_some (replied r) (order_of k c) else order_of k c)
  unfolding publisher_callback add_reply delete_reply move_reply flood_reply replied
  replied-order_of r c c' k v e =
      go (get_order k c.database) (get_order r.user_id c.database) refl refl
    where
      go :
          (x y : Option ℕ)
          → get_order k c.database ≡ x
          → get_order r.user_id c.database ≡ y
          → order_of k c'
            ≡ (if k == r.user_id then map_some (replied r) (order_of k c) else order_of k c)
      go none y ex ey = ground arith
      go (some p) none ex ey = ground arith
      go (some p) (some q) ex ey =
          ground (arith, v.database_ok.orders_ok k p ex, v.database_ok.orders_ok r.user_id q ey)

  -- On a well-formed connector a reply is handled without a fault; it changes the order that it is
  -- about as its kind, its code and its order's number say, and no other; for a user's id that the
  -- database does not know, no order changes.
  pub publisher_callback-order_of :
      (r : Reply) (c : Connector D) (k : ℕ)
      → IsGate c
      → Holds
          (λ _ c'.
            order_of k c'
            ≡ (if k == r.user_id then map_some (replied r) (order_of k c) else order_of k c))
          (publisher_callback (message_data r) c)
  publisher_callback-order_of r c k v =
      Holds-map IsGate _ (publisher_callback (message_data r) c)
        (publisher_callback-Gate (message_data r) c v) (λ c' e w. replied-order_of r c c' k v e)
