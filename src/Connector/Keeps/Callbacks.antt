-- ===== src/Connector/Keeps/Callbacks.antt =====
-- PlazaCallbacks.cpp: the relation for the callbacks of the listeners and of the publisher.
use simple_cgate.Base.{
  ℕ, zero, suc, ◌≡◌, refl, ap, sym, ◌∙◌, arith, some, done, nat_eq, Bool-cases, inl, inr, ◌>>◌,
  ◌==◌,
}
use simple_cgate.Entities.Platform.{Platform}
use simple_cgate.Streams.{Message, release_all}
use simple_cgate.Streams.Kept.{states-release_all}
use simple_cgate.Events.{EventType}
use simple_cgate.Database.{clear_position}
use simple_cgate.Connector.{Connector, on_database, send_event}
use simple_cgate.Connector.Rows.{
  FutSessContents, PositionRow, FutVm, FutCommon, Part, TradeRow, orders_log, multileg_orders_log,
  multileg_deal, user_deal, other_table, PublisherMessage, message_data, timeout, other,
}
use simple_cgate.Connector.Market.{
  online_message, service_state, common_state, listener_part_stream, listener_fut_info_stream,
  listener_fut_common_stream, listener_vm_stream, listener_position_stream,
}
use simple_cgate.Connector.Trading.{order_stream_state, listener_fut_trade_stream, trade_row}
use simple_cgate.Connector.Replies.{publisher_callback, is_add, is_delete, is_move}
use simple_cgate.Connector.Safety.{IsGate}
use simple_cgate.Connector.Callbacks.{
  Callback, part, fut_info, vm, position, fut_common, fut_trade, reply, deliver,
}
use simple_cgate.Connector.Keeps.{
  Keeps, Keeps-same, Keeps-trans, irreflexive, listener_state_process-same,
}
use simple_cgate.Connector.Keeps.Rows.{
  orders_log_row-Keeps, multileg_orders_log_row-Keeps, user_deal_row-Keeps, multileg_deal_row-Keeps,
  position_row-Keeps, vm_row-Keeps, quote_row-Keeps, money_row-Keeps, session_row-Keeps,
  add_reply-Keeps, delete_reply-Keeps, move_reply-Keeps, flood_reply-Keeps,
}

module _ {D : Type 0} ⦃num : Platform D⦄ where
  done-Keeps : (c c' : Connector D) → done c ≡ some (tt, c') → Keeps c c'
  done-Keeps c c' e =
      Keeps-same c c' (ground arith) (ground arith) (ground arith) (ground arith) (ground arith)
        (ground arith)

  service_state-Keeps :
      {A : Type 0} (l : ℕ) (msg : Message A) (c c' : Connector D)
      → service_state l msg c ≡ some (tt, c')
      → Keeps c c'
  service_state-Keeps l msg c c' e = done-Keeps c c' (
      ap (λ s. done (record c { service_stream = s }))
        (sym (listener_state_process-same l msg c.service_stream))
      ∙ e)

  common_state-Keeps :
      {A : Type 0} (l : ℕ) (msg : Message A) (c c' : Connector D)
      → common_state l msg c ≡ some (tt, c')
      → Keeps c c'
  common_state-Keeps l msg c c' e = done-Keeps c c' (
      ap (λ s. done (record c { common_stream = s }))
        (sym (listener_state_process-same l msg c.common_stream))
      ∙ e)

  order_stream_state-Keeps :
      {A : Type 0} (l : ℕ) (msg : Message A) (c c' : Connector D)
      → order_stream_state l msg c ≡ some (tt, c')
      → Keeps c c'
  order_stream_state-Keeps l msg c c' e = done-Keeps c c' (
      ap (λ s. done (record c { order_stream = s }))
        (sym (listener_state_process-same l msg c.order_stream))
      ∙ e)

  listener_part_stream-Keeps :
      (l : ℕ) (msg : Message Part) (c c' : Connector D)
      → IsGate c
      → listener_part_stream l msg c ≡ some (tt, c')
      → Keeps c c'
  unfolding listener_part_stream
  listener_part_stream-Keeps l (Message.stream_data zero row) c c' v e =
      money_row-Keeps row c c' v e
  listener_part_stream-Keeps l (Message.stream_data (suc _) row) c c' v e = done-Keeps c c' e
  listener_part_stream-Keeps l Message.clear_deleted c c' v e = done-Keeps c c' e
  listener_part_stream-Keeps l Message.tn_begin c c' v e = done-Keeps c c' e
  listener_part_stream-Keeps l Message.tn_commit c c' v e = done-Keeps c c' e
  listener_part_stream-Keeps l msg c c' v e = service_state-Keeps l msg c c' e

  listener_fut_common_stream-Keeps :
      (l : ℕ) (msg : Message FutCommon) (c c' : Connector D)
      → IsGate c
      → listener_fut_common_stream l msg c ≡ some (tt, c')
      → Keeps c c'
  unfolding listener_fut_common_stream
  listener_fut_common_stream-Keeps l (Message.stream_data zero row) c c' v e =
      quote_row-Keeps row c c' v e
  listener_fut_common_stream-Keeps l (Message.stream_data (suc _) row) c c' v e = done-Keeps c c' e
  listener_fut_common_stream-Keeps l Message.clear_deleted c c' v e = done-Keeps c c' e
  listener_fut_common_stream-Keeps l Message.tn_begin c c' v e = done-Keeps c c' e
  listener_fut_common_stream-Keeps l Message.tn_commit c c' v e = done-Keeps c c' e
  listener_fut_common_stream-Keeps l msg c c' v e = common_state-Keeps l msg c c' e

  listener_vm_stream-Keeps :
      (l : ℕ) (msg : Message FutVm) (c c' : Connector D)
      → IsGate c
      → listener_vm_stream l msg c ≡ some (tt, c')
      → Keeps c c'
  unfolding listener_vm_stream
  listener_vm_stream-Keeps l (Message.stream_data zero row) c c' v e = vm_row-Keeps row c c' v e
  listener_vm_stream-Keeps l (Message.stream_data (suc _) row) c c' v e = done-Keeps c c' e
  listener_vm_stream-Keeps l Message.clear_deleted c c' v e = done-Keeps c c' e
  listener_vm_stream-Keeps l Message.tn_begin c c' v e = done-Keeps c c' e
  listener_vm_stream-Keeps l Message.tn_commit c c' v e = done-Keeps c c' e
  listener_vm_stream-Keeps l msg c c' v e = service_state-Keeps l msg c c' e

  cleared-Keeps :
      (c c' : Connector D)
      → (on_database clear_position >> send_event EventType.position_clear 0) c ≡ some (tt, c')
      → Keeps c c'
  cleared-Keeps c c' e = record {
    session = ground (arith, irreflexive c.last_sess_id);
    orders = λ k p h. ground arith;
    trades = λ k p h. ground arith;
    securities = λ k p h. ground arith;
    links = λ k p h. ground arith;
    deals = λ p t h. ground arith;
    service_states = ground arith;
    order_states = ground arith;
    common_states = ground arith;
  }

  listener_position_stream-Keeps :
      (l : ℕ) (msg : Message PositionRow) (c c' : Connector D)
      → IsGate c
      → listener_position_stream l msg c ≡ some (tt, c')
      → Keeps c c'
  unfolding listener_position_stream
  listener_position_stream-Keeps l (Message.stream_data zero row) c c' v e =
      position_row-Keeps row c c' v e
  listener_position_stream-Keeps l (Message.stream_data (suc _) row) c c' v e = done-Keeps c c' e
  listener_position_stream-Keeps l Message.clear_deleted c c' v e = cleared-Keeps c c' e
  listener_position_stream-Keeps l Message.tn_begin c c' v e = done-Keeps c c' e
  listener_position_stream-Keeps l Message.tn_commit c c' v e = done-Keeps c c' e
  listener_position_stream-Keeps l msg c c' v e = service_state-Keeps l msg c c' e

  listener_fut_info_stream-Keeps :
      (l : ℕ) (msg : Message FutSessContents) (c c' : Connector D)
      → IsGate c
      → listener_fut_info_stream l msg c ≡ some (tt, c')
      → Keeps c c'
  unfolding listener_fut_info_stream
  listener_fut_info_stream-Keeps l (Message.stream_data zero row) c c' v e =
      session_row-Keeps row c c' v e
  listener_fut_info_stream-Keeps l (Message.stream_data (suc _) row) c c' v e = done-Keeps c c' e
  listener_fut_info_stream-Keeps l Message.clear_deleted c c' v e = done-Keeps c c' e
  listener_fut_info_stream-Keeps l Message.tn_begin c c' v e = done-Keeps c c' e
  listener_fut_info_stream-Keeps l Message.tn_commit c c' v e = done-Keeps c c' e
  listener_fut_info_stream-Keeps l Message.online c c' v e =
      Keeps-trans c (record c { service_stream = release_all c.service_stream }) c'
        (Keeps-same c _ refl refl refl (states-release_all c.service_stream) refl refl)
        (service_state-Keeps l online_message _ c' e)
  listener_fut_info_stream-Keeps l msg c c' v e = service_state-Keeps l msg c c' e

  listener_fut_trade_stream-Keeps :
      (l : ℕ) (msg : Message TradeRow) (c c' : Connector D)
      → IsGate c
      → listener_fut_trade_stream l msg c ≡ some (tt, c')
      → Keeps c c'
  unfolding listener_fut_trade_stream trade_row
  listener_fut_trade_stream-Keeps l (Message.stream_data _ (orders_log row)) c c' v e =
      orders_log_row-Keeps row c c' v e
  listener_fut_trade_stream-Keeps l (Message.stream_data _ (multileg_orders_log row)) c c' v e =
      multileg_orders_log_row-Keeps row c c' v e
  listener_fut_trade_stream-Keeps l (Message.stream_data _ (multileg_deal row)) c c' v e =
      multileg_deal_row-Keeps row c c' v e
  listener_fut_trade_stream-Keeps l (Message.stream_data _ (user_deal row)) c c' v e =
      user_deal_row-Keeps row c c' v e
  listener_fut_trade_stream-Keeps l (Message.stream_data _ other_table) c c' v e = done-Keeps c c' e
  listener_fut_trade_stream-Keeps l Message.clear_deleted c c' v e = done-Keeps c c' e
  listener_fut_trade_stream-Keeps l Message.tn_begin c c' v e = done-Keeps c c' e
  listener_fut_trade_stream-Keeps l Message.tn_commit c c' v e = done-Keeps c c' e
  listener_fut_trade_stream-Keeps l msg c c' v e = order_stream_state-Keeps l msg c c' e

  publisher_callback-Keeps :
      (msg : PublisherMessage) (c c' : Connector D)
      → IsGate c
      → publisher_callback msg c ≡ some (tt, c')
      → Keeps c c'
  unfolding publisher_callback
  publisher_callback-Keeps timeout c c' v e = done-Keeps c c' e
  publisher_callback-Keeps other c c' v e = done-Keeps c c' e
  publisher_callback-Keeps (message_data r) c c' v e = elim (Bool-cases (is_add r.msg_id)) [
    | inl a ↦ add_reply-Keeps r c c' v (ground arith)
    | inr a ↦ elim (Bool-cases (is_delete r.msg_id)) [
      | inl b ↦ delete_reply-Keeps r c c' v (ground arith)
      | inr b ↦ elim (Bool-cases (is_move r.msg_id)) [
        | inl d ↦ move_reply-Keeps r c c' v (ground arith)
        | inr d ↦ elim (Bool-cases (r.msg_id == 99)) [
          | inl f ↦ flood_reply-Keeps r c c' v (ground arith)
          | inr f ↦ done-Keeps c c' (ground arith)
        ]
      ]
    ]
  ]

  pub deliver-Keeps :
      (cb : Callback) (c c' : Connector D) → IsGate c → deliver cb c ≡ some (tt, c') → Keeps c c'
  unfolding deliver
  deliver-Keeps (part l msg) c c' v e = listener_part_stream-Keeps l msg c c' v e
  deliver-Keeps (fut_info l msg) c c' v e = listener_fut_info_stream-Keeps l msg c c' v e
  deliver-Keeps (vm l msg) c c' v e = listener_vm_stream-Keeps l msg c c' v e
  deliver-Keeps (position l msg) c c' v e = listener_position_stream-Keeps l msg c c' v e
  deliver-Keeps (fut_common l msg) c c' v e = listener_fut_common_stream-Keeps l msg c c' v e
  deliver-Keeps (fut_trade l msg) c c' v e = listener_fut_trade_stream-Keeps l msg c c' v e
  deliver-Keeps (reply msg) c c' v e = publisher_callback-Keeps msg c c' v e
