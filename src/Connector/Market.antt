-- ===== src/Connector/Market.antt =====
-- PlazaCallbacks.cpp: the callbacks of the listeners of instruments, quotes, funds and positions.
-- Each takes the listener's handle and the message; the table index 0 is the one that is read.
use simple_cgate.Base.{
  ℕ, zero, suc, Bool, true, false, some, Action, deref, update, done, ◌>>=◌, ◌>>◌, ◌==◌, nat_eq,
  if◌then◌else◌,
}
use simple_cgate.Base.Words.{lt_i32}
use simple_cgate.Entities.Platform.{Platform}
use simple_cgate.Entities.Security
use simple_cgate.Entities.Security.{Security, SecurityType}
use simple_cgate.Entities.Position
use simple_cgate.Entities.Money
use simple_cgate.Events.{EventType}
use simple_cgate.Streams.{Message, release_all}
use simple_cgate.Database.{
  create_security, get_security, is_security_exist, write_security, write_position, write_money,
  clear_position,
}
use simple_cgate.Connector.Rows.{Part, FutVm, PositionRow, FutSessContents, FutCommon}
use simple_cgate.Connector.{
  Connector, is_security_id, get_security_by_id, add_security, on_database, call_database,
  send_event, add_quote_event, add_security_event, add_position_event, add_money_event,
  convert_to_double, position_for, listener_state_process,
}

abbrev pub online_message : Message FutSessContents
online_message = Message.online

module _ {D : Type 0} where
  -- `ListenerStateProcess` on each of the connector's streams.
  abbrev pub service_state : {A : Type 0} → ℕ → Message A → Action (Connector D) (Unit {0})
  service_state l msg =
      update (λ c. record c { service_stream = listener_state_process l msg c.service_stream })

  abbrev pub common_state : {A : Type 0} → ℕ → Message A → Action (Connector D) (Unit {0})
  common_state l msg =
      update (λ c. record c { common_stream = listener_state_process l msg c.common_stream })

module _ {D : Type 0} ⦃num : Platform D⦄ where
  unfoldable pub money_row : Part → Action (Connector D) (Unit {0})
  money_row part = do
    on_database (write_money (Money.set_coeff_go (convert_to_double part.coeff_go)))
    on_database (write_money (Money.set_all (convert_to_double part.money_amount)))
    on_database (write_money (Money.set_free (convert_to_double part.money_free)))
    on_database (write_money (Money.set_blocked (convert_to_double part.money_blocked)))
    on_database (write_money (Money.set_fee (convert_to_double part.fee)))
    add_money_event

  unfoldable pub listener_part_stream : ℕ → Message Part → Action (Connector D) (Unit {0})
  unfolding money_row
  listener_part_stream l (Message.stream_data zero part) = money_row part
  listener_part_stream l (Message.stream_data (suc _) part) = done
  listener_part_stream l Message.clear_deleted = done
  listener_part_stream l Message.tn_begin = done
  listener_part_stream l Message.tn_commit = done
  listener_part_stream l msg = service_state l msg

  -- The fields of an instrument; the minimal and the maximal price count from the last one.
  abbrev pub fill_security : FutSessContents → Security D → Security D
  fill_security row s =
      let last = convert_to_double row.last_cl_quote in
      let s1 : Security D = Security.set_last_price last s in
      let s2 : Security D = Security.set_step_price (convert_to_double row.step_price) s1 in
      let s3 : Security D = Security.set_margin_buy (convert_to_double row.buy_deposit) s2 in
      let s4 : Security D = Security.set_margin_sell (convert_to_double row.sell_deposit) s3 in
      let s5 : Security D =
        Security.set_min_price (num.sub_double s4.last_price (convert_to_double row.limit_down))
          s4 in
      let s6 : Security D =
        Security.set_max_price (num.add_double s5.last_price (convert_to_double row.limit_up)) s5 in
      let s7 : Security D = Security.set_decimals row.roundto s6 in
      let s8 : Security D = Security.set_trading_state (row.state == 1) s7 in
      let s9 : Security D = Security.set_step_size (convert_to_double row.min_step) s8 in
      Security.set_type
        (if row.multileg_type == 3 then SecurityType.spread else SecurityType.futures) s9

  -- `IsSecurityExist(isin) ? GetSecurity(isin) : (is_new = true, CreateSecurity(isin))`.
  unfoldable pub security_for : FutSessContents → Action (Connector D) (ℕ × Bool)
  security_for row c =
      if is_security_exist row.isin c.database
      then (do
        p ← deref (λ (d : Connector D). get_security row.isin d.database)
        λ d. some ((p, false), d))
          c
      else (do p ← call_database (create_security row.isin); λ d. some ((p, true), d)) c

  unfoldable pub link_security : ℕ → ℕ → Action (Connector D) (Unit {0})
  link_security id p c = if is_security_id id c then done c else some (tt, add_security p id c)

  unfoldable pub session_row : FutSessContents → Action (Connector D) (Unit {0})
  unfolding security_for link_security
  session_row row c =
      if lt_i32 row.sess_id c.last_sess_id
      then done c
      else (do
        update (λ (d : Connector D). record d { last_sess_id = row.sess_id })
        (p, is_new) ← security_for row
        link_security row.isin_id p
        on_database (write_security p (fill_security row))
        if is_new then add_security_event p else done)
          c

  unfoldable pub listener_fut_info_stream :
      ℕ → Message FutSessContents → Action (Connector D) (Unit {0})
  unfolding session_row
  listener_fut_info_stream l (Message.stream_data zero row) = session_row row
  listener_fut_info_stream l (Message.stream_data (suc _) row) = done
  listener_fut_info_stream l Message.clear_deleted = done
  listener_fut_info_stream l Message.tn_begin = done
  listener_fut_info_stream l Message.tn_commit = done
  listener_fut_info_stream l Message.online = do
    update (λ (c : Connector D). record c { service_stream = release_all c.service_stream })
    service_state l online_message
  listener_fut_info_stream l msg = service_state l msg

  unfoldable pub quote_row : FutCommon → Action (Connector D) (Unit {0})
  quote_row row c =
      if is_security_id row.isin_id c
      then (do
        p ← get_security_by_id row.isin_id
        on_database
            (write_security p (Security.set_ask (convert_to_double row.best_sell) row.amount_sell))
        on_database
            (write_security p (Security.set_bid (convert_to_double row.best_buy) row.amount_buy))
        add_quote_event p)
          c
      else done c

  unfoldable pub listener_fut_common_stream :
      ℕ → Message FutCommon → Action (Connector D) (Unit {0})
  unfolding quote_row
  listener_fut_common_stream l (Message.stream_data zero row) = quote_row row
  listener_fut_common_stream l (Message.stream_data (suc _) row) = done
  listener_fut_common_stream l Message.clear_deleted = done
  listener_fut_common_stream l Message.tn_begin = done
  listener_fut_common_stream l Message.tn_commit = done
  listener_fut_common_stream l msg = common_state l msg

  unfoldable pub vm_row : FutVm → Action (Connector D) (Unit {0})
  vm_row row c =
      if is_security_id row.isin_id c
      then (do
        sec ← get_security_by_id row.isin_id
        p ← position_for sec
        on_database
            (write_position p (Position.set_variation_margin (convert_to_double row.vm_real)))
        add_position_event p)
          c
      else done c

  unfoldable pub listener_vm_stream : ℕ → Message FutVm → Action (Connector D) (Unit {0})
  unfolding vm_row
  listener_vm_stream l (Message.stream_data zero row) = vm_row row
  listener_vm_stream l (Message.stream_data (suc _) row) = done
  listener_vm_stream l Message.clear_deleted = done
  listener_vm_stream l Message.tn_begin = done
  listener_vm_stream l Message.tn_commit = done
  listener_vm_stream l msg = service_state l msg

  unfoldable pub position_row : PositionRow → Action (Connector D) (Unit {0})
  position_row row c =
      if is_security_id row.isin_id c
      then (do
        sec ← get_security_by_id row.isin_id
        p ← position_for sec
        on_database (
            write_position p (
              Position.fill row.open_qty row.buys_qty row.sells_qty row.pos
                (convert_to_double row.waprice)))
        add_position_event p)
          c
      else done c

  unfoldable pub listener_position_stream :
      ℕ → Message PositionRow → Action (Connector D) (Unit {0})
  unfolding position_row
  listener_position_stream l (Message.stream_data zero row) = position_row row
  listener_position_stream l (Message.stream_data (suc _) row) = done
  listener_position_stream l Message.clear_deleted = do
    on_database clear_position
    send_event EventType.position_clear 0
  listener_position_stream l Message.tn_begin = done
  listener_position_stream l Message.tn_commit = done
  listener_position_stream l msg = service_state l msg
