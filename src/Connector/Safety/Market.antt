-- ===== src/Connector/Safety/Market.antt =====
-- PlazaCallbacks.cpp: the callbacks for instruments, quotes, funds and positions, on a well-formed
-- connector.
use simple_cgate.Base.{
  ℕ, zero, suc, inl, inr, refl, Bool, true, false, some, arith, nat_eq, deref, done, Holds,
  >>=-Holds, deref-Holds, Bool-cases, ◌>>=◌, ◌>>◌, if◌then◌else◌,
}
use simple_cgate.Base.Words.{lt_i32}
use simple_cgate.Entities.Platform.{Platform}
use simple_cgate.Entities.Position
use simple_cgate.Entities.Security
use simple_cgate.Streams.{Message}
use simple_cgate.Database.{
  write_position, write_security, get_security, is_security_exist, create_security,
}
use simple_cgate.Database.Writes.{money_info-IsValid, clear_position-IsValid}
use simple_cgate.Connector.Rows.{Part, FutVm, PositionRow, FutSessContents, FutCommon}
use simple_cgate.Connector.{
  Connector, is_security_id, get_security_by_id, position_for, convert_to_double, on_database,
  call_database, add_position_event, add_quote_event, add_security_event,
}
use simple_cgate.Connector.Market.{
  money_row, listener_part_stream, fill_security, security_for, link_security, session_row,
  listener_fut_info_stream, quote_row, listener_fut_common_stream, vm_row, listener_vm_stream,
  position_row, listener_position_stream,
}
use simple_cgate.Connector.Safety.{
  IsGate, Gate, SecurityLive, PositionLive, write_security-Live, write_position-Live,
  add_position_event-Gate, add_quote_event-Gate, add_security_event-Gate, get_security_by_id-Live,
  position_for-Live, create_security-Live,
}

module _ {D : Type 0} ⦃num : Platform D⦄ where
  money_row-Gate : (row : Part) (c : Connector D) → IsGate c → Holds Gate (money_row row c)
  unfolding money_row
  money_row-Gate row c v = record {
    database_ok = money_info-IsValid _ c.database v.database_ok;
    linked = v.linked;
  }

  vm_row-Gate : (row : FutVm) (c : Connector D) → IsGate c → Holds Gate (vm_row row c)
  unfolding vm_row
  vm_row-Gate row c v = elim (Bool-cases (is_security_id row.isin_id c)) [
    | inl e ↦
        rw (e, vm_row)
          (>>=-Holds SecurityLive Gate (get_security_by_id row.isin_id)
            (λ sec.
              position_for sec >>= λ p. on_database (write_position p f) >> add_position_event p)
            c (get_security_by_id-Live row.isin_id c e v)
            λ sec d l.
              >>=-Holds PositionLive Gate (position_for sec)
                (λ p. on_database (write_position p f) >> add_position_event p) d
                (position_for-Live sec d l)
                λ p d' m. add_position_event-Gate p _ (write_position-Live p f d' (λ _. refl) m))
    | inr e ↦ rw (e, vm_row) v
  ]
    where
      f : Position.Position D → Position.Position D
      f = Position.set_variation_margin (convert_to_double row.vm_real)

  pub position_row-Gate :
      (row : PositionRow) (c : Connector D) → IsGate c → Holds Gate (position_row row c)
  unfolding position_row
  position_row-Gate row c v = elim (Bool-cases (is_security_id row.isin_id c)) [
    | inl e ↦
        rw (e, position_row)
          (>>=-Holds SecurityLive Gate (get_security_by_id row.isin_id)
            (λ sec.
              position_for sec >>= λ p. on_database (write_position p f) >> add_position_event p)
            c (get_security_by_id-Live row.isin_id c e v)
            λ sec d l.
              >>=-Holds PositionLive Gate (position_for sec)
                (λ p. on_database (write_position p f) >> add_position_event p) d
                (position_for-Live sec d l)
                λ p d' m. add_position_event-Gate p _ (write_position-Live p f d' (λ _. refl) m))
    | inr e ↦ rw (e, position_row) v
  ]
    where
      f : Position.Position D → Position.Position D
      f =
          Position.fill row.open_qty row.buys_qty row.sells_qty row.pos
            (convert_to_double row.waprice)

  pub quote_row-Gate : (row : FutCommon) (c : Connector D) → IsGate c → Holds Gate (quote_row row c)
  unfolding quote_row
  quote_row-Gate row c v = elim (Bool-cases (is_security_id row.isin_id c)) [
    | inl e ↦
        rw (e, quote_row)
          (>>=-Holds SecurityLive Gate (get_security_by_id row.isin_id)
            (λ p.
              on_database (write_security p f)
              >> (on_database (write_security p g) >> add_quote_event p))
            c (get_security_by_id-Live row.isin_id c e v)
            λ p d l.
              add_quote_event-Gate p _
                (write_security-Live p g _ (λ _. refl) (write_security-Live p f d (λ _. refl) l)))
    | inr e ↦ rw (e, quote_row) v
  ]
    where
      f : Security.Security D → Security.Security D
      f = Security.set_ask (convert_to_double row.best_sell) row.amount_sell

      g : Security.Security D → Security.Security D
      g = Security.set_bid (convert_to_double row.best_buy) row.amount_buy

  abbrev FoundSecurity : ℕ × Bool → Connector D → Type 0
  FoundSecurity r c = SecurityLive r.0 c

  security_for-Live :
      (row : FutSessContents) (c : Connector D)
      → IsGate c
      → Holds FoundSecurity (security_for row c)
  unfolding security_for
  security_for-Live row c v = elim (Bool-cases (is_security_exist row.isin c.database)) [
    | inl e ↦
        rw (e, security_for)
          (>>=-Holds SecurityLive FoundSecurity
            (deref (λ (d : Connector D). get_security row.isin d.database))
            (λ p d. some ((p, false), d)) c
            (deref-Holds SecurityLive (λ (d : Connector D). get_security row.isin d.database) c e
              (λ p u. (v, ground (arith, v.database_ok.securities_ok row.isin p))))
            (λ p d l. l))
    | inr e ↦
        rw (e, security_for)
          (>>=-Holds SecurityLive FoundSecurity (call_database (create_security row.isin))
            (λ p d. some ((p, true), d)) c (create_security-Live row.isin c v) (λ p d l. l))
  ]

  link_security-Live :
      (id p : ℕ) (c : Connector D)
      → SecurityLive p c
      → Holds (λ _. SecurityLive p) (link_security id p c)
  unfolding link_security
  link_security-Live id p c (v, live) = elim (Bool-cases (is_security_id id c)) [
    | inl e ↦ rw (e, link_security) (v, live)
    | inr e ↦
        rw (e, link_security)
          (
            record { database_ok = v.database_ok; linked = λ j q u. ground (arith, v.linked j q) },
            live,
          )
  ]

  pub session_row-Gate :
      (row : FutSessContents) (c : Connector D) → IsGate c → Holds Gate (session_row row c)
  unfolding session_row
  session_row-Gate row c v = elim (Bool-cases (lt_i32 row.sess_id c.last_sess_id)) [
    | inl e ↦ rw (e, session_row) v
    | inr e ↦
        rw (e, session_row)
          (>>=-Holds FoundSecurity Gate (security_for row)
            (λ r.
              link_security row.isin_id r.0
              >> (on_database (write_security r.0 (fill_security row))
                  >> (if r.1 then add_security_event r.0 else done)))
            (record c { last_sess_id = row.sess_id })
            (security_for-Live row _ (record { database_ok = v.database_ok; linked = v.linked }))
            λ r d l.
              >>=-Holds (λ _. SecurityLive r.0) Gate (link_security row.isin_id r.0)
                (λ _.
                  on_database (write_security r.0 (fill_security row))
                  >> (if r.1 then add_security_event r.0 else done))
                d (link_security-Live row.isin_id r.0 d l)
                λ _ d' m.
                  announced r.1 r.0 _
                    (write_security-Live r.0 (fill_security row) d' (λ _. refl) m))
  ]
    where
      announced :
          (is_new : Bool) (p : ℕ) (d : Connector D)
          → SecurityLive p d
          → Holds Gate ((if is_new then add_security_event p else done) d)
      announced true p d l = add_security_event-Gate p d l
      announced false p d l = l.0

  -- A message of the listener of funds never fails and keeps the connector well formed.
  pub listener_part_stream-Gate :
      (l : ℕ) (msg : Message Part) (c : Connector D)
      → IsGate c
      → Holds Gate (listener_part_stream l msg c)
  unfolding listener_part_stream
  listener_part_stream-Gate l (Message.stream_data zero row) c v = money_row-Gate row c v
  listener_part_stream-Gate l (Message.stream_data (suc _) row) c v = v
  listener_part_stream-Gate l _ c v = record { database_ok = v.database_ok; linked = v.linked }

  -- So does a message of the listener of instruments.
  pub listener_fut_info_stream-Gate :
      (l : ℕ) (msg : Message FutSessContents) (c : Connector D)
      → IsGate c
      → Holds Gate (listener_fut_info_stream l msg c)
  unfolding listener_fut_info_stream
  listener_fut_info_stream-Gate l (Message.stream_data zero row) c v = session_row-Gate row c v
  listener_fut_info_stream-Gate l (Message.stream_data (suc _) row) c v = v
  listener_fut_info_stream-Gate l _ c v = record { database_ok = v.database_ok; linked = v.linked }

  -- So does a message of the listener of quotes.
  pub listener_fut_common_stream-Gate :
      (l : ℕ) (msg : Message FutCommon) (c : Connector D)
      → IsGate c
      → Holds Gate (listener_fut_common_stream l msg c)
  unfolding listener_fut_common_stream
  listener_fut_common_stream-Gate l (Message.stream_data zero row) c v = quote_row-Gate row c v
  listener_fut_common_stream-Gate l (Message.stream_data (suc _) row) c v = v
  listener_fut_common_stream-Gate l _ c v = record {
    database_ok = v.database_ok;
    linked = v.linked;
  }

  -- So does a message of the listener of the variation margin.
  pub listener_vm_stream-Gate :
      (l : ℕ) (msg : Message FutVm) (c : Connector D)
      → IsGate c
      → Holds Gate (listener_vm_stream l msg c)
  unfolding listener_vm_stream
  listener_vm_stream-Gate l (Message.stream_data zero row) c v = vm_row-Gate row c v
  listener_vm_stream-Gate l (Message.stream_data (suc _) row) c v = v
  listener_vm_stream-Gate l _ c v = record { database_ok = v.database_ok; linked = v.linked }

  -- So does a message of the listener of positions.
  pub listener_position_stream-Gate :
      (l : ℕ) (msg : Message PositionRow) (c : Connector D)
      → IsGate c
      → Holds Gate (listener_position_stream l msg c)
  unfolding listener_position_stream
  listener_position_stream-Gate l (Message.stream_data zero row) c v = position_row-Gate row c v
  listener_position_stream-Gate l (Message.stream_data (suc _) row) c v = v
  listener_position_stream-Gate l Message.clear_deleted c v = record {
    database_ok = clear_position-IsValid c.database v.database_ok;
    linked = v.linked;
  }
  listener_position_stream-Gate l _ c v = record { database_ok = v.database_ok; linked = v.linked }
