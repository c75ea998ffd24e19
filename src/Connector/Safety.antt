-- ===== src/Connector/Safety.antt =====
-- PlazaConnector.cpp and PlazaCallbacks.cpp: well-formed connectors, and the steps that the callbacks
-- share.
pub mod Market
pub mod Trading
pub mod Replies
use simple_cgate.Base.{
  ℕ, inl, inr, Text, ◌≡◌, refl, Bool, true, false, Option, none, some, arith, Map, put, is_some,
  map_some, modify, nat_eq, text_eq, Action, deref, Holds, >>=-Holds, deref-Holds, Bool-cases,
  Grows-modify, ◌>>=◌, if◌then◌else◌,
}
use simple_cgate.Entities.Platform.{Platform}
use simple_cgate.Entities.Security.{Security}
use simple_cgate.Entities.Order.{Order}
use simple_cgate.Entities.Trade.{Trade}
use simple_cgate.Entities.Position.{Position}
use simple_cgate.Entities.Money.{Money}
use simple_cgate.Events.{EventType}
use simple_cgate.Database.{
  get_order, get_position, is_position_exist, Database, write_security, write_order, write_trade,
  write_position, write_money, create_order, create_trade, create_security, create_position,
  clear_position,
}
use simple_cgate.Database.Valid.{IsValid}
use simple_cgate.Database.Writes.{
  write_security-IsValid, write_order-IsValid, write_trade-IsValid, write_position-IsValid,
}
use simple_cgate.Database.Creates.{
  MakesPosition, create_security-Makes, create_order-Makes, create_trade-Makes,
  create_position-Makes,
}
use simple_cgate.Database.Grows.{
  create_security-HeapGrows, create_order-HeapGrows, create_trade-HeapGrows,
  create_position-HeapGrows,
}
use simple_cgate.Connector.{
  Connector, security_at, add_security_event, send_event, is_security_id, get_security_by_id,
  call_database, position_for, on_database, add_order_event, add_my_trade_event, add_position_event,
  add_quote_event, order_for,
}

module _ {D : Type 0} where
  -- The database is well formed, and every linked id leads to a security.
  pub record IsGate (c : Connector D) : Type 0 where
    pub database_ok : IsValid c.database
    pub linked :
        (id p : ℕ) → c.securities_id id ≡ some p → is_some (c.database.heap.securities p) ≡ true

  -- A well-formed connector in which an address leads to an object of the class.
  abbrev pub SecurityLive : ℕ → Connector D → Type 0
  SecurityLive p c = IsGate c × (is_some (c.database.heap.securities p) ≡ true)

  abbrev pub OrderLive : ℕ → Connector D → Type 0
  OrderLive p c = IsGate c × (is_some (c.database.heap.orders p) ≡ true)

  abbrev pub TradeLive : ℕ → Connector D → Type 0
  TradeLive p c = IsGate c × (is_some (c.database.heap.trades p) ≡ true)

  abbrev pub PositionLive : ℕ → Connector D → Type 0
  PositionLive p c = IsGate c × (is_some (c.database.heap.positions p) ≡ true)

  -- What a callback leaves behind.
  abbrev pub Gate : Unit {0} → Connector D → Type 0
  Gate _ c = IsGate c

  -- Only the database and the links matter.
  pub IsGate-same :
      (c c' : Connector D)
      → c'.database ≡ c.database
      → c'.securities_id ≡ c.securities_id
      → IsGate c
      → IsGate c'
  IsGate-same c c' e e' v = record {
    database_ok = rw e v.database_ok;
    linked = rw (e, e') v.linked;
  }

  pub write_security-Live :
      (p : ℕ) (f : Security D → Security D) (c : Connector D)
      → ((s : Security D) → (f s).isin ≡ s.isin)
      → SecurityLive p c
      → SecurityLive p (record c { database = write_security p f c.database })
  write_security-Live p f c same (v, live) = (
    record {
      database_ok = write_security-IsValid p f same c.database v.database_ok;
      linked = λ id q e. Grows-modify p f c.database.heap.securities q (v.linked id q e);
    },
    Grows-modify p f c.database.heap.securities p live,
  )

  pub write_order-Live :
      (p : ℕ) (f : Order D → Order D) (c : Connector D)
      → ((o : Order D) → ((f o).user_id ≡ o.user_id) × ((f o).security ≡ o.security))
      → OrderLive p c
      → OrderLive p (record c { database = write_order p f c.database })
  write_order-Live p f c same (v, live) = (
    record {
      database_ok = write_order-IsValid p f same c.database v.database_ok;
      linked = v.linked;
    },
    Grows-modify p f c.database.heap.orders p live,
  )

  pub write_trade-Live :
      (p : ℕ) (f : Trade D → Trade D) (c : Connector D)
      → ((t : Trade D)
          → ((f t).id ≡ t.id) × ((f t).security ≡ t.security) × ((f t).order ≡ t.order))
      → TradeLive p c
      → TradeLive p (record c { database = write_trade p f c.database })
  write_trade-Live p f c same (v, live) = (
    record {
      database_ok = write_trade-IsValid p f same c.database v.database_ok;
      linked = v.linked;
    },
    Grows-modify p f c.database.heap.trades p live,
  )

  pub write_position-Live :
      (p : ℕ) (f : Position D → Position D) (c : Connector D)
      → ((x : Position D) → (f x).security ≡ x.security)
      → PositionLive p c
      → PositionLive p (record c { database = write_position p f c.database })
  write_position-Live p f c same (v, live) = (
    record {
      database_ok = write_position-IsValid p f same c.database v.database_ok;
      linked = v.linked;
    },
    Grows-modify p f c.database.heap.positions p live,
  )

  pub add_order_event-Gate :
      (p : ℕ) (c : Connector D) → OrderLive p c → Holds Gate (add_order_event p c)
  add_order_event-Gate p c (v, live) =
      >>=-Holds (λ _. IsGate) Gate (deref (λ (d : Connector D). d.database.heap.orders p))
        (λ x. send_event EventType.order_change x.global_id) c
        (deref-Holds (λ _. IsGate) (λ (d : Connector D). d.database.heap.orders p) c live
          (λ _ _. v))
        (λ _ d w. record { database_ok = w.database_ok; linked = w.linked })

  pub add_my_trade_event-Gate :
      (p : ℕ) (c : Connector D) → TradeLive p c → Holds Gate (add_my_trade_event p c)
  add_my_trade_event-Gate p c (v, live) =
      >>=-Holds (λ _. IsGate) Gate (deref (λ (d : Connector D). d.database.heap.trades p))
        (λ x. send_event EventType.my_trade_add x.global_id) c
        (deref-Holds (λ _. IsGate) (λ (d : Connector D). d.database.heap.trades p) c live
          (λ _ _. v))
        (λ _ d w. record { database_ok = w.database_ok; linked = w.linked })

  pub add_position_event-Gate :
      (p : ℕ) (c : Connector D) → PositionLive p c → Holds Gate (add_position_event p c)
  add_position_event-Gate p c (v, live) =
      >>=-Holds (λ _. IsGate) Gate (deref (λ (d : Connector D). d.database.heap.positions p))
        (λ x. send_event EventType.position_change x.global_id) c
        (deref-Holds (λ _. IsGate) (λ (d : Connector D). d.database.heap.positions p) c live
          (λ _ _. v))
        (λ _ d w. record { database_ok = w.database_ok; linked = w.linked })

  pub add_quote_event-Gate :
      (p : ℕ) (c : Connector D) → SecurityLive p c → Holds Gate (add_quote_event p c)
  add_quote_event-Gate p c (v, live) =
      >>=-Holds (λ _. IsGate) Gate (deref (λ (d : Connector D). d.database.heap.securities p))
        (λ x. send_event EventType.quote_change x.global_id) c
        (deref-Holds (λ _. IsGate) (λ (d : Connector D). d.database.heap.securities p) c live
          (λ _ _. v))
        (λ _ d w. record { database_ok = w.database_ok; linked = w.linked })

  pub add_security_event-Gate :
      (p : ℕ) (c : Connector D) → SecurityLive p c → Holds Gate (add_security_event p c)
  add_security_event-Gate p c (v, live) =
      >>=-Holds (λ _. IsGate) Gate (deref (λ (d : Connector D). d.database.heap.securities p))
        (λ x. send_event EventType.security_add x.global_id) c
        (deref-Holds (λ _. IsGate) (λ (d : Connector D). d.database.heap.securities p) c live
          (λ _ _. v))
        (λ _ d w. record { database_ok = w.database_ok; linked = w.linked })

  -- A linked id leads to a security.
  pub get_security_by_id-Live :
      (id : ℕ) (c : Connector D)
      → is_security_id id c ≡ true
      → IsGate c
      → Holds SecurityLive (get_security_by_id id c)
  get_security_by_id-Live id c e v =
      deref-Holds SecurityLive (λ (d : Connector D). d.securities_id id) c e
        (λ p e'. (v, v.linked id p e'))

module _ {D : Type 0} ⦃num : Platform D⦄ where
  -- What a creation leaves behind, for the connector that made it.
  create_order-Live :
      (user_id sec : ℕ) (c : Connector D)
      → SecurityLive sec c
      → Holds OrderLive (call_database (create_order user_id sec) c)
  create_order-Live user_id sec c (v, live) =
      let m = create_order-Makes user_id sec c.database live v.database_ok in
      let w = create_order-HeapGrows user_id sec c.database in
      (record { database_ok = m.0; linked = λ id q e. w.securities_grow q (v.linked id q e) }, m.1)

  pub create_trade-Live :
      (id sec ord : ℕ) (c : Connector D)
      → SecurityLive sec c
      → OrderLive ord c
      → Holds TradeLive (call_database (create_trade id sec ord) c)
  create_trade-Live id sec ord c (v, live) (_, live_order) =
      let m = create_trade-Makes id sec ord c.database live live_order v.database_ok in
      let w = create_trade-HeapGrows id sec ord c.database in
      (record { database_ok = m.0; linked = λ j q e. w.securities_grow q (v.linked j q e) }, m.1)

  pub create_security-Live :
      (name : Text) (c : Connector D)
      → IsGate c
      → Holds SecurityLive (call_database (create_security name) c)
  create_security-Live name c v =
      let m = create_security-Makes name c.database v.database_ok in
      let w = create_security-HeapGrows name c.database in
      (record { database_ok = m.0; linked = λ j q e. w.securities_grow q (v.linked j q e) }, m.1)

  -- An order that is found or made; the security stays where it was.
  abbrev pub OrderAndSecurity : ℕ → ℕ → Connector D → Type 0
  OrderAndSecurity sec p c = OrderLive p c × (is_some (c.database.heap.securities sec) ≡ true)

  pub order_for-Live :
      (user_id sec : ℕ) (c : Connector D)
      → SecurityLive sec c
      → Holds (OrderAndSecurity sec) (order_for user_id sec c)
  unfolding order_for
  order_for-Live user_id sec c (v, live) = go (c.database.orders user_id) refl
    where
      go :
          (o : Option ℕ)
          → c.database.orders user_id ≡ o
          → Holds (OrderAndSecurity sec) (order_for user_id sec c)
      go none e =
          rw (e, order_for)
            (
              create_order-Live user_id sec c (v, live),
              (create_order-HeapGrows user_id sec c.database).securities_grow sec live,
            )
      go (some p) e =
          rw (e, order_for)
            (deref-Holds (OrderAndSecurity sec) (λ (d : Connector D). get_order user_id d.database)
              c (rw e refl)
              (λ q e'. ((v, ground (arith, v.database_ok.orders_ok user_id q)), live)))

  position_known :
      (name : Text) (c : Connector D)
      → is_position_exist name c.database ≡ true
      → IsGate c
      → Holds PositionLive (deref (λ (d : Connector D). get_position name d.database) c)
  position_known name c e v =
      deref-Holds PositionLive (λ (d : Connector D). get_position name d.database) c e
        (λ q e'. (v, ground (arith, v.database_ok.positions_ok name q)))

  position_made :
      (sec : ℕ) (c : Connector D)
      → SecurityLive sec c
      → Holds PositionLive (
          map_some
            (λ (r : ℕ × Database D). (r.0, record c { database = r.1 }))
            (create_position sec c.database))
  position_made sec c (v, live) =
      go (create_position sec c.database) refl
        (create_position-Makes sec c.database live v.database_ok)
    where
      go :
          (o : Option (ℕ × Database D))
          → create_position sec c.database ≡ o
          → Holds (λ p db. MakesPosition (p, db)) o
          → Holds PositionLive
              (map_some (λ (r : ℕ × Database D). (r.0, record c { database = r.1 })) o)
      go none e m = m
      go (some (p, db)) e m =
          let w = create_position-HeapGrows sec p c.database db e in
          (
            record { database_ok = m.0; linked = λ j q u. w.securities_grow q (v.linked j q u) },
            m.1,
          )

  -- A position that is found or made.
  pub position_for-Live :
      (sec : ℕ) (c : Connector D) → SecurityLive sec c → Holds PositionLive (position_for sec c)
  unfolding position_for
  position_for-Live sec c (v, live) =
      >>=-Holds (λ _ d. d ≡ c) PositionLive (security_at sec)
        (λ s d.
          if is_position_exist s.isin d.database
          then deref (λ (x : Connector D). get_position s.isin x.database) d
          else map_some (λ (r : ℕ × Database D). (r.0, record d { database = r.1 }))
              (create_position sec d.database))
        c
        (deref-Holds (λ _ d. d ≡ c) (λ (d : Connector D). d.database.heap.securities sec) c live
          (λ _ _. refl))
        λ s d same. rw same (branch s.isin)
    where
      branch :
          (name : Text)
          → Holds PositionLive (
              if is_position_exist name c.database
              then deref (λ (x : Connector D). get_position name x.database) c
              else map_some
                  (λ (r : ℕ × Database D). (r.0, record c { database = r.1 }))
                  (create_position sec c.database))
      branch name = elim (Bool-cases (is_position_exist name c.database)) [
        | inl e ↦ rw e (position_known name c e v)
        | inr e ↦ rw e (position_made sec c (v, live))
      ]
