-- ===== src/Server/Ends.antt =====
-- DataServer.cpp: when the server can process an event.
use simple_cgate.Base.{
  Bool-cases, Text, take, zero, suc, [], ◌∷◌, ◌≢◌, ℕ, ◌≤◌, ◌≡◌, inl, inr, refl, arith, true, Option,
  some, is_some, length, ◌==◌, nat_eq,
}
use simple_cgate.Entities.Platform.{Platform}
use simple_cgate.Entities.Security.{Security}
use simple_cgate.Database.{Database, security, order, trade, position, strategy}
use simple_cgate.Database.Valid.{IsValid}
use simple_cgate.Events.{Event, event, command, EventType}
use simple_cgate.Server.{DataServer, event_process, for_object}
use simple_cgate.Server.Messages.{Message}
use simple_cgate.Entities.Strategy.{Strategy}
use simple_cgate.Server.Fill.{
  strategy_data, security_by_id, order_by_id, trade_by_id, position_by_id, strategy_by_id,
}

module _ {D : Type 0} where
  -- An instrument whose code fits into the 26 bytes.
  abbrev Fits : ℕ → Database D → Type 0
  Fits p db = (sec : Security D) → db.heap.securities p ≡ some sec → length sec.isin ≤ 26

  -- Where the event is about an object, its id is that of an object of its class.
  abbrev pub IsNamed : Event → Database D → Type 0
  IsNamed (event EventType.security_add g) db =
      g ≢ 0 → (p : ℕ) × (db.entities g ≡ some (security p)) × Fits p db
  IsNamed (event EventType.quote_change g) db =
      g ≢ 0 → (p : ℕ) × (db.entities g ≡ some (security p)) × Fits p db
  IsNamed (event EventType.new_strategy g) db =
      g ≢ 0 → (p : ℕ) × (db.entities g ≡ some (strategy p))
  IsNamed (event EventType.strategy_change g) db =
      g ≢ 0 → (p : ℕ) × (db.entities g ≡ some (strategy p))
  IsNamed (event EventType.my_trade_add g) db = g ≢ 0 → (p : ℕ) × (db.entities g ≡ some (trade p))
  IsNamed (event EventType.position_change g) db =
      g ≢ 0 → (p : ℕ) × (db.entities g ≡ some (position p))
  IsNamed (event EventType.order_change g) db = g ≢ 0 → (p : ℕ) × (db.entities g ≡ some (order p))
  IsNamed _ db = Unit

take-length : (n : ℕ) (t : Text) → length (take n t) ≤ n
take-length zero t = omega arith
take-length (suc n) [] = omega arith
take-length (suc n) (b ∷ t) = omega (arith, take-length n t)

strategy_data-is_some :
    (D : Type 0) ⦃num : Platform D⦄ (str : Strategy) → is_some (strategy_data {D = D} str) ≡ true
strategy_data-is_some D str = grind (arith, take-length 10 str.name)

module _ {D : Type 0} ⦃num : Platform D⦄ where
  for_object-is_some :
      (g : ℕ) (found : Option (Message D)) (f : Message D → DataServer D) (s : DataServer D)
      → (g ≢ 0 → is_some found ≡ true)
      → is_some (for_object g found f s) ≡ true
  for_object-is_some g found f s h = elim (Bool-cases (g == 0)) [
    | inl e ↦ rw e refl
    | inr e ↦ rw e (ground (arith, h (grind arith)))
  ]

  security_by_id-is_some :
      (g p : ℕ) (db : Database D)
      → IsValid db
      → db.entities g ≡ some (security p)
      → Fits p db
      → is_some (security_by_id g db) ≡ true
  security_by_id-is_some g p db v e fits = grind (arith, v.entities_ok g (security p) e, fits)

  order_by_id-is_some :
      (g p : ℕ) (db : Database D)
      → IsValid db
      → db.entities g ≡ some (order p)
      → is_some (order_by_id g db) ≡ true
  order_by_id-is_some g p db v e =
      grind (arith, v.entities_ok g (order p) e, v.heap_ok.order_security p)

  trade_by_id-is_some :
      (g p : ℕ) (db : Database D)
      → IsValid db
      → db.entities g ≡ some (trade p)
      → is_some (trade_by_id g db) ≡ true
  trade_by_id-is_some g p db v e =
      grind (arith, v.entities_ok g (trade p) e, v.heap_ok.trade_security p)

  position_by_id-is_some :
      (g p : ℕ) (db : Database D)
      → IsValid db
      → db.entities g ≡ some (position p)
      → is_some (position_by_id g db) ≡ true
  position_by_id-is_some g p db v e =
      grind (arith, v.entities_ok g (position p) e, v.heap_ok.position_security p)

  strategy_by_id-is_some :
      (g p : ℕ) (db : Database D)
      → IsValid db
      → db.entities g ≡ some (strategy p)
      → is_some (strategy_by_id g db) ≡ true
  strategy_by_id-is_some g p db v e =
      grind (arith, v.entities_ok g (strategy p) e, strategy_data-is_some D)

  -- On a well-formed database the server processes every event that names an object of its class, or
  -- none: no lookup is null, and every text fits into its field.
  pub event_process-is_some :
      (ev : Event) (db : Database D) (s : DataServer D)
      → IsValid db
      → IsNamed ev db
      → is_some (event_process ev db s) ≡ true
  unfolding event_process
  event_process-is_some (command c) db s v n = refl
  event_process-is_some (event EventType.security_add g) db s v n =
      for_object-is_some g _ _ s λ h. security_by_id-is_some g (n h).0 db v (n h).1 (n h).2
  event_process-is_some (event EventType.quote_change g) db s v n =
      for_object-is_some g _ _ s λ h. security_by_id-is_some g (n h).0 db v (n h).1 (n h).2
  event_process-is_some (event EventType.new_strategy g) db s v n =
      for_object-is_some g _ _ s λ h. strategy_by_id-is_some g (n h).0 db v (n h).1
  event_process-is_some (event EventType.strategy_change g) db s v n =
      for_object-is_some g _ _ s λ h. strategy_by_id-is_some g (n h).0 db v (n h).1
  event_process-is_some (event EventType.my_trade_add g) db s v n =
      for_object-is_some g _ _ s λ h. trade_by_id-is_some g (n h).0 db v (n h).1
  event_process-is_some (event EventType.order_change g) db s v n =
      for_object-is_some g _ _ s λ h. order_by_id-is_some g (n h).0 db v (n h).1
  event_process-is_some (event EventType.position_change g) db s v n =
      for_object-is_some g _ _ s λ h. position_by_id-is_some g (n h).0 db v (n h).1
  event_process-is_some (event EventType.money_change g) db s v n = ground arith
  event_process-is_some (event EventType.position_clear g) db s v n = refl
  event_process-is_some (event EventType.none g) db s v n = refl
  event_process-is_some (event EventType.new_session g) db s v n = refl
  event_process-is_some (event EventType.disconnect g) db s v n = refl
  event_process-is_some (event EventType.connect g) db s v n = refl
