-- ===== src/Database/Valid.antt =====
-- Well-formed databases: no map and no object refers to nothing, and what stands under a key has it.
use simple_cgate.Base.{
  ℕ, ◌≡◌, Bool, true, Option, some, Text, arith, Map, put, is_some, bind_some, nat_eq, text_eq,
  Fresh, Keyed, Refers, Grows,
}
use simple_cgate.Entities.Security.{Security}
use simple_cgate.Entities.Order.{Order}
use simple_cgate.Entities.Trade.{Trade}
use simple_cgate.Entities.Position.{Position}
use simple_cgate.Database.{Database, Heap, Entity, security, order, trade, position, strategy}

module _ {D : Type 0} where
  -- The keys under which the maps hold an object.
  abbrev pub isin_of : Security D → Option Text
  isin_of s = some s.isin

  abbrev pub user_id_of : Order D → Option ℕ
  user_id_of o = some o.user_id

  abbrev pub trade_id_of : Trade D → Option ℕ
  trade_id_of t = some t.id

  -- A position's key is the isin of its security.
  abbrev pub position_key : Map ℕ (Security D) → Position D → Option Text
  position_key h p = bind_some (h p.security) isin_of

  abbrev pub is_entity_live : Heap D → Entity → Bool
  is_entity_live h (security p) = is_some (h.securities p)
  is_entity_live h (order p) = is_some (h.orders p)
  is_entity_live h (trade p) = is_some (h.trades p)
  is_entity_live h (position p) = is_some (h.positions p)
  is_entity_live h (strategy p) = is_some (h.strategies p)

  -- The heap: no object above the next address, and no object refers to a missing one.
  pub record IsHeap (h : Heap D) : Type 0 where
    pub fresh_securities : Fresh h.next h.securities
    pub fresh_orders : Fresh h.next h.orders
    pub fresh_trades : Fresh h.next h.trades
    pub fresh_positions : Fresh h.next h.positions
    pub order_security : Refers (λ (o : Order D). o.security) h.orders h.securities
    pub trade_security : Refers (λ (t : Trade D). t.security) h.trades h.securities
    pub trade_order : Refers (λ (t : Trade D). t.order) h.trades h.orders
    pub position_security : Refers (λ (p : Position D). p.security) h.positions h.securities

  pub record IsValid (db : Database D) : Type 0 where
    pub heap_ok : IsHeap db.heap
    pub securities_ok : Keyed isin_of db.securities db.heap.securities
    pub orders_ok : Keyed user_id_of db.orders db.heap.orders
    pub trades_ok : Keyed trade_id_of db.my_trades db.heap.trades
    pub positions_ok : Keyed (position_key db.heap.securities) db.positions db.heap.positions
    pub entities_ok :
        (g : ℕ) (e : Entity) → db.entities g ≡ some e → is_entity_live db.heap e ≡ true

  -- Objects are never lost.
  pub record HeapGrows (h h' : Heap D) : Type 0 where
    pub securities_grow : Grows h.securities h'.securities
    pub orders_grow : Grows h.orders h'.orders
    pub trades_grow : Grows h.trades h'.trades
    pub positions_grow : Grows h.positions h'.positions
    pub strategies_grow : Grows h.strategies h'.strategies

  pub is_entity_live-HeapGrows :
      (h h' : Heap D) (e : Entity)
      → HeapGrows h h'
      → is_entity_live h e ≡ true
      → is_entity_live h' e ≡ true
  is_entity_live-HeapGrows h h' (security p) w l = w.securities_grow p l
  is_entity_live-HeapGrows h h' (order p) w l = w.orders_grow p l
  is_entity_live-HeapGrows h h' (trade p) w l = w.trades_grow p l
  is_entity_live-HeapGrows h h' (position p) w l = w.positions_grow p l
  is_entity_live-HeapGrows h h' (strategy p) w l = w.strategies_grow p l

  -- A new entry of `entities` must name an object; other members may be anything.
  pub put-entity-IsValid :
      (db : Database D) (g n : ℕ) (e : Entity)
      → is_entity_live db.heap e ≡ true
      → IsValid db
      → IsValid (record db { global_id = n; entities = put g e db.entities })
  put-entity-IsValid db g n e live v = record {
    heap_ok = v.heap_ok;
    securities_ok = v.securities_ok;
    orders_ok = v.orders_ok;
    trades_ok = v.trades_ok;
    positions_ok = v.positions_ok;
    entities_ok = λ j d u. ground (arith, v.entities_ok j d);
  }
