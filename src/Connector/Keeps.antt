-- ===== src/Connector/Keeps.antt =====
-- PlazaCallbacks.cpp: a relation between the connector before and after a callback, on the entries of
-- the database's maps, the links, the session, the states of the streams, and the trades.
pub mod Rows
pub mod Callbacks
use simple_cgate.Base.{
  ℕ, zero, suc, ◌+◌, ◌≡◌, refl, ap, ◌∙◌, arith, Bool, true, false, List, [], ◌∷◌, Option, none,
  some, nat_eq, Text, text_eq,
}
use simple_cgate.Base.Words.{lt_i32}
use simple_cgate.Entities.Trade.{Trade}
use simple_cgate.Connector.{Connector, listener_state_process, state_loop}
use simple_cgate.Database.{get_order, get_trade, get_security}
use simple_cgate.Streams.{Message, PlazaStream, DataStream}
use simple_cgate.Streams.Kept.{states}

module _ {D : Type 0} where
  pub record Keeps (c c' : Connector D) : Type 0 where
    pub session : lt_i32 c'.last_sess_id c.last_sess_id ≡ false
    pub orders : (k p : ℕ) → get_order k c.database ≡ some p → get_order k c'.database ≡ some p
    pub trades : (k p : ℕ) → get_trade k c.database ≡ some p → get_trade k c'.database ≡ some p
    pub securities :
        (k : Text) (p : ℕ)
        → get_security k c.database ≡ some p
        → get_security k c'.database ≡ some p
    pub links : (k p : ℕ) → c.securities_id k ≡ some p → c'.securities_id k ≡ some p
    pub deals :
        (p : ℕ) (t : Trade D)
        → c.database.heap.trades p ≡ some t
        → c'.database.heap.trades p ≡ some t
    pub service_states :
        states c'.service_stream.plaza_streams ≡ states c.service_stream.plaza_streams
    pub order_states : states c'.order_stream.plaza_streams ≡ states c.order_stream.plaza_streams
    pub common_states : states c'.common_stream.plaza_streams ≡ states c.common_stream.plaza_streams

  -- Only these parts matter.
  pub Keeps-same :
      (c c' : Connector D)
      → c'.database ≡ c.database
      → c'.securities_id ≡ c.securities_id
      → c'.last_sess_id ≡ c.last_sess_id
      → states c'.service_stream.plaza_streams ≡ states c.service_stream.plaza_streams
      → states c'.order_stream.plaza_streams ≡ states c.order_stream.plaza_streams
      → states c'.common_stream.plaza_streams ≡ states c.common_stream.plaza_streams
      → Keeps c c'
  Keeps-same c c' d i l e e₁ e₂ = record {
    session = ground arith;
    orders = λ k p h. ground arith;
    trades = λ k p h. ground arith;
    securities = λ k p h. ground arith;
    links = λ k p h. ground arith;
    deals = λ p t h. ground arith;
    service_states = e;
    order_states = e₁;
    common_states = e₂;
  }

  pub Keeps-refl : (c : Connector D) → Keeps c c
  Keeps-refl c = Keeps-same c c refl refl refl refl refl refl

  pub Keeps-trans : (a b c : Connector D) → Keeps a b → Keeps b c → Keeps a c
  Keeps-trans a b c x y = record {
    session = ground (arith, x.session, y.session);
    orders = λ k p h. y.orders k p (x.orders k p h);
    trades = λ k p h. y.trades k p (x.trades k p h);
    securities = λ k p h. y.securities k p (x.securities k p h);
    links = λ k p h. y.links k p (x.links k p h);
    deals = λ p t h. y.deals p t (x.deals p t h);
    service_states = y.service_states ∙ x.service_states;
    order_states = y.order_states ∙ x.order_states;
    common_states = y.common_states ∙ x.common_states;
  }

pub irreflexive : (n : ℕ) → lt_i32 n n ≡ false
irreflexive n = ground arith

state_loop-same :
    {A : Type 0} (l : ℕ) (msg : Message A) (ss : List PlazaStream) → state_loop l msg ss ≡ ss
unfolding state_loop
state_loop-same l msg [] = refl
state_loop-same l msg (s ∷ ss) = ap (λ r. s ∷ r) (state_loop-same l msg ss)

-- The loop over a listener's streams writes to copies: no message changes the state, the life number
-- or the replication state of any stream.
pub listener_state_process-same :
    {A : Type 0} (l : ℕ) (msg : Message A) (s : DataStream) → listener_state_process l msg s ≡ s
unfolding listener_state_process
listener_state_process-same l msg s = rw (state_loop-same l msg s.plaza_streams) refl
