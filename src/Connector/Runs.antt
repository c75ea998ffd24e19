-- ===== src/Connector/Runs.antt =====
-- PlazaCallbacks.cpp: sequences of callbacks.
use simple_cgate.Base.{ℕ, ◌≡◌, false, some, List, [], ◌∷◌, Holds, Holds-map, >>=-Holds, Text}
use simple_cgate.Base.Words.{lt_i32}
use simple_cgate.Entities.Platform.{Platform}
use simple_cgate.Entities.Trade.{Trade}
use simple_cgate.Streams.Kept.{states}
use simple_cgate.Database.{get_order, get_trade, get_security}
use simple_cgate.Connector.{Connector}
use simple_cgate.Connector.Safety.{IsGate}
use simple_cgate.Connector.Callbacks.{Callback, deliver, deliver_all, deliver-Gate}
use simple_cgate.Connector.Keeps.{Keeps, Keeps-refl, Keeps-trans}
use simple_cgate.Connector.Keeps.Callbacks.{deliver-Keeps}

module _ {D : Type 0} ⦃num : Platform D⦄ where
  -- A callback ends, leaves a well-formed connector, and takes what held before to what holds after.
  pub deliver-Holds :
      (P : Connector D → Type 0)
      → ((cb : Callback) (c c' : Connector D)
          → IsGate c
          → P c
          → deliver cb c ≡ some (tt, c')
          → P c')
      → (cb : Callback) (c : Connector D) → IsGate c
      → P c
      → Holds (λ _ c'. IsGate c' × P c') (deliver cb c)
  deliver-Holds P step cb c v h =
      Holds-map IsGate (λ c'. IsGate c' × P c') (deliver cb c) (deliver-Gate cb c v)
        (λ c' e w. (w, step cb c c' v h e))

  -- So it is for a sequence of them.
  pub deliver_all-Holds :
      (P : Connector D → Type 0)
      → ((cb : Callback) (c c' : Connector D)
          → IsGate c
          → P c
          → deliver cb c ≡ some (tt, c')
          → P c')
      → (cbs : List Callback) (c : Connector D) → IsGate c
      → P c
      → Holds (λ _ c'. IsGate c' × P c') (deliver_all cbs c)
  unfolding deliver_all
  deliver_all-Holds P step [] c v h = (v, h)
  deliver_all-Holds P step (cb ∷ cbs) c v h =
      >>=-Holds (λ _ c'. IsGate c' × P c') (λ _ c'. IsGate c' × P c') (deliver cb)
        (λ _. deliver_all cbs) c (deliver-Holds P step cb c v h)
        (λ _ d w. deliver_all-Holds P step cbs d w.0 w.1)

  deliver_all-Keeps :
      (cbs : List Callback) (c : Connector D)
      → IsGate c
      → Holds (λ _ c'. IsGate c' × Keeps c c') (deliver_all cbs c)
  deliver_all-Keeps cbs c v =
      deliver_all-Holds (Keeps c)
        (λ cb d d' w k e. Keeps-trans c d d' k (deliver-Keeps cb d d' w e)) cbs c v (Keeps-refl c)

  kept :
      (cbs : List Callback) (c : Connector D) (Q : Connector D → Type 0)
      → IsGate c
      → ((c' : Connector D) → Keeps c c' → Q c')
      → Holds (λ _ c'. Q c') (deliver_all cbs c)
  kept cbs c Q v f =
      Holds-map (λ c'. IsGate c' × Keeps c c') Q (deliver_all cbs c) (deliver_all-Keeps cbs c v)
        (λ c' e w. f c' w.1)

  -- Every sequence of callbacks on a well-formed connector ends, and the session that the connector
  -- knows is then no older than it was.
  pub deliver_all-last_sess_id :
      (cbs : List Callback) (c : Connector D)
      → IsGate c
      → Holds (λ _ c'. lt_i32 c'.last_sess_id c.last_sess_id ≡ false) (deliver_all cbs c)
  deliver_all-last_sess_id cbs c v = kept cbs c _ v (λ c' k. k.session)

  -- Every sequence of callbacks on a well-formed connector ends, and an order that was known under a
  -- user's id is then still the object known under this id.
  pub deliver_all-get_order :
      (cbs : List Callback) (c : Connector D) (user_id p : ℕ)
      → IsGate c
      → get_order user_id c.database ≡ some p
      → Holds (λ _ c'. get_order user_id c'.database ≡ some p) (deliver_all cbs c)
  deliver_all-get_order cbs c user_id p v e = kept cbs c _ v (λ c' k. k.orders user_id p e)

  -- Every sequence of callbacks on a well-formed connector ends, and leaves a stored trade where it
  -- was and as it was: found under its id, with every field unchanged.
  pub deliver_all-get_trade :
      (cbs : List Callback) (c : Connector D) (id p : ℕ) (t : Trade D)
      → IsGate c
      → get_trade id c.database ≡ some p
      → c.database.heap.trades p ≡ some t
      → Holds
          (λ _ c'. (get_trade id c'.database ≡ some p) × (c'.database.heap.trades p ≡ some t))
          (deliver_all cbs c)
  deliver_all-get_trade cbs c id p t v e h =
      kept cbs c _ v (λ c' k. (k.trades id p e, k.deals p t h))

  -- Every sequence of callbacks on a well-formed connector ends, and an instrument that was found
  -- under its name and under the exchange's number is then still found under both.
  pub deliver_all-get_security :
      (cbs : List Callback) (c : Connector D) (name : Text) (isin_id p : ℕ)
      → IsGate c
      → get_security name c.database ≡ some p
      → c.securities_id isin_id ≡ some p
      → Holds
          (λ _ c'. (get_security name c'.database ≡ some p) × (c'.securities_id isin_id ≡ some p))
          (deliver_all cbs c)
  deliver_all-get_security cbs c name isin_id p v e h =
      kept cbs c _ v (λ c' k. (k.securities name p e, k.links isin_id p h))

  -- Every sequence of callbacks on a well-formed connector ends, and no stream's listener is then in
  -- another state than before: the messages that tell that a listener was opened, went online or was
  -- closed leave no trace, since the loop over the streams writes to copies.
  pub deliver_all-states :
      (cbs : List Callback) (c : Connector D)
      → IsGate c
      → Holds
          (λ _ c'.
            (states c'.service_stream.plaza_streams ≡ states c.service_stream.plaza_streams)
            × ((states c'.order_stream.plaza_streams ≡ states c.order_stream.plaza_streams)
                × (states c'.common_stream.plaza_streams ≡ states c.common_stream.plaza_streams)))
          (deliver_all cbs c)
  deliver_all-states cbs c v =
      kept cbs c _ v (λ c' k. (k.service_states, (k.order_states, k.common_states)))
