-- ===== src/Transactions/Posting.antt =====
-- TransactionManager.cpp: `PostNewOrder`, `PostCancelOrder`, `PostMoveOrder` and what they prepare.
use simple_cgate.Base.{
  ℕ, Bool, true, false, Option, none, some, [], ◌∷◌, ◌++◌, Text, codes, length, ltb, ◌||◌, ◌==◌,
  nat_eq, if◌then◌else◌, bind_some, map_some,
}
use simple_cgate.Base.Words.{is_negative}
use simple_cgate.Entities.Platform.{Platform}
use simple_cgate.Entities.Security.{Security, SecurityType, option, spread}
use simple_cgate.Entities.Order.{Order, OrderState, set_state, order_type_code, direction_code}
use simple_cgate.Entities.Price.{convert_price_to_str}
use simple_cgate.Database.{Database, write_order}
use simple_cgate.Streams.{CGate}
use simple_cgate.Transactions.{Posted, TransactionManager, fut_add, multileg_add, delete, move}

-- The bytes of a text in front of its terminator, and `strcpy_s` of them into a field of some size: a
-- text that does not fit ends the program.
abbrev pub c_string : Text → Text
c_string [] = []
c_string (c ∷ cs) = let rest = c_string cs in if c == 0 then [] else c ∷ rest

abbrev pub strcpy_s : ℕ → Text → Option Text
strcpy_s size t = let s = c_string t in if ltb (length s) size then some s else none

abbrev pub is_option : SecurityType → Bool
is_option option = true
is_option _ = false

abbrev is_spread : SecurityType → Bool
is_spread spread = true
is_spread _ = false

abbrev post : Posted → TransactionManager → TransactionManager
post x m = record m { posted = m.posted ++ x ∷ [] }

-- `cg_pub_msgnew`: where it fails, the message is null, and the posting functions below follow it; they
-- test it for null only afterwards.
abbrev pub new_message : CGate → Text → TransactionManager → Option (Unit {0})
new_message cg scheme m = bind_some m.publisher λ h. if cg.msg_new h scheme then some tt else none

-- A code that is copied into a field; the null pointer in its place is a fault of `strcpy_s`.
abbrev pub copied_code : ℕ → Option Text → Option Text
copied_code size code = bind_some code (strcpy_s size)

abbrev pub add_scheme : {D : Type 0} → Security D → Text
add_scheme s = if is_option s.type then codes "OptAddOrder" else codes "FutAddOrder"

abbrev pub delete_scheme : {D : Type 0} → Security D → Text
delete_scheme s = if is_option s.type then codes "OptDelOrder" else codes "FutDelOrder"

-- A price field of a new message, before anything is written to it.
abbrev blank_price : Text
blank_price = []

module _ {D : Type 0} ⦃num : Platform D⦄ (cg : CGate) where
  unfoldable pub prepare_fut_add_order : Order D → Security D → TransactionManager → Option Posted
  prepare_fut_add_order o s m = bind_some (new_message cg (add_scheme s) m) λ _.
      bind_some (copied_code 5 m.broker_code) λ broker. bind_some (strcpy_s 26 s.isin) λ isin.
        bind_some (copied_code 4 m.client_code) λ client.
          bind_some (convert_price_to_str o.price s blank_price) λ price. some (
            fut_add (record {
              scheme = add_scheme s;
              user_id = o.user_id;
              broker_code = broker;
              isin = isin;
              client_code = client;
              type = order_type_code o.type;
              dir = direction_code o.direction;
              amount = o.volume;
              price = price;
              ext_id = o.user_id;
            }))

  unfoldable pub prepare_multileg_order : Order D → Security D → TransactionManager → Option Posted
  prepare_multileg_order o s m = bind_some (new_message cg (codes "FutAddMultiLegOrder") m) λ _.
      bind_some (copied_code 5 m.broker_code) λ broker.
        bind_some (copied_code 4 m.client_code) λ client.
          bind_some (convert_price_to_str o.price s blank_price) λ price. some (
            multileg_add (record {
              user_id = o.user_id;
              broker_code = broker;
              trade_mode = 2;
              client_code = client;
              type = order_type_code o.type;
              dir = direction_code o.direction;
              amount = o.volume;
              sess_id = s.sess_id;
              isin_id = s.isin_id;
              rate_price = price;
              price = price;
              ext_id = o.user_id;
            }))

module _ {D : Type 0} ⦃num : Platform D⦄ (cg : CGate) where
  -- A posting gives the manager and the database afterwards: an order of no volume is marked failed.
  unfoldable pub post_new_order :
      ℕ → TransactionManager → Database D → Option (TransactionManager × Database D)
  unfolding prepare_fut_add_order prepare_multileg_order
  post_new_order order m db = bind_some (db.heap.orders order) λ o.
      if is_negative o.volume || o.volume == 0
      then some (m, write_order order (set_state OrderState.failed) db)
      else bind_some (db.heap.securities o.security) λ s.
        map_some (λ (x : Posted). (post x m, db))
          (if is_spread s.type
            then prepare_multileg_order cg o s m
            else prepare_fut_add_order cg o s m)

  unfoldable pub post_cancel_order :
      ℕ → TransactionManager → Database D → Option (TransactionManager × Database D)
  post_cancel_order order m db = bind_some (db.heap.orders order) λ o.
      bind_some (db.heap.securities o.security) λ s.
        bind_some (new_message cg (delete_scheme s) m) λ _.
          bind_some (copied_code 5 m.broker_code) λ broker. some (
            post
                (delete (record {
                  scheme = delete_scheme s;
                  user_id = o.user_id;
                  broker_code = broker;
                  order_id = o.id;
                }))
                m,
            db,
          )

  unfoldable pub post_move_order :
      ℕ → ℕ → TransactionManager → Database D → Option (TransactionManager × Database D)
  post_move_order old_order new_order m db =
      bind_some (new_message cg (codes "FutMoveOrder") m) λ _.
        bind_some (copied_code 5 m.broker_code) λ broker.
          bind_some (db.heap.orders new_order) λ new. bind_some (db.heap.orders old_order) λ old.
            bind_some (db.heap.securities new.security) λ s.
              bind_some (convert_price_to_str new.price s blank_price) λ price. some (
                post
                    (move (record {
                      user_id = new.user_id;
                      broker_code = broker;
                      regime = 1;
                      amount1 = new.volume;
                      ext_id1 = new.user_id;
                      order_id1 = old.id;
                      price1 = price;
                    }))
                    m,
                db,
              )
