-- ===== src/Transactions.antt =====
-- TransactionManager.h and TransactionManager.cpp: the queue of actions with orders, and the messages
-- that are posted for them. Orders and securities are addresses in the database's heap.
pub mod Kinds
pub mod Posting
pub mod Publisher
pub mod Queue
pub mod Drain
pub mod Process
pub mod Stopping
use simple_cgate.Base.{
  ℕ, zero, suc, Bool, true, false, Option, none, some, List, [], ◌∷◌, ◌++◌, Text, codes, take,
  length, ltb, ◌||◌, ◌==◌, nat_eq, if◌then◌else◌, bind_some, map_some, not,
}
use simple_cgate.Base.Words.{is_negative}
use simple_cgate.Entities.Platform.{Platform}
use simple_cgate.Entities.Security.{Security, SecurityType, option, spread}
use simple_cgate.Entities.Order.{
  Order, TradeDirection, buy, sell, OrderState, set_state, order_type_code, direction_code,
}
use simple_cgate.Entities.Price.{convert_price_to_str}
use simple_cgate.Database.{Database, write_order}
use simple_cgate.Streams.{CGate}
use simple_cgate.Streams.States.{DataStreamState}
use simple_cgate.Transactions.Kinds.{TransactionType}

pub record Transaction : Type 0 where
  pub type : TransactionType
  pub order_main : Option ℕ
  pub order_second : Option ℕ

-- The messages that are posted, with the fields that the source fills in. The first field is the
-- name of the message's scheme.
pub record AddMessage : Type 0 where
  pub scheme : Text
  pub user_id : ℕ
  pub broker_code : Text
  pub isin : Text
  pub client_code : Text
  pub type : ℕ
  pub dir : ℕ
  pub amount : ℕ
  pub price : Text
  pub ext_id : ℕ

pub record MultilegMessage : Type 0 where
  pub user_id : ℕ
  pub broker_code : Text
  pub trade_mode : ℕ
  pub client_code : Text
  pub type : ℕ
  pub dir : ℕ
  pub amount : ℕ
  pub sess_id : ℕ
  pub isin_id : ℕ
  pub rate_price : Text
  pub price : Text
  pub ext_id : ℕ

pub record DeleteMessage : Type 0 where
  pub scheme : Text
  pub user_id : ℕ
  pub broker_code : Text
  pub order_id : ℕ

pub record MoveMessage : Type 0 where
  pub user_id : ℕ
  pub broker_code : Text
  pub regime : ℕ
  pub amount1 : ℕ
  pub ext_id1 : ℕ
  pub order_id1 : ℕ
  pub price1 : Text

pub data Posted : Type 0 where
  fut_add : AddMessage → Posted
  multileg_add : MultilegMessage → Posted
  delete : DeleteMessage → Posted
  move : MoveMessage → Posted

-- `posted` is what went to `cg_pub_post`, the newest last.
pub record TransactionManager : Type 0 where
  pub publisher : Option ℕ
  pub listener : Option ℕ
  pub connection : Option ℕ
  pub state : DataStreamState
  pub transactions : List Transaction
  pub broker_code : Option Text
  pub client_code : Option Text
  pub exit : Bool
  pub posted : List Posted

-- The constructor. The handles and the state have no initial value: they are what the memory holds.
abbrev pub new_transaction_manager : TransactionManager → TransactionManager
new_transaction_manager memory = record memory {
  transactions = [];
  broker_code = none;
  client_code = none;
  exit = true;
  posted = [];
}

abbrev pub push : Transaction → TransactionManager → TransactionManager
push t m = record m { transactions = m.transactions ++ t ∷ [] }

unfoldable pub add_order : ℕ → TransactionManager → TransactionManager
add_order order =
    push (record { type = TransactionType.add; order_main = some order; order_second = none })

unfoldable pub cancel_order : ℕ → TransactionManager → TransactionManager
cancel_order order =
    push (record { type = TransactionType.cancel; order_main = some order; order_second = none })

abbrev same_direction : TradeDirection → TradeDirection → Bool
same_direction buy buy = true
same_direction sell sell = true
same_direction _ _ = false

-- The exchange cannot move an order to the other side: such a move is a cancellation and a new order.
unfoldable pub move_order :
    {D : Type 0} → Database D → ℕ → ℕ → TransactionManager → Option TransactionManager
unfolding add_order cancel_order
move_order db old_order new_order m = bind_some (db.heap.orders new_order) λ new.
    bind_some (db.heap.orders old_order) λ old.
      if same_direction new.direction old.direction
      then some (
          push
            (record {
              type = TransactionType.move;
              order_main = some old_order;
              order_second = some new_order;
            })
            m)
      else some (add_order new_order (cancel_order old_order m))

-- `StartPublisher`: the codes are copied once, five and four bytes with the terminator. A connection
-- that cannot be made throws: `none`.
unfoldable pub start_publisher :
    CGate → Text → Text → Text → TransactionManager → Option TransactionManager
start_publisher cg conn_str broker_code client_code m =
    map_some
      (λ c. record m {
        connection = some c;
        publisher = cg.lsn_new (
            codes
              "p2mq://FORTS_SRV;category=FORTS_MSG;name=srvlink;timeout=5000;scheme=|FILE|INI/forts_messages.ini|message");
        listener = cg.lsn_new (codes "p2mqreply://;ref=srvlink");
        broker_code = copied 5 broker_code m.broker_code;
        client_code = copied 4 client_code m.client_code;
        exit = false;
      })
      (cg.conn_new (conn_str ++ b'P' ∷ []))
  where
    copied : ℕ → Text → Option Text → Option Text
    copied size code none = some (take size (code ++ 0 ∷ []))
    copied size code (some old) = some old
