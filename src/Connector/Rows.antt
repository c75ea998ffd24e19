-- ===== src/Connector/Rows.antt =====
-- PlazaStructures.h and PlazaMessages.h: the rows of the replicated tables and the replies of the
-- exchange, with the fields that the callbacks read. A field of type `d` is its encoded bytes.
use simple_cgate.Base.{ℕ, Text}
use simple_cgate.Entities.DateTime.{DateTime, date_time}

-- `cg_time_t`, and `ConvertToTime`.
pub record CgTime : Type 0 where
  pub year : ℕ
  pub month : ℕ
  pub day : ℕ
  pub hour : ℕ
  pub minute : ℕ
  pub second : ℕ
  pub msec : ℕ

abbrev pub convert_to_time : CgTime → DateTime
convert_to_time t = date_time t.year t.month t.day t.hour t.minute t.second t.msec

pub record Part : Type 0 where
  pub coeff_go : Text
  pub money_amount : Text
  pub money_free : Text
  pub money_blocked : Text
  pub fee : Text

pub record FutVm : Type 0 where
  pub isin_id : ℕ
  pub vm_real : Text

pub record PositionRow : Type 0 where
  pub isin_id : ℕ
  pub open_qty : ℕ
  pub buys_qty : ℕ
  pub sells_qty : ℕ
  pub pos : ℕ
  pub waprice : Text

pub record FutSessContents : Type 0 where
  pub sess_id : ℕ
  pub isin_id : ℕ
  pub isin : Text
  pub limit_up : Text
  pub limit_down : Text
  pub buy_deposit : Text
  pub sell_deposit : Text
  pub roundto : ℕ
  pub min_step : Text
  pub step_price : Text
  pub last_cl_quote : Text
  pub state : ℕ
  pub multileg_type : ℕ

pub record FutCommon : Type 0 where
  pub isin_id : ℕ
  pub best_buy : Text
  pub amount_buy : ℕ
  pub best_sell : Text
  pub amount_sell : ℕ

pub record MyOrdersLog : Type 0 where
  pub isin_id : ℕ
  pub amount : ℕ
  pub amount_rest : ℕ
  pub price : Text
  pub moment : CgTime
  pub dir : ℕ
  pub action : ℕ
  pub ext_id : ℕ

pub record MyMultilegOrdersLog : Type 0 where
  pub isin_id : ℕ
  pub amount : ℕ
  pub amount_rest : ℕ
  pub moment : CgTime
  pub dir : ℕ
  pub action : ℕ
  pub swap_price : Text
  pub ext_id : ℕ

pub record MultilegDeal : Type 0 where
  pub isin_id : ℕ
  pub id_deal : ℕ
  pub amount : ℕ
  pub swap_price : Text
  pub moment : CgTime
  pub ext_id_buy : ℕ
  pub ext_id_sell : ℕ

pub record UserDeal : Type 0 where
  pub isin_id : ℕ
  pub id_deal : ℕ
  pub amount : ℕ
  pub price : Text
  pub moment : CgTime
  pub ext_id_buy : ℕ
  pub ext_id_sell : ℕ

-- A row of FORTS_FUTTRADE_REPL: the index of a message tells which table it is; the rows of other tables
-- are not read.
pub data TradeRow : Type 0 where
  orders_log : MyOrdersLog → TradeRow
  multileg_orders_log : MyMultilegOrdersLog → TradeRow
  multileg_deal : MultilegDeal → TradeRow
  user_deal : UserDeal → TradeRow
  other_table : TradeRow

-- A reply to a posted message (`cg_msg_data_t`), with the code and the order's id of its body; in the
-- reply to a move that is `order_id1`.
pub record Reply : Type 0 where
  pub user_id : ℕ
  pub msg_id : ℕ
  pub code : ℕ
  pub order_id : ℕ

pub data PublisherMessage : Type 0 where
  message_data : Reply → PublisherMessage
  timeout other : PublisherMessage
