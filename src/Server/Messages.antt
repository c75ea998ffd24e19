-- ===== src/Server/Messages.antt =====
-- DataServer/MessageStructures.h: what the server sends to the GUI and receives from it. A message is
-- kept as its structure; only the request, which comes from outside, is read from its bytes.
use simple_cgate.Base.{
  ℕ, ◌+◌, ◌*◌, Bool, Option, none, some, List, [], ◌∷◌, ◌++◌, Text, length, set, replicate, ltb,
  ◌-◌, if◌then◌else◌, ◌/◌, ◌%◌,
}
use simple_cgate.Entities.DateTime.{DateStruct, TimeStruct}

pub data DataType : Type 0 where
  security position trade order money strategy server position_clear request : DataType

abbrev pub data_type_code : DataType → ℕ
data_type_code security = 1
data_type_code position = 2
data_type_code trade = 3
data_type_code order = 4
data_type_code money = 5
data_type_code strategy = 6
data_type_code server = 7
data_type_code position_clear = 8
data_type_code request = 9

pub data RequestType : Type 0 where
  message connect disconnect run_strategy stop_strategy : RequestType

abbrev pub request_type_code : RequestType → ℕ
request_type_code message = 101
request_type_code connect = 102
request_type_code disconnect = 103
request_type_code run_strategy = 104
request_type_code stop_strategy = 105

pub record ServerData : Type 0 where
  pub type : ℕ
  pub all_messages : ℕ

pub record ClientRequest : Type 0 where
  pub type : ℕ
  pub req_type : ℕ
  pub value : ℕ
  pub id : ℕ

pub record PositionClear : Type 0 where
  pub type : ℕ

abbrev pub new_server_data : ServerData
new_server_data = record { type = data_type_code server; all_messages = 0 }

abbrev pub new_position_clear : PositionClear
new_position_clear = record { type = data_type_code position_clear }

module _ (D : Type 0) where
  pub record SecurityData : Type 0 where
    pub type : ℕ
    pub id : ℕ
    pub bid : D
    pub bid_vol : ℕ
    pub ask : D
    pub ask_vol : ℕ
    pub last_price : D
    pub symbol : Text

  pub record PositionData : Type 0 where
    pub type : ℕ
    pub symbol_id : ℕ
    pub open_amount : ℕ  -- `open`
    pub buy : ℕ
    pub sell : ℕ
    pub current : ℕ
    pub price : D
    pub vm : D

  pub record TradeData : Type 0 where
    pub type : ℕ
    pub symbol_id : ℕ
    pub volume : ℕ
    pub price : D
    pub direction : ℕ
    pub id : ℕ
    pub date : DateStruct
    pub time : TimeStruct

  pub record OrderData : Type 0 where
    pub type : ℕ
    pub symbol_id : ℕ
    pub volume : ℕ
    pub price : D
    pub direction : ℕ
    pub id : ℕ
    pub state : ℕ
    pub balance : ℕ
    pub date : DateStruct
    pub time : TimeStruct

  pub record MoneyData : Type 0 where
    pub type : ℕ
    pub coeff_go : D
    pub all : D
    pub free : D
    pub blocked : D
    pub fee : D

  pub record StrategyData : Type 0 where
    pub type : ℕ
    pub id : ℕ
    pub price : D
    pub volume : ℕ
    pub state : ℕ
    pub enabled : Bool
    pub name : Text

-- The content of a `zmq_msg_t`: a copy of one of the structures.
pub data Message (D : Type 0) : Type 0 where
  server_message : ServerData → Message D
  security_message : SecurityData D → Message D
  position_message : PositionData D → Message D
  trade_message : TradeData D → Message D
  order_message : OrderData D → Message D
  money_message : MoneyData D → Message D
  strategy_message : StrategyData D → Message D
  position_clear_message : PositionClear → Message D

-- `memset` to 0, `memcpy_s` of the text's bytes, and 0 at the last byte of a `char` array of `size`.
-- `memcpy_s` does not return where the text is longer than the array.
abbrev pub copy_text : ℕ → Text → Option Text
copy_text size t =
    if ltb size (length t)
    then none
    else some (set (t ++ replicate (size - length t) 0) (size - 1) 0)

-- A little-endian `int`, and a `client_request` as its 16 bytes.
abbrev pub word_of : ℕ → ℕ → ℕ → ℕ → ℕ
word_of a b c d = a + 256 * b + 65536 * c + 16777216 * d

-- `length != sizeof(client_request)`, and the `memcpy`.
unfoldable pub read_request : List ℕ → Option ClientRequest
read_request (a ∷ b ∷ c ∷ d ∷ e ∷ f ∷ g ∷ h ∷ i ∷ j ∷ k ∷ l ∷ m ∷ n ∷ o ∷ p ∷ []) = some (record {
  type = word_of a b c d;
  req_type = word_of e f g h;
  value = word_of i j k l;
  id = word_of m n o p;
})
read_request _ = none

-- The bytes of an `int`, and of a request, as a client sends them.
abbrev pub word_bytes : ℕ → List ℕ
word_bytes n = n % 256 ∷ n / 256 % 256 ∷ n / 65536 % 256 ∷ n / 16777216 % 256 ∷ []

unfoldable pub request_bytes : ClientRequest → List ℕ
request_bytes r =
    word_bytes r.type ++ word_bytes r.req_type ++ word_bytes r.value ++ word_bytes r.id
