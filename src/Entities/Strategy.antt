-- ===== src/Entities/Strategy.antt =====
-- The state of the base class Strategy (Strategy.h). What a derived class does in its handlers is
-- not part of this record.
use simple_cgate.Base.{ℕ, Bool, false, Text}
use simple_cgate.Entities.Platform.{Platform}

pub data AlgoState : Type 0 where
  off active quoting cover wait_work_time failed : AlgoState

abbrev pub algo_state_code : AlgoState → ℕ
algo_state_code off = 0
algo_state_code active = 1
algo_state_code quoting = 2
algo_state_code cover = 3
algo_state_code wait_work_time = 4
algo_state_code failed = 5

pub record Strategy : Type 0 where
  pub global_id : ℕ  -- of the base class Entity
  pub name : Text
  pub enabled : Bool
  pub state : AlgoState

abbrev pub new_strategy : Text → Strategy
new_strategy name = record { global_id = 0; name = name; enabled = false; state = off }

abbrev pub set_global_id : ℕ → Strategy → Strategy
set_global_id id s = record s { global_id = id }

abbrev pub set_enabled : Bool → Strategy → Strategy
set_enabled b s = record s { enabled = b }

abbrev pub set_state : AlgoState → Strategy → Strategy
set_state a s = record s { state = a }

-- The virtual methods that a derived class may override, as the base class has them.
abbrev pub current_price : {D : Type 0} ⦃num : Platform D⦄ → Strategy → D
current_price ⦃num⦄ s = num.zero_double

abbrev pub current_volume : Strategy → ℕ
current_volume s = 0
