-- ===== src/Streams/States.antt =====
-- The states of a stream and of a listener (DataStream.h).
pub data DataStreamState : Type 0 where
  none error opening closed active : DataStreamState

pub data ListenerState : Type 0 where
  none close opened online : ListenerState
