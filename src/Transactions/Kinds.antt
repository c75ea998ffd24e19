-- ===== src/Transactions/Kinds.antt =====
-- The kinds of actions with orders (TransactionManager.h).
pub data TransactionType : Type 0 where
  none add cancel move : TransactionType
