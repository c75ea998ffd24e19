-- ===== src/Entities/Money.antt =====
-- Money.h and Money.cpp: the funds of the account.
pub record Money (D : Type 0) : Type 0 where
  pub coeff_go : D
  pub all_amount : D
  pub free_amount : D
  pub blocked_amount : D
  pub fee : D

module _ {D : Type 0} where
  abbrev pub set_coeff_go : D → Money D → Money D
  set_coeff_go x m = record m { coeff_go = x }

  abbrev pub set_all : D → Money D → Money D
  set_all x m = record m { all_amount = x }

  abbrev pub set_free : D → Money D → Money D
  set_free x m = record m { free_amount = x }

  abbrev pub set_blocked : D → Money D → Money D
  set_blocked x m = record m { blocked_amount = x }

  abbrev pub set_fee : D → Money D → Money D
  set_fee x m = record m { fee = x }
