-- ===== src/Entities/Platform.antt =====
-- What the program takes from outside: `double` arithmetic, and the decoder of the CGate library.
use simple_cgate.Base.{ℕ, Bool, Text}

-- `D` stands for `double`. No law is assumed of it: the program's claims about prices are claims
-- about which operations are applied to which inputs.
pub record Platform (D : Type 0) : Type 0 where
  pub zero_double : D  -- 0.0
  pub add_double : D → D → D
  pub sub_double : D → D → D
  pub mul_double : D → D → D
  pub div_double : D → D → D
  pub double_of_int : ℕ → D  -- (double) of an `int`
  pub double_of_int64 : ℕ → D  -- (double) of an `int64_t`
  pub pow_10 : ℕ → D  -- pow(10, scale), of an `int8_t`
  pub eq_double : D → D → Bool
  pub lt_double : D → D → Bool
  pub abs_double : D → D
  pub round_double : D → D
  pub int64_of_double : D → ℕ  -- static_cast<long long>
  pub cg_bcd_get : Text → ℕ × ℕ  -- the number and the scale in a field of type `d`
