-- ===== src/Entities/DateTime.antt =====
-- DateTime.h and DateTime.cpp: a calendar time with its parts.
use simple_cgate.Base.{ℕ}

pub record DateTime : Type 0 where
  pub year : ℕ
  pub month : ℕ
  pub day : ℕ
  pub hour : ℕ
  pub minute : ℕ
  pub second : ℕ
  pub msecond : ℕ

-- The default member initialisers.
abbrev pub no_time : DateTime
no_time = record { year = 0; month = 0; day = 0; hour = 0; minute = 0; second = 0; msecond = 0 }

abbrev pub date_time : ℕ → ℕ → ℕ → ℕ → ℕ → ℕ → ℕ → DateTime
date_time y m d h min s ms = record {
  year = y;
  month = m;
  day = d;
  hour = h;
  minute = min;
  second = s;
  msecond = ms;
}

pub record DateStruct : Type 0 where
  pub year : ℕ
  pub month : ℕ
  pub day : ℕ

pub record TimeStruct : Type 0 where
  pub hh : ℕ
  pub mm : ℕ
  pub ss : ℕ
  pub ms : ℕ

abbrev pub get_date_struct : DateTime → DateStruct
get_date_struct t = record { year = t.year; month = t.month; day = t.day }

abbrev pub get_time_struct : DateTime → TimeStruct
get_time_struct t = record { hh = t.hour; mm = t.minute; ss = t.second; ms = t.msecond }
