-- ===== src/Proto/Mcx/Enums.antt =====
-- The enumerations of include/proto/mcx/common.hpp, with their values.
use mpmc_with_memory_managem.Base.{ℕ}

pub data Side : Type 0 where
  buy sell : Side

abbrev pub side_code : Side → ℕ
side_code buy = 1
side_code sell = 2

pub data OrdType : Type 0 where
  limit stop_market stop_limit market_to_limit : OrdType

abbrev pub ord_type_code : OrdType → ℕ
ord_type_code limit = 2
ord_type_code stop_market = 3
ord_type_code stop_limit = 4
ord_type_code market_to_limit = 5

pub data TimeInForce : Type 0 where
  day gtc ioc eos gtd : TimeInForce

abbrev pub time_in_force_code : TimeInForce → ℕ
time_in_force_code day = 0
time_in_force_code gtc = 1
time_in_force_code ioc = 3
time_in_force_code eos = 7
time_in_force_code gtd = 6

pub data AccountType : Type 0 where
  own client institution : AccountType

abbrev pub account_type_code : AccountType → ℕ
account_type_code own = 1
account_type_code client = 3
account_type_code institution = 5

pub data OrdStatus : Type 0 where
  new cancelled suspended : OrdStatus

abbrev pub ord_status_code : OrdStatus → ℕ
ord_status_code new = 48
ord_status_code cancelled = 52
ord_status_code suspended = 57

pub data ExecType : Type 0 where
  new cancelled triggered replaced : ExecType

abbrev pub exec_type_code : ExecType → ℕ
exec_type_code new = 48
exec_type_code cancelled = 52
exec_type_code triggered = 76
exec_type_code replaced = 53
