-- ===== src/Proto/Sbe/Enums.antt =====
-- The enumerations of include/proto/sbe/common.hpp, with their values.
use mpmc_with_memory_managem.Base.{ℕ}

pub data PkgType : Type 0 where
  snapshot delta : PkgType

abbrev pub pkg_type_code : PkgType → ℕ
pkg_type_code snapshot = 0
pkg_type_code delta = 1

pub data SideType : Type 0 where
  unknown buy sell non_representable : SideType

abbrev pub side_type_code : SideType → ℕ
side_type_code unknown = 0
side_type_code buy = 1
side_type_code sell = 2
side_type_code non_representable = 254

pub data BoolEnum : Type 0 where
  false true non_representable : BoolEnum

abbrev pub bool_enum_code : BoolEnum → ℕ
bool_enum_code false = 0
bool_enum_code true = 1
bool_enum_code non_representable = 254

pub data CategoryType : Type 0 where
  unknown spot linear inverse option non_representable : CategoryType

abbrev pub category_type_code : CategoryType → ℕ
category_type_code unknown = 0
category_type_code spot = 1
category_type_code linear = 2
category_type_code inverse = 3
category_type_code option = 4
category_type_code non_representable = 254

pub data OrderType : Type 0 where
  unknown market limit non_representable : OrderType

abbrev pub order_type_code : OrderType → ℕ
order_type_code unknown = 0
order_type_code market = 1
order_type_code limit = 2
order_type_code non_representable = 254

pub data TimeInForceType : Type 0 where
  unknown good_till_cancel post_only immediate_or_cancel fill_or_kill rpi non_representable :
      TimeInForceType

abbrev pub time_in_force_type_code : TimeInForceType → ℕ
time_in_force_type_code unknown = 0
time_in_force_type_code good_till_cancel = 1
time_in_force_type_code post_only = 2
time_in_force_type_code immediate_or_cancel = 3
time_in_force_type_code fill_or_kill = 4
time_in_force_type_code rpi = 5
time_in_force_type_code non_representable = 254

pub data PositionIdxType : Type 0 where
  one_way hedge_buy hedge_sell unknown non_representable : PositionIdxType

abbrev pub position_idx_type_code : PositionIdxType → ℕ
position_idx_type_code one_way = 0
position_idx_type_code hedge_buy = 1
position_idx_type_code hedge_sell = 2
position_idx_type_code unknown = 253
position_idx_type_code non_representable = 254

pub data MarketUnitType : Type 0 where
  unknown base_coin quote_coin non_representable : MarketUnitType

abbrev pub market_unit_type_code : MarketUnitType → ℕ
market_unit_type_code unknown = 0
market_unit_type_code base_coin = 1
market_unit_type_code quote_coin = 2
market_unit_type_code non_representable = 254

pub data SmpType : Type 0 where
  unknown cancel_taker cancel_maker cancel_both non_representable : SmpType

abbrev pub smp_type_code : SmpType → ℕ
smp_type_code unknown = 0
smp_type_code cancel_taker = 1
smp_type_code cancel_maker = 2
smp_type_code cancel_both = 3
smp_type_code non_representable = 254
