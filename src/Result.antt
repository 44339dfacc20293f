-- ===== src/Result.antt =====
-- include/regimeflow/common/result.h: errors as values. An error's `details` and source location,
-- which no code branches on, are left out.
use regime_flow.Base.{String}

pub data ErrorCode : Type 0 where
  none_raised invalid_argument not_found already_exists out_of_range invalid_state io_error :
      ErrorCode
  parse_error config_error plugin_error broker_error network_error timeout_error : ErrorCode
  internal_error unknown : ErrorCode

pub record Error : Type 0 where
  pub code : ErrorCode
  pub message : String

pub data Result {ℓ} (A : Type ℓ) : Type ℓ where
  ok : A → Result A
  err : Error → Result A

abbrev pub Void : Type 0
Void = Unit

abbrev pub fail {ℓ} : {A : Type ℓ} → ErrorCode → String → Result A
fail c s = err (record { code = c; message = s })
