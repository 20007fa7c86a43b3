-- ===== src/Interp/Outcome.antt =====
-- include/letin/const.hpp and vm/vm/interp_vm.cpp: how a step of the interpreter can end. A failure
-- carries the code that the step has given to `set_error` before it returned.
use letin.Common.{ℕ}

pub data ErrorCode : Type 0 where
  success : ErrorCode
  no_instr : ErrorCode
  incorrect_instr : ErrorCode
  incorrect_value : ErrorCode
  incorrect_object : ErrorCode
  incorrect_fun : ErrorCode
  empty_stack : ErrorCode
  stack_overflow : ErrorCode
  out_of_memory : ErrorCode
  no_fun : ErrorCode
  no_global_var : ErrorCode
  no_local_var : ErrorCode
  no_arg : ErrorCode
  incorrect_arg_count : ErrorCode
  div_by_zero : ErrorCode
  index_of_out_bounds : ErrorCode
  exception : ErrorCode
  no_entry : ErrorCode
  no_native_fun : ErrorCode
  unique_object : ErrorCode
  again_used_unique : ErrorCode
  user_exception : ErrorCode
  no_expr_value : ErrorCode
  no_error : ErrorCode

pub data Outcome (A : Type 0) : Type 0 where
  done : A → Outcome A
  failed : ErrorCode → Outcome A

-- ERROR_SUCCESS, ...
abbrev pub error_number : ErrorCode → ℕ
error_number success = 0
error_number no_instr = 1
error_number incorrect_instr = 2
error_number incorrect_value = 3
error_number incorrect_object = 4
error_number incorrect_fun = 5
error_number empty_stack = 6
error_number stack_overflow = 7
error_number out_of_memory = 8
error_number no_fun = 9
error_number no_global_var = 10
error_number no_local_var = 11
error_number no_arg = 12
error_number incorrect_arg_count = 13
error_number div_by_zero = 14
error_number index_of_out_bounds = 15
error_number exception = 16
error_number no_entry = 17
error_number no_native_fun = 18
error_number unique_object = 19
error_number again_used_unique = 20
error_number user_exception = 21
error_number no_expr_value = 22
error_number no_error = 23
