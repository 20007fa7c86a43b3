-- ===== src/Interp/Floats.antt =====
-- vm/vm/interp_vm.cpp: the operations of `interpret_op` on doubles. The arithmetic of doubles, and the
-- functions of the C++ library, are parameters that take patterns to patterns.
use letin.Common.{ℕ, ◌*◌, ◌^◌, Bool, bit_and, bit_or}
use letin.Interp.Arith.{truth}
use letin.Interp.Operands.{with_one, with_two}
use letin.Interp.Readers.{get_int, get_float, get_float_value}
use letin.Interp.World.{Runtime, Step, finish}
use letin.Loader.Format.{Instruction}
use letin.Thread.State.{Value, int, float, u64}

pub data FloatUnaryOp : Type 0 where
  fneg fsqrt fexp flog fcos fsin ftan facos fasin fatan fceil ffloor fround ftrunc : FloatUnaryOp

pub data FloatBinaryOp : Type 0 where
  fadd fsub fmul fdiv fpow : FloatBinaryOp

pub data FloatTest : Type 0 where
  feq fne flt fge fgt fle : FloatTest

pub record FloatArith : Type 0 where
  pub unary : FloatUnaryOp → ℕ → ℕ
  pub binary : FloatBinaryOp → ℕ → ℕ → ℕ
  pub test : FloatTest → ℕ → ℕ → Bool
  pub from_int : ℕ → ℕ
  pub to_int : ℕ → ℕ
  pub from_pattern : ℕ → ℕ

module _ (rt : Runtime) (floats : FloatArith) where
  -- OP_FLOAD
  unfoldable pub interpret_fload : Instruction → Step Value
  unfolding get_float_value with_one
  interpret_fload instr = with_one (get_float_value rt) instr finish

  -- OP_FLOAD2
  unfoldable pub interpret_fload2 : Instruction → Step Value
  unfolding get_int with_two
  interpret_fload2 instr = with_two (get_int rt) (get_int rt) instr λ i1 i2.
      finish (float (floats.from_pattern (bit_or (u64 (i1 * 2 ^ 32)) (bit_and i2 0xffffffff))))

  -- OP_FNEG, and OP_FSQRT to OP_FTRUNC
  unfoldable pub interpret_float_unary : FloatUnaryOp → Instruction → Step Value
  unfolding get_float with_one
  interpret_float_unary op instr =
      with_one (get_float rt) instr λ f. finish (float (floats.unary op f))

  -- OP_FADD to OP_FDIV, and OP_FPOW
  unfoldable pub interpret_float_binary : FloatBinaryOp → Instruction → Step Value
  unfolding get_float with_two
  interpret_float_binary op instr =
      with_two (get_float rt) (get_float rt) instr λ f1 f2. finish (float (floats.binary op f1 f2))

  -- OP_FEQ to OP_FLE
  unfoldable pub interpret_float_test : FloatTest → Instruction → Step Value
  unfolding get_float with_two
  interpret_float_test op instr =
      with_two (get_float rt) (get_float rt) instr
        λ f1 f2. finish (int (truth (floats.test op f1 f2)))

  -- OP_ITOF
  unfoldable pub interpret_itof : Instruction → Step Value
  unfolding get_int with_one
  interpret_itof instr = with_one (get_int rt) instr λ i. finish (float (floats.from_int i))

  -- OP_FTOI
  unfoldable pub interpret_ftoi : Instruction → Step Value
  unfolding get_float with_one
  interpret_ftoi instr = with_one (get_float rt) instr λ f. finish (int (floats.to_int f))
