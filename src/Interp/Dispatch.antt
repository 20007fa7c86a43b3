-- ===== src/Interp/Dispatch.antt =====
-- vm/vm/interp_vm.cpp and include/letin/opcode.hpp: the operations of `interpret_op` by their numbers.
use letin.Common.{List, [], ◌∷◌, Option, none, some, get_elem?}
use letin.Interp.Arith.{
  IntOp, UnaryOp, iload2, iadd, isub, imul, idiv, imod, iand, ior, ixor, ishl, ishr, ishru, ieq,
  ine, ilt, ige, igt, ile, ineg, inot,
}
use letin.Interp.Arrays.{
  interpret_array, interpret_tuple, interpret_nth, interpret_len, interpret_cat, interpret_rtype,
  interpret_rload, interpret_req, interpret_rne,
}
use letin.Interp.Calls.{ResultType, int_result, float_result, ref_result, Code, interpret_call}
use letin.Interp.Floats.{
  FloatUnaryOp, FloatBinaryOp, FloatTest, FloatArith, fneg, fsqrt, fexp, flog, fcos, fsin, ftan,
  facos, fasin, fatan, fceil, ffloor, fround, ftrunc, fadd, fsub, fmul, fdiv, fpow, feq, fne, flt,
  fge, fgt, fle, interpret_fload, interpret_fload2, interpret_float_unary, interpret_float_binary,
  interpret_float_test, interpret_itof, interpret_ftoi,
}
use letin.Interp.Operands.{with_one}
use letin.Interp.Ops.{interpret_iload, interpret_unary, interpret_binary}
use letin.Interp.Outcome.{incorrect_instr}
use letin.Interp.Readers.{get_int, get_float, get_ref, int_reader, float_reader, ref_reader}
use letin.Interp.Uniques.{
  interpret_fill_int, interpret_fill_float, interpret_rurafill, interpret_rutfillr,
  interpret_unique_nth, interpret_set_nth, interpret_rutsnth, interpret_unique_len,
  interpret_rutype, interpret_copy,
}
use letin.Interp.World.{Runtime, Step, finish, fail}
use letin.Loader.Format.{Instruction}
use letin.Opcode.{opcode_to_op}
use letin.Thread.State.{Value, int, float, ref}
use letin.Values.{Kind, iarray8, iarray16, iarray32, iarray64, sfarray, dfarray, rarray, tuple}

-- The operations that run native code or the handlers of a try.
pub data OtherOp : Type 0 where
  incall fncall rncall try_ stacktrace : OtherOp

pub data Op : Type 0 where
  iload fload fload2 rload req rne rtuple rtype itof ftoi rurafill rutfillr rutsnth rutype : Op
  iforce fforce rforce : Op
  int_unary : UnaryOp → Op
  int_binary : IntOp → Op
  float_unary : FloatUnaryOp → Op
  float_binary : FloatBinaryOp → Op
  float_test : FloatTest → Op
  array : Kind → Op
  nth : Kind → Op
  len : Kind → Op
  cat : Kind → Op
  call : ResultType → Op
  fill_int : Kind → Op
  fill_float : Kind → Op
  unique_nth : Kind → Op
  set_int_nth : Kind → Op
  set_float_nth : Kind → Op
  set_ref_nth : Kind → Op
  unique_len : Kind → Op
  copy : Kind → Op
  other : OtherOp → Op

-- OP_ILOAD, ... , OP_STACKTRACE
abbrev pub ops : List Op
ops =
    iload
    ∷ (int_binary iload2)
    ∷ (int_unary ineg)
    ∷ (int_binary iadd)
    ∷ (int_binary isub)
    ∷ (int_binary imul)
    ∷ (int_binary idiv)
    ∷ (int_binary imod)
    ∷ (int_unary inot)
    ∷ (int_binary iand)
    ∷ (int_binary ior)
    ∷ (int_binary ixor)
    ∷ (int_binary ishl)
    ∷ (int_binary ishr)
    ∷ (int_binary ishru)
    ∷ (int_binary ieq)
    ∷ (int_binary ine)
    ∷ (int_binary ilt)
    ∷ (int_binary ige)
    ∷ (int_binary igt)
    ∷ (int_binary ile)
    ∷ fload
    ∷ fload2
    ∷ (float_unary fneg)
    ∷ (float_binary fadd)
    ∷ (float_binary fsub)
    ∷ (float_binary fmul)
    ∷ (float_binary fdiv)
    ∷ (float_test feq)
    ∷ (float_test fne)
    ∷ (float_test flt)
    ∷ (float_test fge)
    ∷ (float_test fgt)
    ∷ (float_test fle)
    ∷ rload
    ∷ req
    ∷ rne
    ∷ (array iarray8)
    ∷ (array iarray16)
    ∷ (array iarray32)
    ∷ (array iarray64)
    ∷ (array sfarray)
    ∷ (array dfarray)
    ∷ (array rarray)
    ∷ rtuple
    ∷ (nth iarray8)
    ∷ (nth iarray16)
    ∷ (nth iarray32)
    ∷ (nth iarray64)
    ∷ (nth sfarray)
    ∷ (nth dfarray)
    ∷ (nth rarray)
    ∷ (nth tuple)
    ∷ (len iarray8)
    ∷ (len iarray16)
    ∷ (len iarray32)
    ∷ (len iarray64)
    ∷ (len sfarray)
    ∷ (len dfarray)
    ∷ (len rarray)
    ∷ (len tuple)
    ∷ (cat iarray8)
    ∷ (cat iarray16)
    ∷ (cat iarray32)
    ∷ (cat iarray64)
    ∷ (cat sfarray)
    ∷ (cat dfarray)
    ∷ (cat rarray)
    ∷ (cat tuple)
    ∷ rtype
    ∷ (call int_result)
    ∷ (call float_result)
    ∷ (call ref_result)
    ∷ itof
    ∷ ftoi
    ∷ (other incall)
    ∷ (other fncall)
    ∷ (other rncall)
    ∷ (fill_int iarray8)
    ∷ (fill_int iarray16)
    ∷ (fill_int iarray32)
    ∷ (fill_int iarray64)
    ∷ (fill_float sfarray)
    ∷ (fill_float dfarray)
    ∷ rurafill
    ∷ (fill_int tuple)
    ∷ (fill_float tuple)
    ∷ rutfillr
    ∷ (unique_nth iarray8)
    ∷ (unique_nth iarray16)
    ∷ (unique_nth iarray32)
    ∷ (unique_nth iarray64)
    ∷ (unique_nth sfarray)
    ∷ (unique_nth dfarray)
    ∷ (unique_nth rarray)
    ∷ (unique_nth tuple)
    ∷ (set_int_nth iarray8)
    ∷ (set_int_nth iarray16)
    ∷ (set_int_nth iarray32)
    ∷ (set_int_nth iarray64)
    ∷ (set_float_nth sfarray)
    ∷ (set_float_nth dfarray)
    ∷ (set_ref_nth rarray)
    ∷ rutsnth
    ∷ (unique_len iarray8)
    ∷ (unique_len iarray16)
    ∷ (unique_len iarray32)
    ∷ (unique_len iarray64)
    ∷ (unique_len sfarray)
    ∷ (unique_len dfarray)
    ∷ (unique_len rarray)
    ∷ (unique_len tuple)
    ∷ rutype
    ∷ (copy iarray8)
    ∷ (copy iarray16)
    ∷ (copy iarray32)
    ∷ (copy iarray64)
    ∷ (copy sfarray)
    ∷ (copy dfarray)
    ∷ (copy rarray)
    ∷ (copy tuple)
    ∷ (float_binary fpow)
    ∷ (float_unary fsqrt)
    ∷ (float_unary fexp)
    ∷ (float_unary flog)
    ∷ (float_unary fcos)
    ∷ (float_unary fsin)
    ∷ (float_unary ftan)
    ∷ (float_unary facos)
    ∷ (float_unary fasin)
    ∷ (float_unary fatan)
    ∷ (float_unary fceil)
    ∷ (float_unary ffloor)
    ∷ (float_unary fround)
    ∷ (float_unary ftrunc)
    ∷ (other try_)
    ∷ iforce
    ∷ fforce
    ∷ rforce
    ∷ (other stacktrace)
    ∷ []

module _ (rt : Runtime) (floats : FloatArith) (code : Code)
    (others : OtherOp → Instruction → Step Value) where
  -- The case of the operation.
  unfoldable pub interpret_case : Op → Instruction → Step Value
  unfolding get_int get_float get_ref with_one interpret_iload interpret_unary interpret_binary
      interpret_fload interpret_fload2 interpret_float_unary interpret_float_binary
      interpret_float_test interpret_itof interpret_ftoi interpret_array interpret_tuple
      interpret_nth interpret_len interpret_cat interpret_rtype interpret_rload interpret_req
      interpret_rne interpret_call interpret_fill_int interpret_fill_float interpret_rurafill
      interpret_rutfillr interpret_unique_nth interpret_set_nth interpret_rutsnth
      interpret_unique_len interpret_rutype interpret_copy
  interpret_case iload instr = interpret_iload rt instr
  interpret_case fload instr = interpret_fload rt floats instr
  interpret_case fload2 instr = interpret_fload2 rt floats instr
  interpret_case rload instr = interpret_rload rt instr
  interpret_case req instr = interpret_req rt instr
  interpret_case rne instr = interpret_rne rt instr
  interpret_case rtuple instr = interpret_tuple rt
  interpret_case rtype instr = interpret_rtype rt instr
  interpret_case itof instr = interpret_itof rt floats instr
  interpret_case ftoi instr = interpret_ftoi rt floats instr
  interpret_case rurafill instr = interpret_rurafill rt instr
  interpret_case rutfillr instr = interpret_rutfillr rt instr
  interpret_case rutsnth instr = interpret_rutsnth rt instr
  interpret_case rutype instr = interpret_rutype rt instr
  interpret_case iforce instr = with_one (get_int rt) instr λ i. finish (int i)
  interpret_case fforce instr = with_one (get_float rt) instr λ f. finish (float f)
  interpret_case rforce instr = with_one (get_ref rt) instr λ r. finish (ref r)
  interpret_case (int_unary op) instr = interpret_unary rt op instr
  interpret_case (int_binary op) instr = interpret_binary rt op instr
  interpret_case (float_unary op) instr = interpret_float_unary rt floats op instr
  interpret_case (float_binary op) instr = interpret_float_binary rt floats op instr
  interpret_case (float_test op) instr = interpret_float_test rt floats op instr
  interpret_case (array k) instr = interpret_array rt k
  interpret_case (nth k) instr = interpret_nth rt k instr
  interpret_case (len k) instr = interpret_len rt k instr
  interpret_case (cat k) instr = interpret_cat rt k instr
  interpret_case (call t) instr = interpret_call rt code t instr
  interpret_case (fill_int k) instr = interpret_fill_int rt k instr
  interpret_case (fill_float k) instr = interpret_fill_float rt k instr
  interpret_case (unique_nth k) instr = interpret_unique_nth rt k instr
  interpret_case (set_int_nth k) instr = interpret_set_nth rt k (int_reader rt) int instr
  interpret_case (set_float_nth k) instr = interpret_set_nth rt k (float_reader rt) float instr
  interpret_case (set_ref_nth k) instr = interpret_set_nth rt k (ref_reader rt) ref instr
  interpret_case (unique_len k) instr = interpret_unique_len rt k instr
  interpret_case (copy k) instr = interpret_copy rt k instr
  interpret_case (other op) instr = others op instr

  -- `none` is the default.
  unfoldable pub interpret_op_of : Option Op → Instruction → Step Value
  unfolding interpret_case fail
  interpret_op_of none instr = fail incorrect_instr
  interpret_op_of (some op) instr = interpret_case op instr

  unfoldable pub interpret_op : Instruction → Step Value
  unfolding interpret_op_of opcode_to_op
  interpret_op instr = interpret_op_of (get_elem? ops (opcode_to_op instr.opcode)) instr
