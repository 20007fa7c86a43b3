-- ===== src/Tests/Worlds.antt =====
-- What the examples of the interpreter run in: no lazy values, no global variables, memory that holds zeros.
use letin.Common.{true, false, [], ◌∷◌}
use letin.Interp.Outcome.{failed, incorrect_value}
use letin.Interp.World.{World, Runtime, pure}
use letin.Thread.Outer.{ReturnValue, OuterRegisters}
use letin.Thread.State.{Context, int}
use letin.Values.{Object, nil, fresh_object}

abbrev pub plain_runtime : Runtime
plain_runtime = record {
  globals = [];
  force_value = λ v. pure (failed incorrect_value, v);
  eager = true;
  layout = record { plain = 16; lazy_args = 88; native_bytes = 32 };
  has_memory = λ h n. true;
  memory = λ h k i. int 0;
  format_float = λ i. i;
  round_float = λ f. f;
}

abbrev pub no_return : ReturnValue
no_return = record { i = 0; f = 0; r = 0; error_code = 0 }

abbrev pub plain_outer : OuterRegisters
plain_outer = record {
  nfbp = 0;
  enfbp = 0;
  arg_instr_flag = false;
  rv = no_return;
  force_tmp_rv = no_return;
  force_tmp_r = 0;
  force_tmp_r2 = 0;
  force_tmp_rv2 = no_return;
}

abbrev pub nil_object : Object
nil_object = fresh_object nil false []

abbrev pub thread_world : Context → World
thread_world c = record {
  machine = record { context = c; outer = plain_outer };
  heap = nil_object ∷ [];
}
