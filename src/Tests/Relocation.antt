-- ===== src/Tests/Relocation.antt =====
-- vm/vm.cpp: relocation of the program of a small file.
use letin.Common.{◌≡◌, [], ◌∷◌, some, refl}
use letin.Loader.Program.Accepts.{IsProgram}
use letin.Loader.Result.{ok, Ensures, guard}
use letin.Loader.Format.{has_flag, is_symbolic, reloc_kind, symbol_kind}
use letin.Opcode.{opcode_to_arg_type1}
use letin.Relocate.Indexes.{Image, Indexes, widen, found, at, relocate_index, symbolic_index}
use letin.Relocate.Steps.{relocate, relocate_all, relocate_one, relocate_arg1, move_fun}
use letin.Relocate.Whole.{relocate-IsProgram}
use letin.Tests.Loading.{sample_program, load-IsProgram_sample}

abbrev image : Image
image = record { program = sample_program; fun_offset = 0; var_offset = 0 }

-- Every function is number 9.
abbrev nine : Indexes
nine name = some 9

-- The symbolic relocation sets the argument of the instruction, and the entry moves.
image_relocates :
    relocate 100 200 nine nine nine image
    ≡ ok (record {
      program = record sample_program {
        entry = 100;
        code = record { opcode = 0x00020002; arg1 = 9; arg2 = 0 } ∷ [];
      };
      fun_offset = 100;
      var_offset = 200;
    })
unfolding relocate relocate_all relocate_one relocate_arg1 move_fun relocate_index symbolic_index
    found at guard widen has_flag is_symbolic reloc_kind symbol_kind opcode_to_arg_type1
image_relocates = refl

relocate-IsProgram_example :
    Ensures (λ q. IsProgram q.program) (relocate 100 200 nine nine nine image)
relocate-IsProgram_example = relocate-IsProgram image 100 200 nine nine nine load-IsProgram_sample
