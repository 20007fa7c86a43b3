-- ===== src/Tests/Symbols.antt =====
-- vm/impl_vm_base.cpp: the second of two programs uses a function that the first defines.
use letin.Common.{ℕ, ◌≡◌, refl, true, List, [], ◌∷◌}
use letin.Link.Env.{same_name, find, add_fun_index, add_var_index, insert_symbol}
use letin.Link.Programs.{recover, noted, kept, relocate_progs, give_up_or, relocated, link_symbols}
use letin.Link.Loops.{AreDefined, AreKnown}
use letin.Link.Names.{Grows}
use letin.Link.Resolved.{link_symbols_resolved}
use letin.Link.Symbols.{
  Linking, or_error, define_symbol, define_each, define_symbols, known, check_symbol, check_each,
  check_symbols,
}
use letin.Loader.Format.{Symbol, has_flag}
use letin.Loader.Program.{Program}
use letin.Loader.Result.{ok, guard}
use letin.Relocate.Indexes.{Image}
use letin.Relocate.Steps.{relocate, relocate_all, move_fun}
use letin.Tests.Linking.{no_names}

abbrev program_of : List Symbol → Program
program_of symbols = record {
  flags = 2;
  entry = 0;
  funs = record { addr = 0; arg_count = 0; instr_count = 0 } ∷ [];
  vars = [];
  code = [];
  data_size = 0;
  objects = [];
  relocs = [];
  symbols = symbols;
  fun_infos = [];
}

abbrev image_at : ℕ → List Symbol → Image
image_at fo symbols = record { program = program_of symbols; fun_offset = fo; var_offset = 0 }

abbrev defines : List Symbol
defines = record { index = 0; length = 1; type = 16; name = 97 ∷ [] } ∷ []

abbrev uses : List Symbol
uses = record { index = 0; length = 1; type = 0; name = 97 ∷ [] } ∷ []

abbrev moved : Image
moved = record { program = record (program_of uses) { entry = 1 }; fun_offset = 1; var_offset = 0 }

abbrev two_programs : List Image
two_programs = image_at 0 defines ∷ image_at 0 uses ∷ []

abbrev unlinked : Linking
unlinked = record { env = no_names; errors = []; is_success = true }

abbrev linked : Linking
linked = record unlinked {
  env = record no_names { fun_indexes = (97 ∷ [], 0) ∷ []; fun_symbols = (0, 97 ∷ []) ∷ [] };
}

programs_link : link_symbols two_programs unlinked ≡ ok (image_at 0 defines ∷ moved ∷ [], linked)
unfolding same_name find add_fun_index add_var_index insert_symbol recover noted kept relocate_progs
    give_up_or relocated link_symbols or_error define_symbol define_each define_symbols known
    check_symbol check_each check_symbols has_flag guard relocate relocate_all move_fun
programs_link = refl

link_symbols_resolved_example :
    AreDefined linked.env 0 0 two_programs
    × AreKnown linked.env two_programs
    × Grows unlinked.env linked.env
link_symbols_resolved_example =
    link_symbols_resolved two_programs (image_at 0 defines ∷ moved ∷ []) unlinked linked
      programs_link refl
