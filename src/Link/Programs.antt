-- ===== src/Link/Programs.antt =====
-- vm/impl_vm_base.cpp: `ImplVirtualMachineBase::load` up to the programs' contents: files are loaded,
-- their symbols linked, and the programs relocated. What it puts into the environment's arrays and the
-- heap after that is not part of the model.
use letin.Common.{
  ℕ, ◌+◌, Bool, true, false, List, [], ◌∷◌, ◌++◌, Option, none, some, ltb, if◌then◌else◌, length,
}
use letin.Link.Env.{Env, find, reset_without_native_fun_indexes}
use letin.Link.Symbols.{format, no_reloc, reloc, Linking, add_error, define_symbols, check_symbols}
use letin.Loader.Format.{has_flag, flag_relocatable}
use letin.Loader.Program.{Program, load}
use letin.Loader.Result.{Load, ok, reject, fault, stuck, ◌>>=◌}
use letin.Relocate.Indexes.{Image}
use letin.Relocate.Steps.{relocate}

-- A rejection is a value, for the loop that goes on.
unfoldable pub recover : {A : Type 0} → Load A → Load (Option A)
recover (ok a) = ok (some a)
recover reject = ok none
recover fault = fault
recover stuck = stuck

-- The programs so far.
pub record Gathered : Type 0 where
  pub linking : Linking
  pub progs : List Image
  pub is_relocable : Bool

-- `Program` starts with both offsets zero.
unfoldable pub add_prog : Program → Gathered → Gathered
add_prog p g = record g {
  progs = g.progs ++ (record { program = p; fun_offset = 0; var_offset = 0 } ∷ []);
}

unfoldable pub gathered : ℕ → ℕ → Option Program → Gathered → Gathered
unfolding add_prog add_error
gathered i size none g = record g { linking = add_error i format [] g.linking }
gathered i size (some p) g =
    if has_flag p.flags flag_relocatable
    then add_prog p g
    else if ltb 1 size
    then record g { linking = add_error i no_reloc [] g.linking; is_relocable = false }
    else add_prog p (record g { is_relocable = false })

unfoldable pub gather : ℕ → ℕ → List (List ℕ) → Gathered → Load Gathered
unfolding recover gathered load
gather i size [] g = ok g
gather i size (bs ∷ files) g = do
  o ← recover (load bs)
  gather (i + 1) size files (gathered i size o g)

unfoldable pub noted : ℕ → Option Image → Linking → Linking
unfolding add_error
noted i (some q) l = l
noted i none l = add_error i reloc [] l

unfoldable pub kept : Image → Option Image → Image
kept p (some q) = q
kept p none = p

unfoldable pub relocate_progs : ℕ → ℕ → ℕ → List Image → Linking → Load (List Image × Linking)
unfolding recover noted kept find relocate
relocate_progs i fo vo [] l = ok ([], l)
relocate_progs i fo vo (p ∷ ps) l = do
  o ← recover (
      relocate fo vo (find l.env.fun_indexes) (find l.env.var_indexes)
        (find l.env.native_fun_indexes) p)
  r ← relocate_progs (i + 1) (fo + length p.funs) (vo + length p.vars) ps (noted i o l)
  ok (kept p o ∷ r.0, r.1)

-- `reset_without_native_fun_indexes(); return false;`
unfoldable pub give_up : Linking → Load (List Image × Linking)
unfolding reset_without_native_fun_indexes
give_up l = ok ([], record l { env = reset_without_native_fun_indexes l.env; is_success = false })

unfoldable pub give_up_or : Linking → Load (List Image × Linking) → Load (List Image × Linking)
unfolding give_up
give_up_or l k = if l.is_success then k else give_up l

unfoldable pub relocated : List Image × Linking → Load (List Image × Linking)
unfolding give_up
relocated r = if r.1.is_success then ok r else give_up r.1

unfoldable pub link_symbols : List Image → Linking → Load (List Image × Linking)
unfolding define_symbols check_symbols relocate_progs give_up_or relocated
link_symbols ps l =
    let defined = define_symbols 0 0 0 ps l in
    let checked = check_symbols 0 ps defined in
    give_up_or defined (give_up_or checked (relocate_progs 0 0 0 ps checked >>= relocated))

unfoldable pub link_all : Gathered → Load (List Image × Linking)
unfolding link_symbols give_up_or
link_all g =
    give_up_or g.linking
      (if g.is_relocable then link_symbols g.progs g.linking else ok (g.progs, g.linking))

unfoldable pub link : Env → List (List ℕ) → Load (List Image × Linking)
unfolding gather link_all
link env files = do
  g ← gather 0 (length files) files (record {
    linking = record { env = env; errors = []; is_success = true };
    progs = [];
    is_relocable = true;
  })
  link_all g
