-- ===== src/Loader/Sections.antt =====
-- vm/impl_loader.cpp: the sections of functions, variables, code and function infos.
use letin.Common.{
  ℕ, zero, suc, ◌+◌, ◌*◌, ◌^◌, ◌≤◌, ◌<◌, ◌≡◌, refl, ap, true, List, [], ◌∷◌, bit_or, arith, ltb,
  leb, ltb→lt, leb→le, length, All,
}
use letin.Loader.Result.{Load, ok, guard, ◌>>=◌, ◌>>◌, Ensures, gives, Ensures-bind, Ensures-guard}
use letin.Loader.Bytes.{IsByte, read_byte, read_word, read_byte-Ensures, read_word-Ensures}
use letin.Loader.Format.{Function, Value, Instruction, FunctionInfo, u32, is_value_type}
use letin.Loader.Sizes.{add_exact32}

-- A function's code lies in the code section.
pub record IsFunction (code_size : ℕ) (f : Function) : Type 0 where
  pub starts : f.addr < code_size
  pub ends : f.addr + f.instr_count ≤ code_size

-- A variable is an integer, a float or a reference.
abbrev pub IsValue : Value → Type 0
IsValue v = is_value_type v.type ≡ true

module _ (bs : List ℕ) where
  unfoldable pub read_funs : ℕ → ℕ → ℕ → Load (List Function)
  read_funs code_size p zero = ok []
  read_funs code_size p (suc n) = do
    addr ← read_word bs 4 p
    arg_count ← read_word bs 4 (p + 4)
    instr_count ← read_word bs 4 (p + 8)
    guard (ltb addr code_size)
    let instr_end_addr = u32 (addr + instr_count)
    guard (leb (bit_or addr instr_count) instr_end_addr)
    guard (leb instr_end_addr code_size)
    funs ← read_funs code_size (p + 12) n
    ok (record { addr = addr; arg_count = arg_count; instr_count = instr_count } ∷ funs)

  unfoldable pub read_vars : ℕ → ℕ → Load (List Value)
  read_vars p zero = ok []
  read_vars p (suc n) = do
    type ← read_word bs 4 p
    i ← read_word bs 8 (p + 8)
    guard (is_value_type type)
    vars ← read_vars (p + 16) n
    ok (record { type = type; i = i } ∷ vars)

  unfoldable pub read_code : ℕ → ℕ → Load (List Instruction)
  read_code p zero = ok []
  read_code p (suc n) = do
    opcode ← read_word bs 4 p
    arg1 ← read_word bs 4 (p + 4)
    arg2 ← read_word bs 4 (p + 8)
    code ← read_code (p + 12) n
    ok (record { opcode = opcode; arg1 = arg1; arg2 = arg2 } ∷ code)

  unfoldable pub read_fun_infos : ℕ → ℕ → ℕ → Load (List FunctionInfo)
  read_fun_infos fun_count p zero = ok []
  read_fun_infos fun_count p (suc n) = do
    fun_index ← read_word bs 4 p
    guard (ltb fun_index fun_count)
    eval_strategy ← read_byte bs (p + 4)
    eval_strategy_mask ← read_byte bs (p + 5)
    infos ← read_fun_infos fun_count (p + 12) n
    ok (
        record {
          fun_index = fun_index;
          eval_strategy = eval_strategy;
          eval_strategy_mask = eval_strategy_mask;
        }
        ∷ infos)

module _ (bs : List ℕ) (bytes : All IsByte bs) where
  word4 : (p : ℕ) → p + 4 ≤ length bs → Ensures (λ w. w < 2 ^ 32) (read_word bs 4 p)
  word4 p h = read_word-Ensures bs bytes 4 p h

  pub read_funs-Ensures :
      (code_size p n : ℕ)
      → p + 12 * n ≤ length bs
      → Ensures (λ fs. (length fs ≡ n) × All (IsFunction code_size) fs) (read_funs bs code_size p n)
  unfolding read_funs
  read_funs-Ensures cs p zero h = gives (refl, tt)
  read_funs-Ensures cs p (suc n) h = Ensures-bind (word4 p (omega arith)) λ a ha.
      Ensures-bind (word4 (p + 4) (omega arith)) λ b hb.
        Ensures-bind (word4 (p + 8) (omega arith)) λ c hc. Ensures-guard _ λ e. Ensures-guard _ λ f.
          Ensures-guard _ λ g. Ensures-bind (read_funs-Ensures cs (p + 12) n (omega arith)) λ fs hf.
            gives (
              ap suc hf.0,
              (
                record {
                  starts = ltb→lt a cs e;
                  ends = omega (arith, add_exact32 a c ha hc f, leb→le _ _ g);
                },
                hf.1,
              ),
            )

  pub read_vars-Ensures :
      (p n : ℕ)
      → p + 16 * n ≤ length bs
      → Ensures (λ vs. (length vs ≡ n) × All IsValue vs) (read_vars bs p n)
  unfolding read_vars
  read_vars-Ensures p zero h = gives (refl, tt)
  read_vars-Ensures p (suc n) h = Ensures-bind (word4 p (omega arith)) λ t ht.
      Ensures-bind (read_word-Ensures bs bytes 8 (p + 8) (omega arith)) λ i hi. Ensures-guard _ λ e.
        Ensures-bind (read_vars-Ensures (p + 16) n (omega arith))
          λ vs hv. gives (ap suc hv.0, (e, hv.1))

  pub read_code-Ensures :
      (p n : ℕ) → p + 12 * n ≤ length bs → Ensures (λ is. length is ≡ n) (read_code bs p n)
  unfolding read_code
  read_code-Ensures p zero h = gives refl
  read_code-Ensures p (suc n) h = Ensures-bind (word4 p (omega arith)) λ a ha.
      Ensures-bind (word4 (p + 4) (omega arith)) λ b hb.
        Ensures-bind (word4 (p + 8) (omega arith)) λ c hc.
          Ensures-bind (read_code-Ensures (p + 12) n (omega arith)) λ is hi. gives (ap suc hi)

  pub read_fun_infos-Ensures :
      (fun_count p n : ℕ)
      → p + 12 * n ≤ length bs
      → Ensures
          (λ is. (length is ≡ n) × All (λ i. i.fun_index < fun_count) is)
          (read_fun_infos bs fun_count p n)
  unfolding read_fun_infos
  read_fun_infos-Ensures fc p zero h = gives (refl, tt)
  read_fun_infos-Ensures fc p (suc n) h = Ensures-bind (word4 p (omega arith)) λ a ha.
      Ensures-guard _ λ e. Ensures-bind (read_byte-Ensures bs bytes (p + 4) (omega arith)) λ b hb.
        Ensures-bind (read_byte-Ensures bs bytes (p + 5) (omega arith)) λ c hc.
          Ensures-bind (read_fun_infos-Ensures fc (p + 12) n (omega arith))
            λ is hi. gives (ap suc hi.0, (ltb→lt a fc e, hi.1))
