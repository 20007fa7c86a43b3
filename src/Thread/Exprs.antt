-- ===== src/Thread/Exprs.antt =====
-- vm/vm.hpp: the methods of `ThreadContext` on the stack of expression values.
use letin.Common.{
  ℕ, ◌+◌, ◌-◌, ◌%◌, ◌^◌, Bool, true, false, Option, none, some, length, ltb, leb, get_elem?, set,
  if◌then◌else◌,
}
use letin.Thread.State.{Value, Registers, Context, Method, u32, modify, pure, ◌>>=◌, ◌>>◌}

unfoldable pub read_expr : ℕ → Method Value
read_expr i c = elim (get_elem? c.expr_stack i) [ none ↦ none | some v ↦ some (v, c) ]

unfoldable pub write_expr : ℕ → Value → Method (Unit {0})
write_expr i v c =
    if ltb i (length c.expr_stack)
    then some (tt, record c { expr_stack = set c.expr_stack i v })
    else none

-- The guard of a push is that its slot is in the stack.
abbrev pub expr_value_pushed : Value → Context → Context
expr_value_pushed v c = record c {
  regs = record c.regs { evc = u32 (c.evc + 1); esec = u32 (c.esec + 1) };
  expr_stack = set c.expr_stack (u32 (c.evbp + c.evc)) v;
}

unfoldable pub push_expr_value : Value → Method Bool
push_expr_value v c =
    if ltb (u32 (c.evbp + c.evc)) (length c.expr_stack)
    then some (true, expr_value_pushed v c)
    else some (false, c)

-- `pop_expr_values(n)`
abbrev pub expr_values_popped : ℕ → Context → Context
expr_values_popped n c = record c {
  regs = record c.regs { evc = c.evc - n; esec = u32 (c.esec + 2 ^ 32 - u32 n) };
}

unfoldable pub pop_expr_values : ℕ → Method Bool
pop_expr_values n c = if leb n c.evc then some (true, expr_values_popped n c) else some (false, c)

-- `pop_expr_values()`
unfoldable pub pop_all_expr_values : Method (Unit {0})
pop_all_expr_values = modify λ r. record r { evc = 0; esec = r.evbp }

-- The index of value `i` from the top, where `i` is below `evc`.
abbrev pub expr_index : Registers → ℕ → ℕ
expr_index r i = (u32 (r.evbp + r.evc) + 2 ^ 64 - i - 1) % 2 ^ 64

-- `none` inside is the result `false`.
unfoldable pub get_expr_value : ℕ → Method (Option Value)
unfolding read_expr
get_expr_value i c =
    if ltb i c.evc
    then (do v ← read_expr (expr_index c.regs i); pure (some v)) c
    else some (none, c)

unfoldable pub set_expr_value : ℕ → Value → Method Bool
unfolding write_expr
set_expr_value i v c =
    if ltb i c.evc then (do write_expr (expr_index c.regs i) v; pure true) c else some (false, c)
