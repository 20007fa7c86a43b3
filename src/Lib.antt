-- ===== src/Lib.antt =====
-- Letin, a virtual machine for a purely functional language: the model of its core.
--
-- A compiled program reaches the machine as a file. `ImplLoader::load` (vm/impl_loader.cpp) checks
-- the file and makes a `Program` of it; `Program::relocate` (vm/vm.cpp) moves the indexes in the
-- program to where its functions and variables stand among those of the other programs; then a thread
-- (`ThreadContext`, vm/vm.hpp and vm/vm.cpp) runs the functions on its two stacks.
--
-- Common      shared names: Boolean tests, lists over native numbers, bits of words.
-- Opcode      include/letin/opcode.hpp: the word of an instruction and the readers of its fields.
-- Loader      vm/impl_loader.cpp, include/letin/format.hpp. Format holds the records and constants;
--             Result the ways a run can end (`fault` is a read outside the buffer, `stuck` a loop that
--             has not ended); Bytes, Sizes, Sections, Data, Relocs and Symbols the parts of `load`,
--             and Program the whole of it, in the order of the code. The code converts words in place
--             once, before it reads them; the model reads them big-endian. The sets of addresses are
--             lists. The loop over the data section has a fuel of `data_size` rounds, and each round
--             moves on by 8 at least; the other loops count to a number in the header.
-- Relocate    vm/vm.cpp, `Program::relocate`, `relocate_index`, `relocate_native_fun_index`,
--             `get_elem_fun_index`, `set_elem_fun_index`. The maps from names to indexes are functions.
-- Thread      vm/vm.hpp, vm/vm.cpp: `Registers`, the stack operations of `ThreadContext` (Stack, Exprs,
--             Saved), `enter_to_fun` and `leave_from_fun` (Calls), `save_regs_and_set_regs` and
--             `restore_regs` (Outer), `set_error` (Errors). A method takes the context to its result and
--             the context after it; an access outside a stack has no result. A run of a
--             function's code is a relation (Frames). 32-bit registers wrap around. Of the registers,
--             gc_tmp_ptr, tmp_r, cutc, cancelation_undo_types and tmp_expr_values are left out.
-- Link        vm/impl_vm_base.cpp, vm/impl_env.hpp: `ImplVirtualMachineBase::load` up to the relocated
--             programs. Env holds the maps from names, as association lists; Symbols the loops over
--             symbols; Programs the whole. Safe is about files, programs and offsets; Names, Loops and
--             Resolved about the indexes that names get. The code looks names up with find() and end() of
--             two copies of a map; the model asks whether the map has the name.
-- Values      include/letin/vm.hpp, vm/vm.cpp: objects, and the heap as the list of all objects, where a
--             reference is an index. Size is `object_size`; Elems `Object::elem` and `set_elem`, where an element
--             is kept as the bits of the element's width, and read by the type of the element; Equal
--             `operator==` of values and objects, `equal_values` and `equal_objects`, on fuel for the
--             depth of nested objects; Identity and Tuples are about them.
-- Interp      vm/vm/interp_vm.cpp: `interpret`, `interpret_instr` and `interpret_op`. World is the state,
--             a thread and the heap, and what the machine is given; a step has no result where the
--             source leaves what happens undefined. Arith is 64-bit arithmetic on patterns; Fetch,
--             Readers and Operands how operands are got; Objects the checks and the making of objects;
--             Ops, Floats, Arrays, Uniques and Calls the operations, Dispatch their numbers; Instrs,
--             Steps and Loop the instructions. The loop over instructions has fuel. Sharing follows a
--             chain of lazy values with fuel, and forces the pushed arguments. Grows, Fetched, Reads,
--             Made, Typed, TypedUniques, TypedCopies, TypedCalls and Types are about the types of objects
--             and results, Marking and Shares about the chain of lazy values. Forcing a lazy value, the strategies around a call, native calls, OP_TRY and
--             OP_STACKTRACE are parameters, and so are the arithmetic of doubles and the content of
--             new memory.
-- Gc          vm/gc/mark_sweep_gc.cpp and its header. Headers and Collect hold the code: a header is
--             an address, its fields are functions of the address, and 0 is `_S_nil`. The objects that
--             an object refers to are a function, and so are not changed by a collection, which holds
--             the lock of the threads while it marks. Chains, Marks, Roots, Sweeps and Whole are about
--             a collection, Allocation about `allocate`. Marking has fuel for as many objects as can be
--             marked, sweeping for as many as the list has headers. Traversal holds the roots of a
--             thread and the references of an object; Live and Entries are about them.
-- Table       vm/hash_table.hpp, `HashTable`. Ops and Fresh hold the code, with entries as addresses;
--             Links and Cuts are about the doubly linked buckets, Held, Values, Adds, Removed and Dels about
--             the table as a map. The loop over a bucket has fuel.
-- Strategy    vm/strategy, vm/cache/ht_memo_cache.cpp: Indexes and Dispatch for the choice of
--             FunctionEvaluationStrategy, Cache for HashTableMemoizationCache on the tables.
-- Tests       runs on concrete inputs.
--
-- Words are bit patterns, and references are numbers. Not modelled: forcing, native calls and tries in
-- the interpreter, stack traces, the undo list of canceled references, the copying of programs into the
-- heap, what the strategies do around a call, the hashes of keys, the compiler and the native libraries;
-- memory fences and locks, since a thread's registers and stacks are its own, and a table or the
-- collector is used under its lock.
pub mod Common
pub mod Opcode
pub mod Loader
pub mod Thread
pub mod Values
pub mod Relocate
pub mod Interp
pub mod Link
pub mod Gc
pub mod Table
pub mod Strategy
mod Tests
