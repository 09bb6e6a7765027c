-- ===== src/Lib.antt =====
-- Verification of llvm-guard-handler, the native handler of guard failures for LLVM: when a guard
-- fails in optimised code, the call stack is rewritten so that execution goes on in the unoptimised
-- twins (`__unopt_`) of the functions on it.
--
-- The program's parts, those of the handler under src/stackmap_checker and those of the compiler
-- under src/passes, and the modules that model them:
--
--   Memory           memory by bytes: `memcpy`, `memset`, and reads and writes through `uint64_t *`.
--   Heap             `malloc`, `calloc`, `realloc` and `free` of blocks without contents. StackMap.Blocks,
--                    CallStack.Blocks and Guard.Blocks have, for each function of stmap.c,
--                    call_stack_state.c and guard.c that allocates or frees, what it does to the heap.
--   StackMap         stmap.h: the records of the .llvm_stackmaps section. StackMap.Create is
--                    `stmap_create`, StackMap.Query the lookups (`stmap_get_map_record` is
--                    `get_map_record`, and so on). StackMap.Format is LLVM's layout of the section,
--                    and StackMap.Sites the list of call sites, the specifications of the two.
--   Elf              utils.c: `get_addr`, `get_sym_end` and `get_sym_start` over a mapped ELF file.
--                    Elf.System has the calls of the system around them: `get_binary_path`,
--                    `get_elf_header`, `free_header`, and the lookups with their mappings.
--   CallStack        call_stack_state.h; the functions of call_stack_state.c are in the children:
--                    Unwind (`get_registers`, `get_call_stack_state`), Frames (`insert_frames`,
--                    `alloc_empty_frames`, `get_total_stack_size`, `restore_register_state`), Collect
--                    (`collect_map_records`), Inlined (`get_next_patchpoint`, `get_restored_state`,
--                    `collect_inlined_frames`), Segment (`insert_real_addresses`) and Locations
--                    (`stmap_get_location_value`, `get_locations`, `restore_unopt_stack`).
--   Guard            guard.c: `__guard_failure` and `jump_inlined`; Guard.Machine is jump.s.
--   Passes           src/passes. Passes.Names and Passes.Ids are `getTwinName` and
--                    `getNextPatchpointID` of function_passes/CheckPointPass.cpp, Passes.CheckPoint the
--                    pass itself, Passes.Copy function_passes/UnoptimizedCopyPass.cpp, Passes.Live
--                    function_passes/LiveVariablesPass.cpp, Passes.Barrier
--                    basic_block_passes/BarrierPass.cpp, and Passes.Ir what they read of LLVM IR, with
--                    Utils/Utils.h.
--   Examples         a sample stack map and a run of each theorem that has hypotheses.
--
-- How the code is read. Words are natural numbers, and an addition that can wrap is reduced modulo
-- 2 ^ 64. A pointer into an array of records is the record, NULL is `none`. `errx`, `assert` and reads
-- that C leaves undefined are errors of the type `Result`; where the code copies past the end of an
-- object and goes on, the bytes are a parameter. The handler's state is passed explicitly: memory, the
-- frames, and the globals that jump.s reads.
--
-- The compiler runs before the handler, and meets it in the stack map: the ID of a call in an
-- unoptimised function is the inverse of the ID in its twin, which the handler looks up. An
-- instruction of LLVM IR is what the passes can tell of it, and calls of the intrinsics that make
-- records are instructions of their own. The results of instructions are numbers, which stay when
-- an instruction is replaced (`replaceAllUsesWith`). The passes run on the functions of a module in
-- their order, in which copies stand behind the functions they are made of.
--
-- Loops over arrays are recursions on the list. `get_next_patchpoint` and `get_restored_state` run on
-- as many rounds as there are records and one more, since every round meets another record; the
-- recursion of `jump_inlined` runs on fuel that its caller gives. Each of its calls lowers the stack
-- pointer, so fuel above the stack pointer is enough as long as the pointer does not wrap.
--
-- Parameters: libunwind (the frames that it visits and its numbering of the registers), the
-- contents of the binary, what `readlink`, `open` and `mmap` answer, the address that `malloc`
-- returns for the new stack segment, whether `realloc` moves an array, what fresh memory holds,
-- and for LiveVariablesPass the dominator tree, by the numbers of instructions, and the sizes of
-- types.
--
-- The modules named Blocks follow the blocks of a run that does not exit by `errx`; how many frames,
-- inlined calls and locations the run finds are arguments there, since they decide which blocks
-- there are. A round of `collect_inlined_frames` fails there if the array that it reads was moved
-- before. An array of no elements is a block of its own where `malloc` or `calloc` makes it, and
-- `realloc` to no elements frees, as the GNU C library has it.
--
-- Not modelled: LLVM itself, and on which functions and blocks it runs a pass; output to stderr; the
-- contents of freed memory, save that a read of the array of frames that `realloc` took from under a
-- shallow copy is an error; a change of the executable's file during a run.
pub mod Base
pub mod CallStack
pub mod Elf
mod Examples
pub mod Guard
pub mod Heap
pub mod Memory
pub mod Passes
pub mod StackMap
