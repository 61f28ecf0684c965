-- ===== src/Lib.antt =====
-- drob rewrites functions of a running program at run time. What a pass may change rests on an
-- abstract interpretation: each byte of the registers and of the stack carries what is known of it,
-- and the passes ask whether an instruction can execute and whether memory is constant. This
-- library models that core.
--
-- Values (Value): `DynamicValue` of src/ProgramState.hpp, `addDynamicValues` and
-- `multiplyDynamicValue` of src/ProgramState.cpp. Value/Laws says what a value states of a run of
-- the program: an immediate the number, a pointer its base at the entry and an offset.
--
-- Tracked bytes (Elements and its children): the class `State` with its elements. Elements holds
-- `markUnknown`, `clearTail`, `setElements`, `setPtr`, `setImm` and `setType`, Elements/Get
-- `getElements`, Elements/Move `moveElements`, Elements/Merge `mergeElements`. Elements/Describe
-- defines which bytes a state describes and when a state is well formed; Weaken, Fill and Mark are
-- the lemmas on forgetting, on ranges and on overwritten pointers; Write, Get/Sound, Get/RoundTrip,
-- Merge/Sound, Merge/Fixpoint and Merge/Cycle are about the operations.
--
-- Registers (Registers, Registers/Places, Registers/Codes): the table of src/x86/RegisterInfo.cpp
-- and `getRegisterData`, which finds the storage of a part of a register, and the numbers by which
-- the source compares registers.
--
-- The stack (Stack, Stack/Grow): `StackState`, which grows on each access.
--
-- Program state (Program, Program/Registers, Program/Join): `ProgramState` puts registers and stack
-- together; a method takes the state and returns the new one. A const method that grows the mutable
-- stack returns the grown state too.
--
-- Predicates (Predicate and its children): `TriState` of src/Utils.hpp, the condition codes of
-- src/x86/Predicate.cpp and `Instruction::willExecute` of src/Instruction.cpp, which reads the
-- program state.
--
-- Memory ranges (MemProtCache and its children): `isConstant` and `isConfiguredConstant` of
-- src/MemProtCache.cpp.
--
-- Generated code (BinaryPool, BinaryPool/Pages, BinaryPool/Constants): the allocation of code and
-- constants in `BinaryPool` of src/BinaryPool.cpp. Whether the system maps a page at a fixed
-- address is a parameter; the theorems that need it assume that it maps only at the start of a
-- page. The constructor and the resets are not modelled.
--
-- Memory operands (Memory, Memory/Sound): `createMemAccess`, `calculateMemPtr` and
-- `emulateReadAccess` of src/Instruction.cpp. The bytes of the host are a parameter, and a user
-- pointer's number an index into the list of their configurations.
--
-- The encoder (Encoder and its children): src/x86/Encoder.cpp. Numbers holds the numbers of the
-- registers, Operand the class `ModRMEncoding`, Forms the functions `write_modrm_*` and their kin,
-- Opcode the opcodes, Arith, Logic, Move, Vector and Control the encoders of their families, and
-- Dispatch the column of src/x86/Opcodes.inc.h that chooses among them. Decoder is an independent
-- reading of operands by a processor, which Address, Address/Register (the registers of an
-- address), Address/RoundTrip (operands with registers) and Address/Direct (known addresses)
-- compare with; Length counts bytes. Branch models the branches and calls that are written late and
-- the NOPs; Branch/Processor is an independent reading of these, which Target, Special and Nops
-- compare with. The space for branches comes from a pool, which is a parameter. The NOPs are filled
-- in on fuel, one round for each byte, which is enough as each round but the last takes nine.
--
-- Emulation (Emulator and its children): src/x86/Emulator.cpp. An emulation function takes the
-- operands of an instruction with their inputs and returns them with their outputs. Arith has the
-- arithmetic, shifts, comparisons and vector instructions, Control the moves, the stack
-- instructions, calls and returns. The inline assembly runs an instruction on the processor of the
-- host: `Processor` is a parameter, and a theorem names what it needs of it; its shifts are those
-- that set the flags. Shape is the list of operands that the tables give to an arithmetic
-- instruction; Sound, Sound/Flags and Sound/Compare compare outputs and flags with the processor.
--
-- Instructions (Instruction and its children): `getInfo`, `genDynInfo` and `emulate` of
-- src/Instruction.cpp: the operands of an instruction, the registers they read and write, their
-- inputs in a program state (Dynamic), and the new state (Emulate). The row of the opcode and the
-- mask of a register are parameters; the caches are left out. Taint is about the emulation of
-- instructions that have none of their own.
--
-- Opcodes (Opcodes and its children): the operands and the handlers `refine_*` of
-- src/x86/OpcodeInfo.cpp, and in Table the rows of src/x86/Opcodes.inc.h, without the control flow,
-- the code generation and the specialization. Fits runs each emulation function on the operands of
-- its row, Invert is about `arch_invert_branch`.
--
-- Specialization (Specialize and its children): src/x86/Specialize.cpp. A function changes copies
-- of the opcode and of the explicit operands, and the pool of constants; Arith, Compare and Move
-- hold the families. Specialize/Meaning is an independent reading of what a 64-bit instruction does
-- on a machine; the forms of the operands are those of the opcodes' names, and whether the code can
-- reach a pooled constant is left out; Same with its children Add and Logic compares a changed
-- instruction with the original one, and Total with Total/Add adds that the functions return.
--
-- Liveness (Liveness and its children): the masks of src/RegisterInfo.hpp, `processInstruction`,
-- `processBlock` and `handleFunction` of src/passes/LivenessAnalysisPass.hpp, and the removal of
-- instructions in src/passes/DeadWriteEliminationPass.hpp. Liveness/Machine is an independent
-- machine with what src/InstructionInfo.hpp says the masks mean, on whose bits Masks works;
-- Liveness/Sound compares a block with what is left of it, Liveness/Program a whole function, whose
-- liveness data are assumed to fit together. Liveness/Worklist is the queue of blocks: Transfer
-- says on which data the analysis of a block depends, Entry what one change of the data of a block
-- does, Fits when the data of a block fit, Queue which blocks are made invalid, Invariant puts
-- these together, Alive and Start say what the queue has in it, Rounds which blocks the loop still
-- has to do, and Progress that each round returns. A function of the program runs on fuel, one
-- round for each block, and both runs get the same. The loop over the queue runs on fuel, one round
-- for each block that is popped; that it ends is not proved.
--
-- Conventions: an absent result (`none`) is a thrown exception, an assertion that fails, or a
-- fault; numbers are natural numbers, with the wrap-around of a fixed width written out; an array
-- is a function of the index, with the size beside it. A loop with a counter recurs on the elements
-- left, and a step `i += 7` leaves out the next seven. The loops of MemProtCache run on fuel: one
-- round for each address asked for, which is enough since each round goes on at the end of a range
-- that contains the address (MemProtCache/Returns). The offset of a pointer and the registers'
-- bytes are little-endian numbers modulo 2 ^ 64.
--
-- Not modelled: the dumps, which only print; which registers a mask has bits for; the graph of
-- functions and blocks and the other passes on it; the calling convention; the decoder and the
-- converter, which stand on a library that is not part of the repository; and the C interface. The
-- list of memory ranges and the user's configuration are parameters of the queries.
--
-- The modules under Tests apply the theorems to concrete arguments.
pub mod Prelude
pub mod Value
pub mod Elements
pub mod Registers
pub mod Stack
pub mod Program
pub mod Predicate
pub mod MemProtCache
pub mod BinaryPool
pub mod Memory
pub mod Encoder
pub mod Emulator
pub mod Liveness
pub mod Instruction
pub mod Opcodes
pub mod Specialize
mod Tests
