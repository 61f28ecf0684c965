-- ===== src/Encoder.antt =====
-- The encoder of src/x86/Encoder.cpp.
pub mod Numbers
pub mod Operand
pub mod Decoder
pub mod Address
pub mod Forms
pub mod Opcode
pub mod Arith
pub mod Logic
pub mod Move
pub mod Vector
pub mod Control
pub mod Dispatch
pub mod Length
pub mod Branch
