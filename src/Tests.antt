-- ===== src/Tests.antt =====
-- Concrete states for the tests, and the tests of each part.
mod Elements
mod Program
mod BinaryPool
mod Join
mod Encoder
mod Emulator
mod Specialize
mod Opcodes
mod Liveness
mod Memory
use drob.Prelude.{ℕ, Option, none, some}
use drob.Value.{DynamicValueType}
use drob.Elements.{State}

-- `n` elements of one type with one byte.
abbrev pub flat : ℕ → DynamicValueType → ℕ → State
flat n t byte = record { size = n; bytes = λ _. byte; metadata = λ _. record { type = t; nr = 0 } }

abbrev pub or_else {ℓ} : {A : Type ℓ} → A → Option A → A
or_else a none = a
or_else a (some b) = b
