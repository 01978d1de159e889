-- ===== src/Vm.antt =====
-- src/vm: the values of LPC, the text format in which they are saved, and the interpreter.
pub mod Value
pub mod Save
pub mod Bytecode
pub mod Store
pub mod Machine
pub mod Operators
pub mod Activation
pub mod Indexing
