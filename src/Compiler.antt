-- ===== src/Compiler.antt =====
-- src/compiler/CodeGen.cpp and include/kjdmud/compiler/Ast.hpp: from syntax trees to bytecode.
pub mod Ast
pub mod CodeGen
pub mod Eval
pub mod Simulation
pub mod Segments
pub mod Correct
pub mod Return
