-- ===== src/Lib.antt =====
-- kjdmud, a game driver for LPC: a lexer and compiler, a virtual machine, objects, a scheduler and
-- the network side.
--
-- The parts and their files:
-- Base holds the names that the modules share, the Boolean tests on the natural numbers, lists over
-- them, and the 64-bit integers. Core holds the errors that are thrown, as results, texts as lists of
-- byte codes, and std::to_string and std::stoll.
-- Dialect is src/dialect/LpcDialect.cpp: which of FluffOS, LDMud and DGD is spoken.
-- Lexer is src/compiler/Lexer.cpp. A Cursor is the source from `pos_` on and `line_`; the files
-- Blank, Word, Literal, Heredoc and Symbol are the functions of the class, Tokenize is
-- Lexer::tokenize. Print is an independent printer of lexemes; Progress, Consume and Total are about
-- the loops, RoundTrip about printing and lexing.
-- Vm/Value is include/kjdmud/vm/Value.hpp and src/vm/Value.cpp. A shared pointer to an array, a
-- mapping, a closure or a buffer is null or the contents, with the address where equality reads it.
-- Vm/Value/Editing holds the methods of Mapping.
-- Vm/Bytecode is include/kjdmud/vm/Bytecode.hpp, and Vm/Store and Vm/Machine are VM::run of
-- src/vm/VM.cpp: Store has what an instruction reads and writes besides the stack, Machine the
-- instructions and the handlers of exceptions, with the top of the stack first, Machine/Run the loop
-- with evalCost_ and maxEvalCost_, which are part of the world and which a call may change.
-- Machine/Steady is about drivers in which no call takes the count back or raises the limit, and Cost
-- about the loop in such a driver; Metered adds the counters to a driver whose calls do not look at
-- them, and Plain compares the two. The values and what a call does are the parameter Semantics;
-- Operators has the operators on the values of Vm/Value, Operators/Mappings the sum of mappings, and
-- Activation the local variables with which a function begins and an instance of Semantics; Indexing
-- has Index and RangeIndex as functions of values. The arithmetic of doubles and the shifts of the
-- hardware are the parameter Doubles.
-- Compiler is src/compiler/CodeGen.cpp: Ast has the expressions of include/kjdmud/compiler/Ast.hpp,
-- CodeGen emitExpr with back-patched jumps, CodeGen/Growth what emission keeps, CodeGen/Scoped which
-- expressions are compiled. Eval is an evaluator of expressions with its own account of operators,
-- literals and the scope of names; it shares with the machine what the values do. Simulation says when the
-- machine brings an answer about, with one lemma for each instruction; Segments is about pieces of
-- code, Correct puts them together, and Return is about a whole function.
-- Vm/Save is src/vm/SaveVariable.cpp: Write is writeRealSaveValue, Read is parseRealSaveValue with its
-- strings and numbers, Restore is parseRestoreVariableTopLevel. The C library's "%f" and std::stod are
-- the parameter Format. Values says which values are saved in full, and what is read for them.
-- Object is include/kjdmud/object/LpcObject.hpp, as far as the scheduler and the registries read it,
-- with src/object/LiveObjectRegistry.cpp in Live and src/object/LivingNameRegistry.cpp in Living.
-- Net/Interactive is src/net/InteractiveRegistry.cpp. The registries hold weak pointers: null or an
-- address that the heap may hold no more.
-- Net/Connection is src/net/Connection.cpp. State has the fields of the class, with what the writes
-- that are still to come will do; Output is send with encodeWsFrame, Protocols the messages of GMCP,
-- MSSP, MSDP, MSP and ZMP, Telnet is processTelnetBytes with the negotiation, Frames decodeWsFrames,
-- Input pollLines with the WebSocket handshake. OpenSSL's SHA-1 in base 64 is a parameter of the
-- handshake. Items is an independent description of the telnet stream, FrameLaws and Masking have a client
-- that frames its text; Delivery, Typed and FrameStuck say what arrives. Net/Binding is attach and
-- close of the same class, with src/net/SnoopRelay.cpp; Net/Unbinding is about the two.
-- Persist is src/persist/StateSerializer.cpp: Writing is serializeWorldValue with serializeClosure,
-- Reading deserializeWorldValue with deserializeClosure, on the whole text and a position in it. How a
-- stream shows a double and std::stod are parameters, and so are the tables of ids. Restoring says what
-- comes back for a value. Places, Steps, Scalars, Arrays, Tables, Closures and Dumping
-- lead to RoundTrip. World is dumpState; Placing is the part of restoreState that reads the placements,
-- and Placements and Placed are about it; Restore is the rest of restoreState, Restored about the places
-- of the objects. The object manager is the parameter Manager.
-- Scheduler is src/scheduler/Scheduler.cpp, with LpcObject::armReset. The virtual machine is the
-- parameter Vm: a call of LPC code may change the scheduler's state, the heap and the registry in any
-- way, and returns or throws. Times are nanoseconds. Loop is Scheduler::run, with the server and the
-- rest of the VM as the parameter Driver; its rounds are bounded by an argument, and the limit on the
-- iterations is enough for it.
-- Security/Uid is src/security/UidModel.cpp.
-- Setup is src/config/Config.cpp; Setup/Reading holds `trim` and what it uses of the C++ library.
-- Tests holds runs of the code and the theorems at concrete inputs.
--
-- Bounds and fuel: the lexer's loops run on one more than the length of the text that is left,
-- which is enough. The reader of saved values runs on fuel; more than twice the length of a
-- written text is enough, and there are other texts on which the code does not end. The reader of
-- a dump runs on fuel, of which the length of the text is enough for what was dumped; there are
-- other texts on which the code does not end. The walk up the shadows in the heart beat cycle
-- takes its bound as an argument. The loops over lines and WebSocket frames run on one more than
-- the length of their buffer; that is enough for the lines, and for the frames of a client that
-- announces its lengths truly. The line counter and the handle counter of the code are machine
-- integers; here they do not wrap.
--
-- The loop of the machine runs on fuel, of which the limit of the eval cost is enough if no call takes
-- the count back or raises the limit; else the code need not end. The count does not wrap here. Jump
-- targets, pool indexes and argument counts are taken to fit the 32 bits that the code casts them to.
--
-- Not modelled: the parser and the efuns, which are large; of the code generator and the
-- interpreter the statements, indexing, mappings, spreads, closures, classes and sscanf, and in the
-- interpreter's values the flags and the sharing of arrays;
-- the server and the sockets of LPC code, which call the system; the TLS session of a
-- connection and its input_to; the boot glue.
pub mod Base
pub mod Core
pub mod Dialect
pub mod Lexer
pub mod Vm
pub mod Compiler
pub mod Object
pub mod Net
pub mod Scheduler
pub mod Security
pub mod Setup
pub mod Persist
pub mod Tests
