-- ===== src/Lib.antt =====
-- A verification library for semantic-systems: the kernel calculus of src/kernel-calculus, a
-- call-by-push-value language with effect rows, usage grades and one-shot effect handlers, its
-- bytecode compiler and bytecode machine of src/kernel-bytecode, and the reference semantics of
-- scopes and tasks of src/structured-concurrency.
--
-- The parts and how they meet. A client hands `check` (checker.ts) an operation signature and a
-- closed computation term (ast.ts). The checker copies both, infers type, effect row and usage, and
-- takes an accepted program into private custody. `evaluate` (machine.ts) runs such a program on an
-- abstract machine with frames, handlers and one-shot resumption tokens, within bounds on fuel and
-- on the trace; an operation that no handler takes suspends the run, and `resume` goes on from it.
-- The second way to run an accepted program is the compiler (compiler.ts), which makes a graph of
-- blocks of stack instructions, and the machine of vm.ts, which runs a graph within bounds of its
-- own and has a `run` and a `resume` as well. The oracle of structured-concurrency stands alone: it
-- reads a script of events, rejects it at the first event that it does not take, and otherwise
-- reports scopes, tasks, observations and five laws that it computes about them.
--
-- Files and what they model, with paths from the root of the repository:
--   Base                the names shared by all; Base/Tests and Base/Lists: Boolean tests on native
--                       numbers and lists measured by them; Base/Elements and Base/Filters: lemmas
--                       on the elements of a list, on filters and on sorted copies
--   Kernel/Grade        src/kernel-calculus/grade.ts: grades and usage vectors
--   Kernel/Row          src/kernel-calculus/effect-row.ts: rows; Row/Equality, Row/Order, Row/Laws
--   Kernel/Types        src/kernel-calculus/ast.ts: value types and computation types, their copies,
--                       and valueTypesEqual and computationTypesEqual of checker.ts
--   Kernel/Term         src/kernel-calculus/ast.ts: terms and signatures; Term/Clone: their copies
--   Kernel/Diagnostic   src/kernel-calculus/checker.ts: diagnostics and the exception CheckFailure
--   Kernel/Signature    src/kernel-calculus/checker.ts: validateSignature, the operation tables
--   Kernel/Checker      src/kernel-calculus/checker.ts: AlgorithmicChecker, check and
--                       checkEffectAssertion; Checker/Rules has the methods value, computation and
--                       handler, Checker/Parts what they share; Sound, Internal, Below, Converge,
--                       Monotone, Normal, Copies and Effects are about them
--   Kernel/Typing       typing rules for checked terms, apart from the code
--   Kernel/Machine      src/kernel-calculus/machine.ts: State (values, frames, tokens), Step
--                       (transition), Run (runMachine, evaluate), Resume (suspensions, resume);
--                       Typing, Parts, Safety, Bounds, OneShot and Handlers are about them
--   Kernel/Tests        programs and runs, and the theorems at them
--   Bytecode/Instruction  src/kernel-bytecode/instruction.ts, and the types and values that a run
--                       shows, of src/kernel-interpreter/schema.ts
--   Bytecode/Graph      when a graph's targets, constants and capacities are in order
--   Bytecode/Compiler   src/kernel-bytecode/compiler.ts: the Builder and the compilation of values,
--                       computations and clauses; Invariant and WellFormed are about it
--   Bytecode/Vm         src/kernel-bytecode/vm.ts: State (values, frames, the store of live tokens),
--                       Step (the instructions), Run (the loop, run, resume); Reach is the relation
--                       of a machine to the machines its loop comes to; Bounds, Fuel, OneShot and
--                       Resolved are about them
--   Bytecode/HandlerReturn  a family of programs that the two machines run differently
--   Concurrency/Schema  src/structured-concurrency/schema.ts: events, scopes, tasks, observations
--   Concurrency/Oracle  src/structured-concurrency/oracle.ts: the tables and one event; Run: a script,
--                       the report and its laws
--   Concurrency/Transitions  the oracle's step as a relation; Tables, Changes, Ownership, Joins,
--                       Cancels, Dispatches and Report are about the oracle and its laws,
--                       Rejections about the scripts that it rejects, Requests and Exits about leaving
--                       a scope, Scopes, Progress and Closing about how an accepted script goes on
--   Bytecode/Tests, Concurrency/Tests  programs, graphs and scripts, and the theorems at them
--
-- How state and operations correspond. A thrown CheckFailure is an `err` of `Result`, and the
-- RangeError of addUsage the `none` of an Option. A text is the list of its code points; where the
-- code sorts with no comparison, the texts are compared by their UTF-16 code units. A path such as
-- `$.body.value` is the list of its segments, innermost first. The checker's table `valueTypes`,
-- which holds a type for each thunk term, is an annotation in the thunk of a checked term. What the
-- code keeps in weak maps beside an object stands in the constructor of a thunk, a function or a
-- token. The set `internalLive` is the field `live` of the machine, kept by run and not in one set
-- for all runs: the two differ only for a machine that holds tokens of another run, which a thunk of
-- that run brings when a client hands it to `resume`. The collections of external
-- suspensions are a host value that `resume` takes and returns; a token object is its number in the
-- host's list.
-- The method `computation` and its private parts are one function, as are `value` and its parts;
-- the cases of `transition` are functions of their own, composed as the code branches.
-- The Builder's arrays are lists that grow at their end, in a state passed from call to call. In the
-- bytecode machine a stack is a list from its top; a token object is a number, its identity, with its
-- fields, and the weak sets of live tokens are a `Store` that `run` and `resume` take and return. A
-- JavaScript Map, in both parts, is an association list in the order of insertion. The oracle's
-- failures keep their code, the index of the event and the field.
--
-- Bounds and fuel. `run_loop` recurses on the fuel of the evaluation bounds, as the code counts it
-- down; a run out of fuel is a result of the code and of the model. The loop of the bytecode machine
-- recurses on its vm fuel in the same way, and Bytecode/Vm/Fuel is about how much is enough. The
-- theorems on compiled graphs ask for capacities of at most 2 ^ 53, the numbers that JavaScript counts
-- exactly. The loop of `handler` on effects recurses on the number of rounds of the code, one more
-- than there are operations. All else recurses on terms, values, lists or stacks. The oracle has the
-- code's limits on scopes, tasks and yields; the limit on the number of a script's events is the
-- schema's and stands outside it.
--
-- Not modelled: messages, structured facts, derivations and the table of judgments, which no
-- operation reads; machineSnapshot, which prints a machine (the model's snapshot is the machine);
-- tests of property descriptors on untyped values; the decoder of ast.ts; the codecs of schema.ts,
-- which a library builds, and texts of messages. custody.ts and differential.ts of kernel-bytecode
-- test object identity and compare printed results, and the adapter of structured-concurrency runs
-- scripts on fibers of the Effect library: none of them is modelled. The rest of the repository (JSON
-- boundary, transactions, resources, builds, project model, tools) is not part of the library.
pub mod Base
pub mod Kernel
pub mod Bytecode
pub mod Concurrency
