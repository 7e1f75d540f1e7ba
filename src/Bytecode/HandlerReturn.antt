-- ===== src/Bytecode/HandlerReturn.antt =====
-- src/kernel-bytecode/vm.ts: what an operation clause that does not resume returns to.
pub mod Program
pub mod Checked
pub mod Compiled
use semantic_systems.Base.{◌≡◌, true, some, inr}
use semantic_systems.Kernel.Term.{Number, is_safe_integer}
use semantic_systems.Kernel.Diagnostic.{ok}
use semantic_systems.Kernel.Checker.{check}
use semantic_systems.Kernel.Machine.{RuntimeValue, evaluate}
use semantic_systems.Bytecode.Instruction.{ObservableRuntimeValue, ObservableRuntimeResult}
use semantic_systems.Bytecode.Compiler.{compile_graph}
use semantic_systems.Bytecode.Vm.{InternalResult}
use semantic_systems.Bytecode.HandlerReturn.Program.{
  signature, bound_handler, bound_handler_program,
}
use semantic_systems.Bytecode.HandlerReturn.Checked.{
  check-bound_handler, value_of, machine_bounds, evaluate-bound_handler,
}
use semantic_systems.Bytecode.HandlerReturn.Compiled.{bounds, run_compiled, run-bound_handler}

-- For every safe integer n, the term `let x <- handle s.g () { return x -> return x; g x k ->
-- return n } in return (x, ())` is accepted with the type of a pair of an integer and a unit, and
-- the abstract machine returns the pair of n and the unit, but the compiled term makes the
-- bytecode machine return the integer n: the clause's return skips the rest of the let.
pub check-evaluate-run :
    (n : Number)
    → is_safe_integer n ≡ true
    → (check signature (bound_handler n) ≡ ok (bound_handler_program n))
      × (value_of (evaluate (bound_handler_program n) machine_bounds)
          ≡ some (RuntimeValue.pair (RuntimeValue.int n) RuntimeValue.unit))
      × (run_compiled (compile_graph bounds signature (bound_handler n))
          ≡ inr (
              InternalResult.returned
                (ObservableRuntimeResult.value (ObservableRuntimeValue.int n))))
check-evaluate-run n safe =
    (check-bound_handler n safe, evaluate-bound_handler n, run-bound_handler n)
