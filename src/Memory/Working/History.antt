-- ===== src/Memory/Working/History.antt =====
-- src/memory/WorkingMemory.ts: calls of the memory in a sequence.
pub mod Keys
pub mod Protection
pub mod Bounds
use sera_core.Prelude.{ℕ, String, List, [], ◌∷◌}
use sera_core.Memory.PolicyEngine.{Belief, MemoryProposal}
use sera_core.Memory.Working.{WorkingMemory, store, store_belief, propose_belief}

-- a call, with its clock reading and the id that it draws
pub data Command : Type 0 where
  stores : (event : String) → Command
  stores_belief : (now : ℕ) (fresh : String) (b : Belief) → Command
  proposes : (now : ℕ) (fresh : String) (p : MemoryProposal) → Command

unfoldable pub run_command : Command → WorkingMemory → WorkingMemory
run_command (stores event) s = store event s
run_command (stores_belief now fresh b) s = (store_belief now fresh b s).1
run_command (proposes now fresh p) s = (propose_belief now fresh p s).1

unfoldable pub run_commands : List Command → WorkingMemory → WorkingMemory
run_commands [] s = s
run_commands (c ∷ cs) s = run_commands cs (run_command c s)
