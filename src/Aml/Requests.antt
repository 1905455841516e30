-- ===== src/Aml/Requests.antt =====
-- The calls of `NoccioloAmlHandler` on memory that the interpreter makes while it runs.
pub mod Served
use nocciolo.Base.{ℕ, Outcome, ok, ◌>>=◌}
use nocciolo.Memory.X86.{X86}
use nocciolo.Memory.Mapping.{Paging}
use nocciolo.Aml.Regions.{Cpu, aml_read, aml_write}

-- A run of the interpreter: its result, or a value that it reads or writes, and how it goes on. What it
-- does with ports and the configuration space leaves memory and the page tables alone, and is its own.
pub data Requests (R : Type 0) : Type 0 where
  finished : R → Requests R
  reads : ℕ → ℕ → (ℕ → Requests R) → Requests R
  writes : ℕ → ℕ → ℕ → Requests R → Requests R

module _ (X : X86) (C : Cpu X) where
  -- Each request is a call of the handler.
  unfoldable pub serve :
      {R : Type 0} → Requests R → Paging X → C.Ram → Outcome (R × Paging X × C.Ram)
  serve (finished r) st ram = ok (r, st, ram)
  serve (reads size address rest) st ram =
      aml_read X C size address st ram >>= λ a. serve (rest a.0) a.1 ram
  serve (writes size address value rest) st ram =
      aml_write X C size address value st ram >>= λ a. serve rest a.1 a.0
