-- ===== src/Scheduler/State.antt =====
-- include/kjdmud/scheduler/Scheduler.hpp: the entries of the scheduler, and the driver state that LPC
-- code may change when the scheduler calls it. Times are nanoseconds of the steady clock.
use kjdmud.Base.{ℕ, ℤ, Bool, List, Option}
use kjdmud.Core.Text.{Text}
use kjdmud.Core.Errors.{Result}
use kjdmud.Dialect.{LpcDialect}
use kjdmud.Vm.Value.{Value}
use kjdmud.Object.Heap.{Heap}

-- A `shared_ptr<Closure>` that is not null: its address and its weak owner.
pub record Closure : Type 0 where
  pub address : ℕ
  pub owner : Option ℕ

pub record CallOutEntry : Type 0 where
  pub handle : ℕ
  pub target : Option ℕ
  pub function : Text
  pub closure : Option Closure
  pub args : List Value
  pub due_at : ℕ

pub record HeartbeatEntry : Type 0 where
  pub target : Option ℕ
  pub ticks_remaining : ℤ

-- `call_outs`, `heartbeats` and `next_handle` are the scheduler's own fields; `live` is the registry
-- of live objects, `command_givers` the stack of the VM.
pub record State : Type 0 where
  pub clock : ℕ
  pub heap : Heap
  pub live : List (Option ℕ)
  pub command_givers : List (Option ℕ)
  pub call_outs : List CallOutEntry
  pub heartbeats : List HeartbeatEntry
  pub next_handle : ℕ

-- `Origin`, as far as the scheduler passes it on.
pub data Origin : Type 0 where
  driver internal : Origin

-- What the scheduler asks of LPC code.
pub data Call : Type 0 where
  function_call : ℕ → Text → List Value → Origin → Call
  closure_call : ℕ → List Value → Call

-- The VM. A call may change the state in any way, and returns a value or throws; `function_exists`
-- and `random` (a jitter in seconds) read it.
pub record Vm : Type 0 where
  pub run : Call → State → State × Result Value
  pub function_exists : State → ℕ → Text → Bool
  pub driver_hook : State → ℕ → Value
  pub random : State → ℕ
  pub dialect : LpcDialect
