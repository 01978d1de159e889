-- ===== src/Scheduler/Heartbeats/Laws.antt =====
-- `set_heart_beat` keeps one entry for each object, and a heart beats once in its interval.
use native.Mathlib.Nat.{div-eq_of_lt, div-eq-sub-div}
use kjdmud.Base.{
  ℕ, zero, suc, ◌+◌, ◌-◌, ◌/◌, ◌≤◌, ◌<◌, ◌≡◌, refl, sym, ap, ◌∙◌, pos, List, [], ◌∷◌, some, arith,
  length,
}
use kjdmud.Core.Text.{codes}
use kjdmud.Object.Heap.{Heap, LpcObject}
use kjdmud.Scheduler.State.{State, HeartbeatEntry, Vm, Call, function_call, driver}
use kjdmud.Scheduler.Heartbeats.{count_down, beat, beat_all, tick_heartbeats, pop, command_giver}

-- The number of heart beats in `n` cycles that LPC code does not interfere with.
pub beats : ℕ → Heap → List HeartbeatEntry → ℕ
unfolding count_down
beats zero heap es = 0
beats (suc n) heap es = let (rest, due) = count_down heap es in length due + beats n heap rest

abbrev heart : ℕ → ℕ → HeartbeatEntry
heart a ticks = record { target = some a; ticks_remaining = pos ticks }

keeps : (n i : ℕ) → suc n + i - 1 - i ≡ n + i - i
keeps n i = omega arith

-- A heart of interval `i` that is left alone, with `t` cycles to go, beats first in the cycle `t` and
-- then every `i` cycles.
pub beats-heart :
    (n : ℕ) (heap : Heap) (a i t : ℕ) (o : LpcObject)
    → heap a ≡ some o
    → o.heartbeat_interval ≡ pos i
    → 0 < t
    → t ≤ i
    → beats n heap (heart a t ∷ []) ≡ (n + i - t) / i
unfolding beats
beats-heart zero heap a i t o h k p q = sym (div-eq_of_lt {n = 0 + i - t} {m = i} (omega arith))
beats-heart (suc n) heap a i zero o h k p q = elim p [ ]
beats-heart (suc n) heap a i (suc zero) o h k p q = ground (
  arith,
  beats-heart n heap a i i o h k,
  div-eq-sub-div {m = i} {n = suc n + i - 1},
  ap (λ (m : ℕ). m / i) (keeps n i),
)
beats-heart (suc n) heap a i (suc (suc t)) o h k p q =
    ground (arith, beats-heart n heap a i (suc t) o h k)

module _ (vm : Vm)
    (balanced : (c : Call) (s : State) → (vm.run c s).0.command_givers ≡ s.command_givers) where
  beat_all-command_givers :
      (fuel : ℕ) (due : List ℕ) (s : State)
      → (beat_all vm fuel due s).command_givers ≡ s.command_givers
  unfolding beat_all
  beat_all-command_givers fuel [] s = refl
  beat_all-command_givers fuel (a ∷ due) s =
      beat_all-command_givers fuel due (beat vm fuel a s)
      ∙ unfold beat in
        ap pop (
          balanced (function_call a (codes "heart_beat") [] driver)
            (record s { command_givers = command_giver fuel s.heap a ∷ s.command_givers }))

  -- The cycle leaves the stack of command givers as it was, whichever of its calls throw, if each
  -- call into LPC code leaves it as it was.
  pub tick_heartbeats-command_givers :
      (fuel : ℕ) (s : State) → (tick_heartbeats vm fuel s).command_givers ≡ s.command_givers
  unfolding tick_heartbeats
  tick_heartbeats-command_givers fuel s =
      let (entries, due) = count_down s.heap s.heartbeats in
      beat_all-command_givers fuel due (record s { heartbeats = entries })
