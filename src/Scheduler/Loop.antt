-- ===== src/Scheduler/Loop.antt =====
-- `Scheduler::run`: the main loop of the driver, and how far apart its heart beat cycles are.
use kjdmud.Base.{
  subst, append-nil, if_both, ℕ, zero, suc, ◌+◌, ◌<◌, ◌≤◌, Bool, ◌&&◌, ◌||◌, List, [], ◌∷◌, ◌++◌,
  leb, ltb, arith, leb→le, if◌then◌else◌, Bool-cases, inl, inr,
}
use kjdmud.Core.Errors.{Result, ok, err, out_of_fuel, ◌>>=◌, Returns}
use kjdmud.Scheduler.State.{State, Vm}
use kjdmud.Scheduler.CallOuts.{tick_call_outs}
use kjdmud.Scheduler.Heartbeats.{tick_heartbeats}
use kjdmud.Scheduler.Resets.{tick_resets_and_cleanup}

-- What the loop calls of the server and the VM, each free to change the state; `shutdown` reads the
-- flag that `requestShutdown` sets.
pub record Driver : Type 0 where
  pub poll_once : State → State
  pub process_replacements : State → State
  pub resume_tasks : ℕ → State → State
  pub clear_shutdown : State → State
  pub shutdown : State → Bool

-- The time of the last heart beat cycle, and the state.
pub record Loop : Type 0 where
  pub last_heartbeat : ℕ
  pub state : State

-- `kHeartbeatCycle`, in nanoseconds.
abbrev pub heartbeat_cycle : ℕ
heartbeat_cycle = 2000000000

-- The gate in front of the heart beats, with the time of the cycle if there is one.
unfoldable pub cycle : Vm → ℕ → Loop → Loop × List ℕ
unfolding tick_heartbeats tick_resets_and_cleanup
cycle vm fuel l =
    if leb (l.last_heartbeat + heartbeat_cycle) l.state.clock
    then (
      record {
        last_heartbeat = l.state.clock;
        state = (tick_resets_and_cleanup vm (tick_heartbeats vm fuel l.state)).0;
      },
      l.state.clock ∷ [],
    )
    else (l, [])

module _ (d : Driver) (vm : Vm) (fuel : ℕ) where
  unfoldable pub round : Loop → Loop × List ℕ
  unfolding cycle tick_call_outs
  round l =
      let s = d.process_replacements (d.poll_once l.state) in
      let (m, times) = cycle vm fuel (record l { state = s }) in
      (record m { state = d.resume_tasks s.clock (tick_call_outs vm m.state) }, times)

  -- At most `n` rounds; `done` of them are behind. `max_iterations` 0 is no limit.
  unfoldable pub run_rounds : ℕ → ℕ → ℕ → Loop → Result (Loop × List ℕ)
  unfolding round
  run_rounds zero max_iterations done l = err out_of_fuel
  run_rounds (suc n) max_iterations done l =
      let (m, times) = round l in
      let more = run_rounds n max_iterations (done + 1) m >>= λ r. ok (r.0, times ++ r.1) in
      if (ltb 0 max_iterations && leb max_iterations (done + 1)) || d.shutdown m.state
      then ok (m, times)
      else more

  unfoldable pub run : ℕ → ℕ → Loop → Result (Loop × List ℕ)
  unfolding run_rounds
  run n max_iterations l =
      run_rounds n max_iterations 0 (record l { state = d.clear_shutdown l.state })

-- The times lie a cycle or more apart, the first one behind `last`.
abbrev pub IsSpaced : ℕ → List ℕ → Type 0
IsSpaced last [] = Unit
IsSpaced last (t ∷ times) = (last + heartbeat_cycle ≤ t) × IsSpaced t times

-- A round has one cycle at most, and the rest follows from it.
abbrev Continues : ℕ → Loop × List ℕ → Type 0
Continues last r =
    (times : List ℕ) → IsSpaced r.0.last_heartbeat times → IsSpaced last (r.1 ++ times)

cycle-Continues : (vm : Vm) (fuel : ℕ) (l : Loop) → Continues l.last_heartbeat (cycle vm fuel l)
unfolding cycle
cycle-Continues vm fuel l =
    if_both (Continues l.last_heartbeat) (leb (l.last_heartbeat + heartbeat_cycle) l.state.clock)
      (λ due times h. (leb→le (l.last_heartbeat + heartbeat_cycle) l.state.clock due, h))
      (λ early times h. h)

module _ (d : Driver) (vm : Vm) (fuel : ℕ) where
  round-Continues : (l : Loop) → Continues l.last_heartbeat (round d vm fuel l)
  unfolding round
  round-Continues l =
      cycle-Continues vm fuel (record l { state = d.process_replacements (d.poll_once l.state) })

  round-IsSpaced : (l : Loop) → IsSpaced l.last_heartbeat (round d vm fuel l).1
  round-IsSpaced l =
      subst (IsSpaced l.last_heartbeat) (append-nil (round d vm fuel l).1) (round-Continues l [] tt)

  run_rounds-IsSpaced :
      (n max_iterations done : ℕ) (l : Loop)
      → done < max_iterations
      → max_iterations ≤ done + n
      → Returns (λ r. IsSpaced l.last_heartbeat r.1) (run_rounds d vm fuel n max_iterations done l)
  unfolding run_rounds
  run_rounds-IsSpaced zero max_iterations done l h k = absurd (omega arith)
  run_rounds-IsSpaced (suc n) max_iterations done l h k =
      let m = (round d vm fuel l).0 in
      elim (Bool-cases
        ((ltb 0 max_iterations && leb max_iterations (done + 1)) || d.shutdown m.state)) [
          | inl last ↦ (round d vm fuel l, rw last, round-IsSpaced l)
          | inr on ↦
              let (r, e, spaced) =
                run_rounds-IsSpaced n max_iterations (done + 1) m (ground (arith, on))
                  (omega arith) in
              ((r.0, (round d vm fuel l).1 ++ r.1), rw (on, e), round-Continues l r.1 spaced)
        ]

  -- With a limit on the iterations the loop ends, within as many rounds as the limit says, and its
  -- heart beat cycles lie two seconds or more apart, the first one as far behind the last one before
  -- the loop.
  pub run-IsSpaced :
      (n max_iterations : ℕ) (l : Loop)
      → 0 < max_iterations
      → max_iterations ≤ n
      → Returns (λ r. IsSpaced l.last_heartbeat r.1) (run d vm fuel n max_iterations l)
  unfolding run
  run-IsSpaced n max_iterations l h k =
      run_rounds-IsSpaced n max_iterations 0 (record l { state = d.clear_shutdown l.state }) h
        (omega arith)
