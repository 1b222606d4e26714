-- ===== src/Examples/Restores.antt =====
-- A restore, and the gate while it runs.
use leafwiki.Base.{
  ℕ, ◌+◌, ◌≤◌, ◌≡◌, refl, true, false, ◌||◌, List, [], ◌∷◌, some, keep, ltb, ◌==◌, arith,
  if◌then◌else◌,
}
use leafwiki.Restore.Job.{
  Call, starts, phases, gives_up, swapping, new_job, run, status, apply, start,
}
use leafwiki.Restore.Job.Life.{started, finished, starts_alone}
use leafwiki.Restore.Gate.{
  Server, Event, arrives, leaves, engages, arrive, depart, shut, Trace, stop, more, fresh_server,
  new_write_gate, engage, try_enter, leave, wait_for_drain,
}
use leafwiki.Restore.Gate.Drain.{Trace-inflight, first_round, drained_keeps_out, wait_for_drain_lem}

abbrev calls : List Call
calls = starts ∷ phases swapping ∷ starts ∷ gives_up (some "no space") ∷ []

run_tests : ((status (run new_job calls)).needs_intervention ≡ true) × (started new_job calls ≡ 1)
unfolding run status new_job apply start started
run_tests = (refl, refl)

starts_alone_example :
    started new_job calls ≤ finished calls + (if (run new_job calls).running then 1 else 0)
starts_alone_example = starts_alone calls

-- one write is admitted, the gate is engaged, and the write leaves
abbrev busy : Server
busy = record { gate = record { engaged = false; inflight = 1 }; writing = 1 }

abbrev closing : Server
closing = record { gate = record { engaged = true; inflight = 1 }; writing = 1 }

abbrev closed : Server
closed = record { gate = record { engaged = true; inflight = 0 }; writing = 0 }

abbrev draining : List Event
draining = arrives ∷ engages ∷ leaves ∷ []

drains : Trace fresh_server draining closed
unfolding new_write_gate try_enter engage leave
drains =
    more {t = busy} (arrive (omega arith) refl)
      (more {t = closing} (shut refl) (more {t = closed} (depart 0 refl refl) stop))

late : Trace closed (arrives ∷ []) closed
unfolding try_enter
late = more {t = closed} (arrive (omega arith) refl) stop

Trace-inflight_example : closed.gate.inflight ≡ closed.writing
Trace-inflight_example = Trace-inflight drains

drained_keeps_out_example : (closed.writing ≡ 0) × (closed.gate.engaged ≡ true)
drained_keeps_out_example = drained_keeps_out drains refl refl late tt

abbrev rounds : List (ℕ × ℕ)
rounds = (1, 20) ∷ (0, 40) ∷ []

wait_for_drain_tests : wait_for_drain 30 rounds ≡ some true
unfolding wait_for_drain
wait_for_drain_tests = refl

wait_for_drain_example :
    wait_for_drain 30 rounds ≡ first_round (keep (λ r. r.0 == 0 || ltb 30 r.1) rounds)
wait_for_drain_example = wait_for_drain_lem 30 rounds
