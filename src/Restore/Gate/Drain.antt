-- ===== src/Restore/Gate/Drain.antt =====
-- A drained gate that stays engaged keeps every write out.
use leafwiki.Base.{
  ℕ, suc, ◌+◌, ◌<◌, ◌≡◌, refl, true, List, [], ◌∷◌, none, some, arith, keep, Option, Bool, ltb,
  ◌==◌, ◌||◌,
}
use leafwiki.Restore.Gate.{
  Server, Event, leaves, disengages, Step, arrive, depart, shut, reopen, Trace, stop, more,
  fresh_server, new_write_gate, try_enter, leave, engage, disengage, wait_for_drain,
}

-- The counter is the number of admitted requests.
pub record Counts (s : Server) : Type 0 where
  pub exact : s.gate.inflight ≡ s.writing
  pub small : s.writing < 9223372036854775808

Step-Counts : {s t : Server} {e : Event} → Step s e t → Counts s → Counts t
unfolding try_enter leave engage disengage
Step-Counts (arrive small e) h = ground arith
Step-Counts (depart n some_left e) h = ground arith
Step-Counts (shut e) h = ground arith
Step-Counts (reopen e) h = ground arith

Trace-Counts : {s t : Server} {es : List Event} → Trace s es t → Counts s → Counts t
Trace-Counts stop h = h
Trace-Counts (more st tr) h = Trace-Counts tr (Step-Counts st h)

-- In every run of a fresh server the counter of the gate is the number of the requests that it
-- admitted and that have not left.
pub Trace-inflight :
    {s : Server} {es : List Event} → Trace fresh_server es s → s.gate.inflight ≡ s.writing
unfolding new_write_gate
Trace-inflight tr = (Trace-Counts tr (record { exact = refl; small = omega arith })).exact

abbrev pub NoReopening : List Event → Type 0
NoReopening [] = Unit
NoReopening (disengages ∷ es) = ⊥
NoReopening (e ∷ es) = NoReopening es

abbrev pub departures : List Event → ℕ
departures [] = 0
departures (leaves ∷ es) = suc (departures es)
departures (e ∷ es) = departures es

-- While the gate stays engaged, the requests in the server only leave: those at the end and
-- those that left make those at the start.
Trace-engaged :
    {s u : Server} {es : List Event}
    → Trace s es u
    → NoReopening es
    → s.gate.engaged ≡ true
    → (u.gate.engaged ≡ true) × (u.writing + departures es ≡ s.writing)
unfolding try_enter leave engage
Trace-engaged stop q e = (e, omega arith)
Trace-engaged (more (arrive small p) tr) q e = ground (arith, Trace-engaged tr q (ground arith))
Trace-engaged (more (depart n some_left p) tr) q e =
    ground (arith, Trace-engaged tr q (ground arith))
Trace-engaged (more (shut p) tr) q e = ground (arith, Trace-engaged tr q (ground arith))
Trace-engaged (more (reopen p) tr) q e = absurd q

-- Once the gate of a server is engaged and a round of `WaitForDrain` has read 0, no write runs
-- at any later time until the gate is disengaged.
pub drained_keeps_out :
    {s u : Server} {es fs : List Event}
    → Trace fresh_server es s
    → s.gate.engaged ≡ true
    → s.gate.inflight ≡ 0
    → Trace s fs u
    → NoReopening fs
    → (u.writing ≡ 0) × (u.gate.engaged ≡ true)
drained_keeps_out before e z after q =
    ground (arith, Trace-inflight before, Trace-engaged after q e)

abbrev pub first_round : List (ℕ × ℕ) → Option Bool
first_round [] = none
first_round (r ∷ rs) = some (r.0 == 0)

-- `WaitForDrain` answers in the first round that reads 0 or comes after the deadline, and says
-- whether that round read 0; without such a round it still waits.
pub wait_for_drain_lem :
    (deadline : ℕ) (rounds : List (ℕ × ℕ))
    → wait_for_drain deadline rounds ≡ first_round (keep (λ r. r.0 == 0 || ltb deadline r.1) rounds)
unfolding wait_for_drain keep
wait_for_drain_lem deadline [] = refl
wait_for_drain_lem deadline ((loaded, now) ∷ rounds) =
    ground (arith, wait_for_drain_lem deadline rounds)
