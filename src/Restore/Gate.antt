-- ===== src/Restore/Gate.antt =====
-- writegate.go: the gate that keeps new writes out while a restore swaps the live files, and the
-- server around it. `inflight` is the bit pattern of an int64 that is added to atomically.
pub mod Drain
use leafwiki.Base.{
  ℕ, ◌+◌, ◌%◌, ◌<◌, Bool, true, false, List, [], ◌∷◌, Option, none, some, ltb, ◌==◌, if◌then◌else◌,
  ◌≡◌,
}

pub record WriteGate : Type 0 where
  pub engaged : Bool
  pub inflight : ℕ

abbrev pub int64_mod : ℕ
int64_mod = 18446744073709551616

unfoldable pub new_write_gate : WriteGate
new_write_gate = record { engaged = false; inflight = 0 }

unfoldable pub engage : WriteGate → WriteGate
engage g = record g { engaged = true }

unfoldable pub disengage : WriteGate → WriteGate
disengage g = record g { engaged = false }

unfoldable pub engaged : WriteGate → Bool
engaged g = g.engaged

-- `TryEnter`; the gate is locked for the whole of it.
unfoldable pub try_enter : WriteGate → WriteGate × Bool
try_enter g =
    if g.engaged then (g, false) else (record g { inflight = (g.inflight + 1) % int64_mod }, true)

-- the `leave` that `TryEnter` returns: `inflight.Add(-1)`
unfoldable pub leave : WriteGate → WriteGate
leave g = record g { inflight = (g.inflight + 18446744073709551615) % int64_mod }

-- The loop of `WaitForDrain`, over what its rounds read: the counter and the clock. `none` means
-- that it still waits after these rounds.
unfoldable pub wait_for_drain : ℕ → List (ℕ × ℕ) → Option Bool
wait_for_drain deadline [] = none
wait_for_drain deadline ((loaded, now) ∷ rounds) =
    let rest = wait_for_drain deadline rounds in
    if loaded == 0 then some true else if ltb deadline now then some false else rest

-- A server: its gate, and how many admitted requests have not left.
pub record Server : Type 0 where
  pub gate : WriteGate
  pub writing : ℕ

abbrev pub fresh_server : Server
fresh_server = record { gate = new_write_gate; writing = 0 }

pub data Event : Type 0 where
  arrives leaves engages disengages : Event

-- A request that arrives is counted if the gate admits it. Only an admitted request leaves, and
-- at no time are 2^63 of them in the server.
pub data Step (s : Server) : Event → Server → Type 0 where
  arrive :
      {t : Server}
      → s.writing + 1 < 9223372036854775808
      → t ≡ record {
        gate = (try_enter s.gate).0;
        writing = if (try_enter s.gate).1 then s.writing + 1 else s.writing;
      }
      → Step s arrives t
  depart :
      {t : Server} (n : ℕ)
      → s.writing ≡ n + 1
      → t ≡ record { gate = leave s.gate; writing = n }
      → Step s leaves t
  shut : {t : Server} → t ≡ record s { gate = engage s.gate } → Step s engages t
  reopen : {t : Server} → t ≡ record s { gate = disengage s.gate } → Step s disengages t

pub data Trace : Server → List Event → Server → Type 0 where
  stop : {s : Server} → Trace s [] s
  more :
      {s t u : Server} {e : Event} {es : List Event}
      → Step s e t
      → Trace t es u
      → Trace s (e ∷ es) u
