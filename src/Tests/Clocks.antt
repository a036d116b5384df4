-- ===== src/Tests/Clocks.antt =====
-- Timers of blocks that are 60 heights apart.
use ava_hotstuff.Prelude.{◌*◌, ◌≡◌, refl, none, some, List, [], ◌∷◌}
use ava_hotstuff.Prelude.Int.{pos, negsuc, ◌-ℤ◌}
use ava_hotstuff.Exec.{◌>>=◌}
use ava_hotstuff.Core.State.{State, load, emit}
use ava_hotstuff.Execution.{Base, handle_event}
use ava_hotstuff.Handlers.Timers.{Clock, complains, timed_out, Tick, fires, tick_all}
use ava_hotstuff.Tests.{hooks, chain, holding}
use ava_hotstuff.Tests.Routes.{node}
use ava_hotstuff.Tests.Relays

abbrev spread : State Base
spread = record node {
  core = (holding λ r. record (chain r) { height = (chain r).height * 60 }).core;
}

abbrev ticks : List Tick
ticks = fires 60 1 ∷ fires 120 2 ∷ fires 180 3 ∷ fires 240 4 ∷ []

abbrev first : Clock
first = record { node = spread; relay = Relays.node; last_rvc = negsuc 4; signals = [] }

abbrev last : Clock
last = elim (tick_all hooks ticks first) [ none ↦ first | some c ↦ c ]

-- The timers of the heights 60 and 180 are passed over.
two_complaints :
    last.signals
    ≡ timed_out (pos 240) ∷ complains (pos 240) ∷ timed_out (pos 120) ∷ complains (pos 120) ∷ []
unfolding tick_all ◌>>=◌ load emit ◌-ℤ◌ handle_event
two_complaints = refl

-- Block 6 is not delivered: the handling of its complaint throws once it is sent, and the timer of the
-- same height sends it again.
abbrev twice : Clock
twice = elim (tick_all hooks (fires 120 6 ∷ fires 120 6 ∷ []) first) [ none ↦ first | some c ↦ c ]

sent_twice : twice.signals ≡ complains (pos 120) ∷ complains (pos 120) ∷ []
unfolding tick_all ◌>>=◌ load emit ◌-ℤ◌ handle_event
sent_twice = refl
