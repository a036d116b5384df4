-- ===== src/Handlers/Timers/Spaced.antt =====
-- The complaints of the timers of the remote view change are spaced.
use ava_hotstuff.Prelude.{◌≡◌, true, List, [], ◌∷◌}
use ava_hotstuff.Prelude.Int.{ℤ, pos, negsuc, ◌-ℤ◌, ltb_ℤ}
use ava_hotstuff.Exec.Keeps.{Keeps}
use ava_hotstuff.Core.Messages.{Complain}
use ava_hotstuff.Core.State.{State}
use ava_hotstuff.Relay.{Relay}
use ava_hotstuff.Handlers.Timers.{Signal, complains, timed_out, remote, multicast, rotated, Clock}

-- The height of the last complaint of a timer that was handled without an exception, or that was
-- remote; -5 at first.
abbrev pub last_of : List Signal → ℤ
last_of [] = negsuc 4
last_of (timed_out n ∷ es) = n
last_of (remote n ∷ es) = n
last_of (complains n ∷ es) = last_of es
last_of (multicast v ps ∷ es) = last_of es
last_of (rotated ∷ es) = last_of es

-- Each complaint that a timer sends is about a height more than 100 above that.
abbrev pub IsSpaced : List Signal → Type 0
IsSpaced [] = Unit {0}
IsSpaced (complains n ∷ es) = (ltb_ℤ (pos 100) (n -ℤ last_of es) ≡ true) × IsSpaced es
IsSpaced (timed_out n ∷ es) = IsSpaced es
IsSpaced (remote n ∷ es) = IsSpaced es
IsSpaced (multicast v ps ∷ es) = IsSpaced es
IsSpaced (rotated ∷ es) = IsSpaced es

pub record IsTimed (c : Clock) : Type 0 where
  pub last : c.last_rvc ≡ last_of c.signals
  pub spaced : IsSpaced c.signals

abbrev Timely : Clock → Clock → Type 0
Timely c d = IsTimed c → IsTimed d

record SameSignals (c d : Clock) : Type 0 where
  pub same_last : d.last_rvc ≡ c.last_rvc
  pub same_signals : d.signals ≡ c.signals
