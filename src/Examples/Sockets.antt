-- ===== src/Examples/Sockets.antt =====
-- The theorem on the descriptors at a client that connects and is then closed by the server.
use mathlib.Core.Option.{some-injective}
use itch_feed_handler.Common.{ℕ, ◌≡◌, refl, subst, ◌||◌, Bool, true, false, none, some, ◌==◌}
use itch_feed_handler.Sockets.{Socket, shut, RawPacket, Arrived}
use itch_feed_handler.Sockets.Client.{Results, connect_either, recv}
use itch_feed_handler.Sockets.Held.{Steps, done, step, connects, receives, IsNew, shut-Steps}

-- Descriptors 0 to 2 are open.
abbrev base : ℕ → Bool
base f = f == 0 || f == 1 || f == 2

abbrev start : Socket
start = record { fd = none; is_open = base }

abbrev refused : Results
refused = record { socket = some 3; address = true; connected = false; logged_in = false }

abbrev accepted : Results
accepted = record { socket = some 4; address = true; connected = true; logged_in = true }

abbrev connected : Socket
connected = (connect_either true true start refused accepted).0

abbrev blank : RawPacket
blank = record { bytes = λ i. 0; length = 0; recv_timestamp_ns = 0 }

abbrev closed : Socket
closed = (recv connected blank (Arrived.bytes (λ i. 0) 0) 1000).0

refused-IsNew : IsNew base (some 3)
refused-IsNew f e = subst (λ (x : ℕ). base x ≡ false) (some-injective _ _ e) refl

accepted-IsNew : IsNew base (some 4)
accepted-IsNew f e = subst (λ (x : ℕ). base x ≡ false) (some-injective _ _ e) refl

closed-Steps : Steps base start closed
closed-Steps =
    step (connects true true refused accepted refl refused-IsNew accepted-IsNew)
      (step (receives blank (Arrived.bytes (λ i. 0) 0) 1000) done)

shut-Steps_example : ((shut closed).fd ≡ none) × ((f : ℕ) → (shut closed).is_open f ≡ base f)
shut-Steps_example = shut-Steps base closed closed-Steps
