-- ===== src/Sockets/Held.antt =====
-- src/recovery/retransmit_client.cpp: the client's descriptors over any sequence of its calls.
use itch_feed_handler.Common.{
  ℕ, ◌≡◌, arith, refl, ap, ◌∙◌, subst, Bool, true, false, ◌&&◌, ◌||◌, not, Option, none, some, ◌==◌,
  update_ne, ℕ_discrete, Bool-cases, Option-cases, inl, inr,
}
use itch_feed_handler.Types.{Timestamp}
use itch_feed_handler.Recovery.Request.{Connected}
use itch_feed_handler.Sockets.{Socket, shut, new_socket, RawPacket, Arrived}
use itch_feed_handler.Sockets.Client.{
  Results, set_up, connect_to, or_second, connect_either, take_bytes, recv,
}

abbrev is_fd : Option ℕ → ℕ → Bool
is_fd none f = false
is_fd (some g) f = g == f

-- The open descriptors are those of the rest of the process and `fd_`, which is none of them.
pub record Holds (base : ℕ → Bool) (s : Socket) : Type 0 where
  pub others : (f : ℕ) → s.is_open f ≡ (base f || is_fd s.fd f)
  pub own : (f : ℕ) → is_fd s.fd f ≡ true → base f ≡ false

-- A new descriptor is not open yet.
abbrev pub IsNew : (ℕ → Bool) → Option ℕ → Type 0
IsNew t fd = (f : ℕ) → fd ≡ some f → t f ≡ false

new_socket-Holds :
    {base : ℕ → Bool} (s : Socket) (fd : Option ℕ)
    → s.fd ≡ none
    → IsNew base fd
    → Holds base s
    → Holds base (new_socket s fd)
unfolding new_socket
new_socket-Holds s none closed new holds = record {
  others = λ f. holds.others f ∙ rw closed refl;
  own = λ f h. absurd (ground arith);
}
new_socket-Holds {base = base} s (some g) closed new holds = record {
  others = λ f. elim (ℕ_discrete f g) [
    | yes e ↦ ground arith
    | no ne ↦ update_ne s.is_open g true f ne ∙ holds.others f ∙ rw closed (ground arith)
  ];
  own = λ f h. subst (λ x. base x ≡ false) (ground arith) (new g refl);
}

shut-Holds :
    {base : ℕ → Bool} (s : Socket) → Holds base s → Holds base (shut s) × ((shut s).fd ≡ none)
unfolding shut
shut-Holds {base = base} s holds = elim (Option-cases s.fd) [
  | inl e ↦ rw (shut, e) (holds, e)
  | inr (g, e) ↦
      let mine : base g ≡ false = holds.own g (rw e (ground arith)) in
      rw (shut, e)
        (
          record {
            others = λ f. elim (ℕ_discrete f g) [
              | yes same ↦ ground (arith, ap base same)
              | no ne ↦ update_ne s.is_open g false f ne ∙ holds.others f ∙ rw e (ground arith)
            ];
            own = λ f h. absurd (ground arith);
          },
          refl,
        )
]

abbrev is_up : Connected → Bool
is_up Connected.ready = true
is_up Connected.unreachable = false
is_up Connected.exited = false

-- What a connection leaves: nothing more than `fd_` is open, and that only if it says so.
record Connects (base : ℕ → Bool) (r : Socket × Connected) : Type 0 where
  holds : Holds base r.0
  down : is_up r.1 ≡ false → r.0.fd ≡ none

set_up-Connects :
    {base : ℕ → Bool} (login : Bool) (s : Socket) (r : Results)
    → Holds base s
    → Connects base (set_up login s r)
unfolding set_up
set_up-Connects {base = base} login s r holds =
    let (after, closed) = shut-Holds s holds in
    let gone : (c : Connected) → Connects base (shut s, c) =
      λ c. record { holds = after; down = λ h. closed } in
    elim (Bool-cases r.address) [
      | inr e ↦ rw (set_up, e) (gone Connected.unreachable)
      | inl e ↦ elim (Bool-cases r.connected) [
        | inr f ↦ rw (set_up, e, f) (gone Connected.unreachable)
        | inl f ↦ elim (Bool-cases (login && not r.logged_in)) [
          | inl g ↦ rw (set_up, e, f, g) (gone Connected.exited)
          | inr g ↦
              rw (set_up, e, f, g) (record { holds = holds; down = λ h. absurd (ground arith) })
        ]
      ]
    ]

connect_to-Connects :
    {base : ℕ → Bool} (login : Bool) (s : Socket) (r : Results)
    → s.fd ≡ none
    → IsNew base r.socket
    → Holds base s
    → Connects base (connect_to login s r)
unfolding connect_to new_socket
connect_to-Connects {base = base} login s r closed new holds = elim (Option-cases r.socket) [
  | inl e ↦
      rw (connect_to, e)
        (record {
          holds = new_socket-Holds s none closed (subst (IsNew base) e new) holds;
          down = λ h. refl;
        })
  | inr (f, e) ↦
      rw (connect_to, e)
        (set_up-Connects login (new_socket s (some f)) r
          (new_socket-Holds s (some f) closed (subst (IsNew base) e new) holds))
]

or_second-Connects :
    {base : ℕ → Bool} (login has_secondary : Bool) (second : Results) (s : Socket) (c : Connected)
    → IsNew base second.socket
    → Connects base (s, c)
    → Connects base (or_second login has_secondary second s c)
or_second-Connects login has_secondary second s Connected.ready new one = one
or_second-Connects login has_secondary second s Connected.exited new one = one
or_second-Connects login true second s Connected.unreachable new one =
    connect_to-Connects login s second (one.down refl) new one.holds
or_second-Connects login false second s Connected.unreachable new one = one

connect_either-Connects :
    {base : ℕ → Bool} (login has_secondary : Bool) (s : Socket) (first second : Results)
    → s.fd ≡ none
    → IsNew base first.socket
    → IsNew base second.socket
    → Holds base s
    → Connects base (connect_either login has_secondary s first second)
unfolding connect_either
connect_either-Connects {base = base} login has_secondary s first second closed new new' holds =
    let (s1, c1) = connect_to login s first in
    or_second-Connects login has_secondary second s1 c1 new'
      (connect_to-Connects login s first closed new holds)

take_bytes-Holds :
    {base : ℕ → Bool} (s : Socket) (pkt : RawPacket) (a : Arrived) (now : Timestamp)
    → Holds base s
    → Holds base (take_bytes s pkt a now).0
unfolding take_bytes
take_bytes-Holds s pkt (Arrived.error true) now holds = holds
take_bytes-Holds s pkt (Arrived.error false) now holds = holds
take_bytes-Holds s pkt (Arrived.bytes data_in n) now holds = elim (Bool-cases (n == 0)) [
  | inl e ↦ rw (take_bytes, e) (shut-Holds s holds).0
  | inr e ↦ rw (take_bytes, e) holds
]

recv-Holds :
    {base : ℕ → Bool} (s : Socket) (pkt : RawPacket) (a : Arrived) (now : Timestamp)
    → Holds base s
    → Holds base (recv s pkt a now).0
unfolding recv
recv-Holds s pkt a now holds = elim (Option-cases s.fd) [
  | inl e ↦ rw (recv, e) holds
  | inr (f, e) ↦ rw (recv, e) (take_bytes-Holds s pkt a now holds)
]

-- A step of the program that the client takes part in. `handle_recovery` connects only a client that is not
-- connected.
pub data Step (base : ℕ → Bool) : Socket → Socket → Type 0 where
  connects :
      {s : Socket} (login has_secondary : Bool) (first second : Results)
      → s.fd ≡ none
      → IsNew base first.socket
      → IsNew base second.socket
      → Step base s (connect_either login has_secondary s first second).0
  receives :
      {s : Socket} (pkt : RawPacket) (a : Arrived) (now : Timestamp)
      → Step base s (recv s pkt a now).0
  disconnects : {s : Socket} → Step base s (shut s)

pub data Steps (base : ℕ → Bool) : Socket → Socket → Type 0 where
  done : {s : Socket} → Steps base s s
  step : {s s' s'' : Socket} → Step base s s' → Steps base s' s'' → Steps base s s''

Step-Holds : {base : ℕ → Bool} {s s' : Socket} → Step base s s' → Holds base s → Holds base s'
Step-Holds (connects {s = s} login has_secondary first second closed new new') holds =
    (connect_either-Connects login has_secondary s first second closed new new' holds).holds
Step-Holds (receives {s = s} pkt a now) holds = recv-Holds s pkt a now holds
Step-Holds (disconnects {s = s}) holds = (shut-Holds s holds).0

Steps-Holds : {base : ℕ → Bool} {s s' : Socket} → Steps base s s' → Holds base s → Holds base s'
Steps-Holds done holds = holds
Steps-Holds (step first rest) holds = Steps-Holds rest (Step-Holds first holds)

-- From a client that is not connected, any sequence of reads, disconnections and connections, each
-- begun while the client is not connected, as `handle_recovery` sees to, and a disconnection at its end
-- leave just the descriptors open that were open before, whatever the system calls return, as long as a
-- new descriptor is none of those.
pub shut-Steps :
    (base : ℕ → Bool) (s : Socket)
    → Steps base (record { fd = none; is_open = base }) s
    → ((shut s).fd ≡ none) × ((f : ℕ) → (shut s).is_open f ≡ base f)
shut-Steps base s steps =
    let start : Holds base (record { fd = none; is_open = base }) = record {
      others = λ f. ground arith;
      own = λ f h. absurd (ground arith);
    } in
    let (holds, closed) = shut-Holds s (Steps-Holds steps start) in
    (closed, λ f. holds.others f ∙ rw closed (ground arith))
