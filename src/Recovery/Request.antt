-- ===== src/Recovery/Request.antt =====
-- src/recovery/retransmit_client.cpp: the packets that the client sends and what it makes of an answer.
use itch_feed_handler.Common.{
  ℕ, zero, suc, ◌+◌, ◌-◌, ◌/◌, ◌%◌, ◌^◌, ◌≤◌, ◌<◌, ◌≡◌, arith, refl, Bool, true, false, ◌||◌, not,
  ◌⊎◌, Option, none, some, List, [], length, get_or, ◌==◌, ltb, if◌then◌else◌, Memory, advance,
  update, update_ne, inl, inr, ◌∙◌,
}
use itch_feed_handler.Wire.{be16}
use itch_feed_handler.Wire.Encode.{be16-at, be64-at, memory_of}
use itch_feed_handler.Mold.{Session, header_of}
use itch_feed_handler.Recovery.Stream.{Got, read_all}

-- `std::memcpy(buf + at, session, 10)`
abbrev put_session : Memory → ℕ → Session → Memory
put_session buf at s =
    let b0 = update buf at s.c0 in
    let b1 = update b0 (at + 1) s.c1 in
    let b2 = update b1 (at + 2) s.c2 in
    let b3 = update b2 (at + 3) s.c3 in
    let b4 = update b3 (at + 4) s.c4 in
    let b5 = update b4 (at + 5) s.c5 in
    let b6 = update b5 (at + 6) s.c6 in
    let b7 = update b6 (at + 7) s.c7 in let b8 = update b7 (at + 8) s.c8 in update b8 (at + 9) s.c9

-- The loop of `request` over the bytes of the sequence number, from byte i - 1 down.
unfoldable pub put_seq : ℕ → Memory → ℕ → Memory
put_seq zero buf seq = buf
put_seq (suc i) buf seq = put_seq i (update buf (10 + i) (seq % 256)) (seq / 256)

-- The buffer that `RetransmitClient::request` sends. `blank` is the buffer before.
unfoldable pub request_bytes : Memory → Session → ℕ → ℕ → Memory
request_bytes blank session start_seq count =
    let buf = put_seq 8 (put_session blank 0 session) start_seq in
    update (update buf 18 (count / 2 ^ 8 % 256)) 19 (count % 256)

-- `sizeof(buf)`
abbrev pub request_size : ℕ
request_size = 20

-- A server that reads the request as a MoldUDP64 header gets what was asked for.
pub header_of-request_bytes :
    (blank : Memory) (session : Session) (start_seq count : ℕ)
    → start_seq < 2 ^ 64
    → count < 2 ^ 16
    → let h = header_of (request_bytes blank session start_seq count) in
      (h.session ≡ session) × (h.sequence_number ≡ start_seq) × (h.message_count ≡ count)
unfolding request_bytes put_seq
header_of-request_bytes blank session start_seq count small few =
    let buf = request_bytes blank session start_seq count in
    (
      refl,
      be64-at buf 10 start_seq small (omega arith) (omega arith) (omega arith) (omega arith)
          (omega arith) (omega arith) (omega arith) refl,
      be16-at buf 18 count few refl refl,
    )

-- `pad_copy`, to `buf + at`. A C string is the list of its bytes before the first 0; a null pointer
-- is as good as an empty one.
unfoldable pub pad_copy : Memory → ℕ → ℕ → List ℕ → ℕ → Memory
pad_copy buf at dst_len src fill_char i =
    let n = if ltb (length src) dst_len then length src else dst_len in
    if ltb i at || not (ltb i (at + dst_len))
    then buf i
    else if ltb (i - at) n
    then get_or src (i - at) 0
    else fill_char

-- The requested session: its name, or spaces.
unfoldable pub put_requested : Memory → Option Session → Memory
put_requested buf none = pad_copy buf 19 10 [] b' '
put_requested buf (some s) = put_session buf 19 s

-- The first bytes of the packet, then with the user name, then with the password.
abbrev login_head : Memory
login_head = update (update (update (λ i. 0) 0 0) 1 62) 2 b'L'

abbrev login_user : List ℕ → Memory
login_user username = pad_copy login_head 3 6 username b' '

abbrev login_pass : List ℕ → List ℕ → Memory
login_pass username password = pad_copy (login_user username) 9 10 password b' '

-- The packet that `NasdaqLoginHandler::login` sends, with `none` for a null session.
unfoldable pub login_bytes : List ℕ → List ℕ → Option Session → Memory
login_bytes username password session =
    let named = put_requested (login_pass username password) session in
    pad_copy (update named 29 b'1') 30 19 [] b' '

pad_copy_inside :
    (buf : Memory) (at dst_len : ℕ) (src : List ℕ) (fill i : ℕ)
    → i < dst_len
    → pad_copy buf at dst_len src fill (at + i)
      ≡ (if ltb i (length src) then get_or src i 0 else fill)
unfolding pad_copy
pad_copy_inside buf at dst_len src fill i h =
    let here : at + i - at ≡ i = omega arith in rw here (ground arith)

pad_copy_outside :
    (buf : Memory) (at dst_len : ℕ) (src : List ℕ) (fill i : ℕ)
    → (i < at) ⊎ (at + dst_len ≤ i)
    → pad_copy buf at dst_len src fill i ≡ buf i
unfolding pad_copy
pad_copy_outside buf at dst_len src fill i h = ground arith

-- A text in a field: cut off at the end of the field, or followed by spaces.
abbrev pub padded : List ℕ → ℕ → ℕ
padded src i = if ltb i (length src) then get_or src i 0 else b' '

empty_padded : (i : ℕ) → padded [] i ≡ b' '
empty_padded i = ground arith

module _ (username password : List ℕ) where
  -- In front of the requested session.
  login_before :
      (i : ℕ) → i < 19 → login_bytes username password none i ≡ login_pass username password i
  unfolding login_bytes put_requested
  login_before i h =
      pad_copy_outside _ 30 19 [] b' ' i (inl (omega arith))
      ∙ update_ne (put_requested (login_pass username password) none) 29 b'1' i
          (λ e. absurd (omega arith))
      ∙ pad_copy_outside (login_pass username password) 19 10 [] b' ' i (inl h)

  login_front : (i : ℕ) → i < 3 → login_bytes username password none i ≡ login_head i
  login_front i h =
      login_before i (omega arith)
      ∙ pad_copy_outside (login_user username) 9 10 password b' ' i (inl (omega arith))
      ∙ pad_copy_outside login_head 3 6 username b' ' i (inl h)

  -- Behind the last field.
  login_behind : (i : ℕ) → 49 ≤ i → login_bytes username password none i ≡ 0
  unfolding login_bytes put_requested
  login_behind i h =
      pad_copy_outside _ 30 19 [] b' ' i (inr h)
      ∙ update_ne (put_requested (login_pass username password) none) 29 b'1' i
          (λ e. absurd (omega arith))
      ∙ pad_copy_outside (login_pass username password) 19 10 [] b' ' i (inr (omega arith))
      ∙ pad_copy_outside (login_user username) 9 10 password b' ' i (inr (omega arith))
      ∙ pad_copy_outside login_head 3 6 username b' ' i (inr (omega arith))
      ∙ ground arith

-- The length, the type and the texts of a login request stand in their fields: a text that is too long
-- is cut off and does not reach the next field.
pub login_bytes_lem :
    (username password : List ℕ)
    → let pkt = login_bytes username password none in
      (be16 (advance pkt 0) ≡ 62)
      × (pkt 2 ≡ b'L')
      × ((i : ℕ) → i < 6 → pkt (3 + i) ≡ padded username i)
      × ((i : ℕ) → i < 10 → pkt (9 + i) ≡ padded password i)
      × ((i : ℕ) → i < 10 → pkt (19 + i) ≡ b' ')
      × (pkt 29 ≡ b'1')
      × ((i : ℕ) → i < 19 → pkt (30 + i) ≡ b' ')
      × ((i : ℕ) → i < 15 → pkt (49 + i) ≡ 0)
unfolding login_bytes put_requested
login_bytes_lem username password = (
  be16-at (login_bytes username password none) 0 62 (omega arith)
      (login_front username password 0 (omega arith))
      (login_front username password 1 (omega arith)),
  login_front username password 2 (omega arith),
  λ i h.
      login_before username password (3 + i) (omega arith)
      ∙ pad_copy_outside (login_user username) 9 10 password b' ' (3 + i) (inl (omega arith))
      ∙ pad_copy_inside login_head 3 6 username b' ' i h,
  λ i h.
      login_before username password (9 + i) (omega arith)
      ∙ pad_copy_inside (login_user username) 9 10 password b' ' i h,
  λ i h.
      pad_copy_outside _ 30 19 [] b' ' (19 + i) (inl (omega arith))
      ∙ update_ne (put_requested (login_pass username password) none) 29 b'1' (19 + i)
          (λ e. absurd (omega arith))
      ∙ pad_copy_inside (login_pass username password) 19 10 [] b' ' i h
      ∙ empty_padded i,
  pad_copy_outside _ 30 19 [] b' ' 29 (inl (omega arith)),
  λ i h. pad_copy_inside _ 30 19 [] b' ' i h ∙ empty_padded i,
  λ i h. login_behind username password (49 + i) (omega arith),
)

pub data LoginResult : Type 0 where
  accepted rejected error : LoginResult

-- `NasdaqLoginHandler::recv_response` after the length: the type of the payload decides.
unfoldable pub response_of : List ℕ × Bool → LoginResult
response_of (payload, false) = LoginResult.error
response_of (payload, true) =
    let type = get_or payload 0 0 in
    if type == b'A'
    then LoginResult.accepted
    else if type == b'J'
    then LoginResult.rejected
    else LoginResult.error

-- What follows the first read.
unfoldable pub after_length : List Got → List ℕ × Bool → Option LoginResult
after_length body (len_buf, false) = some LoginResult.error
after_length body (len_buf, true) =
    let payload_len = be16 (memory_of len_buf) in
    if payload_len == 0 || ltb 64 payload_len
    then some LoginResult.error
    else elim (read_all body payload_len) [ none ↦ none | some r ↦ some (response_of r) ]

-- `NasdaqLoginHandler::recv_response`, with the results of `recv` for the length and for the payload;
-- `none` while it waits.
unfoldable pub recv_response : List Got → List Got → Option LoginResult
recv_response head body = elim (read_all head 2) [ none ↦ none | some r ↦ after_length body r ]

-- What the connection to one address comes to. A login that is refused ends the program.
pub data Connected : Type 0 where
  ready unreachable exited : Connected

-- `RetransmitClient::connect`, with what `connect_to` returns for the two addresses.
unfoldable pub connect : Bool → Connected → Connected → Connected
connect has_secondary Connected.ready second = Connected.ready
connect has_secondary Connected.exited second = Connected.exited
connect has_secondary Connected.unreachable second =
    if has_secondary then second else Connected.unreachable
