-- ===== src/Rings/Recovered.antt =====
-- The recovered packets of a ring against a queue of packets.
use itch_feed_handler.Common.{
  ℕ, zero, suc, ◌+◌, ◌%◌, ◌^◌, ◌≤◌, ◌<◌, ◌≡◌, arith, refl, sym, ap, ◌∙◌, subst, true, false, some,
  List, [], ◌∷◌, ◌++◌, length, update, Memory,
}
use itch_feed_handler.Spsc.{try_push, size_approx}
use itch_feed_handler.Spsc.Invariant.{window, length-window}
use itch_feed_handler.Spsc.Fifo.{window-update}
use itch_feed_handler.Spsc.Queue.{Holds}
use itch_feed_handler.Spsc.Client.{size_approx-Holds, try_push-room, try_pop-Holds}
use itch_feed_handler.Rings.Slots.{
  ZeroCopyRing, PacketSlot, Injected, inject_recovered_packet, consume_recovered, recovery_slot,
  filled, recovery_ring_depth,
}

-- The slots of n packets that follow one another in the ring, from a counter on.
abbrev pub indices : ℕ → ℕ → List ℕ
indices first n = window recovery_ring_depth (λ i. i) first n

-- The queue holds the indices of the packets, which end where the next one will be written.
pub record IsPending (r : ZeroCopyRing) (first n : ℕ) : Type 0 where
  pub holds : Holds recovery_ring_depth r.recovery_queue (indices first n)
  pub fits : n ≤ 1024
  pub next : (first + n) % 1024 ≡ r.recovery_write % 1024

-- The packets that wait, oldest first.
abbrev pub pending : ZeroCopyRing → ℕ → ℕ → List PacketSlot
pending r first n = window recovery_ring_depth r.recovery_slots first n

pub window-append :
    {A : Type 0} (capacity : ℕ) (buffer : ℕ → A) (first n : ℕ)
    → window capacity buffer first (suc n)
      ≡ window capacity buffer first n ++ buffer ((first + n) % capacity) ∷ []
window-append capacity buffer first zero = ground arith
window-append capacity buffer first (suc n) =
    ground (arith, window-append capacity buffer (suc first) n)

length-indices : (first n : ℕ) → length (indices first n) ≡ n
length-indices first n = length-window recovery_ring_depth (λ i. i) first n

-- A packet is read from the slot that its index names.
recovery_slot-mod :
    (r : ZeroCopyRing) (i : ℕ) → recovery_slot r (i % 1024) ≡ r.recovery_slots (i % 1024)
unfolding recovery_slot
recovery_slot-mod r i = ap r.recovery_slots (omega arith)

-- The slot that the next packet is written to.
abbrev pub next_slot : ZeroCopyRing → ℕ
next_slot r = r.recovery_write % 1024

module _ (r : ZeroCopyRing) (first n : ℕ) (packet : Memory) (len recv_ts drops recovered : ℕ)
    (v : IsPending r first n) where
  -- The ring after a packet was accepted.
  abbrev put : ZeroCopyRing
  put = record r {
    recovery_slots =
        update r.recovery_slots (next_slot r)
          (filled (r.recovery_slots (next_slot r)) packet len recv_ts);
    recovery_queue = (try_push recovery_ring_depth r.recovery_queue (next_slot r)).0;
    recovery_write = (r.recovery_write + 1) % 2 ^ 16;
  }

  size : size_approx r.recovery_queue ≡ n
  size =
      size_approx-Holds recovery_ring_depth r.recovery_queue (indices first n) v.holds
      ∙ length-indices first n

  put-Holds :
      n < 1024
      → Holds recovery_ring_depth put.recovery_queue (indices first (suc n))
        × ((try_push recovery_ring_depth r.recovery_queue (next_slot r)).1 ≡ true)
  put-Holds room =
      let (h, done) =
        try_push-room recovery_ring_depth r.recovery_queue (indices first n) (next_slot r) v.holds
          (omega (arith, length-indices first n)) in
      (
        subst (λ t. Holds recovery_ring_depth put.recovery_queue t)
            (ap (λ t. indices first n ++ t ∷ []) (sym v.next)
              ∙ sym (window-append recovery_ring_depth (λ i. i) first n))
            h,
        done,
      )

  put-IsPending : n < 1024 → IsPending put first (suc n)
  put-IsPending room = record {
    holds = (put-Holds room).0;
    fits = omega arith;
    next = omega (arith, v.next);
  }

  put-pending :
      n < 1024
      → pending put first (suc n)
        ≡ pending r first n ++ filled (recovery_slot r (next_slot r)) packet len recv_ts ∷ []
  unfolding recovery_slot
  put-pending room =
      window-update recovery_ring_depth r.recovery_slots
        (filled (r.recovery_slots (next_slot r)) packet len recv_ts) first n (first + n)
        (next_slot r) refl room (sym v.next)
      ∙ ap (λ t. pending r first n ++ filled t packet len recv_ts ∷ [])
          (sym (recovery_slot-mod r r.recovery_write))

  inject_run :
      n < 1024
      → inject_recovered_packet r packet len recv_ts drops recovered ≡ record {
        ring = put;
        drops = drops;
        recovered = (recovered + 1) % 2 ^ 64;
        accepted = true;
      }
  unfolding inject_recovered_packet
  inject_run room = ground (arith, size, (put-Holds room).1)

  -- The packet waits behind the others, which are unchanged.
  abbrev pub Accepts : Injected → Type 0
  Accepts i =
      IsPending i.ring first (suc n)
      × (pending i.ring first (suc n)
          ≡ pending r first n ++ filled (recovery_slot r (next_slot r)) packet len recv_ts ∷ [])
      × (i.accepted ≡ true)
      × (i.drops ≡ drops)
      × (i.recovered ≡ (recovered + 1) % 2 ^ 64)

  -- With a free slot the packet is accepted.
  pub inject-room :
      n < 1024 → Accepts (inject_recovered_packet r packet len recv_ts drops recovered)
  inject-room room =
      subst (λ i. Accepts i) (sym (inject_run room))
        (put-IsPending room, put-pending room, refl, refl, refl)

  inject-slot :
      n < 1024
      → recovery_slot
          (inject_recovered_packet r packet len recv_ts drops recovered).ring
          (next_slot r)
        ≡ filled (recovery_slot r (next_slot r)) packet len recv_ts
  unfolding recovery_slot
  inject-slot room = rw (inject_run room) (ground arith)

  -- With 1024 packets that wait, the packet is dropped and counted, and nothing else changes.
  pub inject-full :
      n ≡ 1024
      → inject_recovered_packet r packet len recv_ts drops recovered
        ≡ record { ring = r; drops = (drops + 1) % 2 ^ 64; recovered = recovered; accepted = false }
  unfolding inject_recovered_packet
  inject-full full = ground (arith, size)

-- A packet is taken from the front, and the others wait on.
pub consume-pending :
    (r : ZeroCopyRing) (first n : ℕ)
    → IsPending r first (suc n)
    → let (r', idx) = consume_recovered r in
      (idx ≡ some (first % 1024))
      × IsPending r' (suc first) n
      × (pending r first (suc n) ≡ recovery_slot r' (first % 1024) ∷ pending r' (suc first) n)
unfolding consume_recovered recovery_slot
consume-pending r first n v =
    let (h, e) =
      try_pop-Holds recovery_ring_depth r.recovery_queue (indices first (suc n)) v.holds in
    (
      e,
      record { holds = h; fits = omega (arith, v.fits); next = omega (arith, v.next) },
      ap (λ t. t ∷ pending r (suc first) n) (ap r.recovery_slots (omega arith)),
    )

-- The consumer reads a slot after it has taken its index. If the ring was full, the next packet is
-- written into that very slot.
pub consume-inject_overwrites :
    (r : ZeroCopyRing) (first : ℕ) (packet : Memory) (len recv_ts drops recovered : ℕ)
    → IsPending r first 1024
    → let (r', idx) = consume_recovered r in
      let i = inject_recovered_packet r' packet len recv_ts drops recovered in
      (idx ≡ some (first % 1024))
      × (i.accepted ≡ true)
      × (recovery_slot i.ring (first % 1024)
          ≡ filled (recovery_slot r' (first % 1024)) packet len recv_ts)
consume-inject_overwrites r first packet len recv_ts drops recovered v =
    let (e, v', p) = consume-pending r first 1023 v in
    let r' = (consume_recovered r).0 in
    let same : r'.recovery_write % 1024 ≡ first % 1024 = omega (arith, v'.next) in
    (
      e,
      (inject-room r' (suc first) 1023 packet len recv_ts drops recovered v' (omega arith)).2,
      subst
          (λ t.
            recovery_slot (inject_recovered_packet r' packet len recv_ts drops recovered).ring t
            ≡ filled (recovery_slot r' t) packet len recv_ts)
          same
          (inject-slot r' (suc first) 1023 packet len recv_ts drops recovered v' (omega arith)),
    )
