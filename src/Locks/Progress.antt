-- ===== src/Locks/Progress.antt =====
-- include/concurrency/seqlock.hpp: neither side waits for ever. A store can always end, and then a load can.
use itch_feed_handler.Common.{
  ℕ, zero, suc, ◌+◌, ◌/◌, ◌%◌, ◌<◌, ◌≡◌, arith, refl, ap, sym, subst, ◌∙◌, true, false, update,
  update_self, update_ne, ℕ_discrete, Bool-cases, inl, inr,
}
use itch_feed_handler.Locks.{
  SeqLock, seq_word, Reach, here, next, IsConsistent, Reach-IsConsistent, write_word, end_store,
  begin_load, read_word, initial, initial-IsConsistent,
}

module _ (size : ℕ) (values : ℕ → ℕ → ℕ) where
  abbrev written_word : SeqLock → ℕ → SeqLock
  written_word l i = record l {
    words = update l.words i (values (l.seq / 2 + 1) i);
    written = update l.written i true;
  }

  abbrev word_read : SeqLock → ℕ → SeqLock
  word_read l i = record l { buffer = update l.buffer i (l.words i); got = update l.got i true }

  Reach-trans :
      {l m n : SeqLock} → Reach size values l m → Reach size values m n → Reach size values l n
  Reach-trans r here = r
  Reach-trans r (next s step) = next (Reach-trans r s) step

  -- What the first words of a store come to.
  record Wrote (l : SeqLock) (n : ℕ) (m : SeqLock) : Type 0 where
    reach : Reach size values l m
    on : m.writing ≡ true
    same : m.seq ≡ l.seq
    words : (i : ℕ) → i < n → m.written i ≡ true

  write_words : (l : SeqLock) (n : ℕ) → l.writing ≡ true → (m : SeqLock) × Wrote l n m
  write_words l zero on =
      (l, record { reach = here; on = on; same = refl; words = λ i h. absurd (omega arith) })
  write_words l (suc n) on =
      let (m, w) = write_words l n on in
      (
        written_word m n,
        record {
          reach = next w.reach (write_word m n w.on);
          on = w.on;
          same = w.same;
          words = λ i h. elim (ℕ_discrete i n) [
            | yes e ↦ ap (update m.written n true) e ∙ update_self m.written n true
            | no ne ↦ update_ne m.written n true i ne ∙ w.words i (omega arith)
          ];
        },
      )

  -- What the first words of a load come to.
  record Got (l : SeqLock) (n : ℕ) (m : SeqLock) : Type 0 where
    reach : Reach size values l m
    on : m.reading ≡ true
    same : m.seq ≡ l.seq
    start : m.started ≡ l.started
    words : (i : ℕ) → i < n → m.got i ≡ true

  read_words : (l : SeqLock) (n : ℕ) → l.reading ≡ true → (m : SeqLock) × Got l n m
  read_words l zero on = (
    l,
    record {
      reach = here;
      on = on;
      same = refl;
      start = refl;
      words = λ i h. absurd (omega arith);
    },
  )
  read_words l (suc n) on =
      let (m, w) = read_words l n on in
      (
        word_read m n,
        record {
          reach = next w.reach (read_word m n w.on);
          on = w.on;
          same = w.same;
          start = w.start;
          words = λ i h. elim (ℕ_discrete i n) [
            | yes e ↦ ap (update m.got n true) e ∙ update_self m.got n true
            | no ne ↦ update_ne m.got n true i ne ∙ w.words i (omega arith)
          ];
        },
      )

  -- A load that returns: every word is read, and the number is the one that it began with.
  pub record Returns (m : SeqLock) (k : ℕ) : Type 0 where
    pub on : m.reading ≡ true
    pub all : (i : ℕ) → i < size → m.got i ≡ true
    pub unchanged : m.started ≡ m.seq
    pub value : (i : ℕ) → i < size → m.buffer i ≡ values k i

  -- With no store under way, the steps of a load alone bring it to its end.
  load_alone :
      (l : SeqLock)
      → IsConsistent size values l
      → l.writing ≡ false
      → (m : SeqLock) × Reach size values l m × Returns m (l.seq / 2)
  load_alone l v idle =
      let even : seq_word l.seq % 2 ≡ 0 = ground (arith, v.parity) in
      let begun : SeqLock = record l { reading = true; started = l.seq; got = λ i. false } in
      let (m, g) = read_words begun size refl in
      let reach = Reach-trans (next here (begin_load l even)) g.reach in
      let w = Reach-IsConsistent size values v reach in
      (
        m,
        reach,
        record {
          on = g.on;
          all = g.words;
          unchanged = g.start ∙ sym g.same;
          value = λ i h.
              w.loaded g.on (g.start ∙ sym g.same) i h (g.words i h)
              ∙ ap (λ (n : ℕ). values (n / 2) i) g.start;
        },
      )

  -- From every state that the steps of the two threads lead to, a store that is under way can end, and then
  -- a load that begins comes to its end without a store: it returns the value of the last store that
  -- began.
  pub load-Returns :
      (buffer : ℕ → ℕ) (l : SeqLock)
      → Reach size values (initial size values buffer) l
      → (m : SeqLock) × Reach size values l m × Returns m ((l.seq + 1) / 2)
  load-Returns buffer l reach =
      let v = Reach-IsConsistent size values (initial-IsConsistent size values buffer) reach in
      elim (Bool-cases l.writing) [
        | inr idle ↦
            let (m, steps, back) = load_alone l v idle in
            let k : l.seq / 2 ≡ (l.seq + 1) / 2 = ground (arith, v.parity) in
            (m, steps, subst (Returns m) k back)
        | inl on ↦
            let (m, w) = write_words l size on in
            let ended : SeqLock = record m { seq = m.seq + 1; writing = false } in
            let reach' : Reach size values l ended = next w.reach (end_store m w.on w.words) in
            let (n, steps, back) =
              load_alone ended (Reach-IsConsistent size values v reach') refl in
            (
              n,
              Reach-trans reach' steps,
              subst (Returns n) (ap (λ (s : ℕ). (s + 1) / 2) w.same) back,
            )
      ]
