-- ===== src/Locks.antt =====
-- include/concurrency/seqlock.hpp: a value of several words that one thread stores and others load. The
-- words are written and read one at a time, in any order, and each step sees the ones before it,
-- which is what the fences and the orderings of the source are for.
pub mod Progress
use itch_feed_handler.Common.{
  ℕ, ◌+◌, ◌/◌, ◌%◌, ◌^◌, ◌≤◌, ◌<◌, ◌≡◌, arith, refl, ap, sym, ◌∙◌, Bool, true, false, ◌&&◌,
  if◌then◌else◌, update, update_self, update_ne, ℕ_discrete,
}

-- `seq` counts without end; the program's `seq_` is its remainder by 2^32. `writing` and `written`
-- say that a store is under way and which words it has written; `started`, `got` and `buffer` are
-- the count at which a load began, the words that it has read, and what it read.
pub record SeqLock : Type 0 where
  pub seq : ℕ
  pub words : ℕ → ℕ
  pub writing : Bool
  pub written : ℕ → Bool
  pub reading : Bool
  pub started : ℕ
  pub got : ℕ → Bool
  pub buffer : ℕ → ℕ

abbrev pub seq_word : ℕ → ℕ
seq_word n = n % 2 ^ 32

-- The calls as steps, for a value of `size` words, where `values k` is what the k-th store writes and
-- `values 0` the value at the start. A load that finds an odd number does not begin; one that finds
-- another number at the end begins again.
pub data Step (size : ℕ) (values : ℕ → ℕ → ℕ) : SeqLock → SeqLock → Type 0 where
  begin_store :
      (l : SeqLock)
      → l.writing ≡ false
      → Step size values l (record l { seq = l.seq + 1; writing = true; written = λ i. false })
  write_word :
      (l : SeqLock) (i : ℕ)
      → l.writing ≡ true
      → Step size values l (record l {
        words = update l.words i (values (l.seq / 2 + 1) i);
        written = update l.written i true;
      })
  end_store :
      (l : SeqLock)
      → l.writing ≡ true
      → ((i : ℕ) → i < size → l.written i ≡ true)
      → Step size values l (record l { seq = l.seq + 1; writing = false })
  begin_load :
      (l : SeqLock)
      → seq_word l.seq % 2 ≡ 0
      → Step size values l (record l { reading = true; started = l.seq; got = λ i. false })
  read_word :
      (l : SeqLock) (i : ℕ)
      → l.reading ≡ true
      → Step size values l
          (record l { buffer = update l.buffer i (l.words i); got = update l.got i true })

pub data Reach (size : ℕ) (values : ℕ → ℕ → ℕ) (l : SeqLock) : SeqLock → Type 0 where
  here : Reach size values l l
  next : {m n : SeqLock} → Reach size values l m → Step size values m n → Reach size values l n

-- The words are those of the last store, or of the one under way where it has written them; a load
-- during which nothing was stored has read them.
pub record IsConsistent (size : ℕ) (values : ℕ → ℕ → ℕ) (l : SeqLock) : Type 0 where
  pub parity : l.seq % 2 ≡ (if l.writing then 1 else 0)
  pub stored :
      (i : ℕ)
      → i < size
      → l.words i ≡ values (if l.writing && l.written i then l.seq / 2 + 1 else l.seq / 2) i
  pub behind : l.reading ≡ true → l.started ≤ l.seq
  pub even : l.reading ≡ true → l.started % 2 ≡ 0
  pub loaded :
      l.reading ≡ true
      → l.started ≡ l.seq
      → (i : ℕ) → i < size
      → l.got i ≡ true
      → l.buffer i ≡ values (l.started / 2) i

module _ (size : ℕ) (values : ℕ → ℕ → ℕ) where
  pub Step-IsConsistent :
      {l m : SeqLock}
      → Step size values l m
      → IsConsistent size values l
      → IsConsistent size values m
  Step-IsConsistent (begin_store l idle) v = record {
    parity = ground (arith, v.parity);
    stored = λ i h. ground (arith, v.stored i h, v.parity);
    behind = λ r. ground (arith, v.behind r);
    even = v.even;
    loaded = λ r e. absurd (ground (arith, v.behind r));
  }
  Step-IsConsistent (write_word l i on) v = record {
    parity = v.parity;
    stored = λ j h. elim (ℕ_discrete j i) [
      | yes same ↦
          let word =
            ap (update l.words i (values (l.seq / 2 + 1) i)) same
            ∙ update_self l.words i (values (l.seq / 2 + 1) i) in
          let flag = ap (update l.written i true) same ∙ update_self l.written i true in
          word ∙ rw (on, flag, same) refl
      | no other ↦
          let flag = update_ne l.written i true j other in
          update_ne l.words i (values (l.seq / 2 + 1) i) j other ∙ v.stored j h ∙ rw flag refl
    ];
    behind = v.behind;
    even = v.even;
    loaded = λ r e j h g. absurd (ground (arith, v.parity, v.even r));
  }
  Step-IsConsistent (end_store l on all) v = record {
    parity = ground (arith, v.parity);
    stored = λ i h. ground (arith, v.stored i h, v.parity, all i h);
    behind = λ r. ground (arith, v.behind r);
    even = v.even;
    loaded = λ r e. absurd (ground (arith, v.behind r));
  }
  Step-IsConsistent (begin_load l even) v = record {
    parity = v.parity;
    stored = v.stored;
    behind = λ r. omega arith;
    even = λ r. omega (arith, even);
    loaded = λ r e i h g. absurd (ground arith);
  }
  Step-IsConsistent (read_word l i on) v = record {
    parity = v.parity;
    stored = v.stored;
    behind = v.behind;
    even = v.even;
    loaded = λ r e j h g. elim (ℕ_discrete j i) [
      | yes same ↦
          let idle : l.writing ≡ false = ground (arith, v.parity, v.even r) in
          let half : l.seq / 2 ≡ l.started / 2 = omega arith in
          ap (update l.buffer i (l.words i)) same
          ∙ update_self l.buffer i (l.words i)
          ∙ ap l.words (sym same)
          ∙ v.stored j h
          ∙ rw (idle, half) refl
      | no other ↦
          update_ne l.buffer i (l.words i) j other
          ∙ v.loaded r e j h (sym (update_ne l.got i true j other) ∙ g)
    ];
  }

  pub Reach-IsConsistent :
      {l m : SeqLock}
      → IsConsistent size values l
      → Reach size values l m
      → IsConsistent size values m
  Reach-IsConsistent v here = v
  Reach-IsConsistent v (next r s) = Step-IsConsistent s (Reach-IsConsistent v r)

  -- The lock before anything happens, with the words of the first value.
  abbrev pub initial : (ℕ → ℕ) → SeqLock
  initial buffer = record {
    seq = 0;
    words = values 0;
    writing = false;
    written = λ i. false;
    reading = false;
    started = 0;
    got = λ i. false;
    buffer = buffer;
  }

  pub initial-IsConsistent : (buffer : ℕ → ℕ) → IsConsistent size values (initial buffer)
  initial-IsConsistent buffer = record {
    parity = refl;
    stored = λ i h. refl;
    behind = λ r. omega arith;
    even = λ r. refl;
    loaded = λ r e i h g. absurd (ground arith);
  }

  -- With one thread that stores, and however the steps of both sides mix: a load that has read every
  -- word and finds the number that it began with returns one whole value, that of the last store
  -- that was complete when it began. Fewer than 2^31 stores may fall into the time of a load.
  pub load-whole :
      (buffer : ℕ → ℕ) (l : SeqLock)
      → Reach size values (initial buffer) l
      → l.reading ≡ true
      → ((i : ℕ) → i < size → l.got i ≡ true)
      → seq_word l.started ≡ seq_word l.seq
      → l.seq < l.started + 2 ^ 32
      → (i : ℕ) → i < size
      → l.buffer i ≡ values (l.started / 2) i
  load-whole buffer l reach on all same few i h =
      let v = Reach-IsConsistent (initial-IsConsistent buffer) reach in
      v.loaded on (omega (arith, v.behind on)) i h (all i h)
