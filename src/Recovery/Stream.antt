-- ===== src/Recovery/Stream.antt =====
-- src/recovery/retransmit_client.cpp, `write_all` and `read_all`: whole buffers over a stream that takes
-- and gives them in parts. What `send` and `recv` return is a list, one result for each call.
use itch_feed_handler.Common.{
  ℕ, zero, suc, ◌+◌, ◌-◌, ◌≤◌, ◌≡◌, ◌≢◌, arith, refl, ap, ◌∙◌, Bool, true, false, Option, none,
  some, List, [], ◌∷◌, ◌++◌, length, Memory, min,
}
use mathlib.Core.Option.{some-ne-none}

-- The result of a `send`: how many bytes it took, or the error. It takes no more than it is given.
pub data Sent : Type 0 where
  took : ℕ → Sent
  interrupted : Sent
  failed : Sent

-- The result of a `recv`: the bytes that it got, none if the peer closed, or the error. It gets no
-- more than it is asked for.
pub data Got : Type 0 where
  bytes : List ℕ → Got
  interrupted : Got
  failed : Got

-- The n bytes of a buffer from an offset on.
abbrev pub bytes_at : Memory → ℕ → ℕ → List ℕ
bytes_at p off zero = []
bytes_at p off (suc n) = p off ∷ bytes_at p (suc off) n

-- The bytes of one call in front of those of the calls that follow.
abbrev pub prepend : List ℕ → Option (List ℕ × Bool) → Option (List ℕ × Bool)
prepend pre none = none
prepend pre (some (rest, done)) = some (pre ++ rest, done)

-- `write_all`, with the pointer as an offset: the bytes that went out and what the function returns;
-- `none` while it waits.
unfoldable pub write_all : List Sent → Memory → ℕ → ℕ → Option (List ℕ × Bool)
write_all results p off zero = some ([], true)
write_all [] p off (suc count) = none
write_all (took n ∷ results) p off (suc count) =
    let m = min n (suc count) in
    prepend (bytes_at p off m) (write_all results p (off + m) (suc count - m))
write_all (Sent.interrupted ∷ results) p off (suc count) = write_all results p off (suc count)
write_all (Sent.failed ∷ results) p off (suc count) = some ([], false)

-- `read_all`: the bytes that were stored and what the function returns; `none` while it waits. The
-- bytes beyond those that were asked for stay in the stream.
unfoldable pub read_all : List Got → ℕ → Option (List ℕ × Bool)
read_all results zero = some ([], true)
read_all [] (suc count) = none
read_all (bytes [] ∷ results) (suc count) = some ([], false)
read_all (bytes (x ∷ xs) ∷ results) (suc count) =
    prepend (x ∷ xs) (read_all results (suc count - length (x ∷ xs)))
read_all (Got.interrupted ∷ results) (suc count) = read_all results (suc count)
read_all (Got.failed ∷ results) (suc count) = some ([], false)

bytes_at-append :
    (p : Memory) (off m n : ℕ) → bytes_at p off m ++ bytes_at p (off + m) n ≡ bytes_at p off (m + n)
bytes_at-append p off zero n =
    let here : off + 0 ≡ off = omega arith in
    let all : 0 + n ≡ n = omega arith in rw (here, all) refl
bytes_at-append p off (suc m) n =
    let next : off + suc m ≡ suc off + m = omega arith in
    let all : suc m + n ≡ suc (m + n) = omega arith in
    rw (next, all) (ap (λ t. p off ∷ t) (bytes_at-append p (suc off) m n))

-- What has been put on the stream when the function returns.
abbrev pub Written : Memory → ℕ → ℕ → Option (List ℕ × Bool) → Type 0
Written p off count none = Unit
Written p off count (some (wire, true)) = wire ≡ bytes_at p off count
Written p off count (some (wire, false)) = (m : ℕ) × (m ≤ count) × (wire ≡ bytes_at p off m)

Written-prefix :
    (p : Memory) (off count m : ℕ) (r : Option (List ℕ × Bool))
    → m ≤ count
    → Written p (off + m) (count - m) r
    → Written p off count (prepend (bytes_at p off m) r)
Written-prefix p off count m none h w = tt
Written-prefix p off count m (some (rest, true)) h w =
    ap (λ t. bytes_at p off m ++ t) w
    ∙ bytes_at-append p off m (count - m)
    ∙ (let all : m + (count - m) ≡ count = omega arith in rw all refl)
Written-prefix p off count m (some (rest, false)) h (k, small, w) =
    (m + k, omega arith, ap (λ t. bytes_at p off m ++ t) w ∙ bytes_at-append p off m k)

-- However the stream splits the buffer and whatever interrupts it: with `true` exactly the bytes of
-- the buffer went out, in order; with `false` a part of it from its start.
pub write_all-Written :
    (results : List Sent) (p : Memory) (off count : ℕ)
    → Written p off count (write_all results p off count)
unfolding write_all
write_all-Written results p off zero = refl
write_all-Written [] p off (suc count) = tt
write_all-Written (took n ∷ results) p off (suc count) =
    let m = min n (suc count) in
    Written-prefix p off (suc count) m _ (omega arith)
      (write_all-Written results p (off + m) (suc count - m))
write_all-Written (Sent.interrupted ∷ results) p off (suc count) =
    write_all-Written results p off (suc count)
write_all-Written (Sent.failed ∷ results) p off (suc count) = (0, omega arith, refl)

-- A stream that goes on taking bytes lets the function return.
abbrev pub takes : List Sent → ℕ
takes [] = 0
takes (took zero ∷ results) = takes results
takes (took (suc n) ∷ results) = suc (takes results)
takes (Sent.interrupted ∷ results) = takes results
takes (Sent.failed ∷ results) = takes results

some-next : (r : Option (List ℕ × Bool)) (pre : List ℕ) → r ≢ none → prepend pre r ≢ none
some-next none pre h = h
some-next (some (rest, done)) pre h = λ e. some-ne-none _ e

pub write_all-returns :
    (results : List Sent) (p : Memory) (off count : ℕ)
    → count ≤ takes results
    → write_all results p off count ≢ none
unfolding write_all
write_all-returns results p off zero h = λ e. some-ne-none _ e
write_all-returns [] p off (suc count) h = absurd (omega arith)
write_all-returns (took zero ∷ results) p off (suc count) h =
    some-next _ _ (write_all-returns results p _ _ (omega arith))
write_all-returns (took (suc n) ∷ results) p off (suc count) h =
    some-next _ _ (write_all-returns results p _ _ (omega arith))
write_all-returns (Sent.interrupted ∷ results) p off (suc count) h =
    write_all-returns results p off (suc count) h
write_all-returns (Sent.failed ∷ results) p off (suc count) h = λ e. some-ne-none _ e
