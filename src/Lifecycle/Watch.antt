-- ===== src/Lifecycle/Watch.antt =====
-- The symbols that are prepared before the market opens.
use itch_feed_handler.Common.{
  ℕ, zero, suc, ◌+◌, ◌/◌, ◌%◌, ◌^◌, ◌<◌, ◌≡◌, ◌≢◌, arith, refl, ap, ◌∙◌, true, false, ◌&&◌, ltb,
  ◌==◌, if◌then◌else◌, update, digit, bit_and-shifted, digit-bit_or_self, digit-bit_or_ne, bit_or,
  ℕ_discrete,
}
use itch_feed_handler.Types.{max_locate}
use itch_feed_handler.Message.{Chars8}
use itch_feed_handler.Lifecycle.Manager.{
  SessionManager, add_watched_symbol, is_warmup_symbol, same_ticker, resolve_from,
  try_resolve_watched,
}

-- The bit of a locate code.
abbrev bit_of : (ℕ → ℕ) → ℕ → ℕ
bit_of bits loc = digit (loc % 64) (bits (loc / 64))

-- A bit that is set leaves the others.
bit_of-update :
    (bits : ℕ → ℕ) (loc loc' : ℕ)
    → bit_of (update bits (loc / 64) (bit_or (bits (loc / 64)) (2 ^ (loc % 64)))) loc'
      ≡ (if loc == loc' then 1 else bit_of bits loc')
bit_of-update bits loc loc' = elim (ℕ_discrete loc loc') [
  | yes same ↦ ground (arith, digit-bit_or_self (loc % 64) (bits (loc / 64)))
  | no other ↦ elim (ℕ_discrete (loc' / 64) (loc / 64)) [
    | yes word ↦
        let apart : loc' % 64 ≢ loc % 64 = λ e. other (omega arith) in
        ground (arith, digit-bit_or_ne (loc' % 64) (loc % 64) (bits (loc / 64)) apart)
    | no words ↦ ground arith
  ]
]

-- The symbol that is added is a warm-up symbol if archiving is on and its code is in range; every
-- other symbol is as before.
pub is_warmup_symbol-add_watched_symbol :
    (m : SessionManager) (loc loc' : ℕ)
    → is_warmup_symbol (add_watched_symbol m loc) loc' ≡ (
        if loc == loc'
        then m.eod_archive_enabled && ltb loc max_locate
        else is_warmup_symbol m loc')
unfolding is_warmup_symbol add_watched_symbol
is_warmup_symbol-add_watched_symbol m loc loc' = ground (
  arith,
  bit_of-update m.watched_bits loc loc',
  bit_and-shifted (loc' % 64) (
      update m.watched_bits (loc / 64) (bit_or (m.watched_bits (loc / 64)) (2 ^ (loc % 64)))
        (loc' / 64)),
  bit_and-shifted (loc' % 64) (m.watched_bits (loc' / 64)),
)

resolve_from-match :
    (n : ℕ) (m : SessionManager) (i loc : ℕ) (ticker8 : Chars8) (j : ℕ)
    → j < n
    → same_ticker (m.watched_tickers (i + j)) ticker8 ≡ true
    → resolve_from n m i loc ticker8 ≡ add_watched_symbol m loc
unfolding resolve_from
resolve_from-match zero m i loc ticker8 j h same = absurd (omega arith)
resolve_from-match (suc n) m i loc ticker8 zero h same =
    let here : same_ticker (m.watched_tickers i) ticker8 ≡ true =
      ap (λ (k : ℕ). same_ticker (m.watched_tickers k) ticker8) (omega arith) ∙ same in
    rw here refl
resolve_from-match (suc n) m i loc ticker8 (suc j) h same =
    let there : same_ticker (m.watched_tickers (i + 1 + j)) ticker8 ≡ true =
      ap (λ (k : ℕ). same_ticker (m.watched_tickers k) ticker8) (omega arith) ∙ same in
    ground (arith, resolve_from-match n m (i + 1) loc ticker8 j (omega arith) there)

resolve_from-none :
    (n : ℕ) (m : SessionManager) (i loc : ℕ) (ticker8 : Chars8)
    → ((j : ℕ) → j < n → same_ticker (m.watched_tickers (i + j)) ticker8 ≡ false)
    → resolve_from n m i loc ticker8 ≡ m
unfolding resolve_from
resolve_from-none zero m i loc ticker8 h = refl
resolve_from-none (suc n) m i loc ticker8 h =
    let here : same_ticker (m.watched_tickers i) ticker8 ≡ false =
      ap (λ (k : ℕ). same_ticker (m.watched_tickers k) ticker8) (omega arith) ∙ h 0 (omega arith) in
    let rest = resolve_from-none n m (i + 1) loc ticker8 (λ j k.
      ap (λ (l : ℕ). same_ticker (m.watched_tickers l) ticker8) (omega arith)
      ∙ h (suc j) (omega arith)) in
    rw (resolve_from, here) rest

same_ticker_refl : (t : Chars8) → same_ticker t t ≡ true
unfolding same_ticker
same_ticker_refl t = ground arith

-- A message for a ticker that is watched makes its locate code a warm-up symbol, if archiving is on
-- and the code is in range, and changes no other code. A message for a ticker that is not watched
-- changes nothing.
pub try_resolve_watched_lem :
    (m : SessionManager) (loc : ℕ) (ticker8 : Chars8)
    → ((j : ℕ)
        → j < m.watched_ticker_count
        → m.watched_tickers j ≡ ticker8
        → (loc' : ℕ)
        → is_warmup_symbol (try_resolve_watched m loc ticker8) loc' ≡ (
            if loc == loc'
            then m.eod_archive_enabled && ltb loc max_locate
            else is_warmup_symbol m loc'))
      × (((j : ℕ) → j < m.watched_ticker_count → same_ticker (m.watched_tickers j) ticker8 ≡ false)
          → try_resolve_watched m loc ticker8 ≡ m)
unfolding try_resolve_watched
try_resolve_watched_lem m loc ticker8 = (
  λ j h same loc'.
      let same' : same_ticker (m.watched_tickers (0 + j)) ticker8 ≡ true =
        ap (λ (k : ℕ). same_ticker (m.watched_tickers k) ticker8) (omega arith)
        ∙ ap (λ t. same_ticker t ticker8) same
        ∙ same_ticker_refl ticker8 in
      let run : try_resolve_watched m loc ticker8 ≡ add_watched_symbol m loc =
        ground (arith, resolve_from-match m.watched_ticker_count m 0 loc ticker8 j h same') in
      ap (λ t. is_warmup_symbol t loc') run ∙ is_warmup_symbol-add_watched_symbol m loc loc',
  λ h.
      let run =
        resolve_from-none m.watched_ticker_count m 0 loc ticker8 (λ j k.
          ap (λ (l : ℕ). same_ticker (m.watched_tickers l) ticker8) (omega arith) ∙ h j k) in
      ground (arith, run),
)
