-- ===== src/Routing/Directory.antt =====
-- src/routing/symbol_directory.cpp and include/routing/symbol_directory.hpp: the symbols by locate
-- code. The ninth byte of a ticker, always 0, is left out.
use itch_feed_handler.Common.{
  ℕ, ◌+◌, ◌%◌, ◌^◌, ◌≡◌, ◌≢◌, arith, refl, ap, Bool, true, false, ◌||◌, Option, none, some, ◌==◌,
  leb, if◌then◌else◌, update, update_self, update_ne, Bool-cases, inl, inr, ◌∙◌,
}
use itch_feed_handler.Types.{num_shards, max_locate}
use itch_feed_handler.Message.{Chars8}

pub record SymbolInfo : Type 0 where
  pub ticker : Chars8
  pub locate : ℕ
  pub shard : ℕ
  pub market_category : ℕ
  pub round_lot_size : ℕ
  pub financial_status : ℕ
  pub is_active : Bool

pub record SymbolDirectory : Type 0 where
  pub symbols : ℕ → SymbolInfo
  pub count : ℕ

-- `SymbolDirectory::shard_for_locate`
abbrev pub shard_for_locate : ℕ → ℕ
shard_for_locate loc = loc % num_shards

-- `loc == 0 || loc >= MAX_LOCATE`
abbrev pub is_invalid : ℕ → Bool
is_invalid loc = loc == 0 || leb max_locate loc

-- The entry that `register_symbol` writes.
abbrev pub symbol : ℕ → Chars8 → ℕ → ℕ → ℕ → SymbolInfo
symbol loc stock8 lot_size market_cat fin_status = record {
  ticker = stock8;
  locate = loc;
  shard = shard_for_locate loc;
  market_category = market_cat;
  round_lot_size = lot_size;
  financial_status = fin_status;
  is_active = true;
}

-- `SymbolDirectory::register_symbol`
unfoldable pub register_symbol : SymbolDirectory → ℕ → Chars8 → ℕ → ℕ → ℕ → SymbolDirectory
register_symbol d loc stock8 lot_size market_cat fin_status = if is_invalid loc then d else record {
  symbols = update d.symbols loc (symbol loc stock8 lot_size market_cat fin_status);
  count = (d.count + 1) % 2 ^ 64;
}

-- `SymbolDirectory::lookup`, with `none` for the null pointer
unfoldable pub lookup : SymbolDirectory → ℕ → Option SymbolInfo
lookup d loc =
    if is_invalid loc
    then none
    else if (d.symbols loc).is_active
    then some (d.symbols loc)
    else none

-- `SymbolDirectory::reset`
unfoldable pub reset : SymbolDirectory → SymbolDirectory
reset d = record {
  symbols = λ loc.
      if leb max_locate loc then d.symbols loc else record (d.symbols loc) { is_active = false };
  count = 0;
}

found_active :
    (d : SymbolDirectory) (loc : ℕ) (info : SymbolInfo)
    → is_invalid loc ≡ false
    → d.symbols loc ≡ info
    → info.is_active ≡ true
    → lookup d loc ≡ some info
unfolding lookup
found_active d loc info valid e active = rw (lookup, valid, e, active) refl

registered :
    (d : SymbolDirectory) (loc : ℕ) (stock8 : Chars8) (lot_size market_cat fin_status : ℕ)
    → is_invalid loc ≡ false
    → (register_symbol d loc stock8 lot_size market_cat fin_status).symbols
      ≡ update d.symbols loc (symbol loc stock8 lot_size market_cat fin_status)
unfolding register_symbol
registered d loc stock8 lot_size market_cat fin_status valid = rw (register_symbol, valid) refl

refused :
    (d : SymbolDirectory) (loc : ℕ) (stock8 : Chars8) (lot_size market_cat fin_status : ℕ)
    → is_invalid loc ≡ true
    → register_symbol d loc stock8 lot_size market_cat fin_status ≡ d
unfolding register_symbol
refused d loc stock8 lot_size market_cat fin_status invalid = rw (register_symbol, invalid) refl

same_entry :
    (d d' : SymbolDirectory) (loc : ℕ)
    → d'.symbols loc ≡ d.symbols loc
    → lookup d' loc ≡ lookup d loc
unfolding lookup
same_entry d d' loc e =
    ap (λ (x : SymbolInfo). if is_invalid loc then none else if x.is_active then some x else none) e

reset-lookup : (d : SymbolDirectory) (loc : ℕ) → lookup (reset d) loc ≡ none
unfolding lookup reset
reset-lookup d loc = ground arith

-- A symbol that is registered under a valid locate code is found there, with its shard; under every
-- other code the lookup gives what it gave, and an invalid code changes nothing. After a reset no
-- code is known.
pub register_symbol-lookup :
    (d : SymbolDirectory) (loc : ℕ) (stock8 : Chars8) (lot_size market_cat fin_status other : ℕ)
    → let d' = register_symbol d loc stock8 lot_size market_cat fin_status in
      (is_invalid loc ≡ false
        → lookup d' loc ≡ some (symbol loc stock8 lot_size market_cat fin_status))
      × (other ≢ loc → lookup d' other ≡ lookup d other)
      × (is_invalid loc ≡ true → d' ≡ d)
      × (lookup (reset d') other ≡ none)
register_symbol-lookup d loc stock8 lot_size market_cat fin_status other =
    let d' = register_symbol d loc stock8 lot_size market_cat fin_status in
    let info = symbol loc stock8 lot_size market_cat fin_status in
    (
      λ valid.
          found_active d' loc info valid
            (ap (λ f. f loc) (registered d loc stock8 lot_size market_cat fin_status valid)
              ∙ update_self d.symbols loc info)
            refl,
      λ h. elim (Bool-cases (is_invalid loc)) [
        | inl invalid ↦
            ap (λ x. lookup x other) (refused d loc stock8 lot_size market_cat fin_status invalid)
        | inr valid ↦ same_entry d d' other (
            ap (λ f. f other) (registered d loc stock8 lot_size market_cat fin_status valid)
            ∙ update_ne d.symbols loc info other h)
      ],
      refused d loc stock8 lot_size market_cat fin_status,
      reset-lookup d' other,
    )
