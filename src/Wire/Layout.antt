-- ===== src/Wire/Layout.antt =====
-- include/protocol/itch_messages.hpp, the packed `Wire*` structs: each is the list of its fields with
-- their widths in bytes, so an offset is what the fields in front of it add up to.
use Prim.Native.String.{String}
use text.Mathlib.Text.{◌==◌ as str_eq}
use itch_feed_handler.Common.{ℕ, ◌+◌, List, [], ◌∷◌, ◌++◌, if◌then◌else◌}

abbrev pub Layout : Type 0
Layout = List (String × ℕ)

-- `sizeof`
abbrev pub size_of : Layout → ℕ
size_of [] = 0
size_of ((n, w) ∷ l) = w + size_of l

-- `offsetof`
abbrev pub offset_of : String → Layout → ℕ
offset_of name [] = 0
offset_of name ((n, w) ∷ l) = if str_eq n name then 0 else w + offset_of name l

-- The fields that every message starts with.
abbrev pub wire_header : Layout
wire_header = ("type", 1) ∷ ("locate", 2) ∷ ("tracking", 2) ∷ ("timestamp", 6) ∷ []

abbrev pub wire_system_event : Layout
wire_system_event = wire_header ++ ("event_code", 1) ∷ []

abbrev pub wire_stock_directory : Layout
wire_stock_directory =
    wire_header
    ++ ("stock", 8)
      ∷ ("market_category", 1)
      ∷ ("financial_status", 1)
      ∷ ("round_lot_size", 4)
      ∷ ("round_lots_only", 1)
      ∷ ("issue_classification", 1)
      ∷ ("issue_sub_type", 2)
      ∷ ("authenticity", 1)
      ∷ ("short_sale_threshold", 1)
      ∷ ("ipo_flag", 1)
      ∷ ("luld_tier", 1)
      ∷ ("etp_flag", 1)
      ∷ ("etp_leverage", 4)
      ∷ ("inverse_indicator", 1)
      ∷ []

abbrev pub wire_stock_trading_action : Layout
wire_stock_trading_action =
    wire_header ++ ("stock", 8) ∷ ("trading_state", 1) ∷ ("reserved", 1) ∷ ("reason", 4) ∷ []

abbrev pub wire_reg_sho : Layout
wire_reg_sho = wire_header ++ ("stock", 8) ∷ ("reg_sho_action", 1) ∷ []

abbrev pub wire_market_participant : Layout
wire_market_participant =
    wire_header
    ++ ("mpid", 4)
      ∷ ("stock", 8)
      ∷ ("primary_mm", 1)
      ∷ ("mm_mode", 1)
      ∷ ("participant_state", 1)
      ∷ []

abbrev pub wire_mwcb_decline : Layout
wire_mwcb_decline = wire_header ++ ("level1", 8) ∷ ("level2", 8) ∷ ("level3", 8) ∷ []

abbrev pub wire_mwcb_status : Layout
wire_mwcb_status = wire_header ++ ("breached_level", 1) ∷ []

abbrev pub wire_ipo_quoting : Layout
wire_ipo_quoting =
    wire_header
    ++ ("stock", 8)
      ∷ ("ipo_quotation_release_time", 4)
      ∷ ("ipo_quotation_release_qualifier", 1)
      ∷ ("ipo_price", 4)
      ∷ []

abbrev pub wire_luld_auction_collar : Layout
wire_luld_auction_collar =
    wire_header
    ++ ("stock", 8)
      ∷ ("auction_collar_ref_price", 4)
      ∷ ("upper_auction_collar_price", 4)
      ∷ ("lower_auction_collar_price", 4)
      ∷ ("auction_collar_extension", 4)
      ∷ []

abbrev pub wire_operational_halt : Layout
wire_operational_halt =
    wire_header ++ ("stock", 8) ∷ ("market_code", 1) ∷ ("operational_halt_action", 1) ∷ []

abbrev pub wire_add_order : Layout
wire_add_order =
    wire_header
    ++ ("order_ref", 8) ∷ ("buy_sell", 1) ∷ ("shares", 4) ∷ ("stock", 8) ∷ ("price", 4) ∷ []

abbrev pub wire_add_order_mpid : Layout
wire_add_order_mpid =
    wire_header
    ++ ("order_ref", 8)
      ∷ ("buy_sell", 1)
      ∷ ("shares", 4)
      ∷ ("stock", 8)
      ∷ ("price", 4)
      ∷ ("attribution", 4)
      ∷ []

abbrev pub wire_order_executed : Layout
wire_order_executed =
    wire_header ++ ("order_ref", 8) ∷ ("executed_shares", 4) ∷ ("match_number", 8) ∷ []

abbrev pub wire_order_executed_price : Layout
wire_order_executed_price =
    wire_header
    ++ ("order_ref", 8)
      ∷ ("executed_shares", 4)
      ∷ ("match_number", 8)
      ∷ ("printable", 1)
      ∷ ("execution_price", 4)
      ∷ []

abbrev pub wire_order_cancel : Layout
wire_order_cancel = wire_header ++ ("order_ref", 8) ∷ ("cancelled_shares", 4) ∷ []

abbrev pub wire_order_delete : Layout
wire_order_delete = wire_header ++ ("order_ref", 8) ∷ []

abbrev pub wire_order_replace : Layout
wire_order_replace =
    wire_header
    ++ ("orig_order_ref", 8) ∷ ("new_order_ref", 8) ∷ ("new_shares", 4) ∷ ("new_price", 4) ∷ []

abbrev pub wire_trade : Layout
wire_trade =
    wire_header
    ++ ("order_ref", 8)
      ∷ ("buy_sell", 1)
      ∷ ("shares", 4)
      ∷ ("stock", 8)
      ∷ ("price", 4)
      ∷ ("match_number", 8)
      ∷ []

abbrev pub wire_cross_trade : Layout
wire_cross_trade =
    wire_header
    ++ ("shares", 8)
      ∷ ("stock", 8)
      ∷ ("cross_price", 4)
      ∷ ("match_number", 8)
      ∷ ("cross_type", 1)
      ∷ []

abbrev pub wire_broken_trade : Layout
wire_broken_trade = wire_header ++ ("match_number", 8) ∷ []

abbrev pub wire_noii : Layout
wire_noii =
    wire_header
    ++ ("paired_shares", 8)
      ∷ ("imbalance_shares", 8)
      ∷ ("imbalance_direction", 1)
      ∷ ("stock", 8)
      ∷ ("far_price", 4)
      ∷ ("near_price", 4)
      ∷ ("current_ref_price", 4)
      ∷ ("cross_type", 1)
      ∷ ("price_variation_indicator", 1)
      ∷ []

abbrev pub wire_rpi_indicator : Layout
wire_rpi_indicator = wire_header ++ ("stock", 8) ∷ ("interest_flag", 1) ∷ []
