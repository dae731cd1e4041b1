-- ===== src/Portfolio/Schema.antt =====
-- portfolio/schema.py: the requests on holdings and trades, and their validators. A request's numbers
-- are signed, since the validator is what refuses those of 0 or less.
use household_back.Base.{
  ℤ, pos, ltb_ℤ, leb_ℤ, ltb, leb, ℕ, String, Bool, false, not, ◌&&◌, Option, none, some,
}
use household_back.Core.{Date, bad_request, Result, ◌>>◌, raise_if, strip, text_length}
use household_back.Model.{Market, other_market}

pub record PortfolioCreateRequest : Type 0 where
  pub account_id : ℕ
  pub name : String
  pub code : String
  pub market : Market
  pub current_price : ℤ

pub record PortfolioBuyRequest : Type 0 where
  pub quantity : ℤ
  pub price : ℤ
  pub fee : ℤ
  pub tx_date : Option Date
  pub memo : Option String

pub record PortfolioSellRequest : Type 0 where
  pub quantity : ℤ
  pub sell_price : ℤ
  pub fee : ℤ
  pub tx_date : Option Date
  pub memo : Option String

pub record PortfolioUpdateRequest : Type 0 where
  pub current_price : Option ℤ
  pub name : Option String
  pub code : Option String
  pub market : Option Market
  pub is_archived : Option Bool

pub record PortfolioTxUpdateRequest : Type 0 where
  pub quantity : Option ℤ
  pub price : Option ℤ
  pub fee : Option ℤ
  pub tx_date : Option Date
  pub memo : Option String

-- `x <= 0` and `x < 0`
abbrev not_positive : ℤ → Bool
not_positive x = leb_ℤ x (pos 0)

abbrev is_negative : ℤ → Bool
is_negative x = ltb_ℤ x (pos 0)

-- `x is not None and test(x)`
abbrev pub and_then : {A : Type 0} → Option A → (A → Bool) → Bool
and_then none test = false
and_then (some a) test = test a

-- `not (1 <= len(name.strip()) <= 100)`
unfoldable pub bad_name : String → Bool
unfolding strip text_length
bad_name name = let n = text_length (strip name) in not (leb 1 n && leb n 100)

unfoldable pub validate_buy : PortfolioBuyRequest → Result (Unit {0})
validate_buy req = do
  raise_if (not_positive req.quantity) bad_request
  raise_if (not_positive req.price) bad_request
  raise_if (is_negative req.fee) bad_request

unfoldable pub validate_sell : PortfolioSellRequest → Result (Unit {0})
validate_sell req = do
  raise_if (not_positive req.quantity) bad_request
  raise_if (not_positive req.sell_price) bad_request
  raise_if (is_negative req.fee) bad_request

unfoldable pub validate_item_update : PortfolioUpdateRequest → Result (Unit {0})
unfolding bad_name strip text_length
validate_item_update req = do
  raise_if (and_then req.current_price is_negative) bad_request
  raise_if (and_then req.name bad_name) bad_request
  raise_if (and_then req.code (λ c. ltb 50 (text_length (strip c)))) bad_request

unfoldable pub validate_tx_update : PortfolioTxUpdateRequest → Result (Unit {0})
validate_tx_update req = do
  raise_if (and_then req.quantity not_positive) bad_request
  raise_if (and_then req.price not_positive) bad_request
  raise_if (and_then req.fee is_negative) bad_request

-- OTHER (no lookup) may have an empty code
unfoldable bad_code : Market → String → Bool
unfolding strip text_length
bad_code other_market code = false
bad_code _ code = let n = text_length (strip code) in not (leb 1 n && leb n 50)

unfoldable pub validate_item_create : PortfolioCreateRequest → Result (Unit {0})
unfolding bad_name bad_code
validate_item_create req = do
  raise_if (bad_name req.name) bad_request
  raise_if (bad_code req.market req.code) bad_request
  raise_if (not_positive req.current_price) bad_request
