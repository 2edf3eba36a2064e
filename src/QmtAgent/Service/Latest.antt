-- ===== src/QmtAgent/Service/Latest.antt =====
-- The readers of the caches (src/qmt_agent/service.py). `validate_quote`, which checks one quote against
-- the fields of its period, is a parameter.
use fpro_v.Base.{
  not, ◌&&◌, Option, none, some, [], ◌∷◌, map, foldl, if◌then◌else◌, Text, codes, text_eq, Dict,
  lookup, Result, ok, raise, bind, value_error, ℕ,
}
use fpro_v.QmtAgent.Service.{StockSubscription, Service, LatestQuotes}
use fpro_v.QmtAgent.Service.Callbacks.{update, or_empty, keys, same_set}

module _ {Q : Type 0} (validate_quote : Text → Q → Result Q) where
  -- `LatestQuotesResponse.select_quote_models`
  abbrev pub validate_in : Option Text → Q → Result Q
  validate_in none quote = raise value_error
  validate_in (some period) quote = validate_quote period quote

  unfoldable pub validate_quotes : Dict Text Text → Dict Text Q → Result (Dict Text Q)
  validate_quotes periods [] = ok []
  validate_quotes periods ((code, quote) ∷ quotes) =
      bind (validate_in (lookup code periods) quote)
        λ checked. bind (validate_quotes periods quotes) λ rest. ok ((code, checked) ∷ rest)

  abbrev pub select_quote_models : Dict Text Text → Dict Text Q → Result (Dict Text Q)
  select_quote_models periods quotes =
      if not (same_set (keys quotes) (keys periods))
      then raise value_error
      else validate_quotes periods quotes

  -- `LatestQuotesResponse.validate_keys`
  abbrev pub validate_keys : LatestQuotes Q → Result (LatestQuotes Q)
  validate_keys response =
      if same_set (keys response.periods) (keys response.quotes)
        && same_set (keys response.updated_at) (keys response.quotes)
      then ok response
      else raise value_error

  -- `LatestQuotesResponse`
  abbrev pub respond_latest : LatestQuotes Q → Result (LatestQuotes Q)
  respond_latest read =
      bind (select_quote_models read.periods read.quotes)
        λ converted. validate_keys (record read { quotes = converted })

module _ {G Q : Type 0} where
  -- the loops of the two readers
  abbrev pub market_data :
      Service G Q → Dict Text (Dict Text Q) → Dict Text Q × Dict Text ℕ → Dict Text Q × Dict Text ℕ
  market_data s [] read = read
  market_data s ((market, quotes) ∷ rest) (found, updated) =
      market_data s rest
        (update found quotes, update updated (or_empty (lookup market s.market_quote_updated_at)))

  abbrev pub add_stock_quotes :
      Service G Q → Text × StockSubscription → LatestQuotes Q → LatestQuotes Q
  add_stock_quotes s (stock, subscription) read =
      let cached = or_empty (lookup stock s.stock_quotes) in
      record {
        quotes = update read.quotes cached;
        periods = update read.periods (map (λ item. (item.0, subscription.period)) cached);
        updated_at = update read.updated_at (or_empty (lookup stock s.stock_quote_updated_at));
      }

module _ {G Q : Type 0} (validate_quote : Text → Q → Result Q) where
  -- `get_market_quotes`
  unfoldable pub get_market_quotes : Service G Q → Result (LatestQuotes Q)
  get_market_quotes s =
      let (found, updated) = market_data s s.market_quotes ([], []) in
      respond_latest validate_quote (record {
        quotes = found;
        periods = map (λ item. (item.0, codes "tick")) found;
        updated_at = updated;
      })

  -- `get_stock_quotes`
  unfoldable pub get_stock_quotes : Service G Q → Result (LatestQuotes Q)
  get_stock_quotes s = respond_latest validate_quote (
      foldl (λ read item. add_stock_quotes s item read)
        (record { quotes = []; periods = []; updated_at = [] }) s.stock_subscriptions)

  -- `get_subscribed_quotes`
  unfoldable pub get_subscribed_quotes : Service G Q → Result (LatestQuotes Q)
  get_subscribed_quotes s = bind (get_market_quotes s) λ market. bind (get_stock_quotes s) λ stock.
      respond_latest validate_quote (record {
        quotes = update market.quotes stock.quotes;
        periods = update market.periods stock.periods;
        updated_at = update market.updated_at stock.updated_at;
      })
