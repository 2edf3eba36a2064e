-- ===== src/Backtest/Config.antt =====
-- The parameters of a backtest and their checks (src/backtest/config.py). The market hours are in Clock and
-- nothing here reads them.
use fpro_v.Base.{
  Bool, true, false, ◌||◌, ◌&&◌, not, Option, none, some, List, [], ◌∷◌, any, length, if◌then◌else◌,
  ◌==◌, ltb, Text, codes, text_eq, ◌=?◌, member, distinct, Date, Result, ok, raise, bind,
  raise_when, ⊤, configuration_error,
}
use fpro_v.Base.Int.{pos}
use fpro_v.Base.Host.{Host, ◌⊲◌, ◌⊴◌, of_ℤ, zero_f, one_f, is_finite}

pub record BacktestConfig (F : Type 0) : Type 0 where
  pub start_date : Date
  pub end_date : Date
  pub frequency : Text
  pub symbols : Option (List Text)
  pub initial_cash : F
  pub slippage_bps : F
  pub volume_limit : Option F
  pub commission_rate : F
  pub minimum_commission : F
  pub delisting_policy : Text
  pub cash_dividend_model : Text
  pub fractional_share_model : Text

abbrev supported_frequencies : List Text
supported_frequencies =
    codes "1m" ∷ codes "5m" ∷ codes "15m" ∷ codes "30m" ∷ codes "60m" ∷ codes "1d" ∷ []

abbrev is_blank : Text → Bool
is_blank [] = true
is_blank (_ ∷ _) = false

-- the test of a limited universe
abbrev check_symbols : Option (List Text) → Result ⊤
check_symbols none = ok tt
check_symbols (some symbols) =
    if (length symbols == 0) || any is_blank symbols
    then raise configuration_error
    else raise_when (not (length (distinct symbols) == length symbols)) configuration_error

module _ {F : Type 0} ⦃host : Host F⦄ where
  -- `_positive` and `_non_negative`
  abbrev positive : F → Result ⊤
  positive value = raise_when (not (is_finite value) || (value ⊴ zero_f)) configuration_error

  abbrev non_negative : F → Result ⊤
  non_negative value = raise_when (not (is_finite value) || (value ⊲ zero_f)) configuration_error

  abbrev check_volume_limit : Option F → Result ⊤
  check_volume_limit none = ok tt
  check_volume_limit (some limit) =
      raise_when (not ((zero_f ⊲ limit) && (limit ⊴ one_f))) configuration_error

  -- `__post_init__`
  unfoldable pub validate : BacktestConfig F → Result ⊤
  validate c = bind (raise_when (ltb c.end_date c.start_date) configuration_error) (λ _.
      bind
        (raise_when (not (member c.delisting_policy (codes "error" ∷ codes "write_off" ∷ [])))
          configuration_error)
        (λ _.
          bind
            (raise_when (not (c.cash_dividend_model =? codes "source_cash_then_gross"))
              configuration_error)
            (λ _.
              bind
                (raise_when (not (c.fractional_share_model =? codes "floor")) configuration_error)
                (λ _.
                  bind
                    (raise_when (not (member c.frequency supported_frequencies))
                      configuration_error)
                    (λ _. bind (check_symbols c.symbols) (λ _. bind (positive c.initial_cash) (λ _.
                      bind (non_negative c.slippage_bps) (λ _.
                        bind (raise_when (of_ℤ (pos 10_000) ⊴ c.slippage_bps) configuration_error)
                          (λ _. bind (non_negative c.commission_rate) (λ _.
                            bind (non_negative c.minimum_commission)
                              (λ _. check_volume_limit c.volume_limit)))))))))))
