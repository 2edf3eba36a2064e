-- ===== src/Backtest/Portfolio/SessionTests.antt =====
-- Runs of an account across sessions, in millionths (src/backtest/portfolio.py).
use fpro_v.Base.{
  Text, text_eq, ◌≡◌, refl, Option, none, some, List, [], ◌∷◌, false, Text, codes, date, lookup,
  Result, ok, ⊤,
}
use fpro_v.Base.Int.{pos, ◌-ℤ◌}
use fpro_v.Base.Host.{Micro, micro_host}
use fpro_v.Backtest.Portfolio.State.{Key, code, key_eq, Position, Portfolio}
use fpro_v.Backtest.Portfolio.Trading.{unlock_t1}
use fpro_v.Backtest.Portfolio.Dividends.{emptied}
use fpro_v.Backtest.Portfolio.Sessions.{unlock_t1_frees}

abbrev bank : Key
bank = code (codes "600000.SH")

-- 110 shares: 10 of them a bonus that is not listed yet
abbrev shares : Position Micro
shares = record {
  symbol = codes "600000.SH";
  quantity = pos 110;
  sellable_quantity = pos 0;
  pending_listing_quantity = pos 10;
  last_price = some (pos 10_000_000);
  stale_price = false;
  sid = none;
}

abbrev other : Key
other = Key.code (codes "000001.SZ")

abbrev account : Portfolio Micro
account = record {
  cash = pos 5_000_000;
  identities = none;
  session = some (date 2024 1 2);
  positions = (bank, shares) ∷ [];
  receivables = [];
  entitlements = [];
  pending_stock = (codes "CA:2", (bank, pos 10)) ∷ (codes "CA:3", (other, pos 7)) ∷ [];
  last_equity = pos 5_000_000;
}

abbrev unlocked : Portfolio Micro
unlocked = record account { positions = (bank, record shares { sellable_quantity = pos 100 }) ∷ [] }

account-unlock_t1 : unlock_t1 account ≡ (ok tt, unlocked)
unfolding unlock_t1 fpro_v.Backtest.Portfolio.State.assert_valid
    fpro_v.Backtest.Portfolio.State.is_valid ◌-ℤ◌ fpro_v.Base.Int.◌*ℤ◌ fpro_v.Base.Int.◌+ℤ◌
    fpro_v.Backtest.Portfolio.State.position_value fpro_v.Base.Int.◌/ℤ◌
account-unlock_t1 = refl

unlock_t1_frees_example :
    (lookup bank unlocked.positions
      ≡ some (record shares {
        sellable_quantity = shares.quantity -ℤ shares.pending_listing_quantity;
      }))
    × (unlocked.cash ≡ account.cash)
unfolding fpro_v.Backtest.Portfolio.State.key_beq fpro_v.Base.text_beq
unlock_t1_frees_example = unlock_t1_frees bank shares account unlocked refl account-unlock_t1

abbrev delisted : Portfolio Micro
delisted = record account {
  positions = (bank, emptied shares) ∷ [];
  pending_stock = (codes "CA:3", (other, pos 7)) ∷ [];
}
