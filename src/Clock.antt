-- ===== src/Clock.antt =====
-- `std::tm` of the local time, and the two formats that the program gives to `std::strftime`.
use stock_trading_bot_server.Prelude.{ℕ, suc, ◌+◌, ◌/◌, ◌%◌, [], ◌∷◌, ◌++◌}
use stock_trading_bot_server.Text.{Text}
use stock_trading_bot_server.Number.{print_fuel}

-- The fields of `std::tm` that are read: years since 1900, and months from 0.
pub record Tm : Type 0 where
  pub tm_year : ℕ
  pub tm_mon : ℕ
  pub tm_mday : ℕ
  pub tm_hour : ℕ
  pub tm_min : ℕ
  pub tm_sec : ℕ

abbrev pub two_digits : ℕ → Text
two_digits n = (b'0' + n / 10 % 10) ∷ (b'0' + n % 10) ∷ []

-- `%Y`
unfoldable pub year_text : ℕ → Text
unfolding print_fuel
year_text tm_year = let year = tm_year + 1900 in print_fuel (suc year) year

-- `%Y-%m-%d %H:%M:%S`
unfoldable pub time_string : Tm → Text
time_string t =
    year_text t.tm_year
    ++ (b'-'
        ∷ (two_digits (t.tm_mon + 1)
            ++ (b'-'
                ∷ (two_digits t.tm_mday
                    ++ (b' '
                        ∷ (two_digits t.tm_hour
                            ++ (b':' ∷ (two_digits t.tm_min ++ (b':' ∷ two_digits t.tm_sec)))))))))

-- `%Y%m%d`
unfoldable pub date_string : Tm → Text
date_string t = year_text t.tm_year ++ (two_digits (t.tm_mon + 1) ++ two_digits t.tm_mday)
