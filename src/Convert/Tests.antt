-- ===== src/Convert/Tests.antt =====
-- The conversions at concrete inputs.
use demo_code.Prelude.{
  ℕ, ◌≡◌, ◌↔◌, refl, arith, pos, negsuc, ◌+ℤ◌, List, [], ◌∷◌, replicate, Option, none, some,
}
use demo_code.Convert.Codes.{hkfe, kline_type_convert, currency_code_to_type, same_code, hkd}
use demo_code.Convert.Known.{kline_type_convert-inverse}
use demo_code.Convert.HumanTime.{cal_human_time, human, is_midnight_before, cal_human_time-clock}
use demo_code.Convert.Clock.{
  Zone, time_add, symbol_places, is_symbol, read_tm, print_stamp, print_2, print_number,
}
use demo_code.Convert.Quote.{
  Key, now, time, PriceEntry, QuoteInfo, Conversions, update_quote, write_quote, write_fields,
  write_time, write_levels, reset,
}
use demo_code.Convert.Levels.{with_newer}
use demo_code.Convert.Deltas.{update_quote-merge}

kline_type_convert-inverse_example :
    (kline_type_convert (pos 22) (pos 0) ≡ 30) ↔ (kline_type_convert (pos 30) (pos 1) ≡ 22)
kline_type_convert-inverse_example = kline_type_convert-inverse 22 30 (omega arith) (omega arith)

-- The day that begins at 16:00 in UTC, one day earlier.
cal_human_time-clock_example : cal_human_time (negsuc 1919) ≡ pos 240000
unfolding is_midnight_before
cal_human_time-clock_example = cal_human_time-clock (negsuc 1919)

half_past_nine : cal_human_time (pos 90) ≡ pos 93000
unfolding cal_human_time human ◌+ℤ◌
half_past_nine = refl

hong_kong : currency_code_to_type (b'H' ∷ b'K' ∷ b'D' ∷ []) ≡ hkd
unfolding currency_code_to_type same_code
hong_kong = refl

-- A zone in which the clock stands.
abbrev zone : Zone
zone tm_isdst tm seconds =
    (record { year = 2020; month = 1; day = 2; hour = 3; minute = 4; second = 5 }, pos 0)

-- The bytes of "2020-01-02 03:04:05".
abbrev stamp : List ℕ
stamp =
    b'2' ∷ b'0' ∷ b'2' ∷ b'0' ∷ b'-' ∷ b'0' ∷ b'1' ∷ b'-' ∷ b'0' ∷ b'2' ∷ b' ' ∷ b'0' ∷ b'3' ∷ b':'
    ∷ b'0' ∷ b'4' ∷ b':' ∷ b'0' ∷ b'5' ∷ []

same_stamp : time_add zone (pos 0) stamp (pos 28800) ≡ some (stamp, pos 0)
unfolding time_add symbol_places is_symbol read_tm print_stamp print_2 print_number
same_stamp = refl

-- A sixth symbol is written past the end of `symbolPos`.
sixth_symbol : time_add zone (pos 0) (b'-' ∷ stamp) (pos 28800) ≡ none
unfolding time_add symbol_places is_symbol read_tm
sixth_symbol = refl

abbrev numbers : Conversions ℕ ℕ
numbers = record {
  as_text = λ v. stamp;
  as_double = λ v. v;
  as_int = λ v. pos v;
  to_int64 = λ v. pos v;
  null_value = 0;
}

abbrev level : PriceEntry ℕ
level = record { price = 0; volume = pos 0 }

abbrev quote : QuoteInfo ℕ
quote = record {
  ins_id = [];
  exchange = hkfe;
  product_code = [];
  ins_name = [];
  ins_en_name = [];
  raise_limit = 0;
  down_limit = 0;
  last_close = 0;
  pre_settle_price = 0;
  last_hold = pos 0;
  open_price = 0;
  high_price = 0;
  low_price = 0;
  close_price = 0;
  last_price = 0;
  total_amount = 0;
  total_volume = pos 0;
  avg_price = 0;
  time_text = [];
  milliseconds = pos 0;
  hold_count = pos 0;
  settle_price = 0;
  buy_volume = pos 0;
  sell_volume = pos 0;
  bids = replicate 10 level;
  asks = replicate 10 level;
}

-- Two prices, the first with its time.
older : Key → Option ℕ
older now = some 5
older time = some 1
older _ = none

newer : Key → Option ℕ
newer now = some 6
newer _ = none

update_quote-merge_example :
    update_quote numbers zone quote newer
      (record quote { close_price = 5; last_price = 5; time_text = stamp })
      (pos 0)
    ≡ update_quote numbers zone quote (with_newer older newer) quote (pos 0)
unfolding older update_quote write_quote write_fields write_time write_levels reset time_add
    symbol_places is_symbol read_tm print_stamp print_2 print_number
update_quote-merge_example =
    update_quote-merge numbers zone quote older newer quote _ (pos 0) (λ tm seconds. refl)
      (omega arith) (omega arith) refl
