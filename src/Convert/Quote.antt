-- ===== src/Convert/Quote.antt =====
-- project_about/feedproxy/convertservice/convert_utils.h: `UpdateQuoteProtoByJson`, which writes into a quote
-- the fields that a message in JSON has. A value in JSON, what jsoncpp and Protocol Buffers convert it
-- to, and the zone of `TimeAdd` are parameters. `none` is a level of the book out of range, or a fault of
-- `TimeAdd`.
use demo_code.Prelude.{
  ℕ, zero, suc, ltb, ◌||◌, if◌then◌else◌, Bool, true, false, ℤ, pos, List, [], ◌∷◌, length, Option,
  none, some, ◌>>=◌,
}
use demo_code.Convert.Clock.{Zone, time_add}
use demo_code.Convert.Codes.{Exchange, market_id_to_exchange}

-- The keys that are read. `buyprice i` is `m_buyKey[i]` and `buyvol i` is `m_buyKey[i + 10]`.
pub data Key : Type 0 where
  tradecode code market commoditycode name enname raiselimit downlimit lastclose lastsettle opening
        high low now amount volume avg time millisecond hold lasthold settle buyvolume sellvolume :
      Key
  buyprice buyvol sellprice sellvol : ℕ → Key

-- `PriceEntry` and `QuoteInfo`, with the parts of its `InsInfo`.
pub record PriceEntry (D : Type 0) : Type 0 where
  pub price : D
  pub volume : ℤ

pub record QuoteInfo (D : Type 0) : Type 0 where
  pub ins_id : List ℕ
  pub exchange : Exchange
  pub product_code : List ℕ
  pub ins_name : List ℕ
  pub ins_en_name : List ℕ
  pub raise_limit : D
  pub down_limit : D
  pub last_close : D
  pub pre_settle_price : D
  pub last_hold : ℤ
  pub open_price : D
  pub high_price : D
  pub low_price : D
  pub close_price : D
  pub last_price : D
  pub total_amount : D
  pub total_volume : ℤ
  pub avg_price : D
  pub time_text : List ℕ
  pub milliseconds : ℤ
  pub hold_count : ℤ
  pub settle_price : D
  pub buy_volume : ℤ
  pub sell_volume : ℤ
  pub bids : List (PriceEntry D)
  pub asks : List (PriceEntry D)

-- What jsoncpp and the conversions of C++ do: `asString`, `asDouble`, `asInt`, from `double` to `int64`,
-- and the null value that stands for a missing key.
pub record Conversions (J D : Type 0) : Type 0 where
  pub as_text : J → List ℕ
  pub as_double : J → D
  pub as_int : J → ℤ
  pub to_int64 : D → ℤ
  pub null_value : J

-- The value of a key, or what stands there.
abbrev pub pick {ℓ} : {J : Type 0} {A : Type ℓ} → Option J → (J → A) → A → A
pick none f old = old
pick (some v) f old = f v

-- `isMember`
abbrev pub is_member {ℓ} : {J : Type ℓ} → Option J → Bool
is_member none = false
is_member (some v) = true

module _ {J D : Type 0} (c : Conversions J D) where
  open c use {as_text, as_double, as_int, to_int64, null_value}

  abbrev pub as_count : J → ℤ
  as_count v = to_int64 (as_double v)

  -- The first branch: a quote with fewer than ten levels on a side becomes the template.
  unfoldable pub reset : QuoteInfo D → (Key → Option J) → QuoteInfo D → QuoteInfo D
  reset template json q =
      if ltb (length q.bids) 10 || ltb (length q.asks) 10
      then record template {
        ins_id = pick (json tradecode) as_text (as_text (pick (json code) (λ v. v) null_value));
      }
      else q

  -- The fields that are written one by one, but for the time.
  unfoldable pub write_fields : (Key → Option J) → QuoteInfo D → QuoteInfo D
  write_fields json q = record q {
    exchange = pick (json market) (λ v. market_id_to_exchange (as_int v)) q.exchange;
    product_code = pick (json commoditycode) as_text q.product_code;
    ins_name = pick (json name) as_text q.ins_name;
    ins_en_name = pick (json enname) as_text q.ins_en_name;
    raise_limit = pick (json raiselimit) as_double q.raise_limit;
    down_limit = pick (json downlimit) as_double q.down_limit;
    last_close = pick (json lastclose) as_double q.last_close;
    pre_settle_price = pick (json lastsettle) as_double q.pre_settle_price;
    open_price = pick (json opening) as_double q.open_price;
    high_price = pick (json high) as_double q.high_price;
    low_price = pick (json low) as_double q.low_price;
    close_price = pick (json now) as_double q.close_price;
    last_price = pick (json now) as_double q.last_price;
    total_amount = pick (json amount) as_double q.total_amount;
    total_volume = pick (json volume) as_count q.total_volume;
    avg_price = pick (json avg) as_double q.avg_price;
    milliseconds = pick (json millisecond) as_int q.milliseconds;
    hold_count = pick (json hold) as_count q.hold_count;
    last_hold = pick (json lasthold) as_count q.last_hold;
    settle_price = pick (json settle) as_double q.settle_price;
    buy_volume = pick (json buyvolume) as_count q.buy_volume;
    sell_volume = pick (json sellvolume) as_count q.sell_volume;
  }

  -- The rounds that are left of a loop over the levels, from level `i` on.
  unfoldable pub write_levels :
      (ℕ → Option J) → (ℕ → Option J) → ℕ → ℕ → List (PriceEntry D) → Option (List (PriceEntry D))
  write_levels prices volumes zero i entries = some entries
  write_levels prices volumes (suc rounds) i [] =
      let rest = write_levels prices volumes rounds (suc i) [] in
      if is_member (prices i) || is_member (volumes i) then none else rest
  write_levels prices volumes (suc rounds) i (e ∷ entries) =
      write_levels prices volumes rounds (suc i) entries >>= λ (rest : List (PriceEntry D)). some (
        record {
          price = pick (prices i) as_double e.price;
          volume = pick (volumes i) as_count e.volume;
        }
        ∷ rest)

module _ {J D : Type 0} (c : Conversions J D) (zone : Zone) where
  open c use {as_text}

  -- The time, eight hours later.
  unfoldable pub write_time : Option J → List ℕ → ℤ → Option (List ℕ × ℤ)
  unfolding time_add
  write_time none old tm_isdst = some (old, tm_isdst)
  write_time (some v) old tm_isdst = time_add zone tm_isdst (as_text v) (pos 28800)

  -- The writes, into a quote that has its levels.
  unfoldable pub write_quote : (Key → Option J) → QuoteInfo D → ℤ → Option (QuoteInfo D × ℤ)
  write_quote json q tm_isdst = do
    timed ← write_time (json time) q.time_text tm_isdst
    buy ← write_levels c (λ i. json (buyprice i)) (λ i. json (buyvol i)) 10 0 q.bids
    sell ← write_levels c (λ i. json (sellprice i)) (λ i. json (sellvol i)) 10 0 q.asks
    some (record (write_fields c json q) { time_text = timed.0; bids = buy; asks = sell }, timed.1)

  -- `UpdateQuoteProtoByJson`, with the `tm_isdst` of the static `timeInfo` before and after.
  unfoldable pub update_quote :
      QuoteInfo D → (Key → Option J) → QuoteInfo D → ℤ → Option (QuoteInfo D × ℤ)
  update_quote template json q tm_isdst = write_quote json (reset c template json q) tm_isdst
