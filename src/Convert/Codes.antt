-- ===== src/Convert/Codes.antt =====
-- project_about/feedproxy/convertservice/convert_utils.h: the tables of codes.
use demo_code.Prelude.{ℕ, ℤ, pos, negsuc, ◌==◌, Bool, if◌then◌else◌, ◌&&◌, false, List, [], ◌∷◌}
use demo_code.Prelude.Occurs.{contains}

-- The constants of `TypeDef_Exchange`, `TypeDef_ProductType` and `TypeDef_Currency` that the tables name.
pub data Exchange : Type 0 where
  hkfe sehk ase cbot comex nymex cme sgx exchange_unknow : Exchange

pub data ProductType : Type 0 where
  etf_future currency_future hk_stock_future stock etf future product_type_unknown : ProductType

pub data Currency : Type 0 where
  cny usd hkd eur gbp jpy currency_unknown : Currency

-- The `case` labels, one list for each `return`.
abbrev pub hkfe_ids : List ℕ
hkfe_ids = 2011 ∷ 2015 ∷ 2009 ∷ 2010 ∷ []

abbrev pub sehk_ids : List ℕ
sehk_ids = 2002 ∷ 2031 ∷ 2005 ∷ 2003 ∷ 2004 ∷ 2000 ∷ 2001 ∷ []

abbrev pub ase_ids : List ℕ
ase_ids = 40001 ∷ 40002 ∷ 40003 ∷ 40004 ∷ 40005 ∷ 40006 ∷ 40007 ∷ []

abbrev pub cbot_ids : List ℕ
cbot_ids =
    50000 ∷ 50101 ∷ 50102 ∷ 50103 ∷ 50104 ∷ 50105 ∷ 50106 ∷ 50107 ∷ 50108 ∷ 50109 ∷ 50110 ∷ []

abbrev pub comex_ids : List ℕ
comex_ids = 50001 ∷ 51201 ∷ 51202 ∷ 51203 ∷ 51204 ∷ 51205 ∷ 51206 ∷ []

abbrev pub nymex_ids : List ℕ
nymex_ids = 50002 ∷ 52301 ∷ 52302 ∷ 52303 ∷ 52304 ∷ []

abbrev pub cme_ids : List ℕ
cme_ids =
    50003 ∷ 50004 ∷ 53401 ∷ 53402 ∷ 53403 ∷ 53404 ∷ 54501 ∷ 54502 ∷ 54503 ∷ 54504 ∷ 54505 ∷ 54506
    ∷ 54507 ∷ 54508 ∷ 54509 ∷ 54510 ∷ []

abbrev pub sgx_ids : List ℕ
sgx_ids = 50005 ∷ 55601 ∷ 55602 ∷ 55603 ∷ []

-- `MarketId2Exchange`
unfoldable pub exchange_of : ℕ → Exchange
exchange_of n =
    if contains n hkfe_ids
    then hkfe
    else if contains n sehk_ids
    then sehk
    else if contains n ase_ids
    then ase
    else if contains n cbot_ids
    then cbot
    else if contains n comex_ids
    then comex
    else if contains n nymex_ids
    then nymex
    else if contains n cme_ids
    then cme
    else if contains n sgx_ids
    then sgx
    else exchange_unknow

unfoldable pub market_id_to_exchange : ℤ → Exchange
market_id_to_exchange (pos n) = exchange_of n
market_id_to_exchange (negsuc n) = exchange_unknow

abbrev pub stock_ids : List ℕ
stock_ids =
    2002 ∷ 2031 ∷ 2005 ∷ 2003 ∷ 2004 ∷ 2001 ∷ 40001 ∷ 40002 ∷ 40003 ∷ 40004 ∷ 40006 ∷ 40007 ∷ []

abbrev pub etf_ids : List ℕ
etf_ids = 2000 ∷ 40005 ∷ []

-- The labels of the futures, in the order of the source.
abbrev pub future_ids : List ℕ
future_ids =
    2011 ∷ 50000 ∷ 50101 ∷ 50102 ∷ 50103 ∷ 50104 ∷ 50105 ∷ 50106 ∷ 50107 ∷ 50108 ∷ 50109 ∷ 50110
    ∷ 50001 ∷ 51201 ∷ 51202 ∷ 51203 ∷ 51204 ∷ 51205 ∷ 51206 ∷ 50002 ∷ 52301 ∷ 52302 ∷ 52303 ∷ 52304
    ∷ 50003 ∷ 50004 ∷ 53401 ∷ 53402 ∷ 53403 ∷ 53404 ∷ 54501 ∷ 54502 ∷ 54503 ∷ 54504 ∷ 54505 ∷ 54506
    ∷ 54507 ∷ 54508 ∷ 54509 ∷ 54510 ∷ 50005 ∷ 55601 ∷ 55602 ∷ 55603 ∷ []

-- `MarketId2ProductType`
unfoldable pub product_type_of : ℕ → ProductType
product_type_of n =
    if n == 2015
    then etf_future
    else if n == 2009
    then currency_future
    else if n == 2010
    then hk_stock_future
    else if contains n stock_ids
    then stock
    else if contains n etf_ids
    then etf
    else if contains n future_ids
    then future
    else product_type_unknown

unfoldable pub market_id_to_product_type : ℤ → ProductType
market_id_to_product_type (pos n) = product_type_of n
market_id_to_product_type (negsuc n) = product_type_unknown

-- `CurrencyCode2type`, on the bytes of the code.
unfoldable pub same_code : List ℕ → ℕ → ℕ → ℕ → Bool
same_code (x ∷ y ∷ z ∷ []) a b c = x == a && (y == b && z == c)
same_code _ a b c = false

unfoldable pub currency_code_to_type : List ℕ → Currency
unfolding same_code
currency_code_to_type code =
    if same_code code b'C' b'N' b'Y'
    then cny
    else if same_code code b'U' b'S' b'D'
    then usd
    else if same_code code b'H' b'K' b'D'
    then hkd
    else if same_code code b'E' b'U' b'R'
    then eur
    else if same_code code b'G' b'B' b'P'
    then gbp
    else if same_code code b'J' b'P' b'Y'
    then jpy
    else currency_unknown

-- A switch: the value of the first label that fits, or 0.
unfoldable pub switch : List (ℕ × ℕ) → ℕ → ℕ
switch [] n = 0
switch ((label, value) ∷ cases) n = if label == n then value else switch cases n

-- The two switches of `KlineTypeConvert`, from Protocol Buffers to JSON and back.
abbrev pub proto_to_json : List (ℕ × ℕ)
proto_to_json =
    (8, 1)
    ∷ (10, 4)
    ∷ (11, 2)
    ∷ (13, 5)
    ∷ (14, 6)
    ∷ (15, 3)
    ∷ (16, 7)
    ∷ (18, 10)
    ∷ (19, 11)
    ∷ (20, 20)
    ∷ (21, 21)
    ∷ (22, 30)
    ∷ []

abbrev pub json_to_proto : List (ℕ × ℕ)
json_to_proto =
    (1, 8)
    ∷ (4, 10)
    ∷ (2, 11)
    ∷ (5, 13)
    ∷ (6, 14)
    ∷ (3, 15)
    ∷ (7, 16)
    ∷ (10, 18)
    ∷ (11, 19)
    ∷ (20, 20)
    ∷ (21, 21)
    ∷ (30, 22)
    ∷ []

-- `KlineTypeConvert`; no label is negative.
unfoldable pub kline_type_convert : ℤ → ℤ → ℕ
unfolding switch
kline_type_convert (pos n) (pos d) =
    if d == 0 then switch proto_to_json n else switch json_to_proto n
kline_type_convert (pos n) (negsuc d) = switch json_to_proto n
kline_type_convert (negsuc n) direction = 0
