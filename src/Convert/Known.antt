-- ===== src/Convert/Known.antt =====
-- project_about/feedproxy/convertservice/convert_utils.h: the two tables of markets know the same
-- markets, and the two directions of the k-line types undo each other.
use mathlib.Core.Path.{subst}
use demo_code.Prelude.{
  ◌<◌, ℕ, ℤ, pos, negsuc, ◌≡◌, ◌↔◌, refl, sym, ◌∙◌, arith, ◌==◌, ==_iff, Bool, true, false, ◌&&◌,
  if◌then◌else◌, List, [], ◌∷◌, ◌++◌, Bool-cases, inl, inr,
}
use demo_code.Prelude.Occurs.{contains, contains-cons}
use demo_code.Convert.Codes.{
  Exchange, exchange_unknow, ProductType, product_type_unknown, exchange_of, product_type_of,
  market_id_to_exchange, market_id_to_product_type, hkfe_ids, sehk_ids, ase_ids, cbot_ids,
  comex_ids, nymex_ids, cme_ids, sgx_ids, stock_ids, etf_ids, future_ids, switch, proto_to_json,
  json_to_proto, kline_type_convert,
}

-- A test holds of each number of a list.
check_all : (ℕ → Bool) → List ℕ → Bool
check_all test [] = true
check_all test (x ∷ xs) = test x && check_all test xs

check_all-contains :
    (test : ℕ → Bool) (n : ℕ) (xs : List ℕ)
    → check_all test xs ≡ true
    → contains n xs ≡ true
    → test n ≡ true
unfolding check_all contains
check_all-contains test n [] h g = ground arith
check_all-contains test n (x ∷ xs) h g = elim (Bool-cases (x == n)) [
  | inl e ↦ subst (λ k. test k ≡ true) ((==_iff x n).0 e) (ground (arith, h))
  | inr e ↦ check_all-contains test n xs (ground (arith, h)) (ground (arith, g, e))
]

contains_append :
    (n : ℕ) (xs ys : List ℕ)
    → contains n (xs ++ ys) ≡ (if contains n xs then true else contains n ys)
unfolding contains
contains_append n [] ys = refl
contains_append n (x ∷ xs) ys = ground (arith, contains_append n xs ys)

-- The markets of each table.
abbrev exchange_ids : List ℕ
exchange_ids =
    hkfe_ids
    ++ (sehk_ids ++ (ase_ids ++ (cbot_ids ++ (comex_ids ++ (nymex_ids ++ (cme_ids ++ sgx_ids))))))

abbrev product_ids : List ℕ
product_ids = 2015 ∷ 2009 ∷ 2010 ∷ (stock_ids ++ (etf_ids ++ future_ids))

is_known_exchange : Exchange → Bool
is_known_exchange exchange_unknow = false
is_known_exchange e = true

is_known_product : ProductType → Bool
is_known_product product_type_unknown = false
is_known_product t = true

exchange_known : (n : ℕ) → is_known_exchange (exchange_of n) ≡ contains n exchange_ids
unfolding exchange_of is_known_exchange
exchange_known n = ground (
  arith,
  contains_append n hkfe_ids
      (sehk_ids ++ (ase_ids ++ (cbot_ids ++ (comex_ids ++ (nymex_ids ++ (cme_ids ++ sgx_ids)))))),
  contains_append n sehk_ids
      (ase_ids ++ (cbot_ids ++ (comex_ids ++ (nymex_ids ++ (cme_ids ++ sgx_ids))))),
  contains_append n ase_ids (cbot_ids ++ (comex_ids ++ (nymex_ids ++ (cme_ids ++ sgx_ids)))),
  contains_append n cbot_ids (comex_ids ++ (nymex_ids ++ (cme_ids ++ sgx_ids))),
  contains_append n comex_ids (nymex_ids ++ (cme_ids ++ sgx_ids)),
  contains_append n nymex_ids (cme_ids ++ sgx_ids),
  contains_append n cme_ids sgx_ids,
)

product_known : (n : ℕ) → is_known_product (product_type_of n) ≡ contains n product_ids
unfolding product_type_of is_known_product
product_known n = ground (
  arith,
  contains-cons n 2015 (2009 ∷ 2010 ∷ (stock_ids ++ (etf_ids ++ future_ids))),
  contains-cons n 2009 (2010 ∷ (stock_ids ++ (etf_ids ++ future_ids))),
  contains-cons n 2010 (stock_ids ++ (etf_ids ++ future_ids)),
  contains_append n stock_ids (etf_ids ++ future_ids),
  contains_append n etf_ids future_ids,
)

same_ids : (n : ℕ) → contains n exchange_ids ≡ contains n product_ids
same_ids n = elim (Bool-cases (contains n exchange_ids)) [
  | inl e ↦ e ∙ sym (check_all-contains (λ k. contains k product_ids) n exchange_ids forth e)
  | inr e ↦ elim (Bool-cases (contains n product_ids)) [
    | inl f ↦ check_all-contains (λ k. contains k exchange_ids) n product_ids back f ∙ sym f
    | inr f ↦ e ∙ sym f
  ]
]
  where
    forth : check_all (λ k. contains k product_ids) exchange_ids ≡ true
    forth = unfold check_all in unfold contains in refl

    back : check_all (λ k. contains k exchange_ids) product_ids ≡ true
    back = unfold check_all in unfold contains in refl

is_known_exchange_iff : (e : Exchange) → (e ≡ exchange_unknow) ↔ (is_known_exchange e ≡ false)
unfolding is_known_exchange
is_known_exchange_iff exchange_unknow = ground arith
is_known_exchange_iff e = ground arith

is_known_product_iff : (t : ProductType) → (t ≡ product_type_unknown) ↔ (is_known_product t ≡ false)
unfolding is_known_product
is_known_product_iff product_type_unknown = ground arith
is_known_product_iff t = ground arith

-- A market has no exchange exactly when it has no product type: the two tables name the same markets.
pub market_id_to_exchange-market_id_to_product_type :
    (market : ℤ)
    → (market_id_to_exchange market ≡ exchange_unknow)
      ↔ (market_id_to_product_type market ≡ product_type_unknown)
unfolding market_id_to_exchange market_id_to_product_type
market_id_to_exchange-market_id_to_product_type (pos n) =
    let same = exchange_known n ∙ same_ids n ∙ sym (product_known n) in
    (
      (λ e.
          (is_known_product_iff (product_type_of n)).1
            (sym same ∙ (is_known_exchange_iff (exchange_of n)).0 e)),
      (λ e.
          (is_known_exchange_iff (exchange_of n)).1
            (same ∙ (is_known_product_iff (product_type_of n)).0 e)),
    )
market_id_to_exchange-market_id_to_product_type (negsuc n) = ((λ _. refl), (λ _. refl))

labels : List (ℕ × ℕ) → List ℕ
labels [] = []
labels ((label, _) ∷ cases) = label ∷ labels cases

switch-contains :
    (cases : List (ℕ × ℕ)) (n : ℕ) → 0 < switch cases n → contains n (labels cases) ≡ true
unfolding switch labels
switch-contains [] n h = absurd (omega arith)
switch-contains ((label, value) ∷ cases) n h =
    ground (arith, contains-cons n label (labels cases), switch-contains cases n)

-- One switch leads back to each label of the other.
undoes :
    (there back : List (ℕ × ℕ)) (n : ℕ)
    → check_all (λ k. switch back (switch there k) == k) (labels there) ≡ true
    → 0 < switch there n
    → switch back (switch there n) ≡ n
undoes there back n h g = (==_iff (switch back (switch there n)) n).0 (
    check_all-contains (λ k. switch back (switch there k) == k) n (labels there) h
      (switch-contains there n g))

-- Between the k-line types that the two sides know, the two directions of `KlineTypeConvert` are inverse
-- to each other: n converts to k exactly when k converts back to n.
pub kline_type_convert-inverse :
    (n k : ℕ)
    → 0 < n
    → 0 < k
    → (kline_type_convert (pos n) (pos 0) ≡ k) ↔ (kline_type_convert (pos k) (pos 1) ≡ n)
unfolding kline_type_convert
kline_type_convert-inverse n k h g = (
  (λ e. rw (sym e) (undoes proto_to_json json_to_proto n there (rw e g))),
  (λ e. rw (sym e) (undoes json_to_proto proto_to_json k back (rw e h))),
)
  where
    there :
        check_all (λ m. switch json_to_proto (switch proto_to_json m) == m) (labels proto_to_json)
        ≡ true
    there = unfold check_all in unfold labels in refl

    back :
        check_all (λ m. switch proto_to_json (switch json_to_proto m) == m) (labels json_to_proto)
        ≡ true
    back = unfold check_all in unfold labels in refl
