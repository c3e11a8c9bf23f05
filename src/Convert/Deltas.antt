-- ===== src/Convert/Deltas.antt =====
-- project_about/feedproxy/convertservice/convert_utils.h: messages that update a quote one after another are
-- one message with the newer values.
use demo_code.Prelude.{
  ℕ, ℤ, pos, ◌≤◌, ◌≡◌, refl, sym, ap, ◌∙◌, arith, ltb-false, List, length, Option, none, some,
  ◌>>=◌, >>=-eq-some,
}
use demo_code.Convert.Clock.{Zone, IsStandard, time_add-IsStandard}
use demo_code.Convert.Quote.{
  Key, time, buyprice, buyvol, sellprice, sellvol, PriceEntry, QuoteInfo, Conversions, reset,
  write_fields, write_time, write_levels, write_quote, update_quote,
}
use demo_code.Convert.Levels.{
  overlay, with_newer, some_injective, write_fields-merge, write_levels-merge, length-write_levels,
}

module _ {J D : Type 0} (c : Conversions J D) (zone : Zone) where
  write_time-merge :
      (a b : Option J) (old x : List ℕ)
      → write_time c zone a old (pos 0) ≡ some (x, pos 0)
      → write_time c zone (overlay a b) old (pos 0) ≡ write_time c zone b x (pos 0)
  unfolding write_time
  write_time-merge a none old x h = h
  write_time-merge a (some v) old x h = refl

  -- `tm_isdst` stays 0.
  write_time-IsStandard :
      (a : Option J) (old x : List ℕ) (s : ℤ)
      → IsStandard zone
      → write_time c zone a old (pos 0) ≡ some (x, s)
      → s ≡ pos 0
  unfolding write_time
  write_time-IsStandard none old x s h e = ground (arith, e)
  write_time-IsStandard (some v) old x s h e =
      time_add-IsStandard zone (Conversions.as_text c v) x (pos 28800) s h e

  -- The quote with other parts.
  abbrev with_parts : List ℕ → List (PriceEntry D) → List (PriceEntry D) → QuoteInfo D → QuoteInfo D
  with_parts at_time buy sell q = record q { time_text = at_time; bids = buy; asks = sell }

  -- What a write that returns has found.
  record Written (json : Key → Option J) (q r : QuoteInfo D) (s : ℤ) : Type 0 where
    at_time : List ℕ
    buy : List (PriceEntry D)
    sell : List (PriceEntry D)
    timed : write_time c zone (json time) q.time_text (pos 0) ≡ some (at_time, s)
    bought : write_levels c (λ i. json (buyprice i)) (λ i. json (buyvol i)) 10 0 q.bids ≡ some buy
    sold : write_levels c (λ i. json (sellprice i)) (λ i. json (sellvol i)) 10 0 q.asks ≡ some sell
    whole : with_parts at_time buy sell (write_fields c json q) ≡ r

  timed_as :
      (o : Option (List ℕ × ℤ)) (x : List ℕ × ℤ) (s : ℤ) → o ≡ some x → x.1 ≡ s → o ≡ some (x.0, s)
  timed_as o x s e f = e ∙ ap (λ k. some (x.0, k)) f

  write_quote-Written :
      (json : Key → Option J) (q : QuoteInfo D) {r : QuoteInfo D} {s : ℤ}
      → write_quote c zone json q (pos 0) ≡ some (r, s)
      → Written json q r s
  unfolding write_quote
  write_quote-Written json q h =
      let (x, e, h1) = >>=-eq-some (write_time c zone (json time) q.time_text (pos 0)) _ h in
      let (y, f, h2) =
        >>=-eq-some (write_levels c (λ i. json (buyprice i)) (λ i. json (buyvol i)) 10 0 q.bids) _
          h1 in
      let (z, g, h3) =
        >>=-eq-some (write_levels c (λ i. json (sellprice i)) (λ i. json (sellvol i)) 10 0 q.asks) _
          h2 in
      let same = sym (some_injective h3) in
      record {
        at_time = x.0;
        buy = y;
        sell = z;
        timed =
            timed_as (write_time c zone (json time) q.time_text (pos 0)) x _ e (ap (λ p. p.1) same);
        bought = f;
        sold = g;
        whole = ap (λ p. p.0) same;
      }

  -- The parts of `write_quote`, put together.
  compose :
      Option (List ℕ × ℤ)
      → Option (List (PriceEntry D))
      → Option (List (PriceEntry D))
      → QuoteInfo D
      → Option (QuoteInfo D × ℤ)
  compose at_time buy sell q = at_time >>= λ (x : List ℕ × ℤ). buy >>= λ (y : List (PriceEntry D)).
      sell >>= λ (z : List (PriceEntry D)). some (with_parts x.0 y z q, x.1)

  write_quote-compose :
      (json : Key → Option J) (q : QuoteInfo D)
      → write_quote c zone json q (pos 0)
        ≡ compose
            (write_time c zone (json time) q.time_text (pos 0))
            (write_levels c (λ i. json (buyprice i)) (λ i. json (buyvol i)) 10 0 q.bids)
            (write_levels c (λ i. json (sellprice i)) (λ i. json (sellvol i)) 10 0 q.asks)
            (write_fields c json q)
  unfolding write_quote compose
  write_quote-compose json q = refl

  -- The parts that are written again do not matter.
  compose_again :
      (json : Key → Option J) (x : List ℕ) (y z : List (PriceEntry D)) (q : QuoteInfo D)
      (t : Option (List ℕ × ℤ)) (u v : Option (List (PriceEntry D)))
      → compose t u v (write_fields c json (with_parts x y z q))
        ≡ compose t u v (write_fields c json q)
  unfolding compose write_fields
  compose_again json x y z q none u v = refl
  compose_again json x y z q (some t) none v = refl
  compose_again json x y z q (some t) (some u) none = refl
  compose_again json x y z q (some t) (some u) (some v) = refl

  write_quote-merge :
      (a b : Key → Option J) (q r : QuoteInfo D)
      → write_quote c zone a q (pos 0) ≡ some (r, pos 0)
      → write_quote c zone (with_newer a b) q (pos 0) ≡ write_quote c zone b r (pos 0)
  write_quote-merge a b q r h =
      let w = write_quote-Written a q h in
      let times = write_time-merge (a time) (b time) q.time_text w.at_time w.timed in
      let bids =
        write_levels-merge c (λ i. a (buyprice i)) (λ i. a (buyvol i)) (λ i. b (buyprice i))
          (λ i. b (buyvol i)) 10 0 q.bids in
      let asks =
        write_levels-merge c (λ i. a (sellprice i)) (λ i. a (sellvol i)) (λ i. b (sellprice i))
          (λ i. b (sellvol i)) 10 0 q.asks in
      write_quote-compose (with_newer a b) q
      ∙ rw (times, bids, w.bought, asks, w.sold, write_fields-merge c a b q)
          (sym (compose_again b w.at_time w.buy w.sell (write_fields c a q) _ _ _))
      ∙ sym (write_quote-compose b (with_parts w.at_time w.buy w.sell (write_fields c a q)))
      ∙ ap (λ x. write_quote c zone b x (pos 0)) w.whole

  reset_complete :
      (template q : QuoteInfo D) (json : Key → Option J)
      → 10 ≤ length q.bids
      → 10 ≤ length q.asks
      → reset c template json q ≡ q
  unfolding reset
  reset_complete template q json h g =
      rw (ltb-false (length q.bids) 10 h, ltb-false (length q.asks) 10 g) refl

  -- In a zone with no daylight saving time: a quote with its ten levels on both sides is updated by a message,
  -- and then by a second one. Where the first update returns, the second one returns, or faults, just as the
  -- update by one message with the values of both, of which those of the second count where both have one.
  pub update_quote-merge :
      (template : QuoteInfo D) (a b : Key → Option J) (q r : QuoteInfo D) (s : ℤ)
      → IsStandard zone
      → 10 ≤ length q.bids
      → 10 ≤ length q.asks
      → update_quote c zone template a q (pos 0) ≡ some (r, s)
      → update_quote c zone template b r s ≡ update_quote c zone template (with_newer a b) q (pos 0)
  unfolding update_quote
  update_quote-merge template a b q r s standard h g e =
      let e' =
        ap (λ x. write_quote c zone a x (pos 0)) (sym (reset_complete template q a h g)) ∙ e in
      let w = write_quote-Written a q e' in
      let still : s ≡ pos 0 =
        write_time-IsStandard (a time) q.time_text w.at_time s standard w.timed in
      let buy =
        length-write_levels c (λ i. a (buyprice i)) (λ i. a (buyvol i)) 10 0 q.bids w.bought in
      let sell =
        length-write_levels c (λ i. a (sellprice i)) (λ i. a (sellvol i)) 10 0 q.asks w.sold in
      let bids : 10 ≤ length r.bids = rw (sym w.whole) (omega arith) in
      let asks : 10 ≤ length r.asks = rw (sym w.whole) (omega arith) in
      ap (λ x. write_quote c zone b x s) (reset_complete template r b bids asks)
      ∙ ap (write_quote c zone b r) still
      ∙ sym (write_quote-merge a b q r (e' ∙ ap (λ k. some (r, k)) still))
      ∙ ap (λ x. write_quote c zone (with_newer a b) x (pos 0))
          (sym (reset_complete template q (with_newer a b) h g))
