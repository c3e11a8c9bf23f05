-- ===== src/Service/Pool.antt =====
-- project_about/feedproxy/levservice/service.h: the contexts of the pool are in the free list or in the
-- map, and the count of connections is that of the map.
use demo_code.Prelude.{
  ℕ, ◌+◌, ◌≤◌, ◌<◌, ◌^◌, ◌≡◌, ◌≢◌, arith, ltb, if◌then◌else◌, u32, sub_u32, List, [], ◌∷◌, ◌++◌,
  length, length-append, true, false, some, Bool-cases, inl, inr,
}
use demo_code.Prelude.Occurs.{
  occurs, contains, erase, occurs-append, occurs-contains, occurs-erase, length-erase, occurs-one,
  occurs-cons,
}
use demo_code.Circular.Invariant.{IsValid}
use demo_code.EvLoop.Balance.{AllCounted}
use demo_code.EvLoop.{EvLoop}
use demo_code.Service.{Service, Context, Bufferevent}
use demo_code.Service.Server.{above_conn}

-- Each of the contexts of the pool is once in the free list or in the map.
pub record IsBalanced (free clients : List ℕ) (max_conn current_conn : ℕ) : Type 0 where
  pub owned :
      (i : ℕ) → occurs i free + occurs i clients ≡ (if ltb i (max_conn + above_conn) then 1 else 0)
  pub counted : current_conn ≡ length clients
  pub bounded : length clients ≤ max_conn
  pub sized : length free + length clients ≡ max_conn + above_conn
  pub small : max_conn + above_conn < 2 ^ 32

module _ {clients : List ℕ} {m c : ℕ} where
  pub head_absent :
      (i : ℕ) (free : List ℕ) → IsBalanced (i ∷ free) clients m c → contains i clients ≡ false
  head_absent i free v = elim (Bool-cases (contains i clients)) [
    | inl h ↦ ground (arith, v.owned i, occurs-contains i clients h, occurs-cons i i free)
    | inr h ↦ h
  ]

  pub lend-IsBalanced :
      (i : ℕ) (free : List ℕ)
      → c < m
      → IsBalanced (i ∷ free) clients m c
      → IsBalanced free (i ∷ clients) m (u32 (c + 1))
  lend-IsBalanced i free h v = record {
    owned = λ j. omega (arith, v.owned j, occurs-cons j i free, occurs-cons j i clients);
    counted = ground (arith, v.counted, v.small);
    bounded = ground (arith, v.counted);
    sized = omega (arith, v.sized);
    small = v.small;
  }

  pub rotate-IsBalanced :
      (i : ℕ) (free : List ℕ)
      → IsBalanced (i ∷ free) clients m c
      → IsBalanced (free ++ i ∷ []) clients m c
  rotate-IsBalanced i free v = record {
    owned = λ j.
        omega
          (arith, v.owned j, occurs-append j free (i ∷ []), occurs-one j i, occurs-cons j i free);
    counted = v.counted;
    bounded = v.bounded;
    sized = omega (arith, v.sized, length-append free (i ∷ []));
    small = v.small;
  }

  pub recycle-IsBalanced :
      (i : ℕ) (free : List ℕ)
      → contains i clients ≡ true
      → IsBalanced free clients m c
      → IsBalanced (free ++ i ∷ []) (erase i clients) m (sub_u32 c 1)
  recycle-IsBalanced i free h v =
      let n = length-erase i clients h in
      record {
        owned = λ j. omega (
          arith,
          v.owned j,
          occurs-append j free (i ∷ []),
          occurs-one j i,
          occurs-erase j i clients h,
        );
        counted = ground (arith, n, v.counted, v.small, v.bounded);
        bounded = omega (arith, v.bounded);
        sized = omega (arith, v.sized, length-append free (i ∷ []));
        small = v.small;
      }

  pub recycled_absent :
      (i : ℕ) (free : List ℕ)
      → contains i clients ≡ true
      → IsBalanced free clients m c
      → contains i (erase i clients) ≡ false
  recycled_absent i free h v = elim (Bool-cases (contains i (erase i clients))) [
    | inl g ↦
        ground (arith, v.owned i, occurs-contains i (erase i clients) g, occurs-erase i i clients h)
    | inr g ↦ g
  ]

-- A context of the map is connected, so that `Close` recycles it.
abbrev pub IsOpen : Context → Type 0
IsOpen c =
    (c.is_exit ≡ false) × (c.is_connected ≡ true) × ((b : Bufferevent) × (c.cli_bev ≡ some b))

-- The loops can be chosen from.
abbrev pub IsReady : EvLoop → Type 0
IsReady l = AllCounted l.counts l.bases × (l.bases ≢ [])

pub record IsPool (s : Service) : Type 0 where
  pub balanced : IsBalanced s.free_conn s.clients s.max_conn s.current_conn
  pub opened : (i : ℕ) → contains i s.clients ≡ true → IsOpen (s.contexts i)
  pub ready : IsReady s.loop
  pub buffer : IsValid s.idle
