-- ===== src/EvLoop/Balance.antt =====
-- project_about/feedproxy/levservice/ev_loop.cpp: which loop `GetWorkLoop` chooses.
use demo_code.Prelude.{
  ◌≢◌, ◌-◌, ℕ, suc, ◌+◌, ◌≤◌, ◌<◌, ◌≡◌, refl, sym, ◌∙◌, inl, inr, arith, ltb, ltb→lt, Bool-cases,
  List, [], ◌∷◌, get_elem?, none, some,
}
use demo_code.EvLoop.{EvLoop, find_count, least, get_work_loop}

-- Each loop has a count.
abbrev pub AllCounted : List (ℕ × ℕ) → List ℕ → Type 0
AllCounted m [] = Unit
AllCounted m (b ∷ bs) = ((n : ℕ) × (find_count b m ≡ some n)) × AllCounted m bs

-- The loop at `j` is `b`, and its count is `n`.
abbrev pub At : List (ℕ × ℕ) → List ℕ → ℕ → ℕ → ℕ → Type 0
At m bs j b n = (get_elem? bs j ≡ some b) × (find_count b m ≡ some n)

-- The loop at `k` has the count `c`; no count is smaller, and those before it are larger.
abbrev pub IsFirstLeast : List (ℕ × ℕ) → List ℕ → ℕ → ℕ → Type 0
IsFirstLeast m bs k c =
    ((b : ℕ) × At m bs k b c) × ((j a d : ℕ) → At m bs j a d → (c ≤ d) × (j < k → c < d))

-- The same among the loops before `i` alone.
abbrev FirstLeastBefore : List (ℕ × ℕ) → List ℕ → ℕ → ℕ → ℕ → Type 0
FirstLeastBefore m bs i k c =
    ((b : ℕ) × At m bs k b c) × ((j a d : ℕ) → j < i → At m bs j a d → (c ≤ d) × (j < k → c < d))

At-unique : (m : List (ℕ × ℕ)) (bs : List ℕ) (j b n a d : ℕ) → At m bs j b n → At m bs j a d → n ≡ d
At-unique m bs j b n a d h g = ground (arith, h, g)

-- One round: the loop at `i` is `b`, with the count `n`.
step-smaller :
    (m : List (ℕ × ℕ)) (bs : List ℕ) (i k c b n : ℕ)
    → At m bs i b n
    → n < c
    → FirstLeastBefore m bs i k c
    → FirstLeastBefore m bs (suc i) i n
step-smaller m bs i k c b n h l f =
    ((b, h), λ j a d lt g. ground (arith, f.1 j a d, g, At-unique m bs i b n a d h))

step-other :
    (m : List (ℕ × ℕ)) (bs : List ℕ) (i k c b n : ℕ)
    → At m bs i b n
    → c ≤ n
    → k ≤ i
    → FirstLeastBefore m bs i k c
    → FirstLeastBefore m bs (suc i) k c
step-other m bs i k c b n h l o f =
    (f.0, λ j a d lt g. ground (arith, f.1 j a d, g, At-unique m bs i b n a d h))

no_more :
    (bs : List ℕ) (i j a : ℕ)
    → ((k : ℕ) → get_elem? bs (i + k) ≡ none)
    → get_elem? bs j ≡ some a
    → j < i
no_more bs i j a t e = elim (Bool-cases (ltb j i)) [
  | inl l ↦ ltb→lt j i l
  | inr l ↦
      let p : i + (j - i) ≡ j = ground arith in
      let q : get_elem? bs j ≡ none = rw (sym p) (t (j - i)) in absurd (ground (arith, q, e))
]

least-FirstLeast :
    (m : List (ℕ × ℕ)) (bs rest : List ℕ) (i c k : ℕ)
    → ((j : ℕ) → get_elem? bs (i + j) ≡ get_elem? rest j)
    → AllCounted m rest
    → k ≤ i
    → FirstLeastBefore m bs i k c
    → (k' : ℕ) × (c' : ℕ) × (least m rest i c k ≡ some k') × IsFirstLeast m bs k' c'
unfolding least
least-FirstLeast m bs [] i c k t v o f =
    (k, c, refl, (f.0, λ j a d g. f.1 j a d (no_more bs i j a t g.0) g))
least-FirstLeast m bs (b ∷ rest) i c k t v o f =
    let (n, e) = v.0 in
    let here : At m bs i b n = (ground (arith, t 0), e) in
    let later : (j : ℕ) → get_elem? bs (suc i + j) ≡ get_elem? rest j =
      λ j. let p : suc i + j ≡ i + suc j = omega arith in rw p (t (suc j)) in
    rw e (elim (Bool-cases (ltb n c)) [
      | inl l ↦ rw l (
          least-FirstLeast m bs rest (suc i) n i later v.1 (omega arith)
            (step-smaller m bs i k c b n here (ltb→lt n c l) f))
      | inr l ↦ rw l (
          least-FirstLeast m bs rest (suc i) c k later v.1 (omega arith)
            (step-other m bs i k c b n here (ground (arith, l)) o f))
    ])

get_work_loop_steps :
    (l : EvLoop) (b n k : ℕ)
    → get_elem? l.bases 0 ≡ some b
    → find_count b l.counts ≡ some n
    → least l.counts l.bases 0 n 0 ≡ some k
    → get_work_loop l ≡ get_elem? l.bases k
unfolding get_work_loop
get_work_loop_steps l b n k e f g = rw (e) (rw (f) (rw (g) refl))

get_work_loop_from :
    (l : EvLoop) (bs : List ℕ)
    → l.bases ≡ bs
    → AllCounted l.counts bs
    → bs ≢ []
    → (b : ℕ) × (k : ℕ) × (c : ℕ) × (get_work_loop l ≡ some b)
      × (get_elem? l.bases k ≡ some b)
      × IsFirstLeast l.counts l.bases k c
get_work_loop_from l [] e v h = absurd (h refl)
get_work_loop_from l (b ∷ bs) e v h =
    let (n, f) = v.0 in
    let at_0 : get_elem? l.bases 0 ≡ some b = rw e refl in
    let (k, c, g, q) =
      least-FirstLeast l.counts l.bases (b ∷ bs) 0 n 0
        (λ j. let p : 0 + j ≡ j = omega arith in rw (p, e) refl) v (omega arith)
        ((b, (at_0, f)), λ j a d lt w. absurd (omega arith)) in
    let all : least l.counts l.bases 0 n 0 ≡ some k = rw e g in
    let (b', at_k) = q.0 in (b', k, c, get_work_loop_steps l b n k at_0 f all ∙ at_k.0, at_k.0, q)

-- With a count for each of its loops, and at least one loop, `GetWorkLoop` returns a loop: the first one
-- whose count no other loop's count is below.
pub get_work_loop-IsFirstLeast :
    (l : EvLoop)
    → AllCounted l.counts l.bases
    → l.bases ≢ []
    → (b : ℕ) × (k : ℕ) × (c : ℕ) × (get_work_loop l ≡ some b)
      × (get_elem? l.bases k ≡ some b)
      × IsFirstLeast l.counts l.bases k c
get_work_loop-IsFirstLeast l v h = get_work_loop_from l l.bases refl v h
