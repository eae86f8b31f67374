-- ===== src/Service/AStar/Reverse.antt =====
-- service/src/utils/astar.rs: the loop of `path` that reverses the ids in place.
use meritrank_rust.Prelude.{
  ne_test, ℕ, zero, suc, ◌+◌, ◌-◌, ◌/◌, ◌≤◌, ◌<◌, ◌≡◌, refl, sym, ap, ◌∙◌, subst, inl, inr, List,
  some, ◌==◌, ==_iff, length, get_elem?, arith, Bool-cases, ltb, ltb→lt, ltb→le,
}
use meritrank_rust.Prelude.Partial.{
  Returns, some-Returns, bind-Returns, IsWritten, put-Returns, get-Returns,
}
use meritrank_rust.Service.AStar.{Types}
use meritrank_rust.Service.AStar.Trace.{swap_from}

module _ (t : Types) where
  open t use {NodeId}

  -- The first `i` ids and the last `i` of the first `n` have changed places.
  pub record IsSwapped (start ids : List NodeId) (n i : ℕ) : Type 0 where
    pub same_length : length ids ≡ length start
    pub low : (j : ℕ) → j < i → get_elem? ids j ≡ get_elem? start (n - 1 - j)
    pub high : (j : ℕ) → n ≤ j + i → j < n → get_elem? ids j ≡ get_elem? start (n - 1 - j)
    pub middle : (j : ℕ) → i ≤ j → j + i < n → get_elem? ids j ≡ get_elem? start j

  swap-IsSwapped :
      (start ids once twice : List NodeId) (n i : ℕ) (x y : NodeId)
      → i + i + 1 < n
      → IsSwapped start ids n i
      → get_elem? ids i ≡ some x
      → get_elem? ids (n - 1 - i) ≡ some y
      → IsWritten ids i y once
      → IsWritten once (n - 1 - i) x twice
      → IsSwapped start twice n (i + 1)
  swap-IsSwapped start ids once twice n i x y room s at_x at_y w v =
      let far =
        λ (j : ℕ) (ne : ¬ (i ≡ j)) (ne' : ¬ (n - 1 - i ≡ j)). v.others j ne' ∙ w.others j ne in
      record {
        same_length = v.same_length ∙ w.same_length ∙ s.same_length;
        low = λ j lt. elim (Bool-cases (i == j)) [
          | inl e ↦
              let f = (==_iff i j).0 e in
              ap (get_elem? twice) (sym f)
              ∙ v.others i (λ g. omega arith)
              ∙ w.written
              ∙ sym at_y
              ∙ s.middle (n - 1 - i) (omega arith) (omega arith)
              ∙ ap (λ k. get_elem? start (n - 1 - k)) f
          | inr e ↦
              far j (ne_test i j e) (λ f. omega arith)
              ∙ s.low j (let f = ne_test i j e in omega arith)
        ];
        high = λ j le lt. elim (Bool-cases (n - 1 - i == j)) [
          | inl e ↦
              let f = (==_iff (n - 1 - i) j).0 e in
              ap (get_elem? twice) (sym f)
              ∙ v.written
              ∙ sym at_x
              ∙ s.middle i (omega arith) (omega arith)
              ∙ ap (get_elem? start) (omega arith)
          | inr e ↦
              far j (λ f. omega arith) (ne_test (n - 1 - i) j e)
              ∙ s.high j (let f = ne_test (n - 1 - i) j e in omega arith) lt
        ];
        middle = λ j le lt.
            far j (λ f. omega arith) (λ f. omega arith) ∙ s.middle j (omega arith) (omega arith);
      }

  pub swapped-all :
      (start ids : List NodeId) (n : ℕ)
      → IsSwapped start ids n (n / 2)
      → (j : ℕ) → j < n
      → get_elem? ids j ≡ get_elem? start (n - 1 - j)
  swapped-all start ids n s j lt = elim (Bool-cases (ltb j (n / 2))) [
    | inl e ↦ s.low j (ltb→lt j (n / 2) e)
    | inr e ↦ elim (Bool-cases (ltb (j + n / 2) n)) [
      | inl f ↦
          let half = ltb→le j (n / 2) e in
          let far = ltb→lt (j + n / 2) n f in
          s.middle j half far ∙ ap (get_elem? start) (omega arith)
      | inr f ↦ s.high j (ltb→le (j + n / 2) n f) lt
    ]
  ]

  pub swap_from-Returns :
      (start : List NodeId) (n left i : ℕ) (ids : List NodeId)
      → n ≤ length start
      → left + i ≡ n / 2
      → IsSwapped start ids n i
      → Returns (swap_from t n left i ids) (λ ids'. IsSwapped start ids' n (n / 2))
  unfolding swap_from
  swap_from-Returns start n zero i ids fits e s =
      some-Returns ids (subst (IsSwapped start ids n) (omega arith) s)
  swap_from-Returns start n (suc left) i ids fits e s =
      let same = s.same_length in
      bind-Returns (get-Returns ids i (omega arith)) (λ x at_x.
        bind-Returns (get-Returns ids (n - 1 - i) (omega arith)) (λ y at_y.
          bind-Returns (put-Returns ids i y (omega arith)) (λ once w.
            bind-Returns (put-Returns once (n - 1 - i) x (omega (arith, w.same_length))) (λ twice v.
              swap_from-Returns start n left (i + 1) twice fits (omega arith)
                (swap-IsSwapped start ids once twice n i x y (omega arith) s at_x at_y w v)))))

  pub start-IsSwapped : (ids : List NodeId) (n : ℕ) → IsSwapped ids ids n 0
  start-IsSwapped ids n = record {
    same_length = refl;
    low = λ j lt. absurd (omega arith);
    high = λ j le lt. absurd (omega arith);
    middle = λ j le lt. refl;
  }
