-- ===== src/Service/Ownership/Partition.antt =====
-- service/src/helpers.rs: `prioritize_ego_owned_items` puts the ego's items first and loses none.
use meritrank_rust.Prelude.{
  ne_test, ℕ, zero, suc, ◌+◌, ◌≤◌, ◌<◌, ◌≡◌, ◌≢◌, refl, sym, ap, ◌∙◌, subst, inl, inr, List, [],
  ◌∷◌, some, Bool, true, false, ◌==◌, ==_iff, length, get_elem?, set, if◌then◌else◌, arith,
  Bool-cases,
}
use meritrank_rust.Prelude.Partial.{
  ◌>>=◌, Returns, some-Returns, bind-Returns, map-Returns, put-Returns, get-Returns, some_injective,
  IsWritten,
}
use meritrank_rust.Service.NodeRegistry.{NodeInfo}
use meritrank_rust.Service.Ownership.{is_owner, swap, prioritize_from, prioritize_ego_owned_items}

abbrev one : Bool → ℕ
one b = if b then 1 else 0

module _ {A : Type 0} where
  -- How many items pass a test.
  abbrev pub count_if : (NodeInfo × A → Bool) → List (NodeInfo × A) → ℕ
  count_if test [] = 0
  count_if test (x ∷ xs) = one (test x) + count_if test xs

  count_if-set :
      (test : NodeInfo × A → Bool) (xs : List (NodeInfo × A)) (i : ℕ) (u v : NodeInfo × A)
      → get_elem? xs i ≡ some u
      → count_if test (set xs i v) + one (test u) ≡ count_if test xs + one (test v)
  count_if-set test [] i u v at = cc
  count_if-set test (x ∷ xs) zero u v at =
      let same = ap (λ y. one (test y)) (some_injective at) in omega (arith, same)
  count_if-set test (x ∷ xs) (suc i) u v at = omega (arith, count_if-set test xs i u v at)

  abbrev pub SameItems : List (NodeInfo × A) → List (NodeInfo × A) → Type 0
  SameItems xs ys = (test : NodeInfo × A → Bool) → count_if test ys ≡ count_if test xs

  -- What two writes that exchange the items at `i` and `j` leave.
  record IsSwap (xs : List (NodeInfo × A)) (i j : ℕ) (ys : List (NodeInfo × A)) : Type 0 where
    same_length : length ys ≡ length xs
    at_j : get_elem? ys j ≡ get_elem? xs i
    at_i : i ≢ j → get_elem? ys i ≡ get_elem? xs j
    others : (k : ℕ) → i ≢ k → j ≢ k → get_elem? ys k ≡ get_elem? xs k
    same_items : SameItems xs ys

  -- The place that is written second holds what was written first, or what it held.
  once-at_j :
      (xs once : List (NodeInfo × A)) (i j : ℕ) (y : NodeInfo × A)
      → get_elem? xs j ≡ some y
      → IsWritten xs i y once
      → get_elem? once j ≡ some y
  once-at_j xs once i j y at w = elim (Bool-cases (i == j)) [
    | inl e ↦ subst (λ k. get_elem? once k ≡ some y) ((==_iff i j).0 e) w.written
    | inr e ↦ w.others j (ne_test i j e) ∙ at
  ]

  swap-Returns :
      (xs : List (NodeInfo × A)) (i j : ℕ)
      → i < length xs
      → j < length xs
      → Returns (swap xs i j) (IsSwap xs i j)
  unfolding swap
  swap-Returns xs i j lt lt' = bind-Returns (get-Returns xs i lt) (λ x at_x.
      bind-Returns (get-Returns xs j lt') (λ y at_y. bind-Returns (put-Returns xs i y lt) (λ once w.
        map-Returns (put-Returns once j x (omega (arith, w.same_length))) (λ twice v. record {
          same_length = v.same_length ∙ w.same_length;
          at_j = v.written ∙ sym at_x;
          at_i = λ ne. v.others i (λ e. ne (sym e)) ∙ w.written ∙ sym at_y;
          others = λ k ne ne'. v.others k ne' ∙ w.others k ne;
          same_items = λ test.
              let first = count_if-set test xs i x y at_x in
              let second = count_if-set test once j y x (once-at_j xs once i j y at_y w) in
              let named = ap (count_if test) w.exact in
              let named' = ap (count_if test) v.exact in omega arith;
        }))))

  -- Below `i`, the ego's items are those before `k`.
  pub record IsSplit (ego_id : ℕ) (xs : List (NodeInfo × A)) (i k : ℕ) : Type 0 where
    pub below : k ≤ i
    pub owned :
        (j : ℕ)
        → j < k
        → (x : NodeInfo × A) → get_elem? xs j ≡ some x
        → is_owner x.0.owner ego_id ≡ true
    pub foreign :
        (j : ℕ)
        → k ≤ j
        → j < i
        → (x : NodeInfo × A) → get_elem? xs j ≡ some x
        → is_owner x.0.owner ego_id ≡ false

  swap-IsSplit :
      (ego_id : ℕ) (xs ys : List (NodeInfo × A)) (i k : ℕ) (x : NodeInfo × A)
      → IsSplit ego_id xs i k
      → get_elem? xs i ≡ some x
      → is_owner x.0.owner ego_id ≡ true
      → IsSwap xs i k ys
      → IsSplit ego_id ys (i + 1) (k + 1)
  swap-IsSplit ego_id xs ys i k x s at mine w =
      let below = s.below in
      record {
        below = omega arith;
        owned = λ j lt z at_z. elim (Bool-cases (k == j)) [
          | inl e ↦
              subst (λ (q : NodeInfo × A). is_owner q.0.owner ego_id ≡ true)
                (some_injective (sym at ∙ sym w.at_j ∙ ap (get_elem? ys) ((==_iff k j).0 e) ∙ at_z))
                mine
          | inr e ↦
              let ne = ne_test k j e in
              s.owned j (omega arith) z (sym (w.others j (λ f. omega arith) ne) ∙ at_z)
        ];
        foreign = λ j le lt z at_z. elim (Bool-cases (i == j)) [
          | inl e ↦
              let here = (==_iff i j).0 e in
              s.foreign k (omega arith) (omega arith) z
                (sym (w.at_i (λ f. omega arith)) ∙ ap (get_elem? ys) here ∙ at_z)
          | inr e ↦
              let ne = ne_test i j e in
              s.foreign j (omega arith) (omega arith) z
                (sym (w.others j ne (λ f. omega arith)) ∙ at_z)
        ];
      }

  stay-IsSplit :
      (ego_id : ℕ) (xs : List (NodeInfo × A)) (i k : ℕ) (x : NodeInfo × A)
      → IsSplit ego_id xs i k
      → get_elem? xs i ≡ some x
      → is_owner x.0.owner ego_id ≡ false
      → IsSplit ego_id xs (i + 1) k
  stay-IsSplit ego_id xs i k x s at other = record {
    below = omega (arith, s.below);
    owned = s.owned;
    foreign = λ j le lt z at_z. elim (Bool-cases (i == j)) [
      | inl e ↦
          subst (λ (q : NodeInfo × A). is_owner q.0.owner ego_id ≡ false)
            (some_injective (sym at ∙ ap (get_elem? xs) ((==_iff i j).0 e) ∙ at_z)) other
      | inr e ↦ let ne = ne_test i j e in s.foreign j le (omega arith) z at_z
    ];
  }

  -- The ego's items are those before some place, and the items are the same ones.
  pub record IsPrioritized (ego_id : ℕ) (xs ys : List (NodeInfo × A)) : Type 0 where
    pub place : ℕ
    pub same_length : length ys ≡ length xs
    pub split : IsSplit ego_id ys (length ys) place
    pub same_items : SameItems xs ys

  moved-Returns :
      (ego_id left i k : ℕ) (xs : List (NodeInfo × A)) (x : NodeInfo × A) (b : Bool)
      → is_owner x.0.owner ego_id ≡ b
      → get_elem? xs i ≡ some x
      → i < length xs
      → IsSplit ego_id xs i k
      → ((k : ℕ) (ys : List (NodeInfo × A))
          → length ys ≡ length xs
          → IsSplit ego_id ys (i + 1) k
          → Returns (prioritize_from ego_id left (i + 1) k ys) (IsPrioritized ego_id ys))
      → Returns
          ((if b then swap xs i k else some xs)
            >>= prioritize_from ego_id left (i + 1) (if b then k + 1 else k))
          (IsPrioritized ego_id xs)
  moved-Returns ego_id left i k xs x true mine at lt s go =
      let below = s.below in
      bind-Returns (swap-Returns xs i k lt (omega arith)) (λ ys w.
        map-Returns (go (k + 1) ys w.same_length (swap-IsSplit ego_id xs ys i k x s at mine w))
          (λ zs p. record {
            place = p.place;
            same_length = p.same_length ∙ w.same_length;
            split = p.split;
            same_items = λ test. p.same_items test ∙ w.same_items test;
          }))
  moved-Returns ego_id left i k xs x false other at lt s go =
      go k xs refl (stay-IsSplit ego_id xs i k x s at other)

  prioritize_from-Returns :
      (ego_id left i k : ℕ) (xs : List (NodeInfo × A))
      → i + left ≡ length xs
      → IsSplit ego_id xs i k
      → Returns (prioritize_from ego_id left i k xs) (IsPrioritized ego_id xs)
  unfolding prioritize_from
  prioritize_from-Returns ego_id zero i k xs size s = some-Returns xs (record {
    place = k;
    same_length = refl;
    split = subst (λ n. IsSplit ego_id xs n k) (omega arith) s;
    same_items = λ test. refl;
  })
  prioritize_from-Returns ego_id (suc left) i k xs size s =
      bind-Returns (get-Returns xs i (omega arith)) (λ x at.
        moved-Returns ego_id left i k xs x (is_owner x.0.owner ego_id) refl at (omega arith) s
          (λ k ys same t. prioritize_from-Returns ego_id left (i + 1) k ys (omega arith) t))

  -- No call of `prioritize_ego_owned_items` panics; afterwards the items that the ego owns are
  -- those before some place, the list is as long as before, and it has as many items as before
  -- that pass any test.
  pub prioritize_ego_owned_items-IsPrioritized :
      (items : List (NodeInfo × A)) (ego_info : NodeInfo)
      → Returns (prioritize_ego_owned_items items ego_info) (IsPrioritized ego_info.id items)
  unfolding prioritize_ego_owned_items
  prioritize_ego_owned_items-IsPrioritized items ego_info =
      prioritize_from-Returns ego_info.id (length items) 0 0 items (omega arith) (record {
        below = omega arith;
        owned = λ j lt. absurd (omega arith);
        foreign = λ j le lt. absurd (omega arith);
      })
