-- ===== src/RandomWalk/Shape.antt =====
-- core/src/random_walk.rs: the form of a walk. `clear`, `_add_node` and `insert_first` do not keep it.
use meritrank_rust.Prelude.{
  ℕ, ◌+◌, ◌-◌, ◌<◌, ◌≤◌, ◌≡◌, refl, List, [], ◌∷◌, ◌++◌, Option, none, some, Bool, true, false, not,
  ◌==◌, length, take, drop, last?, head?, arith, length-append, length-take, length-drop,
  take-append-drop, Option-cases, inl, inr, Bool-cases,
}
use meritrank_rust.Errors.{ok}
use meritrank_rust.RandomWalk.{
  RandomWalk, new, push, mark_step, repeats, extend, extended_start, both_some, split_from,
  moved_start, kept_start,
}

-- No node follows itself.
abbrev pub NoRepeat : List ℕ → Type 0
NoRepeat [] = Unit {0}
NoRepeat (x ∷ []) = Unit {0}
NoRepeat (x ∷ y ∷ xs) = ((x == y) ≡ false) × NoRepeat (y ∷ xs)

-- The mark, if any, is the position of a node.
abbrev pub StartsWithin : Option ℕ → ℕ → Type 0
StartsWithin none n = Unit {0}
StartsWithin (some s) n = s < n

pub record IsWalk (w : RandomWalk) : Type 0 where
  pub no_repeat : NoRepeat w.nodes
  pub within : StartsWithin w.negative_segment_start (length w.nodes)

abbrev pub apart : Option ℕ → Option ℕ → Bool
apart (some x) (some y) = not (x == y)
apart (some x) none = true
apart none y = true

NoRepeat-append :
    (xs ys : List ℕ)
    → NoRepeat xs
    → NoRepeat ys
    → apart (last? xs) (head? ys) ≡ true
    → NoRepeat (xs ++ ys)
NoRepeat-append [] ys p q h = q
NoRepeat-append (x ∷ []) [] p q h = tt
NoRepeat-append (x ∷ []) (y ∷ ys) p q h = (ground arith, q)
NoRepeat-append (x ∷ x' ∷ xs) ys p q h = (p.0, NoRepeat-append (x' ∷ xs) ys p.1 q h)

NoRepeat-left : (xs ys : List ℕ) → NoRepeat (xs ++ ys) → NoRepeat xs
NoRepeat-left [] ys p = tt
NoRepeat-left (x ∷ []) ys p = tt
NoRepeat-left (x ∷ x' ∷ xs) ys p = (p.0, NoRepeat-left (x' ∷ xs) ys p.1)

NoRepeat-right : (xs ys : List ℕ) → NoRepeat (xs ++ ys) → NoRepeat ys
NoRepeat-right [] ys p = p
NoRepeat-right (x ∷ []) [] p = tt
NoRepeat-right (x ∷ []) (y ∷ ys) p = p.1
NoRepeat-right (x ∷ x' ∷ xs) ys p = NoRepeat-right (x' ∷ xs) ys p.1

new-IsWalk : IsWalk new
new-IsWalk = record { no_repeat = tt; within = tt }

apart_of_repeats : (o : Option ℕ) (y : ℕ) → repeats o y ≡ false → apart o (some y) ≡ true
unfolding repeats
apart_of_repeats none y h = refl
apart_of_repeats (some x) y h = ground arith

StartsWithin-mono : (o : Option ℕ) (m n : ℕ) → m ≤ n → StartsWithin o m → StartsWithin o n
StartsWithin-mono none m n h p = tt
StartsWithin-mono (some s) m n h p = omega arith

mark_step-IsWalk :
    (w : RandomWalk) (index : ℕ) (b : Bool)
    → IsWalk w
    → index < length w.nodes
    → IsWalk (mark_step w index b).0
unfolding mark_step
mark_step-IsWalk w index true p h = p
mark_step-IsWalk w index false p h = elim (Option-cases w.negative_segment_start) [
  | inl e ↦ rw (e, mark_step) (record { no_repeat = p.no_repeat; within = h })
  | inr (s, e) ↦ rw (e, mark_step) p
]

-- `push` keeps the shape of a walk, no node following itself and the mark at a node, on every
-- branch, its errors included.
pub push-IsWalk : (w : RandomWalk) (node_id : ℕ) (b : Bool) → IsWalk w → IsWalk (push w node_id b).0
unfolding push
push-IsWalk w node_id b p = elim (Bool-cases (repeats (last? w.nodes) node_id)) [
  | inl e ↦ rw (e, push) p
  | inr e ↦
      rw (e, push)
        (mark_step-IsWalk _ (length w.nodes) b
          (record {
            no_repeat =
                NoRepeat-append w.nodes (node_id ∷ []) p.no_repeat tt
                  (apart_of_repeats (last? w.nodes) node_id e);
            within =
                StartsWithin-mono w.negative_segment_start (length w.nodes) _
                  (omega (arith, length-append w.nodes (node_id ∷ []))) p.within;
          })
          (omega (arith, length-append w.nodes (node_id ∷ []))))
]

extended_start-StartsWithin :
    (m n : ℕ) (a b : Option ℕ)
    → StartsWithin a m
    → StartsWithin b n
    → StartsWithin (extended_start m a b) (m + n)
unfolding extended_start
extended_start-StartsWithin m n none none p q = tt
extended_start-StartsWithin m n (some s) none p q = omega arith
extended_start-StartsWithin m n a (some s) p q = omega arith

-- `extend` keeps the shape of a walk, on every branch, where the segment has that shape and its
-- first node is not the walk's last one.
pub extend-IsWalk :
    (w s : RandomWalk)
    → IsWalk w
    → IsWalk s
    → apart (last? w.nodes) (head? s.nodes) ≡ true
    → IsWalk (extend w s).0
unfolding extend
extend-IsWalk w s p q h =
    elim (Bool-cases (both_some w.negative_segment_start s.negative_segment_start)) [
      | inl e ↦ rw (e, extend) p
      | inr e ↦
          rw (e, extend)
            (record {
              no_repeat = NoRepeat-append w.nodes s.nodes p.no_repeat q.no_repeat h;
              within = rw (length-append w.nodes s.nodes) (
                  extended_start-StartsWithin (length w.nodes) (length s.nodes) _ _ p.within
                    q.within);
            })
    ]

kept_start-StartsWithin : (at : ℕ) (o : Option ℕ) → StartsWithin (kept_start at o) at
unfolding kept_start
kept_start-StartsWithin at none = tt
kept_start-StartsWithin at (some n) = ground arith

moved_start-StartsWithin :
    (at n : ℕ) (o : Option ℕ) → StartsWithin o n → StartsWithin (moved_start at o) (n - at)
unfolding moved_start
moved_start-StartsWithin at n none p = tt
moved_start-StartsWithin at n (some s) p = ground arith

-- Cutting a walk at a position within its length does not panic; it gives two walks of the
-- required shape, the first with as many nodes as the position says.
pub split_from-IsWalk :
    (w : RandomWalk) (at : ℕ)
    → IsWalk w
    → at ≤ length w.nodes
    → (kept : RandomWalk) × (cut : RandomWalk) × (split_from w at ≡ ok (kept, cut))
      × IsWalk kept
      × IsWalk cut
      × (length kept.nodes ≡ at)
unfolding split_from
split_from-IsWalk w at p h =
    let parts = rw (← take-append-drop at w.nodes) at p.no_repeat in
    (
      record {
        nodes = take at w.nodes;
        negative_segment_start = kept_start at w.negative_segment_start;
      },
      record {
        nodes = drop at w.nodes;
        negative_segment_start = moved_start at w.negative_segment_start;
      },
      ground arith,
      record {
        no_repeat = NoRepeat-left (take at w.nodes) (drop at w.nodes) parts;
        within =
            StartsWithin-mono (kept_start at w.negative_segment_start) at _
              (omega (arith, length-take at w.nodes))
              (kept_start-StartsWithin at w.negative_segment_start);
      },
      record {
        no_repeat = NoRepeat-right (take at w.nodes) (drop at w.nodes) parts;
        within =
            rw (length-drop at w.nodes)
              (moved_start-StartsWithin at (length w.nodes) w.negative_segment_start p.within);
      },
      omega (arith, length-take at w.nodes),
    )

-- A node that differs from the last one is pushed, and a negative step marks it.
pub push_positive :
    (w : RandomWalk) (x : ℕ)
    → apart (last? w.nodes) (some x) ≡ true
    → push w x true ≡ (record w { nodes = w.nodes ++ x ∷ [] }, ok tt)
unfolding push
push_positive w x h = ground arith

pub push_negative :
    (w : RandomWalk) (x : ℕ)
    → apart (last? w.nodes) (some x) ≡ true
    → w.negative_segment_start ≡ none
    → push w x false ≡ (
      record { nodes = w.nodes ++ x ∷ []; negative_segment_start = some (length w.nodes) },
      ok tt,
    )
unfolding push
push_negative w x h e = ground arith
