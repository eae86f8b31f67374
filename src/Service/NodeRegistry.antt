-- ===== src/Service/NodeRegistry.antt =====
-- service/src/node_registry.rs: the names, kinds and owners of nodes. A node's id is the one that
-- the core's graph gives it; where the two differ, the code logs it, which is not modelled.
pub mod Laws
use meritrank_rust.Prelude.{
  ℕ, ◌+◌, ◌≡◌, refl, ap, ==_refl, List, [], ◌∷◌, ◌++◌, Option, none, some, if◌then◌else◌, Bool,
  true, false, ◌&&◌, ◌==◌, arith, get_elem?, unwrap_or,
}
use meritrank_rust.Prelude.HashMap
use meritrank_rust.Prelude.HashMap.{Key}
use meritrank_rust.Deps.{Deps}
use meritrank_rust.Rank.State.{MeritRank, get_new_nodeid}

-- A string, as its Unicode scalar values.
abbrev pub NodeName : Type 0
NodeName = List ℕ

pub data NodeKind : Type 0 where
  user beacon comment opinion poll_variant poll : NodeKind

abbrev pub same_name : NodeName → NodeName → Bool
same_name [] [] = true
same_name (a ∷ xs) (b ∷ ys) = (a == b) && same_name xs ys
same_name _ _ = false

pub eq_of_same_name : (a b : NodeName) → same_name a b ≡ true → a ≡ b
eq_of_same_name [] [] h = refl
eq_of_same_name [] (b ∷ ys) h = cc
eq_of_same_name (a ∷ xs) [] h = cc
eq_of_same_name (a ∷ xs) (b ∷ ys) h = ground (arith, eq_of_same_name xs ys)

pub same_name_self : (a : NodeName) → same_name a a ≡ true
same_name_self [] = refl
same_name_self (a ∷ xs) = ground (arith, same_name_self xs)

abbrev pub name_key : Key
name_key = record {
  K = NodeName;
  same = same_name;
  same_true = eq_of_same_name;
  same_self = same_name_self;
}

abbrev pub number : NodeKind → ℕ
number user = 0
number beacon = 1
number comment = 2
number opinion = 3
number poll_variant = 4
number poll = 5

abbrev of_number : ℕ → NodeKind
of_number n =
    if n == 0
    then user
    else if n == 1
    then beacon
    else if n == 2
    then comment
    else if n == 3
    then opinion
    else if n == 4
    then poll_variant
    else poll

of_number-number : (a : NodeKind) → of_number (number a) ≡ a
of_number-number user = refl
of_number-number beacon = refl
of_number-number comment = refl
of_number-number opinion = refl
of_number-number poll_variant = refl
of_number-number poll = refl

pub eq_of_same_kind : (a b : NodeKind) → (number a == number b) ≡ true → a ≡ b
eq_of_same_kind a b h =
    let e : number a ≡ number b = ground arith in
    cc (of_number-number a, of_number-number b, ap of_number e)

abbrev pub kind_key : Key
kind_key = record {
  K = NodeKind;
  same = λ a b. number a == number b;
  same_true = eq_of_same_kind;
  same_self = λ a. ==_refl (number a);
}

pub record NodeInfo : Type 0 where
  pub id : ℕ
  pub name : NodeName
  pub kind : NodeKind
  pub owner : Option ℕ

pub record NodeRegistry : Type 0 where
  pub name_to_id : List (NodeName × ℕ)
  pub id_to_info : List NodeInfo
  pub kind_to_ids : List (NodeKind × List ℕ)
  pub next_id : ℕ

abbrev pub new : NodeRegistry
new = record { name_to_id = []; id_to_info = []; kind_to_ids = []; next_id = 0 }

-- `kind_to_ids.entry(kind).or_default().push(id)`
abbrev pub push_id : NodeKind → ℕ → List (NodeKind × List ℕ) → List (NodeKind × List ℕ)
push_id kind id m =
    HashMap.insert kind_key kind (unwrap_or (HashMap.get kind_key kind m) [] ++ id ∷ []) m

abbrev pub add_info : NodeRegistry → NodeName → NodeKind → Option ℕ → NodeRegistry
add_info r name kind owner = record {
  name_to_id = HashMap.insert name_key name r.next_id r.name_to_id;
  id_to_info =
      r.id_to_info ++ record { id = r.next_id; name = name; kind = kind; owner = owner } ∷ [];
  kind_to_ids = push_id kind r.next_id r.kind_to_ids;
  next_id = r.next_id + 1;
}

module _ (d : Deps) where
  unfoldable pub register :
      NodeRegistry → MeritRank d → NodeName → NodeKind → (NodeRegistry × MeritRank d) × ℕ
  register r mr name kind = elim (HashMap.get name_key name r.name_to_id) [
    | some id ↦ ((r, mr), id)
    | none ↦ ((add_info r name kind none, (get_new_nodeid d mr).0), r.next_id)
  ]

  unfoldable pub register_with_owner :
      NodeRegistry → MeritRank d → NodeName → NodeKind → ℕ → (NodeRegistry × MeritRank d) × ℕ
  register_with_owner r mr name kind owner = elim (HashMap.get name_key name r.name_to_id) [
    | some id ↦ ((r, mr), id)
    | none ↦ ((add_info r name kind (some owner), (get_new_nodeid d mr).0), r.next_id)
  ]

abbrev pub get_by_id : NodeRegistry → ℕ → Option NodeInfo
get_by_id r id = get_elem? r.id_to_info id

unfoldable pub get_by_name : NodeRegistry → NodeName → Option NodeInfo
get_by_name r name = elim (HashMap.get name_key name r.name_to_id) [
  | none ↦ none
  | some id ↦ get_elem? r.id_to_info id
]

abbrev pub nodes_by_kind : NodeRegistry → NodeKind → List ℕ
nodes_by_kind r kind = unwrap_or (HashMap.get kind_key kind r.kind_to_ids) []

-- 'U', 'B', 'C', 'O', 'V' and 'P'
abbrev pub kind_of_letter : ℕ → Option NodeKind
kind_of_letter c =
    if c == 85
    then some user
    else if c == 66
    then some beacon
    else if c == 67
    then some comment
    else if c == 79
    then some opinion
    else if c == 86
    then some poll_variant
    else if c == 80
    then some poll
    else none

unfoldable pub node_kind_from_prefix : NodeName → Option NodeKind
node_kind_from_prefix [] = none
node_kind_from_prefix (c ∷ name) = kind_of_letter c
