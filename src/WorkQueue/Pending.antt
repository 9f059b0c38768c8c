-- ===== src/WorkQueue/Pending.antt =====
-- The nodes of a work list (tools/work_queue.h): the works in their order, and what erasing a node
-- leaves.
use lite_cpplib.Base.{
  ℕ, suc, ◌<◌, ◌≡◌, ◌≢◌, refl, ap, inl, inr, Option, none, some, List, [], ◌∷◌, ◌++◌, arith, ◌==◌,
  if◌then◌else◌, ==_refl, Bool-cases,
}
use lite_cpplib.WorkQueue.{Node, erase_node}

-- The works in the order in which they are taken.
abbrev pub works : List Node → List ℕ
works [] = []
works (x ∷ xs) = x.work ∷ works xs

-- The work of the first node with the identity `n`.
unfoldable pub find_node : ℕ → List Node → Option ℕ
find_node n [] = none
find_node n (x ∷ xs) = let rest = find_node n xs in if x.id == n then some x.work else rest

abbrev pub AllBelow : ℕ → List Node → Type 0
AllBelow n [] = Unit {0}
AllBelow n (x ∷ xs) = (x.id < n) × AllBelow n xs

pub works-append : (xs ys : List Node) → works (xs ++ ys) ≡ works xs ++ works ys
works-append [] ys = refl
works-append (x ∷ xs) ys = ap (λ (l : List ℕ). x.work ∷ l) (works-append xs ys)

pub AllBelow-suc : (n : ℕ) (xs : List Node) → AllBelow n xs → AllBelow (suc n) xs
AllBelow-suc n [] h = tt
AllBelow-suc n (x ∷ xs) (lt, h) = (omega arith, AllBelow-suc n xs h)

pub AllBelow-append :
    (n : ℕ) (xs : List Node) (y : Node) → AllBelow n xs → y.id < n → AllBelow n (xs ++ (y ∷ []))
AllBelow-append n [] y h lt = (lt, tt)
AllBelow-append n (x ∷ xs) y (lt', h) lt = (lt', AllBelow-append n xs y h lt)

pub find_node-append :
    (n w : ℕ) (xs ys : List Node) → find_node n xs ≡ some w → find_node n (xs ++ ys) ≡ some w
unfolding find_node
find_node-append n w [] ys h = grind arith
find_node-append n w (x ∷ xs) ys h = elim (Bool-cases (x.id == n)) [
  | inl e ↦ rw e (rw e at h)
  | inr e ↦ rw e (find_node-append n w xs ys (rw e at h))
]

pub find_node-append_new :
    (y : Node) (xs : List Node) → AllBelow y.id xs → find_node y.id (xs ++ (y ∷ [])) ≡ some y.work
unfolding find_node
find_node-append_new y [] h = rw (==_refl y.id) refl
find_node-append_new y (x ∷ xs) (lt, h) = ground (arith, find_node-append_new y xs h)

-- `rest` is `xs` without one node, which stands for `w` and has the identity `n`.
pub record IsErased (n w : ℕ) (xs rest : List Node) : Type 0 where
  pub before : List Node
  pub after : List Node
  pub node : Node
  pub named : node.id ≡ n
  pub stands_for : node.work ≡ w
  pub whole : xs ≡ before ++ (node ∷ after)
  pub left : rest ≡ before ++ after
  pub others : (m v : ℕ) → m ≢ n → find_node m xs ≡ some v → find_node m rest ≡ some v
  pub bounded : (k : ℕ) → AllBelow k xs → AllBelow k rest

erase_head :
    (n w : ℕ) (x : Node) (xs : List Node) → x.id ≡ n → x.work ≡ w → IsErased n w (x ∷ xs) xs
unfolding find_node
erase_head n w x xs e same = record {
  before = [];
  after = xs;
  node = x;
  named = e;
  stands_for = same;
  whole = refl;
  left = refl;
  others = λ m v ne h. ground arith;
  bounded = λ k h. h.1;
}

erase_later :
    (n w : ℕ) (x : Node) (xs rest : List Node)
    → IsErased n w xs rest
    → IsErased n w (x ∷ xs) (x ∷ rest)
unfolding find_node
erase_later n w x xs rest r = record {
  before = x ∷ r.before;
  after = r.after;
  node = r.node;
  named = r.named;
  stands_for = r.stands_for;
  whole = ap (λ (l : List Node). x ∷ l) r.whole;
  left = ap (λ (l : List Node). x ∷ l) r.left;
  others = λ m v ne h. elim (Bool-cases (x.id == m)) [
    | inl e ↦ rw e (rw e at h)
    | inr e ↦ rw e (r.others m v ne (rw e at h))
  ];
  bounded = λ k h. (h.0, r.bounded k h.1);
}

-- A node that the list has can be erased.
pub erase_node_lem :
    (n w : ℕ) (xs : List Node)
    → find_node n xs ≡ some w
    → (rest : List Node) × (erase_node n xs ≡ some rest) × IsErased n w xs rest
unfolding find_node erase_node
erase_node_lem n w [] h = grind arith
erase_node_lem n w (x ∷ xs) h = elim (Bool-cases (x.id == n)) [
  | inl e ↦ (xs, rw e refl, erase_head n w x xs (ground arith) (ground arith))
  | inr e ↦
      let (rest, eq, r) = erase_node_lem n w xs (rw e at h) in
      (x ∷ rest, rw (e, eq) refl, erase_later n w x xs rest r)
]
