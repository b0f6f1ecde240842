-- ===== src/Agents/Delegations/Reads/Tree.antt =====
-- `tree`: src/hive/agents/delegations.py. A node has the row that `_public_record` projects and the lease of
-- its attempt.
use hive_os.Base.{
  some-injective, ℕ, zero, suc, ◌+◌, ◌-◌, ◌≤◌, String, Bool, true, false, Option, none, some, List,
  [], ◌∷◌, ◌≡◌, refl, ap, inl, inr, Bool-cases, Option-cases, arith, ltb, ◌==◌, if◌then◌else◌, min,
  max, length,
}
use hive_os.Table.{first_where}
use hive_os.Agents.Delegations.{Delegation, Lease, Ledger, has_id, is_in}
use hive_os.Agents.Delegations.Attempts.{resource_snapshot}
use hive_os.Agents.Delegations.Reads.{children}

mutual
  pub data Node : Type 0 where
    node : Delegation → Option Lease → Nodes → Node

  pub data Nodes : Type 0 where
    no_more : Nodes
    branch : Node → Nodes → Nodes

-- What the walk shares among its calls.
pub record Walk : Type 0 where
  pub remaining : ℕ
  pub seen : List String
  pub truncated : Bool

-- seen.add(id), where `seen` is a set.
unfoldable pub add_seen : String → List String → List String
unfolding is_in
add_seen id seen = if is_in id seen then seen else id ∷ seen

-- The loop over the children of a node, with `build` for one of them.
unfoldable pub visit : (Delegation → Walk → Node × Walk) → List Delegation → Walk → Nodes × Walk
unfolding is_in add_seen
visit build [] w = (no_more, w)
visit build (c ∷ cs) w = elim (w.remaining == 0) [
  | true ↦ (no_more, record w { truncated = true })
  | false ↦ elim (is_in c.id w.seen) [
    | true ↦ visit build cs (record w { truncated = true })
    | false ↦
        let made =
          build c (record w { seen = add_seen c.id w.seen; remaining = w.remaining - 1 }) in
        let rest = visit build cs made.1 in (branch made.0 rest.0, rest.1)
  ]
]

module _ (before : String → String → Bool) (l : Ledger) where
  -- `left` is depth_limit - depth.
  unfoldable pub build : ℕ → Delegation → Walk → Node × Walk
  unfolding children resource_snapshot visit
  build zero d w = (
    node d (resource_snapshot d.id l) no_more,
    if ltb 0 (length (children before d.id 1 l)) then record w { truncated = true } else w,
  )
  build (suc left) d w =
      let kids = visit (build left) (children before d.id 500 l) w in
      (node d (resource_snapshot d.id l) kids.0, kids.1)

  -- The root, node_count and truncated.
  unfoldable pub tree : String → ℕ → ℕ → Option (Node × (ℕ × Bool))
  unfolding build
  tree id max_depth max_nodes = elim (first_where (has_id id) l.delegations) [
    | none ↦ none
    | some d ↦
        let start : Walk = record {
          remaining = max 1 (min max_nodes 500) - 1;
          seen = d.id ∷ [];
          truncated = false;
        } in
        let built = build (min max_depth 16) d start in
        some (built.0, (length built.1.seen, built.1.truncated))
  ]

mutual
  pub size : Node → ℕ
  size (node d k kids) = suc (sizes kids)

  pub sizes : Nodes → ℕ
  sizes no_more = 0
  sizes (branch n rest) = size n + sizes rest

-- The walk under a node sees each node below it once, and pays for it from what remains.
abbrev Paid : Walk → Walk → ℕ → Type 0
Paid w v nodes =
    (length v.seen + v.remaining ≡ length w.seen + w.remaining)
    × (length v.seen ≡ length w.seen + nodes)

abbrev PaidNode : Walk → Node × Walk → Type 0
PaidNode w made =
    (length made.1.seen + made.1.remaining ≡ length w.seen + w.remaining)
    × (suc (length made.1.seen) ≡ length w.seen + size made.0)

visit-Paid :
    (make : Delegation → Walk → Node × Walk) (cs : List Delegation) (w : Walk)
    → ((c : Delegation) (u : Walk) → PaidNode u (make c u))
    → Paid w (visit make cs w).1 (sizes (visit make cs w).0)
unfolding visit size sizes
visit-Paid make [] w step = (refl, omega arith)
visit-Paid make (c ∷ cs) w step = elim (Bool-cases (w.remaining == 0)) [
  | inl spent ↦ rw (spent, visit) (refl, omega arith)
  | inr left ↦ elim (Bool-cases (is_in c.id w.seen)) [
    | inl old ↦ rw (left, visit, old) (visit-Paid make cs (record w { truncated = true }) step)
    | inr new ↦
        let entered : Walk = record w { seen = c.id ∷ w.seen; remaining = w.remaining - 1 } in
        let made = step c entered in
        let rest = visit-Paid make cs (make c entered).1 step in
        rw (left, visit, new, new)
          (ground (arith, made.0, made.1, rest.0, rest.1), omega (arith, made.1, rest.1))
  ]
]

module _ (before : String → String → Bool) (l : Ledger) where
  build-Paid : (left : ℕ) (d : Delegation) (w : Walk) → PaidNode w (build before l left d w)
  unfolding build size sizes
  build-Paid zero d w = elim (Bool-cases (ltb 0 (length (children before d.id 1 l)))) [
    | inl more ↦ rw more (refl, omega arith)
    | inr none_left ↦ rw none_left (refl, omega arith)
  ]
  build-Paid (suc left) d w =
      let kids =
        visit-Paid (build before l left) (children before d.id 500 l) w (build-Paid left) in
      (kids.0, omega (arith, kids.1))

  -- A tree has as many nodes as it says, and no more than the number asked for, read as one where it is zero and as 500
  -- where it is larger, whatever cycles the parents of the rows make.
  pub tree_bounded :
      (id : String) (max_depth max_nodes nodes : ℕ) (root : Node) (truncated : Bool)
      → tree before l id max_depth max_nodes ≡ some (root, (nodes, truncated))
      → (nodes ≡ size root) × (nodes ≤ max 1 (min max_nodes 500))
  unfolding tree
  tree_bounded id max_depth max_nodes nodes root truncated e =
      elim (Option-cases (first_where (has_id id) l.delegations)) [
        | inl gone ↦ absurd (
            let lost : ◌≡◌ {A = Option (Node × (ℕ × Bool))} none (some (root, (nodes, truncated))) =
              rw (gone, tree) at e in
            cc)
        | inr (d, found) ↦
            let start : Walk = record {
              remaining = max 1 (min max_nodes 500) - 1;
              seen = d.id ∷ [];
              truncated = false;
            } in
            let built = build before l (min max_depth 16) d start in
            let e' : ◌≡◌ {A = Option (Node × (ℕ × Bool))}
                (some (built.0, (length built.1.seen, built.1.truncated)))
                (some (root, (nodes, truncated))) =
              rw (found, tree) at e in
            let paid = build-Paid (min max_depth 16) d start in
            let same : ◌≡◌ {A = Node × (ℕ × Bool)}
                (built.0, (length built.1.seen, built.1.truncated)) (root, (nodes, truncated)) =
              some-injective e' in
            let root_same : built.0 ≡ root = ap (λ x. x.0) same in
            let count_same : length built.1.seen ≡ nodes = ap (λ x. x.1.0) same in
            rw (← root_same, ← count_same) (omega (arith, paid.1), omega (arith, paid.0))
      ]
