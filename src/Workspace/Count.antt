-- ===== src/Workspace/Count.antt =====
-- How often an id occurs in the tree, and what the changes of one node do to that.
use qtable_server.Base.{
  ℕ, ◌+◌, String, false, Option, none, some, ◌≡◌, refl, ap, ◌∙◌, arith, inl, inr, ◌==◌, string_eq,
  if◌then◌else◌, Bool-cases, Option-cases,
}
use qtable_server.Workspace.{
  Node, folder, table, dashboard, Nodes, nil, cons, node_id, find_node, find_inside, update_node,
  update_inside, detach, detach_inside, snoc, append_child, is_table,
}

abbrev pub hit : String → String → ℕ
hit k id = if id == k then 1 else 0

unfoldable mutual
  pub count : String → Nodes → ℕ
  count k nil = 0
  count k (cons c rest) = node_count k c + count k rest

  pub node_count : String → Node → ℕ
  node_count k (folder id name children) = hit k id + count k children
  node_count k (table id name view) = hit k id
  node_count k (dashboard id name children) = hit k id + count k children

pub count-snoc :
    (k : String) (cs : Nodes) (n : Node) → count k (snoc cs n) ≡ count k cs + node_count k n
unfolding count
count-snoc k nil n = omega arith
count-snoc k (cons c cs) n = omega (arith, count-snoc k cs n)

pub append_child-count :
    (k : String) (n c : Node)
    → is_table c ≡ false
    → node_count k (append_child n c) ≡ node_count k c + node_count k n
unfolding append_child node_count
append_child-count k n (folder id name children) h = omega (arith, count-snoc k children n)
append_child-count k n (table id name view) h = cc
append_child-count k n (dashboard id name children) h = omega (arith, count-snoc k children n)

mutual
  unfolding find_node update_node

  pub update_node-absent :
      (f : Node → Node) (cs : Nodes) (id : String)
      → find_node cs id ≡ none
      → update_node f cs id ≡ none
  update_node-absent f nil id h = refl
  update_node-absent f (cons x rest) id h = elim (Bool-cases (node_id x == id)) [
    | inl here ↦ absurd (cc (rw here at h))
    | inr other ↦ elim (Option-cases (find_inside x id)) [
      | inl above ↦
          rw (other, update_inside-absent f x id above)
            (rw (update_node-absent f rest id (rw (other, above) at h)) refl)
      | inr (c, below) ↦ absurd (cc (rw (other, below) at h))
    ]
  ]

  update_inside-absent :
      (f : Node → Node) (x : Node) (id : String)
      → find_inside x id ≡ none
      → update_inside f x id ≡ none
  update_inside-absent f (folder i name cs) id h = rw (update_node-absent f cs id h) refl
  update_inside-absent f (table i name v) id h = refl
  update_inside-absent f (dashboard i name cs) id h = refl

some_inj : {c d : Node} → ◌≡◌ {A = Option Node} (some c) (some d) → c ≡ d
some_inj e = cc

mutual
  unfolding find_node update_node count

  -- A change of the node that is found changes the count by what it changes that node's count.
  pub update_node-count :
      (k : String) (f : Node → Node) (d : ℕ) (cs : Nodes) (id : String) (c : Node)
      → find_node cs id ≡ some c
      → node_count k (f c) ≡ node_count k c + d
      → (cs' : Nodes) × (update_node f cs id ≡ some cs') × (count k cs' ≡ count k cs + d)
  update_node-count k f d nil id c found grows = cc
  update_node-count k f d (cons x rest) id c found grows = elim (Bool-cases (node_id x == id)) [
    | inl here ↦
        let e : x ≡ c = some_inj (rw here at found) in
        let g : node_count k (f x) ≡ node_count k x + d = rw e grows in
        rw here (cons (f x) rest, refl, omega (arith, g))
    | inr other ↦ elim (Option-cases (find_inside x id)) [
      | inl above ↦
          let (rest', e, grown) =
            update_node-count k f d rest id c (rw (other, above) at found) grows in
          rw (other, update_inside-absent f x id above)
            (rw e (cons x rest', refl, omega (arith, grown)))
      | inr (c', below) ↦
          let same : c' ≡ c = some_inj (rw (other, below) at found) in
          let (x', e, grown) = update_inside-count k f d x id c (below ∙ ap some same) grows in
          rw other (rw e (cons x' rest, refl, omega (arith, grown)))
    ]
  ]

  update_inside-count :
      (k : String) (f : Node → Node) (d : ℕ) (x : Node) (id : String) (c : Node)
      → find_inside x id ≡ some c
      → node_count k (f c) ≡ node_count k c + d
      → (x' : Node) × (update_inside f x id ≡ some x') × (node_count k x' ≡ node_count k x + d)
  update_inside-count k f d (folder i name cs) id c found grows =
      let (cs', e, grown) = update_node-count k f d cs id c found grows in
      rw e (folder i name cs', refl, omega (arith, grown))
  update_inside-count k f d (table i name v) id c found grows = cc
  update_inside-count k f d (dashboard i name cs) id c found grows = cc

abbrev parts_count : String → Option (Node × Nodes) → ℕ
parts_count k none = 0
parts_count k (some (n, cs)) = count k cs + node_count k n

abbrev parts_inside : String → Option (Node × Node) → ℕ
parts_inside k none = 0
parts_inside k (some (n, c)) = node_count k c + node_count k n

mutual
  unfolding detach count

  -- Detaching a node takes its ids, and those below it, out of the tree.
  pub detach-count :
      (k : String) (cs : Nodes) (id : String) (n : Node) (rest' : Nodes)
      → detach cs id ≡ some (n, rest')
      → count k cs ≡ count k rest' + node_count k n
  detach-count k nil id n rest' h = cc
  detach-count k (cons x rest) id n rest' h = elim (Bool-cases (node_id x == id)) [
    | inl here ↦ let e = ap (parts_count k) (rw here at h) in omega (arith, e)
    | inr other ↦ elim (Option-cases (detach_inside x id)) [
      | inl above ↦ elim (Option-cases (detach rest id)) [
        | inl gone ↦ absurd (cc (rw (other, above, gone) at h))
        | inr ((m, r), e) ↦
            let later = detach-count k rest id m r e in
            let total = ap (parts_count k) (rw (other, above, e) at h) in
            omega (arith, later, total)
      ]
      | inr ((m, x'), below) ↦
          let first = detach_inside-count k x id m x' below in
          let total = ap (parts_count k) (rw (other, below) at h) in omega (arith, first, total)
    ]
  ]

  detach_inside-count :
      (k : String) (x : Node) (id : String) (n x' : Node)
      → detach_inside x id ≡ some (n, x')
      → node_count k x ≡ node_count k x' + node_count k n
  detach_inside-count k (folder i name cs) id n x' h = elim (Option-cases (detach cs id)) [
    | inl gone ↦ absurd (cc (rw gone at h))
    | inr ((m, r), e) ↦
        let below = detach-count k cs id m r e in
        let total = ap (parts_inside k) (rw e at h) in omega (arith, below, total)
  ]
  detach_inside-count k (table i name v) id n x' h = cc
  detach_inside-count k (dashboard i name cs) id n x' h = cc
