-- ===== src/Merkle/Binding.antt =====
-- src/file_binding.rs: verify_merkle_path against the root of a tree, whatever the path.
use ebutv.Prelude.{
  ℕ, zero, suc, ◌<◌, ◌≡◌, refl, sym, ap, ◌∙◌, ◌≢◌, ◌⊎◌, inl, inr, Bool, true, false, List, [], ◌∷◌,
  ◌++◌, map, arith, ltb, length, get_or, take, bytes_eq, bytes_eq→eq, bytes_eq_refl, Bool-cases,
  All, All-get, append-injective, length-take, length-map,
}
use ebutv.Merkle.{
  Digest, MerklePath, Tags, merkle_hash, merkle_combine, next_level, levels_from, build_merkle_tree,
  last_level, tree_root, fold_path, verify_merkle_path,
}
use ebutv.Merkle.Paths.{levels_from_root}

-- Two strings that the 32-byte truncation of the hash does not tell apart.
pub record Collision (sha512 : List ℕ → List ℕ) : Type 0 where
  pub first : List ℕ
  pub second : List ℕ
  pub differ : first ≢ second
  pub agree : take 32 (sha512 first) ≡ take 32 (sha512 second)

-- Tags of one length that differ.
pub record Apart (tags : Tags) : Type 0 where
  pub sizes : length tags.leaf_tag ≡ length tags.node_tag
  pub differ : tags.leaf_tag ≢ tags.node_tag

abbrev pub Occurs : List Digest → Digest → Type 0
Occurs leaves leaf = (i : ℕ) × (i < length leaves) × (get_or leaves i [] ≡ leaf)

abbrev pub IsDigestPath : MerklePath → Type 0
IsDigestPath path = All (λ (s : Bool × Digest). length s.1 ≡ 32) path

module _ (sha512 : List ℕ → List ℕ) (size : (x : List ℕ) → length (sha512 x) ≡ 64) where
  same_or_Collision :
      (x y : List ℕ) → take 32 (sha512 x) ≡ take 32 (sha512 y) → (x ≡ y) ⊎ Collision sha512
  same_or_Collision x y h = elim (Bool-cases (bytes_eq x y)) [
    | inl same ↦ inl (bytes_eq→eq x y same)
    | inr no_match ↦ inr (record {
      first = x;
      second = y;
      differ = λ e. cc (no_match, ap (bytes_eq x) e, bytes_eq_refl x);
      agree = h;
    })
  ]

  module _ (tags : Tags) (apart : Apart tags) (leaves : List Digest) where
    length-merkle_hash : (x : Digest) → length (merkle_hash sha512 tags x) ≡ 32
    unfolding merkle_hash
    length-merkle_hash x =
        omega (arith, length-take 32 (sha512 (tags.leaf_tag ++ x)), size (tags.leaf_tag ++ x))

    length-merkle_combine : (x y : Digest) → length (merkle_combine sha512 tags x y) ≡ 32
    unfolding merkle_combine
    length-merkle_combine x y = omega (
      arith,
      length-take 32 (sha512 (tags.node_tag ++ (x ++ y))),
      size (tags.node_tag ++ (x ++ y)),
    )

    -- The nodes of a tree over the leaves.
    data Node : Digest → Type 0 where
      leaf_node :
          {h : Digest} (x : Digest) → Occurs leaves x → h ≡ merkle_hash sha512 tags x → Node h
      inner_node :
          {h : Digest} (a b : Digest)
          → Node a
          → Node b
          → h ≡ merkle_combine sha512 tags a b
          → Node h

    length-Node : {h : Digest} → Node h → length h ≡ 32
    length-Node (leaf_node x o e) = ap length e ∙ length-merkle_hash x
    length-Node (inner_node a b na nb e) = ap length e ∙ length-merkle_combine a b

    -- A hashed leaf that is a node is one of the leaves.
    Node-merkle_hash :
        (x h : Digest) → Node h → h ≡ merkle_hash sha512 tags x → Occurs leaves x ⊎ Collision sha512
    Node-merkle_hash x h (leaf_node y o e) q =
        elim (same_or_Collision (tags.leaf_tag ++ y) (tags.leaf_tag ++ x)
          (unfold merkle_hash in sym e ∙ q)) [
            | inl same ↦
                inl (o.0, o.1, o.2 ∙ (append-injective tags.leaf_tag tags.leaf_tag y x refl same).1)
            | inr c ↦ inr c
          ]
    Node-merkle_hash x h (inner_node a b na nb e) q =
        elim (same_or_Collision (tags.leaf_tag ++ x) (tags.node_tag ++ (a ++ b))
          (unfold merkle_hash merkle_combine in sym q ∙ e)) [
            | inl same ↦ absurd (
                apart.differ
                  (append-injective tags.leaf_tag tags.node_tag x (a ++ b) apart.sizes same).0)
            | inr c ↦ inr c
          ]

    -- The parts of a combined node are nodes.
    Node-merkle_combine :
        (x y h : Digest)
        → length x ≡ 32
        → length y ≡ 32
        → Node h
        → h ≡ merkle_combine sha512 tags x y
        → (Node x × Node y) ⊎ Collision sha512
    Node-merkle_combine x y h lx ly (leaf_node z o e) q =
        elim (same_or_Collision (tags.leaf_tag ++ z) (tags.node_tag ++ (x ++ y))
          (unfold merkle_hash merkle_combine in sym e ∙ q)) [
            | inl same ↦ absurd (
                apart.differ
                  (append-injective tags.leaf_tag tags.node_tag z (x ++ y) apart.sizes same).0)
            | inr c ↦ inr c
          ]
    Node-merkle_combine x y h lx ly (inner_node a b na nb e) q =
        elim (same_or_Collision (tags.node_tag ++ (a ++ b)) (tags.node_tag ++ (x ++ y))
          (unfold merkle_combine in sym e ∙ q)) [
            | inl same ↦
                let (_, rest) =
                  append-injective tags.node_tag tags.node_tag (a ++ b) (x ++ y) refl same in
                let (l, r) = append-injective a x b y (length-Node na ∙ sym lx) rest in
                inl (rw (← l) na, rw (← r) nb)
            | inr c ↦ inr c
          ]

    -- Where a path leads to a node, it starts at one.
    Node-fold_path :
        (path : MerklePath) (x h : Digest)
        → length x ≡ 32
        → IsDigestPath path
        → Node h
        → fold_path sha512 tags x path ≡ h
        → Node x ⊎ Collision sha512
    unfolding fold_path
    Node-fold_path [] x h lx lp n e = inl (rw e n)
    Node-fold_path ((true, s) ∷ path) x h lx lp n e =
        elim (Node-fold_path path (merkle_combine sha512 tags s x) h (length-merkle_combine s x)
          lp.1 n e) [
            | inl up ↦ elim (Node-merkle_combine s x _ lp.0 lx up refl) [
              | inl (_, nx) ↦ inl nx
              | inr c ↦ inr c
            ]
            | inr c ↦ inr c
          ]
    Node-fold_path ((false, s) ∷ path) x h lx lp n e =
        elim (Node-fold_path path (merkle_combine sha512 tags x s) h (length-merkle_combine x s)
          lp.1 n e) [
            | inl up ↦ elim (Node-merkle_combine x s _ lx lp.0 up refl) [
              | inl (nx, _) ↦ inl nx
              | inr c ↦ inr c
            ]
            | inr c ↦ inr c
          ]

    next_level-Node : (l : List Digest) → All Node l → All Node (next_level sha512 tags l)
    unfolding next_level
    next_level-Node [] h = tt
    next_level-Node (a ∷ []) h = h
    next_level-Node (a ∷ b ∷ l) h = (inner_node a b h.0 h.1.0 refl, next_level-Node l h.1.1)

    levels_from-Node :
        (fuel : ℕ) (l : List Digest) → All Node l → All (All Node) (levels_from sha512 tags fuel l)
    unfolding levels_from
    levels_from-Node zero l h = (h, tt)
    levels_from-Node (suc fuel) l h = elim (Bool-cases (ltb 1 (length l))) [
      | inl more ↦
          rw more (h, levels_from-Node fuel (next_level sha512 tags l) (next_level-Node l h))
      | inr one ↦ rw one (h, tt)
    ]

    last_level-Node : (t : List (List Digest)) → All (All Node) t → All Node (last_level t)
    unfolding last_level
    last_level-Node [] h = tt
    last_level-Node (l ∷ []) h = h.0
    last_level-Node (l ∷ m ∷ t) h = last_level-Node (m ∷ t) h.1

    hashed-Node :
        (l : List Digest)
        → ((i : ℕ) → i < length l → Occurs leaves (get_or l i []))
        → All Node (map (merkle_hash sha512 tags) l)
    hashed-Node [] o = tt
    hashed-Node (x ∷ l) o =
        (leaf_node x (o 0 (omega arith)) refl, hashed-Node l (λ i h. o (suc i) (omega arith)))

    tree_root-Node : 0 < length leaves → Node (tree_root (build_merkle_tree sha512 tags leaves))
    unfolding tree_root
    tree_root-Node pos = go leaves pos (λ i h. (i, h, refl))
      where
        go :
            (l : List Digest)
            → 0 < length l
            → ((i : ℕ) → i < length l → Occurs leaves (get_or l i []))
            → Node (tree_root (build_merkle_tree sha512 tags l))
        go [] p o = absurd (omega arith)
        go (x ∷ l) p o =
            let hashed : List Digest = map (merkle_hash sha512 tags) (x ∷ l) in
            let len : length hashed ≡ suc (length l) = length-map (x ∷ l) _ in
            unfold build_merkle_tree in
            All-get Node (last_level (levels_from sha512 tags (suc (length l)) hashed)) 0 []
              (last_level-Node _ (levels_from-Node (suc (length l)) hashed (hashed-Node (x ∷ l) o)))
              (omega (
                arith,
                levels_from_root sha512 tags (suc (length l)) hashed (omega arith) (omega arith),
              ))

    -- A leaf that verifies against the root of a tree with a leaf at least, on a path of 32-byte
    -- digests, is one of its leaves, or a collision of the truncated hash is found. The hash has
    -- 64 bytes, and the two tags have one length and differ.
    pub verify_merkle_path-Occurs :
        (leaf : Digest) (path : MerklePath)
        → 0 < length leaves
        → IsDigestPath path
        → verify_merkle_path sha512 tags leaf path
            (tree_root (build_merkle_tree sha512 tags leaves))
          ≡ true
        → Occurs leaves leaf ⊎ Collision sha512
    unfolding verify_merkle_path
    verify_merkle_path-Occurs leaf path pos lp h =
        elim (Node-fold_path path (merkle_hash sha512 tags leaf) _ (length-merkle_hash leaf) lp
          (tree_root-Node pos) (bytes_eq→eq _ _ h)) [
            | inl n ↦ Node-merkle_hash leaf _ n refl
            | inr c ↦ inr c
          ]
