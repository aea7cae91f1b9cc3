-- ===== src/Commands/CallChain/Shape.antt =====
-- The shape of a call chain: its height, its cycles, and the callers below a node.
use Prim.Native.Nat.{max}
use codequery.Prelude.{
  ℕ, zero, suc, ◌≤◌, List, [], ◌∷◌, Text, false, text_eq, if◌then◌else◌, ◌≡◌, refl, arith,
  Bool-cases, inl, inr, map, ◌∙◌,
}
use codequery.Prelude.Dict.{get, contains}
use codequery.Index.SymbolIndex.{SymbolIndex}
use codequery.Commands.CallChain.{
  CallerEntry, CallerMap, NodeInfo, CallChainNode, node, CallChainNodes, nil, cons, or_empty,
  caller_info, NameSet, build_chain_node,
}
use codequery.Commands.CallChain.Tree.{distinct, chain, build_chain_node-eq}

-- The number of levels of callers below a node.
mutual
  pub height : CallChainNode → ℕ
  height (node info callers) = heights callers

  pub heights : CallChainNodes → ℕ
  heights nil = 0
  heights (cons n ns) = max (suc (height n)) (heights ns)

-- No node that has callers repeats a name of its path from the root, `path` being the names above.
mutual
  pub data IsAcyclic : NameSet → CallChainNode → Type 0 where
    leaf : {path : NameSet} (info : NodeInfo) → IsAcyclic path (node info nil)
    inner :
        {path : NameSet} {info : NodeInfo} {callers : CallChainNodes}
        → contains info.name path ≡ false
        → AreAcyclic (info.name ∷ path) callers
        → IsAcyclic path (node info callers)

  pub data AreAcyclic : NameSet → CallChainNodes → Type 0 where
    none_left : {path : NameSet} → AreAcyclic path nil
    one_more :
        {path : NameSet} {n : CallChainNode} {ns : CallChainNodes}
        → IsAcyclic path n
        → AreAcyclic path ns
        → AreAcyclic path (cons n ns)

abbrev pub node_name : CallChainNode → Text
node_name (node info _) = info.name

abbrev pub names : CallChainNodes → List Text
names nil = []
names (cons n ns) = node_name n ∷ names ns

abbrev pub caller_names : CallChainNode → List Text
caller_names (node info callers) = names callers

-- The first occurrence of each name.
abbrev pub first_occurrences : NameSet → List Text → List Text
first_occurrences seen [] = []
first_occurrences seen (x ∷ xs) =
    let skip = first_occurrences seen xs in
    let rest = first_occurrences (x ∷ seen) xs in if contains x seen then skip else x ∷ rest

module _ (caller_map : CallerMap) (index : SymbolIndex) where
  heights-distinct :
      (d : ℕ) (child : CallerEntry → CallChainNode) (callers : List CallerEntry) (seen : NameSet)
      → ((e : CallerEntry) → height (child e) ≤ d)
      → heights (distinct caller_map index child callers seen) ≤ suc d
  unfolding distinct height
  heights-distinct d child [] seen h = omega arith
  heights-distinct d child (e ∷ callers) seen h = ground (
    arith,
    h e,
    heights-distinct d child callers seen h,
    heights-distinct d child callers (e.caller_name ∷ seen) h,
  )

  height-chain :
      (d : ℕ) (info : NodeInfo) (path : NameSet) → height (chain caller_map index d info path) ≤ d
  unfolding chain height
  height-chain zero info path = omega arith
  height-chain (suc d) info path = ground (
    arith,
    heights-distinct d
        (λ (e : CallerEntry). chain caller_map index d (caller_info index e) (info.name ∷ path))
        (or_empty (get info.name caller_map)) []
        (λ (e : CallerEntry). height-chain d (caller_info index e) (info.name ∷ path)),
  )

  -- The tree is never higher than the requested depth.
  pub height-build_chain_node :
      (depth : ℕ) (info : NodeInfo) (visited : NameSet)
      → height (build_chain_node caller_map index depth info visited).0 ≤ depth
  height-build_chain_node depth info visited =
      rw build_chain_node-eq (height-chain depth info visited)

  AreAcyclic-distinct :
      (path : NameSet) (child : CallerEntry → CallChainNode) (callers : List CallerEntry)
      (seen : NameSet)
      → ((e : CallerEntry) → IsAcyclic path (child e))
      → AreAcyclic path (distinct caller_map index child callers seen)
  unfolding distinct
  AreAcyclic-distinct path child [] seen h = none_left
  AreAcyclic-distinct path child (e ∷ callers) seen h =
      elim (Bool-cases (contains e.caller_name seen)) [
        | inl old ↦ rw old (AreAcyclic-distinct path child callers seen h)
        | inr new ↦
            rw new
              (one_more (h e) (AreAcyclic-distinct path child callers (e.caller_name ∷ seen) h))
      ]

  chain-IsAcyclic :
      (d : ℕ) (info : NodeInfo) (path : NameSet)
      → IsAcyclic path (chain caller_map index d info path)
  unfolding chain
  chain-IsAcyclic zero info path = leaf info
  chain-IsAcyclic (suc d) info path = elim (Bool-cases (contains info.name path)) [
    | inl old ↦ rw old (leaf info)
    | inr new ↦ rw new (
        inner new (
          AreAcyclic-distinct (info.name ∷ path) _ (or_empty (get info.name caller_map)) []
            (λ e. chain-IsAcyclic d (caller_info index e) (info.name ∷ path))))
  ]

  -- A node with callers never repeats the name of a node above it, nor one visited before, so a
  -- recursive function does not unfold into itself.
  pub build_chain_node-IsAcyclic :
      (depth : ℕ) (info : NodeInfo) (visited : NameSet)
      → IsAcyclic visited (build_chain_node caller_map index depth info visited).0
  build_chain_node-IsAcyclic depth info visited =
      rw build_chain_node-eq (chain-IsAcyclic depth info visited)

  name_of_chain :
      (d : ℕ) (info : NodeInfo) (path : NameSet)
      → node_name (chain caller_map index d info path) ≡ info.name
  unfolding chain
  name_of_chain zero info path = refl
  name_of_chain (suc d) info path = ground arith

  names-distinct :
      (child : CallerEntry → CallChainNode) (callers : List CallerEntry) (seen : NameSet)
      → ((e : CallerEntry) → node_name (child e) ≡ e.caller_name)
      → names (distinct caller_map index child callers seen)
        ≡ first_occurrences seen (map (λ e. e.caller_name) callers)
  unfolding distinct
  names-distinct child [] seen h = refl
  names-distinct child (e ∷ callers) seen h = elim (Bool-cases (contains e.caller_name seen)) [
    | inl old ↦ rw old (names-distinct child callers seen h)
    | inr new ↦ rw new λ i. h e i ∷ names-distinct child callers (e.caller_name ∷ seen) h i
  ]

  name_of_info : (e : CallerEntry) → (caller_info index e).name ≡ e.caller_name
  unfolding caller_info
  name_of_info e = ground arith

  -- With depth left, the callers of a name that was not visited are those of the caller map, each
  -- name once, in the order of the map.
  pub caller_names-build_chain_node :
      (remaining : ℕ) (info : NodeInfo) (visited : NameSet)
      → contains info.name visited ≡ false
      → caller_names (build_chain_node caller_map index (suc remaining) info visited).0
        ≡ first_occurrences [] (map (λ e. e.caller_name) (or_empty (get info.name caller_map)))
  unfolding chain
  caller_names-build_chain_node d info visited new =
      rw (build_chain_node-eq, new)
        (names-distinct (λ e. chain caller_map index d (caller_info index e) (info.name ∷ visited))
          (or_empty (get info.name caller_map)) []
          (λ e. name_of_chain d (caller_info index e) (info.name ∷ visited) ∙ name_of_info e))
