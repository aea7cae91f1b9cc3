-- ===== src/Commands/CallChain/Tree.antt =====
-- The tree that `build_chain_node` builds, without the threading of the visited set.
use codequery.Prelude.{
  ℕ, zero, suc, List, [], ◌∷◌, Text, false, text_eq, eq_refl, if◌then◌else◌, ◌≡◌, refl, arith,
  Bool-cases, inl, inr,
}
use codequery.Prelude.Dict.{get, contains}
use codequery.Index.SymbolIndex.{SymbolIndex}
use codequery.Commands.CallChain.{
  CallerEntry, CallerMap, NodeInfo, CallChainNode, node, CallChainNodes, nil, cons, or_empty,
  caller_info, NameSet, remove, each_caller, build_chain_node,
}

module _ (caller_map : CallerMap) (index : SymbolIndex) where
  -- The children for the callers that are not yet seen: one for each name, in the order of the map.
  unfoldable pub distinct :
      (CallerEntry → CallChainNode) → List CallerEntry → NameSet → CallChainNodes
  distinct child [] seen = nil
  distinct child (e ∷ callers) seen =
      let skip = distinct child callers seen in
      let rest = distinct child callers (e.caller_name ∷ seen) in
      if contains e.caller_name seen then skip else cons (child e) rest

  -- The call chain as a pure recursion over the depth and the names on the path from the root.
  unfoldable pub chain : ℕ → NodeInfo → NameSet → CallChainNode
  unfolding distinct
  chain zero info path = node info nil
  chain (suc remaining) info path =
      let callers =
        distinct (λ e. chain remaining (caller_info index e) (info.name ∷ path))
          (or_empty (get info.name caller_map)) [] in
      if contains info.name path then node info nil else node info callers

  each_caller-eq :
      (child : CallerEntry → NameSet → CallChainNode × NameSet) (pure : CallerEntry → CallChainNode)
      (callers : List CallerEntry) (seen visited : NameSet)
      → ((e : CallerEntry) → child e visited ≡ (pure e, visited))
      → each_caller caller_map index child callers seen visited
        ≡ (distinct pure callers seen, visited)
  unfolding each_caller distinct
  each_caller-eq child pure [] seen visited h = refl
  each_caller-eq child pure (e ∷ callers) seen visited h =
      elim (Bool-cases (contains e.caller_name seen)) [
        | inl old ↦ rw old (each_caller-eq child pure callers seen visited h)
        | inr new ↦
            rw (new, h e, each_caller-eq child pure callers (e.caller_name ∷ seen) visited h)
      ]

  remove-absent : (name : Text) (xs : NameSet) → contains name xs ≡ false → remove name xs ≡ xs
  remove-absent name [] h = refl
  remove-absent name (x ∷ xs) h =
      ground (arith, text_eq.beq_iff name x, text_eq.beq_iff x name, remove-absent name xs)

  -- Building a node returns the set of visited names as it was given, and the node is the pure
  -- chain below the names of that set.
  pub build_chain_node-eq :
      (depth : ℕ) (info : NodeInfo) (visited : NameSet)
      → build_chain_node caller_map index depth info visited ≡ (chain depth info visited, visited)
  unfolding build_chain_node chain
  build_chain_node-eq zero info visited = refl
  build_chain_node-eq (suc d) info visited = elim (Bool-cases (contains info.name visited)) [
    | inl old ↦ rw old
    | inr new ↦ rw (
      new,
      each_caller-eq (λ e v. build_chain_node caller_map index d (caller_info index e) v)
          (λ e. chain d (caller_info index e) (info.name ∷ visited))
          (or_empty (get info.name caller_map)) [] (info.name ∷ visited)
          (λ e. build_chain_node-eq d (caller_info index e) (info.name ∷ visited)),
      eq_refl text_eq info.name,
      remove-absent info.name visited new,
    )
  ]
