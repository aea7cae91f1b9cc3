-- ===== src/Index/SymbolIndex/Lookup.antt =====
-- The index answers each lookup as a filter over all symbols would.
use Prim.Native.Nat.add
use codequery.Prelude.{
  ℕ, suc, ◌+◌, List, [], ◌∷◌, ◌++◌, append_assoc, append-nil, ap, sym, ◌∙◌, Option, some, Text,
  length, get_elem?-append, Eq, text_eq, ◌==◌, if◌then◌else◌, Bool, filter, ◌≡◌, refl, arith,
  length-append, Bool-cases, inl, inr,
}
use codequery.Prelude.Dict.{Dict, get, get-insert}
use codequery.Core.Symbol.{
  Symbol, symbol, Symbols, nil, cons, SymbolKind, kind_eq, name_of, file_of, kind_of,
}
use codequery.Index.{FileSymbols}
use codequery.Index.SymbolIndex.{
  SymbolIndex, or_default, entry_push, push_symbol, collect_symbols, collect_symbol, collect_scan,
  from_scan, symbols_at, find_in, find_by_name, find_by_kind, symbols_in_file, all_symbols,
  empty_index, is_nil,
}

-- Each symbol before its children, in the order of the source.
unfoldable mutual
  pub flatten : Symbols → List Symbol
  flatten nil = []
  flatten (cons s rest) = flatten_symbol s ++ flatten rest

  pub flatten_symbol : Symbol → List Symbol
  flatten_symbol (symbol f cs) = symbol f cs ∷ flatten cs

unfoldable pub flatten_scan : {Tree : Type 0} → List (FileSymbols Tree) → List Symbol
flatten_scan [] = []
flatten_scan (fs ∷ scan) = flatten fs.symbols ++ flatten_scan scan

-- The positions, from `i` on, of the elements that pass the test.
abbrev positions : (Symbol → Bool) → ℕ → List Symbol → List ℕ
positions p i [] = []
positions p i (x ∷ xs) = let rest = positions p (suc i) xs in if p x then i ∷ rest else rest

positions-concat :
    (p : Symbol → Bool) (i : ℕ) (xs : List Symbol) (x : Symbol)
    → positions p i (xs ++ x ∷ []) ≡ positions p i xs ++ (if p x then (i + length xs) ∷ [] else [])
positions-concat p i [] x = ground arith
positions-concat p i (y ∷ ys) x = ground (arith, positions-concat p (suc i) ys x)

-- The same symbol moved from the rest to the part before it.
symbols_at-shift :
    (p : Symbol → Bool) (pre : List Symbol) (x : Symbol) (xs : List Symbol)
    {r : Option (List Symbol)}
    → symbols_at ((pre ++ x ∷ []) ++ xs) (positions p (length (pre ++ x ∷ [])) xs) ≡ r
    → symbols_at (pre ++ x ∷ xs) (positions p (suc (length pre)) xs) ≡ r
symbols_at-shift p pre x xs h =
    let e : length (pre ++ x ∷ []) ≡ suc (length pre) = omega (arith, length-append pre (x ∷ [])) in
    rw (append_assoc, e) at h

symbols_at-positions :
    (p : Symbol → Bool) (pre xs : List Symbol)
    → symbols_at (pre ++ xs) (positions p (length pre) xs) ≡ some (filter p xs)
unfolding symbols_at
symbols_at-positions p pre [] = refl
symbols_at-positions p pre (x ∷ xs) = ground (
  arith,
  get_elem?-append pre x xs,
  symbols_at-shift p pre x xs (symbols_at-positions p (pre ++ x ∷ []) xs),
)

module _ {ℓ} {K : Type ℓ} ⦃e : Eq K⦄ (key : Symbol → K) where
  -- The map holds, for each key, the positions of its symbols.
  abbrev Indexes : Dict K (List ℕ) → List Symbol → Type ℓ
  Indexes m xs = (k : K) → or_default (get k m) ≡ positions (λ s. key s == k) 0 xs

  entry_push-Indexes :
      (m : Dict K (List ℕ)) (xs : List Symbol) (x : Symbol)
      → Indexes m xs
      → Indexes (entry_push (key x) (length xs) m) (xs ++ x ∷ [])
  unfolding entry_push
  entry_push-Indexes m xs x h k =
      rw (get-insert, positions-concat)
        (elim (Bool-cases (e.beq (key x) k)) [
          | inl same ↦
              let at_k : key x ≡ k = (e.beq_iff (key x) k).0 same in
              rw (same, add.zero) (rw at_k (ap (λ is. is ++ length xs ∷ []) (h k)))
          | inr other ↦ rw (other, append-nil) (h k)
        ])

  find_in-eq-filter :
      (m : Dict K (List ℕ)) (xs : List Symbol) (k : K)
      → Indexes m xs
      → find_in xs m k ≡ some (filter (λ s. key s == k) xs)
  unfolding find_in
  find_in-eq-filter m xs k h =
      ground (arith, h k, symbols_at-positions (λ (s : Symbol). key s == k) [] xs)

-- All three maps index the vector of symbols.
record IsIndex (st : SymbolIndex) : Type 0 where
  names : Indexes name_of st.by_name st.symbols
  files : Indexes file_of st.by_file st.symbols
  kinds : Indexes kind_of st.by_kind st.symbols

push_symbol-IsIndex : (s : Symbol) (st : SymbolIndex) → IsIndex st → IsIndex (push_symbol s st)
unfolding push_symbol
push_symbol-IsIndex s st h = record {
  names = entry_push-Indexes name_of st.by_name st.symbols s h.names;
  files = entry_push-Indexes file_of st.by_file st.symbols s h.files;
  kinds = entry_push-Indexes kind_of st.by_kind st.symbols s h.kinds;
}

-- The state after a part of the scan: what it adds to the vector, and the invariant.
record Adds (xs : List Symbol) (st st' : SymbolIndex) : Type 0 where
  vector : st'.symbols ≡ st.symbols ++ xs
  keeps : IsIndex st → IsIndex st'

Adds-nil : (st : SymbolIndex) → Adds [] st st
Adds-nil st = record { vector = sym (append-nil st.symbols); keeps = λ h. h }

Adds-append :
    {xs ys : List Symbol} {a b c : SymbolIndex} → Adds xs a b → Adds ys b c → Adds (xs ++ ys) a c
Adds-append {xs} {ys} {a} f g = record {
  vector = g.vector ∙ ap (λ zs. zs ++ ys) f.vector ∙ append_assoc a.symbols xs ys;
  keeps = λ h. g.keeps (f.keeps h);
}

Adds-push : (s : Symbol) (st : SymbolIndex) → Adds (s ∷ []) st (push_symbol s st)
unfolding push_symbol
Adds-push s st = record { vector = refl; keeps = λ h. push_symbol-IsIndex s st h }

-- The guard before the recursion leaves out nothing.
Adds-children :
    (cs : Symbols) (st st' : SymbolIndex)
    → Adds (flatten cs) st st'
    → Adds (flatten cs) st (if is_nil cs then st else st')
unfolding flatten
Adds-children nil st st' h = Adds-nil st
Adds-children (cons _ _) st st' h = h

mutual
  unfolding collect_symbols flatten push_symbol

  Adds-collect : (xs : Symbols) (st : SymbolIndex) → Adds (flatten xs) st (collect_symbols xs st)
  Adds-collect nil st = Adds-nil st
  Adds-collect (cons s rest) st =
      Adds-append (Adds-collect_symbol s st) (Adds-collect rest (collect_symbol s st))

  Adds-collect_symbol :
      (s : Symbol) (st : SymbolIndex) → Adds (flatten_symbol s) st (collect_symbol s st)
  Adds-collect_symbol (symbol f cs) st =
      let pushed = push_symbol (symbol f cs) st in
      Adds-append (Adds-push (symbol f cs) st)
        (Adds-children cs pushed (collect_symbols cs pushed) (Adds-collect cs pushed))

Adds-collect_scan :
    {Tree : Type 0} (scan : List (FileSymbols Tree)) (st : SymbolIndex)
    → Adds (flatten_scan scan) st (collect_scan scan st)
unfolding collect_scan flatten_scan
Adds-collect_scan [] st = Adds-nil st
Adds-collect_scan (fs ∷ scan) st =
    Adds-append (Adds-collect fs.symbols st)
      (Adds-collect_scan scan (collect_symbols fs.symbols st))

empty-IsIndex : IsIndex empty_index
unfolding get
empty-IsIndex = record { names = λ k. refl; files = λ k. refl; kinds = λ k. refl }

module _ {Tree : Type 0} (scan : List (FileSymbols Tree)) where
  -- The flat vector holds every symbol of every file, each before its children, in order.
  pub all_symbols-from_scan : all_symbols (from_scan scan) ≡ flatten_scan scan
  unfolding from_scan
  all_symbols-from_scan = (Adds-collect_scan scan empty_index).vector

  from_scan-IsIndex : IsIndex (from_scan scan)
  unfolding from_scan
  from_scan-IsIndex = (Adds-collect_scan scan empty_index).keeps empty-IsIndex

  -- A lookup by name never indexes out of bounds. It returns the symbols of that name, nested ones
  -- included, in the order of the scan.
  pub find_by_name-from_scan :
      (name : Text)
      → find_by_name (from_scan scan) name
        ≡ some (filter (λ s. name_of s == name) (flatten_scan scan))
  unfolding find_by_name
  find_by_name-from_scan name =
      rw (← all_symbols-from_scan)
        (find_in-eq-filter name_of _ (from_scan scan).symbols name from_scan-IsIndex.names)

  -- A lookup by kind never indexes out of bounds. It returns the symbols of that kind, nested ones
  -- included, in the order of the scan.
  pub find_by_kind-from_scan :
      (kind : SymbolKind)
      → find_by_kind (from_scan scan) kind
        ≡ some (filter (λ s. kind_of s == kind) (flatten_scan scan))
  unfolding find_by_kind
  find_by_kind-from_scan kind =
      rw (← all_symbols-from_scan)
        (find_in-eq-filter kind_of _ (from_scan scan).symbols kind from_scan-IsIndex.kinds)

  -- A lookup by file never indexes out of bounds. It returns the symbols whose file that is, nested
  -- ones included, in the order of the scan.
  pub symbols_in_file-from_scan :
      (file : Text)
      → symbols_in_file (from_scan scan) file
        ≡ some (filter (λ s. file_of s == file) (flatten_scan scan))
  unfolding symbols_in_file
  symbols_in_file-from_scan file =
      rw (← all_symbols-from_scan)
        (find_in-eq-filter file_of _ (from_scan scan).symbols file from_scan-IsIndex.files)
