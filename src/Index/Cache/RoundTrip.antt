-- ===== src/Index/Cache/RoundTrip.antt =====
-- The conversions to the cache's types lose nothing.
use codequery.Prelude.{List, [], ◌∷◌, map, ap, refl, ◌≡◌}
use codequery.Core.Symbol.{Symbol, Symbols}
use codequery.Index.Cache.{
  cached_of_symbol, cached_of_symbols, symbol_of_cached, symbols_of_cached, CachedFile,
  data_of_file, file_of_data,
}

mutual
  unfolding cached_of_symbol symbol_of_cached

  symbol_trip : (s : Symbol) → symbol_of_cached (cached_of_symbol s) ≡ s
  symbol_trip (Symbol.symbol f cs) = ap (Symbol.symbol f) (symbols_trip cs)

  symbols_trip : (xs : Symbols) → symbols_of_cached (cached_of_symbols xs) ≡ xs
  symbols_trip Symbols.nil = refl
  symbols_trip (Symbols.cons s rest) = λ i. Symbols.cons (symbol_trip s i) (symbols_trip rest i)

-- A symbol converted for the cache and back is the same symbol, with all its nested children.
pub symbol_of_cached-cached_of_symbol : (s : Symbol) → symbol_of_cached (cached_of_symbol s) ≡ s
symbol_of_cached-cached_of_symbol s = symbol_trip s

pub file_of_data-data_of_file : (f : CachedFile) → file_of_data (data_of_file f) ≡ f
unfolding file_of_data data_of_file
file_of_data-data_of_file f = λ i. record f { symbols = symbols_trip f.symbols i }

pub files_trip : (fs : List CachedFile) → map file_of_data (map data_of_file fs) ≡ fs
files_trip [] = refl
files_trip (f ∷ fs) = λ i. file_of_data-data_of_file f i ∷ files_trip fs i
