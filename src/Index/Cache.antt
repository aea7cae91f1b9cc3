-- ===== src/Index/Cache.antt =====
-- crates/codequery-index/src/cache.rs: what is written to the disk cache, and its conversions.
pub mod Store
pub mod RoundTrip
use codequery.Prelude.{ℕ, List, [], ◌∷◌, map, Option, Text}
use codequery.Core.Symbol.{SymbolKind, Visibility, Symbol, Symbols, SymbolFields}
use codequery.Core.Symbol

-- `children : Vec<CachedSymbol>` is the list type of the block.
mutual
  pub data CachedSymbol : Type 0 where
    cached :
        (name : Text) (kind : SymbolKind) (file : Text) (line column end_line : ℕ)
        (visibility : Visibility)
        → CachedSymbols
        → (doc body signature : Option Text) → CachedSymbol

  pub data CachedSymbols : Type 0 where
    nil : CachedSymbols
    cons : CachedSymbol → CachedSymbols → CachedSymbols

-- `impl From<&Symbol> for CachedSymbol`
unfoldable mutual
  pub cached_of_symbol : Symbol → CachedSymbol
  cached_of_symbol (Symbol.symbol f cs) =
      cached f.name f.kind f.file f.line f.column f.end_line f.visibility (cached_of_symbols cs)
        f.doc f.body f.signature

  pub cached_of_symbols : Symbols → CachedSymbols
  cached_of_symbols Symbols.nil = nil
  cached_of_symbols (Symbols.cons s rest) = cons (cached_of_symbol s) (cached_of_symbols rest)

-- `impl From<CachedSymbol> for Symbol`
unfoldable mutual
  pub symbol_of_cached : CachedSymbol → Symbol
  symbol_of_cached (cached name kind file line column end_line visibility cs doc body signature) =
      Symbol.symbol
        (record {
          name = name;
          kind = kind;
          file = file;
          line = line;
          column = column;
          end_line = end_line;
          visibility = visibility;
          doc = doc;
          body = body;
          signature = signature;
        })
        (symbols_of_cached cs)

  pub symbols_of_cached : CachedSymbols → Symbols
  symbols_of_cached nil = Symbols.nil
  symbols_of_cached (cons s rest) = Symbols.cons (symbol_of_cached s) (symbols_of_cached rest)

pub record CachedFile : Type 0 where
  pub path : Text
  pub mtime : ℕ  -- u64
  pub size : ℕ  -- u64
  pub symbols : Symbols

pub record CachedFileData : Type 0 where
  pub path : Text
  pub mtime : ℕ
  pub size : ℕ
  pub symbols : CachedSymbols

-- `impl From<&CachedFile> for CachedFileData`
unfoldable pub data_of_file : CachedFile → CachedFileData
data_of_file f = record {
  path = f.path;
  mtime = f.mtime;
  size = f.size;
  symbols = cached_of_symbols f.symbols;
}

-- `impl From<CachedFileData> for CachedFile`
unfoldable pub file_of_data : CachedFileData → CachedFile
file_of_data f = record {
  path = f.path;
  mtime = f.mtime;
  size = f.size;
  symbols = symbols_of_cached f.symbols;
}

pub record CacheManifest : Type 0 where
  pub version : ℕ  -- u32
  pub files : List CachedFileData

abbrev pub cache_version : ℕ
cache_version = 1
