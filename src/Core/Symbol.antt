-- ===== src/Core/Symbol.antt =====
-- crates/codequery-core/src/symbol.rs: symbols, their kinds and their visibility.
use codequery.Prelude.{ℕ, Option, Text, codes, Bool, true, false, ◌≡◌, ◌↔◌, arith, Eq}

-- `data`, `record`, `module` and `package` are reserved words: those constructors carry a prefix.
pub data SymbolKind : Type 0 where
  function method struct class trait interface enum type const static kind_module impl : SymbolKind
  test macro variable namespace kind_package kind_record signature mixin extension export port :
      SymbolKind
  exception event resource kind_data output config rule stage label route block service : SymbolKind
  message section element environment property table view procedure index field file hunk :
      SymbolKind
  alias : SymbolKind

-- `impl Display for SymbolKind`
unfoldable pub display_kind : SymbolKind → Text
display_kind function = codes "function"
display_kind method = codes "method"
display_kind struct = codes "struct"
display_kind class = codes "class"
display_kind trait = codes "trait"
display_kind interface = codes "interface"
display_kind enum = codes "enum"
display_kind type = codes "type"
display_kind const = codes "const"
display_kind static = codes "static"
display_kind kind_module = codes "module"
display_kind impl = codes "impl"
display_kind test = codes "test"
display_kind macro = codes "macro"
display_kind variable = codes "variable"
display_kind namespace = codes "namespace"
display_kind kind_package = codes "package"
display_kind kind_record = codes "record"
display_kind signature = codes "signature"
display_kind mixin = codes "mixin"
display_kind extension = codes "extension"
display_kind export = codes "export"
display_kind port = codes "port"
display_kind exception = codes "exception"
display_kind event = codes "event"
display_kind resource = codes "resource"
display_kind kind_data = codes "data"
display_kind output = codes "output"
display_kind config = codes "config"
display_kind rule = codes "rule"
display_kind stage = codes "stage"
display_kind label = codes "label"
display_kind route = codes "route"
display_kind block = codes "block"
display_kind service = codes "service"
display_kind message = codes "message"
display_kind section = codes "section"
display_kind element = codes "element"
display_kind environment = codes "environment"
display_kind property = codes "property"
display_kind table = codes "table"
display_kind view = codes "view"
display_kind procedure = codes "procedure"
display_kind index = codes "index"
display_kind field = codes "field"
display_kind file = codes "file"
display_kind hunk = codes "hunk"
display_kind alias = codes "alias"

pub data Visibility : Type 0 where
  public private crate : Visibility

-- `impl Display for Visibility`
unfoldable pub display_visibility : Visibility → Text
display_visibility public = codes "pub"
display_visibility private = codes "priv"
display_visibility crate = codes "pub(crate)"

-- The fields of `Symbol` other than `children`.
pub record SymbolFields : Type 0 where
  pub name : Text
  pub kind : SymbolKind
  pub file : Text
  pub line : ℕ
  pub column : ℕ
  pub end_line : ℕ
  pub visibility : Visibility
  pub doc : Option Text
  pub body : Option Text
  pub signature : Option Text

-- `children : Vec<Symbol>` is the list type `Symbols` of the block.
mutual
  pub data Symbol : Type 0 where
    symbol : SymbolFields → Symbols → Symbol

  pub data Symbols : Type 0 where
    nil : Symbols
    cons : Symbol → Symbols → Symbols

pub SymbolKind-discrete : Discrete SymbolKind
SymbolKind-discrete = hlevel

unfoldable pub kind_beq : SymbolKind → SymbolKind → Bool
unfolding SymbolKind-discrete
kind_beq a b = elim (SymbolKind-discrete a b) [ yes _ ↦ true | no _ ↦ false ]

pub kind_beq_iff : (a b : SymbolKind) → (kind_beq a b ≡ true) ↔ (a ≡ b)
unfolding kind_beq
kind_beq_iff a b = ground arith

instance abbrev pub kind_eq : Eq SymbolKind
kind_eq = record { beq = kind_beq; beq_iff = kind_beq_iff }

abbrev pub fields : Symbol → SymbolFields
fields (symbol f _) = f

abbrev pub children : Symbol → Symbols
children (symbol _ cs) = cs

abbrev pub name_of : Symbol → Text
name_of s = (fields s).name

abbrev pub file_of : Symbol → Text
file_of s = (fields s).file

abbrev pub kind_of : Symbol → SymbolKind
kind_of s = (fields s).kind
