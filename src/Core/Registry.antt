-- ===== src/Core/Registry.antt =====
-- crates/codequery-core/src/discovery.rs: the map from extensions to language names that is built
-- from languages/registry.json.
use codequery.Prelude.{
  List, [], ◌∷◌, Option, none, some, Text, ◌==◌, nat_eq, text_eq, if◌then◌else◌,
}
use codequery.Prelude.Dict.{Dict, insert}

-- An entry of languages/registry.json, as the JSON parser gives it: `none` is what is no string.
pub record RegistryLanguage : Type 0 where
  pub name : Option Text
  pub extensions : List (Option Text)

abbrev strip_dot : Text → Text
strip_dot [] = []
strip_dot (b ∷ s) = if b == b'.' then s else b ∷ s

add_extensions : Text → List (Option Text) → Dict Text Text → Dict Text Text
add_extensions name [] m = m
add_extensions name (none ∷ exts) m = add_extensions name exts m
add_extensions name (some ext ∷ exts) m = add_extensions name exts (insert (strip_dot ext) name m)

abbrev add_language : Option Text → List (Option Text) → Dict Text Text → Dict Text Text
add_language none exts m = m
add_language (some name) exts m = add_extensions name exts m

add_languages : List RegistryLanguage → Dict Text Text → Dict Text Text
add_languages [] m = m
add_languages (lang ∷ languages) m =
    add_languages languages (add_language lang.name lang.extensions m)

unfoldable pub extension_map : List RegistryLanguage → Dict Text Text
unfolding add_languages add_extensions
extension_map registry = add_languages registry []
