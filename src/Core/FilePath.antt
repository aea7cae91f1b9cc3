-- ===== src/Core/FilePath.antt =====
-- `std::path` on Unix, as far as the crates use it on relative file names.
use codequery.Prelude.{
  List, [], ◌∷◌, ◌++◌, Text, codes, Bool, false, ◌||◌, ◌==◌, text_eq, if◌then◌else◌, nat_beq,
  is_empty,
}

abbrev ends_with_slash : Text → Bool
ends_with_slash [] = false
ends_with_slash (c ∷ []) = nat_beq c b'/'
ends_with_slash (c ∷ d ∷ cs) = ends_with_slash (d ∷ cs)

abbrev push : Text → Text → Text
push [] name = name
push dir name = if ends_with_slash dir then dir ++ name else dir ++ b'/' ∷ name

-- `Path::join`: an absolute name replaces the directory.
unfoldable pub join : Text → Text → Text
join dir [] = push dir []
join dir (c ∷ name) = if nat_beq c b'/' then c ∷ name else push dir (c ∷ name)

-- Empty names and `.` are no components.
abbrev component : Text → List Text → List Text
component name rest = if is_empty name || name == codes "." then rest else name ∷ rest

-- The names of a path; `name` is what has been read of one.
split_names : (name path : Text) → List Text
split_names name [] = component name []
split_names name (c ∷ path) =
    let further = split_names (name ++ c ∷ []) path in
    let others = split_names [] path in if nat_beq c b'/' then component name others else further

abbrev starts_with_dot : Text → Bool
starts_with_dot [] = false
starts_with_dot (c ∷ []) = nat_beq c b'.'
starts_with_dot (c ∷ d ∷ _) = if nat_beq c b'.' then nat_beq d b'/' else false

-- `Path::components`, by which paths are compared: the root, and `.` at the beginning, are kept.
unfoldable pub components : Text → List Text
unfolding split_names
components [] = []
components (c ∷ path) =
    let names = split_names [] (c ∷ path) in
    if nat_beq c b'/'
    then codes "/" ∷ names
    else if starts_with_dot (c ∷ path)
    then codes "." ∷ names
    else names
