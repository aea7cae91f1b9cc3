-- ===== src/Index/Grep.antt =====
-- crates/codequery-index/src/grep.rs: the files that contain a word. The search of `memchr` and the
-- files are parameters.
pub mod Words
use codequery.Prelude.{
  ℕ, zero, suc, ◌+◌, ◌-◌, ◌*◌, List, [], ◌∷◌, Option, none, some, Text, Bool, true, false, not,
  ◌&&◌, ◌||◌, ltb, leb, nat_beq, if◌then◌else◌, length, get_elem?, drop, filter, is_empty,
}
use codequery.Core.FilePath.{join}

unfoldable pub is_word_char : ℕ → Bool
is_word_char b =
    leb b'0' b && leb b b'9'
    || leb b'a' b && leb b b'z'
    || leb b'A' b && leb b b'Z'
    || nat_beq b b'_'

-- Whether there is a word character at the position; none is outside the data.
abbrev pub word_char_at : Text → ℕ → Bool
word_char_at haystack i = elim (get_elem? haystack i) [ none ↦ false | some b ↦ is_word_char b ]

unfoldable pub is_word_boundary : Text → ℕ → ℕ → Bool
is_word_boundary haystack pos len =
    let end = pos + len in
    if ltb 0 pos && word_char_at haystack (pos - 1)
    then false
    else if ltb end (length haystack) && word_char_at haystack end
    then false
    else true

-- `memmem::Finder::find`: the needle, the haystack and the position.
abbrev pub Find : Type 0
Find = Text → Text → Option ℕ

module _ (find : Find) where
  -- The loop, from `start`. Each round moves it on by at least one.
  unfoldable pub search : ℕ → Text → Text → ℕ → Bool
  search zero needle haystack start = false
  search (suc fuel) needle haystack start = elim (leb start (length haystack)) [
    | false ↦ false
    | true ↦ elim (find needle (drop start haystack)) [
      | none ↦ false
      | some pos ↦ elim (is_word_boundary haystack (start + pos) (length needle)) [
        | true ↦ true
        | false ↦ search fuel needle haystack (start + pos + 1)
      ]
    ]
  ]

  unfoldable pub data_contains_word : Text → Text → Bool
  data_contains_word haystack word =
      if is_empty word then false else search (length haystack + 1) word haystack 0

-- 32 KB
abbrev pub mmap_threshold : ℕ
mmap_threshold = 32 * 1024

-- What the file system gives of a path: its size, its bytes, and its bytes when it is mapped. A
-- failure is `none`.
pub record SearchedFiles : Type 0 where
  pub size : Text → Option ℕ
  pub read : Text → Option Text
  pub mmap : Text → Option Text

module _ (find : Find) (files : SearchedFiles) where
  abbrev contains_in : Text → Option Text → Option Bool
  contains_in word none = none
  contains_in word (some haystack) = some (data_contains_word find haystack word)

  abbrev sized_contains : Text → Text → Option ℕ → Option Bool
  sized_contains path word none = none
  sized_contains path word (some size) =
      if nat_beq size 0
      then some false
      else if ltb size mmap_threshold
      then contains_in word (files.read path)
      else contains_in word (files.mmap path)

  unfoldable pub file_contains_word : Text → Text → Option Bool
  file_contains_word path word = sized_contains path word (files.size path)

  abbrev pub unwrap_or_false : Option Bool → Bool
  unwrap_or_false none = false
  unwrap_or_false (some b) = b

  unfoldable pub filter_files : List Text → Text → Text → List Text
  filter_files names root word =
      filter (λ f. unwrap_or_false (file_contains_word (join root f) word)) names
