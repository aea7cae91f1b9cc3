-- ===== src/Core/Language/Names.antt =====
-- The names of the languages are read back.
use codequery.Prelude.{some, Text, ◌≡◌, refl, All, ◌<◌, ℕ, ◌+◌, if◌then◌else◌, leb, ◌&&◌, map}
use codequery.Core.Language.{Language, name, from_lowercase, from_name}

-- ASCII letters in upper case move to lower case.
abbrev pub ascii_lower : ℕ → ℕ
ascii_lower c = if leb b'A' c && leb c b'Z' then c + 32 else c

from_lowercase-name : (l : Language) → from_lowercase (name l) ≡ some l
unfolding from_lowercase name
from_lowercase-name Language.rust = refl
from_lowercase-name _ = refl

-- Every ASCII spelling of the canonical name of a language, in capitals or not, is read as that
-- language, where `to_lowercase` changes only the capitals of an ASCII text.
pub from_name-name :
    (to_lowercase : Text → Text)
    → ((s : Text) → All (λ c. c < 128) s → to_lowercase s ≡ map ascii_lower s)
    → (l : Language) (s : Text) → All (λ c. c < 128) s
    → map ascii_lower s ≡ name l
    → from_name to_lowercase s ≡ some l
unfolding from_name
from_name-name f h l s ascii spelt = rw (h s ascii, spelt) (from_lowercase-name l)
