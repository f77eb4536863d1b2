-- ===== src/Fat32/Names.antt =====
-- Names of up to eight characters, with an extension of up to three.
pub mod RoundTrip
use gecko_os.Prelude.{
  ℕ, zero, suc, ◌+◌, ◌-◌, Bool, true, false, ◌&&◌, ◌||◌, not, Option, none, some, List, [], ◌∷◌,
  ◌++◌, length, take, drop, leb, ◌==◌, if◌then◌else◌,
}

-- The characters before the first space.
unfoldable pub before_space : List ℕ → List ℕ
before_space [] = []
before_space (c ∷ cs) = let rest = c ∷ before_space cs in if c == b' ' then [] else rest

unfoldable pub has_ext : List ℕ → Bool
has_ext [] = false
has_ext (c ∷ cs) = let rest = has_ext cs in if c == b' ' then rest else true

unfoldable pub format_83_name : (raw_name raw_ext : List ℕ) → List ℕ
format_83_name raw_name raw_ext =
    before_space raw_name ++ (if has_ext raw_ext then b'.' ∷ before_space raw_ext else [])

-- The loop that looks for the last dot.
unfoldable pub last_dot : (i : ℕ) → Option ℕ → List ℕ → Option ℕ
last_dot i dot [] = dot
last_dot i dot (c ∷ name) = last_dot (suc i) (if c == b'.' then some i else dot) name

abbrev pub upper : ℕ → ℕ
upper c = if leb b'a' c && leb c b'z' then c - 32 else c

-- `n` characters, of which the first are those of `src` in capital letters, and the rest spaces.
unfoldable pub filled : (n : ℕ) → (src : List ℕ) → List ℕ
filled zero src = []
filled (suc n) [] = b' ' ∷ filled n []
filled (suc n) (c ∷ src) = upper c ∷ filled n src

pub record RawName : Type 0 where
  pub raw8 : List ℕ
  pub raw3 : List ℕ

abbrev pub encoded : List ℕ → Option ℕ → RawName
encoded name none = record { raw8 = filled 8 name; raw3 = filled 3 [] }
encoded name (some dot) = record {
  raw8 = filled 8 (take dot name);
  raw3 = filled 3 (drop (suc dot) name);
}

unfoldable pub encode_83_name : List ℕ → RawName
encode_83_name name = encoded name (last_dot 0 none name)
