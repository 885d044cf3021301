-- ===== src/Base/Text.antt =====
-- `str.strip` and `str.upper`, over ASCII: white space is the space and the codes 9 to 13 and 28 to
-- 31, and the letters a to z are raised. The rest of Python's Unicode tables is not modelled.
use Prim.Native.Nat.{ℕ, zero, suc, ◌-◌}
use Prim.Native.Char.{Char, code}
use Prim.Native.String.{String}
use mathlib.Core.Path.{◌≡◌, refl}
use mathlib.Core.Bool.{Bool, true, false, ◌&&◌, ◌||◌}
use mathlib.Core.List.{List, [], ◌∷◌, map}
use text.Mathlib.Text.{◌==◌}
use Prim.Native.String.{◌++◌ as append}
use paper_live.Base.Tests.{leb, eqb, if◌then◌else◌}

is_space : Char → Bool
is_space c =
    eqb (code c) 32 || leb 9 (code c) && leb (code c) 13 || leb 28 (code c) && leb (code c) 31

lstrip : String → String
lstrip String.[] = String.[]
lstrip (String.◌∷◌ c s) = if is_space c then lstrip s else String.◌∷◌ c s

rstrip : String → String
rstrip String.[] = String.[]
rstrip (String.◌∷◌ c s) =
    let rest = rstrip s in if is_space c && rest == "" then rest else String.◌∷◌ c rest

-- `s.strip()`
unfoldable pub strip : String → String
unfolding is_space lstrip rstrip
strip s = rstrip (lstrip s)

abbrev pub codes : String → List ℕ
codes String.[] = []
codes (String.◌∷◌ c s) = code c ∷ codes s

to_upper : ℕ → ℕ
to_upper c = if leb b'a' c && leb c b'z' then c - 32 else c

-- The code points of `s.upper()`.
unfoldable pub upper : String → List ℕ
unfolding to_upper
upper s = map to_upper (codes s)

abbrev pub codes_eq : List ℕ → List ℕ → Bool
codes_eq [] [] = true
codes_eq (a ∷ l) (b ∷ m) = eqb a b && codes_eq l m
codes_eq _ _ = false

-- `s.strip().upper() == t`
unfoldable pub reads_as : String → String → Bool
unfolding strip upper
reads_as s t = codes_eq (upper (strip s)) (codes t)

-- `s[:n]`
unfoldable pub prefix : ℕ → String → String
prefix zero s = String.[]
prefix (suc n) String.[] = String.[]
prefix (suc n) (String.◌∷◌ c s) = String.◌∷◌ c (prefix n s)

-- The parts of an f-string, put together.
abbrev pub concat : List String → String
concat [] = ""
concat (s ∷ l) = append s (concat l)

reads_as_test : reads_as "  bUy " "BUY" ≡ true
unfolding reads_as
reads_as_test = refl

strip_test : strip " a b " ≡ "a b"
unfolding strip
strip_test = refl
