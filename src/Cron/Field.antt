-- ===== src/Cron/Field.antt =====
-- `_parse_field` and the constructor of `CronSchedule` (src/istos/queue/cron.py). `int_of` is Python's
-- `int` on a text; a CronError is no result.
use istos.Prelude.{
  ◌>>=◌, ℕ, zero, suc, ◌+◌, ◌-◌, ◌/◌, Bool, false, ◌&&◌, ◌||◌, Option, none, some, List, [], ◌∷◌,
  ◌++◌, String, leb, if◌then◌else◌, number_key, text_key, ◌==◌, ℤ, pos, negsuc,
}
use Prim.Native.Char.{Char, code}

-- `x in values`. A set is the list of what has been put into it.
abbrev pub among : ℕ → List ℕ → Bool
among w [] = false
among w (x ∷ xs) = x == w || among w xs

unfoldable pub begin_part : Char → List String → List String
begin_part c [] = (String.◌∷◌ c String.[]) ∷ []
begin_part c (p ∷ ps) = (String.◌∷◌ c p) ∷ ps

-- `text.split(",")`
unfoldable pub parts_of : String → List String
unfolding begin_part
parts_of String.[] = String.[] ∷ []
parts_of (String.◌∷◌ c s) =
    let parts = parts_of s in if code c == b',' then String.[] ∷ parts else begin_part c parts

unfoldable pub longer : Char → Option (String × String) → Option (String × String)
longer c none = none
longer c (some (before, after)) = some (String.◌∷◌ c before, after)

-- `text.split(sep, 1)`, with nothing if the separator is not in the text.
unfoldable pub cut : ℕ → String → Option (String × String)
unfolding longer
cut sep String.[] = none
cut sep (String.◌∷◌ c s) =
    let later = cut sep s in if code c == sep then some (String.[], s) else longer c later

-- `range(start, end + 1, step)`, by its number of values.
unfoldable pub progression : ℕ → ℕ → ℕ → List ℕ
progression start step zero = []
progression start step (suc n) = start ∷ progression (start + step) step n

-- The test on a part, and its values.
unfoldable pub checked : ℕ → ℕ → ℤ → ℤ → ℤ → Option (List ℕ)
unfolding progression
checked lo hi (pos step) (pos start) (pos last) =
    if leb 1 step && leb lo start && leb last hi && leb start last
    then some (progression start step (suc ((last - start) / step)))
    else none
checked lo hi (negsuc step) start last = none
checked lo hi (pos step) (negsuc start) last = none
checked lo hi (pos step) (pos start) (negsuc last) = none

module _ (int_of : String → Option ℤ) where
  unfoldable pub parse_range : ℕ → ℕ → ℤ → Option (String × String) → String → Option (List ℕ)
  unfolding checked
  parse_range lo hi step (some (a, b)) base = do
    start ← int_of a
    last ← int_of b
    checked lo hi step start last
  parse_range lo hi step none base = do value ← int_of base; checked lo hi step value value

  unfoldable pub parse_base : ℕ → ℕ → ℤ → String → Option (List ℕ)
  unfolding parse_range checked
  parse_base lo hi step base =
      if base == "*"
      then checked lo hi step (pos lo) (pos hi)
      else parse_range lo hi step (cut b'-' base) base

  unfoldable pub parse_stepped : ℕ → ℕ → Option (String × String) → String → Option (List ℕ)
  unfolding parse_base
  parse_stepped lo hi none part = parse_base lo hi (pos 1) part
  parse_stepped lo hi (some (base, s)) part = do step ← int_of s; parse_base lo hi step base

  unfoldable pub parse_parts : ℕ → ℕ → List String → Option (List ℕ)
  unfolding parse_stepped cut
  parse_parts lo hi [] = some []
  parse_parts lo hi (part ∷ parts) = do
    values ← parse_stepped lo hi (cut b'/' part) part
    more ← parse_parts lo hi parts
    some (values ++ more)

  unfoldable pub parse_field : String → ℕ → ℕ → Option (List ℕ)
  unfolding parse_parts parts_of
  parse_field text lo hi = parse_parts lo hi (parts_of text)
