-- ===== src/Strings.antt =====
-- The methods of a Python `str` that the checks use, on code points.
pub mod Words
use Prim.Native.Char.{code}
use labloop.Prelude.{
  ℕ, ◌+◌, String, Bool, true, false, not, ◌&&◌, ◌||◌, List, [], ◌∷◌, map, all, filter, leb, nat_beq,
  if◌then◌else◌,
}

abbrev pub codes : String → List ℕ
codes String.[] = []
codes (String.◌∷◌ c s) = code c ∷ codes s

abbrev between : ℕ → ℕ → ℕ → Bool
between lo hi c = leb lo c && leb c hi

-- `chr(c).isspace()`
unfoldable pub is_space : ℕ → Bool
is_space c =
    between 9 13 c
    || (between 28 32 c
        || (nat_beq c 133
            || (nat_beq c 160
                || (nat_beq c 5760
                    || (between 8192 8202 c
                        || (nat_beq c 8232
                            || (nat_beq c 8233
                                || (nat_beq c 8239 || (nat_beq c 8287 || nat_beq c 12288)))))))))

-- `s.strip() == ""`
unfoldable pub is_blank : String → Bool
unfolding is_space
is_blank s = all is_space (codes s)

unfoldable pub lstrip : String → String
unfolding is_space
lstrip String.[] = String.[]
lstrip (String.◌∷◌ c s) = let rest = lstrip s in if is_space (code c) then rest else String.◌∷◌ c s

unfoldable pub rstrip : String → String
unfolding is_blank
rstrip String.[] = String.[]
rstrip (String.◌∷◌ c s) =
    let rest = rstrip s in if is_space (code c) && is_blank s then String.[] else String.◌∷◌ c rest

-- `s.strip()`
unfoldable pub strip : String → String
unfolding lstrip rstrip
strip s = rstrip (lstrip s)

unfoldable pub is_prefix : List ℕ → List ℕ → Bool
is_prefix [] ys = true
is_prefix (x ∷ xs) [] = false
is_prefix (x ∷ xs) (y ∷ ys) = nat_beq x y && is_prefix xs ys

contains_codes : List ℕ → List ℕ → Bool
unfolding is_prefix
contains_codes xs [] = is_prefix xs []
contains_codes xs (y ∷ ys) = is_prefix xs (y ∷ ys) || contains_codes xs ys

-- The pieces of a text between its white space, the first one apart.
unfoldable pub pieces : String → String × List String
unfolding is_space
pieces String.[] = (String.[], [])
pieces (String.◌∷◌ c s) =
    let (w, ws) = pieces s in
    if is_space (code c) then (String.[], w ∷ ws) else (String.◌∷◌ c w, ws)

unfoldable pub is_word : String → Bool
is_word String.[] = false
is_word (String.◌∷◌ c w) = true

-- `s.split()`
unfoldable pub split : String → List String
unfolding pieces is_word
split s = let (w, ws) = pieces s in filter is_word (w ∷ ws)

-- `w + " " + t`
unfoldable pub spaced : String → String → String
spaced String.[] t = String.◌∷◌ " " t
spaced (String.◌∷◌ c w) t = String.◌∷◌ c (spaced w t)

-- `" ".join(ws)`
unfoldable pub join_words : List String → String
unfolding spaced
join_words [] = String.[]
join_words (w ∷ []) = w
join_words (w ∷ v ∷ ws) = spaced w (join_words (v ∷ ws))

-- `" ".join(s.split())`
unfoldable pub join_split : String → String
unfolding split join_words
join_split s = join_words (split s)

-- `s.startswith(prefix)`
unfoldable pub starts_with : String → String → Bool
unfolding is_prefix
starts_with prefix s = is_prefix (codes prefix) (codes s)

unfoldable pub lower_ascii : ℕ → ℕ
lower_ascii c = if between 65 90 c then c + 32 else c

-- `s LIKE prefix || '%'` for a prefix without a wildcard: SQLite folds the case of ASCII letters.
unfoldable pub like_prefix : String → String → Bool
unfolding is_prefix lower_ascii
like_prefix prefix s = is_prefix (map lower_ascii (codes prefix)) (map lower_ascii (codes s))

unfoldable pub codes_before : List ℕ → List ℕ → Bool
codes_before xs [] = false
codes_before [] (y ∷ ys) = true
codes_before (x ∷ xs) (y ∷ ys) = not (leb y x) || (nat_beq x y && codes_before xs ys)

-- `s < t`
unfoldable pub comes_before : String → String → Bool
unfolding codes_before
comes_before s t = codes_before (codes s) (codes t)

-- `phrase in s`
unfoldable pub contains : String → String → Bool
unfolding contains_codes
contains phrase s = contains_codes (codes phrase) (codes s)

-- `chr(c).lower()` as far as it yields an ASCII character: A to Z, and the Kelvin sign.
unfoldable pub lower_code : ℕ → ℕ
lower_code c = if between 65 90 c then c + 32 else if nat_beq c 8490 then 107 else c

unfoldable pub codes_eq : List ℕ → List ℕ → Bool
codes_eq [] [] = true
codes_eq (a ∷ as') (b ∷ bs) = nat_beq a b && codes_eq as' bs
codes_eq _ _ = false

-- `s.lower() == t` for a `t` of lower-case ASCII
unfoldable pub lower_is : String → String → Bool
unfolding codes_eq lower_code
lower_is s t = codes_eq (map lower_code (codes s)) (codes t)
