-- ===== src/Json.antt =====
-- The JSON values and texts that the servers store and read back: `json.loads`, `json.dumps`,
-- `str.splitlines` and the truth value of a Python object, as far as the sources use them.
--
-- A text is represented by what `json.loads` makes of it: `document j` is a text that reads as
-- `j`, and `log` is any other text, by its lines; one empty line is the empty text, and the text
-- "\n" is left out. A JSON number is a decimal, `num m k` for
-- m / 10^k, so a float is its shortest decimal.
pub mod Laws
use labloop.Prelude.{
  ℕ, zero, String, Bool, true, false, not, ◌&&◌, Option, none, some, List, [], ◌∷◌, ◌==◌, string_eq,
  if◌then◌else◌,
}

-- `negsuc n` is -(n + 1).
pub data ℤ : Type 0 where
  pos : ℕ → ℤ
  negsuc : ℕ → ℤ

mutual
  pub data Json : Type 0 where
    null : Json
    bool : Bool → Json
    num : ℤ → ℕ → Json
    str : Text → Json
    arr : Items → Json
    obj : Fields → Json

  pub data Items : Type 0 where
    nil : Items
    cons : Json → Items → Items

  pub data Fields : Type 0 where
    end : Fields
    field : String → Json → Fields → Fields

  pub data Text : Type 0 where
    document : Json → Text
    log : Lines → Text

  -- The lines of a text: one that `json.loads` reads, or one that it does not.
  pub data Lines : Type 0 where
    no_line : Lines
    json_line : Json → Lines → Lines
    text_line : String → Lines → Lines

-- A one-line text that is no JSON.
abbrev pub literal : String → Text
literal s = log (text_line s no_line)

-- `json.loads`, with `none` for the `ValueError`, and `json.dumps`.
abbrev pub loads : Text → Option Json
loads (document j) = some j
loads (log ls) = none

abbrev pub dumps : Json → Text
dumps j = document j

-- `t == "s"`
abbrev pub is_literal : String → Text → Bool
is_literal s (log (text_line t no_line)) = t == s
is_literal s _ = false

-- `j == "s"`
abbrev pub is_str : String → Json → Bool
is_str s (str t) = is_literal s t
is_str s _ = false

abbrev pub is_zero_ℤ : ℤ → Bool
is_zero_ℤ (pos zero) = true
is_zero_ℤ _ = false

-- `bool(t)` for a text: a document is never the empty text.
abbrev pub text_truthy : Text → Bool
text_truthy (log no_line) = false
text_truthy (log (text_line s no_line)) = not (s == "")
text_truthy _ = true

-- `bool(j)`
abbrev pub truthy : Json → Bool
truthy null = false
truthy (bool b) = b
truthy (num m k) = not (is_zero_ℤ m)
truthy (str t) = text_truthy t
truthy (arr nil) = false
truthy (arr _) = true
truthy (obj end) = false
truthy (obj _) = true

-- `j == 0`, which holds of `False` too.
abbrev pub equals_zero : Json → Bool
equals_zero (num m k) = is_zero_ℤ m
equals_zero (bool b) = not b
equals_zero _ = false

-- `d.get(k)`, with `none` for a missing key.
unfoldable pub get : String → Fields → Option Json
get k end = none
get k (field j v d) = if j == k then some v else get k d

-- `k in d`
unfoldable pub has : String → Fields → Bool
unfolding get
has k d = elim (get k d) [ none ↦ false | some _ ↦ true ]

-- `d[k] = v`
unfoldable pub put : String → Json → Fields → Fields
put k v end = field k v end
put k v (field j w d) = if j == k then field j v d else field j w (put k v d)

-- `d.get(k, default)` and `d.get(k)`, where a missing key reads as `None`.
unfoldable pub get_or : String → Json → Fields → Json
unfolding get
get_or k default d = elim (get k d) [ none ↦ default | some v ↦ v ]

-- `not d` for a dict
abbrev pub no_fields : Fields → Bool
no_fields end = true
no_fields (field k v d) = false

-- `all(v == 0 for v in d.values())`
unfoldable pub all_zero : Fields → Bool
all_zero end = true
all_zero (field k v d) = equals_zero v && all_zero d

-- `xs.append(x)`
unfoldable pub append_item : Items → Json → Items
append_item nil x = cons x nil
append_item (cons y ys) x = cons y (append_item ys x)

-- `text.splitlines()`, each line by what `json.loads` makes of it.
unfoldable pub lines : Lines → List (Option Json)
lines no_line = []
lines (json_line j ls) = some j ∷ lines ls
lines (text_line s ls) = none ∷ lines ls
