-- ===== src/Reasoning/Replies.antt =====
-- reasoning/thesis/generator.py, `_extract_json`, and the two requests for a JSON object that the
-- generators of theses and decisions make. A reply is the list of its code points. The parser of
-- JSON, the regular expressions' class of spaces and the language model are parameters.
pub mod Cleaning
pub mod Fenced
use Prim.Native.String
use afterhours.Prelude.{
  ℕ, zero, suc, ◌+◌, String, Bool, true, false, ◌&&◌, ◌||◌, not, Option, none, some, List, [], ◌∷◌,
  ◌==◌, str_eq, if◌then◌else◌,
}
use afterhours.Prelude.Int.{ℤ}
use afterhours.Decimal.{Decimal, is_zero}

-- A value of JSON. The numbers are exact.
mutual
  pub data Json : Type 0 where
    null : Json
    boolean : Bool → Json
    number : Decimal → Json
    text : String → Json
    arr : Items → Json
    obj : Fields → Json

  pub data Items : Type 0 where
    nil : Items
    cons : Json → Items → Items

  pub data Fields : Type 0 where
    end : Fields
    field : String → Json → Fields → Fields

-- What the generators use of the libraries: the class `\s` of spaces, `json.loads`, `UUID` with its
-- text, `str`, `strip().lower()`, and the conversions of a value of JSON to a float and to an int,
-- `none` where they raise.
pub record Library : Type 0 where
  pub is_space : ℕ → Bool
  pub loads : List ℕ → Option Json
  pub uuid : String → Option String
  pub str : Json → String
  pub normal : String → String
  pub to_float : Json → Option Decimal
  pub to_int : Json → Option ℤ
  pub new_id : ℕ → String

-- How the requests end: the provider raises, no reply has an object, or there is one.
pub data Obtained : Type 0 where
  raised unparsed : Obtained
  parsed : Fields → Obtained

-- `data.get(key)`
unfoldable pub get : String → Fields → Option Json
get key end = none
get key (field k v fields) = if str_eq k key then some v else get key fields

-- `bool(value)`
unfoldable pub is_truthy : Json → Bool
is_truthy null = false
is_truthy (boolean b) = b
is_truthy (number d) = not (is_zero d)
is_truthy (text s) = not (str_eq s "")
is_truthy (arr nil) = false
is_truthy (arr (cons _ _)) = true
is_truthy (obj end) = false
is_truthy (obj (field _ _ _)) = true

-- The members over which Python iterates; `none` where a value is not iterable. Those of a text are
-- its characters, and those of an object its keys.
unfoldable pub elements : Items → List Json
elements nil = []
elements (cons x xs) = x ∷ elements xs

unfoldable pub characters : String → List Json
characters String.[] = []
characters (String.◌∷◌ c s) = text (String.◌∷◌ c String.[]) ∷ characters s

unfoldable pub keys : Fields → List Json
keys end = []
keys (field k _ fields) = text k ∷ keys fields

unfoldable pub iterate : Json → Option (List Json)
iterate (arr xs) = some (elements xs)
iterate (text s) = some (characters s)
iterate (obj fields) = some (keys fields)
iterate _ = none

abbrev pub backtick : ℕ
backtick = b'`'

abbrev pub opening : ℕ
opening = b'{'

abbrev pub closing : ℕ
closing = b'}'

-- The text starts with these code points.
unfoldable pub starts_with : List ℕ → List ℕ → Bool
starts_with [] cs = true
starts_with (p ∷ ps) [] = false
starts_with (p ∷ ps) (c ∷ cs) = c == p && starts_with ps cs

unfoldable pub drop : ℕ → List ℕ → List ℕ
drop zero cs = cs
drop (suc n) [] = []
drop (suc n) (c ∷ cs) = drop n cs

abbrev pub fence : List ℕ
fence = backtick ∷ backtick ∷ backtick ∷ []

abbrev pub language : List ℕ
language = b'j' ∷ b's' ∷ b'o' ∷ b'n' ∷ []

-- From a position on, the text through its last closing brace.
unfoldable pub through_close : List ℕ → Option (List ℕ)
through_close [] = none
through_close (c ∷ cs) = elim (through_close cs) [
  | some rest ↦ some (c ∷ rest)
  | none ↦ if c == closing then some (c ∷ []) else none
]

-- `_JSON_RE.search`: from the first opening brace through the last closing one.
unfoldable pub search_object : List ℕ → Option (List ℕ)
search_object [] = none
search_object (c ∷ cs) =
    if c == opening
    then (elim (through_close cs) [ none ↦ none | some rest ↦ some (c ∷ rest) ])
    else search_object cs

module _ (is_space : ℕ → Bool) where
  -- The length of `\s*` at the front.
  unfoldable pub spaces : List ℕ → ℕ
  spaces [] = 0
  spaces (c ∷ cs) = let rest = spaces cs in if is_space c then suc rest else 0

  -- The length of a match of "```(?:json)?\s*|\s*```" at the front; 0 where there is none.
  unfoldable pub fence_length : List ℕ → ℕ
  fence_length cs =
      if starts_with fence cs
      then (let n : ℕ = if starts_with language (drop 3 cs) then 7 else 3 in n + spaces (drop n cs))
      else if starts_with fence (drop (spaces cs) cs)
      then spaces cs + 3
      else 0

  -- `re.sub(..., "", text)`, with the length of what is left of a match.
  unfoldable pub without_fences : ℕ → List ℕ → List ℕ
  without_fences skip [] = []
  without_fences (suc skip) (c ∷ cs) = without_fences skip cs
  without_fences zero (c ∷ cs) = elim (fence_length (c ∷ cs)) [
    | zero ↦ c ∷ without_fences zero cs
    | suc n ↦ without_fences n cs
  ]

  -- `text.strip()`
  unfoldable pub strip_start : List ℕ → List ℕ
  strip_start [] = []
  strip_start (c ∷ cs) = let rest = strip_start cs in if is_space c then rest else c ∷ cs

  unfoldable pub strip_end : List ℕ → List ℕ
  strip_end [] = []
  strip_end (c ∷ cs) = elim (strip_end cs) [
    | [] ↦ if is_space c then [] else c ∷ []
    | d ∷ ds ↦ c ∷ d ∷ ds
  ]

  module _ (loads : List ℕ → Option Json) where
    -- `result if isinstance(result, dict) else None`
    abbrev pub as_object : Option Json → Option Fields
    as_object none = none
    as_object (some (obj fields)) = some fields
    as_object (some _) = none

    -- `_extract_json`
    unfoldable pub extract_json : List ℕ → Option Fields
    extract_json raw = elim (search_object (strip_end (strip_start (without_fences zero raw)))) [
      | none ↦ none
      | some found ↦ as_object (loads found)
    ]

    module _ {Prompt : Type 0} (ask : ℕ → Option (List ℕ) → Prompt → Option (List ℕ)) where
      -- The second request quotes the first reply.
      unfoldable pub retry : Prompt → List ℕ → ℕ → ℕ × Obtained
      retry prompt raw asked = elim (ask asked (some raw) prompt) [
        | none ↦ (asked + 1, raised)
        | some raw2 ↦ elim (extract_json raw2) [
          | none ↦ (asked + 1, unparsed)
          | some fields ↦ (asked + 1, parsed fields)
        ]
      ]

      -- The requests for a prompt, and the count of requests after them.
      unfoldable pub obtain : Prompt → ℕ → ℕ × Obtained
      obtain prompt asked = elim (ask asked none prompt) [
        | none ↦ (asked + 1, raised)
        | some raw ↦ elim (extract_json raw) [
          | none ↦ retry prompt raw (asked + 1)
          | some fields ↦ (asked + 1, parsed fields)
        ]
      ]
