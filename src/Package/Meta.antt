-- ===== src/Package/Meta.antt =====
-- tools/hbpkg.c: meta_parse_toml, which reads a package's meta.toml line by line. A text is its bytes before the 0.
pub mod Lines
pub mod Items
pub mod Print
pub mod Fields
pub mod Laws
use mellivora_os.Base.{
  take_zero, take_nil, take-take, add-one, ℕ, zero, suc, ◌+◌, ◌-◌, ◌*◌, ◌/◌, ◌%◌, ◌^◌, ◌≤◌, ◌<◌,
  min, bit_and, bit_or, ◌≡◌, refl, sym, ap, ◌∙◌, subst, fun_ext, ◌≢◌, ◌↔◌, ◌⊎◌, inl, inr, Bool,
  true, false, ◌&&◌, ◌||◌, not, Option, none, some, List, [], ◌∷◌, ◌++◌, map, append-nil,
  append_assoc, arith, dec_lt, ℕ_discrete, ltb, leb, ◌==◌, if◌then◌else◌, ltb→lt, lt→ltb, leb→le,
  ==_iff, tests, Bool-cases, Option-cases, length, get_elem?, set, length-append, get_or, take,
  drop, replicate, take-append-drop, length-take, length-drop, length-replicate, length-map, All,
  All-append, All-drop, drop-append_length, and_ten, u8, u16, u32, first, rest_of,
}
use mellivora_os.Base.Texts.{codes}
use mellivora_os.Posix.Ctype.{isspace}
use mellivora_os.Package.Database.{Meta, same_text}

-- `fgets` with room for `n` characters before the terminator, and what is left of the file.
unfoldable pub read_line : ℕ → List ℕ → List ℕ × List ℕ
read_line zero b = ([], b)
read_line (suc n) [] = ([], [])
read_line (suc n) (c ∷ b) =
    let (line, rest) = read_line n b in if c == 10 then (c ∷ [], b) else (c ∷ line, rest)

-- What fgets gives until the file ends, with `char line[512]`. A line has a character at least, so the number of the
-- bytes is fuel enough.
unfoldable pub lines_of : ℕ → List ℕ → List (List ℕ)
lines_of zero b = []
lines_of (suc fuel) [] = []
lines_of (suc fuel) (c ∷ b) = let (line, rest) = read_line 511 (c ∷ b) in line ∷ lines_of fuel rest

-- Neither the end of the text nor of the line.
abbrev pub in_line : ℕ → Bool
in_line c = not (c == 0) && not (c == 10) && not (c == 13)

-- `line[strcspn(line, "\r\n")] = '\0'`.
unfoldable pub cut_line : List ℕ → List ℕ
cut_line [] = []
cut_line (c ∷ s) = let rest = cut_line s in if in_line c then c ∷ rest else []

-- `strchr`: what stands before the character, and behind it.
unfoldable pub split : ℕ → List ℕ → Option (List ℕ × List ℕ)
split x [] = none
split x (c ∷ s) =
    let rest = split x s in
    if c == x then some ([], s) else elim rest [ none ↦ none | some (a, b) ↦ some (c ∷ a, b) ]

unfoldable pub skip_spaces : List ℕ → List ℕ
skip_spaces [] = []
skip_spaces (c ∷ s) = let rest = skip_spaces s in if isspace c then rest else c ∷ s

abbrev pub cons_unless_space : ℕ → List ℕ → List ℕ
cons_unless_space c [] = if isspace c then [] else c ∷ []
cons_unless_space c (x ∷ s) = c ∷ (x ∷ s)

unfoldable pub strip_trailing : List ℕ → List ℕ
strip_trailing [] = []
strip_trailing (c ∷ s) = cons_unless_space c (strip_trailing s)

-- `while (end > p && isspace(*end))`: the first character stays.
abbrev pub trim_end : List ℕ → List ℕ
trim_end [] = []
trim_end (c ∷ s) = c ∷ strip_trailing s

unfoldable pub trim : List ℕ → List ℕ
trim s = trim_end (skip_spaces s)

-- Without a quote at the end, none where there is no such quote.
unfoldable pub before_quote : List ℕ → Option (List ℕ)
before_quote [] = none
before_quote (c ∷ []) = if c == b'"' then some [] else none
before_quote (c ∷ (x ∷ s)) = elim (before_quote (x ∷ s)) [ none ↦ none | some l ↦ some (c ∷ l) ]

unfoldable pub unquote : List ℕ → List ℕ
unquote [] = []
unquote (c ∷ s) = if c == b'"' then elim (before_quote s) [ none ↦ c ∷ s | some l ↦ l ] else c ∷ s

unfoldable pub skip_separators : List ℕ → List ℕ
skip_separators [] = []
skip_separators (c ∷ p) =
    let rest = skip_separators p in if isspace c || c == b',' then rest else c ∷ p

-- The quote, or the comma, or the bracket behind an item.
unfoldable pub item_end : List ℕ → Option (List ℕ × List ℕ)
item_end p = elim (split b'"' p) [
  | some r ↦ some r
  | none ↦ elim (split b',' p) [ some r ↦ some r | none ↦ split b']' p ]
]

-- An item of an array and what stands behind it, none where the loop breaks.
unfoldable pub next_item : List ℕ → Option (List ℕ × List ℕ)
next_item [] = none
next_item (c ∷ p) = if c == b']' then none else if c == b'"' then item_end p else item_end (c ∷ p)

-- The items that are added, at most `room` of them, where an item has `size` bytes.
unfoldable pub items : ℕ → ℕ → List ℕ → List (List ℕ)
items size zero p = []
items size (suc room) p = elim (next_item (skip_separators p)) [
  | none ↦ []
  | some (item, rest) ↦ take (size - 1) item ∷ items size room rest
]

abbrev pub skip_bracket : List ℕ → List ℕ
skip_bracket [] = []
skip_bracket (c ∷ s) = if c == b'[' then s else c ∷ s

unfoldable pub assign : List ℕ → List ℕ → Meta → Meta
assign key val m =
    if same_text key (codes "name")
    then record m { name = take 63 val }
    else if same_text key (codes "version")
    then record m { version = take 31 val }
    else if same_text key (codes "description")
    then record m { description = take 255 val }
    else if same_text key (codes "author")
    then record m { author = take 63 val }
    else if same_text key (codes "license")
    then record m { license = take 31 val }
    else if same_text key (codes "arch")
    then record m { arch = take 15 val }
    else if same_text key (codes "deps") || same_text key (codes "dependencies")
    then record m { deps = m.deps ++ items 64 (32 - length m.deps) (skip_bracket val) }
    else if same_text key (codes "files")
    then record m { files = m.files ++ items 256 (1024 - length m.files) (skip_bracket val) }
    else m

-- A line without its end.
unfoldable pub parse_line : List ℕ → Meta → Meta
parse_line [] m = m
parse_line (c ∷ s) m = if c == b'#' then m else elim (split b'=' (c ∷ s)) [
  | none ↦ m
  | some (key, val) ↦ assign (trim key) (unquote (trim val)) m
]

unfoldable pub parse_lines : List (List ℕ) → Meta → Meta
parse_lines [] m = m
parse_lines (l ∷ ls) m = parse_lines ls (parse_line (cut_line l) m)

-- Whether it went well, and `out`; the file is its bytes, none where it cannot be opened.
unfoldable pub meta_parse_toml : Option (List ℕ) → Meta → Bool × Meta
meta_parse_toml none m = (false, m)
meta_parse_toml (some b) m =
    let out = parse_lines (lines_of (length b) b) m in
    (not (length out.name == 0) && not (length out.version == 0), out)

-- `memset(&meta, 0, sizeof(meta))`.
abbrev pub empty_meta : Meta
empty_meta = record {
  name = [];
  version = [];
  description = [];
  author = [];
  license = [];
  arch = [];
  deps = [];
  files = [];
}
