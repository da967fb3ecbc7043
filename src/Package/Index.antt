-- ===== src/Package/Index.antt =====
-- tools/hbpkg.c: the index of the repository, a line "name\tversion\tdescription" for each package, and the commands
-- list, search, info and upgrade. What is printed is what the rows hold.
use mathlib.Core.Option
use mellivora_os.Base.{
  ℕ, Bool, true, false, ◌&&◌, ◌||◌, Option, none, some, List, [], ◌∷◌, ◌==◌, if◌then◌else◌, length,
}
use mellivora_os.Base.Texts.{codes}
use mellivora_os.Package.Name.{sanitise_name}
use mellivora_os.Package.Database.{db_pkg_get, same_text, list_installed, table}
use mellivora_os.Package.Meta.{lines_of}
use mellivora_os.Package.Install.{Host, Machine, cmd_install, and_then}

-- `strtok` at the characters that are `x`: the token and what it leaves, none where there is no token.
unfoldable pub token_body : ℕ → List ℕ → List ℕ × List ℕ
token_body x [] = ([], [])
token_body x (c ∷ s) =
    let (tok, rest) = token_body x s in if c == x then ([], s) else (c ∷ tok, rest)

unfoldable pub token : ℕ → List ℕ → Option (List ℕ × List ℕ)
token x [] = none
token x (c ∷ s) = let later = token x s in if c == x then later else some (token_body x (c ∷ s))

-- The name, the version and the description of a line; none where a name or a version is not there.
unfoldable pub index_row : List ℕ → Option (List ℕ × (List ℕ × Option (List ℕ)))
index_row line = elim (token 9 line) [
  | none ↦ none
  | some (name, r) ↦ elim (token 9 r) [
    | none ↦ none
    | some (version, r') ↦ some (name, (version, Option.map (λ t. t.0) (token 10 r')))
  ]
]

abbrev pub or_empty : Option (List ℕ) → List ℕ
or_empty none = []
or_empty (some d) = d

-- The rows that `db_pkg_list(false)` prints.
unfoldable pub list_index : List (List ℕ) → List (List ℕ × (List ℕ × List ℕ))
list_index [] = []
list_index (line ∷ l) =
    let rest = list_index l in
    elim (index_row line) [ none ↦ rest | some (n, (v, d)) ↦ (n, (v, or_empty d)) ∷ rest ]

-- The status and the rows of `hbpkg list`, with the bytes of the database and of the index.
unfoldable pub db_pkg_list :
    Bool → Option (List ℕ) → Option (List ℕ) → ℕ × List (List ℕ × (List ℕ × List ℕ))
db_pkg_list true none index = (0, [])
db_pkg_list true (some b) index = (0, list_installed (table b))
db_pkg_list false db none = (1, [])
db_pkg_list false db (some b) = (0, list_index (lines_of (length b) b))

unfoldable pub cmd_list :
    List (List ℕ) → Option (List ℕ) → Option (List ℕ) → ℕ × List (List ℕ × (List ℕ × List ℕ))
cmd_list [] db index = db_pkg_list false db index
cmd_list (arg ∷ argv) db index =
    let rest = cmd_list argv db index in
    if same_text arg (codes "--installed") then db_pkg_list true db index else rest

unfoldable pub starts_with : List ℕ → List ℕ → Bool
starts_with s [] = true
starts_with [] (x ∷ q) = false
starts_with (c ∷ s) (x ∷ q) = c == x && starts_with s q

-- `strstr(line, query) != NULL`.
unfoldable pub has_text : List ℕ → List ℕ → Bool
has_text [] q = starts_with [] q
has_text (c ∷ s) q = starts_with (c ∷ s) q || has_text s q

-- The rows that `hbpkg search` prints.
unfoldable pub search_index : List ℕ → List (List ℕ) → List (List ℕ × (List ℕ × List ℕ))
search_index query [] = []
search_index query (line ∷ l) =
    let rest = search_index query l in
    if has_text line query
    then (elim (index_row line) [
      | none ↦ rest
      | some (n, (v, none)) ↦ rest
      | some (n, (v, some d)) ↦ (n, (v, d)) ∷ rest
    ])
    else rest

unfoldable pub cmd_search : List (List ℕ) → Option (List ℕ) → ℕ × List (List ℕ × (List ℕ × List ℕ))
cmd_search [] index = (1, [])
cmd_search (query ∷ argv) none = (1, [])
cmd_search (query ∷ argv) (some b) = (0, search_index query (lines_of (length b) b))

-- The status of `hbpkg info`, and the record that it prints.
unfoldable pub cmd_info : List (List ℕ) → Option (List ℕ) → ℕ × Option (List ℕ)
cmd_info [] db = (1, none)
cmd_info (arg ∷ argv) db = elim (sanitise_name arg 64) [
  | none ↦ (1, none)
  | some safe ↦ elim (db_pkg_get safe db) [ none ↦ (1, none) | some rec ↦ (0, some rec) ]
]

-- `hbpkg upgrade` of packages, the first one that fails ends it.
unfoldable pub upgrade_packages :
    {W : Type 0} → Host W → ℕ → List (List ℕ) → Machine W → Option (ℕ × Machine W)
upgrade_packages host depth [] m = some (0, m)
upgrade_packages host depth (arg ∷ argv) m =
    and_then (cmd_install host depth (arg ∷ []) m) (λ m'. upgrade_packages host depth argv m')

-- With no package named it only lists the installed ones.
unfoldable pub cmd_upgrade :
    {W : Type 0} → Host W → ℕ → List (List ℕ) → Machine W → Option (ℕ × Machine W)
cmd_upgrade host depth [] m = some ((db_pkg_list true m.db none).0, m)
cmd_upgrade host depth (arg ∷ argv) m = upgrade_packages host depth (arg ∷ argv) m
