-- ===== src/Package/Database.antt =====
-- tools/hbpkg.c: the file of the installed packages, its bytes, none where it cannot be opened. A record of it is
-- 256 bytes, and a text in a record is what stands before the first 0.
pub mod Records
pub mod Laws
use mellivora_os.Package.Name.{sanitise_name}
use mellivora_os.Base.{
  take_zero, take_nil, take-take, add-one, ℕ, zero, suc, ◌+◌, ◌-◌, ◌*◌, ◌/◌, ◌%◌, ◌^◌, ◌≤◌, ◌<◌,
  min, bit_and, bit_or, ◌≡◌, refl, sym, ap, ◌∙◌, subst, fun_ext, ◌≢◌, ◌↔◌, ◌⊎◌, inl, inr, Bool,
  true, false, ◌&&◌, ◌||◌, not, Option, none, some, List, [], ◌∷◌, ◌++◌, map, append-nil,
  append_assoc, arith, dec_lt, ℕ_discrete, ltb, leb, ◌==◌, if◌then◌else◌, ltb→lt, lt→ltb, leb→le,
  ==_iff, tests, Bool-cases, Option-cases, length, get_elem?, set, length-append, get_or, take,
  drop, replicate, take-append-drop, length-take, length-drop, length-replicate, length-map, All,
  All-append, All-drop, drop-append_length, and_ten, u8, u16, u32, first, rest_of,
}

-- What db_pkg_add takes of `pkg_meta_t`; `deps` and `files` as far as they are filled.
pub record Meta : Type 0 where
  pub name : List ℕ
  pub version : List ℕ
  pub description : List ℕ
  pub author : List ℕ
  pub license : List ℕ
  pub arch : List ℕ
  pub deps : List (List ℕ)
  pub files : List (List ℕ)

abbrev pub rec_size : ℕ
rec_size = 256

-- `strncpy` of a text into `n` zeros, all but the last.
unfoldable pub field : ℕ → List ℕ → List ℕ
field n s = take (n - 1) s ++ replicate (n - length (take (n - 1) s)) 0

-- `strncat` up to the 64 characters of `deps` with the terminator.
abbrev pub joined : List ℕ → List ℕ → List ℕ
joined deps s = deps ++ take (64 - length deps - 1) s

unfoldable pub join_deps : List ℕ → List (List ℕ) → List ℕ
join_deps deps [] = deps
join_deps deps (d ∷ l) = join_deps (joined (joined deps (b',' ∷ [])) d) l

abbrev pub deps_text : List (List ℕ) → List ℕ
deps_text [] = []
deps_text (d ∷ l) = join_deps (joined [] d) l

-- Four bytes, the low one first.
abbrev pub bytes_of : ℕ → List ℕ
bytes_of n = u8 n ∷ (u8 (n / 256) ∷ (u8 (n / 65536) ∷ (u8 (n / 16777216) ∷ [])))

-- `pkg_record_t` behind the name, with the date as strftime writes it.
abbrev pub fields_after : List ℕ → Meta → List ℕ
fields_after install_date meta =
    field 32 meta.version
    ++ (field 32 meta.description
        ++ (field 64 (deps_text (take 32 meta.deps))
            ++ (field 32 install_date ++ (bytes_of (u32 (length meta.files)) ++ replicate 28 0))))

unfoldable pub record_of : List ℕ → Meta → List ℕ
record_of install_date meta = field 64 meta.name ++ fields_after install_date meta

-- The records that fread gives; what is shorter than one at the end is not read.
unfoldable pub records : ℕ → List ℕ → List (List ℕ)
records zero b = []
records (suc fuel) b =
    let rest = records fuel (drop rec_size b) in
    if ltb (length b) rec_size then [] else take rec_size b ∷ rest

-- A record has 256 bytes, so the number of the bytes is fuel enough.
abbrev pub table : List ℕ → List (List ℕ)
table b = records (length b) b

unfoldable pub until_nul : List ℕ → List ℕ
until_nul [] = []
until_nul (c ∷ s) = if c == 0 then [] else c ∷ until_nul s

abbrev pub name_of : List ℕ → List ℕ
name_of rec = until_nul rec

abbrev pub version_of : List ℕ → List ℕ
version_of rec = until_nul (drop 64 rec)

abbrev pub description_of : List ℕ → List ℕ
description_of rec = until_nul (drop 96 rec)

-- `strcmp(a, b) == 0`, for texts.
unfoldable pub same_text : List ℕ → List ℕ → Bool
same_text [] [] = true
same_text [] (y ∷ b) = false
same_text (x ∷ a) [] = false
same_text (x ∷ a) (y ∷ b) = x == y && same_text a b

unfoldable pub find_record : List ℕ → List (List ℕ) → Option (List ℕ)
find_record name [] = none
find_record name (rec ∷ l) =
    let rest = find_record name l in if same_text (name_of rec) name then some rec else rest

unfoldable pub db_pkg_get : List ℕ → Option (List ℕ) → Option (List ℕ)
db_pkg_get name none = none
db_pkg_get name (some b) = find_record name (table b)

abbrev pub db_pkg_installed : List ℕ → Option (List ℕ) → Bool
db_pkg_installed name db = elim (db_pkg_get name db) [ none ↦ false | some rec ↦ true ]

-- Whether the file could be opened to append to, and the file; one that is not there is made. So many bytes
-- of the record reach the file, all 256 where `fwrite` and `fclose` succeed; neither's status is read.
unfoldable pub db_pkg_add : Bool → ℕ → List ℕ → Meta → Option (List ℕ) → Bool × Option (List ℕ)
db_pkg_add false written install_date meta db = (false, db)
db_pkg_add true written install_date meta none =
    (true, some (take written (record_of install_date meta)))
db_pkg_add true written install_date meta (some b) =
    (true, some (b ++ take written (record_of install_date meta)))

-- Whether a record was left out, with the bytes of the others.
unfoldable pub other_records : List ℕ → List (List ℕ) → Bool × List ℕ
other_records name [] = (false, [])
other_records name (rec ∷ l) =
    let rest = other_records name l in
    if same_text (name_of rec) name then (true, rest.1) else (rest.0, rec ++ rest.1)

-- The file after the bytes are written to the temporary file and this is renamed to the database: none where
-- the rename has no effect, because it fails, or because the build is not for the host and has none.
abbrev pub Rename : Type 0
Rename = List ℕ → Option (List ℕ)

abbrev pub renamed : List ℕ → Option (List ℕ) → List ℕ
renamed b none = b
renamed b (some b') = b'

-- Whether it went well; `opens` is whether the temporary file can be opened. The status of the writes and of
-- the rename is not read.
unfoldable pub db_pkg_remove : Bool → Rename → List ℕ → Option (List ℕ) → Bool × Option (List ℕ)
db_pkg_remove opens rename name none = (false, none)
db_pkg_remove opens rename name (some b) =
    let (found, others) = other_records name (table b) in
    if opens && found then (true, some (renamed b (rename others))) else (false, some b)

-- The lines of `db_pkg_list` for the installed packages: name, version and description.
unfoldable pub list_installed : List (List ℕ) → List (List ℕ × (List ℕ × List ℕ))
list_installed [] = []
list_installed (rec ∷ l) =
    let rest = list_installed l in
    if first rec == 0 then rest else (name_of rec, (version_of rec, description_of rec)) ∷ rest

-- The number of the records, and of those with no name.
unfoldable pub audit_counts : List (List ℕ) → ℕ × ℕ
audit_counts [] = (0, 0)
audit_counts (rec ∷ l) =
    let (total, failed) = audit_counts l in
    (total + 1, if first rec == 0 then failed + 1 else failed)

-- The status of `hbpkg audit`.
abbrev pub cmd_audit : Option (List ℕ) → ℕ
cmd_audit none = 0
cmd_audit (some b) = if ltb 0 (audit_counts (table b)).1 then 1 else 0

-- The status of `hbpkg remove`, and the file.
unfoldable pub remove_all : Bool → Rename → List (List ℕ) → Option (List ℕ) → ℕ × Option (List ℕ)
remove_all opens rename [] db = (0, db)
remove_all opens rename (arg ∷ argv) db = elim (sanitise_name arg 64) [
  | none ↦ (1, db)
  | some safe_name ↦
      let (removed, db') = db_pkg_remove opens rename safe_name db in
      let rest = remove_all opens rename argv db' in
      if not (db_pkg_installed safe_name db) then (1, db) else if removed then rest else (1, db')
]

abbrev pub cmd_remove : Bool → Rename → List (List ℕ) → Option (List ℕ) → ℕ × Option (List ℕ)
cmd_remove opens rename [] db = (1, db)
cmd_remove opens rename (arg ∷ argv) db = remove_all opens rename (arg ∷ argv) db
