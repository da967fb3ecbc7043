-- ===== src/Package/Meta/Laws.antt =====
-- tools/hbpkg.c: what meta_parse_toml makes of a file that is written as the documentation shows.
use mellivora_os.Base.{
  ℕ, ◌+◌, ◌<◌, ◌≡◌, refl, ap, ◌∙◌, Bool, true, ◌&&◌, not, some, List, [], ◌∷◌, ◌++◌, map, arith,
  ◌==◌, length, length-append, All, All-append,
}
use mellivora_os.Base.Texts.{codes}
use mellivora_os.Package.Database.{Meta}
use mellivora_os.Package.Meta.{
  lines_of, in_line, cut_line, parse_line, parse_lines, meta_parse_toml, empty_meta,
}
use mellivora_os.Package.Meta.Lines.{
  IsLine, joined_lines, with_end, AreLines, cut_line_lem, lines_of-joined_lines,
  length-joined_lines,
}
use mellivora_os.Package.Meta.Print.{
  quoted, more_items, array_items, IsItem, print_meta, IsField, pair, array, WellFormed, meta_lines,
}
use mellivora_os.Package.Meta.Fields.{
  name_line, version_line, description_line, author_line, license_line, arch_line, deps_line,
  files_line,
}

parse_bare : List (List ℕ) → Meta → Meta
parse_bare [] m = m
parse_bare (s ∷ l) m = parse_bare l (parse_line s m)

parse_lines-parse_bare :
    (l : List (List ℕ)) (m : Meta) → AreLines l → parse_lines (map with_end l) m ≡ parse_bare l m
unfolding parse_lines parse_bare
parse_lines-parse_bare [] m h = refl
parse_lines-parse_bare (s ∷ l) m h =
    parse_lines-parse_bare l (parse_line (cut_line (with_end s)) m) h.1
    ∙ ap (λ c. parse_bare l (parse_line c m)) (cut_line_lem s h.0.0)

then_line :
    (s : List ℕ) (l : List (List ℕ)) (m : Meta) {m' k : Meta}
    → parse_line s m ≡ m'
    → parse_bare l m' ≡ k
    → parse_bare (s ∷ l) m ≡ k
unfolding parse_bare
then_line s l m e r = ap (parse_bare l) e ∙ r

no_line : (m : Meta) → parse_bare [] m ≡ m
unfolding parse_bare
no_line m = refl

parse_bare-meta_lines : (m : Meta) → WellFormed m → parse_bare (meta_lines m) empty_meta ≡ m
parse_bare-meta_lines m h = then_line _ _ _ (name_line m.name _ h.name_fits) (
    then_line _ _ _ (version_line m.version _ h.version_fits) (
      then_line _ _ _ (description_line m.description _ h.description_fits) (
        then_line _ _ _ (author_line m.author _ h.author_fits) (
          then_line _ _ _ (license_line m.license _ h.license_fits) (
            then_line _ _ _ (arch_line m.arch _ h.arch_fits) (
              then_line _ _ _ (deps_line m.deps _ h.deps_fit h.few_deps refl) (
                then_line _ _ _ (files_line m.files _ h.files_fit h.few_files refl)
                  (no_line m))))))))

unfoldable pub is_line : List ℕ → Bool
is_line [] = true
is_line (c ∷ s) = in_line c && is_line s

pub is_line_lem : (s : List ℕ) → is_line s ≡ true → IsLine s
unfolding is_line
is_line_lem [] e = tt
is_line_lem (c ∷ s) e =
    let here : in_line c ≡ true = ground (arith, e) in
    let rest : is_line s ≡ true = ground (arith, e) in (here, is_line_lem s rest)

quoted-IsLine : (v r : List ℕ) → IsLine v → IsLine r → IsLine (quoted v r)
unfolding quoted
quoted-IsLine v r h k = (refl, All-append (λ c. in_line c ≡ true) v (b'"' ∷ r) h (refl, k))

-- The line of a pair.
pair_sound :
    (key : List ℕ) (size : ℕ) (v : List ℕ)
    → is_line key ≡ true
    → length key + size < 500
    → IsField size v
    → IsLine (pair key v) × (length (pair key v) < 511)
unfolding quoted
pair_sound key size v e k h =
    let fits = h.short in
    let rest : IsLine (codes " = " ++ quoted v []) =
      (refl, (refl, (refl, quoted-IsLine v [] h.line tt))) in
    let sum = length-append key (codes " = " ++ quoted v []) in
    let behind = length-append v (b'"' ∷ []) in
    (
      All-append (λ c. in_line c ≡ true) key _ (is_line_lem key e) rest,
      omega (arith, fits, sum, behind, k),
    )

more_items-IsLine : (size : ℕ) (l : List (List ℕ)) → All (IsItem size) l → IsLine (more_items l)
unfolding more_items
more_items-IsLine size [] h = (refl, tt)
more_items-IsLine size (d ∷ l) h =
    (refl, (refl, quoted-IsLine d (more_items l) h.0.line (more_items-IsLine size l h.1)))

array_items-IsLine : (size : ℕ) (l : List (List ℕ)) → All (IsItem size) l → IsLine (array_items l)
unfolding array_items
array_items-IsLine size [] h = (refl, tt)
array_items-IsLine size (d ∷ l) h =
    quoted-IsLine d (more_items l) h.0.line (more_items-IsLine size l h.1)

array_sound :
    (key : List ℕ) (size : ℕ) (l : List (List ℕ))
    → is_line key ≡ true
    → All (IsItem size) l
    → IsLine (array key l)
array_sound key size l e h =
    All-append (λ c. in_line c ≡ true) key _ (is_line_lem key e)
      (refl, (refl, (refl, (refl, array_items-IsLine size l h))))

meta_lines-AreLines : (m : Meta) → WellFormed m → AreLines (meta_lines m)
unfolding is_line
meta_lines-AreLines m h = (
  pair_sound (codes "name") 64 m.name refl (ground arith) h.name_fits,
  (
    pair_sound (codes "version") 32 m.version refl (ground arith) h.version_fits,
    (
      pair_sound (codes "description") 256 m.description refl (ground arith) h.description_fits,
      (
        pair_sound (codes "author") 64 m.author refl (ground arith) h.author_fits,
        (
          pair_sound (codes "license") 32 m.license refl (ground arith) h.license_fits,
          (
            pair_sound (codes "arch") 16 m.arch refl (ground arith) h.arch_fits,
            (
              (array_sound (codes "deps") 64 m.deps refl h.deps_fit, h.deps_line),
              ((array_sound (codes "files") 256 m.files refl h.files_fit, h.files_line), tt),
            ),
          ),
        ),
      ),
    ),
  ),
)

-- What is printed of a well-formed package is read back as it was, into memory that was zeroed.
pub meta_parse_toml-print_meta :
    (m : Meta) → WellFormed m → meta_parse_toml (some (print_meta m)) empty_meta ≡ (true, m)
unfolding meta_parse_toml print_meta
meta_parse_toml-print_meta m h =
    let ls : List (List ℕ) = meta_lines m in
    let sound : AreLines ls = meta_lines-AreLines m h in
    let read : parse_lines (lines_of (length (joined_lines ls)) (joined_lines ls)) empty_meta ≡ m =
      ap (λ r. parse_lines r empty_meta)
        (lines_of-joined_lines ls (length (joined_lines ls)) sound (length-joined_lines ls))
      ∙ parse_lines-parse_bare ls empty_meta sound
      ∙ parse_bare-meta_lines m h in
    let named = h.name_there in
    let versioned = h.version_there in
    let good : (not (length m.name == 0) && not (length m.version == 0)) ≡ true =
      ground (arith, named, versioned) in
    ap (λ out. (not (length out.name == 0) && not (length out.version == 0), out)) read
    ∙ ap (λ b. (b, m)) good
