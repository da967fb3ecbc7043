-- ===== src/Package/Install/Laws.antt =====
-- tools/hbpkg.c: what reaches the shell while packages are installed.
use mellivora_os.Base.{
  ℕ, zero, suc, ◌<◌, ◌≡◌, sym, ap, ◌∙◌, subst, inl, inr, Bool, true, false, ◌&&◌, ◌||◌, not, Option,
  none, some, List, [], ◌∷◌, arith, ◌==◌, if◌then◌else◌, Bool-cases, Option-cases, length, take,
  length-take, first, ◌++◌, ◌≢◌, refl,
}
use mellivora_os.Package.Name.{sanitise_name}
use mellivora_os.Package.Name.Laws.{all_allowed, sanitise_name_lem}
use mellivora_os.Package.Database.{Meta, db_pkg_installed}
use mellivora_os.Package.Install.{
  Host, Machine, split_argument, name_argument, has_dots, install_files, install_deps,
  install_payload, install_meta, install_package, install_argument, install_arguments, cmd_install,
  meta_verify_sig, and_then,
}

-- A name of 63 letters, digits, dots, dashes and underscores at most.
pub record IsSafe (name : List ℕ) : Type 0 where
  pub some_left : 0 < length name
  pub short : length name < 64
  pub allowed : all_allowed name ≡ true

-- A relative path with no ".." anywhere: 47 is the slash and 46 the dot.
pub record StaysInside (f : List ℕ) : Type 0 where
  pub relative : (s : List ℕ) → f ≢ 47 ∷ s
  pub no_dots : (pre post : List ℕ) → f ≢ pre ++ (46 ∷ (46 ∷ post))

has_dots_found : (pre post : List ℕ) → has_dots (pre ++ (46 ∷ (46 ∷ post))) ≡ true
unfolding has_dots
has_dots_found [] post = refl
has_dots_found (x ∷ []) post = ground arith
has_dots_found (x ∷ (y ∷ pre)) post =
    rw (has_dots_found (y ∷ pre) post) (elim (Bool-cases (x == b'.' && y == b'.')) [
      | inl yes' ↦ rw yes' refl
      | inr no' ↦ rw no' refl
    ])

has_dots-StaysInside : (f : List ℕ) → (first f == b'/') ≡ false → has_dots f ≡ false → StaysInside f
has_dots-StaysInside f slash dots = record {
  relative = λ s e. let clash = sym slash ∙ ap (λ l. first l == b'/') e in ground (arith, clash);
  no_dots = λ pre post e.
      let clash = sym dots ∙ ap has_dots e ∙ has_dots_found pre post in ground (arith, clash);
}

some_inj : (a b : List ℕ) → some a ≡ some b → a ≡ b
some_inj a b e = ap (λ o. elim o [ none ↦ [] | some l ↦ l ]) e

sanitise_name-IsSafe : (s name : List ℕ) → sanitise_name s 64 ≡ some name → IsSafe name
sanitise_name-IsSafe s name e = elim (Bool-cases (not (length s == 0) && all_allowed (take 63 s))) [
  | inl good ↦
      let same : take 63 s ≡ name = some_inj (take 63 s) name (
        ap (λ b. if b then some (take 63 s) else none) (sym good)
        ∙ sym (sanitise_name_lem s 64 (omega arith))
        ∙ e) in
      let size = length-take 63 s in
      let there : 0 < length (take 63 s) = ground (arith, good, size) in
      let few : length (take 63 s) < 64 = ground (arith, size) in
      let fine : all_allowed (take 63 s) ≡ true = ground (arith, good) in
      subst IsSafe same (record { some_left = there; short = few; allowed = fine })
  | inr bad ↦ absurd (
      let gone =
        ap (λ b. if b then some (take 63 s) else none) (sym bad)
        ∙ sym (sanitise_name_lem s 64 (omega arith))
        ∙ e in
      cc)
]

name_argument-IsSafe : (arg name : List ℕ) → name_argument arg ≡ some name → IsSafe name
unfolding name_argument
name_argument-IsSafe arg name e = elim (Option-cases (split_argument arg)) [
  | inl no' ↦ absurd (
      let gone =
        ap (λ o. elim o [ none ↦ none | some (n, c) ↦ sanitise_name n 64 ]) (sym no') ∙ e in
      cc)
  | inr (p, yes') ↦
      sanitise_name-IsSafe p.0 name
        (ap (λ o. elim o [ none ↦ none | some (n, c) ↦ sanitise_name n 64 ]) (sym yes') ∙ e)
]

-- What all commands keep, those with a safe name, and the copies of files that stay inside.
pub record Kept {W : Type 0} (host : Host W) (Inv : W → Type 0) : Type 0 where
  pub fetch_keeps : (name : List ℕ) (w : W) → IsSafe name → Inv w → Inv (host.fetch name w).1
  pub extract_keeps : (name : List ℕ) (w : W) → IsSafe name → Inv w → Inv (host.extract name w).1
  pub pre_keeps : (name : List ℕ) (w : W) → IsSafe name → Inv w → Inv (host.pre_script name w)
  pub post_keeps : (name : List ℕ) (w : W) → IsSafe name → Inv w → Inv (host.post_script name w)
  pub copy_keeps :
      (name f : List ℕ) (w : W)
      → IsSafe name
      → StaysInside f
      → Inv w
      → Inv (host.copy_file name f w).1

-- The world of a result, if there is one, has the property.
abbrev pub After : {W : Type 0} → (W → Type 0) → Option (ℕ × Machine W) → Type 0
After Inv none = Unit
After Inv (some (code, m)) = Inv m.world

module _ {W : Type 0} (host : Host W) (Inv : W → Type 0) (kept : Kept host Inv) where
  After-and_then :
      (r : Option (ℕ × Machine W)) (next : Machine W → Option (ℕ × Machine W))
      → After Inv r
      → ((m : Machine W) → Inv m.world → After Inv (next m))
      → After Inv (and_then r next)
  unfolding and_then
  After-and_then none next h k = tt
  After-and_then (some (zero, m)) next h k = k m h
  After-and_then (some (suc code, m)) next h k = h

  install_files-Inv :
      (name : List ℕ) (files : List (List ℕ)) (w : W)
      → IsSafe name
      → Inv w
      → Inv (install_files host name files w).1
  unfolding install_files
  install_files-Inv name [] w s h = h
  install_files-Inv name (f ∷ files) w s h = elim (Bool-cases (first f == b'/' || has_dots f)) [
    | inl bad ↦ rw bad h
    | inr good ↦
        let inside : StaysInside f =
          has_dots-StaysInside f (ground (arith, good)) (ground (arith, good)) in
        let next = kept.copy_keeps name f w s inside h in
        elim (Bool-cases (host.copy_file name f w).0) [
          | inl copied ↦ rw (good, copied) (install_files-Inv name files _ s next)
          | inr failed ↦ rw (good, failed) next
        ]
  ]

  -- A call that keeps it.
  abbrev Keeps : (List ℕ → Machine W → Option (ℕ × Machine W)) → Type 0
  Keeps install = (d : List ℕ) (m : Machine W) → Inv m.world → After Inv (install d m)

  install_deps-Inv :
      (install : List ℕ → Machine W → Option (ℕ × Machine W)) (deps : List (List ℕ)) (m : Machine W)
      → Keeps install
      → Inv m.world
      → After Inv (install_deps host install deps m)
  unfolding install_deps
  install_deps-Inv install [] m k h = h
  install_deps-Inv install (d ∷ deps) m k h = elim (Bool-cases (db_pkg_installed d m.db)) [
    | inl there ↦ rw there (install_deps-Inv install deps m k h)
    | inr needed ↦ rw needed (
        After-and_then (install d m) (λ m'. install_deps host install deps m') (k d m h)
          (λ m' h'. install_deps-Inv install deps m' k h'))
  ]

  install_payload-Inv :
      (name : List ℕ) (meta : Meta) (m : Machine W)
      → IsSafe name
      → Inv m.world
      → Inv (install_payload host name meta m).1.world
  unfolding install_payload
  install_payload-Inv name meta m s h =
      let pre = kept.pre_keeps name m.world s h in
      let copies = install_files-Inv name meta.files (host.pre_script name m.world) s pre in
      elim (Bool-cases (install_files host name meta.files (host.pre_script name m.world)).0) [
        | inl copied ↦ rw copied (kept.post_keeps name _ s copies)
        | inr failed ↦ rw failed copies
      ]

  install_meta-Inv :
      (install : List ℕ → Machine W → Option (ℕ × Machine W)) (name : List ℕ) (p : Bool × Meta)
      (m : Machine W)
      → Keeps install
      → IsSafe name
      → Inv m.world
      → After Inv (install_meta host install name p m)
  unfolding install_meta
  install_meta-Inv install name (false, meta) m k s h = h
  install_meta-Inv install name (true, meta) m k s h =
      let no_key : (host.has_key m.world && not (meta_verify_sig meta)) ≡ false = ground arith in
      rw no_key (
        After-and_then (install_deps host install meta.deps m)
          (λ m'. some (install_payload host name meta m'))
          (install_deps-Inv install meta.deps m k h)
          (λ m' h'. install_payload-Inv name meta m' s h'))

  install_package-Inv :
      (install : List ℕ → Machine W → Option (ℕ × Machine W)) (name : List ℕ) (m : Machine W)
      → Keeps install
      → IsSafe name
      → Inv m.world
      → After Inv (install_package host install name m)
  unfolding install_package
  install_package-Inv install name m k s h =
      let fetched = kept.fetch_keeps name m.world s h in
      let extracted = kept.extract_keeps name (host.fetch name m.world).1 s fetched in
      elim (Bool-cases (host.fetch name m.world).0) [
        | inr no' ↦ rw (After, no') fetched
        | inl yes' ↦ elim (Bool-cases (host.extract name (host.fetch name m.world).1).0) [
          | inr torn ↦ rw (After, yes', torn) extracted
          | inl whole ↦ rw (After, yes', whole) (install_meta-Inv install name _ _ k s extracted)
        ]
      ]

  install_argument-Inv :
      (install : List ℕ → Machine W → Option (ℕ × Machine W))
      → Keeps install
      → Keeps (install_argument host install)
  unfolding install_argument
  install_argument-Inv install k arg m h = elim (Option-cases (name_argument arg)) [
    | inl bad ↦ rw (After, bad) h
    | inr (name, good) ↦ elim (Bool-cases (db_pkg_installed name m.db)) [
      | inl there ↦ rw (After, good, there) h
      | inr needed ↦
          rw (After, good, needed)
            (install_package-Inv install name m k (name_argument-IsSafe arg name good) h)
    ]
  ]

  install_arguments-Inv :
      (install : List ℕ → Machine W → Option (ℕ × Machine W)) (argv : List (List ℕ)) (m : Machine W)
      → Keeps install
      → Inv m.world
      → After Inv (install_arguments host install argv m)
  unfolding install_arguments
  install_arguments-Inv install [] m k h = h
  install_arguments-Inv install (arg ∷ argv) m k h =
      After-and_then (install_argument host install arg m)
        (λ m'. install_arguments host install argv m') (install_argument-Inv install k arg m h)
        (λ m' h'. install_arguments-Inv install argv m' k h')

  -- Whatever the shell commands keep when the names are at most 63 letters, digits, dots, dashes and underscores and
  -- the copied files have relative paths with no "..", that `cmd_install` keeps, for all packages: it holds of the
  -- world in which `cmd_install` comes back. Of a call that is not back within the depth nothing is said.
  pub cmd_install-Inv :
      (depth : ℕ) (argv : List (List ℕ)) (m : Machine W)
      → Inv m.world
      → After Inv (cmd_install host depth argv m)
  unfolding cmd_install
  cmd_install-Inv zero argv m h = tt
  cmd_install-Inv (suc depth) [] m h = h
  cmd_install-Inv (suc depth) (arg ∷ argv) m h =
      install_arguments-Inv (λ d m'. cmd_install host depth (d ∷ []) m') (arg ∷ argv) m
        (λ d m' h'. cmd_install-Inv depth (d ∷ []) m' h') h
