-- ===== src/Package/Install/Cycle.antt =====
-- tools/hbpkg.c: packages that depend on one another in a circle.
use mellivora_os.Base.{
  ℕ, zero, suc, ◌≡◌, refl, ap, ◌∙◌, Bool, true, false, ◌&&◌, not, Option, none, some, List, [], ◌∷◌,
  arith,
}
use mellivora_os.Package.Database.{Meta, db_pkg_installed}
use mellivora_os.Package.Meta.{meta_parse_toml, empty_meta}
use mellivora_os.Package.Install.{
  Host, Machine, and_then, name_argument, install_deps, install_meta, install_package,
  install_argument, install_arguments, cmd_install, meta_verify_sig,
}

-- Whatever the world is like, the package of an argument in the set is not installed, it comes and unpacks, and its
-- first dependency is in the set again.
pub record Circle {W : Type 0} (host : Host W) (db : Option (List ℕ)) (In : List ℕ → Type 0)
    : Type 0 where
  pub name_in : (arg : List ℕ) → In arg → List ℕ
  pub next_in : (arg : List ℕ) → In arg → List ℕ
  pub others_in : (arg : List ℕ) → In arg → W → List (List ℕ)
  pub named : (arg : List ℕ) (i : In arg) → name_argument arg ≡ some (name_in arg i)
  pub missing : (arg : List ℕ) (i : In arg) → db_pkg_installed (name_in arg i) db ≡ false
  pub comes : (arg : List ℕ) (i : In arg) (w : W) → (host.fetch (name_in arg i) w).0 ≡ true
  pub unpacks : (arg : List ℕ) (i : In arg) (w : W) → (host.extract (name_in arg i) w).0 ≡ true
  pub parses :
      (arg : List ℕ) (i : In arg) (w : W)
      → (meta_parse_toml (host.meta_file (name_in arg i) w) empty_meta).0 ≡ true
  pub depends :
      (arg : List ℕ) (i : In arg) (w : W)
      → (meta_parse_toml (host.meta_file (name_in arg i) w) empty_meta).1.deps
        ≡ next_in arg i ∷ others_in arg i w
  pub next_missing : (arg : List ℕ) (i : In arg) → db_pkg_installed (next_in arg i) db ≡ false
  pub again : (arg : List ℕ) (i : In arg) → In (next_in arg i)

module _ {W : Type 0} (host : Host W) where
  -- A call that does not come back makes its caller not come back.
  deps_stuck :
      (install : List ℕ → Machine W → Option (ℕ × Machine W)) (d : List ℕ) (deps : List (List ℕ))
      (m : Machine W)
      → db_pkg_installed d m.db ≡ false
      → install d m ≡ none
      → install_deps host install (d ∷ deps) m ≡ none
  unfolding install_deps and_then
  deps_stuck install d deps m h e = rw (h, e) refl

  meta_stuck :
      (install : List ℕ → Machine W → Option (ℕ × Machine W)) (name d : List ℕ)
      (deps : List (List ℕ)) (p : Bool × Meta) (m : Machine W)
      → p.0 ≡ true
      → p.1.deps ≡ d ∷ deps
      → db_pkg_installed d m.db ≡ false
      → install d m ≡ none
      → install_meta host install name p m ≡ none
  unfolding install_meta and_then
  meta_stuck install name d deps (false, meta) m t l h e = absurd (cc)
  meta_stuck install name d deps (true, meta) m t l h e =
      let no_key : (host.has_key m.world && not (meta_verify_sig meta)) ≡ false = ground arith in
      rw (no_key, l, deps_stuck install d deps m h e) refl

  package_stuck :
      (install : List ℕ → Machine W → Option (ℕ × Machine W)) (db : Option (List ℕ))
      (In : List ℕ → Type 0) (c : Circle host db In) (arg : List ℕ) (i : In arg) (m : Machine W)
      → m.db ≡ db
      → ((m' : Machine W) → m'.db ≡ db → install (c.next_in arg i) m' ≡ none)
      → install_package host install (c.name_in arg i) m ≡ none
  unfolding install_package
  package_stuck install db In c arg i m e k =
      let missing = ap (db_pkg_installed (c.next_in arg i)) e ∙ c.next_missing arg i in
      rw
        (
          install_package,
          c.comes arg i m.world,
          c.unpacks arg i (host.fetch (c.name_in arg i) m.world).1,
        )
        (meta_stuck install (c.name_in arg i) (c.next_in arg i) _ _ _ (c.parses arg i _)
          (c.depends arg i _) missing (k _ e))

  argument_stuck :
      (install : List ℕ → Machine W → Option (ℕ × Machine W)) (arg name : List ℕ) (m : Machine W)
      → name_argument arg ≡ some name
      → db_pkg_installed name m.db ≡ false
      → install_package host install name m ≡ none
      → install_argument host install arg m ≡ none
  unfolding install_argument
  argument_stuck install arg name m n h e = rw (install_argument, n, h) e

  -- Take a set of arguments such that the package of each has a name that is accepted, is not installed, is fetched,
  -- unpacked and parsed in whatever state the world is, and has as its first dependency, the same in each such state,
  -- an argument of the set, the text of which is not installed either. Then `cmd_install` of an argument of the
  -- set on a machine with this database does not come back, however deep the calls may nest.
  pub cmd_install-Circle :
      (db : Option (List ℕ)) (In : List ℕ → Type 0)
      → Circle host db In
      → (depth : ℕ) (arg : List ℕ) (m : Machine W) → In arg
      → m.db ≡ db
      → cmd_install host depth (arg ∷ []) m ≡ none
  unfolding cmd_install install_arguments and_then
  cmd_install-Circle db In c zero arg m i e = refl
  cmd_install-Circle db In c (suc depth) arg m i e =
      let missing : db_pkg_installed (c.name_in arg i) m.db ≡ false =
        ap (db_pkg_installed (c.name_in arg i)) e ∙ c.missing arg i in
      let stuck =
        argument_stuck (λ d m'. cmd_install host depth (d ∷ []) m') arg (c.name_in arg i) m
          (c.named arg i) missing
          (package_stuck (λ d m'. cmd_install host depth (d ∷ []) m') db In c arg i m e
            (λ m' e'. cmd_install-Circle db In c depth (c.next_in arg i) m' (c.again arg i) e')) in
      ap (λ r. and_then r (λ m'. some (0, m'))) stuck
