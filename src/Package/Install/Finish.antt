-- ===== src/Package/Install/Finish.antt =====
-- tools/hbpkg.c: when an installation comes to its end.
use mellivora_os.Base.{
  ℕ, zero, suc, ◌<◌, ◌≡◌, refl, ◌≢◌, inl, inr, Bool, true, false, ◌&&◌, not, Option, none, some,
  List, [], ◌∷◌, arith, Bool-cases, Option-cases, All,
}
use mellivora_os.Package.Database.{Meta, db_pkg_installed}
use mellivora_os.Package.Meta.{meta_parse_toml, empty_meta}
use mellivora_os.Package.Install.{
  Host, Machine, and_then, name_argument, install_deps, install_payload, install_meta,
  install_package, install_argument, install_arguments, cmd_install, meta_verify_sig,
}

-- The call is back.
abbrev pub IsBack : {W : Type 0} → Option (ℕ × Machine W) → Type 0
IsBack r = r ≢ none

module _ {W : Type 0} (host : Host W) (rank : List ℕ → ℕ) where
  -- The dependencies that a package's meta.toml may name, whenever it is read, have a lower rank.
  abbrev pub Ranked : Type 0
  Ranked =
      (arg name : List ℕ) (w : W)
      → name_argument arg ≡ some name
      → All (λ d. rank d < rank arg) (meta_parse_toml (host.meta_file name w) empty_meta).1.deps

  IsBack-and_then :
      (r : Option (ℕ × Machine W)) (next : Machine W → Option (ℕ × Machine W))
      → IsBack r
      → ((m : Machine W) → IsBack (next m))
      → IsBack (and_then r next)
  unfolding and_then
  IsBack-and_then none next h k = absurd (h refl)
  IsBack-and_then (some (zero, m)) next h k = k m
  IsBack-and_then (some (suc code, m)) next h k = λ e. cc

  -- A call that is back for what has a rank below `n`.
  abbrev Backs : ℕ → (List ℕ → Machine W → Option (ℕ × Machine W)) → Type 0
  Backs n install = (d : List ℕ) (m : Machine W) → rank d < n → IsBack (install d m)

  install_deps-IsBack :
      (install : List ℕ → Machine W → Option (ℕ × Machine W)) (n : ℕ) (deps : List (List ℕ))
      (m : Machine W)
      → Backs n install
      → All (λ d. rank d < n) deps
      → IsBack (install_deps host install deps m)
  unfolding install_deps
  install_deps-IsBack install n [] m k h = λ e. cc
  install_deps-IsBack install n (d ∷ deps) m k h = elim (Bool-cases (db_pkg_installed d m.db)) [
    | inl there ↦ rw there (install_deps-IsBack install n deps m k h.1)
    | inr needed ↦ rw needed (
        IsBack-and_then (install d m) (λ m'. install_deps host install deps m') (k d m h.0)
          (λ m'. install_deps-IsBack install n deps m' k h.1))
  ]

  install_meta-IsBack :
      (install : List ℕ → Machine W → Option (ℕ × Machine W)) (n : ℕ) (name : List ℕ)
      (p : Bool × Meta) (m : Machine W)
      → Backs n install
      → All (λ d. rank d < n) p.1.deps
      → IsBack (install_meta host install name p m)
  unfolding install_meta
  install_meta-IsBack install n name (false, meta) m k h = λ e. cc
  install_meta-IsBack install n name (true, meta) m k h =
      let no_key : (host.has_key m.world && not (meta_verify_sig meta)) ≡ false = ground arith in
      rw no_key (
        IsBack-and_then (install_deps host install meta.deps m)
          (λ m'. some (install_payload host name meta m'))
          (install_deps-IsBack install n meta.deps m k h) (λ m' e. cc))

  install_package-IsBack :
      (install : List ℕ → Machine W → Option (ℕ × Machine W)) (arg name : List ℕ) (m : Machine W)
      → Ranked
      → Backs (rank arg) install
      → name_argument arg ≡ some name
      → IsBack (install_package host install name m)
  unfolding install_package
  install_package-IsBack install arg name m r k good =
      elim (Bool-cases (host.fetch name m.world).0) [
        | inr no' ↦ rw (install_package, no') (λ e. cc)
        | inl yes' ↦ elim (Bool-cases (host.extract name (host.fetch name m.world).1).0) [
          | inr torn ↦ rw (install_package, yes', torn) (λ e. cc)
          | inl whole ↦
              rw (install_package, yes', whole)
                (install_meta-IsBack install (rank arg) name _ _ k (r arg name _ good))
        ]
      ]

  install_argument-IsBack :
      (install : List ℕ → Machine W → Option (ℕ × Machine W)) (arg : List ℕ) (m : Machine W)
      → Ranked
      → Backs (rank arg) install
      → IsBack (install_argument host install arg m)
  unfolding install_argument
  install_argument-IsBack install arg m r k = elim (Option-cases (name_argument arg)) [
    | inl bad ↦ rw (install_argument, bad) (λ e. cc)
    | inr (name, good) ↦ elim (Bool-cases (db_pkg_installed name m.db)) [
      | inl there ↦ rw (install_argument, good, there) (λ e. cc)
      | inr needed ↦
          rw (install_argument, good, needed) (install_package-IsBack install arg name m r k good)
    ]
  ]

  -- Where the dependencies of every package have a lower rank than it, in any state of the world, `cmd_install` of a
  -- package comes back, with at most `rank` calls inside one another below the first.
  pub cmd_install-IsBack :
      (depth : ℕ) (arg : List ℕ) (m : Machine W)
      → Ranked
      → rank arg < depth
      → IsBack (cmd_install host depth (arg ∷ []) m)
  unfolding cmd_install install_arguments
  cmd_install-IsBack zero arg m r h = absurd (omega (arith, h))
  cmd_install-IsBack (suc depth) arg m r h =
      IsBack-and_then (install_argument host (λ d m'. cmd_install host depth (d ∷ []) m') arg m)
        (λ m'. some (0, m'))
        (install_argument-IsBack (λ d m'. cmd_install host depth (d ∷ []) m') arg m r
          (λ d m' k. cmd_install-IsBack depth d m' r (omega (arith, h, k))))
        (λ m' e. cc)
