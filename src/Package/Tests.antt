-- ===== src/Package/Tests.antt =====
-- tools/hbpkg.c: runs of the package manager, and the theorems at concrete packages.
use mellivora_os.Base.{
  ℕ, ◌≡◌, refl, true, ◌&&◌, ◌||◌, not, none, some, List, [], ◌∷◌, arith, ◌==◌, if◌then◌else◌,
  length, take,
}
use mellivora_os.Base.Texts.{codes}
use mellivora_os.Str.Compare.Order.{sign}
use mellivora_os.Package.Name.{sanitise_name, copy_name}
use mellivora_os.Package.Name.Laws.{sanitise_name_lem, all_allowed}
use mellivora_os.Package.Version.{Semver, semver_cmp}
use mellivora_os.Package.Version.Laws.{IsSmall, precedence, sign-semver_cmp}
use mellivora_os.Package.Database.{
  Meta, record_of, same_text, db_pkg_installed, db_pkg_add, db_pkg_remove,
}
use mellivora_os.Package.Database.Records.{contents, AreRecords, length-record_of}
use mellivora_os.Package.Database.Laws.{installed-db_pkg_add, installed-db_pkg_remove}
use mellivora_os.Package.Digest.{
  sha256_hex, padded, pad_total, big_endian, process_blocks, process_block, rounds, round, schedule,
  schedule_word, words, rotate, hex_of, hex_digits,
}
use mellivora_os.Package.Digest.Padding.{IsPadded, padded-IsPadded}
use mellivora_os.Package.Meta.{meta_parse_toml, empty_meta}
use mellivora_os.Package.Meta.Print.{
  print_meta, WellFormed, array_items, IsItem, more_items, quoted,
}
use mellivora_os.Package.Meta.Laws.{meta_parse_toml-print_meta, is_line_lem, is_line}

sanitise_name_lem_example : sanitise_name (codes "gcc-13") 64 ≡ (
    if not (length (codes "gcc-13") == 0) && all_allowed (take 63 (codes "gcc-13"))
    then some (take 63 (codes "gcc-13"))
    else none)
sanitise_name_lem_example = sanitise_name_lem (codes "gcc-13") 64 (ground arith)

-- A semicolon is refused.
name_refused : sanitise_name (codes "a;b") 64 ≡ none
unfolding sanitise_name copy_name
name_refused = refl

abbrev release : Semver
release = record { major = 1; minor = 2; patch = 3; pre = [] }

abbrev alpha : Semver
alpha = record { major = 1; minor = 2; patch = 3; pre = codes "alpha" }

release-IsSmall : IsSmall release
release-IsSmall = record {
  major_small = ground arith;
  minor_small = ground arith;
  patch_small = ground arith;
  text = tt;
}

alpha-IsSmall : IsSmall alpha
alpha-IsSmall = record {
  major_small = ground arith;
  minor_small = ground arith;
  patch_small = ground arith;
  text = ground arith;
}

-- A release is newer than its pre-release.
sign-semver_cmp_example : sign (semver_cmp release alpha) ≡ precedence release alpha
sign-semver_cmp_example = sign-semver_cmp release alpha release-IsSmall alpha-IsSmall

-- The test vector of the standard.
sha256_run :
    sha256_hex true (codes "abc")
    ≡ codes "ba7816bf8f01cfea414140de5dae2223b00361a396177a9cb410ff61f20015ad"
unfolding sha256_hex padded pad_total big_endian process_blocks process_block rounds round schedule
    schedule_word words rotate hex_of hex_digits
sha256_run = refl

padded-IsPadded_example : IsPadded (codes "abc") (padded (codes "abc"))
padded-IsPadded_example = padded-IsPadded (codes "abc")

abbrev shell : Meta
shell = record {
  name = codes "shell";
  version = codes "1.0";
  description = codes "a = \"b\"";
  author = [];
  license = codes "MIT";
  arch = codes "any";
  deps = codes "libc" ∷ (codes "libm" ∷ []);
  files = codes "bin/sh" ∷ [];
}

libc-IsItem : IsItem 64 (codes "libc")
unfolding is_line
libc-IsItem = record {
  short = ground arith;
  no_quote = ground arith;
  line = is_line_lem (codes "libc") refl;
}

libm-IsItem : IsItem 64 (codes "libm")
unfolding is_line
libm-IsItem = record {
  short = ground arith;
  no_quote = ground arith;
  line = is_line_lem (codes "libm") refl;
}

sh-IsItem : IsItem 256 (codes "bin/sh")
unfolding is_line
sh-IsItem = record {
  short = ground arith;
  no_quote = ground arith;
  line = is_line_lem (codes "bin/sh") refl;
}

shell-WellFormed : WellFormed shell
unfolding is_line array_items more_items quoted
shell-WellFormed = record {
  name_fits = record { short = ground arith; line = is_line_lem shell.name refl };
  name_there = ground arith;
  version_fits = record { short = ground arith; line = is_line_lem shell.version refl };
  version_there = ground arith;
  description_fits = record { short = ground arith; line = is_line_lem shell.description refl };
  author_fits = record { short = ground arith; line = tt };
  license_fits = record { short = ground arith; line = is_line_lem shell.license refl };
  arch_fits = record { short = ground arith; line = is_line_lem shell.arch refl };
  deps_fit = (libc-IsItem, (libm-IsItem, tt));
  few_deps = ground arith;
  deps_line = ground arith;
  files_fit = (sh-IsItem, tt);
  few_files = ground arith;
  files_line = ground arith;
}

meta_parse_toml-print_meta_example :
    meta_parse_toml (some (print_meta shell)) empty_meta ≡ (true, shell)
meta_parse_toml-print_meta_example = meta_parse_toml-print_meta shell shell-WellFormed

abbrev installed : List (List ℕ)
installed = record_of (codes "2024-01-01T00:00:00Z") shell ∷ []

installed-AreRecords : AreRecords installed
installed-AreRecords = (length-record_of (codes "2024-01-01T00:00:00Z") shell, tt)

installed-db_pkg_add_example :
    db_pkg_installed (codes "shell") (db_pkg_add true 256 [] shell (some (contents installed))).1
    ≡ (db_pkg_installed (codes "shell") (some (contents installed))
        || same_text (codes "shell") (codes "shell"))
installed-db_pkg_add_example =
    installed-db_pkg_add [] (codes "shell") shell installed installed-AreRecords ground arith

installed-db_pkg_remove_example :
    ((db_pkg_remove true (λ b. none) (codes "shell") (some (contents installed))).0
      ≡ db_pkg_installed (codes "shell") (some (contents installed)))
    × (db_pkg_installed
          (codes "ed")
          (db_pkg_remove true some (codes "shell") (some (contents installed))).1
        ≡ (db_pkg_installed (codes "ed") (some (contents installed))
            && not (same_text (codes "shell") (codes "ed"))))
    × ((db_pkg_remove true (λ b. none) (codes "shell") (some (contents installed))).1
        ≡ some (contents installed))
installed-db_pkg_remove_example =
    installed-db_pkg_remove (λ b. none) (codes "ed") (codes "shell") installed installed-AreRecords
