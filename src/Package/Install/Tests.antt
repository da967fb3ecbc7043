-- ===== src/Package/Install/Tests.antt =====
-- tools/hbpkg.c: installations on a host with a few packages.
use mellivora_os.Base.{
  ℕ, ◌+◌, ◌≡◌, refl, ap, ◌∙◌, inl, inr, true, Option, none, some, List, [], ◌∷◌, ◌++◌, arith,
  if◌then◌else◌, Bool-cases, All,
}
use mellivora_os.Base.Texts.{codes}
use mellivora_os.Package.Database.{same_text, db_pkg_installed, db_pkg_get}
use mellivora_os.Package.Meta.{
  meta_parse_toml, empty_meta, lines_of, read_line, parse_lines, parse_line, cut_line, split, trim,
  skip_spaces, strip_trailing, unquote, before_quote, assign, items, next_item, item_end,
  skip_separators,
}
use mellivora_os.Package.Name.{sanitise_name, copy_name}
use mellivora_os.Package.Install.{
  split_argument, Host, Machine, name_argument, cmd_install, split_argument, sanitise_name,
}
use mellivora_os.Package.Install.Laws.{StaysInside, Kept, After, cmd_install-Inv}
use mellivora_os.Package.Install.Finish.{IsBack, Ranked, cmd_install-IsBack}
use mellivora_os.Package.Install.Cycle.{Circle, cmd_install-Circle}

abbrev file : List ℕ → List ℕ → List ℕ
file name deps =
    codes "name = "
    ++ (name ++ (10 ∷ (codes "version = 1" ++ (10 ∷ (codes "deps = [" ++ (deps ++ codes "]"))))))

-- The shell needs libc, and every other package nothing.
abbrev shell_or_not : List ℕ → List ℕ
shell_or_not name =
    if same_text name (codes "sh")
    then file (codes "sh") (codes "\"libc\"")
    else file (codes "libc") []

-- The world is the number of the commands so far.
abbrev host_of : (List ℕ → List ℕ) → Host ℕ
host_of meta = record {
  fetch = λ name w. (true, w + 1);
  extract = λ name w. (true, w + 1);
  meta_file = λ name w. some (meta name);
  pre_script = λ name w. w + 1;
  post_script = λ name w. w + 1;
  copy_file = λ name f w. (true, w + 1);
  has_key = λ w. true;
  opens_db = λ w. true;
  db_written = λ w. 256;
  date = λ w. codes "2024-01-01T00:00:00Z";
}

abbrev fresh : Machine ℕ
fresh = record { world = 0; db = none }

-- The shell and libc are installed with four commands each.
abbrev outcome : Option (ℕ × Machine ℕ) → List ℕ
outcome none = []
outcome (some (code, m)) =
    code ∷ (m.world ∷ ((if db_pkg_installed (codes "libc") m.db then 1 else 0) ∷ []))

abbrev name_rank : Option (List ℕ) → ℕ
name_rank none = 0
name_rank (some name) = if same_text name (codes "sh") then 1 else 0

-- The rank of an argument.
abbrev rank_of : List ℕ → ℕ
rank_of arg = name_rank (name_argument arg)

sh_deps :
    (meta_parse_toml (some (file (codes "sh") (codes "\"libc\""))) empty_meta).1.deps
    ≡ codes "libc" ∷ []
unfolding meta_parse_toml lines_of read_line parse_lines parse_line cut_line split trim skip_spaces
    strip_trailing unquote before_quote assign items next_item item_end skip_separators same_text
sh_deps = refl

libc_deps : (meta_parse_toml (some (file (codes "libc") [])) empty_meta).1.deps ≡ []
unfolding meta_parse_toml lines_of read_line parse_lines parse_line cut_line split trim skip_spaces
    strip_trailing unquote before_quote assign items next_item item_end skip_separators same_text
libc_deps = refl

libc_rank : rank_of (codes "libc") ≡ 0
unfolding name_argument split_argument split sanitise_name copy_name same_text
libc_rank = refl

sh_rank : rank_of (codes "sh") ≡ 1
unfolding name_argument split_argument split sanitise_name copy_name same_text
sh_rank = refl

a_name : name_argument (codes "a") ≡ some (codes "a")
unfolding name_argument split_argument split sanitise_name copy_name
a_name = refl

shell-Ranked : Ranked (host_of shell_or_not) rank_of
shell-Ranked arg name w e = elim (Bool-cases (same_text name (codes "sh"))) [
  | inl yes' ↦
      let high : rank_of arg ≡ 1 = ap name_rank e ∙ ap (λ b. if b then 1 else 0) yes' in
      let low = libc_rank in rw (yes', sh_deps) (omega (arith, high, low), tt)
  | inr no' ↦ rw (no', libc_deps) tt
]

cmd_install-IsBack_example : IsBack (cmd_install (host_of shell_or_not) 2 (codes "sh" ∷ []) fresh)
cmd_install-IsBack_example =
    cmd_install-IsBack (host_of shell_or_not) rank_of 2 (codes "sh") fresh shell-Ranked
      (let low = sh_rank in omega (arith, low))

-- The world is the files that were copied.
abbrev logging : Host (List (List ℕ))
logging = record {
  fetch = λ name w. (true, w);
  extract = λ name w. (true, w);
  meta_file = λ name w. some (shell_or_not name ++ (10 ∷ codes "files = [\"bin/sh\", \"../x\"]"));
  pre_script = λ name w. w;
  post_script = λ name w. w;
  copy_file = λ name f w. (true, f ∷ w);
  has_key = λ w. true;
  opens_db = λ w. true;
  db_written = λ w. 256;
  date = λ w. codes "2024-01-01T00:00:00Z";
}

logging-Kept : Kept logging (All StaysInside)
logging-Kept = record {
  fetch_keeps = λ name w s h. h;
  extract_keeps = λ name w s h. h;
  pre_keeps = λ name w s h. h;
  post_keeps = λ name w s h. h;
  copy_keeps = λ name f w s i h. (i, h);
}

cmd_install-Inv_example :
    After
      (All StaysInside)
      (cmd_install logging 3 (codes "sh" ∷ []) (record { world = []; db = none }))
cmd_install-Inv_example =
    cmd_install-Inv logging (All StaysInside) logging-Kept 3 (codes "sh" ∷ [])
      (record { world = []; db = none }) tt

-- A package that needs itself.
abbrev selfish : List ℕ → List ℕ
selfish name = file name (codes "\"a\"")

abbrev IsA : List ℕ → Type 0
IsA arg = arg ≡ codes "a"

selfish-Circle : Circle (host_of selfish) none IsA
unfolding meta_parse_toml lines_of read_line parse_lines parse_line cut_line split trim skip_spaces
    strip_trailing unquote before_quote assign items next_item item_end skip_separators same_text
    db_pkg_get
selfish-Circle = record {
  name_in = λ arg i. codes "a";
  next_in = λ arg i. codes "a";
  others_in = λ arg i w. [];
  named = λ arg i. ap name_argument i ∙ a_name;
  missing = λ arg i. refl;
  comes = λ arg i w. refl;
  unpacks = λ arg i w. refl;
  parses = λ arg i w. refl;
  depends = λ arg i w. refl;
  next_missing = λ arg i. refl;
  again = λ arg i. refl;
}

cmd_install-Circle_example : cmd_install (host_of selfish) 100 (codes "a" ∷ []) fresh ≡ none
cmd_install-Circle_example =
    cmd_install-Circle (host_of selfish) none IsA selfish-Circle 100 (codes "a") fresh refl refl
