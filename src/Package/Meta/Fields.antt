-- ===== src/Package/Meta/Fields.antt =====
-- tools/hbpkg.c: what one line gives, where it is written as the documentation shows.
use mellivora_os.Base.{
  ℕ, ◌-◌, ◌≤◌, ◌<◌, ◌≡◌, refl, ap, false, some, List, [], ◌∷◌, ◌++◌, arith, length, take, All,
}
use mellivora_os.Base.Texts.{codes}
use mellivora_os.Package.Database.{Meta, same_text}
use mellivora_os.Package.Meta.{
  split, skip_spaces, strip_trailing, trim, before_quote, unquote, assign, parse_line, isspace,
  skip_bracket, cons_unless_space,
}
use mellivora_os.Package.Meta.Items.{take_all, items-array_items}
use mellivora_os.Package.Meta.Print.{quoted, more_items, array_items, IsItem, IsField, pair, array}

-- A text that is not empty and has no space at its end.
abbrev Kept : List ℕ → Type 0
Kept s = (0 < length s) × (strip_trailing s ≡ s)

kept_last : (c : ℕ) → isspace c ≡ false → Kept (c ∷ [])
unfolding strip_trailing
kept_last c h = (ground arith, rw h refl)

kept_cons : (x : ℕ) (s : List ℕ) → Kept s → Kept (x ∷ s)
unfolding strip_trailing
kept_cons x [] h = absurd (let some_left = h.0 in omega (arith, some_left))
kept_cons x (y ∷ s) h = (ground arith, ap (cons_unless_space x) h.1)

kept_append : (a s : List ℕ) → Kept s → Kept (a ++ s)
kept_append [] s h = h
kept_append (x ∷ a) s h = kept_cons x (a ++ s) (kept_append a s h)

kept_quoted : (d r : List ℕ) → Kept r → Kept (quoted d r)
unfolding quoted
kept_quoted d r h = kept_cons b'"' _ (kept_append d _ (kept_cons b'"' r h))

before_quote-last : (s : List ℕ) → before_quote (s ++ (b'"' ∷ [])) ≡ some s
unfolding before_quote
before_quote-last [] = refl
before_quote-last (x ∷ []) = refl
before_quote-last (x ∷ (y ∷ s)) = rw (before_quote-last (y ∷ s)) refl

-- The text in quotes behind a key.
value_lem : (v : List ℕ) → unquote (trim (b' ' ∷ quoted v [])) ≡ v
unfolding unquote trim skip_spaces quoted
value_lem v =
    let last' = kept_append v (b'"' ∷ []) (kept_last b'"' refl) in
    rw (last'.1, before_quote-last v) refl

kept_more_items : (l : List (List ℕ)) → Kept (more_items l)
unfolding more_items
kept_more_items [] = kept_last b']' refl
kept_more_items (d ∷ l) =
    kept_cons b',' _ (kept_cons b' ' _ (kept_quoted d (more_items l) (kept_more_items l)))

kept_array_items : (l : List (List ℕ)) → Kept (array_items l)
unfolding array_items
kept_array_items [] = kept_last b']' refl
kept_array_items (d ∷ l) = kept_quoted d (more_items l) (kept_more_items l)

-- The array behind a key.
array_lem :
    (l : List (List ℕ))
    → skip_bracket (unquote (trim (b' ' ∷ (b'[' ∷ array_items l)))) ≡ array_items l
unfolding unquote trim skip_spaces
array_lem l = rw ((kept_array_items l).1) refl

take_fits : (size : ℕ) (s : List ℕ) → IsField size s → take (size - 1) s ≡ s
take_fits size s h = let fits = h.short in take_all s (size - 1) (omega (arith, fits))

-- One line gives its field.
pub name_line :
    (v : List ℕ) (m : Meta)
    → IsField 64 v
    → parse_line (pair (codes "name") v) m ≡ record m { name = v }
unfolding parse_line split trim skip_spaces strip_trailing assign same_text
name_line v m h = rw (value_lem v, take_fits 64 v h) refl

pub version_line :
    (v : List ℕ) (m : Meta)
    → IsField 32 v
    → parse_line (pair (codes "version") v) m ≡ record m { version = v }
unfolding parse_line split trim skip_spaces strip_trailing assign same_text
version_line v m h = rw (value_lem v, take_fits 32 v h) refl

pub description_line :
    (v : List ℕ) (m : Meta)
    → IsField 256 v
    → parse_line (pair (codes "description") v) m ≡ record m { description = v }
unfolding parse_line split trim skip_spaces strip_trailing assign same_text
description_line v m h = rw (value_lem v, take_fits 256 v h) refl

pub author_line :
    (v : List ℕ) (m : Meta)
    → IsField 64 v
    → parse_line (pair (codes "author") v) m ≡ record m { author = v }
unfolding parse_line split trim skip_spaces strip_trailing assign same_text
author_line v m h = rw (value_lem v, take_fits 64 v h) refl

pub license_line :
    (v : List ℕ) (m : Meta)
    → IsField 32 v
    → parse_line (pair (codes "license") v) m ≡ record m { license = v }
unfolding parse_line split trim skip_spaces strip_trailing assign same_text
license_line v m h = rw (value_lem v, take_fits 32 v h) refl

pub arch_line :
    (v : List ℕ) (m : Meta)
    → IsField 16 v
    → parse_line (pair (codes "arch") v) m ≡ record m { arch = v }
unfolding parse_line split trim skip_spaces strip_trailing assign same_text
arch_line v m h = rw (value_lem v, take_fits 16 v h) refl

pub deps_line :
    (l : List (List ℕ)) (m : Meta)
    → All (IsItem 64) l
    → length l ≤ 32
    → m.deps ≡ []
    → parse_line (array (codes "deps") l) m ≡ record m { deps = l }
unfolding parse_line split trim skip_spaces strip_trailing assign same_text
deps_line l m h few e = rw (array_lem l, e, items-array_items 64 l 32 h few) refl

pub files_line :
    (l : List (List ℕ)) (m : Meta)
    → All (IsItem 256) l
    → length l ≤ 1024
    → m.files ≡ []
    → parse_line (array (codes "files") l) m ≡ record m { files = l }
unfolding parse_line split trim skip_spaces strip_trailing assign same_text
files_line l m h few e = rw (array_lem l, e, items-array_items 256 l 1024 h few) refl
