-- ===== src/Package/Database/Laws.antt =====
-- tools/hbpkg.c: what the operations on the file of the installed packages do to the names.
use mellivora_os.Package.Database.{
  Meta, record_of, table, name_of, same_text, find_record, db_pkg_get, db_pkg_installed, db_pkg_add,
  other_records, db_pkg_remove, Rename,
}
use mellivora_os.Base.{
  ℕ, ◌<◌, ◌≡◌, refl, sym, ap, ◌∙◌, inl, inr, Bool, true, false, ◌&&◌, ◌||◌, not, Option, none, some,
  List, [], ◌∷◌, ◌++◌, append-nil, arith, ◌==◌, if◌then◌else◌, Bool-cases, take, All, length,
}
use mellivora_os.Package.Database.Records.{
  contents, AreRecords, table-contents, contents-append, length-record_of, name_of-record_of,
}

same_text-eq : (a b : List ℕ) → same_text a b ≡ true → a ≡ b
unfolding same_text
same_text-eq [] [] e = refl
same_text-eq [] (y ∷ b) e = absurd (cc)
same_text-eq (x ∷ a) [] e = absurd (cc)
same_text-eq (x ∷ a) (y ∷ b) e = elim (Bool-cases (x == y)) [
  | inl yes' ↦
      let rest : same_text a b ≡ true = ground (arith, e, yes') in
      let same : x ≡ y = ground (arith, yes') in
      ap (λ l. x ∷ l) (same_text-eq a b rest) ∙ ap (λ c. c ∷ b) same
  | inr no' ↦ absurd (ground (arith, e, no'))
]

same_text_refl : (a : List ℕ) → same_text a a ≡ true
unfolding same_text
same_text_refl [] = refl
same_text_refl (x ∷ a) = let e : (x == x) ≡ true = ground arith in rw (e, same_text_refl a) refl

-- Whether a record of the list has the name.
pub has_name : List ℕ → List (List ℕ) → Bool
has_name name [] = false
has_name name (rec ∷ l) = same_text (name_of rec) name || has_name name l

take-length_self : (s : List ℕ) → take (length s) s ≡ s
take-length_self [] = refl
take-length_self (c ∷ s) = ap (λ r. c ∷ r) (take-length_self s)

found : Option (List ℕ) → Bool
found none = false
found (some rec) = true

find_record-has_name :
    (name : List ℕ) (l : List (List ℕ)) → found (find_record name l) ≡ has_name name l
unfolding find_record has_name found
find_record-has_name name [] = refl
find_record-has_name name (rec ∷ l) = elim (Bool-cases (same_text (name_of rec) name)) [
  | inl yes' ↦ rw yes' refl
  | inr no' ↦ rw no' (find_record-has_name name l)
]

-- The name is installed when a record has it.
pub installed-has_name :
    (name : List ℕ) (l : List (List ℕ))
    → AreRecords l
    → db_pkg_installed name (some (contents l)) ≡ has_name name l
unfolding db_pkg_get found
installed-has_name name l h =
    ap (λ rs. found (find_record name rs)) (table-contents l h) ∙ find_record-has_name name l

has_name-append :
    (name : List ℕ) (l r : List (List ℕ))
    → has_name name (l ++ r) ≡ (has_name name l || has_name name r)
unfolding has_name
has_name-append name [] r = refl
has_name-append name (rec ∷ l) r = elim (Bool-cases (same_text (name_of rec) name)) [
  | inl yes' ↦ rw yes' refl
  | inr no' ↦ rw no' (has_name-append name l r)
]

-- The records of the others.
pub without : List ℕ → List (List ℕ) → List (List ℕ)
without name [] = []
without name (rec ∷ l) =
    let rest = without name l in if same_text (name_of rec) name then rest else rec ∷ rest

other_records-without :
    (name : List ℕ) (l : List (List ℕ))
    → other_records name l ≡ (has_name name l, contents (without name l))
unfolding other_records has_name without contents
other_records-without name [] = refl
other_records-without name (rec ∷ l) = elim (Bool-cases (same_text (name_of rec) name)) [
  | inl yes' ↦ rw (yes', other_records-without name l) refl
  | inr no' ↦ rw (no', other_records-without name l) refl
]

absorbed : (i s : Bool) → (i && not s) ≡ ((s || i) && not s)
absorbed true true = refl
absorbed false true = refl
absorbed true false = refl
absorbed false false = refl

and_true : (b : Bool) → (b && true) ≡ b
and_true true = refl
and_true false = refl

or_false : (b : Bool) → (b || false) ≡ b
or_false true = refl
or_false false = refl

-- A record with another name than the one that is left out.
kept :
    (n m name : List ℕ) (i : Bool) {r : Bool}
    → same_text name m ≡ false
    → r ≡ (i && not (same_text m n))
    → (same_text name n || r) ≡ ((same_text name n || i) && not (same_text m n))
kept n m name i no' e = elim (Bool-cases (same_text name n)) [
  | inl yes' ↦ elim (Bool-cases (same_text m n)) [
    | inl same ↦ absurd (
        let eq = same_text-eq name n yes' ∙ sym (same_text-eq m n same) in
        let clash = sym no' ∙ ap (λ a. same_text a m) eq ∙ same_text_refl m in
        ground (arith, clash))
    | inr other ↦ rw (yes', other) refl
  ]
  | inr not_it ↦ rw not_it e
]

has_name-without :
    (n m : List ℕ) (l : List (List ℕ))
    → has_name n (without m l) ≡ (has_name n l && not (same_text m n))
unfolding has_name without
has_name-without n m [] = refl
has_name-without n m (rec ∷ l) = elim (Bool-cases (same_text (name_of rec) m)) [
  | inl yes' ↦
      let name : name_of rec ≡ m = same_text-eq (name_of rec) m yes' in
      rw (yes', name) (has_name-without n m l ∙ absorbed (has_name n l) (same_text m n))
  | inr no' ↦ rw no' (kept n m (name_of rec) (has_name n l) no' (has_name-without n m l))
]

AreRecords-append : (l r : List (List ℕ)) → AreRecords l → AreRecords r → AreRecords (l ++ r)
AreRecords-append [] r h k = k
AreRecords-append (rec ∷ l) r h k = (h.0, AreRecords-append l r h.1 k)

AreRecords-without :
    (name : List ℕ) (l : List (List ℕ)) → AreRecords l → AreRecords (without name l)
unfolding without
AreRecords-without name [] h = tt
AreRecords-without name (rec ∷ l) h = elim (Bool-cases (same_text (name_of rec) name)) [
  | inl yes' ↦ rw yes' (AreRecords-without name l h.1)
  | inr no' ↦ rw no' (h.0, AreRecords-without name l h.1)
]

not_there :
    (n m : List ℕ) (l : List (List ℕ))
    → has_name m l ≡ false
    → has_name n l ≡ (has_name n l && not (same_text m n))
not_there n m l no' = elim (Bool-cases (same_text m n)) [
  | inl same ↦
      let gone : has_name n l ≡ false =
        ap (λ a. has_name a l) (sym (same_text-eq m n same)) ∙ no' in
      rw gone refl
  | inr other ↦ rw other (sym (and_true _))
]

-- What `db_pkg_installed` says of a name after `db_pkg_add` of a package is that the first 63 characters of the
-- package's name are that name, or what it said before, for a file of whole records that can be opened to append to,
-- where all 256 bytes of the record are written.
pub installed-db_pkg_add :
    (install_date name : List ℕ) (meta : Meta) (l : List (List ℕ))
    → AreRecords l
    → All (λ c. 0 < c) meta.name
    → db_pkg_installed name (db_pkg_add true 256 install_date meta (some (contents l))).1
      ≡ (db_pkg_installed name (some (contents l)) || same_text (take 63 meta.name) name)
unfolding db_pkg_add contents has_name
installed-db_pkg_add d name meta l h k =
    let rec : List ℕ = record_of d meta in
    let more : AreRecords (l ++ (rec ∷ [])) =
      AreRecords-append l (rec ∷ []) h (length-record_of d meta, tt) in
    let appended : contents l ++ rec ≡ contents (l ++ (rec ∷ [])) =
      sym (contents-append l (rec ∷ []) ∙ ap (λ b. contents l ++ b) (append-nil rec)) in
    let whole : take 256 rec ≡ rec =
      ap (λ k'. take k' rec) (sym (length-record_of d meta)) ∙ take-length_self rec in
    let added : same_text (name_of rec) name ≡ same_text (take 63 meta.name) name =
      ap (λ n. same_text n name) (name_of-record_of d meta k) in
    ap (λ b. db_pkg_installed name (some b)) (ap (λ r. contents l ++ r) whole ∙ appended)
    ∙ installed-has_name name (l ++ (rec ∷ [])) more
    ∙ has_name-append name l (rec ∷ [])
    ∙ (rw (added, installed-has_name name l h) (ap (λ b. has_name name l || b) (or_false _)))

-- `db_pkg_remove` of a name from a file of whole records, where the temporary file can be opened, says that it went
-- well exactly when the name was installed, whatever the writes and the rename do. If they take effect (the host
-- build, every byte written, the rename succeeds), `db_pkg_installed` says no of that name afterwards and what it
-- said before of every other. If the rename does not, as in any other build, the file stays as it was.
pub installed-db_pkg_remove :
    (rename : Rename) (n m : List ℕ) (l : List (List ℕ))
    → AreRecords l
    → ((db_pkg_remove true rename m (some (contents l))).0 ≡ db_pkg_installed m (some (contents l)))
      × (db_pkg_installed n (db_pkg_remove true some m (some (contents l))).1
          ≡ (db_pkg_installed n (some (contents l)) && not (same_text m n)))
      × ((db_pkg_remove true (λ b. none) m (some (contents l))).1 ≡ some (contents l))
unfolding db_pkg_remove
installed-db_pkg_remove rename n m l h =
    let split : other_records m (table (contents l)) ≡ (has_name m l, contents (without m l)) =
      ap (other_records m) (table-contents l h) ∙ other_records-without m l in
    elim (Bool-cases (has_name m l)) [
      | inl yes' ↦
          rw (split, yes', installed-has_name m l h, yes', installed-has_name n l h)
            (
              refl,
              installed-has_name n (without m l) (AreRecords-without m l h)
                  ∙ has_name-without n m l,
              refl,
            )
      | inr no' ↦
          rw (split, no', installed-has_name m l h, no', installed-has_name n l h)
            (refl, not_there n m l no', refl)
    ]
