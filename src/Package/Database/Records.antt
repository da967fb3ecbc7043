-- ===== src/Package/Database/Records.antt =====
-- tools/hbpkg.c: the file of the installed packages as a list of records.
use mellivora_os.Package.Database.{
  Meta, field, fields_after, record_of, deps_text, records, table, until_nul, name_of,
}
use mellivora_os.Base.{
  take_zero, ℕ, zero, suc, ◌+◌, ◌-◌, ◌≤◌, ◌<◌, ◌≡◌, refl, sym, ap, ◌∙◌, subst, false, List, [], ◌∷◌,
  ◌++◌, append_assoc, arith, ltb, ◌==◌, length, length-append, take, drop, replicate, length-take,
  length-replicate, All, drop-append_length,
}

-- One record behind the other.
unfoldable pub contents : List (List ℕ) → List ℕ
contents [] = []
contents (rec ∷ l) = rec ++ contents l

abbrev pub AreRecords : List (List ℕ) → Type 0
AreRecords l = All (λ rec. length rec ≡ 256) l

take-append_length : (a b : List ℕ) (n : ℕ) → length a ≡ n → take n (a ++ b) ≡ a
take-append_length [] b zero e = take_zero b
take-append_length [] b (suc n) e = absurd (omega (arith, e))
take-append_length (x ∷ a) b zero e = absurd (omega (arith, e))
take-append_length (x ∷ a) b (suc n) e =
    ap (λ l. x ∷ l) (take-append_length a b n (omega (arith, e)))

drop_append : (a b : List ℕ) (n : ℕ) → length a ≡ n → drop n (a ++ b) ≡ b
drop_append a b n e = subst (λ m. drop m (a ++ b) ≡ b) e (drop-append_length a b)

pub records-contents :
    (l : List (List ℕ)) (fuel : ℕ) → AreRecords l → length l ≤ fuel → records fuel (contents l) ≡ l
unfolding contents records
records-contents [] zero h k = refl
records-contents [] (suc fuel) h k = refl
records-contents (rec ∷ l) zero h k = absurd (omega arith)
records-contents (rec ∷ l) (suc fuel) h k =
    let longer = length-append rec (contents l) in
    let size = h.0 in
    let whole : ltb (length (rec ++ contents l)) 256 ≡ false = ground (arith, longer, size) in
    rw (whole, take-append_length rec (contents l) 256 h.0, drop_append rec (contents l) 256 h.0)
      (ap (λ r. rec ∷ r) (records-contents l fuel h.1 (omega arith)))

pub length-contents : (l : List (List ℕ)) → AreRecords l → length l ≤ length (contents l)
unfolding contents
length-contents [] h = omega arith
length-contents (rec ∷ l) h =
    let size = h.0 in
    let rest = length-contents l h.1 in
    let longer = length-append rec (contents l) in omega (arith, size, rest, longer)

-- The records of a file that is made of whole records are these.
pub table-contents : (l : List (List ℕ)) → AreRecords l → table (contents l) ≡ l
table-contents l h = records-contents l (length (contents l)) h (length-contents l h)

pub contents-append : (l r : List (List ℕ)) → contents (l ++ r) ≡ contents l ++ contents r
unfolding contents
contents-append [] r = refl
contents-append (rec ∷ l) r =
    ap (λ b. rec ++ b) (contents-append l r) ∙ sym (append_assoc rec (contents l) (contents r))

length-field : (n : ℕ) (s : List ℕ) → 0 < n → length (field n s) ≡ n
unfolding field
length-field n s h =
    let cut = length-take (n - 1) s in
    let nul : ℕ = 0 in
    let zeros = length-replicate (n - length (take (n - 1) s)) nul in
    let sum = length-append (take (n - 1) s) (replicate (n - length (take (n - 1) s)) 0) in
    ground (arith, cut, zeros, sum)

sum_length : (a b : List ℕ) (m n : ℕ) → length a ≡ m → length b ≡ n → length (a ++ b) ≡ m + n
sum_length a b m n e f = let sum = length-append a b in omega (arith, sum, e, f)

-- A field has a 0 behind the text.
field_nul :
    (n : ℕ) (s : List ℕ)
    → 0 < n
    → field n s ≡ take (n - 1) s ++ (0 ∷ replicate (n - 1 - length (take (n - 1) s)) 0)
unfolding field
field_nul n s h =
    let cut = length-take (n - 1) s in
    let nul : ℕ = 0 in
    ap (λ k. take (n - 1) s ++ replicate k nul)
      (let e : n - length (take (n - 1) s) ≡ suc (n - 1 - length (take (n - 1) s)) =
          ground (arith, cut) in
        e)

pub length-record_of :
    (install_date : List ℕ) (meta : Meta) → length (record_of install_date meta) ≡ 256
unfolding record_of
length-record_of d meta =
    sum_length (field 64 meta.name) (fields_after d meta) 64 192
      (length-field 64 meta.name (omega arith))
      (sum_length (field 32 meta.version) _ 32 160 (length-field 32 meta.version (omega arith)) (
        sum_length (field 32 meta.description) _ 32 128
          (length-field 32 meta.description (omega arith))
          (sum_length (field 64 (deps_text (take 32 meta.deps))) _ 64 64
            (length-field 64 (deps_text (take 32 meta.deps)) (omega arith))
            (sum_length (field 32 d) _ 32 32 (length-field 32 d (omega arith)) refl))))

until_nul-zeros : (s r : List ℕ) → All (λ c. 0 < c) s → until_nul (s ++ (0 ∷ r)) ≡ s
unfolding until_nul
until_nul-zeros [] r h = refl
until_nul-zeros (c ∷ s) r h =
    let real = h.0 in
    let not_nul : (c == 0) ≡ false = ground (arith, real) in
    rw not_nul (ap (λ l. c ∷ l) (until_nul-zeros s r h.1))

All-take : (n : ℕ) (s : List ℕ) → All (λ c. 0 < c) s → All (λ c. 0 < c) (take n s)
All-take zero [] h = tt
All-take zero (c ∷ s) h = tt
All-take (suc n) [] h = tt
All-take (suc n) (c ∷ s) h = (h.0, All-take n s h.1)

pub name_of-record_of :
    (install_date : List ℕ) (meta : Meta)
    → All (λ c. 0 < c) meta.name
    → name_of (record_of install_date meta) ≡ take 63 meta.name
unfolding record_of
name_of-record_of d meta h =
    let rest : List ℕ = replicate (63 - length (take 63 meta.name)) 0 in
    ap (λ f. until_nul (f ++ fields_after d meta)) (field_nul 64 meta.name (omega arith))
    ∙ ap until_nul (append_assoc (take 63 meta.name) (0 ∷ rest) (fields_after d meta))
    ∙ until_nul-zeros (take 63 meta.name) (rest ++ fields_after d meta) (All-take 63 meta.name h)
