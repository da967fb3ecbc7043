-- ===== src/Posix/Ctype.antt =====
-- c/rt/posix.c: the character classes, of a character that is not negative.
use mellivora_os.Base.{ℕ, ◌+◌, ◌-◌, Bool, ◌&&◌, ◌||◌, not, ltb, leb, ◌==◌, if◌then◌else◌}

abbrev pub in_range : ℕ → ℕ → ℕ → Bool
in_range c lo hi = leb lo c && leb c hi

abbrev pub isdigit : ℕ → Bool
isdigit c = in_range c b'0' b'9'

abbrev pub islower : ℕ → Bool
islower c = in_range c b'a' b'z'

abbrev pub isupper : ℕ → Bool
isupper c = in_range c b'A' b'Z'

abbrev pub isalpha : ℕ → Bool
isalpha c = islower c || isupper c

abbrev pub isalnum : ℕ → Bool
isalnum c = isalpha c || isdigit c

abbrev pub isspace : ℕ → Bool
isspace c = c == 32 || c == 9 || c == 10 || c == 11 || c == 12 || c == 13

abbrev pub isprint : ℕ → Bool
isprint c = in_range c 0x20 0x7E

abbrev pub iscntrl : ℕ → Bool
iscntrl c = ltb c 0x20 || c == 0x7F

abbrev pub isxdigit : ℕ → Bool
isxdigit c = isdigit c || in_range c b'a' b'f' || in_range c b'A' b'F'

unfoldable pub ispunct : ℕ → Bool
ispunct c = isprint c && not (isalnum c) && not (isspace c)

unfoldable pub toupper : ℕ → ℕ
toupper c = if islower c then c - b'a' + b'A' else c

unfoldable pub tolower : ℕ → ℕ
tolower c = if isupper c then c - b'A' + b'a' else c
