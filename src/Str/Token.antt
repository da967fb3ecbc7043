-- ===== src/Str/Token.antt =====
-- c/rt/string.c: strtok_r and strtok. The string behind `*saveptr` is the list of its bytes, and
-- the nul that is stored behind a token is where the token's list ends.
pub mod Laws
use mellivora_os.Base.{
  ℕ, zero, suc, ◌+◌, ◌-◌, ◌*◌, ◌/◌, ◌%◌, ◌^◌, ◌≤◌, ◌<◌, min, bit_and, bit_or, ◌≡◌, refl, sym, ap,
  ◌∙◌, subst, fun_ext, ◌≢◌, ◌↔◌, ◌⊎◌, inl, inr, Bool, true, false, ◌&&◌, ◌||◌, not, Option, none,
  some, List, [], ◌∷◌, ◌++◌, map, append-nil, append_assoc, arith, dec_lt, ℕ_discrete, ltb, leb,
  ◌==◌, if◌then◌else◌, ltb→lt, lt→ltb, leb→le, ==_iff, tests, Bool-cases, Option-cases, length,
  get_elem?, set, length-append, get_or, take, drop, replicate, take-append-drop, length-take,
  length-drop, length-replicate, length-map, All, All-append, All-drop, drop-append_length, and_ten,
  u8, u16, u32, first, rest_of,
}
use mellivora_os.Str.Span.{strspn, strcspn}

-- The token, or null; and what `*saveptr` is left at.
pub record Step : Type 0 where
  pub token : Option (List ℕ)
  pub save : Option (List ℕ)

-- `*(*saveptr)++ = 0`, or null where the token ends the string.
pub after_token : List ℕ → Option (List ℕ)
after_token [] = none
after_token (c ∷ s) = some s

pub token_at : List ℕ → List ℕ → Step
token_at [] delim = record { token = none; save = none }
token_at (c ∷ s) delim = record {
  token = some (take (strcspn (c ∷ s) delim) (c ∷ s));
  save = after_token (drop (strcspn (c ∷ s) delim) (c ∷ s));
}

pub from_start : Option (List ℕ) → List ℕ → Step
from_start none delim = record { token = none; save = none }
from_start (some start) delim = token_at (drop (strspn start delim) start) delim

unfoldable pub strtok_r : Option (List ℕ) → List ℕ → Option (List ℕ) → Step
unfolding from_start token_at after_token
strtok_r none delim save = from_start save delim
strtok_r (some str) delim save = from_start (some str) delim

-- `strtok` keeps its `saveptr` in `next`.
pub strtok : Option (List ℕ) → List ℕ → Option (List ℕ) → Step
unfolding strtok_r
strtok str delim next = strtok_r str delim next

-- A caller's loop over all tokens; `none` means that the fuel ran out.
pub collect : Option (List ℕ) → Option (List (List ℕ)) → Option (List (List ℕ))
collect none rest = some []
collect (some t) none = none
collect (some t) (some ts) = some (t ∷ ts)

unfoldable pub all_tokens : ℕ → Option (List ℕ) → List ℕ → Option (List (List ℕ))
all_tokens zero save delim = none
all_tokens (suc fuel) save delim =
    let step = strtok_r none delim save in collect step.token (all_tokens fuel step.save delim)

-- The first call passes the string, and the others null.
unfoldable pub tokens_of : ℕ → List ℕ → List ℕ → Option (List ℕ) → Option (List (List ℕ))
tokens_of zero s delim save = none
tokens_of (suc fuel) s delim save =
    let step = strtok_r (some s) delim save in collect step.token (all_tokens fuel step.save delim)
