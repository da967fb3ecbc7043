-- ===== src/Iface/Laws.antt =====
-- c/rt/iface.c: what the reference counts count.
use mellivora_os.Base.{
  ℕ, ◌+◌, ◌-◌, ◌^◌, ◌<◌, ◌≡◌, refl, sym, ap, ◌∙◌, subst, true, false, Option, none, some, List, [],
  ◌∷◌, arith, ltb, if◌then◌else◌,
}
use mellivora_os.Base.Signed.{i32, to_i32, to_u32}
use mellivora_os.Base.Int.{ℤ, pos, ◌+ℤ◌, ◌-ℤ◌, ltb_ℤ}
use mellivora_os.Base.Texts.{codes}
use mellivora_os.Str.Compare.{strcmp, eqb_ℤ}
use mellivora_os.Iface.{
  mv_guid_equal, Which, chronicle, sett, Object, Ifaces, object_of, store, iid_of, create, query,
  addref, release, mv_iface_get, mv_iface_query, mv_iface_addref, mv_iface_release, create_named,
  factory, e_pointer,
}

-- What a program does with references of an object.
pub data Act : Type 0 where
  get : Act
  ask : Act
  add : Act
  drop_one : Act

abbrev name_of : Which → List ℕ
name_of chronicle = codes "chronicle"
name_of sett = codes "sett"

-- A call for an object that asks for what it is.
pub call : Which → Act → Ifaces → Ifaces
call w get s = (mv_iface_get (some (name_of w)) true s).2
call w ask s = (mv_iface_query (some w) (some (iid_of w)) true s).2
call w add s = (mv_iface_addref (some w) s).1
call w drop_one s = (mv_iface_release (some w) s).1

pub calls : List (Which × Act) → Ifaces → Ifaces
calls [] s = s
calls ((w, a) ∷ l) s = calls l (call w a s)

-- The references that are held after a call.
abbrev pub held : Act → ℕ → ℕ
held get n = n + 1
held ask n = n + 1
held add n = n + 1
held drop_one n = n - 1

-- All but `mv_iface_get` are done with a reference.
abbrev pub Allowed : Act → ℕ → Type 0
Allowed get n = Unit
Allowed ask n = 0 < n
Allowed add n = 0 < n
Allowed drop_one n = 0 < n

-- An object of which `n` references are held.
pub record Counts (n : ℕ) (o : Object) : Type 0 where
  pub refs : o.refs ≡ pos n
  pub in_use : o.in_use ≡ ltb 0 n
  pub has_vtbl : 0 < n → o.has_vtbl ≡ true

count_up : (n : ℕ) → n + 1 < 2 ^ 31 → i32 (pos n +ℤ pos 1) ≡ pos (n + 1)
unfolding i32 to_i32 to_u32 ◌+ℤ◌
count_up n h = ground (arith, h)

count_down : (n : ℕ) → 0 < n → n < 2 ^ 31 → i32 (pos n -ℤ pos 1) ≡ pos (n - 1)
unfolding i32 to_i32 to_u32 ◌-ℤ◌
count_down n k h = ground (arith, h, k)

create-Counts : (n : ℕ) (o : Object) → Counts n o → n + 1 < 2 ^ 31 → Counts (n + 1) (create o)
unfolding create
create-Counts n o c h = record {
  refs = ap (λ z. i32 (z +ℤ pos 1)) c.refs ∙ count_up n h;
  in_use = ground arith;
  has_vtbl = λ k. refl;
}

-- One more reference of an object that is in use.
one_more :
    (n : ℕ) (o : Object)
    → Counts n o
    → 0 < n
    → n + 1 < 2 ^ 31
    → Counts (n + 1) (record o { refs = i32 (o.refs +ℤ pos 1) })
one_more n o c k h =
    let used : ltb 0 n ≡ ltb 0 (n + 1) = ground (arith, k) in
    record {
      refs = ap (λ z. i32 (z +ℤ pos 1)) c.refs ∙ count_up n h;
      in_use = c.in_use ∙ used;
      has_vtbl = λ m. c.has_vtbl k;
    }

release-Counts :
    (n : ℕ) (o : Object) → Counts n o → 0 < n → n < 2 ^ 31 → Counts (n - 1) (release o).1
unfolding release
release-Counts n o c k h =
    let some_left : ltb_ℤ (pos 0) (pos n) ≡ true = ground (arith, k) in
    let lower : ℤ → ℤ = λ z. if ltb_ℤ (pos 0) z then i32 (z -ℤ pos 1) else z in
    let down : lower o.refs ≡ pos (n - 1) =
      ap lower c.refs
      ∙ ap (λ b. if b then i32 (pos n -ℤ pos 1) else pos n) some_left
      ∙ count_down n k h in
    let marks : (if eqb_ℤ (pos (n - 1)) (pos 0) then false else ltb 0 n) ≡ ltb 0 (n - 1) =
      ground (arith, k) in
    record {
      refs = down;
      in_use =
          ap (λ z. if eqb_ℤ z (pos 0) then false else o.in_use) down
          ∙ ap (λ b. if eqb_ℤ (pos (n - 1)) (pos 0) then false else b) c.in_use
          ∙ marks;
      has_vtbl = λ m. c.has_vtbl k;
    }

name_factory : (w : Which) → factory (name_of w) ≡ some w
unfolding strcmp ◌-ℤ◌
name_factory chronicle = refl
name_factory sett = refl

-- A call changes the object that it is for.
object_after : Act → Object → Object
object_after get o = create o
object_after ask o = record o { refs = i32 (o.refs +ℤ pos 1) }
object_after add o = (addref o).1
object_after drop_one o = (release o).1

abbrev state3 : ℤ × Option Which × Ifaces → Ifaces
state3 p = p.2

abbrev state2 : ℤ × Ifaces → Ifaces
state2 p = p.1

call-store :
    (w : Which) (a : Act) (n : ℕ) (s : Ifaces)
    → Counts n (object_of w s)
    → Allowed a n
    → call w a s ≡ store w (object_after a (object_of w s)) s
unfolding call object_after mv_iface_get mv_iface_query mv_iface_addref mv_iface_release query
    mv_guid_equal
call-store w get n s c k = ap (λ f. (create_named f s).2) (name_factory w)
call-store chronicle ask n s c k =
    let r = query chronicle (some (iid_of chronicle)) true s.the_chronicle in
    ap (λ b. state3 (if b then (r.0, r.1, store chronicle r.2 s) else (e_pointer, none, s)))
      (c.has_vtbl k)
call-store sett ask n s c k =
    let r = query sett (some (iid_of sett)) true s.the_sett in
    ap (λ b. state3 (if b then (r.0, r.1, store sett r.2 s) else (e_pointer, none, s)))
      (c.has_vtbl k)
call-store w add n s c k =
    let r = addref (object_of w s) in
    ap (λ b. state2 (if b then (r.0, store w r.1 s) else (e_pointer, s))) (c.has_vtbl k)
call-store w drop_one n s c k =
    let r = release (object_of w s) in
    ap (λ b. state2 (if b then (r.0, store w r.1 s) else (e_pointer, s))) (c.has_vtbl k)

object_after-Counts :
    (a : Act) (n : ℕ) (o : Object)
    → Counts n o
    → Allowed a n
    → n + 1 < 2 ^ 31
    → Counts (held a n) (object_after a o)
unfolding object_after addref
object_after-Counts get n o c k h = create-Counts n o c h
object_after-Counts ask n o c k h = one_more n o c k h
object_after-Counts add n o c k h = one_more n o c k h
object_after-Counts drop_one n o c k h = release-Counts n o c k (omega (arith, h))

-- The references that are held of each object after a call.
unfoldable pub change : Which → Act → (Which → ℕ) → Which → ℕ
change chronicle a c chronicle = held a (c chronicle)
change chronicle a c sett = c sett
change sett a c chronicle = c chronicle
change sett a c sett = held a (c sett)

unfoldable pub all_held : List (Which × Act) → (Which → ℕ) → Which → ℕ
all_held [] c = c
all_held ((w, a) ∷ l) c = all_held l (change w a c)

-- The calls are allowed with what is held, which stays below 2 ^ 31 - 1.
unfoldable pub Fair : List (Which × Act) → (Which → ℕ) → Type 0
Fair [] c = Unit
Fair ((w, a) ∷ l) c = Allowed a (c w) × (c w + 1 < 2 ^ 31) × Fair l (change w a c)

abbrev pub AllCount : (Which → ℕ) → Ifaces → Type 0
AllCount c s = (w : Which) → Counts (c w) (object_of w s)

store-AllCount :
    (w : Which) (a : Act) (c : Which → ℕ) (s : Ifaces) (o : Object)
    → AllCount c s
    → Counts (held a (c w)) o
    → AllCount (change w a c) (store w o s)
unfolding change
store-AllCount chronicle a c s o h k chronicle = k
store-AllCount chronicle a c s o h k sett = h sett
store-AllCount sett a c s o h k chronicle = h chronicle
store-AllCount sett a c s o h k sett = k

-- Take any sequence of calls of mv_iface_get with the name of one of the two objects, and of the objects' own query,
-- with the identifier of the object, addref and release, these three only while a reference to the object is held, and
-- fewer than 2 ^ 31 - 1 references held of each. After the calls the count of each object is the number of the
-- references that are held of it, and its factory is in use exactly when there is one. A pointer for the result is
-- given to mv_iface_get and query. mv_iface_get may follow a release to zero: it then counts one reference, and the
-- factory is in use again.
pub calls-AllCount :
    (l : List (Which × Act)) (c : Which → ℕ) (s : Ifaces)
    → AllCount c s
    → Fair l c
    → AllCount (all_held l c) (calls l s)
unfolding calls all_held Fair
calls-AllCount [] c s h f = h
calls-AllCount ((w, a) ∷ l) c s h f =
    let next =
      store-AllCount w a c s _ h (object_after-Counts a (c w) (object_of w s) (h w) f.0 f.1) in
    calls-AllCount l (change w a c) (call w a s)
      (subst (AllCount (change w a c)) (sym (call-store w a (c w) s (h w) f.0)) next) f.2
