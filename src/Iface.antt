-- ===== src/Iface.antt =====
-- c/rt/iface.c: the two objects behind the interfaces, with their reference counts.
pub mod Laws
mod Tests
use mellivora_os.Base.{
  take_zero, take_nil, take-take, add-one, ℕ, zero, suc, ◌+◌, ◌-◌, ◌*◌, ◌/◌, ◌%◌, ◌^◌, ◌≤◌, ◌<◌,
  min, bit_and, bit_or, ◌≡◌, refl, sym, ap, ◌∙◌, subst, fun_ext, ◌≢◌, ◌↔◌, ◌⊎◌, inl, inr, Bool,
  true, false, ◌&&◌, ◌||◌, not, Option, none, some, List, [], ◌∷◌, ◌++◌, map, append-nil,
  append_assoc, arith, dec_lt, ℕ_discrete, ltb, leb, ◌==◌, if◌then◌else◌, ltb→lt, lt→ltb, leb→le,
  ==_iff, tests, Bool-cases, Option-cases, length, get_elem?, set, length-append, get_or, take,
  drop, replicate, take-append-drop, length-take, length-drop, length-replicate, length-map, All,
  All-append, All-drop, drop-append_length, and_ten, u8, u16, u32, first, rest_of,
}
use mellivora_os.Base.Signed.{i32}
use mellivora_os.Base.Int.{ℤ, pos, negsuc, ◌+ℤ◌, ◌-ℤ◌, ltb_ℤ}
use mellivora_os.Base.Texts.{codes}
use mellivora_os.Str.Compare.{strcmp, eqb_ℤ}

-- MV_S_OK, MV_E_FAIL, MV_E_NOINTERFACE and MV_E_POINTER.
abbrev pub s_ok : ℤ
s_ok = pos 0

abbrev pub e_fail : ℤ
e_fail = negsuc 0

abbrev pub e_nointerface : ℤ
e_nointerface = negsuc 1

abbrev pub e_pointer : ℤ
e_pointer = negsuc 2

-- `mv_guid`.
pub record Guid : Type 0 where
  pub a : ℕ
  pub b : ℕ
  pub c : ℕ
  pub d : ℕ

unfoldable pub mv_guid_equal : Guid → Guid → Bool
mv_guid_equal x y = x.a == y.a && x.b == y.b && x.c == y.c && x.d == y.d

-- `the_chronicle` and `the_sett`; a pointer to an interface is one of them, or null.
pub data Which : Type 0 where
  chronicle : Which
  sett : Which

-- The count, the mark in `factories`, and whether the object has its vtable.
pub record Object : Type 0 where
  pub refs : ℤ
  pub in_use : Bool
  pub has_vtbl : Bool

pub record Ifaces : Type 0 where
  pub the_chronicle : Object
  pub the_sett : Object

abbrev pub object_of : Which → Ifaces → Object
object_of chronicle s = s.the_chronicle
object_of sett s = s.the_sett

abbrev pub store : Which → Object → Ifaces → Ifaces
store chronicle o s = record s { the_chronicle = o }
store sett o s = record s { the_sett = o }

-- MV_IID_CHRONICLE and MV_IID_SETT.
abbrev pub iid_of : Which → Guid
iid_of chronicle = record { a = 0x43485230; b = 1; c = 0; d = 0 }
iid_of sett = record { a = 0x53455430; b = 1; c = 0; d = 0 }

-- `chronicle_create` and `sett_create`.
unfoldable pub create : Object → Object
create o = record { refs = i32 (o.refs +ℤ pos 1); in_use = true; has_vtbl = true }

-- `chronicle_query` and `sett_query`: the status, what is stored in `out` if it is not null, and the object.
unfoldable pub query : Which → Option Guid → Bool → Object → ℤ × Option Which × Object
query w none out o = (e_pointer, none, o)
query w (some iid) false o = (e_pointer, none, o)
query w (some iid) true o =
    if mv_guid_equal iid (iid_of w)
    then (s_ok, some w, record o { refs = i32 (o.refs +ℤ pos 1) })
    else (e_nointerface, none, o)

-- `chronicle_addref` and `sett_addref`: the count is returned.
unfoldable pub addref : Object → ℤ × Object
addref o = let n = i32 (o.refs +ℤ pos 1) in (n, record o { refs = n })

-- `chronicle_release` and `sett_release`.
unfoldable pub release : Object → ℤ × Object
release o =
    let n = if ltb_ℤ (pos 0) o.refs then i32 (o.refs -ℤ pos 1) else o.refs in
    (n, record o { refs = n; in_use = if eqb_ℤ n (pos 0) then false else o.in_use })

-- The loop over `factories`.
abbrev pub factory : List ℕ → Option Which
factory name =
    if eqb_ℤ (strcmp (codes "chronicle") name) (pos 0)
    then some chronicle
    else if eqb_ℤ (strcmp (codes "sett") name) (pos 0)
    then some sett
    else none

abbrev pub create_named : Option Which → Ifaces → ℤ × Option Which × Ifaces
create_named none s = (e_nointerface, none, s)
create_named (some w) s = (s_ok, some w, store w (create (object_of w s)) s)

-- `out` says whether the pointer for the result is there, and a name can be null. No factory gives null.
unfoldable pub mv_iface_get : Option (List ℕ) → Bool → Ifaces → ℤ × Option Which × Ifaces
mv_iface_get name false s = (e_pointer, none, s)
mv_iface_get none true s = (e_pointer, none, s)
mv_iface_get (some name) true s = create_named (factory name) s

unfoldable pub mv_iface_query :
    Option Which → Option Guid → Bool → Ifaces → ℤ × Option Which × Ifaces
mv_iface_query none iid out s = (e_pointer, none, s)
mv_iface_query (some w) iid out s =
    let (code, result, o) = query w iid out (object_of w s) in
    if (object_of w s).has_vtbl then (code, result, store w o s) else (e_pointer, none, s)

unfoldable pub mv_iface_addref : Option Which → Ifaces → ℤ × Ifaces
mv_iface_addref none s = (e_pointer, s)
mv_iface_addref (some w) s =
    let (n, o) = addref (object_of w s) in
    if (object_of w s).has_vtbl then (n, store w o s) else (e_pointer, s)

unfoldable pub mv_iface_release : Option Which → Ifaces → ℤ × Ifaces
mv_iface_release none s = (e_pointer, s)
mv_iface_release (some w) s =
    let (n, o) = release (object_of w s) in
    if (object_of w s).has_vtbl then (n, store w o s) else (e_pointer, s)

abbrev pub status_of : ℤ → ℤ
status_of r = if eqb_ℤ r (pos 0) then s_ok else e_fail

-- `chronicle_write`, with what SYS_LOG_WRITE answers.
unfoldable pub chronicle_write : (ℕ → List ℕ → ℤ) → ℕ → Option (List ℕ) → ℤ
chronicle_write log_write level none = e_pointer
chronicle_write log_write level (some text) = status_of (log_write level text)

-- `sett_get`: the status and the buffer, with what SYS_SETT answers; a buffer can be null.
unfoldable pub sett_get :
    (List ℕ → ℕ → ℤ × List ℕ) → Option (List ℕ) → Option (List ℕ) → ℕ → ℤ × Option (List ℕ)
sett_get read none buf size = (e_pointer, buf)
sett_get read (some path) none size = (e_pointer, none)
sett_get read (some path) (some buf) size =
    let (r, text) = read path size in
    if size == 0 then (e_pointer, some buf) else (status_of r, some text)

unfoldable pub sett_set : (List ℕ → List ℕ → ℤ) → Option (List ℕ) → Option (List ℕ) → ℤ
sett_set write none value = e_pointer
sett_set write (some path) none = e_pointer
sett_set write (some path) (some value) = status_of (write path value)
