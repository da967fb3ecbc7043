-- ===== src/Iface/Tests.antt =====
-- c/rt/iface.c: a run with both interfaces.
use mellivora_os.Base.{ℕ, refl, false, List, [], ◌∷◌, arith}
use mellivora_os.Iface.{Which, chronicle, sett, Object, Ifaces}
use mellivora_os.Iface.Laws.{
  Act, get, ask, add, drop_one, Counts, Fair, AllCount, all_held, change, calls, calls-AllCount,
}
use mellivora_os.Base.Int.{pos}

abbrev unused : Object
unused = record { refs = pos 0; in_use = false; has_vtbl = false }

abbrev at_start : Ifaces
at_start = record { the_chronicle = unused; the_sett = unused }

abbrev none_held : Which → ℕ
none_held w = 0

unused-Counts : Counts 0 unused
unused-Counts = record { refs = refl; in_use = refl; has_vtbl = λ k. absurd (omega (arith, k)) }

start-AllCount : AllCount none_held at_start
start-AllCount chronicle = unused-Counts
start-AllCount sett = unused-Counts

abbrev session : List (Which × Act)
session =
    (chronicle, get)
    ∷ ((sett, get) ∷ ((chronicle, add) ∷ ((sett, drop_one) ∷ ((chronicle, ask) ∷ []))))

session-Fair : Fair session none_held
unfolding Fair change
session-Fair = (
  tt,
  ground arith,
  (
    tt,
    ground arith,
    (ground arith, ground arith, (ground arith, ground arith, (ground arith, ground arith, tt))),
  ),
)

calls-AllCount_example : AllCount (all_held session none_held) (calls session at_start)
calls-AllCount_example = calls-AllCount session none_held at_start start-AllCount session-Fair
