-- ===== src/Panel/Server/Push.antt =====
-- internal/adapters/ui/server.go: the age of the last synchronisation, and the states that the panel's
-- web socket pushes. The world is polled once a tick; a poll is what is read then, and whether the write
-- succeeds and the connection is still open.
use Prim.Native.String.{◌++◌ as str_append}
use tera_agent.Base.{
  zero, ℕ, ◌*◌, ◌/◌, ◌^◌, Bool, Option, none, some, List, [], ◌∷◌, String, str_eq, suc,
  if◌then◌else◌,
}
use tera_agent.Base.Int.{ℤ, pos, negsuc, ltb_ℤ}

-- `int` of a duration in a unit, towards 0. The source divides as floats of 64 bits, which differs at
-- most in the last nanoseconds of an hour, after months.
truncate : ℕ → ℤ → ℤ
truncate unit (pos n) = pos (n / unit)
truncate unit (negsuc n) = elim (suc n / unit) [ zero ↦ pos 0 | suc m ↦ negsuc m ]

abbrev second : ℕ
second = 10 ^ 9

age : (ℤ → String) → Option ℤ → String
unfolding truncate
age decimal none = "—"
age decimal (some d) =
    if ltb_ℤ d (pos (60 * second))
    then str_append "hace " (str_append (decimal (truncate second d)) "s")
    else if ltb_ℤ d (pos (3600 * second))
    then str_append "hace " (str_append (decimal (truncate (60 * second) d)) "m")
    else str_append "hace " (str_append (decimal (truncate (3600 * second) d)) "h")

-- `humanSince`.
pub human_since : (ℤ → String) → Option ℤ → String
unfolding age
human_since decimal elapsed = age decimal elapsed

pub record Poll : Type 0 where
  pub state : String
  pub last_sync : String
  pub written : Bool
  pub open_after : Bool

-- The loop of `pushState`: the states that were written with their synchronisation.
pub push_loop : String → List Poll → List (String × String)
push_loop last [] = []
push_loop last (p ∷ polls) =
    let rest = push_loop p.state polls in
    let pushed = if p.open_after then rest else [] in
    if str_eq p.state last
    then pushed
    else if p.written
    then (p.state, p.last_sync) ∷ pushed
    else []

unfoldable pub push_state : List Poll → List (String × String)
unfolding push_loop
push_state polls = push_loop "" polls
