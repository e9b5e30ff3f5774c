-- ===== src/Store/Tests.antt =====
-- A store with one job, and the theorems of the store at it.
use tera_agent.Base.{
  ◌≤◌, ◌≡◌, ◌≢◌, ◌⊎◌, refl, Bool, true, false, Option, none, some, ℕ, zero, suc, eq_iff, List, [],
  ◌∷◌, ◌++◌, String, length, arith,
}
use tera_agent.Base.Int.{ℤ, pos, ◌≤ℤ◌}
use tera_agent.Maps.{Map, get, has, put, IsMap}
use tera_agent.Printing.{Bytes}
use tera_agent.Store.{
  DiskState, Store, Disk, prune, max_done, seen, mark_done, add_pending, take_pending, new_store,
}
use tera_agent.Store.Prune.{IsByAge, mark_done_lem}
use tera_agent.Store.Recovery.{
  Operation, done, hold, release, operate, operate_all, last_written, Resumes, AllReadBack,
  restart_lem,
}

-- A disk for the jobs "a" and "b", done after the time 0: it writes a byte for the time of each, in the
-- order of their names, and one for each frame that waits.
abbrev frames_of : Bytes → List Bytes
frames_of [] = []
frames_of (b ∷ bytes) = (b ∷ []) ∷ frames_of bytes

abbrev bytes_of : List Bytes → Bytes
bytes_of [] = []
bytes_of (frame ∷ frames) = frame ++ bytes_of frames

abbrev time_byte : Option ℤ → ℕ
time_byte (some (pos n)) = n
time_byte _ = 0

abbrev entry_of : String → ℕ → Map ℤ
entry_of id zero = []
entry_of id (suc n) = (id, pos (suc n)) ∷ []

abbrev write_state : DiskState → Option Bytes
write_state ds = elim ds.done [
  | none ↦ none
  | some m ↦ some (time_byte (get "a" m) ∷ time_byte (get "b" m) ∷ bytes_of ds.pending)
]

abbrev read_bytes : Bytes → Option DiskState
read_bytes (a ∷ b ∷ frames) =
    some (record { done = some (entry_of "a" a ++ entry_of "b" b); pending = frames_of frames })
read_bytes _ = none

abbrev disk : Disk
disk = record { marshal = write_state; unmarshal = read_bytes }

abbrev store : Store
store = record { done = ("a", pos 1) ∷ []; pending = (7 ∷ []) ∷ []; file = none }

-- The map of two entries is in order as it stands.
abbrev by_age : Map ℤ → List (String × ℤ)
by_age m = m

store-IsMap : IsMap store.done
unfolding has
store-IsMap = (refl, tt)

by_age-IsByAge : IsByAge (put "b" (pos 2) store.done) (by_age (put "b" (pos 2) store.done))
unfolding put has
by_age-IsByAge = record {
  same = λ k. refl;
  distinct = (refl, (refl, tt));
  sized = refl;
  aged = ((omega arith, tt), (tt, tt));
}

mark_done_lem_example :
    let s' = mark_done disk by_age (pos 2) true store "b" in
    IsMap s'.done
    × (length s'.done ≤ max_done)
    × ((k : String) → seen s' k ≡ true → (k ≡ "b") ⊎ (seen store k ≡ true))
    × ((k j : String) (t u : ℤ)
        → get k (put "b" (pos 2) store.done) ≡ some t
        → get j (put "b" (pos 2) store.done) ≡ some u
        → seen s' k ≡ false
        → seen s' j ≡ true
        → t ≤ℤ u)
mark_done_lem_example = mark_done_lem disk by_age (pos 2) true store "b" store-IsMap by_age-IsByAge

younger : (j : String) (u : ℤ) → "b" ≢ j → get j store.done ≡ some u → ¬ (pos 2 ≤ℤ u)
unfolding get
younger j u differs e = ground arith

-- The job "b" is done, then "a", a frame is held that cannot be written, and then another.
abbrev operations : List (Bool × Operation)
operations =
    (true, done (pos 1) "b")
    ∷ (true, done (pos 2) "a")
    ∷ (false, hold (7 ∷ []))
    ∷ (true, hold (8 ∷ []))
    ∷ (false, release)
    ∷ []

sorted :
    (id : String)
    → get id (("a", pos 2) ∷ ("b", pos 1) ∷ []) ≡ get id (("b", pos 1) ∷ ("a", pos 2) ∷ [])
unfolding get
sorted id = ground (arith, eq_iff "a" id, eq_iff "b" id, differ)
  where
    differ : ◌≢◌ {A = String} "a" "b"
    differ e = cc ((eq_iff "a" "b").1 e)

operations_read_back : AllReadBack disk by_age operations (new_store disk none)
unfolding operate new_store mark_done add_pending take_pending prune put get
operations_read_back = (
  record {
    bytes = 0 ∷ 1 ∷ [];
    written = refl;
    done = ("b", pos 1) ∷ [];
    read = refl;
    same = λ id. refl;
  },
  (
    record {
      bytes = 2 ∷ 1 ∷ [];
      written = refl;
      done = ("a", pos 2) ∷ ("b", pos 1) ∷ [];
      read = refl;
      same = sorted;
    },
    (
      record {
        bytes = 2 ∷ 1 ∷ 7 ∷ 8 ∷ [];
        written = refl;
        done = ("a", pos 2) ∷ ("b", pos 1) ∷ [];
        read = refl;
        same = sorted;
      },
      tt,
    ),
  ),
)

restart_lem_example :
    let s = new_store disk none in
    Resumes
      (new_store disk (operate_all disk by_age operations s).file)
      (last_written disk by_age operations s s)
restart_lem_example = restart_lem disk by_age operations operations_read_back
