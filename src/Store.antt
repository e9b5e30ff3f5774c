-- ===== src/Store.antt =====
-- internal/adapters/store/filestore.go: the identifiers of the jobs that are done and the frames that
-- wait to be sent, with their file. A locked call is one step. `marshal` and `unmarshal` stand for the
-- JSON of a disk state, `by_age` for the entries in the order of the map's iteration sorted by
-- `sort.Slice`, which is not stable, and `saves` for whether the file could be written and renamed.
pub mod Keeps
pub mod Prune
pub mod Recovery
mod Tests
use tera_agent.Base.{
  ℕ, ◌-◌, Bool, true, false, Option, none, some, List, [], ◌∷◌, ◌++◌, String, leb, if◌then◌else◌,
  length, take,
}
use tera_agent.Base.Int.{ℤ}
use tera_agent.Maps.{Map, has, put, remove}
use tera_agent.Printing.{Bytes}

abbrev pub max_done : ℕ
max_done = 2000

-- A missing or null `done` is `none`.
pub record DiskState : Type 0 where
  pub done : Option (Map ℤ)
  pub pending : List Bytes

pub record Store : Type 0 where
  pub done : Map ℤ
  pub pending : List Bytes
  pub file : Option Bytes

unfoldable pub seen : Store → String → Bool
seen s id = has id s.done

pub remove_each : List (String × ℤ) → Map ℤ → Map ℤ
remove_each [] m = m
remove_each ((k, t) ∷ items) m = remove_each items (remove k m)

-- `prune`: the oldest entries over the limit are deleted.
pub prune : (Map ℤ → List (String × ℤ)) → Map ℤ → Map ℤ
unfolding remove_each
prune by_age m =
    if leb (length m) max_done then m else remove_each (take (length m - max_done) (by_age m)) m

pub record Disk : Type 0 where
  pub marshal : DiskState → Option Bytes
  pub unmarshal : Bytes → Option DiskState

write_file : Bool → Option Bytes → Store → Store
write_file saves none s = s
write_file true (some bytes) s = record s { file = some bytes }
write_file false (some bytes) s = s

-- `persist`. Marshalling a map that is not nil gives one that is not null.
pub persist : Disk → Bool → Store → Store
unfolding write_file
persist disk saves s =
    write_file saves (disk.marshal (record { done = some s.done; pending = s.pending })) s

unfoldable pub mark_done : Disk → (Map ℤ → List (String × ℤ)) → ℤ → Bool → Store → String → Store
unfolding prune persist
mark_done disk by_age now saves s id =
    persist disk saves (record s { done = prune by_age (put id now s.done) })

unfoldable pub add_pending : Disk → Bool → Store → Bytes → Store
unfolding persist
add_pending disk saves s frame = persist disk saves (record s { pending = s.pending ++ frame ∷ [] })

unfoldable pub take_pending : Disk → Bool → Store → List Bytes × Store
unfolding persist
take_pending disk saves s = (s.pending, persist disk saves (record s { pending = [] }))

adopt : Option (Map ℤ) → Map ℤ → Map ℤ
adopt none m = m
adopt (some d) m = d

restore : Option DiskState → Store → Store
unfolding adopt
restore none s = s
restore (some ds) s = record s { done = adopt ds.done s.done; pending = s.pending ++ ds.pending }

read_state : Disk → Option Bytes → Option DiskState
read_state disk none = none
read_state disk (some bytes) = disk.unmarshal bytes

pub load : Disk → Store → Store
unfolding restore read_state
load disk s = restore (read_state disk s.file) s

-- `New`, given the file that stands at the path.
unfoldable pub new_store : Disk → Option Bytes → Store
unfolding load
new_store disk file = load disk (record { done = []; pending = []; file = file })
