-- ===== src/Store/Keeps.antt =====
-- What each operation leaves as it was.
use tera_agent.Base.{◌≡◌, List, [], ◌∷◌, ◌++◌, Bool, String, arith}
use tera_agent.Base.Int.{ℤ}
use tera_agent.Maps.{Map}
use tera_agent.Printing.{Bytes}
use tera_agent.Store.{Store, Disk, persist, mark_done, add_pending}

module _ (disk : Disk) (saves : Bool) (s : Store) where
  pub persist-done : (persist disk saves s).done ≡ s.done
  unfolding persist
  persist-done = ground arith

  pub persist-pending : (persist disk saves s).pending ≡ s.pending
  unfolding persist
  persist-pending = ground arith

  pub add_pending-done : (frame : Bytes) → (add_pending disk saves s frame).done ≡ s.done
  unfolding add_pending persist
  add_pending-done frame = ground arith

  pub add_pending-pending :
      (frame : Bytes) → (add_pending disk saves s frame).pending ≡ s.pending ++ frame ∷ []
  unfolding add_pending persist
  add_pending-pending frame = ground arith

  pub mark_done-pending :
      (by_age : Map ℤ → List (String × ℤ)) (now : ℤ) (id : String)
      → (mark_done disk by_age now saves s id).pending ≡ s.pending
  unfolding mark_done persist
  mark_done-pending by_age now id = ground arith
