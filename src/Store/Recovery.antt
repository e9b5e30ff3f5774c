-- ===== src/Store/Recovery.antt =====
-- A restart reads back what was written last, and the frames that wait come out in order.
use mathlib.Core.Path.{ap₂}
use tera_agent.Base.{
  ◌≡◌, refl, ap, sym, subst, ◌∙◌, Bool, true, false, none, some, List, [], ◌∷◌, ◌++◌, String, arith,
}
use tera_agent.Base.Int.{ℤ}
use tera_agent.Maps.{Map, get, put}
use tera_agent.Printing.{Bytes}
use tera_agent.Store.Keeps.{persist-done, persist-pending}
use tera_agent.Store.{
  DiskState, Store, Disk, persist, prune, load, mark_done, add_pending, take_pending, new_store,
}

pub data Operation : Type 0 where
  done : ℤ → String → Operation
  hold : Bytes → Operation
  release : Operation

-- A store with the same jobs, done at the same times, and the same frames in their order.
abbrev pub Resumes : Store → Store → Type 0
Resumes s' s = ((id : String) → get id s'.done ≡ get id s.done) × (s'.pending ≡ s.pending)

module _ (disk : Disk) (by_age : Map ℤ → List (String × ℤ)) where
  -- An operation, and whether its file can be written.
  unfoldable pub operate : Bool → Operation → Store → Store
  operate saves (done now id) s = mark_done disk by_age now saves s id
  operate saves (hold frame) s = add_pending disk saves s frame
  operate saves release s = (take_pending disk saves s).1

  pub operate_all : List (Bool × Operation) → Store → Store
  unfolding operate
  operate_all [] s = s
  operate_all ((saves, o) ∷ os) s = operate_all os (operate saves o s)

  -- The store after the last operation whose file can be written, and `kept` where none can.
  pub last_written : List (Bool × Operation) → Store → Store → Store
  unfolding operate
  last_written [] kept s = kept
  last_written ((true, o) ∷ os) kept s = last_written os (operate true o s) (operate true o s)
  last_written ((false, o) ∷ os) kept s = last_written os kept (operate false o s)

  abbrev pub state_of : Store → DiskState
  state_of s = record { done = some s.done; pending = s.pending }

  -- The JSON of the store's state can be written, and is read back as a map with the same entries, in
  -- whatever order, and the same frames in their order.
  pub record ReadsBack (s : Store) : Type 0 where
    pub bytes : Bytes
    pub written : disk.marshal (state_of s) ≡ some bytes
    pub done : Map ℤ
    pub read : disk.unmarshal bytes ≡ some (record { done = some done; pending = s.pending })
    pub same : (id : String) → get id done ≡ get id s.done

  -- So it is after each of the operations whose file can be written.
  abbrev pub AllReadBack : List (Bool × Operation) → Store → Type 0
  AllReadBack [] s = Unit
  AllReadBack ((true, o) ∷ os) s = ReadsBack (operate true o s) × AllReadBack os (operate true o s)
  AllReadBack ((false, o) ∷ os) s = AllReadBack os (operate false o s)

  ReadsBack-before : (s : Store) → ReadsBack (persist disk true s) → ReadsBack s
  ReadsBack-before s r =
      let held = persist-done disk true s in
      let wait = persist-pending disk true s in
      record {
        bytes = r.bytes;
        written =
            ap₂ (λ m frames. disk.marshal (record { done = some m; pending = frames })) (sym held)
              (sym wait)
            ∙ r.written;
        done = r.done;
        read = r.read ∙ ap (λ frames. some (record { done = some r.done; pending = frames })) wait;
        same = λ id. r.same id ∙ ap (get id) held;
      }

  persisted : (s : Store) → ReadsBack s → Resumes (new_store disk (persist disk true s).file) s
  unfolding persist load new_store
  persisted s r = rw (r.written, r.read) (r.same, refl)

  -- A restart after the state was written reads it back.
  persist_restart :
      (s : Store)
      → ReadsBack (persist disk true s)
      → Resumes (new_store disk (persist disk true s).file) (persist disk true s)
  persist_restart s r =
      let (same, wait) = persisted s (ReadsBack-before s r) in
      (
        λ id. same id ∙ ap (get id) (sym (persist-done disk true s)),
        wait ∙ sym (persist-pending disk true s),
      )

  persist_kept : (s : Store) → (persist disk false s).file ≡ s.file
  unfolding persist
  persist_kept s = ground arith

  operate_restart :
      (o : Operation) (s : Store)
      → ReadsBack (operate true o s)
      → Resumes (new_store disk (operate true o s).file) (operate true o s)
  unfolding operate mark_done add_pending take_pending
  operate_restart (done now id) s r =
      persist_restart (record s { done = prune by_age (put id now s.done) }) r
  operate_restart (hold frame) s r =
      persist_restart (record s { pending = s.pending ++ frame ∷ [] }) r
  operate_restart release s r = persist_restart (record s { pending = [] }) r

  operate_kept : (o : Operation) (s : Store) → (operate false o s).file ≡ s.file
  unfolding operate mark_done add_pending take_pending
  operate_kept (done now id) s = persist_kept (record s { done = prune by_age (put id now s.done) })
  operate_kept (hold frame) s = persist_kept (record s { pending = s.pending ++ frame ∷ [] })
  operate_kept release s = persist_kept (record s { pending = [] })

  restart_from :
      (os : List (Bool × Operation)) (kept s : Store)
      → AllReadBack os s
      → Resumes (new_store disk s.file) kept
      → Resumes (new_store disk (operate_all os s).file) (last_written os kept s)
  unfolding operate_all last_written
  restart_from [] kept s rs h = h
  restart_from ((true, o) ∷ os) kept s (r, rs) h =
      restart_from os (operate true o s) (operate true o s) rs (operate_restart o s r)
  restart_from ((false, o) ∷ os) kept s rs h =
      restart_from os kept (operate false o s) rs
        (subst (λ file. Resumes (new_store disk file) kept) (sym (operate_kept o s)) h)

  -- A restart after any operations on a new store, whether or not the file could be written after each,
  -- gives the jobs that were done, with their times, and the frames that waited, in their order, after
  -- the last operation whose file could be written; nothing, where there is none. What is written is
  -- read back with the same entries and frames.
  pub restart_lem :
      (os : List (Bool × Operation))
      → AllReadBack os (new_store disk none)
      → let s = new_store disk none in
        Resumes (new_store disk (operate_all os s).file) (last_written os s s)
  restart_lem os rs =
      let s = new_store disk none in
      restart_from os s s rs (unfold new_store load in (λ id. refl, refl))

module _ (disk : Disk) where
  -- `AddPending` of each frame, whether or not the file could be written.
  pub hold_all : Bool → List Bytes → Store → Store
  hold_all saves [] s = s
  hold_all saves (frame ∷ frames) s = hold_all saves frames (add_pending disk saves s frame)
