-- ===== src/Lifecycle/Mutations/Books.antt =====
-- The books of plugin/worker-lifecycle/worker-lifecycle.ts: which connections there are and which of them is the
-- default, without what is observed of them; and the changes that the store takes part in.
pub mod Entries
pub mod Moves
pub mod Calls
pub mod Refinement
pub mod Keys
pub mod Claims
pub mod Commits
pub mod Stored
pub mod Restart
use bb_shared.Base.{
  ℕ, ◌≡◌, refl, Bool, true, false, List, [], ◌∷◌, ◌++◌, map, Option, none, some, Text, text_eq,
  Dict, values, has, insert, erase,
}
use bb_shared.TokenStore.{or_else}
use bb_shared.Connections.{ConnectionRecord, Snapshot}
use bb_shared.Lifecycle.{Runtime}
use bb_shared.Lifecycle.Mutations.{
  RecordStore, Registration, Lifecycle, pruned, is_same_id, Commit, removal, preference, addition,
}

-- `candidate` is the record of the registration that polls.
pub record Book (S : Type 0) : Type 0 where
  pub connections : Dict Text ConnectionRecord
  pub candidate : Option ConnectionRecord
  pub default_id : Option Text
  pub initialization : Option Bool
  pub saving : Option Commit
  pub aborted : Bool
  pub store : S

-- The records of the runtimes.
unfoldable pub entries : Dict Text Runtime → Dict Text ConnectionRecord
entries [] = []
entries ((k, r) ∷ m) = (k, r.connection) ∷ entries m

abbrev pub candidate_record : Option Registration → Option ConnectionRecord
candidate_record none = none
candidate_record (some g) = some g.runtime.connection

abbrev pub book_of : {S : Type 0} → Lifecycle S → Book S
book_of s = record {
  connections = entries s.connections;
  candidate = candidate_record s.candidate;
  default_id = s.default_id;
  initialization = s.initialization;
  saving = s.saving;
  aborted = s.aborted;
  store = s.store;
}

abbrev pub enter_all :
    List ConnectionRecord → Dict Text ConnectionRecord → Dict Text ConnectionRecord
enter_all [] m = m
enter_all (r ∷ rs) m = enter_all rs (insert r.id r m)

-- The default after a removal: the first connection that is left, if it was the one removed.
abbrev pub first_record_id : Dict Text ConnectionRecord → Option Text
first_record_id [] = none
first_record_id ((k, r) ∷ m) = some r.id

abbrev pub next_default : Text → Dict Text ConnectionRecord → Option Text → Option Text
next_default id next default_id = elim (is_same_id default_id id) [
  | true ↦ first_record_id next
  | false ↦ default_id
]

abbrev pub entered : Text → Option ConnectionRecord → {S : Type 0} → Book S → Book S
entered default_id none b = b
entered default_id (some r) b = record b {
  connections = insert r.id r b.connections;
  candidate = none;
  default_id = some default_id;
}

-- The books with a change that was saved.
abbrev pub commit : {S : Type 0} → Commit → Book S → Book S
commit (removal id default_id) b = record b {
  connections = erase id b.connections;
  default_id = default_id;
  saving = none;
}
commit (preference id) b = record b { default_id = some id; saving = none }
commit (addition default_id) b = entered default_id b.candidate (record b { saving = none })

-- What may happen to the books. A change of the connections or of the default is saved before it is made, and
-- only a registration that the end overtakes is not made after its save.
pub data Change {S C : Type 0} (st : RecordStore S C) : Book S → Book S → Type 0 where
  stays : {b : Book S} → Change st b b
  is_unreadable :
      {b : Book S} {store : S}
      → b.initialization ≡ none
      → st.load b.store ≡ (none, store)
      → Change st b (record b { initialization = some false; store = store })
  loads :
      {b : Book S} {snapshot : Snapshot} {store : S}
      → b.initialization ≡ none
      → st.load b.store ≡ (some snapshot, store)
      → Change st b (record b {
        initialization = some true;
        store = store;
        default_id = snapshot.default_id;
        connections = enter_all snapshot.connections b.connections;
      })
  aborts : {b : Book S} → Change st b (record b { aborted = true })
  begins :
      {b : Book S} (r : ConnectionRecord)
      → b.initialization ≡ some true
      → b.candidate ≡ none
      → b.saving ≡ none
      → Change st b (record b { candidate = some r })
  gives_up : {b : Book S} → b.saving ≡ none → Change st b (record b { candidate = none })
  adds :
      {b : Book S} {store : S} (c : C) (now : ℕ) (r : ConnectionRecord)
      → b.candidate ≡ some r
      → b.saving ≡ none
      → st.save c b.store
          (pruned now (some (or_else b.default_id r.id)) (values b.connections ++ r ∷ []))
        ≡ some store
      → Change st b
          (record b { store = store; saving = some (addition (or_else b.default_id r.id)) })
  removes :
      {b : Book S} {store : S} (c : C) (now : ℕ) (id : Text)
      → b.initialization ≡ some true
      → b.saving ≡ none
      → st.save c b.store (
          pruned now
            (next_default id (erase id b.connections) b.default_id)
            (values (erase id b.connections)))
        ≡ some store
      → Change st b (record b {
        store = store;
        saving = some (removal id (next_default id (erase id b.connections) b.default_id));
      })
  prefers :
      {b : Book S} {store : S} (c : C) (now : ℕ) (id : Text)
      → b.initialization ≡ some true
      → b.saving ≡ none
      → has id b.connections ≡ true
      → st.save c b.store (pruned now (some id) (values b.connections)) ≡ some store
      → Change st b (record b { store = store; saving = some (preference id) })
  completes : {b : Book S} {p : Commit} → b.saving ≡ some p → Change st b (commit p b)
  abandons :
      {b : Book S} {default_id : Text}
      → b.aborted ≡ true
      → b.saving ≡ some (addition default_id)
      → Change st b (record b { candidate = none; saving = none })
  next : {a b c : Book S} → Change st a b → Change st b c → Change st a c
