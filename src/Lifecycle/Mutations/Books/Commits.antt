-- ===== src/Lifecycle/Mutations/Books/Commits.antt =====
-- What the end of a save in plugin/worker-lifecycle/worker-lifecycle.ts does to the books.
use bb_shared.Base.{
  ◌≡◌, refl, true, Option, none, some, Text, text_eq, insert-Entries, erase-Entries,
}
use bb_shared.Connections.{ConnectionRecord}
use bb_shared.Lifecycle.Mutations.{Commit, removal, preference, addition}
use bb_shared.Lifecycle.Mutations.Books.{Book, commit, entered}
use bb_shared.Lifecycle.Mutations.Books.Keys.{IsUnder, AreKeyed}

entered-AreKeyed :
    {S : Type 0} (default_id : Text) (o : Option ConnectionRecord) (b : Book S)
    → AreKeyed b.connections
    → AreKeyed (entered default_id o b).connections
unfolding IsUnder
entered-AreKeyed default_id none b h = h
entered-AreKeyed default_id (some r) b h = insert-Entries IsUnder r.id r b.connections refl h

pub commit-AreKeyed :
    {S : Type 0} (p : Commit) (b : Book S)
    → AreKeyed b.connections
    → AreKeyed (commit p b).connections
commit-AreKeyed (removal id default_id) b h = erase-Entries IsUnder id b.connections h
commit-AreKeyed (preference id) b h = h
commit-AreKeyed (addition default_id) b h =
    entered-AreKeyed default_id b.candidate (record b { saving = none }) h

entered-rest :
    {S : Type 0} (default_id : Text) (o : Option ConnectionRecord) (b : Book S)
    → ((entered default_id o b).initialization ≡ b.initialization)
      × ((entered default_id o b).saving ≡ b.saving)
entered-rest default_id none b = (refl, refl)
entered-rest default_id (some r) b = (refl, refl)

pub commit-rest :
    {S : Type 0} (p : Commit) (b : Book S)
    → ((commit p b).initialization ≡ b.initialization) × ((commit p b).saving ≡ none)
commit-rest (removal id default_id) b = (refl, refl)
commit-rest (preference id) b = (refl, refl)
commit-rest (addition default_id) b =
    entered-rest default_id b.candidate (record b { saving = none })

entered-aborted :
    {S : Type 0} (default_id : Text) (o : Option ConnectionRecord) (b : Book S)
    → entered default_id o (record b { aborted = true })
      ≡ record (entered default_id o b) { aborted = true }
entered-aborted default_id none b = refl
entered-aborted default_id (some r) b = refl

pub commit-aborted :
    {S : Type 0} (p : Commit) (b : Book S)
    → commit p (record b { aborted = true }) ≡ record (commit p b) { aborted = true }
commit-aborted (removal id default_id) b = refl
commit-aborted (preference id) b = refl
commit-aborted (addition default_id) b =
    entered-aborted default_id b.candidate (record b { saving = none })
