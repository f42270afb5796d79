-- ===== src/Sessions/Storable.antt =====
-- The rows that plugin/guest-gateway/sessions.ts loads, and loads again.
use bb_shared.Base.{
  ℕ, ◌+◌, ◌≤◌, ◌≡◌, refl, sym, ◌∙◌, ap, subst, inl, inr, Bool, true, List, [], ◌∷◌, ◌++◌,
  append_nil, append_assoc, filter, all, none, some, Text, text_eq, same_iff, same_refl, lookup,
  has, insert, insert_new, lookup-insert, insert-IsDistinct, insert-Entries, values, length, ltb,
  IsDistinct, Entries, arith, Bool-cases,
}
use bb_shared.Sessions.{Session, Rows, is_row, insert_rows, load, live_rows}

-- A row that the schema admits, under its id.
unfoldable pub IsRow : Text → Session → Type 0
IsRow k row = (row.id ≡ k) × (is_row row ≡ true)

pub record AreStorable (rows : Rows) : Type 0 where
  pub distinct : IsDistinct rows
  pub entries : Entries IsRow rows
  pub few : length rows ≤ 2048

lookup-filter :
    (p : Text × Session → Bool) (k : Text) (rows : Rows)
    → lookup k rows ≡ none
    → lookup k (filter p rows) ≡ none
unfolding lookup
lookup-filter p k [] h = refl
lookup-filter p k ((j, row) ∷ rows) h = ground (arith, lookup-filter p k rows)

pub filter-IsDistinct :
    (p : Text × Session → Bool) (rows : Rows) → IsDistinct rows → IsDistinct (filter p rows)
filter-IsDistinct p [] h = tt
filter-IsDistinct p ((k, row) ∷ rows) (fresh, h) = elim (Bool-cases (p (k, row))) [
  | inl kept ↦ rw kept (lookup-filter p k rows fresh, filter-IsDistinct p rows h)
  | inr dropped ↦ rw dropped (filter-IsDistinct p rows h)
]

pub filter-Entries :
    (p : Text × Session → Bool) (rows : Rows) → Entries IsRow rows → Entries IsRow (filter p rows)
filter-Entries p [] h = tt
filter-Entries p ((k, row) ∷ rows) (q, h) = elim (Bool-cases (p (k, row))) [
  | inl kept ↦ rw kept (q, filter-Entries p rows h)
  | inr dropped ↦ rw dropped (filter-Entries p rows h)
]

length-insert_le :
    (k : Text) (row : Session) (rows : Rows) → length (insert k row rows) ≤ 1 + length rows
unfolding insert
length-insert_le k row [] = omega arith
length-insert_le k row ((j, r) ∷ rows) = ground (arith, length-insert_le k row rows)

length-insert_rows_le :
    (m : Rows) (rows : List Session) → length (insert_rows m rows) ≤ length m + length rows
unfolding insert_rows
length-insert_rows_le m [] = omega arith
length-insert_rows_le m (row ∷ rows) =
    omega (arith, length-insert_rows_le (insert row.id row m) rows, length-insert_le row.id row m)

length-filter_le : (p : Session → Bool) (rows : List Session) → length (filter p rows) ≤ length rows
length-filter_le p [] = omega arith
length-filter_le p (row ∷ rows) = ground (arith, length-filter_le p rows)

insert_rows-IsDistinct :
    (m : Rows) (rows : List Session) → IsDistinct m → IsDistinct (insert_rows m rows)
unfolding insert_rows
insert_rows-IsDistinct m [] h = h
insert_rows-IsDistinct m (row ∷ rows) h =
    insert_rows-IsDistinct (insert row.id row m) rows (insert-IsDistinct row.id row m h)

-- The rows that are live, entered one after another.
insert_rows-Entries :
    (p : Session → Bool) (m : Rows) (rows : List Session)
    → all is_row rows ≡ true
    → Entries IsRow m
    → Entries IsRow (insert_rows m (filter p rows))
unfolding insert_rows IsRow
insert_rows-Entries p m [] h w = w
insert_rows-Entries p m (row ∷ rows) h w =
    let rest = insert_rows-Entries p m rows (ground arith) w in
    elim (Bool-cases (p row)) [
      | inl kept ↦ rw kept (
          insert_rows-Entries p (insert row.id row m) rows (ground arith)
            (insert-Entries IsRow row.id row m (refl, ground arith) w))
      | inr dropped ↦ rw dropped rest
    ]

pub load-AreStorable :
    (now : ℕ) (saved : List Session) (rows : Rows) → load now saved ≡ some rows → AreStorable rows
unfolding load
load-AreStorable now saved rows e =
    let lives = filter (λ (row : Session). ltb now row.expires) saved in
    let admitted : all is_row saved ≡ true = ground arith in
    let bounded : length saved ≤ 2048 = ground arith in
    let entered : insert_rows [] lives ≡ rows = ground arith in
    subst AreStorable entered (record {
      distinct = insert_rows-IsDistinct [] lives tt;
      entries = insert_rows-Entries (λ row. ltb now row.expires) [] saved admitted tt;
      few = omega (
        arith,
        bounded,
        length-insert_rows_le [] lives,
        length-filter_le (λ row. ltb now row.expires) saved,
      );
    })

-- No key of the first rows is one of the second.
abbrev AreApart : Rows → Rows → Type 0
AreApart rows m = (k : Text) → has k rows ≡ true → lookup k m ≡ none

head-AreApart :
    (k : Text) (row : Session) (rows m : Rows) → AreApart ((k, row) ∷ rows) m → lookup k m ≡ none
unfolding lookup
head-AreApart k row rows m apart = apart k (ground (arith, same_refl k))

rest-AreApart :
    (k : Text) (row : Session) (rows m : Rows) → AreApart ((k, row) ∷ rows) m → AreApart rows m
unfolding lookup
rest-AreApart k row rows m apart j h = apart j (ground (arith, h))

insert-AreApart :
    (k : Text) (row : Session) (rows m : Rows)
    → lookup k rows ≡ none
    → AreApart rows m
    → AreApart rows (insert k row m)
insert-AreApart k row rows m fresh apart j h =
    ground (arith, lookup-insert k j row m, same_iff k j, apart j h, h, fresh)

-- Rows that are entered behind others, none under a key of theirs.
insert_rows-behind :
    (now : ℕ) (m rows : Rows)
    → IsDistinct rows
    → Entries IsRow rows
    → AreApart rows m
    → insert_rows m (filter (λ row. ltb now row.expires) (values rows)) ≡ m ++ live_rows now rows
unfolding insert_rows live_rows IsRow
insert_rows-behind now m [] d w apart = sym (append_nil m)
insert_rows-behind now m ((k, row) ∷ rows) (fresh, d) ((e, q), w) apart =
    let others = rest-AreApart k row rows m apart in
    elim (Bool-cases (ltb now row.expires)) [
      | inl kept ↦
          let lives = filter (λ (row : Session). ltb now row.expires) (values rows) in
          let rest =
            insert_rows-behind now (insert k row m) rows d w
              (insert-AreApart k row rows m fresh others) in
          rw kept (
            ap (λ j. insert_rows (insert j row m) lives) e
            ∙ (rest
                ∙ (ap (λ x. x ++ live_rows now rows)
                      (insert_new k row m (head-AreApart k row rows m apart))
                    ∙ append_assoc m ((k, row) ∷ []) (live_rows now rows))))
      | inr dropped ↦ rw dropped (insert_rows-behind now m rows d w others)
    ]

all-is_row : (rows : Rows) → Entries IsRow rows → all is_row (values rows) ≡ true
unfolding IsRow
all-is_row [] w = refl
all-is_row ((k, row) ∷ rows) ((e, q), w) = ground (arith, all-is_row rows w)

length-values : (rows : Rows) → length (values rows) ≡ length rows
length-values [] = refl
length-values (e ∷ rows) = omega (arith, length-values rows)

pub load-values :
    (now : ℕ) (rows : Rows) → AreStorable rows → load now (values rows) ≡ some (live_rows now rows)
unfolding load lookup
load-values now rows s =
    let entered = insert_rows-behind now [] rows s.distinct s.entries (λ k h. refl) in
    ground (arith, s.few, length-values rows, all-is_row rows s.entries, entered)
