-- ===== src/Historian/Replica/Replay.antt =====
-- `import_replication_batch` of src/python/gizmo_historian.py on a batch that it has already taken.
use gizmo.Prelude.{
  ℕ, ◌+◌, ◌≡◌, ap, sym, ◌∙◌, true, false, Option, none, some, List, [], ◌∷◌, if◌then◌else◌, length,
  arith,
}
use gizmo.Text.{Text}
use gizmo.Historian.Replication.{
  Table, Row, Position, position_le, replication_position, Result, ok, ◌>>=◌, demand, some_or,
  row_invalid, column_missing, not_ordered,
}
use gizmo.Historian.Replication.Results.{bind-eq-ok, demand-eq-ok, some_or-eq-ok}
use gizmo.Historian.Replica.{
  Progress, Written, goes_on, is_row, counted, take_row, import_row, import_one, import_rows,
}
use gizmo.Historian.Incoming.{Codec}

pub position_le_trans :
    (p q r : Position) → position_le p q ≡ true → position_le q r ≡ true → position_le p r ≡ true
position_le_trans p q r h k = ground arith

goes_on-le :
    (p : Position) (o : Option Position) (q : Position)
    → o ≡ some p
    → goes_on o q ≡ true
    → position_le p q ≡ true
unfolding goes_on
goes_on-le p none q e h = cc
goes_on-le p (some r) q e h = ground arith

module _ {ℓ} {N : Type ℓ} (codec : Codec N) (source_id : Text) (table : Table) where
  -- What a round that ends well has found.
  pub record IsRound (current : Position) (row : Row) (s t : Progress) : Type 0 where
    pub at : Position
    pub row_ok : is_row row ≡ true
    pub placed : replication_position table row ≡ some at
    pub on : goes_on s.previous at ≡ true
    pub read : t.previous ≡ some at

  take_row-previous :
      (current p : Position) (row : Row) (s t : Progress)
      → take_row codec source_id table current p row s ≡ ok t
      → t.previous ≡ some p
  unfolding take_row counted
  take_row-previous current p row s t e =
      let (w, done, counts) =
        bind-eq-ok
          (if position_le p current
            then ok (s.archive, false)
            else import_row codec source_id table row s.archive)
          (λ (w : Written). ok (counted p s w)) e in
      ok-previous p s t w counts
    where
      ok-previous :
          (p : Position) (s t : Progress) (w : Written)
          → ◌≡◌ {A = Result Progress} (ok (counted p s w)) (ok t)
          → t.previous ≡ some p
      ok-previous p s t w h =
          let same : counted p s w ≡ t = cc in ap (λ (x : Progress). x.previous) (sym same)

  import_one-IsRound :
      (current : Position) (row : Row) (s t : Progress)
      → import_one codec source_id table current row s ≡ ok t
      → IsRound current row s t
  unfolding import_one
  import_one-IsRound current row s t e =
      let (u, row_ok, e1) =
        bind-eq-ok (demand (is_row row) row_invalid)
          (λ _. some_or column_missing (replication_position table row) >>= rest) e in
      let (p, placed, e2) =
        bind-eq-ok (some_or column_missing (replication_position table row)) rest e1 in
      let (v, on, e3) =
        bind-eq-ok (demand (goes_on s.previous p) not_ordered)
          (λ _. take_row codec source_id table current p row s) e2 in
      record {
        at = p;
        row_ok = demand-eq-ok (is_row row) row_invalid row_ok;
        placed = some_or-eq-ok column_missing (replication_position table row) placed;
        on = demand-eq-ok (goes_on s.previous p) not_ordered on;
        read = take_row-previous current p row s t e3;
      }
    where
      rest : Position → Result Progress
      rest p = demand (goes_on s.previous p) not_ordered >>= λ _.
          take_row codec source_id table current p row s

  previous_grows :
      (current : Position) (rows : List Row) (s t : Progress) (p : Position)
      → import_rows codec source_id table current rows s ≡ ok t
      → s.previous ≡ some p
      → (q : Position) × (t.previous ≡ some q) × (position_le p q ≡ true)
  unfolding import_rows
  previous_grows current [] s t p e h = let same : s ≡ t = cc in (p, rw (← same) h, ground arith)
  previous_grows current (row ∷ rows) s t p e h =
      let (s1, one, rest) =
        bind-eq-ok (import_one codec source_id table current row s)
          (import_rows codec source_id table current rows) e in
      let r = import_one-IsRound current row s s1 one in
      let (q, last, le) = previous_grows current rows s1 t r.at rest r.read in
      (q, last, position_le_trans p r.at q (goes_on-le p s.previous r.at h r.on) le)

  -- A row that was read before is passed over.
  import_one-skip :
      (c : Position) (u : Progress) {current : Position} {row : Row} {s t : Progress}
      (r : IsRound current row s t)
      → position_le r.at c ≡ true
      → u.previous ≡ s.previous
      → import_one codec source_id table c row u
        ≡ ok (record {
          archive = u.archive;
          previous = some r.at;
          imported = u.imported;
          skipped = u.skipped + 1;
        })
  unfolding import_one take_row counted
  import_one-skip c u r le same = rw (r.row_ok, r.placed, same, r.on, le)

  -- Rows that were read before are passed over, up to a position that is not before the last.
  pub import_rows-skip :
      (current c : Position) (rows : List Row) (s t u : Progress)
      → import_rows codec source_id table current rows s ≡ ok t
      → ((q : Position) → t.previous ≡ some q → position_le q c ≡ true)
      → u.previous ≡ s.previous
      → import_rows codec source_id table c rows u
        ≡ ok (record {
          archive = u.archive;
          previous = t.previous;
          imported = u.imported;
          skipped = u.skipped + length rows;
        })
  unfolding import_rows
  import_rows-skip current c [] s t u e upper same =
      let done : s ≡ t = cc in
      ap (λ (o : Option Position). ok (record u { previous = o }))
        (same ∙ ap (λ (x : Progress). x.previous) done)
      ∙ ap (λ (n : ℕ). ok (record u { previous = t.previous; skipped = n })) (omega arith)
  import_rows-skip current c (row ∷ rows) s t u e upper same =
      let (s1, one, rest) =
        bind-eq-ok (import_one codec source_id table current row s)
          (import_rows codec source_id table current rows) e in
      let r = import_one-IsRound current row s s1 one in
      let (q, last, le) = previous_grows current rows s1 t r.at rest r.read in
      rw (import_one-skip c u r (position_le_trans r.at q c le (upper q last)) same) (
        import_rows-skip current c rows s1 t _ rest upper (sym r.read)
        ∙ ap (λ (n : ℕ). ok (record u { previous = t.previous; skipped = n })) (omega arith))
