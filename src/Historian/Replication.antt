-- ===== src/Historian/Replication.antt =====
-- `replication_batch` and `replication_cursor` of src/python/gizmo_historian.py: what an archive
-- hands to a replica. A blob and the base64 text of it are both lists of codes, so a row of a batch
-- is a row of the archive with its payload encoded; base64 itself is the parameter `b64encode`.
pub mod Tables
pub mod Results
use gizmo.Prelude.{
  ℕ, zero, suc, ◌+◌, Bool, true, false, not, ◌&&◌, ◌||◌, Option, none, some, List, [], ◌∷◌, ◌++◌,
  map, ltb, leb, ◌==◌, if◌then◌else◌, length, take, any,
}
use gizmo.Text.{Text, text, text_eq}
use gizmo.Common.{ℤ, pos, negsuc}
use gizmo.Historian.Payload.{Blob}
use gizmo.Historian.Table.{after}
use gizmo.Historian.Archive.{
  Archive, FastRow, PlatformRow, RollupRow, EventRow, StreamRow, CursorRow, fast_key, platform_key,
}

-- REPLICATION_TABLES
pub data Table : Type 0 where
  fast_sample platform_sample minute_rollup event : Table

unfoldable pub table_name : Table → Text
table_name fast_sample = text "fast_sample"
table_name platform_sample = text "platform_sample"
table_name minute_rollup = text "minute_rollup"
table_name event = text "event"

-- The membership test of a table's name: `none` is a name that is not allowed
unfoldable pub table_of : Text → Option Table
unfolding table_name
table_of name =
    if text_eq name (table_name fast_sample)
    then some fast_sample
    else if text_eq name (table_name platform_sample)
    then some platform_sample
    else if text_eq name (table_name minute_rollup)
    then some minute_rollup
    else if text_eq name (table_name event)
    then some event
    else none

-- A row as a dictionary; `no_row` is a JSON value of another type.
pub data Row : Type 0 where
  fast : FastRow → Row
  platform : PlatformRow → Row
  rollup : RollupRow → Row
  happened : EventRow → Row
  no_row : Row

-- A key with its tie breaker, compared as tuples.
abbrev pub Position : Type 0
Position = ℕ × ℕ

abbrev pub position_lt : Position → Position → Bool
position_lt p q = ltb p.0 q.0 || p.0 == q.0 && ltb p.1 q.1

abbrev pub position_le : Position → Position → Bool
position_le p q = not (position_lt q p)

abbrev pub position_eq : Position → Position → Bool
position_eq p q = p.0 == q.0 && p.1 == q.1

-- `_replication_position`; `none` is the KeyError of a row without the column
unfoldable pub replication_position : Table → Row → Option Position
replication_position minute_rollup (rollup r) = some (r.updated_us, r.bucket_us)
replication_position minute_rollup row = none
replication_position event (happened r) = some (r.id, 0)
replication_position event row = none
replication_position fast_sample (fast r) = some (r.receive_time_us, 0)
replication_position fast_sample (platform r) = some (r.receive_time_us, 0)
replication_position fast_sample row = none
replication_position platform_sample (fast r) = some (r.receive_time_us, 0)
replication_position platform_sample (platform r) = some (r.receive_time_us, 0)
replication_position platform_sample row = none

-- `WHERE updated_us > ? OR (updated_us = ? AND bucket_us > ?) ORDER BY updated_us, bucket_us`
unfoldable pub place_rollup : RollupRow → List RollupRow → List RollupRow
place_rollup row [] = row ∷ []
place_rollup row (r ∷ rows) =
    let rest = place_rollup row rows in
    if position_lt (row.updated_us, row.bucket_us) (r.updated_us, r.bucket_us)
    then row ∷ r ∷ rows
    else r ∷ rest

unfoldable pub rollups_after : Position → List RollupRow → List RollupRow
rollups_after p [] = []
rollups_after p (r ∷ rows) =
    let rest = rollups_after p rows in
    if position_lt p (r.updated_us, r.bucket_us) then place_rollup r rest else rest

-- The statement of each table, without its LIMIT.
unfoldable pub rows_after : Table → Position → Archive → List Row
rows_after fast_sample p a = map fast (after fast_key p.0 a.fast_sample)
rows_after platform_sample p a = map platform (after platform_key p.0 a.platform_sample)
rows_after minute_rollup p a = map rollup (rollups_after p a.minute_rollup)
rows_after event p a = map happened (after (λ (r : EventRow). r.id) p.0 a.event)

abbrev uses_stream : ℕ → Row → Bool
uses_stream id (fast r) = r.stream_id == id
uses_stream id row = false

-- `SELECT … FROM stream WHERE id IN (…) ORDER BY id`: ids go up in the table
unfoldable pub streams_of : List Row → List StreamRow → List StreamRow
streams_of rows [] = []
streams_of rows (s ∷ streams) =
    let rest = streams_of rows streams in if any (uses_stream s.id) rows then s ∷ rest else rest

-- `item["payload"] = base64.b64encode(item["payload"])`, where the row has a payload
unfoldable pub encode_row : (Blob → Text) → Row → Row
encode_row b64encode (fast r) = fast (record r { payload = b64encode r.payload })
encode_row b64encode (platform r) = platform (record r { payload = b64encode r.payload })
encode_row b64encode (rollup r) = rollup (record r { payload = b64encode r.payload })
encode_row b64encode (happened r) = happened r
encode_row b64encode no_row = no_row

-- The position of `rows[-1]`, and the one given where there are no rows; `none` is a KeyError.
unfoldable pub last_position : Table → Position → List Row → Option Position
last_position table p [] = some p
last_position table p (row ∷ []) = replication_position table row
last_position table p (row ∷ next ∷ rows) = last_position table p (next ∷ rows)

pub data Failure : Type 0 where
  -- ValueError of `replication_batch`
  table_refused negative_cursor size_refused : Failure
  -- ValueError of `import_replication_batch`
  version_refused schema_refused source_missing source_incomplete source_changed : Failure
  rows_invalid cursor_missing cursor_invalid : Failure
  row_invalid not_ordered payload_invalid unknown_stream collision : Failure
  details_invalid cursor_differs : Failure
  -- KeyError, sqlite3.IntegrityError
  column_missing row_taken : Failure

-- What a method returns, or the failure that it raises.
pub data Result {κ} (T : Type κ) : Type κ where
  refused : Failure → Result T
  ok : T → Result T

infixl 5 ◌>>◌ ◌>>=◌
-- A failure ends the statements of a method.
abbrev pub ◌>>=◌ {κ μ} : {S : Type κ} {T : Type μ} → Result S → (S → Result T) → Result T
◌>>=◌ (refused failure) rest = refused failure
◌>>=◌ (ok s) rest = rest s

abbrev pub ◌>>◌ {μ} : {T : Type μ} → Result (Unit {0}) → Result T → Result T
◌>>◌ test rest = test >>= (λ _. rest)

-- `if not holds: raise failure`
abbrev pub demand : Bool → Failure → Result (Unit {0})
demand holds failure = if holds then ok tt else refused failure

abbrev pub some_or {ℓ} : {A : Type ℓ} → Failure → Option A → Result A
some_or e none = refused e
some_or e (some a) = ok a

-- A batch as a dictionary, `none` where a field has another type.
pub record Batch : Type 0 where
  pub replication_version : ℕ
  pub schema_version : ℕ
  pub source : Option (Text × Text)
  pub table : Text
  pub after_position : Position
  pub cursor : Option (ℤ × ℤ)
  pub has_more : Bool
  pub streams : Option (List StreamRow)
  pub rows : Option (List Row)

abbrev pub schema : ℕ
schema = 2

abbrev pub max_batch_size : ℕ
max_batch_size = 2000

unfoldable pub natural : ℤ → Option ℕ
natural (pos n) = some n
natural (negsuc n) = none

-- The body of `replication_batch` behind its tests.
unfoldable pub make_batch :
    (Blob → Text) → Text × Text → Table → Position → ℕ → Archive → Result Batch
make_batch b64encode identity table p limit a =
    let selected = take (limit + 1) (rows_after table p a) in
    let rows = take limit selected in
    do
      cursor ← some_or column_missing (last_position table p rows)
      ok (record {
        replication_version = 1;
        schema_version = schema;
        source = some identity;
        table = table_name table;
        after_position = p;
        cursor = some (pos cursor.0, pos cursor.1);
        has_more = ltb limit (length selected);
        streams = some (streams_of rows a.stream);
        rows = some (map (encode_row b64encode) rows);
      })

-- `replication_batch`
unfoldable pub replication_batch :
    (Blob → Text) → Text × Text → Text → ℤ → ℤ → ℤ → Archive → Result Batch
replication_batch b64encode identity name after_key after_tie limit a = do
  table ← some_or table_refused (table_of name)
  key ← some_or negative_cursor (natural after_key)
  tie ← some_or negative_cursor (natural after_tie)
  size ← some_or size_refused (natural limit)
  demand (leb 1 size && leb size max_batch_size) size_refused
  make_batch b64encode identity table (key, tie) size a

-- `SELECT … FROM replication_cursor WHERE source_id=? AND table_name=?`
unfoldable pub find_cursor : Text → Text → List CursorRow → Option CursorRow
find_cursor source_id table [] = none
find_cursor source_id table (r ∷ rows) =
    if text_eq r.source_id source_id && text_eq r.table_name table
    then some r
    else find_cursor source_id table rows

unfoldable pub cursor_position : Option CursorRow → Position
cursor_position none = (0, 0)
cursor_position (some r) = (r.remote_key, r.remote_tie)

-- `replication_cursor`
unfoldable pub replication_cursor : Text → Text → Archive → Position
replication_cursor source_id table a =
    cursor_position (find_cursor source_id table a.replication_cursor)
