-- ===== src/Historian/Replica/Rows.antt =====
-- The loop over the rows in `import_replication_batch` of src/python/gizmo_historian.py, on platform
-- samples that are new to the replica.
use gizmo.Prelude.{
  ℕ, ◌+◌, ◌<◌, ◌≤◌, ◌≡◌, refl, ap, sym, ◌∙◌, true, false, Option, none, some, List, [], ◌∷◌, ◌++◌,
  map, length, is_some, arith,
}
use mathlib.Core.List.{append-nil, append_assoc}
use gizmo.Text.{Text}
use gizmo.Historian.Payload.{Blob, decode_payload}
use gizmo.Historian.Table.{IsAbove, IsOrdered}
use gizmo.Historian.Table.Laws.{IsBelow, find-IsBelow, insert-last, weaken-IsBelow, IsBelow-append}
use gizmo.Historian.Archive.{Archive, PlatformRow, platform_key}
use gizmo.Historian.Replication.{
  platform_sample, platform, Position, position_le, ok, encode_row, replication_position,
}
use gizmo.Historian.Replica.{
  decode_replica_payload, write_platform, import_platform, import_row, import_one, import_rows,
  take_row, Progress, counted, goes_on, is_row,
}
use gizmo.Historian.Incoming.{Codec}

-- The key of the last row, and the one given where there are no rows.
unfoldable pub last_key : ℕ → List PlatformRow → ℕ
last_key k [] = k
last_key k (r ∷ rows) = last_key r.receive_time_us rows

pub last_key_ge :
    (k : ℕ) (new : List PlatformRow)
    → IsAbove platform_key k new
    → IsOrdered platform_key new
    → k ≤ last_key k new
unfolding last_key
last_key_ge k [] a o = omega arith
last_key_ge k (r ∷ rows) a o = omega (arith, last_key_ge r.receive_time_us rows o.0 o.1)

pub new-IsBelow :
    (k : ℕ) (new : List PlatformRow)
    → IsAbove platform_key k new
    → IsOrdered platform_key new
    → IsBelow platform_key (last_key k new + 1) new
unfolding last_key
new-IsBelow k [] a o = tt
new-IsBelow k (r ∷ rows) a o = (
  omega (arith, last_key_ge r.receive_time_us rows o.0 o.1),
  new-IsBelow r.receive_time_us rows o.0 o.1,
)

-- What the loop has read last.
abbrev pub read_last : ℕ → List PlatformRow → Option Position → Option Position
read_last k [] p = p
read_last k (r ∷ rows) p = some (last_key k (r ∷ rows), 0)

module _ {ℓ} {N : Type ℓ} (codec : Codec N) (b64encode : Blob → Text) where
  -- A blob that base64 brings over and that decodes there.
  pub record Arrives (r : PlatformRow) : Type 0 where
    pub brought : codec.b64decode (b64encode r.payload) ≡ some r.payload
    pub decodes : is_some (decode_payload codec.unpack codec.platform_paths r.payload) ≡ true

  write_platform-last :
      (r : PlatformRow) (a : Archive)
      → IsBelow platform_key r.receive_time_us a.platform_sample
      → write_platform codec r a
        ≡ ok (record a { platform_sample = a.platform_sample ++ r ∷ [] }, true)
  unfolding write_platform
  write_platform-last r a b = rw (
    write_platform,
    find-IsBelow platform_key r.receive_time_us a.platform_sample b,
    insert-last platform_key r a.platform_sample b,
  )

  import_row-last :
      (source_id : Text) (r : PlatformRow) (a : Archive)
      → Arrives r
      → IsBelow platform_key r.receive_time_us a.platform_sample
      → import_row codec source_id platform_sample (encode_row b64encode (platform r)) a
        ≡ ok (record a { platform_sample = a.platform_sample ++ r ∷ [] }, true)
  unfolding import_row import_platform decode_replica_payload encode_row
  import_row-last source_id r a v b = rw (v.brought, v.decodes, write_platform-last r a b)

  -- The loop's variables behind a row that was appended.
  abbrev appended : PlatformRow → Progress → Progress
  appended r s = record {
    archive = record s.archive { platform_sample = s.archive.platform_sample ++ r ∷ [] };
    previous = some (r.receive_time_us, 0);
    imported = s.imported + 1;
    skipped = s.skipped;
  }

  unfoldable pub taken : List PlatformRow → Progress → Progress
  taken [] s = s
  taken (r ∷ rows) s = taken rows (appended r s)

  -- The last position read is not behind the key.
  abbrev IsUpTo : ℕ → Option Position → Type 0
  IsUpTo k none = Unit {0}
  IsUpTo k (some p) = (p.0 ≤ k) × (p.1 ≡ 0)

  goes_on-IsUpTo : (k t : ℕ) (p : Option Position) → IsUpTo k p → k < t → goes_on p (t, 0) ≡ true
  unfolding goes_on
  goes_on-IsUpTo k t none u h = refl
  goes_on-IsUpTo k t (some p) u h = ground arith

  import_one-last :
      (source_id : Text) (current k : ℕ) (r : PlatformRow) (s : Progress)
      → Arrives r
      → current ≤ k
      → k < r.receive_time_us
      → IsUpTo k s.previous
      → IsBelow platform_key r.receive_time_us s.archive.platform_sample
      → import_one codec source_id platform_sample
          (current, 0)
          (encode_row b64encode (platform r))
          s
        ≡ ok (appended r s)
  unfolding import_one is_row replication_position encode_row take_row counted
  import_one-last source_id current k r s v c h u b = rw (
    goes_on-IsUpTo k r.receive_time_us s.previous u h,
    behind,
    import_row-last source_id r s.archive v b,
  )
    where
      behind : position_le (r.receive_time_us, 0) (current, 0) ≡ false
      behind = ground arith

  unfoldable pub AllArrive : List PlatformRow → Type 0
  AllArrive [] = Unit {0}
  AllArrive (r ∷ rows) = Arrives r × AllArrive rows

  pub import_rows-last :
      (source_id : Text) (current k : ℕ) (new : List PlatformRow) (s : Progress)
      → AllArrive new
      → current ≤ k
      → IsAbove platform_key k new
      → IsOrdered platform_key new
      → IsUpTo k s.previous
      → IsBelow platform_key (k + 1) s.archive.platform_sample
      → import_rows codec source_id platform_sample
          (current, 0)
          (map (λ r. encode_row b64encode (platform r)) new)
          s
        ≡ ok (taken new s)
  unfolding import_rows AllArrive taken
  import_rows-last source_id current k [] s v c a o u b = refl
  import_rows-last source_id current k (r ∷ rows) s v c a o u b =
      rw
        (import_one-last source_id current k r s v.0 c a.0 u (
          weaken-IsBelow platform_key (k + 1) r.receive_time_us s.archive.platform_sample
            (omega arith) b))
        (import_rows-last source_id current r.receive_time_us rows (appended r s) v.1 (omega arith)
          o.0 o.1 (omega arith)
          (IsBelow-append platform_key (r.receive_time_us + 1) s.archive.platform_sample (r ∷ [])
            (weaken-IsBelow platform_key (k + 1) (r.receive_time_us + 1) s.archive.platform_sample
              (omega arith) b)
            (omega arith, tt)))

  pub archive-taken :
      (new : List PlatformRow) (s : Progress)
      → (taken new s).archive
        ≡ record s.archive { platform_sample = s.archive.platform_sample ++ new }
  unfolding taken
  archive-taken [] s = ap (λ rows. record s.archive { platform_sample = rows }) (sym (append-nil _))
  archive-taken (r ∷ rows) s =
      archive-taken rows (appended r s)
      ∙ ap (λ rows. record s.archive { platform_sample = rows })
          (append_assoc s.archive.platform_sample (r ∷ []) rows)

  pub previous-taken :
      (k : ℕ) (new : List PlatformRow) (s : Progress)
      → (taken new s).previous ≡ read_last k new s.previous
  unfolding taken last_key
  previous-taken k [] s = refl
  previous-taken k (r ∷ []) s = refl
  previous-taken k (r ∷ t ∷ rows) s = previous-taken k (t ∷ rows) (appended r s)

  pub imported-taken :
      (new : List PlatformRow) (s : Progress) → (taken new s).imported ≡ s.imported + length new
  unfolding taken
  imported-taken [] s = omega arith
  imported-taken (r ∷ rows) s = omega (arith, imported-taken rows (appended r s))
