-- ===== src/Historian/Recorder/Epochs.antt =====
-- `_ensure_stream` of src/python/gizmo_historian.py: when a sample goes on in the stream of the last.
use gizmo.Prelude.{
  ℕ, ◌<◌, ◌≡◌, ◌↔◌, refl, ap, sym, ◌∙◌, true, not, ◌&&◌, Option, none, some, arith, subst,
}
use gizmo.Text.{Text, text_eq}
use gizmo.Common.{ℤ}
use gizmo.Historian.Store.{begin_stream, end_stream, record_event, insert_event}
use gizmo.Historian.Archive.{Archive}
use gizmo.Historian.Store.Streams.{known, known-last}
use gizmo.Historian.Recorder.{
  Python, HistorianRecorder, and_then, ◌>>◌, stored, put_event, Reason, goes_back, stream_reason,
  end_old, restart_stream, start_stream, return_stream, ensure_stream_of,
}

-- A stream that is on the books: its row is there, and its id is below the next.
abbrev pub IsKnown : ℕ → Archive → Type 0
IsKnown id a = (id < a.next_stream_id) × (known id a.stream ≡ true)

streams-record_event :
    (now : ℕ) (key summary severity : Text) (source : Option ℕ) (details : Text) (a b : Archive)
    → record_event now key summary severity source details none a ≡ some b
    → (b.next_stream_id ≡ a.next_stream_id) × (b.stream ≡ a.stream)
unfolding record_event insert_event
streams-record_event now key summary severity source details a b e = (ground arith, ground arith)

next-end_old :
    (now : ℕ) (o : Option ℕ) (a : Archive) → (end_old now o a).next_stream_id ≡ a.next_stream_id
unfolding end_old end_stream
next-end_old now none a = refl
next-end_old now (some id) a = refl

-- A result is a pair of its parts.
pair-eq :
    {N A : Type 0} (r s : HistorianRecorder N) (o : Option A) (a : A)
    → ◌≡◌ {A = HistorianRecorder N × Option A} (r, o) (s, some a)
    → (r ≡ s) × (o ≡ some a)
pair-eq {N} {A} r s o a e = (
  ap (λ (x : HistorianRecorder N × Option A). x.0) e,
  ap (λ (x : HistorianRecorder N × Option A). x.1) e,
)

module _ {N : Type 0} (boot_id : Text) (sequence : Option ℤ) where
  -- The recorder as `_ensure_stream` returns.
  abbrev noted : Archive → HistorianRecorder N → HistorianRecorder N
  noted a r = record r { archive = a; boot_id = boot_id; last_sequence = sequence }

  after_event :
      (o : Option Archive) (r s : HistorianRecorder N) (id : ℕ)
      → and_then (stored o r) (λ _. return_stream boot_id sequence) ≡ (s, some id)
      → (b : Archive) × (o ≡ some b) × (noted b r ≡ s) × (r.stream_id ≡ some id)
  unfolding and_then stored return_stream
  after_event none r s id e = absurd (ground arith)
  after_event (some b) r s id e =
      let (same, found) = pair-eq (noted b r) s r.stream_id id e in (b, refl, same, found)

-- What `_ensure_stream` has found and left.
pub record IsEnsured {N : Type 0} (boot_id : Text) (sequence : Option ℤ) (id : ℕ)
    (s : HistorianRecorder N) : Type 0 where
  pub stream : s.stream_id ≡ some id
  pub there : IsKnown id s.archive
  pub boot : s.boot_id ≡ boot_id
  pub last : s.last_sequence ≡ sequence

stream_reason-eq-none :
    (o : Option ℕ) (old : ℕ) (boot_id last_boot : Text) (sequence last : Option ℤ)
    → o ≡ some old
    → (stream_reason o boot_id last_boot sequence last ≡ none)
      ↔ ((text_eq boot_id last_boot && not (goes_back sequence last)) ≡ true)
unfolding stream_reason
stream_reason-eq-none none old boot_id last_boot sequence last e = cc
stream_reason-eq-none (some id) old boot_id last_boot sequence last e = ground arith

module _ {N : Type 0} (py : Python N) (now : ℕ) (boot_id : Text) (sequence : Option ℤ) where
  start_stream-IsEnsured :
      (o : Option Reason) (r s : HistorianRecorder N) (old id : ℕ)
      → r.stream_id ≡ some old
      → IsKnown old r.archive
      → (start_stream py now boot_id sequence o >> return_stream boot_id sequence) r ≡ (s, some id)
      → ((id ≡ old) ↔ (o ≡ none)) × IsEnsured boot_id sequence id s
  unfolding start_stream ◌>>◌ and_then return_stream put_event restart_stream begin_stream
  start_stream-IsEnsured none r s old id h l e =
      let (same, found) = pair-eq (noted boot_id sequence r.archive r) s r.stream_id id e in
      let id_e : id ≡ old = ground arith in
      (
        (λ _. refl, λ _. id_e),
        subst (IsEnsured boot_id sequence id) same (record {
          stream = found;
          there = subst (λ n. IsKnown n r.archive) (sym id_e) l;
          boot = refl;
          last = refl;
        }),
      )
  start_stream-IsEnsured (some reason) r s old id h l e =
      let (b, done, same, found) =
        after_event boot_id sequence _ (restart_stream now boot_id sequence reason r) s id e in
      let next = streams-record_event now _ _ _ none _ _ b done in
      let id_e : id ≡ r.archive.next_stream_id =
        ground (arith, next-end_old now r.stream_id r.archive) in
      let known_after : known id b.stream ≡ true =
        subst (λ n. known n b.stream ≡ true) (next-end_old now r.stream_id r.archive ∙ sym id_e)
          (subst
            (λ streams. known (end_old now r.stream_id r.archive).next_stream_id streams ≡ true)
            (sym next.1) (known-last _ (end_old now r.stream_id r.archive).stream)) in
      (
        (λ i. absurd (omega (arith, l.0)), λ n. cc),
        subst (IsEnsured boot_id sequence id) same (record {
          stream = found;
          there =
              (omega (arith, next.0, next-end_old now r.stream_id r.archive, id_e), known_after);
          boot = refl;
          last = refl;
        }),
      )

  -- For a recorder with a stream whose row is in the archive, its id below the next one's: where
  -- `_ensure_stream` returns, it returns that stream exactly if the boot is the last one's and the
  -- sequence, where both samples have one, does not go back; and the row of the stream it returns
  -- is in the archive, its id below the next one's, and the stream is kept with the boot and the
  -- sequence.
  pub ensure_stream_of-IsEnsured :
      (r s : HistorianRecorder N) (old id : ℕ)
      → r.stream_id ≡ some old
      → IsKnown old r.archive
      → ensure_stream_of py now boot_id sequence r ≡ (s, some id)
      → ((id ≡ old)
          ↔ ((text_eq boot_id r.boot_id && not (goes_back sequence r.last_sequence)) ≡ true))
        × IsEnsured boot_id sequence id s
  unfolding ensure_stream_of
  ensure_stream_of-IsEnsured r s old id h l e =
      let (goes_on, ensured) = start_stream-IsEnsured _ r s old id h l e in
      let link =
        stream_reason-eq-none r.stream_id old boot_id r.boot_id sequence r.last_sequence h in
      ((λ i. link.0 (goes_on.0 i), λ t. goes_on.1 (link.1 t)), ensured)
