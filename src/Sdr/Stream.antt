-- ===== src/Sdr/Stream.antt =====
-- What src/python/gizmo_sdr.py sends on one socket: frames, one behind the other.
use Prim.Native.Nat.{min}
use gizmo.Prelude.{
  ℕ, zero, suc, ◌+◌, ◌≤◌, ◌≡◌, refl, ap, sym, ◌∙◌, Option, none, some, List, [], ◌∷◌, ◌++◌, ◌==◌,
  ==_iff, length, take, drop, length-drop, arith, Bool-cases, inl, inr, if_cases, subst,
}
use mathlib.Core.List.{append-nil, append_assoc}
use gizmo.Sdr.{
  Bytes, Send, room, blocked, broken, Client, rest_of, pending_or, after_send, send_pending,
  serve_client, keep_client, serve_clients, accept, serve_round,
}

-- Frames out of those that were read, in their order; both lists have the latest first.
pub data Chosen : List Bytes → List Bytes → Type 0 where
  none_read : Chosen [] []
  passed :
      {chosen frames : List Bytes} (f : Bytes) → Chosen chosen frames → Chosen chosen (f ∷ frames)
  took :
      {chosen frames : List Bytes} (f : Bytes)
      → Chosen chosen frames
      → Chosen (f ∷ chosen) (f ∷ frames)

-- Frames one behind the other, the latest at the end.
unfoldable pub joined : List Bytes → Bytes
joined [] = []
joined (f ∷ older) = joined older ++ f

-- All frames were sent whole, but for the latest where it is pending: as much of that as its offset.
abbrev pub IsSent : List Bytes → Option (Bytes × ℕ) → Bytes → Type 0
IsSent chosen none sent = sent ≡ joined chosen
IsSent [] (some p) sent = ⊥
IsSent (f ∷ older) (some p) sent =
    (f ≡ p.0) × (p.1 ≤ length p.0) × (sent ≡ joined older ++ take p.1 p.0)

abbrev pub IsStream : List Bytes → Client → Type 0
IsStream frames c = (chosen : List Bytes) × Chosen chosen frames × IsSent chosen c.pending c.sent

abbrev pub AllStreams : List Bytes → List Client → Type 0
AllStreams frames [] = Unit {0}
AllStreams frames (c ∷ clients) = IsStream frames c × AllStreams frames clients

take-nil : (n : ℕ) → take {A = ℕ} n [] ≡ []
take-nil zero = refl
take-nil (suc n) = refl

take-add : (n m : ℕ) (f : Bytes) → take n f ++ take m (drop n f) ≡ take (n + m) f
take-add zero m f = ap (λ k. take k f) (omega arith)
take-add (suc n) m [] = take-nil m ∙ sym (take-nil (suc n + m))
take-add (suc n) m (b ∷ f) = ap (λ g. b ∷ g) (take-add n m f) ∙ ap (λ k. take k (b ∷ f)) more
  where
    more : suc (n + m) ≡ suc n + m
    more = omega arith

take_all : (f : Bytes) → take (length f) f ≡ f
take_all [] = refl
take_all (b ∷ f) = ap (λ g. b ∷ g) (take_all f)

-- A client whose latest frame was sent up to an offset.
rest_of-IsSent :
    (older : List Bytes) (frame : Bytes) (offset : ℕ) (sent : Bytes)
    → offset ≤ length frame
    → sent ≡ joined older ++ take offset frame
    → IsSent (frame ∷ older) (rest_of frame offset) sent
unfolding rest_of joined
rest_of-IsSent older frame offset sent l e =
    if_cases (λ (p : Option (Bytes × ℕ)). IsSent (frame ∷ older) p sent) (offset == length frame)
      none (some (frame, offset))
      (λ t.
        e
        ∙ ap (λ f. joined older ++ f)
            (ap (λ k. take k frame) ((==_iff offset (length frame)).0 t) ∙ take_all frame))
      (λ t. (refl, l, e))

after_send-IsStream :
    (frames older : List Bytes) (frame : Bytes) (offset count : ℕ) (c : Client) {d : Client}
    → Chosen (frame ∷ older) frames
    → offset + count ≤ length frame
    → c.sent ≡ joined older ++ take offset frame
    → after_send frame offset c count ≡ some d
    → IsStream frames d
unfolding after_send
after_send-IsStream frames older frame offset count c {d} h l e s = elim (Bool-cases (count == 0)) [
  | inl z ↦ absurd (ground arith)
  | inr nz ↦ subst (IsStream frames) (ground arith) (
    frame ∷ older,
    h,
    rest_of-IsSent older frame (offset + count) (c.sent ++ take count (drop offset frame)) l
        sent_more,
  )
]
  where
    sent_more :
        c.sent ++ take count (drop offset frame) ≡ joined older ++ take (offset + count) frame
    sent_more =
        ap (λ t. t ++ take count (drop offset frame)) e
        ∙ append_assoc (joined older) (take offset frame) (take count (drop offset frame))
        ∙ ap (λ t. joined older ++ t) (take-add offset count frame)

-- The pending frame is the latest of those that were chosen.
send_pending-IsStream :
    (frames older : List Bytes) (frame : Bytes) (offset : ℕ) (c : Client) (s : Send) {d : Client}
    → Chosen (frame ∷ older) frames
    → offset ≤ length frame
    → c.sent ≡ joined older ++ take offset frame
    → send_pending (frame, offset) c s ≡ some d
    → IsStream frames d
unfolding send_pending
send_pending-IsStream frames older frame offset c (room n) h l e s =
    after_send-IsStream frames older frame offset (min n (length (drop offset frame))) c h
      (omega (arith, length-drop offset frame)) e s
send_pending-IsStream frames older frame offset c blocked {d} h l e s =
    let same : ◌≡◌ {A = Client} (record c { pending = some (frame, offset) }) d = cc in
    subst (IsStream frames) same (frame ∷ older, h, (refl, l, e))
send_pending-IsStream frames older frame offset c broken h l e s = cc

-- A client with what it had pending.
pending-IsStream :
    (frames chosen : List Bytes) (frame : Bytes) (p : Option (Bytes × ℕ)) (s : Send) (c : Client)
    {d : Client}
    → Chosen chosen frames
    → IsSent chosen p c.sent
    → send_pending (pending_or frame p) c s ≡ some d
    → IsStream (frame ∷ frames) d
unfolding pending_or
pending-IsStream frames chosen frame none s c h i e =
    send_pending-IsStream (frame ∷ frames) chosen frame 0 c s (took frame h) (omega arith)
      (i ∙ sym (append-nil (joined chosen))) e
pending-IsStream frames [] frame (some p) s c h i e = absurd i
pending-IsStream frames (f ∷ older) frame (some p) s c h (same, l, sent) e =
    send_pending-IsStream (frame ∷ frames) older p.0 p.1 c s
      (passed frame (subst (λ (g : Bytes). Chosen (g ∷ older) frames) same h)) l sent e

serve_client-IsStream :
    (frames : List Bytes) (frame : Bytes) (s : Send) (c : Client) {d : Client}
    → IsStream frames c
    → serve_client frame s c ≡ some d
    → IsStream (frame ∷ frames) d
unfolding serve_client
serve_client-IsStream frames frame s c (chosen, h, i) e =
    pending-IsStream frames chosen frame c.pending s c h i e

keep_client-AllStreams :
    (frames : List Bytes) (o : Option Client) (clients : List Client)
    → ((d : Client) → o ≡ some d → IsStream frames d)
    → AllStreams frames clients
    → AllStreams frames (keep_client o clients)
unfolding keep_client
keep_client-AllStreams frames none clients h a = a
keep_client-AllStreams frames (some d) clients h a = (h d refl, a)

serve_clients-AllStreams :
    (frames : List Bytes) (frame : Bytes) (sends : List Send) (clients : List Client)
    → AllStreams frames clients
    → AllStreams (frame ∷ frames) (serve_clients frame sends clients)
unfolding serve_clients
serve_clients-AllStreams frames frame sends [] a = tt
serve_clients-AllStreams frames frame [] (c ∷ clients) a =
    keep_client-AllStreams (frame ∷ frames) (serve_client frame blocked c) _
      (λ d e. serve_client-IsStream frames frame blocked c a.0 e)
      (serve_clients-AllStreams frames frame [] clients a.1)
serve_clients-AllStreams frames frame (s ∷ sends) (c ∷ clients) a =
    keep_client-AllStreams (frame ∷ frames) (serve_client frame s c) _
      (λ d e. serve_client-IsStream frames frame s c a.0 e)
      (serve_clients-AllStreams frames frame sends clients a.1)

passed_all : (frames : List Bytes) → Chosen [] frames
passed_all [] = none_read
passed_all (f ∷ frames) = passed f (passed_all frames)

append-AllStreams :
    (frames : List Bytes) (clients : List Client) (c : Client)
    → AllStreams frames clients
    → IsStream frames c
    → AllStreams frames (clients ++ c ∷ [])
append-AllStreams frames [] c a i = (i, tt)
append-AllStreams frames (d ∷ clients) c a i = (a.0, append-AllStreams frames clients c a.1 i)

accept-AllStreams :
    (frames : List Bytes) (n : ℕ) (clients : List Client)
    → AllStreams frames clients
    → AllStreams frames (accept n clients)
unfolding accept joined
accept-AllStreams frames zero clients a = a
accept-AllStreams frames (suc n) clients a =
    accept-AllStreams frames n _
      (append-AllStreams frames clients _ a ([], passed_all frames, refl))

-- What `main` makes of its clients round by round, with the frames that it read, the latest first.
pub data Served : List Bytes → List Client → Type 0 where
  starts : Served [] []
  serves :
      {frames : List Bytes} {clients : List Client} (connections : ℕ) (frame : Bytes)
      (sends : List Send)
      → Served frames clients
      → Served (frame ∷ frames) (serve_round connections frame sends clients)

-- Whatever connections, frames and sockets the rounds bring, what was sent to each client that is
-- still served is a sequence of whole frames out of those read, in their order, but for the last
-- one where it is pending: of that, as much as its offset says.
pub served-AllStreams :
    (frames : List Bytes) (clients : List Client)
    → Served frames clients
    → AllStreams frames clients
unfolding serve_round
served-AllStreams frames clients starts = tt
served-AllStreams _ _ (serves {frames} {clients} connections frame sends r) =
    serve_clients-AllStreams frames frame sends (accept connections clients)
      (accept-AllStreams frames connections clients (served-AllStreams frames clients r))
