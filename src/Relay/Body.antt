-- ===== src/Relay/Body.antt =====
-- `pumpRequestBody` of worker/src/tunnel/tunnel-do.ts: a request's body goes to the tunnel.
-- The reader gives the chunks and then ends or fails; `works` says of every `send` whether it works.
-- `MAX_CHUNK_BYTES` is the argument `max_chunk`.
use bb_shared.Base.{
  append_assoc, ℕ, zero, suc, ◌≤◌, ◌<◌, ◌≡◌, refl, sym, ap, ◌∙◌, List, [], ◌∷◌, ◌++◌, Bool, true,
  false, not, map, All, All-append, length, take, drop, codes, if◌then◌else◌, inl, inr, arith,
  Bool-cases,
}
use bb_shared.Relay.{
  Bytes, Frame, open_http, body_chunk, body_end, resp_head, open_ws, ws_open_ack, ws_data,
  close_stream,
}

abbrev pub frames_of : ℕ → List Bytes → List Frame
frames_of k parts = map (body_chunk k) parts

-- The first `send` that fails is the last.
unfoldable pub send_while : (ℕ → Bool) → ℕ → List Frame → List Frame
send_while works i [] = []
send_while works i (frame ∷ frames) =
    let rest = send_while works (suc i) frames in if works i then frame ∷ rest else []

module _ (max_chunk : ℕ) where
  -- The inner loop over one chunk of the reader, on fuel: as many rounds as there are bytes.
  unfoldable pub slices : ℕ → Bytes → List Bytes
  slices zero value = []
  slices (suc fuel) [] = []
  slices (suc fuel) (b ∷ value) =
      take max_chunk (b ∷ value) ∷ slices fuel (drop max_chunk (b ∷ value))

  -- The frames for the reader's chunks, in order, with the last one.
  unfoldable pub body_frames : ℕ → List Bytes → Bool → List Frame
  body_frames k [] fails =
      (if fails then close_stream k 1011 (codes "request body error") else body_end k) ∷ []
  body_frames k (value ∷ values) fails =
      frames_of k (slices (length value) value) ++ body_frames k values fails

  unfoldable pub pump_request_body : (ℕ → Bool) → ℕ → List Bytes → Bool → List Frame
  pump_request_body works k values fails = send_while works 0 (body_frames k values fails)

-- The bytes that frames carry.
abbrev pub carried : List Frame → Bytes
carried [] = []
carried (body_chunk k payload ∷ frames) = payload ++ carried frames
carried (_ ∷ frames) = carried frames

abbrev pub concat : List Bytes → Bytes
concat [] = []
concat (value ∷ values) = value ++ concat values

-- The end of the body is among the frames.
abbrev pub ends : List Frame → Bool
ends [] = false
ends (body_end k ∷ frames) = true
ends (_ ∷ frames) = ends frames

-- A frame whose bytes are within the limit.
abbrev pub IsSendable : ℕ → Frame → Type 0
IsSendable max_chunk (body_chunk k payload) = (0 < length payload) × (length payload ≤ max_chunk)
IsSendable max_chunk _ = Unit

take-drop : (n : ℕ) (s : Bytes) → take n s ++ drop n s ≡ s
take-drop zero s = refl
take-drop (suc n) [] = refl
take-drop (suc n) (x ∷ s) = ap (◌∷◌ x) (take-drop n s)

length-take : (n : ℕ) (s : Bytes) → length (take n s) ≤ n
length-take zero s = omega arith
length-take (suc n) [] = omega arith
length-take (suc n) (x ∷ s) = omega (arith, length-take n s)

length-drop : (n : ℕ) (s : Bytes) → length (drop n s) ≤ length s
length-drop zero s = omega arith
length-drop (suc n) [] = omega arith
length-drop (suc n) (x ∷ s) = omega (arith, length-drop n s)

length-take-pos : (n : ℕ) (b : ℕ) (s : Bytes) → 0 < n → 0 < length (take n (b ∷ s))
length-take-pos zero b s h = absurd (omega arith)
length-take-pos (suc n) b s h = omega arith

length-drop-pos : (n : ℕ) (b : ℕ) (s : Bytes) → 0 < n → length (drop n (b ∷ s)) ≤ length s
length-drop-pos zero b s h = absurd (omega arith)
length-drop-pos (suc n) b s h = length-drop n s

carried-frames_of :
    (k : ℕ) (parts : List Bytes) (frames : List Frame)
    → carried (frames_of k parts ++ frames) ≡ concat parts ++ carried frames
carried-frames_of k [] frames = refl
carried-frames_of k (part ∷ parts) frames =
    ap (◌++◌ part) (carried-frames_of k parts frames)
    ∙ sym (append_assoc part (concat parts) (carried frames))

-- The end of the body, if it is among the frames, is the last.
abbrev ends_last : List Frame → Bool
ends_last [] = true
ends_last (body_end k ∷ []) = true
ends_last (body_end k ∷ _ ∷ frames) = false
ends_last (_ ∷ frames) = ends_last frames

ends_last-frames_of :
    (k : ℕ) (parts : List Bytes) (frames : List Frame)
    → ends_last (frames_of k parts ++ frames) ≡ ends_last frames
ends_last-frames_of k [] frames = refl
ends_last-frames_of k (part ∷ parts) frames = ends_last-frames_of k parts frames

ends-frames_of :
    (k : ℕ) (parts : List Bytes) (frames : List Frame)
    → ends (frames_of k parts ++ frames) ≡ ends frames
ends-frames_of k [] frames = refl
ends-frames_of k (part ∷ parts) frames = ends-frames_of k parts frames

send_while_whole :
    (works : ℕ → Bool) (i : ℕ) (frames : List Frame)
    → ends_last frames ≡ true
    → ends (send_while works i frames) ≡ true
    → send_while works i frames ≡ frames
unfolding send_while
send_while_whole works i [] l e = refl
send_while_whole works i (body_end k ∷ []) l e = ground (arith, e)
send_while_whole works i (body_end k ∷ frame ∷ frames) l e = cc
send_while_whole works i (body_chunk k payload ∷ frames) l e =
    ground (arith, send_while_whole works (suc i) frames)
send_while_whole works i (close_stream k code reason ∷ frames) l e =
    ground (arith, send_while_whole works (suc i) frames)
send_while_whole works i (resp_head _ _ _ ∷ frames) l e =
    ground (arith, send_while_whole works (suc i) frames)
send_while_whole works i (open_http _ _ _ _ _ ∷ frames) l e =
    ground (arith, send_while_whole works (suc i) frames)
send_while_whole works i (open_ws _ _ _ _ ∷ frames) l e =
    ground (arith, send_while_whole works (suc i) frames)
send_while_whole works i (ws_open_ack _ _ ∷ frames) l e =
    ground (arith, send_while_whole works (suc i) frames)
send_while_whole works i (ws_data _ _ _ ∷ frames) l e =
    ground (arith, send_while_whole works (suc i) frames)

send_while-All :
    (P : Frame → Type 0) (works : ℕ → Bool) (i : ℕ) (frames : List Frame)
    → All P frames
    → All P (send_while works i frames)
unfolding send_while
send_while-All P works i [] h = tt
send_while-All P works i (frame ∷ frames) (p, h) = elim (Bool-cases (works i)) [
  | inl sends ↦ rw sends (p, send_while-All P works (suc i) frames h)
  | inr stops ↦ rw stops tt
]

module _ (max_chunk : ℕ) where
  slices-concat :
      (fuel : ℕ) (value : Bytes)
      → 0 < max_chunk
      → length value ≤ fuel
      → concat (slices max_chunk fuel value) ≡ value
  unfolding slices
  slices-concat zero [] p h = refl
  slices-concat zero (b ∷ value) p h = absurd (omega arith)
  slices-concat (suc fuel) [] p h = refl
  slices-concat (suc fuel) (b ∷ value) p h =
      let shorter = length-drop-pos max_chunk b value p in
      ap (◌++◌ (take max_chunk (b ∷ value)))
        (slices-concat fuel (drop max_chunk (b ∷ value)) p (omega (arith, h, shorter)))
      ∙ take-drop max_chunk (b ∷ value)

  slices-IsSendable :
      (k fuel : ℕ) (value : Bytes)
      → 0 < max_chunk
      → All (IsSendable max_chunk) (frames_of k (slices max_chunk fuel value))
  unfolding slices
  slices-IsSendable k zero value p = tt
  slices-IsSendable k (suc fuel) [] p = tt
  slices-IsSendable k (suc fuel) (b ∷ value) p = (
    (length-take-pos max_chunk b value p, length-take max_chunk (b ∷ value)),
    slices-IsSendable k fuel (drop max_chunk (b ∷ value)) p,
  )

  carried-body_frames :
      (k : ℕ) (values : List Bytes) (fails : Bool)
      → 0 < max_chunk
      → carried (body_frames max_chunk k values fails) ≡ concat values
  unfolding body_frames
  carried-body_frames k [] true p = refl
  carried-body_frames k [] false p = refl
  carried-body_frames k (value ∷ values) fails p =
      carried-frames_of k (slices max_chunk (length value) value)
        (body_frames max_chunk k values fails)
      ∙ (ap (λ s. s ++ carried (body_frames max_chunk k values fails))
            (slices-concat (length value) value p (omega arith))
          ∙ ap (◌++◌ value) (carried-body_frames k values fails p))

  body_frames-IsSendable :
      (k : ℕ) (values : List Bytes) (fails : Bool)
      → 0 < max_chunk
      → All (IsSendable max_chunk) (body_frames max_chunk k values fails)
  unfolding body_frames
  body_frames-IsSendable k [] true p = (tt, tt)
  body_frames-IsSendable k [] false p = (tt, tt)
  body_frames-IsSendable k (value ∷ values) fails p =
      All-append (IsSendable max_chunk) (frames_of k (slices max_chunk (length value) value))
        (body_frames max_chunk k values fails) (slices-IsSendable k (length value) value p)
        (body_frames-IsSendable k values fails p)

  body_frames-ends :
      (k : ℕ) (values : List Bytes) (fails : Bool)
      → (ends_last (body_frames max_chunk k values fails) ≡ true)
        × (ends (body_frames max_chunk k values fails) ≡ not fails)
  unfolding body_frames
  body_frames-ends k [] true = (refl, refl)
  body_frames-ends k [] false = (refl, refl)
  body_frames-ends k (value ∷ values) fails =
      let (l, e) = body_frames-ends k values fails in
      let parts = slices max_chunk (length value) value in
      let more = body_frames max_chunk k values fails in
      (ends_last-frames_of k parts more ∙ l, ends-frames_of k parts more ∙ e)

-- Whatever sends fail, no chunk that goes to the tunnel is empty or above the limit, which is not
-- zero.
pub pump_request_body-IsSendable :
    (max_chunk : ℕ) (works : ℕ → Bool) (k : ℕ) (values : List Bytes) (fails : Bool)
    → 0 < max_chunk
    → All (IsSendable max_chunk) (pump_request_body max_chunk works k values fails)
unfolding pump_request_body
pump_request_body-IsSendable max_chunk works k values fails p =
    send_while-All (IsSendable max_chunk) works 0 (body_frames max_chunk k values fails)
      (body_frames-IsSendable max_chunk k values fails p)

-- If the end of the body goes to the tunnel, then the reader did not fail, and the chunks before it
-- are the whole body. The limit on a chunk is not zero.
pub pump_request_body-ends :
    (max_chunk : ℕ) (works : ℕ → Bool) (k : ℕ) (values : List Bytes) (fails : Bool)
    → 0 < max_chunk
    → ends (pump_request_body max_chunk works k values fails) ≡ true
    → (fails ≡ false) × (carried (pump_request_body max_chunk works k values fails) ≡ concat values)
unfolding pump_request_body
pump_request_body-ends max_chunk works k values fails p e =
    let frames = body_frames max_chunk k values fails in
    let (l, m) = body_frames-ends max_chunk k values fails in
    let whole : send_while works 0 frames ≡ frames = send_while_whole works 0 frames l e in
    let ended : ends frames ≡ true = sym (ap ends whole) ∙ e in
    (ground (arith, m, ended), ap carried whole ∙ carried-body_frames max_chunk k values fails p)
