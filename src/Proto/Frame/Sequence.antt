-- ===== src/Proto/Frame/Sequence.antt =====
-- Frames off a stream: a frame that was sent is received as its message, and leaves the stream at
-- the next frame.
use rail.Prelude.{
  All, ℕ, zero, suc, ◌-◌, ◌%◌, ◌^◌, ◌≤◌, ◌<◌, ◌≡◌, refl, ap, ◌∙◌, true, false, List, [], ◌∷◌, ◌++◌,
  length, take, drop, replicate, ltb, if◌then◌else◌, append_assoc, append-nil, length-append,
  take-append, drop-append, arith,
}
use rail.Result.{Result, ok, fail_message, ◌>>=◌}
use rail.Io.Stream.{read_exact}
use rail.Io.Stream.Reading.{Delivers, read_exact-take}
use rail.Proto.Kind.{MessageType, hello, to_wire}
use rail.Proto.Bytes.{Bytes, le_bytes, of_le_bytes, of_le_bytes-le_bytes}
use rail.Proto.Message.{Message, type_of}
use rail.Proto.Codec.Whole.{encode, decode}
use rail.Proto.RoundTrip.Whole.{Fits, message_inverse, decode-encode}
use rail.Proto.Frame.{magic, max_frame, header_size, overwrite, frame, receive}

-- Magic, type, length, payload: the layout that the class promises.
abbrev pub layout : ℕ → Bytes → Bytes
layout wire payload =
    le_bytes 4 magic ++ (le_bytes 2 wire ++ (le_bytes 4 (length payload % 2 ^ 32) ++ payload))

frame-layout : (m : Message) → Fits m → frame m ≡ layout (to_wire (type_of m)) (encode m [])
unfolding frame overwrite le_bytes
frame-layout m h =
    let p = message_inverse m h in
    let size : length (replicate header_size 0 ++ p.bytes) - header_size ≡ length p.bytes =
      omega (arith, length-append (replicate header_size 0) p.bytes) in
    rw (p.writes (replicate header_size 0), p.writes [], size) refl

-- What follows the header's two reads.
abbrev after_header : (ℕ → Bytes → Result ℕ) → ℕ → ℕ → Bytes → Result (Message × Bytes)
after_header gives wire size rest = do
  (payload, left) ← (if ltb 0 size then read_exact gives size rest else ok ([], rest))
  m ← decode wire payload
  ok (m, left)

receive-header :
    (gives : ℕ → Bytes → Result ℕ) (wire size : ℕ) (rest : Bytes)
    → Delivers gives
    → wire < 2 ^ 16
    → size < 2 ^ 32
    → receive gives (le_bytes 4 magic ++ (le_bytes 2 wire ++ (le_bytes 4 size ++ rest))) ≡ (
        if ltb max_frame size
        then fail_message "frame too large"
        else after_header gives wire size rest)
unfolding receive
receive-header gives wire size rest law w s =
    rw
      (
        read_exact-take gives header_size input law long,
        ◌>>=◌,
        ten,
        eleven,
        magic_read,
        wire_read,
        size_read,
      )
      refl
  where
    input : Bytes
    input = le_bytes 4 magic ++ (le_bytes 2 wire ++ (le_bytes 4 size ++ rest))

    header : Bytes
    header = le_bytes 4 magic ++ (le_bytes 2 wire ++ le_bytes 4 size)

    ten : take header_size input ≡ header
    ten = unfold le_bytes in refl

    eleven : drop header_size input ≡ rest
    eleven = unfold le_bytes in refl

    long : header_size ≤ length input
    long = unfold le_bytes in omega arith

    magic_part : take 4 header ≡ le_bytes 4 magic
    magic_part = unfold le_bytes in refl

    wire_part : take 2 (drop 4 header) ≡ le_bytes 2 wire
    wire_part = unfold le_bytes in refl

    size_part : take 4 (drop 6 header) ≡ le_bytes 4 size
    size_part = unfold le_bytes in refl

    magic_read : of_le_bytes (take 4 header) ≡ magic
    magic_read = ap of_le_bytes magic_part ∙ of_le_bytes-le_bytes 4 magic (omega arith)

    wire_read : of_le_bytes (take 2 (drop 4 header)) ≡ wire
    wire_read = ap of_le_bytes wire_part ∙ of_le_bytes-le_bytes 2 wire (omega arith)

    size_read : of_le_bytes (take 4 (drop 6 header)) ≡ size
    size_read = ap of_le_bytes size_part ∙ of_le_bytes-le_bytes 4 size (omega arith)

after_header-payload :
    (gives : ℕ → Bytes → Result ℕ) (wire : ℕ) (payload rest : Bytes)
    → Delivers gives
    → after_header gives wire (length payload) (payload ++ rest)
      ≡ (do m ← decode wire payload; ok (m, rest))
after_header-payload gives wire [] rest law = refl
after_header-payload gives wire (b ∷ bs) rest law =
    let more : ltb 0 (length (b ∷ bs)) ≡ true = ground arith in
    let there : length (b ∷ bs) ≤ length ((b ∷ bs) ++ rest) =
      omega (arith, length-append bs rest) in
    rw (more, read_exact-take gives (length (b ∷ bs)) ((b ∷ bs) ++ rest) law there)
      (rw (take-append bs rest, drop-append bs rest) refl)

-- A frame whose payload has a length that its header can state is received as what the payload
-- decodes to, or refused for that length.
receive-layout :
    (gives : ℕ → Bytes → Result ℕ) (wire : ℕ) (payload rest : Bytes)
    → Delivers gives
    → wire < 2 ^ 16
    → length payload < 2 ^ 32
    → receive gives (layout wire payload ++ rest) ≡ (
        if ltb max_frame (length payload)
        then fail_message "frame too large"
        else do m ← decode wire payload; ok (m, rest))
receive-layout gives wire payload rest law w s =
    ap (receive gives) regroup
    ∙ receive-header gives wire (length payload) (payload ++ rest) law w s
    ∙ ap (λ t. if ltb max_frame (length payload) then fail_message "frame too large" else t)
        (after_header-payload gives wire payload rest law)
  where
    same : length payload % 2 ^ 32 ≡ length payload
    same = omega arith

    regroup :
        layout wire payload ++ rest
        ≡ le_bytes 4 magic
          ++ (le_bytes 2 wire ++ (le_bytes 4 (length payload) ++ (payload ++ rest)))
    regroup = unfold le_bytes in rw same

to_wire-small : (t : MessageType) → to_wire t < 2 ^ 16
unfolding to_wire
to_wire-small hello = omega arith
to_wire-small _ = omega arith

-- A frame as sent is received as its message, whatever follows it on the stream and in whatever
-- pieces it arrives, where the message's values fit its fields and its payload fits a frame.
pub receive-frame :
    (gives : ℕ → Bytes → Result ℕ) (m : Message) (rest : Bytes)
    → Delivers gives
    → Fits m
    → length (encode m []) ≤ max_frame
    → receive gives (frame m ++ rest) ≡ ok (m, rest)
receive-frame gives m rest law h s =
    let small : ltb max_frame (length (encode m [])) ≡ false = ground arith in
    ap (λ t. receive gives (t ++ rest)) (frame-layout m h)
    ∙ receive-layout gives (to_wire (type_of m)) (encode m []) rest law (to_wire-small (type_of m))
        (omega arith)
    ∙ rw (small, ← append-nil (encode m [])) (rw (decode-encode m [] h) refl)

-- Sending checks no limit: a message whose payload is longer than a frame may be goes out whole,
-- and the peer refuses it.
pub receive-frame_oversize :
    (gives : ℕ → Bytes → Result ℕ) (m : Message) (rest : Bytes)
    → Delivers gives
    → Fits m
    → max_frame < length (encode m [])
    → length (encode m []) < 2 ^ 32
    → receive gives (frame m ++ rest) ≡ fail_message "frame too large"
receive-frame_oversize gives m rest law h big s =
    let large : ltb max_frame (length (encode m [])) ≡ true = ground arith in
    ap (λ t. receive gives (t ++ rest)) (frame-layout m h)
    ∙ receive-layout gives (to_wire (type_of m)) (encode m []) rest law (to_wire-small (type_of m))
        s
    ∙ rw large

-- What a sender may send: values that fit, in a payload that fits a frame.
abbrev pub Sendable : Message → Type 0
Sendable m = Fits m × (length (encode m []) ≤ max_frame)

-- The frames of several messages, one behind the other.
unfoldable pub frames : List Message → Bytes
frames [] = []
frames (m ∷ messages) = frame m ++ frames messages

-- Calls of receive, one for each message that is expected.
unfoldable pub receive_all : (ℕ → Bytes → Result ℕ) → ℕ → Bytes → Result (List Message × Bytes)
receive_all gives zero input = ok ([], input)
receive_all gives (suc n) input = do
  (m, rest) ← receive gives input
  (messages, left) ← receive_all gives n rest
  ok (m ∷ messages, left)

-- Messages whose values fit their fields and whose payloads are at most kMaxFrame long arrive as they
-- were sent and in that order, however the stream cuts them while each read delivers, and the stream
-- is left where they end.
pub receive_all-frames :
    (gives : ℕ → Bytes → Result ℕ) (messages : List Message) (rest : Bytes)
    → Delivers gives
    → All Sendable messages
    → receive_all gives (length messages) (frames messages ++ rest) ≡ ok (messages, rest)
unfolding frames receive_all
receive_all-frames gives [] rest law h = refl
receive_all-frames gives (m ∷ messages) rest law ((fits, small), hs) = rw (
  append_assoc,
  receive-frame gives m (frames messages ++ rest) law fits small,
  ◌>>=◌,
  receive_all-frames gives messages rest law hs,
)
