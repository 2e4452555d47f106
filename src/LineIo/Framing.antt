-- ===== src/LineIo/Framing.antt =====
-- hsm-core/src/lineio.rs assembles exactly the lines that were sent.
use picosignet.Prelude.{
  ℕ, ◌≤◌, ◌≡◌, ◌≢◌, refl, ◌∙◌, List, [], ◌∷◌, ◌++◌, map, true, false, arith, leb, if◌then◌else◌,
  length, length-append, All, Bool-cases, inl, inr,
}
use picosignet.Prelude.Bytes.{Bytes}
use picosignet.LineIo.{Event, line, too_long, LineAssembler, new, push, feed, trim_cr, max_line}
use mathlib.Core.List.{append_assoc, append-nil}

-- The buffer never outgrows the cap, and a line that is being drained holds none.
pub record IsBounded (s : LineAssembler) : Type 0 where
  pub fits : length s.buf ≤ max_line
  pub drained : s.overflowed ≡ true → s.buf ≡ []

push-IsBounded : (b : ℕ) (s : LineAssembler) → IsBounded s → IsBounded (push b s).1
unfolding push
push-IsBounded b s v = record {
  fits = ground (arith, length-append s.buf (b ∷ []));
  drained = λ o. ground (arith, v.drained);
}

-- Whatever bytes arrive at an assembler whose buffer is within the cap, it stays within the cap.
pub feed-IsBounded : (bs : Bytes) (s : LineAssembler) → IsBounded s → IsBounded (feed bs s).1
unfolding feed
feed-IsBounded [] s v = v
feed-IsBounded (b ∷ bs) s v = feed-IsBounded bs (push b s).1 (push-IsBounded b s v)

-- A line is sent as its bytes, none of them a newline, and a newline.
abbrev pub IsLine : Bytes → Type 0
IsLine = All (λ b. b ≢ 10)

-- What the receiver is told of a line.
unfoldable pub event_of : Bytes → Event
event_of l = if leb (length l) max_line then line (trim_cr l) else too_long

unfoldable pub send : List Bytes → Bytes
send [] = []
send (l ∷ ls) = l ++ (10 ∷ send ls)

feed_newline :
    (rest : Bytes) (s : LineAssembler)
    → feed (10 ∷ rest) s ≡ (
      (if s.overflowed then too_long else line (trim_cr s.buf)) ∷ (feed rest new).0,
      (feed rest new).1,
    )
unfolding feed push
feed_newline rest s = ground arith

abbrev draining : LineAssembler
draining = record { buf = []; overflowed = true }

abbrev holding : Bytes → LineAssembler
holding b = record { buf = b; overflowed = false }

feed_drained_byte : (b : ℕ) (bs : Bytes) → b ≢ 10 → feed (b ∷ bs) draining ≡ feed bs draining
unfolding feed push
feed_drained_byte b bs h = ground arith

feed_drain :
    (l rest : Bytes)
    → IsLine l
    → feed (l ++ (10 ∷ rest)) draining ≡ (too_long ∷ (feed rest new).0, (feed rest new).1)
feed_drain [] rest h = feed_newline rest draining
feed_drain (b ∷ l) rest h = feed_drained_byte b (l ++ (10 ∷ rest)) h.0 ∙ feed_drain l rest h.1

feed_byte :
    (b : ℕ) (bs held : Bytes)
    → b ≢ 10
    → feed (b ∷ bs) (holding held) ≡ (
        if leb max_line (length held) then feed bs draining else feed bs (holding (held ++ b ∷ [])))
unfolding feed push
feed_byte b bs held h = ground arith

-- What the receiver is told, with the bytes that are held so far in front.
feed_line :
    (l rest held : Bytes)
    → IsLine l
    → length held ≤ max_line
    → feed (l ++ (10 ∷ rest)) (holding held)
      ≡ (event_of (held ++ l) ∷ (feed rest new).0, (feed rest new).1)
unfolding event_of
feed_line [] rest held h fits = feed_newline rest (holding held) ∙ rw append-nil (ground arith)
feed_line (b ∷ l) rest held h fits = elim (Bool-cases (leb max_line (length held))) [
  | inl full ↦
      feed_byte b (l ++ (10 ∷ rest)) held h.0
      ∙ rw full (feed_drain l rest h.1 ∙ ground (arith, length-append held (b ∷ l)))
  | inr room ↦
      feed_byte b (l ++ (10 ∷ rest)) held h.0
      ∙ rw room (
          rw (append_assoc held (b ∷ []) l) at
            (feed_line l rest (held ++ b ∷ []) h.1 (rw length-append (ground arith))))
]

-- From a fresh assembler, any lines in a row come out as one event each, in order: the line with one
-- trailing CR removed where it fits the cap, and `too_long` where it does not; the assembler is
-- then fresh again, so a line that was dropped costs the next one nothing.
pub feed-send : (ls : List Bytes) → All IsLine ls → feed (send ls) new ≡ (map event_of ls, new)
unfolding send
feed-send [] h = unfold feed in refl
feed-send (l ∷ ls) h = feed_line l (send ls) [] h.0 (omega arith) ∙ rw (feed-send ls h.1)
