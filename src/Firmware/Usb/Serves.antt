-- ===== src/Firmware/Usb/Serves.antt =====
-- hsm-fw/src/usb.rs: what becomes of the lines that a host sends.
use picosignet.Prelude.{
  ◌≡◌, refl, sym, ap, ◌∙◌, List, [], ◌∷◌, ◌++◌, map, Option, none, some, Result, ok, err, Exec,
  pure, resume, ◌>>=◌, ◌>>◌, All,
}
use picosignet.Prelude.Bytes.{Bytes}
use picosignet.Hal.{FlashStore, EntropySource, Monotonic}
use picosignet.Crypto.{Crypto, ChaCha}
use picosignet.Storage.Record.{Crc}
use picosignet.GoDuration.Reading.{Float64}
use picosignet.Sshwire.Reader.{Target}
use picosignet.Sshwire.Key.{KeyCrates}
use picosignet.LineIo.{Event, LineAssembler, push, feed}
use picosignet.LineIo
use picosignet.LineIo.Framing.{IsLine, event_of, send, feed-send}
use picosignet.Dispatch.Lines.{Json}
use picosignet.Firmware.Usb.{
  CdcAcm, Ended, outcome, World, answer, on_push, serve_bytes, serve, session,
}

module _ {E S A B C : Type 0} where
  -- Steps in a row do not depend on how they are grouped.
  resume_assoc :
      (r : Result E A) (f : A → Exec E S B) (g : B → Exec E S C) (s : S)
      → resume (resume r f s).0 g (resume r f s).1 ≡ resume r (λ a. f a >>= g) s
  resume_assoc (ok a) f g s = refl
  resume_assoc (err e) f g s = refl

module _ {E S A B : Type 0} where
  resume_same :
      (r : Result E A) (f g : A → Exec E S B) (s : S)
      → ((a : A) (t : S) → f a t ≡ g a t)
      → resume r f s ≡ resume r g s
  resume_same (ok a) f g s h = h a s
  resume_same (err e) f g s h = refl

abbrev events : Option Event → List Event → List Event
events o es = elim o [ none ↦ es | some x ↦ x ∷ es ]

-- What the packets carry.
unfoldable pub packed : List Bytes → Bytes
packed [] = []
packed (p ∷ ps) = p ++ packed ps

module _ {C E M F R : Type 0} ⦃cdc : CdcAcm C⦄ ⦃src : EntropySource E⦄ ⦃mono : Monotonic M⦄
    ⦃fs : FlashStore F⦄ ⦃crc : Crc⦄ ⦃cr : Crypto⦄ ⦃gen : ChaCha R⦄ ⦃fl : Float64⦄ ⦃t : Target⦄
    ⦃kc : KeyCrates⦄ ⦃js : Json⦄ where
  -- The events one after the other, up to the first that ends the session.
  unfoldable pub answer_all : List Event → Exec Ended (World C E M F R) (Unit {0})
  answer_all [] = pure tt
  answer_all (e ∷ es) = answer e >> answer_all es

  serve_bytes-append :
      (xs ys : Bytes) (s : LineAssembler) (w : World C E M F R)
      → serve_bytes (xs ++ ys) s w ≡ (serve_bytes xs s >>= serve_bytes ys) w
  unfolding serve_bytes
  serve_bytes-append [] ys s w = refl
  serve_bytes-append (b ∷ xs) ys s w =
      let m = on_push (push b s).0 w in
      resume_same m.0 _ _ m.1 (λ u v. serve_bytes-append xs ys (push b s).1 v)
      ∙ sym (resume_assoc m.0 (λ _. serve_bytes xs (push b s).1) (serve_bytes ys) m.1)

  -- The packets may be cut anywhere.
  serve-packed :
      (ps : List Bytes) (s : LineAssembler) (w : World C E M F R)
      → serve ps s w ≡ serve_bytes (packed ps) s w
  unfolding serve serve_bytes packed
  serve-packed [] s w = refl
  serve-packed (p ∷ ps) s w =
      let m = serve_bytes p s w in
      resume_same m.0 _ _ m.1 (λ a v. serve-packed ps a v)
      ∙ sym (serve_bytes-append p (packed ps) s w)

  pushed :
      (o : Option Event) (rest : Exec Ended (World C E M F R) LineAssembler) (es : List Event)
      (s : LineAssembler)
      → ((v : World C E M F R) → rest v ≡ (answer_all es >> pure s) v)
      → (w : World C E M F R) → (on_push o >> rest) w ≡ (answer_all (events o es) >> pure s) w
  unfolding on_push answer_all
  pushed none rest es s ih w = ih w
  pushed (some e) rest es s ih w =
      let m = answer e w in
      resume_same m.0 _ _ m.1 (λ u v. ih v)
      ∙ sym (resume_assoc m.0 (λ _. answer_all es) (λ _. pure s) m.1)

  -- The events that the assembler reports are answered as they come.
  serve_bytes-feed :
      (bs : Bytes) (s : LineAssembler) (w : World C E M F R)
      → serve_bytes bs s w ≡ (answer_all (feed bs s).0 >> pure (feed bs s).1) w
  unfolding serve_bytes feed answer_all
  serve_bytes-feed [] s w = refl
  serve_bytes-feed (b ∷ bs) s w =
      pushed (push b s).0 _ _ _ (λ v. serve_bytes-feed bs (push b s).1 v) w

  ended_as :
      (r : Result Ended (Unit {0})) (v : World C E M F R)
      → ◌≡◌ {A = Ended × World C E M F R}
          (
            outcome (resume {B = LineAssembler} r (λ _. pure LineIo.new) v).0,
            (resume {B = LineAssembler} r (λ _. pure LineIo.new) v).1,
          )
          (outcome r, v)
  ended_as (ok u) v = refl
  ended_as (err x) v = refl

  -- The lines that a host sends, cut into packets anywhere, are answered one by one and in order, each
  -- as the event that the receiver is told of it, until an answer ends the session or all are answered
  -- and the connection drops.
  pub session-send :
      (ls : List Bytes) (ps : List Bytes) (w : World C E M F R)
      → All IsLine ls
      → packed ps ≡ send ls
      → session ps w
        ≡ (outcome (answer_all (map event_of ls) w).0, (answer_all (map event_of ls) w).1)
  unfolding session
  session-send ls ps w lines cut =
      let all =
        serve-packed ps LineIo.new w
        ∙ (ap (λ b. serve_bytes b LineIo.new w) cut
            ∙ (serve_bytes-feed (send ls) LineIo.new w
                ∙ ap (λ x. (answer_all x.0 >> pure x.1) w) (feed-send ls lines))) in
      ap (λ x. (outcome x.0, x.1)) all ∙ ended_as (answer_all (map event_of ls) w).0 _
