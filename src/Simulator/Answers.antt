-- ===== src/Simulator/Answers.antt =====
-- hsm-sim/src/main.rs: what the simulator answers, and the flash that one run hands to the next.
use mathlib.Core.List.{append_assoc, append-nil}
use picosignet.Prelude.{
  ◌≡◌, refl, sym, ap, ◌∙◌, arith, List, [], ◌∷◌, ◌++◌, Option, none, some, Result, ok, err, Exec,
  if◌then◌else◌, drop, resume, Bool-cases, inl, inr,
}
use picosignet.Prelude.Bytes.{Bytes}
use picosignet.Prelude.Int.{ℤ}
use picosignet.Crypto.{Crypto, ChaCha}
use picosignet.Storage.Record.{Crc}
use picosignet.Text.{trim, is_nil}
use picosignet.GoDuration.Reading.{Float64}
use picosignet.Sshwire.Reader.{Target}
use picosignet.Sshwire.Key.{KeyCrates}
use picosignet.Hal.Mock
use picosignet.Hal.Mock.{MockFlash, mock_flash}
use picosignet.Hal.Snapshot.{snapshot, IsImage, restore-snapshot}
use picosignet.Hal.Sources.{mock_entropy, mock_clock, new_entropy, new_clock}
use picosignet.Dispatch.Boot.{boot}
use picosignet.Dispatch.Sign.{Leave}
use picosignet.Dispatch.Lines.{Json, process_line}
use picosignet.Simulator.Args.{Args}
use picosignet.Simulator.Run.{
  Stdout, Device, put, set_time_line, loaded, written, printed, respond, pump, pumped, booted,
  fix_time, simulate, ended, ignored, saved,
}

-- An output that takes all that is written to it, in order.
pub record IsOutput {W : Type 0} (io : Stdout W) : Type 0 where
  pub text : W → Bytes
  pub taken :
      (b : Bytes) (w : W)
      → ((io.write_all b w).0 ≡ ok tt) × (text (io.write_all b w).1 ≡ text w ++ b)
  pub flushed : (w : W) → ((io.flush w).0 ≡ ok tt) × (text (io.flush w).1 ≡ text w)

-- The lines that come before the end of the input or its first error, less the blank ones.
unfoldable pub received : List (Result (Unit {0}) Bytes) → List Bytes
received [] = []
received (err e ∷ ls) = []
received (ok l ∷ ls) = if is_nil (trim l) then received ls else l ∷ received ls

-- Texts, each with a line feed after it.
unfoldable pub as_lines : List Bytes → Bytes
as_lines [] = []
as_lines (r ∷ rs) = (r ++ (10 ∷ [])) ++ as_lines rs

-- An answer before those of the rest of a conversation, which a panic ends.
unfoldable pub before_rest :
    {D : Type 0} → Result Leave Bytes → Result Leave D × List Bytes → Result Leave D × List Bytes
before_rest (ok r) (d, rs) = (d, r ∷ rs)
before_rest (err x) s = (err x, [])

-- A conversation whose first answer goes nowhere.
unfoldable pub unheard : {D : Type 0} → Result Leave D × List Bytes → Result Leave D × List Bytes
unheard (d, rs) = (d, drop 1 rs)

-- The flash that a run starts from when the one before it left `f`.
abbrev pub handed_on : MockFlash → MockFlash
handed_on f = record f {
  otp_secret = Mock.new.otp_secret;
  erase_fault = Mock.new.erase_fault;
  read_fault = Mock.new.read_fault;
}

-- What a run saves of a flash is what the next one loads.
loaded-snapshot : (f : MockFlash) → IsImage f → loaded (some (snapshot f)) ≡ handed_on f
unfolding loaded
loaded-snapshot f fits = ap (λ x. x.1) (restore-snapshot f fits Mock.new)

module _ {R : Type 0} ⦃crc : Crc⦄ ⦃cr : Crypto⦄ ⦃gen : ChaCha R⦄ ⦃fl : Float64⦄ ⦃t : Target⦄
    ⦃kc : KeyCrates⦄ ⦃js : Json⦄ where
  -- The device's answers to the lines, one after the other, and the device that is left.
  unfoldable pub converse : List Bytes → Device R → Result Leave (Device R) × List Bytes
  converse [] h = (ok h, [])
  converse (l ∷ ls) h = before_rest (process_line l h).0 (converse ls (process_line l h).1)

  -- The conversation over the lines, the time told before them if it is fixed.
  unfoldable pub conversation :
      Option ℤ → List Bytes → Device R → Result Leave (Device R) × List Bytes
  conversation none ls h = converse ls h
  conversation (some s) ls h = unheard (converse (set_time_line s ∷ ls) h)

module _ {W : Type 0} ⦃io : Stdout W⦄ (o : IsOutput io) where
  open o use {text, taken, flushed}

  put-ok : (b : Bytes) (w : W) → (put b w).0 ≡ ok tt
  unfolding put
  put-ok b w =
      let w1 = (io.write_all b w).1 in
      let w2 = (io.write_all (10 ∷ []) w1).1 in
      rw ((taken b w).0, resume) (rw ((taken (10 ∷ []) w1).0, resume) (flushed w2).0)

  text-put : (b : Bytes) (w : W) → text (put b w).1 ≡ text w ++ (b ++ (10 ∷ []))
  unfolding put
  text-put b w =
      let w1 = (io.write_all b w).1 in
      let w2 = (io.write_all (10 ∷ []) w1).1 in
      rw ((taken b w).0, resume)
        (rw ((taken (10 ∷ []) w1).0, resume)
          ((flushed w2).1
            ∙ (taken (10 ∷ []) w1).1
            ∙ ap (λ x. x ++ (10 ∷ [])) (taken b w).1
            ∙ append_assoc (text w) b (10 ∷ [])))

module _ {R W : Type 0} ⦃io : Stdout W⦄ (o : IsOutput io) where
  open o use {text}

  -- A run of the loop that goes as a conversation does.
  abbrev Goes :
      Result Leave (Unit {0}) × (Device R × W) → W → Result Leave (Device R) × List Bytes → Type 0
  Goes x w s = (ended x.0 x.1.0 ≡ s.0) × (text x.1.1 ≡ text w ++ as_lines s.1)

  printed-Goes :
      (r : Result Leave Bytes) (rest : Exec Leave (Device R × W) (Unit {0})) (h : Device R) (w : W)
      (s : Result Leave (Device R) × List Bytes)
      → ((w : W) → Goes (rest (h, w)) w s)
      → Goes (printed r rest (h, w)) w (before_rest r s)
  unfolding printed as_lines before_rest written
  printed-Goes (err x) rest h w s k = (refl, sym (append-nil (text w)))
  printed-Goes (ok r) rest h w s k =
      let w1 = (put r w).1 in
      rw (put-ok o r w) (
        (k w1).0,
        (k w1).1
            ∙ ap (λ x. x ++ as_lines s.1) (text-put o r w)
            ∙ append_assoc (text w) (r ++ (10 ∷ [])) (as_lines s.1),
      )

  module _ ⦃crc : Crc⦄ ⦃cr : Crypto⦄ ⦃gen : ChaCha R⦄ ⦃fl : Float64⦄ ⦃t : Target⦄ ⦃kc : KeyCrates⦄
      ⦃js : Json⦄ where
    pump-Goes :
        (ls : List (Result (Unit {0}) Bytes)) (h : Device R) (w : W)
        → Goes (pump ls (h, w)) w (converse (received ls) h)
    unfolding pump respond received converse as_lines
    pump-Goes [] h w = (refl, sym (append-nil (text w)))
    pump-Goes (err e ∷ ls) h w = (refl, sym (append-nil (text w)))
    pump-Goes (ok l ∷ ls) h w = elim (Bool-cases (is_nil (trim l))) [
      | inl blank ↦ rw blank (pump-Goes ls h w)
      | inr full ↦
          let h1 = (process_line l h).1 in
          rw full (
            printed-Goes (process_line l h).0 (pump ls) h1 w (converse (received ls) h1)
              (pump-Goes ls h1))
    ]

    -- What the run writes, and how it ends, are those of a conversation.
    abbrev Ends : Result Leave (Device R) × W → W → Result Leave (Device R) × List Bytes → Type 0
    Ends x w s = (x.0 ≡ s.0) × (text x.1 ≡ text w ++ as_lines s.1)

    unheard-Ends :
        (r : Result Leave Bytes) (ls : List (Result (Unit {0}) Bytes)) (h : Device R) (w : W)
        → Ends (pumped (ignored r) ls (h, w)) w (unheard (before_rest r (converse (received ls) h)))
    unfolding unheard before_rest pumped as_lines
    unheard-Ends (err x) ls h w = (refl, sym (append-nil (text w)))
    unheard-Ends (ok r) ls h w = pump-Goes ls h w

    conversation-Ends :
        (s : Option ℤ) (ls : List (Result (Unit {0}) Bytes)) (h : Device R) (w : W)
        → Ends (pumped (fix_time s h).0 ls ((fix_time s h).1, w)) w (conversation s (received ls) h)
    unfolding conversation fix_time pumped converse
    conversation-Ends none ls h w = pump-Goes ls h w
    conversation-Ends (some s) ls h w =
        unheard-Ends (process_line (set_time_line s) h).0 ls (process_line (set_time_line s) h).1 w

    saved-inv :
        (args : Args) (d : Device R) {image : Bytes}
        → saved args d ≡ some image
        → image ≡ snapshot d.flash
    unfolding saved
    saved-inv args d e = ground arith

    -- On an output that takes what it is given, a run that starts from what an earlier one saved, whose
    -- sectors and identifier have their lengths, is a conversation with a device that boots on the
    -- flash as that run left it, with the new run's entropy and a new clock: the fixed time, if there
    -- is one, is told first and its answer dropped; then each line that is not blank is answered in
    -- turn by a line, up to the end of the input, its first error or a panic; and the run ends with
    -- the device or the panic that the conversation ends with.
    pub simulate-session :
        (past args : Args) (d : Device R) (image : Bytes) (ls : List (Result (Unit {0}) Bytes))
        (w : W)
        → IsImage d.flash
        → saved past d ≡ some image
        → Ends (simulate args (some image) ls w) w (
            conversation args.fixed_time
              (received ls)
              (boot (new_entropy args.seed) new_clock (handed_on d.flash)))
    unfolding simulate booted
    simulate-session past args d image ls w fits kept =
        rw (saved-inv past d kept, loaded-snapshot d.flash fits)
          (conversation-Ends args.fixed_time ls
            (boot (new_entropy args.seed) new_clock (handed_on d.flash)) w)
