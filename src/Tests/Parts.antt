-- ===== src/Tests/Parts.antt =====
-- The theorems on the session, the storage and the smaller parts, at concrete devices.
use mathlib.Core.Path.{◌≡◌, ◌∙◌, refl}
use picosignet.Prelude.{
  ◌↔◌, arith, ℕ, ◌+◌, ◌*◌, ◌^◌, ◌<◌, ◌≤◌, ◌≢◌, min, List, [], ◌∷◌, ◌++◌, true, false, none, some,
  ok, err, is_some, is_ok, replicate, length,
}
use picosignet.Prelude.Bytes.{Bytes, codes}
use picosignet.Prelude.Int.{pos}
use picosignet.Hal.{entropy, pin_counter, config_b}
use picosignet.Hal.Mock
use picosignet.Hal.Mock.{MockFlash, mock_flash, mock_nor, region-put_region_ne}
use picosignet.Storage.Config.{
  KeyBlob, pin_kek, config_to_bytes, config_from_bytes, blob_to_bytes, blob_from_bytes,
}
use picosignet.Storage.Record.{
  parse_record, read_record, write_record, program_pages, header, record_bytes, record_sector,
}
use picosignet.Storage.AbPair.{config_pair, write, read_latest, latest, target, next_seq}
use picosignet.Storage.Pairs.{number}
use picosignet.Storage.PowerFail.{replaced, read_latest-write}
use picosignet.Storage.Histories.{Writes, torn_write}
use picosignet.Hal.Nor.{and_at, and_page}
use picosignet.Prelude.Bytes.{beq_bytes, of_be32, of_be16}
use picosignet.Storage.Stored.{stored}
use picosignet.Storage.RoundTrip.{
  IsConfig, IsBlob, config_from_bytes-to_bytes, blob_from_bytes-to_bytes,
}
use picosignet.Pin.{tick, tick_page, used_ticks, backoff_ms, count, reset}
use picosignet.Pin.Attempts.{tick-count, backoff_ms-eq, reset-count}
use picosignet.Pin.Ticks.{Ticked, erased-Ticked}
use picosignet.Hal.Nor.{erased_sector}
use picosignet.Hal.{sector_len}
use picosignet.Clock
use picosignet.Clock.{is_set, refuses, anchored, Clock, set, elapsed_secs, max_drift_secs}
use picosignet.Clock.Drift.{Bounded, History, now_unix-Bounded, Near, set_accepts_iff}
use picosignet.Rng
use picosignet.Rng.{
  health_check, longest_run, max_run, any_over, count_byte, rct_cutoff, apt_max, seed_sample,
}
use picosignet.Rng.Health.{health_check_sound, run_ops, run_ops-unseeded, seeds, reseeds, mixes}
use picosignet.LineIo
use picosignet.LineIo.{feed, max_line}
use picosignet.LineIo.Framing.{IsBounded, feed-IsBounded}
use picosignet.Dispatch.Session.{locked_out, Hsm}
use picosignet.Dispatch.Handle.{handle_hsm, response}
use picosignet.Dispatch.Runs.{live}
use picosignet.Dispatch.Safety.{Consistent, IsSafe}
use picosignet.Dispatch.Lockout.{handle_hsm-lockout}
use picosignet.Dispatch.Commands.{booted, commanded, handle_hsm-IsSafe, Reaches-IsSafe}
use picosignet.Tests.Devices.{
  timer, zeros, no_crc, stream, plain, fresh, status_request, prod_init, a_config,
}

Reaches-IsSafe_example : IsSafe (live (handle_hsm status_request (handle_hsm prod_init fresh).1).1)
Reaches-IsSafe_example =
    Reaches-IsSafe (commanded (commanded (booted 0 5000000 Mock.new) prod_init) status_request)

backoff_ms-eq_example : backoff_ms 9 ≡ min (250 * 2 ^ 9) 30000
backoff_ms-eq_example = backoff_ms-eq 9

abbrev two_lines : List Bytes
two_lines = codes "ab" ∷ codes "" ∷ []

fresh-IsBounded : IsBounded LineIo.new
fresh-IsBounded = record { fits = omega arith; drained = λ o. refl }

feed-IsBounded_example : IsBounded (feed (codes "ab") LineIo.new).1
feed-IsBounded_example = feed-IsBounded (codes "ab") LineIo.new fresh-IsBounded

a_config-IsConfig : IsConfig a_config
a_config-IsConfig = record { m_cost = omega arith; t_cost = omega arith; version_len = refl }

config_from_bytes-to_bytes_example : config_from_bytes (config_to_bytes a_config) ≡ some a_config
config_from_bytes-to_bytes_example = config_from_bytes-to_bytes a_config a_config-IsConfig

abbrev a_blob : KeyBlob
a_blob = record {
  wrap_type = pin_kek;
  aead_nonce = replicate 12 1;
  pubkey = replicate 32 2;
  ciphertext = replicate 32 3;
  tag = replicate 16 4;
  salt = replicate 16 5;
}

a_blob-IsBlob : IsBlob a_blob
a_blob-IsBlob = record {
  nonce_len = refl;
  pubkey_len = refl;
  ciphertext_len = refl;
  tag_len = refl;
  salt_len = refl;
}

blob_from_bytes-to_bytes_example : blob_from_bytes (blob_to_bytes a_blob) ≡ some a_blob
blob_from_bytes-to_bytes_example = blob_from_bytes-to_bytes a_blob a_blob-IsBlob

reset_ok : (reset Mock.new).0 ≡ ok tt
unfolding reset Mock.new Mock.erase
reset_ok = refl

count_ok : (count (reset Mock.new).1).0 ≡ ok 0
unfolding reset count Mock.new Mock.erase Mock.read Mock.put_region Mock.region Mock.faulty
    erased_sector used_ticks
count_ok = refl

reset-count_example : ◌≡◌ {A = ℕ} 0 0
reset-count_example = reset-count mock_nor Mock.new 0 reset_ok count_ok

tick_ok : (tick Mock.new).0 ≡ ok 1
unfolding tick count Mock.new Mock.program Mock.read Mock.put_region Mock.region Mock.faulty
    erased_sector used_ticks tick_page
tick_ok = refl

sector_size : length (Mock.region Mock.new pin_counter) ≡ sector_len
unfolding Mock.region Mock.new erased_sector
sector_size = refl

tick-count_example :
    (◌≡◌ {A = ℕ} 1 1)
    × Ticked 1 (Mock.region (tick Mock.new).1 pin_counter)
    × ((k : ℕ) → (count (tick Mock.new).1).0 ≡ ok k → k ≡ 1)
tick-count_example =
    tick-count mock_nor Mock.new 0 1 sector_size (unfold Mock.region Mock.new in erased-Ticked)
      (omega arith) tick_ok

abbrev anchored_clock : Clock
anchored_clock = record {
  epoch_unix = some (pos 1750000000);
  epoch_mono_us = 0;
  trust_anchor_unix = some (pos 1750000000);
  trust_anchor_mono_us = 0;
}

set_accepts_iff_example : (is_ok (set {M = ℕ} 5000000 (pos 1750000100) anchored_clock).0 ≡ true) ↔ (
    (e : ℕ) × (pos 1750000100 ≡ pos e)
    × Near max_drift_secs e
        (1750000000 + elapsed_secs {M = ℕ} 5000000 anchored_clock.trust_anchor_mono_us))
set_accepts_iff_example =
    set_accepts_iff 5000000 (pos 1750000100) anchored_clock 1750000000 refl (omega arith)
      (omega arith) (omega arith)

abbrev sample : Bytes
sample = 1 ∷ 2 ∷ 3 ∷ 4 ∷ []

sample_ok : health_check sample ≡ ok tt
unfolding health_check longest_run max_run any_over count_byte
sample_ok = refl

health_check_sound_example :
    ((v : ℕ) (pre post : Bytes) → sample ≢ pre ++ (replicate rct_cutoff v ++ post))
    × ((v : ℕ) → v < 256 → count_byte v sample ≤ apt_max)
health_check_sound_example = health_check_sound sample sample_ok

zeros_fail : health_check (replicate seed_sample 0) ≡ err entropy
unfolding health_check longest_run max_run any_over count_byte
zeros_fail = refl

stuck_source :
    (e : ℕ) (b : Bytes) → (zeros.fill_raw seed_sample e).0 ≡ ok b → health_check b ≢ ok tt
stuck_source e b h = λ good. ground (arith, h, good, zeros_fail)

unseeded_drbg : (Rng.new {R = ℕ}).seeded ≡ false
unfolding Rng.new
unseeded_drbg = refl

run_ops-unseeded_example :
    (run_ops {E = ℕ} {R = ℕ}
      (seeds ∷ mixes (codes "abc") ∷ reseeds ∷ [])
      (Rng.new {R = ℕ}, 0)).0.seeded
    ≡ false
run_ops-unseeded_example =
    run_ops-unseeded stuck_source (seeds ∷ mixes (codes "abc") ∷ reseeds ∷ []) (Rng.new, 0)
      unseeded_drbg

apart : config_pair.a ≢ config_pair.b
apart e = ground (arith, e)

abbrev payload : Bytes
payload = 7 ∷ 8 ∷ 9 ∷ []

empty_a : parse_record (Mock.region Mock.new config_pair.a) ≡ none
unfolding parse_record Mock.region Mock.new erased_sector beq_bytes
empty_a = refl

empty_b : parse_record (Mock.region Mock.new config_pair.b) ≡ none
unfolding parse_record Mock.region Mock.new erased_sector beq_bytes
empty_b = refl

small_a : number (parse_record (Mock.region Mock.new config_pair.a)) + 1 < 2 ^ 32
small_a = rw empty_a (omega arith)

small_b : number (parse_record (Mock.region Mock.new config_pair.b)) + 1 < 2 ^ 32
small_b = rw empty_b (omega arith)

write_ok : (write config_pair payload Mock.new).0 ≡ ok tt
unfolding write read_record write_record target next_seq parse_record program_pages header
    record_bytes record_sector Mock.region Mock.new Mock.erase Mock.program Mock.read
    Mock.put_region Mock.faulty erased_sector
write_ok = refl

read_ok : (read_latest config_pair (write config_pair payload Mock.new).1).0 ≡ ok (some payload)
unfolding read_latest latest write read_record write_record target next_seq parse_record
    program_pages header record_bytes record_sector Mock.region Mock.new Mock.erase Mock.program
    Mock.read Mock.put_region Mock.faulty erased_sector and_at and_page of_be32 of_be16 beq_bytes
read_ok = refl

read_latest-write_example : some payload ≡ some payload
read_latest-write_example =
    read_latest-write mock_nor config_pair payload Mock.new (some payload) apart
      (omega arith, (omega arith, (omega arith, tt))) small_a small_b write_ok read_ok

abbrev once : MockFlash
once = (write config_pair payload Mock.new).1

once-Writes : Writes mock_nor config_pair once
once-Writes =
    Writes.done (Writes.blank Mock.new empty_a empty_b) payload
      (omega arith, (omega arith, (omega arith, tt))) small_a small_b write_ok

abbrev later : Bytes
later = 4 ∷ 5 ∷ []

-- The second write, torn in its sector, which is left holding nothing that reads.
abbrev torn : MockFlash
torn = Mock.put_region config_b (replicate 4096 0) (write config_pair later once).1

over_b : replaced mock_nor config_pair once ≡ config_b
unfolding write read_record write_record target next_seq parse_record program_pages header
    record_bytes record_sector Mock.region Mock.new Mock.erase Mock.program Mock.read
    Mock.put_region Mock.faulty erased_sector and_at and_page of_be32 of_be16 beq_bytes
over_b = refl

torn_b : parse_record (Mock.region torn config_b) ≡ none
unfolding parse_record Mock.region Mock.put_region beq_bytes
torn_b = refl

torn_write_example : stored mock_nor config_pair torn ≡ stored mock_nor config_pair once
torn_write_example = torn_write mock_nor config_pair later once torn apart once-Writes (
  λ o n.
      region-put_region_ne config_b o (replicate 4096 0) (write config_pair later once).1
        (λ e. n (over_b ∙ e)),
  rw over_b torn_b,
)

abbrev set_once : Clock
set_once = (set {M = ℕ} 5000000 (pos 1750000000) Clock.new).1

set_once-is_set : is_set set_once ≡ true
unfolding is_set set refuses anchored
set_once-is_set = refl

once_set : History ℕ set_once 5000000
once_set =
    History.call (History.boot Clock.new refl) 5000000 (pos 1750000000) (omega arith) (omega arith)

now_unix-Bounded_example : Bounded {M = ℕ} 9000000 set_once
now_unix-Bounded_example =
    now_unix-Bounded 9000000 set_once 5000000 once_set (omega arith) (omega arith) set_once-is_set

abbrev out_session : Hsm ℕ ℕ MockFlash ℕ
out_session = record fresh {
  state = locked_out;
  config = some a_config;
  ca = none;
  wrap_kek = none;
  wrap_salt = none;
  physical_recovery_authorized = false;
}

out_session-IsSafe : IsSafe (live out_session)
unfolding IsSafe Consistent live
out_session-IsSafe = (refl, (refl, refl, refl))

handle_hsm-lockout_example : live (handle_hsm prod_init out_session).1 ≡ live out_session
handle_hsm-lockout_example = handle_hsm-lockout prod_init out_session refl refl out_session-IsSafe

-- A locked out device whose clock was set, four seconds later.
abbrev out_later : Hsm ℕ ℕ MockFlash ℕ
out_later = record out_session { clock = set_once; mono = 9000000 }

out_later-IsSafe : IsSafe (live out_later)
unfolding IsSafe Consistent live
out_later-IsSafe = (refl, (refl, refl, refl))

handle_hsm-IsSafe_example :
    IsSafe (live (handle_hsm status_request out_later).1)
    × (is_some (response (handle_hsm status_request out_later).0) ≡ true)
handle_hsm-IsSafe_example =
    handle_hsm-IsSafe status_request out_later 5000000 out_later-IsSafe once_set (omega arith)
      (omega arith)
