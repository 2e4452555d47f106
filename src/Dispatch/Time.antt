-- ===== src/Dispatch/Time.antt =====
-- hsm-core/src/dispatch.rs: `hsm_set_time`, `hsm_status`, `hsm_add_entropy` and `hsm_self_test`.

use picosignet.Prelude.{
  Result, ℕ, ◌-◌, ◌/◌, Bool, true, false, not, ◌&&◌, ◌||◌, Option, none, some, ok, err, Exec, pure,
  raise, ◌>>=◌, ◌>>◌, leb, if◌then◌else◌, is_some, is_ok, length, ok_or_else,
}
use picosignet.Prelude.Bytes.{Bytes, codes, be64}
use picosignet.Prelude.Int.{ℤ, pos, leb_ℤ, saturating_sub, to_u64}
use picosignet.Hal.{FlashStore, Monotonic}
use picosignet.Crypto.{Crypto, ChaCha}
use picosignet.Clock.{Clock, Rejected, too_far, is_set, set, trusted_now, now_unix}
use picosignet.Rng.{mix_host}
use picosignet.Pin.{count}
use picosignet.Storage.Record.{Crc}
use picosignet.Storage.AbPair.{write, read_latest, time_floor, config_pair}
use picosignet.Storage.Config.{Mode, DeviceConfig, dev, prod}
use picosignet.Proto.{SetTimeReq, AddEntropyReq, HsmResponse, empty, err_bad_request, err_flash}
use picosignet.Dispatch.Session.{
  require_that, as_str, Hsm, Stop, on_flash, gets, modify, refuse, require,
}
use picosignet.Dispatch.Setup.{fw_version}
use picosignet.Dispatch.Hex.{hex_encode, hex_decode}
use picosignet.Selftest.{ed25519_kat, sha512_kat, aead_kat}

unfoldable pub same_floor : Option ℤ → Option ℤ → Bool
same_floor none none = true
same_floor (some a) (some b) = leb_ℤ a b && leb_ℤ b a
same_floor _ _ = false

-- The floor that an accepted time leaves.
unfoldable pub progressed : Option ℤ → Option ℤ → Option ℤ
progressed (some floor) (some now) =
    if leb_ℤ (pos 3600) (saturating_sub now floor) then some now else some floor
progressed old _ = old

unfoldable pub next_floor : Bool → Bool → ℤ → Option ℤ → Option ℤ → Option ℤ
unfolding progressed
next_floor first_set recovery unix_seconds old now =
    if first_set && (not (is_some old) || recovery) then some unix_seconds else progressed old now

-- The test of a first time against the stored floor.
unfoldable pub off_floor : ℤ → Option ℤ → Bool
off_floor unix_seconds none = false
off_floor unix_seconds (some floor) = too_far unix_seconds floor

module _ {E M F R : Type 0} ⦃fs : FlashStore F⦄ ⦃crc : Crc⦄ where
  unfoldable pub write_floor : Option ℤ → Exec Stop (Hsm E M F R) (Unit {0})
  write_floor none = raise Stop.panics
  write_floor (some floor) = do
    wrote ← on_flash (write time_floor (be64 (to_u64 floor)))
    require wrote err_flash "failed to persist trusted time floor"

  -- The write of a changed floor.
  unfoldable pub persist_floor : Option ℤ → Option ℤ → Exec Stop (Hsm E M F R) (Unit {0})
  persist_floor old next = elim (same_floor next old) [ true ↦ pure tt | false ↦ write_floor next ]

module _ {E M F R : Type 0} ⦃mono : Monotonic M⦄ ⦃fs : FlashStore F⦄ ⦃crc : Crc⦄ where
  unfoldable pub set_time_response : Bool → Hsm E M F R → HsmResponse
  set_time_response previous_set h = record empty {
    set_time = some (record {
      ok = true;
      uptime_ms = mono.now_micros h.mono / 1000;
      previous_set = previous_set;
    });
  }

  -- The match on what the clock says of a time, with the clock and the floor that follow it.
  unfoldable pub settle_time :
      Clock → Option ℤ → Option ℤ → Result Rejected Bool → Exec Stop (Hsm E M F R) HsmResponse
  settle_time next_clock old next (err e) =
      refuse err_bad_request
        "unixSeconds is implausible or drifts too far from the device's tracked time"
  settle_time next_clock old next (ok previous_set) = do
    persist_floor old next
    modify (λ h. record h { clock = next_clock; trusted_time_floor = next })
    gets (set_time_response previous_set)

  -- `hsm_set_time` after its first two tests.
  unfoldable pub accept_time : ℤ → Exec Stop (Hsm E M F R) HsmResponse
  accept_time unix_seconds h =
      let (r, next_clock) = set h.mono unix_seconds h.clock in
      let next =
        next_floor (not (is_set h.clock)) h.physical_recovery_authorized unix_seconds
          h.trusted_time_floor (trusted_now h.mono next_clock) in
      settle_time next_clock h.trusted_time_floor next r h

  unfoldable pub floor_available : Exec Stop (Hsm E M F R) (Unit {0})
  floor_available h =
      require_that (not h.trusted_time_floor_unavailable) err_flash
        "trusted time state is unavailable; reboot or factory-reset after repairing flash" h

  unfoldable pub near_floor : ℤ → Exec Stop (Hsm E M F R) (Unit {0})
  near_floor unix_seconds h =
      require_that
        (not (
          not (is_set h.clock)
          && (not h.physical_recovery_authorized && off_floor unix_seconds h.trusted_time_floor)))
        err_bad_request
        "unixSeconds drifts too far from persisted trusted time; use physical recovery to re-anchor"
        h

  unfoldable pub hsm_set_time : SetTimeReq → Exec Stop (Hsm E M F R) HsmResponse
  hsm_set_time req = do floor_available; near_floor req.unix_seconds; accept_time req.unix_seconds

abbrev pub mode_text : Option DeviceConfig → Bytes
mode_text none = codes "none"
mode_text (some c) = elim c.mode [ dev ↦ codes "dev" | prod ↦ codes "prod" ]

module _ {E M F R : Type 0} ⦃fs : FlashStore F⦄ where
  unfoldable pub retries_in : Mode → DeviceConfig → Exec Stop (Hsm E M F R) (Option ℕ)
  retries_in dev c = pure none
  retries_in prod c = do used ← on_flash count; pure (some (c.max_retries - ok_or_else used 0))

  unfoldable pub retries_of : Option DeviceConfig → Exec Stop (Hsm E M F R) (Option ℕ)
  unfolding retries_in
  retries_of none = pure none
  retries_of (some c) = retries_in c.mode c

  unfoldable pub retry_remaining : Exec Stop (Hsm E M F R) (Option ℕ)
  retry_remaining h = retries_of h.config h

module _ {E M F R : Type 0} where
  -- What the clock says, or its panic.
  unfoldable pub told : Result (Unit {0}) (Option ℤ) → Exec Stop (Hsm E M F R) (Option ℤ)
  told (ok t) h = (ok t, h)
  told (err u) h = (err Stop.panics, h)

module _ {E M F R : Type 0} ⦃mono : Monotonic M⦄ where
  -- `self.clock.now_unix(&self.mono)`
  unfoldable pub read_clock : Exec Stop (Hsm E M F R) (Option ℤ)
  read_clock h = told (now_unix h.mono h.clock) h

module _ {E M F R : Type 0} ⦃mono : Monotonic M⦄ ⦃fs : FlashStore F⦄ where
  unfoldable pub hsm_status : Exec Stop (Hsm E M F R) HsmResponse
  hsm_status = do
    remaining ← retry_remaining
    unix_seconds ← read_clock
    gets (λ h. record empty {
      status = some (record {
        state = as_str h.state;
        mode = mode_text h.config;
        key_present = is_some h.ca_pubkey;
        unlocked = is_some h.ca;
        clock_set = is_set h.clock;
        unix_seconds = unix_seconds;
        uptime_ms = mono.now_micros h.mono / 1000;
        retry_remaining = remaining;
        fw_version = fw_version;
        serial = hex_encode (fs.unique_id h.flash);
        heap_free_bytes = h.heap_free;
        otp_secret = is_ok (fs.device_secret h.flash);
        glitch_armed = h.glitch_armed;
        secure_boot = h.secure_boot;
        glitch_reset = h.glitch_reset;
      });
    })

abbrev pub max_entropy_hex : ℕ
max_entropy_hex = 1024

module _ {E M F R : Type 0} where
  -- The match on the decoded request.
  unfoldable pub host_bytes : Option Bytes → Exec Stop (Hsm E M F R) Bytes
  host_bytes none = refuse err_bad_request "hex must be valid hexadecimal"
  host_bytes (some bytes) = elim (leb (length bytes) max_entropy_hex) [
    | true ↦ pure bytes
    | false ↦ refuse err_bad_request "too much entropy (max 1024 bytes)"
  ]

module _ {E M F R : Type 0} ⦃cr : Crypto⦄ ⦃gen : ChaCha R⦄ where
  unfoldable pub hsm_add_entropy : AddEntropyReq → Exec Stop (Hsm E M F R) HsmResponse
  hsm_add_entropy req = do
    bytes ← host_bytes (hex_decode req.hex)
    modify (λ h. record h { drbg = mix_host bytes h.drbg })
    pure (record empty { add_entropy = some (record { ok = true }) })

abbrev pub verdict : Bool → Bytes
verdict true = codes "pass"
verdict false = codes "fail"

module _ {E M F R : Type 0} ⦃fs : FlashStore F⦄ ⦃crc : Crc⦄ ⦃cr : Crypto⦄ where
  unfoldable pub hsm_self_test : Exec Stop (Hsm E M F R) HsmResponse
  hsm_self_test = do
    found ← on_flash (read_latest config_pair)
    gets (λ h. record empty {
      self_test = some (record {
        ok =
            ed25519_kat
            && (sha512_kat && (aead_kat && (is_ok found && is_ok (fs.device_secret h.flash))));
        tests = record {
          ed25519_kat = verdict ed25519_kat;
          sha2_kat = verdict sha512_kat;
          aead_kat = verdict aead_kat;
          drbg_health = verdict h.drbg.seeded;
          flash_crc = verdict (is_ok found);
          otp_secret = verdict (is_ok (fs.device_secret h.flash));
        };
      });
    })
