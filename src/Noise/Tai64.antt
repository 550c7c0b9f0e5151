-- ===== src/Noise/Tai64.antt =====
-- engine/crypto/fp-crypto-noise/src/handshake.rs: the TAI64N timestamps of the handshake. An
-- instant of the clock is its nanoseconds, and a duration likewise.
use fluxpeer.Prelude.{
  ℕ, ◌+◌, ◌-◌, ◌*◌, ◌/◌, ◌%◌, ◌^◌, ◌<◌, ◌≡◌, Bool, true, false, ◌&&◌, ◌||◌, List, ◌++◌, Option,
  none, some, ltb, ◌==◌, if◌then◌else◌, length, drop, get_or, arith, Result, ok, err, ◌>>=◌, ok_or,
  refl, >>=-eq-ok, ok_or-eq-ok, ap, sym, ◌∙◌,
}
use fluxpeer.Prelude.Bytes.{to_be_bytes32, from_be_bytes32, from_be_bytes32-to_be}
use fluxpeer.Noise.{Error, invalid_tai64n_timestamp}

abbrev pub timestamp_len : ℕ
timestamp_len = 12

abbrev pub tai64_base : ℕ
tai64_base = 2 ^ 62 + 37

abbrev nanos_per_sec : ℕ
nanos_per_sec = 1000000000

pub record Tai64N : Type 0 where
  pub secs : ℕ
  pub nano : ℕ

pub record TimeStamper : Type 0 where
  pub duration_at_start : Option ℕ
  pub instant_at_start : ℕ

unfoldable pub zero_stamp : Tai64N
zero_stamp = record { secs = 0; nano = 0 }

-- `u64::to_be_bytes`, and back.
unfoldable pub to_be_bytes64 : ℕ → List ℕ
to_be_bytes64 v = to_be_bytes32 (v / 2 ^ 32) ++ to_be_bytes32 (v % 2 ^ 32)

abbrev be_word : List ℕ → ℕ
be_word b = from_be_bytes32 (get_or b 0 0) (get_or b 1 0) (get_or b 2 0) (get_or b 3 0)

-- `checked_add` of two durations, whose seconds are a `u64`.
unfoldable pub add_durations : ℕ → ℕ → Option ℕ
add_durations a b = if ltb (a + b) (2 ^ 64 * nanos_per_sec) then some (a + b) else none

-- `checked_add` of two `u64`.
unfoldable pub checked_add64 : ℕ → ℕ → Option ℕ
checked_add64 a b = if ltb (a + b) (2 ^ 64) then some (a + b) else none

unfoldable pub stamp : TimeStamper → ℕ → Result (List ℕ) Error
stamp t now = do
  start ← ok_or t.duration_at_start invalid_tai64n_timestamp
  elapsed ← ok_or (add_durations (now - t.instant_at_start) start) invalid_tai64n_timestamp
  secs ← ok_or (checked_add64 (elapsed / nanos_per_sec) tai64_base) invalid_tai64n_timestamp
  ok (to_be_bytes64 secs ++ to_be_bytes32 (elapsed % nanos_per_sec))

unfoldable pub parse : List ℕ → Result Tai64N Error
parse buf =
    if ltb (length buf) 12
    then err invalid_tai64n_timestamp
    else ok
        (record { secs = be_word buf * 2 ^ 32 + be_word (drop 4 buf); nano = be_word (drop 8 buf) })

unfoldable pub after : Tai64N → Tai64N → Bool
after t other = ltb other.secs t.secs || t.secs == other.secs && ltb other.nano t.nano

pub length-stamp : (t : TimeStamper) (now : ℕ) {b : List ℕ} → stamp t now ≡ ok b → length b ≡ 12
unfolding stamp to_be_bytes64 to_be_bytes32
length-stamp t now h = ground arith

-- The time that a timestamp is read back as.
unfoldable pub time_of : Tai64N → ℕ
time_of t = t.secs * nanos_per_sec + t.nano

-- A timestamp is never after itself.
pub after_irrefl : (t : Tai64N) → after t t ≡ false
unfolding after
after_irrefl t = ground arith

pub after_trans : (a b c : Tai64N) → after a b ≡ true → after b c ≡ true → after a c ≡ true
unfolding after
after_trans a b c p q = ground arith

parse_bytes :
    (s n : ℕ) → parse (to_be_bytes64 s ++ to_be_bytes32 n) ≡ ok (record { secs = s; nano = n })
unfolding parse to_be_bytes64 to_be_bytes32
parse_bytes s n =
    let whole : s / 2 ^ 32 * 2 ^ 32 + s % 2 ^ 32 ≡ s = omega arith in
    rw
      (
        from_be_bytes32-to_be (s / 2 ^ 32),
        from_be_bytes32-to_be (s % 2 ^ 32),
        from_be_bytes32-to_be n,
        whole,
      )
      refl

-- A timestamp is read back as a time from the year 1970 on.
pub parse-stamp :
    (t : TimeStamper) (now : ℕ) {b : List ℕ}
    → stamp t now ≡ ok b
    → (r : Tai64N) × (parse b ≡ ok r) × (after r zero_stamp ≡ true)
unfolding stamp after zero_stamp add_durations checked_add64
parse-stamp t now {b} h =
    let (start, _, h1) = >>=-eq-ok (ok_or t.duration_at_start invalid_tai64n_timestamp) _ h in
    let (elapsed, _, h2) =
      >>=-eq-ok (ok_or (add_durations (now - t.instant_at_start) start) invalid_tai64n_timestamp) _
        h1 in
    let (secs, added, h3) =
      >>=-eq-ok
        (ok_or (checked_add64 (elapsed / nanos_per_sec) tai64_base) invalid_tai64n_timestamp) _
        h2 in
    let same : to_be_bytes64 secs ++ to_be_bytes32 (elapsed % nanos_per_sec) ≡ b = cc in
    let late : 0 < secs = ground (arith, ok_or-eq-ok _ _ added) in
    (
      record { secs = secs; nano = elapsed % nanos_per_sec },
      ap parse (sym same) ∙ parse_bytes secs _,
      ground arith,
    )
