-- ===== src/Noise/Handshake/Wire.antt =====
-- The two messages of the handshake are parsed as they were written.
use fluxpeer.Prelude.{
  ℕ, ◌+◌, ◌≡◌, ◌∙◌, ap, sym, List, ◌++◌, ok, arith, length, take, drop, length-append,
  take-append_of, drop-append_of, drop-drop, refl,
}
use fluxpeer.Prelude.Bytes.{from_le_bytes32}
use fluxpeer.Noise.Packet.{
  init, response, handshake_init, handshake_resp, slice, parse_incoming_packet,
}

-- A slice behind the front of a list is a slice of the rest.
slice-append :
    (j n k : ℕ) (xs ys : List ℕ) → length xs ≡ j → slice (j + n) k (xs ++ ys) ≡ slice n k ys
slice-append j n k xs ys h =
    ap (take k) (sym (drop-drop j n (xs ++ ys)) ∙ ap (drop n) (drop-append_of j xs ys h))

slice_front : (k : ℕ) (xs ys : List ℕ) → length xs ≡ k → slice 0 k (xs ++ ys) ≡ xs
slice_front k xs ys h = take-append_of k xs ys h

parse_init_at :
    (src a b e s t : List ℕ)
    → length src ≡ 148
    → slice 0 4 src ≡ a
    → slice 4 4 src ≡ b
    → slice 8 32 src ≡ e
    → slice 40 48 src ≡ s
    → slice 88 28 src ≡ t
    → from_le_bytes32 a ≡ handshake_init
    → parse_incoming_packet src
      ≡ ok (
          init (record {
            sender_idx = from_le_bytes32 b;
            unencrypted_ephemeral = e;
            encrypted_static = s;
            encrypted_timestamp = t;
          }))
unfolding parse_incoming_packet
parse_init_at src a b e s t len fa fb fe fs ft ty = rw (len, fa, fb, fe, fs, ft, ty) refl

parse_response_at :
    (src a b c e n : List ℕ)
    → length src ≡ 92
    → slice 0 4 src ≡ a
    → slice 4 4 src ≡ b
    → slice 8 4 src ≡ c
    → slice 12 32 src ≡ e
    → slice 44 16 src ≡ n
    → from_le_bytes32 a ≡ handshake_resp
    → parse_incoming_packet src
      ≡ ok (
          response (record {
            sender_idx = from_le_bytes32 b;
            receiver_idx = from_le_bytes32 c;
            unencrypted_ephemeral = e;
            encrypted_nothing = n;
          }))
unfolding parse_incoming_packet
parse_response_at src a b c e n len fa fb fc fe fn ty = rw (len, fa, fb, fc, fe, fn, ty) refl

-- An initiation, from its parts and what follows them.
pub parse_init :
    (a b e s t m : List ℕ)
    → length a ≡ 4
    → length b ≡ 4
    → length e ≡ 32
    → length s ≡ 48
    → length t ≡ 28
    → length m ≡ 32
    → from_le_bytes32 a ≡ handshake_init
    → parse_incoming_packet (a ++ (b ++ (e ++ (s ++ (t ++ m)))))
      ≡ ok (
          init (record {
            sender_idx = from_le_bytes32 b;
            unencrypted_ephemeral = e;
            encrypted_static = s;
            encrypted_timestamp = t;
          }))
parse_init a b e s t m ha hb he hs ht hm ty =
    parse_init_at (a ++ (b ++ (e ++ (s ++ (t ++ m))))) a b e s t (omega (arith, length-append {0}))
      (slice_front 4 a _ ha) (slice-append 4 0 4 a _ ha ∙ slice_front 4 b _ hb)
      (slice-append 4 4 32 a _ ha ∙ slice-append 4 0 32 b _ hb ∙ slice_front 32 e _ he)
      (slice-append 4 36 48 a _ ha
        ∙ slice-append 4 32 48 b _ hb
        ∙ slice-append 32 0 48 e _ he
        ∙ slice_front 48 s _ hs)
      (slice-append 4 84 28 a _ ha
        ∙ slice-append 4 80 28 b _ hb
        ∙ slice-append 32 48 28 e _ he
        ∙ slice-append 48 0 28 s _ hs
        ∙ slice_front 28 t _ ht)
      ty

-- A response, from its parts and what follows them.
pub parse_response :
    (a b c e n m : List ℕ)
    → length a ≡ 4
    → length b ≡ 4
    → length c ≡ 4
    → length e ≡ 32
    → length n ≡ 16
    → length m ≡ 32
    → from_le_bytes32 a ≡ handshake_resp
    → parse_incoming_packet (a ++ (b ++ (c ++ (e ++ (n ++ m)))))
      ≡ ok (
          response (record {
            sender_idx = from_le_bytes32 b;
            receiver_idx = from_le_bytes32 c;
            unencrypted_ephemeral = e;
            encrypted_nothing = n;
          }))
parse_response a b c e n m ha hb hc he hn hm ty =
    parse_response_at (a ++ (b ++ (c ++ (e ++ (n ++ m))))) a b c e n
      (omega (arith, length-append {0})) (slice_front 4 a _ ha)
      (slice-append 4 0 4 a _ ha ∙ slice_front 4 b _ hb)
      (slice-append 4 4 4 a _ ha ∙ slice-append 4 0 4 b _ hb ∙ slice_front 4 c _ hc)
      (slice-append 4 8 32 a _ ha
        ∙ slice-append 4 4 32 b _ hb
        ∙ slice-append 4 0 32 c _ hc
        ∙ slice_front 32 e _ he)
      (slice-append 4 40 16 a _ ha
        ∙ slice-append 4 36 16 b _ hb
        ∙ slice-append 4 32 16 c _ hc
        ∙ slice-append 32 0 16 e _ he
        ∙ slice_front 16 n _ hn)
      ty
