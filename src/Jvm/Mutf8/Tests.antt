-- ===== src/Jvm/Mutf8/Tests.antt =====
-- Runs of the decoder and the encoder, and the theorems at concrete inputs.
use mocha.Prelude.{All, List, [], arith, err, length, ok, refl, ℕ, ◌<◌, ◌∷◌, ◌≡◌}
use mocha.Jvm.Mutf8.{decode, decode_loop, encode, encoded_len, four_byte, overlong_two}
use mocha.Jvm.Mutf8.Canonical.{encode-decode}
use mocha.Jvm.Mutf8.Decode.{Outcome, decode-Outcome, decode-decode_loop}
use mocha.Jvm.Mutf8.Encode.{encode-IsFree, encoded_len-encode}
use mocha.Jvm.Mutf8.RoundTrip.{decode-encode}

-- NUL, "A", U+00E9, U+20AC and U+1F600.
abbrev sample : List ℕ
sample = 0 ∷ 0x41 ∷ 0xE9 ∷ 0x20AC ∷ 0x1F600 ∷ []

abbrev sample_bytes : List ℕ
sample_bytes =
    0xC0 ∷ 0x80 ∷ 0x41 ∷ 0xC3 ∷ 0xA9 ∷ 0xE2 ∷ 0x82 ∷ 0xAC ∷ 0xED ∷ 0xA0 ∷ 0xBD ∷ 0xED ∷ 0xB8 ∷ 0x80
    ∷ []

encode-sample : encode sample ≡ sample_bytes
unfolding encode
encode-sample = refl

decode-sample : decode sample_bytes ≡ ok sample
unfolding decode
decode-sample = refl

decode_lone : decode (0x41 ∷ 0xED ∷ 0xA0 ∷ 0xBD ∷ []) ≡ ok (0x41 ∷ 0xFFFD ∷ [])
unfolding decode
decode_lone = refl

decode_overlong :
    decode (0x41 ∷ 0xC1 ∷ 0x81 ∷ []) ≡ err (record { off = 1; byte = 0xC1; msg = overlong_two })
unfolding decode
decode_overlong = refl

decode_four : decode (0xF0 ∷ 0x9F ∷ []) ≡ err (record { off = 0; byte = 0xF0; msg = four_byte })
unfolding decode
decode_four = refl

decode-encode_example : decode (encode sample) ≡ ok sample
decode-encode_example = decode-encode sample (omega arith)

encode-IsFree_example : All (λ b. (0 < b) × (b < 0xF0)) (encode sample)
encode-IsFree_example = encode-IsFree sample (omega arith)

encode-decode_example : encode sample ≡ sample_bytes
encode-decode_example = encode-decode sample_bytes sample (omega arith) decode-sample (omega arith)

decode-Outcome_example : Outcome 0 sample_bytes (decode sample_bytes)
decode-Outcome_example = decode-Outcome sample_bytes

encoded_len-encode_example : encoded_len sample ≡ length (encode sample)
encoded_len-encode_example = encoded_len-encode sample

decode-decode_loop_example : decode sample_bytes ≡ decode_loop (length sample_bytes) 0 sample_bytes
decode-decode_loop_example = decode-decode_loop sample_bytes
