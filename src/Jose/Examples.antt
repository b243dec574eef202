-- ===== src/Jose/Examples.antt =====
-- Runs of ffi/jose.c over a libcrypto that succeeds, and the round trip of one text.
use linen.Base.{ℕ, suc, ◌≡◌, refl, true, some, [], ◌∷◌, ◌++◌, replicate, pos, arith}
use linen.Calls.{ok, Library, run}
use linen.Calls.Legal.{Documented, after_all}
use linen.Jose.{
  Digest, Call, Reply, err_get_error, hmac, evp_digest, rand_bytes, i2d_private, verify_init,
  sign_init, set_pss_padding, set_pss_saltlen, digest_verify, digest_sign_size, digest_sign,
  ecdsa_set0, i2d_sig_size, i2d_sig, fromdata_init, i2d_pubkey_size, i2d_pubkey, encode_block,
  decode_update, decode_final, crypto, select_md,
}
use linen.Jose.Rsa.{rsa_verify}
use linen.Jose.Base64.{padded, stripped}
use linen.Jose.Base64.RoundTrip.{padded-stripped}
use linen.Jose.Ownership.{Possible, ec_checks, code, calls-Frees}
use linen.Jose.Verdict.{Verified, rsa_verify-Verified}

abbrev answer : (c : Call) → Reply c
answer err_get_error = 0
answer (hmac md key n text) = (true, text)
answer (evp_digest text) = (pos 1, text)
answer (rand_bytes n) = (pos 1, [])
answer i2d_private = (pos 1, 7 ∷ [])
answer (verify_init md) = pos 1
answer (sign_init md) = pos 1
answer set_pss_padding = pos 1
answer set_pss_saltlen = pos 1
answer (digest_verify sig text) = pos 1
answer (digest_sign_size text) = (pos 1, 1)
answer (digest_sign text) = (pos 1, 7 ∷ [])
answer ecdsa_set0 = pos 1
answer i2d_sig_size = pos 2
answer i2d_sig = 7 ∷ 7 ∷ []
answer fromdata_init = pos 1
answer i2d_pubkey_size = pos 1
answer i2d_pubkey = 7 ∷ []
answer (encode_block text n) = (pos 0, [])
answer (decode_update text n) = (pos 0, [])
answer decode_final = (pos 0, [])
answer _ = tt

-- makes every object, answers so, and counts the calls
abbrev succeeds : Library crypto ℕ
succeeds = record { makes = λ o c w. (some (answer c), suc w); answers = λ c w. (answer c, suc w) }

answer-Possible : (c : Call) → Possible c (answer c)
answer-Possible ecdsa_set0 = refl
answer-Possible _ = tt

succeeds-Documented : Documented crypto Possible succeeds
succeeds-Documented = record {
  made_reply = λ o c w. answer-Possible c;
  reply = λ c w. answer-Possible c;
}

-- ES256 with a signature of 64 bytes
calls-Frees_example :
    after_all crypto Possible
      (run succeeds (code (ec_checks (1 ∷ []) (2 ∷ []) (replicate 64 9) 0)) 0).1
      (some [])
    ≡ some []
calls-Frees_example =
    calls-Frees succeeds succeeds-Documented (ec_checks (1 ∷ []) (2 ∷ []) (replicate 64 9) 0) 0

verifies : (run succeeds (rsa_verify (1 ∷ []) (2 ∷ []) (3 ∷ []) 0 true) 0).0 ≡ ok true
unfolding run rsa_verify select_md
verifies = refl

rsa_verify-Verified_example :
    (m : Digest) × (select_md 0 ≡ some m)
    × Verified m
        (1 ∷ [])
        (2 ∷ [])
        (3 ∷ [])
        true
        (run succeeds (rsa_verify (1 ∷ []) (2 ∷ []) (3 ∷ []) 0 true) 0).1
rsa_verify-Verified_example =
    rsa_verify-Verified succeeds (1 ∷ []) (2 ∷ []) (3 ∷ []) 0 true 0 verifies

-- "a+==", two bytes in base64
padded-stripped_example :
    padded (stripped ((b'a' ∷ b'+' ∷ []) ++ replicate 2 b'='))
    ≡ (b'a' ∷ b'+' ∷ []) ++ replicate 2 b'='
padded-stripped_example = padded-stripped (b'a' ∷ b'+' ∷ []) 2 refl (omega arith) refl
