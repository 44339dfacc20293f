-- ===== src/Common/Sha256/Tests.antt =====
-- The hasher of src/common/sha256.cpp on small inputs.
use regime_flow.Common.Sha256.Digest.{digest_lem, hash_blocks, padded, IsPadded, AreBytes, words_of}
use regime_flow.Base.{◌/◌, arith, ℕ, length, List, ◌≡◌, ◌∷◌, take, [], refl}
use regime_flow.Common.Sha256.Compress.{transform}
use regime_flow.Common.Sha256.{initial_state, digest, update, new_sha256}

-- The digest of "abc".
digest_of_abc :
    take 4 (digest (update (0x61 ∷ 0x62 ∷ 0x63 ∷ []) new_sha256)) ≡ 0xba ∷ 0x78 ∷ 0x16 ∷ 0xbf ∷ []
unfolding digest transform take
digest_of_abc = refl

abbrev abc : List ℕ
abc = 0x61 ∷ 0x62 ∷ 0x63 ∷ []

digest_lem_example :
    IsPadded abc (padded abc)
    × (words_of (digest (update abc new_sha256))
        ≡ hash_blocks (length (padded abc) / 64) (padded abc) initial_state)
    × AreBytes (digest (update abc new_sha256))
    × (length (digest (update abc new_sha256)) ≡ 32)
digest_lem_example = digest_lem abc (omega arith)
