-- ===== src/Crypto/Tests.antt =====
-- Tests and witnesses of Crypto, with a cipher that leaves the text as it is.
use session_proxy.Base.{◌≡◌, refl, some, [], ◌∷◌, arith}
use session_proxy.Base.Bytes.{Bytes}
use session_proxy.Store.App.{ok}
use session_proxy.Store.Sample.{start}
use session_proxy.Crypto.{Aead, encrypt, decrypt}
use session_proxy.Crypto.RoundTrip.{decrypt-encrypt}

abbrev pub plain : Aead
plain = record {
  nonce_size = 2;
  seal = λ n p. p;
  open_sealed = λ n c. some c;
  open_sealed-seal = λ n p e h. refl;
  seal-IsBytes = λ n p h. h;
}

decrypt-encrypt_example :
    (stored : Bytes) × (((encrypt plain
          (104 ∷ 105 ∷ [])
          (record start { random = (7 ∷ 8 ∷ []) ∷ [] })).0
        ≡ ok stored)
      × (decrypt plain stored ≡ some (104 ∷ 105 ∷ [])))
decrypt-encrypt_example =
    decrypt-encrypt plain (104 ∷ 105 ∷ []) (7 ∷ 8 ∷ []) []
      (record start { random = (7 ∷ 8 ∷ []) ∷ [] }) refl refl (ground arith) (ground arith)
