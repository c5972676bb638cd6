-- ===== src/Protocol/Keys/Valid.antt =====
-- The keys that `encodePublicKey` lets pass.
use fuck_chat_control.Base.{ℕ, ◌≡◌, sym, Bool, List, length, ◌==◌, ==_iff, get_or}
use fuck_chat_control.Base.Result.{ok, require, >>=-eq-ok, require-eq-ok, of_ok}
use fuck_chat_control.Protocol.Keys.{encode_public_key}

-- A key that passes is 65 bytes and comes out as it was.
pub encode_public_key-eq-ok :
    (is_point : List ℕ → Bool) (input : List ℕ) {key : List ℕ}
    → encode_public_key is_point input ≡ ok key
    → (length input ≡ 65) × (key ≡ input)
unfolding encode_public_key
encode_public_key-eq-ok is_point input h =
    let (_, a, h1) = >>=-eq-ok (require (length input == 65) _) _ h in
    let (_, b, h2) = >>=-eq-ok (require (get_or input 0 0 == 4) _) _ h1 in
    let (_, c, h3) = >>=-eq-ok (require (is_point input) _) _ h2 in
    ((==_iff _ _).0 (require-eq-ok _ _ a), sym (of_ok h3))
