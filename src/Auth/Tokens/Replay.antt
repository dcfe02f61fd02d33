-- ===== src/Auth/Tokens/Replay.antt =====
-- A code is to be used once; but its signed text is still good after its entry has left the map.
use sera_core.Prelude.{
  ℕ, ◌+◌, ◌≤◌, String, ◌≡◌, refl, true, Option, none, some, is_empty, truthy, or_text, is_some,
  Bool-cases, inl, inr, ◌∙◌,
}
use sera_core.Auth.OauthStore.{Crypto, ReadsBack, OauthToken, OauthStore}
use sera_core.Auth.Tokens.{
  ok, CodeParams, ExchangeParams, Nonces, code_payload, code_ttl, create_authorization_code,
  from_payload, exchange_code,
}
use sera_core.Auth.Tokens.Exchange.{
  created, find_code-created, find_code-signed, exchange_code-grant, grant-ok, succeeds,
  exchange_code-succeeds_iff, IsEntitled,
}

truthy-or_text : (o : Option String) → truthy (some (or_text o "")) ≡ truthy o
truthy-or_text none = refl
truthy-or_text (some s) = elim (Bool-cases (is_empty s)) [
  | inl e ↦ rw e refl
  | inr e ↦ rw e (rw e refl)
]

cc_same : {A : Type 0} {o : Option A} (x y : A) → o ≡ some x → o ≡ some y → x ≡ y
cc_same x y h k = cc

module _ (c : Crypto) where
  signed-IsEntitled :
      (now0 now now' : ℕ) (nonce : String) (p : CodeParams) (s : OauthStore) (q : ExchangeParams)
      → now' ≤ now0 + code_ttl
      → IsEntitled c now q (created c now0 nonce p s)
      → IsEntitled c now' q (from_payload q.code (code_payload now0 nonce p) (now0 + code_ttl))
  unfolding created code_payload
  signed-IsEntitled now0 now now' nonce p s q live h =
      (live, h.1, rw (truthy-or_text p.code_challenge) h.2)

  created-secret :
      (now : ℕ) (nonce : String) (p : CodeParams) (s : OauthStore)
      → (create_authorization_code c now nonce p s).1.signing_secret ≡ s.signing_secret
  unfolding create_authorization_code
  created-secret now nonce p s = refl

  created-names :
      (now : ℕ) (nonce : String) (p : CodeParams) (s : OauthStore)
      → is_some (created c now nonce p s).session_id ≡ true
  unfolding created
  created-names now nonce p s = refl

  payload-names :
      (now : ℕ) (nonce : String) (p : CodeParams) → is_some (code_payload now nonce p).sub ≡ true
  unfolding code_payload
  payload-names now nonce p = refl

  -- A code that was created and exchanged is exchanged again by the same request, up to and at its
  -- expiry: the entry is deleted, and the signature of the text is still good; where the encoding
  -- reads the payload back.
  pub exchange_code-replay :
      (now0 now now' : ℕ) (nonce : String) (p : CodeParams) (s : OauthStore) (q : ExchangeParams)
      (n n' : Nonces) (t : OauthToken) (s' : OauthStore)
      → ReadsBack c (code_payload now0 nonce p)
      → q.code ≡ (create_authorization_code c now0 nonce p s).0
      → exchange_code c now n q (create_authorization_code c now0 nonce p s).1 ≡ ok t s'
      → now' ≤ now0 + code_ttl
      → succeeds (exchange_code c now' n' q s') ≡ true
  exchange_code-replay now0 now now' nonce p s q n n' t s' readable named first live =
      let (a, found, entitled, granted) =
        exchange_code-grant c now n q (create_authorization_code c now0 nonce p s).1 t s' first in
      let (key, gone, _, _) =
        grant-ok c now n q.code a a.session_id (create_authorization_code c now0 nonce p s).1 t s'
          granted in
      let same : a ≡ created c now0 nonce p s =
        cc_same a _ found (rw named (find_code-created c now0 now nonce p s)) in
      let again =
        find_code-signed c now0 now' nonce p s s' readable live
          (key ∙ created-secret now0 nonce p s) (rw named at gone) in
      (exchange_code-succeeds_iff c now' n' q s'
          (from_payload q.code (code_payload now0 nonce p) (now0 + code_ttl)) (rw named again)
          (payload-names now0 nonce p)).1
        (signed-IsEntitled now0 now now' nonce p s q live (rw same at entitled))
