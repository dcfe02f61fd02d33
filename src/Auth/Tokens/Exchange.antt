-- ===== src/Auth/Tokens/Exchange.antt =====
-- What an exchange of an authorization code asks for, and what it gives.
use sera_core.Prelude.{
  ℕ, ◌+◌, ◌≤◌, String, ◌≡◌, ◌↔◌, refl, Bool, true, false, Option, none, some, truthy, or_text,
  is_text, is_some, ltb, arith, Option-cases, Bool-cases, inl, inr,
}
use sera_core.Dict
use sera_core.Dict.Laws.{get-set_self, get-delete_self}
use sera_core.Text.{to_lower}
use sera_core.Auth.OauthStore.{Crypto, ReadsBack, OauthAuthorizationCode, OauthToken, OauthStore}
use sera_core.Auth.OauthStore.Signed.{verify-sign}
use sera_core.Auth.Tokens.{
  Result, ok, throw, CodeParams, ExchangeParams, Nonces, from_payload, code_payload, code_ttl,
  create_authorization_code, verify_pkce, find_code, pkce_error, refused, store_token, grant,
  exchange_code,
}

abbrev pub succeeds : Result OauthToken → Bool
succeeds (ok t s) = true
succeeds (throw e s) = false

module _ (c : Crypto) where
  -- the verifier answers the challenge, where the code has one
  abbrev pub MeetsPkce : Option String → Option String → Option String → Type 0
  MeetsPkce none verifier method = Unit
  MeetsPkce (some challenge) none method = ⊥
  MeetsPkce (some challenge) (some verifier) method = verify_pkce c verifier challenge method ≡ true

  pkce_error-none_iff :
      (challenge verifier method : Option String)
      → (pkce_error c challenge verifier method ≡ none) ↔ MeetsPkce challenge verifier method
  unfolding pkce_error
  pkce_error-none_iff none verifier method = (λ h. tt, λ h. refl)
  pkce_error-none_iff (some challenge) none method = ground arith
  pkce_error-none_iff (some challenge) (some verifier) method = ground arith

  -- what the code asks of the one who exchanges it
  abbrev pub IsEntitled : ℕ → ExchangeParams → OauthAuthorizationCode → Type 0
  IsEntitled now q a =
      (now ≤ a.expires_at)
      × (is_text a.client_id q.client_id ≡ true)
      × MeetsPkce (truthy a.code_challenge) (truthy q.code_verifier) a.code_challenge_method

  refused-none_iff :
      (q : ExchangeParams) (a : OauthAuthorizationCode)
      → (refused c q a ≡ none) ↔ (
          (is_text a.client_id q.client_id ≡ true)
          × MeetsPkce (truthy a.code_challenge) (truthy q.code_verifier) a.code_challenge_method)
  unfolding refused
  refused-none_iff q a = elim (Bool-cases (is_text a.client_id q.client_id)) [
    | inr e ↦ rw e (ground arith)
    | inl e ↦
        let (to, from) =
          pkce_error-none_iff (truthy a.code_challenge) (truthy q.code_verifier)
            a.code_challenge_method in
        rw e (λ h. (refl, to h), λ h. from h.1)
  ]

  grant-succeeds :
      (now : ℕ) (n : Nonces) (text : String) (a : OauthAuthorizationCode) (o : Option String)
      (s : OauthStore)
      → succeeds (grant c now n text a o s) ≡ is_some o
  unfolding grant
  grant-succeeds now n text a none s = refl
  grant-succeeds now n text a (some session) s = refl

  -- A code that is known, in memory or by its signature, and names a session, is exchanged exactly
  -- when it has not expired, belongs to the client, and its PKCE challenge, if it has one, is met.
  pub exchange_code-succeeds_iff :
      (now : ℕ) (n : Nonces) (q : ExchangeParams) (s : OauthStore) (a : OauthAuthorizationCode)
      → find_code c now q.code s ≡ some a
      → is_some a.session_id ≡ true
      → (succeeds (exchange_code c now n q s) ≡ true) ↔ IsEntitled now q a
  unfolding exchange_code
  exchange_code-succeeds_iff now n q s a found named =
      let (to, from) = refused-none_iff q a in
      rw (found, exchange_code)
        (elim (Bool-cases (ltb a.expires_at now)) [
          | inl late ↦ rw late (λ h. cc, λ h. absurd (ground arith))
          | inr live ↦ rw live (elim (Option-cases (refused c q a)) [
            | inl e ↦ rw (e, grant-succeeds) (λ h. (ground arith, (to e).0, (to e).1), λ h. named)
            | inr (err, e) ↦ rw e (λ h. cc, λ h. let z = from (h.1, h.2) in cc)
          ])
        ])

  -- the code that is in memory after its creation
  unfoldable pub created : ℕ → String → CodeParams → OauthStore → OauthAuthorizationCode
  created now nonce p s = record {
    code = (create_authorization_code c now nonce p s).0;
    client_id = some p.client_id;
    redirect_uri = some p.redirect_uri;
    session_id = some (to_lower p.session_id);
    scope = p.scope;
    code_challenge = p.code_challenge;
    code_challenge_method = some (or_text p.code_challenge_method "S256");
    expires_at = now + code_ttl;
  }

  pub find_code-created :
      (now now' : ℕ) (nonce : String) (p : CodeParams) (s : OauthStore)
      → find_code c now'
          (create_authorization_code c now nonce p s).0
          (create_authorization_code c now nonce p s).1
        ≡ some (created now nonce p s)
  unfolding find_code created create_authorization_code
  find_code-created now now' nonce p s = rw (get-set_self, find_code) refl

  -- without the memory, the signed text gives the same code, but for defaults
  pub find_code-signed :
      (now now' : ℕ) (nonce : String) (p : CodeParams) (s s' : OauthStore)
      → ReadsBack c (code_payload now nonce p)
      → now' ≤ now + code_ttl
      → s'.signing_secret ≡ s.signing_secret
      → Dict.get s'.auth_codes (create_authorization_code c now nonce p s).0 ≡ none
      → find_code c now' (create_authorization_code c now nonce p s).0 s'
        ≡ some (
            from_payload
              (create_authorization_code c now nonce p s).0
              (code_payload now nonce p)
              (now + code_ttl))
  unfolding find_code create_authorization_code
  find_code-signed now now' nonce p s s' readable live key gone =
      rw (gone, find_code)
        (rw key (
          rw
            (verify-sign c "sera_code_" s.signing_secret now' (now + code_ttl)
              (code_payload now nonce p) readable (unfold code_payload in refl) (omega arith) live)
            refl))

  -- a successful exchange, taken apart
  pub exchange_code-grant :
      (now : ℕ) (n : Nonces) (q : ExchangeParams) (s : OauthStore) (t : OauthToken)
      (s' : OauthStore)
      → exchange_code c now n q s ≡ ok t s'
      → (a : OauthAuthorizationCode) × (find_code c now q.code s ≡ some a)
        × IsEntitled now q a
        × (grant c now n q.code a a.session_id s ≡ ok t s')
  unfolding exchange_code
  exchange_code-grant now n q s t s' h = elim (Option-cases (find_code c now q.code s)) [
    | inl e ↦ let k = rw (e, exchange_code) at h in cc
    | inr (a, e) ↦
        let k = rw (e, exchange_code) at h in
        elim (Bool-cases (ltb a.expires_at now)) [
          | inl late ↦ let l = rw late at k in cc
          | inr live ↦
              let l = rw live at k in
              elim (Option-cases (refused c q a)) [
                | inr (err, r) ↦ let m = rw r at l in cc
                | inl r ↦
                    let ok_client = (refused-none_iff q a).0 r in
                    (a, e, (ground arith, ok_client.0, ok_client.1), rw r at l)
              ]
        ]
  ]

  pub grant-ok :
      (now : ℕ) (n : Nonces) (text : String) (a : OauthAuthorizationCode) (o : Option String)
      (s : OauthStore) (t : OauthToken) (s' : OauthStore)
      → grant c now n text a o s ≡ ok t s'
      → (s'.signing_secret ≡ s.signing_secret)
        × (Dict.get s'.auth_codes text ≡ none)
        × (Dict.get s'.tokens t.access_token ≡ some t)
        × (is_some o ≡ true)
  unfolding grant store_token
  grant-ok now n text a none s t s' h = cc
  grant-ok now n text a (some session) s t s' h =
      ground (arith, get-delete_self s.auth_codes text, get-set_self s.tokens t.access_token t)
