-- ===== src/Auth/Tokens/Refresh.antt =====
-- Refresh tokens: each answer's refresh token is good for the next.
use sera_core.Prelude.{
  ℕ, String, ◌≡◌, refl, true, Option, none, some, get_or, is_text, is_some, Bool-cases,
  Option-cases, inl, inr, subst,
}
use sera_core.Dict
use sera_core.Dict.Laws.{get-set_self}
use sera_core.Auth.OauthStore.{Crypto, OauthToken, OauthStore}
use sera_core.Auth.Tokens.{
  ok, Nonces, new_token, store_token, find_refresh, invalidate, rotate, refresh_access_token,
}
use sera_core.Auth.Tokens.Exchange.{succeeds}

-- what a refresh gives: a token of the client, kept under its refresh text, with a session
abbrev Gives : String → OauthToken → OauthStore → Type 0
Gives client t s =
    (is_text t.client_id client ≡ true)
    × (is_some t.session_id ≡ true)
    × (Dict.get s.refresh_tokens (get_or t.refresh_token "") ≡ some t)

stored-Gives :
    (client : String) (t0 : OauthToken) (s0 : OauthStore) (t : OauthToken) (s' : OauthStore)
    → is_text t0.client_id client ≡ true
    → is_some t0.session_id ≡ true
    → ok t0 (store_token t0 s0) ≡ ok t s'
    → Gives client t s'
unfolding store_token
stored-Gives client t0 s0 t s' mine named e =
    let same : t0 ≡ t = cc in
    let kept : s' ≡ store_token t0 s0 = cc in
    subst (λ u. Gives client u s') same
      (mine, named, rw kept (get-set_self s0.refresh_tokens (get_or t0.refresh_token "") t0))

module _ (c : Crypto) where
  rotate-Gives :
      (now : ℕ) (n : Nonces) (text client : String) (old : OauthToken) (o : Option String)
      (s : OauthStore) (t : OauthToken) (s' : OauthStore)
      → is_text old.client_id client ≡ true
      → rotate c now n text old o s ≡ ok t s'
      → Gives client t s'
  unfolding rotate store_token new_token
  rotate-Gives now n text client old none s t s' h e = cc
  rotate-Gives now n text client old (some session) s t s' h e =
      stored-Gives client _ (invalidate text old s) t s' h refl e

  refresh-Gives :
      (now : ℕ) (n : Nonces) (text client : String) (s : OauthStore) (t : OauthToken)
      (s' : OauthStore)
      → refresh_access_token c now n text client s ≡ ok t s'
      → Gives client t s'
  unfolding refresh_access_token
  refresh-Gives now n text client s t s' e = elim (Option-cases (find_refresh c now text s)) [
    | inl g ↦ let k = rw (g, refresh_access_token) at e in cc
    | inr (old, g) ↦
        let k = rw (g, refresh_access_token) at e in
        elim (Bool-cases (is_text old.client_id client)) [
          | inr f ↦ let l = rw f at k in cc
          | inl f ↦ rotate-Gives now n text client old old.session_id s t s' f (rw f at k)
        ]
  ]

  find_refresh-kept :
      (now : ℕ) (text : String) (s : OauthStore) (t : OauthToken)
      → Dict.get s.refresh_tokens text ≡ some t
      → find_refresh c now text s ≡ some t
  unfolding find_refresh
  find_refresh-kept now text s t h = rw (h, find_refresh) refl

  rotate-succeeds :
      (now : ℕ) (n : Nonces) (text : String) (old : OauthToken) (o : Option String) (s : OauthStore)
      → is_some o ≡ true
      → succeeds (rotate c now n text old o s) ≡ true
  unfolding rotate
  rotate-succeeds now n text old none s h = cc
  rotate-succeeds now n text old (some session) s h = refl

  -- A refresh that succeeds gives a refresh token that the same client can refresh with, at
  -- any clock reading, on the store as the refresh left it.
  pub refresh_access_token-chain :
      (now now' : ℕ) (n n' : Nonces) (text client : String) (s : OauthStore) (t : OauthToken)
      (s' : OauthStore)
      → refresh_access_token c now n text client s ≡ ok t s'
      → succeeds (refresh_access_token c now' n' (get_or t.refresh_token "") client s') ≡ true
  unfolding refresh_access_token
  refresh_access_token-chain now now' n n' text client s t s' e =
      let (mine, named, kept) = refresh-Gives now n text client s t s' e in
      let found = find_refresh-kept now' (get_or t.refresh_token "") s' t kept in
      rw (found, refresh_access_token)
        (rw mine (rotate-succeeds now' n' (get_or t.refresh_token "") t t.session_id s' named))
