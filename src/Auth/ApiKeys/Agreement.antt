-- ===== src/Auth/ApiKeys/Agreement.antt =====
-- The two maps of the API keys agree, after every operation.
use Prim.Native.String
use sera_core.Prelude.{
  String, ◌≡◌, ◌↔◌, refl, true, ◌||◌, ◌&&◌, not, Option, none, some, List, [], ◌∷◌, ◌++◌, ◌==◌,
  eq_iff, if◌then◌else◌, get_or, is_empty, truthy, filter, arith, Bool-cases, Option-cases, inl,
  inr, ◌∙◌, subst,
}
use sera_core.Dict
use sera_core.Dict.{Dict}
use sera_core.Dict.Laws.{get-set, get-delete}
use sera_core.Auth.ApiKeys.{
  McpApiKeyStore, has_key, add_key, remove_key, new_key_store, generate_key, drop_key, revoke_key,
  delete_keys, revoke_all_for_user,
}

-- the keys of a user, none where the user has no set
abbrev pub keys_of : Dict (List String) → String → List String
keys_of d user = get_or (Dict.get d user) []

-- a key belongs to the user that it resolves to, and to no other
abbrev pub Agrees : McpApiKeyStore → Type 0
Agrees s =
    (key user : String)
    → (Dict.get s.key_to_user key ≡ some user) ↔ (has_key key (keys_of s.user_to_keys user) ≡ true)

has_key-append :
    (k key : String) (keys : List String)
    → has_key k (keys ++ (key ∷ [])) ≡ (has_key k keys || key == k)
has_key-append k key [] = ground arith
has_key-append k key (x ∷ keys) = rw (has_key-append k key keys) (ground arith)

has_key-add :
    (k key : String) (keys : List String)
    → has_key k (add_key key keys) ≡ (has_key k keys || key == k)
has_key-add k key keys = elim (Bool-cases (has_key key keys)) [
  | inl e ↦ rw e (ground (arith, eq_iff key k))
  | inr e ↦ rw e (has_key-append k key keys)
]

has_key-remove :
    (k key : String) (keys : List String)
    → has_key k (remove_key key keys) ≡ (has_key k keys && not (key == k))
unfolding filter
has_key-remove k key [] = refl
has_key-remove k key (x ∷ keys) =
    ground (arith, has_key-remove k key keys, eq_iff x key, eq_iff x k, eq_iff key k)

keys_of-kept :
    (d : Dict (List String)) (user w key : String) (keys kept : List String)
    → remove_key key keys ≡ kept
    → keys_of (drop_key w (some keys) key d) user ≡ (if w == user then kept else keys_of d user)
unfolding drop_key
keys_of-kept d user w key keys [] e = rw (e, drop_key) (rw (get-delete d w user) (ground arith))
keys_of-kept d user w key keys (k ∷ ks) e =
    rw (e, drop_key) (rw (get-set d w user (k ∷ ks)) (ground arith))

keys_of-drop :
    (d : Dict (List String)) (user w key : String)
    → keys_of (drop_key w (Dict.get d w) key d) user
      ≡ (if w == user then remove_key key (keys_of d user) else keys_of d user)
unfolding drop_key filter
keys_of-drop d user w key = elim (Option-cases (Dict.get d w)) [
  | inl g ↦
      rw (g, drop_key)
        (elim (Bool-cases (w == user)) [
          | inl e ↦
              let same : Dict.get d user ≡ none =
                subst (λ u. Dict.get d u ≡ none) ((eq_iff w user).0 e) g in
              rw (e, same) refl
          | inr e ↦ rw e refl
        ])
  | inr (keys, g) ↦
      let kept = keys_of-kept d user w key keys (remove_key key keys) refl in
      rw (g, drop_key)
        (elim (Bool-cases (w == user)) [
          | inl e ↦
              let same : Dict.get d user ≡ some keys =
                subst (λ u. Dict.get d u ≡ some keys) ((eq_iff w user).0 e) g in
              rw same (kept ∙ rw e refl)
          | inr e ↦ kept ∙ rw e refl
        ])
]

get-delete_keys :
    (keys : List String) (d : Dict String) (k : String)
    → Dict.get (delete_keys keys d) k ≡ (if has_key k keys then none else Dict.get d k)
unfolding delete_keys
get-delete_keys [] d k = refl
get-delete_keys (x ∷ keys) d k =
    ground (arith, get-delete_keys keys (Dict.delete d x) k, get-delete d x k)

keys_of-set :
    (d : Dict (List String)) (user w : String) (keys : List String)
    → keys_of (Dict.set d w keys) user ≡ (if w == user then keys else keys_of d user)
keys_of-set d user w keys = rw (get-set d w user keys) (ground arith)

keys_of-delete :
    (d : Dict (List String)) (user w : String)
    → keys_of (Dict.delete d w) user ≡ (if w == user then [] else keys_of d user)
keys_of-delete d user w = rw (get-delete d w user) (ground arith)

-- one key more, of one user
agree-set :
    (s : McpApiKeyStore) (key w k user : String)
    → Agrees s
    → Dict.get s.key_to_user key ≡ none
    → ((if key == k then some w else Dict.get s.key_to_user k) ≡ some user) ↔ (
        has_key k (
          if w == user then add_key key (keys_of s.user_to_keys w) else keys_of s.user_to_keys user)
        ≡ true)
agree-set s key w k user h fresh =
    let (to, from) = h k user in
    let added = has_key-add k key (keys_of s.user_to_keys w) in
    elim (Bool-cases (w == user)) [
      | inl e ↦ rw e (rw added (ground (arith, eq_iff key k, (eq_iff w user).0 e, to, from)))
      | inr e ↦ rw e (ground (arith, eq_iff key k, eq_iff w user, e, to, from))
    ]

pub generate_key-Agrees :
    (hex user_id : String) (s : McpApiKeyStore)
    → Agrees s
    → Dict.get s.key_to_user (Prim.Native.String.◌++◌ "sk-sera-" hex) ≡ none
    → Agrees (generate_key hex user_id s).1
unfolding generate_key
generate_key-Agrees hex user_id s h fresh k user =
    let key = Prim.Native.String.◌++◌ "sk-sera-" hex in
    rw (get-set s.key_to_user key k user_id) (
      rw (keys_of-set s.user_to_keys user user_id (add_key key (keys_of s.user_to_keys user_id)))
        (agree-set s key user_id k user h fresh))

-- one key less, of the user that had it
agree-delete :
    (s : McpApiKeyStore) (key w k user : String)
    → Agrees s
    → Dict.get s.key_to_user key ≡ some w
    → ((if key == k then none else Dict.get s.key_to_user k) ≡ some user) ↔ (
        has_key k (
          if w == user
          then remove_key key (keys_of s.user_to_keys user)
          else keys_of s.user_to_keys user)
        ≡ true)
agree-delete s key w k user h found =
    let (to, from) = h k user in
    let removed = has_key-remove k key (keys_of s.user_to_keys user) in
    elim (Bool-cases (w == user)) [
      | inl e ↦ rw e (rw removed (ground (arith, eq_iff key k, to, from)))
      | inr e ↦ rw e (ground (arith, eq_iff key k, eq_iff w user, e, to, from))
    ]

pub revoke_key-Agrees : (key : String) (s : McpApiKeyStore) → Agrees s → Agrees (revoke_key key s).1
unfolding revoke_key
revoke_key-Agrees key s h k user = elim (Option-cases (Dict.get s.key_to_user key)) [
  | inl g ↦ rw (g, revoke_key) (h k user)
  | inr (w, g) ↦
      rw (g, revoke_key)
        (elim (Bool-cases (is_empty w)) [
          | inl e ↦ rw e (h k user)
          | inr e ↦ rw e (
              rw (get-delete s.key_to_user key k)
                (rw (keys_of-drop s.user_to_keys user w key) (agree-delete s key w k user h g)))
        ])
]

-- what is left of a key's user when a user's keys are revoked
abbrev pub without : String → Option String → Option String
without user none = none
without user (some w) = if w == user then none else some w

without-has_key :
    (s : McpApiKeyStore) (user key : String)
    → Agrees s
    → (if has_key key (keys_of s.user_to_keys user) then none else Dict.get s.key_to_user key)
      ≡ without user (Dict.get s.key_to_user key)
without-has_key s user key h =
    let (to, from) = h key user in
    elim (Option-cases (Dict.get s.key_to_user key)) [
      | inl g ↦ rw g (ground arith)
      | inr (w, g) ↦ rw g (ground (arith, g, eq_iff w user, to, from))
    ]

pub revoke_all_for_user-get :
    (s : McpApiKeyStore) (user key : String)
    → Agrees s
    → Dict.get (revoke_all_for_user user s).1.key_to_user key
      ≡ without user (Dict.get s.key_to_user key)
unfolding revoke_all_for_user
revoke_all_for_user-get s user key h =
    let left = without-has_key s user key h in
    elim (Option-cases (Dict.get s.user_to_keys user)) [
      | inl g ↦ rw (g, revoke_all_for_user) (rw g at left)
      | inr (keys, g) ↦
          rw (g, revoke_all_for_user) (get-delete_keys keys s.key_to_user key ∙ rw g at left)
    ]

revoke_all_for_user-keys :
    (s : McpApiKeyStore) (user u : String)
    → keys_of (revoke_all_for_user user s).1.user_to_keys u
      ≡ (if user == u then [] else keys_of s.user_to_keys u)
unfolding revoke_all_for_user
revoke_all_for_user-keys s user u = elim (Option-cases (Dict.get s.user_to_keys user)) [
  | inl g ↦ rw (g, revoke_all_for_user) (ground (arith, g, eq_iff user u))
  | inr (keys, g) ↦ rw (g, revoke_all_for_user) (keys_of-delete s.user_to_keys u user)
]

pub revoke_all_for_user-Agrees :
    (user : String) (s : McpApiKeyStore) → Agrees s → Agrees (revoke_all_for_user user s).1
revoke_all_for_user-Agrees user s h k u =
    let (to, from) = h k u in
    rw (revoke_all_for_user-get s user k h) (
      rw (revoke_all_for_user-keys s user u) (elim (Option-cases (Dict.get s.key_to_user k)) [
        | inl g ↦ rw g (ground (arith, g, eq_iff user u, to, from))
        | inr (w, g) ↦ rw g (ground (arith, g, eq_iff user u, eq_iff w user, eq_iff w u, to, from))
      ]))

pub new_key_store-Agrees : (key : Option String) → Agrees (new_key_store key)
unfolding new_key_store Dict.get
new_key_store-Agrees key k user = elim (Option-cases (truthy key)) [
  | inl e ↦ rw (e, new_key_store) (ground arith)
  | inr (t, e) ↦ rw (e, new_key_store) (ground (arith, eq_iff t k, eq_iff "admin-system-user" user))
]
