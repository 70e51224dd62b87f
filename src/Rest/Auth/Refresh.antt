-- ===== src/Rest/Auth/Refresh.antt =====
-- What a refresh of the shared credentials changes.
use libcaffeine.Base.{◌≡◌, refl, Bool, true, false, none, some, inl, inr, Option-cases}
use libcaffeine.Base.Outcome.{Outcome, done, thrown, unfinished, undefined, continue}
use libcaffeine.Rest.Types.{Credentials, AuthResponse}
use libcaffeine.Rest.Network.{Network, Client, Session}
use libcaffeine.Rest.Auth.{store, refresh_auth, refresh_credentials}

module _ (net : Network) (client : Client) where
  -- What a refresh that leads from `s` to `o` and `s'` did.
  pub data Refreshed (s : Session net) : Outcome Bool → Session net → Type 0 where
    renewed :
        (r : AuthResponse) (c : Credentials) {s' : Session net}
        → refresh_auth net client s.credentials.refresh_token s.world ≡ (done r, s'.world)
        → r.credentials ≡ some c
        → s'.credentials ≡ c
        → Refreshed s (done true) s'
    refused :
        (r : AuthResponse) {s' : Session net}
        → refresh_auth net client s.credentials.refresh_token s.world ≡ (done r, s'.world)
        → r.credentials ≡ none
        → s'.credentials ≡ s.credentials
        → Refreshed s (done false) s'
    broken :
        {o : Outcome Bool} {s' : Session net}
        → ((b : Bool) → o ≡ done b → ⊥)
        → s'.credentials ≡ s.credentials
        → Refreshed s o s'

  store-Refreshed :
      (s : Session net) (o : Outcome AuthResponse) (w : net.World)
      → refresh_auth net client s.credentials.refresh_token s.world ≡ (o, w)
      → let t = continue (store net client) o (record s { world = w }) in Refreshed s t.0 t.1
  store-Refreshed s thrown w e = broken (λ b h. cc) refl
  store-Refreshed s unfinished w e = broken (λ b h. cc) refl
  store-Refreshed s undefined w e = broken (λ b h. cc) refl
  store-Refreshed s (done r) w e = elim (Option-cases (r.credentials)) [
    | inl n ↦ rw n (refused r e n refl)
    | inr (c, n) ↦ rw n (renewed r c e n refl)
  ]

  -- A refresh asks with the shared refresh token. If it answers true, the shared credentials are
  -- then those of the platform's answer; if it answers false, that answer holds none; and if it
  -- does not answer true, the shared credentials stay as they are.
  pub refresh_credentials-Refreshed :
      (s : Session net) → let t = refresh_credentials net client s in Refreshed s t.0 t.1
  unfolding refresh_credentials
  refresh_credentials-Refreshed s =
      let r = refresh_auth net client s.credentials.refresh_token s.world in
      store-Refreshed s r.0 r.1 refl
